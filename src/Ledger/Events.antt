-- ===== src/Ledger/Events.antt =====
-- The events of backend/ledger/events.py and their hashes.
use kernl.Prelude.{String, Bool, true, false, ◌==◌, Option, none, some, [], ◌∷◌}
use kernl.Prelude.Dict.{Dict}
use kernl.Prelude.Result.{Result, ok, ◌>>=◌}
use kernl.Python.{Json, null, str, obj, Fields, end, field}
use kernl.Canonical.{Hashing, CanonicalError, content_hash}

pub data EventType : Type 0 where
  decision adjudication : EventType

pub record Actor : Type 0 where
  pub kind : String
  pub id : String
  pub api_key_id : Option String

pub record DecisionEvent : Type 0 where
  pub event_id : String
  pub event_type : EventType
  pub company_id : String
  pub workflow : String
  pub actor : Actor
  pub idempotency_key : String
  pub facts : Dict Json
  pub outcome : Dict Json
  pub trace : Dict Json
  pub bundle_hash : String
  pub linked_event_id : Option String
  pub created_at : String
  pub prev_event_hash : Option String
  pub event_hash : String

-- The JSON forms that `model_dump` gives to the parts of an event.
unfoldable pub fields : Dict Json → Fields
fields [] = end
fields ((k, v) ∷ d) = field k v (fields d)

unfoldable pub opt_str : Option String → Json
opt_str none = null
opt_str (some s) = str s

unfoldable pub type_str : EventType → String
type_str decision = "decision"
type_str adjudication = "adjudication"

actor_json : Actor → Json
unfolding opt_str
actor_json a = obj (
    field "type" (str a.kind)
      (field "id" (str a.id) (field "api_key_id" (opt_str a.api_key_id) end)))

-- `model_dump` without `event_hash`.
unfoldable pub body : Hashing → DecisionEvent → Json
unfolding fields opt_str type_str actor_json
body h e = obj (
    fields (
      ("event_id", str e.event_id)
      ∷ ("event_type", str (type_str e.event_type))
      ∷ ("company_id", str e.company_id)
      ∷ ("workflow", str e.workflow)
      ∷ ("actor", actor_json e.actor)
      ∷ ("idempotency_key", str e.idempotency_key)
      ∷ ("facts", h.dump_dict e.facts)
      ∷ ("outcome", h.dump_dict e.outcome)
      ∷ ("trace", h.dump_dict e.trace)
      ∷ ("bundle_hash", str e.bundle_hash)
      ∷ ("linked_event_id", opt_str e.linked_event_id)
      ∷ ("created_at", str e.created_at)
      ∷ ("prev_event_hash", opt_str e.prev_event_hash)
      ∷ []))

module _ (h : Hashing) where
  unfoldable pub compute_hash : DecisionEvent → Result CanonicalError String
  compute_hash e = content_hash h (body h e)

  unfoldable pub sealed : DecisionEvent → Result CanonicalError DecisionEvent
  sealed e = compute_hash e >>= λ x. ok (record e { event_hash = x })

  -- `bool(self.event_hash) and self.event_hash == self.compute_hash()`
  unfoldable pub verify : DecisionEvent → Result CanonicalError Bool
  verify e = elim (e.event_hash == "") [
    | true ↦ ok false
    | false ↦ compute_hash e >>= λ x. ok (e.event_hash == x)
  ]
