-- ===== src/Ledger/Service.antt =====
-- `DecisionService` of backend/ledger/service.py, over the store of one process. The ids and times
-- that it draws, and what other writers append between a seal and its append, are arguments.
use kernl.Prelude.{
  ℕ, String, Bool, true, false, ◌==◌, Option, none, some, List, [], ◌∷◌, if◌then◌else◌,
}
use kernl.Prelude.Dict.{Dict}
use kernl.Prelude.Lists.{take}
use kernl.Prelude.Result.{Result, ok, err}
use kernl.Python.{Json, null, boolean, str, obj}
use kernl.Python.Text.{Runtime, strip}
use kernl.Canonical.{Hashing, CanonicalError}
use kernl.Schema.{Bundle}
use kernl.Evaluator.Types.{EvalError, Outcome, Trace, EvaluationResult}
use kernl.Evaluator.Decide.{evaluate}
use kernl.Ledger.Events.{EventType, decision, adjudication, Actor, DecisionEvent, fields, sealed}
use kernl.Ledger.Store.{
  LedgerError, non_finite, chain_conflict, unavailable, Store, chain_head, append,
  by_idempotency_key,
}

-- `Outcome.model_dump(mode="json")` and `Trace.model_dump(mode="json")`, which pydantic makes.
pub record Dumps : Type 0 where
  pub of_outcome : Outcome → Dict Json
  pub of_trace : Trace → Dict Json

-- What `decide` and `record_adjudication` may raise.
pub data ServiceError : Type 0 where
  evaluation : EvalError → ServiceError
  ledger : LedgerError → ServiceError
  empty_rationale : ServiceError

-- One round of the retry loop: the `uuid4`, the time, and the events that other writers append after
-- the head was read and before this append.
pub record Attempt : Type 0 where
  pub event_id : String
  pub created_at : String
  pub others : List DecisionEvent

-- What a round seals: the fields of `_seal_raw` that stay the same from round to round.
pub record Draft : Type 0 where
  pub event_type : EventType
  pub company_id : String
  pub workflow : String
  pub actor : Actor
  pub idempotency_key : String
  pub facts : Dict Json
  pub outcome : Dict Json
  pub trace : Dict Json
  pub bundle_hash : String
  pub linked_event_id : Option String

-- The event of a round before it is sealed: it names the head of its company's chain.
abbrev pub unsealed : Draft → Attempt → Store → DecisionEvent
unsealed d a s = record {
  event_id = a.event_id;
  event_type = d.event_type;
  company_id = d.company_id;
  workflow = d.workflow;
  actor = d.actor;
  idempotency_key = d.idempotency_key;
  facts = d.facts;
  outcome = d.outcome;
  trace = d.trace;
  bundle_hash = d.bundle_hash;
  linked_event_id = d.linked_event_id;
  created_at = a.created_at;
  prev_event_hash = chain_head s d.company_id;
  event_hash = "";
}

-- A hash that raises ends the round with its ValueError.
unfoldable pub or_non_finite :
    Result CanonicalError DecisionEvent → Result LedgerError DecisionEvent
or_non_finite (ok e) = ok e
or_non_finite (err _) = err non_finite

-- What the loop does with the result of an append: a ChainConflict goes on, all else ends it.
unfoldable pub retry :
    Result LedgerError (DecisionEvent × Bool) × Store
    → (Store → Result LedgerError (DecisionEvent × Bool) × Store)
    → Result LedgerError (DecisionEvent × Bool) × Store
retry (ok r, s) again = (ok r, s)
retry (err chain_conflict, s) again = again s
retry (err e, s) again = (err e, s)

module _ (h : Hashing) where
  -- `_seal_raw`
  unfoldable pub seal_raw : Draft → Attempt → Store → Result LedgerError DecisionEvent
  unfolding or_non_finite
  seal_raw d a s = or_non_finite (sealed h (unsealed d a s))

  -- The appends of other writers.
  unfoldable pub interfere : List DecisionEvent → Store → Store
  interfere [] s = s
  interfere (e ∷ es) s = interfere es (append h e s).1

  -- `_append_sealed`, one round for each attempt.
  unfoldable pub append_sealed :
      Draft → List Attempt → Store → Result LedgerError (DecisionEvent × Bool) × Store
  append_sealed d [] s = (err unavailable, s)
  append_sealed d (a ∷ later) s = elim (seal_raw d a s) [
    | err e ↦ (err e, s)
    | ok e ↦ retry (append h e (interfere a.others s)) (λ t. append_sealed d later t)
  ]

-- _MAX_CHAIN_CONFLICT_RETRIES
abbrev pub max_chain_conflict_retries : ℕ
max_chain_conflict_retries = 8

abbrev pub Answer : Type 0
Answer = Result ServiceError (DecisionEvent × Bool) × Store

unfoldable pub as_service : Result LedgerError (DecisionEvent × Bool) × Store → Answer
as_service (ok r, s) = (ok r, s)
as_service (err e, s) = (err (ledger e), s)

-- The arguments of `decide`.
pub record Request : Type 0 where
  pub company_id : String
  pub workflow : String
  pub facts : Dict Json
  pub actor : Actor
  pub idempotency_key : String
  pub bundle : Bundle
  pub bundle_hash : String

-- The arguments of `record_adjudication`.
pub record Adjudication : Type 0 where
  pub company_id : String
  pub original : DecisionEvent
  pub actor : Actor
  pub chosen_action : String
  pub outcome_kind : String
  pub rationale : String
  pub idempotency_key : String

module _ (rt : Runtime) (h : Hashing) (dumps : Dumps) where
  -- `_seal` of an evaluation.
  unfoldable pub decision_draft : Request → EvaluationResult → Draft
  decision_draft q result = record {
    event_type = decision;
    company_id = q.company_id;
    workflow = q.workflow;
    actor = q.actor;
    idempotency_key = q.idempotency_key;
    facts = q.facts;
    outcome = dumps.of_outcome result.outcome;
    trace = dumps.of_trace result.trace;
    bundle_hash = q.bundle_hash;
    linked_event_id = none;
  }

  unfoldable pub decide_new :
      Request → List Attempt → Result EvalError EvaluationResult → Store → Answer
  unfolding decision_draft as_service
  decide_new q attempts (err e) s = (err (evaluation e), s)
  decide_new q attempts (ok result) s =
      as_service
        (append_sealed h (decision_draft q result) (take max_chain_conflict_retries attempts) s)

  unfoldable pub decide : Request → List Attempt → Store → Answer
  unfolding decide_new
  decide q attempts s = elim (by_idempotency_key s q.company_id q.idempotency_key) [
    | some existing ↦ (ok (existing, false), s)
    | none ↦ decide_new q attempts (evaluate rt q.facts q.bundle q.workflow) s
  ]

  unfoldable pub adjudication_draft : Adjudication → Draft
  adjudication_draft j = record {
    event_type = adjudication;
    company_id = j.company_id;
    workflow = j.original.workflow;
    actor = j.actor;
    idempotency_key = j.idempotency_key;
    facts = j.original.facts;
    outcome =
        ("kind", str j.outcome_kind)
        ∷ ("action", str j.chosen_action)
        ∷ ("policy_id", null)
        ∷ ("adjudicated", boolean true)
        ∷ ("rationale", str j.rationale)
        ∷ [];
    trace =
        ("trace_version", str "1")
        ∷ ("kind", str "adjudication")
        ∷ ("original_event_id", str j.original.event_id)
        ∷ ("original_outcome", obj (fields j.original.outcome))
        ∷ [];
    bundle_hash = j.original.bundle_hash;
    linked_event_id = some j.original.event_id;
  }

  unfoldable pub record_adjudication : Adjudication → List Attempt → Store → Answer
  unfolding adjudication_draft as_service
  record_adjudication j attempts s =
      if strip rt j.rationale == ""
      then (err empty_rationale, s)
      else as_service
          (append_sealed h (adjudication_draft j) (take max_chain_conflict_retries attempts) s)
