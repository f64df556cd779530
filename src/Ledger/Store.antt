-- ===== src/Ledger/Store.antt =====
-- `InMemoryLedgerStore` of backend/ledger/store.py. A call returns its result and the store that it
-- leaves, also when it raises.
use kernl.Prelude.{
  ℕ, String, Bool, true, false, ◌&&◌, ◌==◌, Option, none, some, List, [], ◌∷◌, ◌++◌, if◌then◌else◌,
}
use mathlib.Core.List.{reverse}
use kernl.Prelude.Dict
use kernl.Prelude.Dict.{Dict}
use kernl.Prelude.PairDict
use kernl.Prelude.PairDict.{PairDict}
use kernl.Prelude.Lists.{keep, take, drop, get_last?}
use kernl.Prelude.Sort.{str_leb}
use kernl.Prelude.Result.{Result, ok, err}
use kernl.Python.{Json, str}
use kernl.Canonical.{Hashing, CanonicalError}
use kernl.Ledger.Events.{DecisionEvent, verify}

-- The ValueErrors of `append` and of a hash, ChainConflict, and LedgerUnavailableError.
pub data LedgerError : Type 0 where
  not_sealed non_finite chain_conflict unavailable : LedgerError

pub record Store : Type 0 where
  pub events : Dict (List DecisionEvent)
  pub by_key : PairDict DecisionEvent
  pub by_id : PairDict DecisionEvent

abbrev pub empty : Store
empty = record { events = []; by_key = []; by_id = [] }

abbrev pub or_empty : Option (List DecisionEvent) → List DecisionEvent
or_empty none = []
or_empty (some es) = es

-- `self._events.get(company_id, [])`
unfoldable pub stream : Store → String → List DecisionEvent
stream s company = or_empty (Dict.lookup company s.events)

-- `stream[-1].event_hash if stream else None`
unfoldable pub head_hash : List DecisionEvent → Option String
head_hash es = elim (get_last? es) [ none ↦ none | some e ↦ some e.event_hash ]

unfoldable pub chain_head : Store → String → Option String
unfolding stream head_hash
chain_head s company = head_hash (stream s company)

unfoldable pub same_hash : Option String → Option String → Bool
same_hash none none = true
same_hash (some a) (some b) = a == b
same_hash _ _ = false

-- `self._events.setdefault(company_id, [])`
unfoldable pub set_default : Store → String → Store
set_default s company = elim (Dict.lookup company s.events) [
  | none ↦ record s { events = Dict.insert company [] s.events }
  | some _ ↦ s
]

-- The three writes of `append`.
unfoldable pub add : Store → DecisionEvent → Store
add s e = record s {
  events =
      Dict.insert e.company_id (or_empty (Dict.lookup e.company_id s.events) ++ e ∷ []) s.events;
  by_key = PairDict.insert e.company_id e.idempotency_key e s.by_key;
  by_id = PairDict.insert e.company_id e.event_id e s.by_id;
}

-- What `append` does with an event that verifies.
unfoldable pub append_verified :
    DecisionEvent → Store → Result LedgerError (DecisionEvent × Bool) × Store
unfolding same_hash chain_head set_default add
append_verified e s = elim (PairDict.lookup e.company_id e.idempotency_key s.by_key) [
  | some existing ↦ (ok (existing, false), s)
  | none ↦
      if same_hash e.prev_event_hash (chain_head s e.company_id)
      then (ok (e, true), add s e)
      else (err chain_conflict, set_default s e.company_id)
]

-- One round of the loop: the event verifies, and it names the hash before it.
unfoldable pub chain_step :
    Result CanonicalError Bool → Bool → Result CanonicalError Bool → Result CanonicalError Bool
chain_step (err x) linked rest = err x
chain_step (ok false) linked rest = ok false
chain_step (ok true) linked rest = if linked then rest else ok false

-- `append` by what `event.verify()` returned.
unfoldable pub append_if :
    Result CanonicalError Bool
    → DecisionEvent
    → Store
    → Result LedgerError (DecisionEvent × Bool) × Store
append_if (err _) e s = (err non_finite, s)
append_if (ok false) e s = (err not_sealed, s)
append_if (ok true) e s = append_verified e s

module _ (h : Hashing) where
  unfoldable pub append : DecisionEvent → Store → Result LedgerError (DecisionEvent × Bool) × Store
  unfolding append_if
  append e s = append_if (verify h e) e s

  -- The loop of `verify_chain`, from the hash of the event before.
  unfoldable pub verify_from : Option String → List DecisionEvent → Result CanonicalError Bool
  unfolding chain_step
  verify_from prev [] = ok true
  verify_from prev (e ∷ es) =
      chain_step (verify h e) (same_hash e.prev_event_hash prev)
        (verify_from (some e.event_hash) es)

  unfoldable pub verify_chain : Store → String → Result CanonicalError Bool
  verify_chain s company = verify_from none (stream s company)

unfoldable pub get : Store → String → String → Option DecisionEvent
get s company event_id = PairDict.lookup company event_id s.by_id

unfoldable pub by_idempotency_key : Store → String → String → Option DecisionEvent
by_idempotency_key s company key = PairDict.lookup company key s.by_key

-- The filters of `list`; `none` is an argument left out.
pub record Query : Type 0 where
  pub workflow : Option String
  pub outcome_kind : Option String
  pub bundle_hash : Option String
  pub since : Option String
  pub until : Option String
  pub limit : ℕ
  pub offset : ℕ

unfoldable pub accepts : Option String → (String → Bool) → Bool
accepts none test = true
accepts (some x) test = test x

unfoldable pub is_text : Option Json → String → Bool
is_text (some (str s)) k = s == k
is_text _ k = false

unfoldable pub selects : Query → DecisionEvent → Bool
unfolding accepts is_text
selects q e =
    accepts q.workflow (λ w. e.workflow == w)
    && accepts q.outcome_kind (λ k. is_text (Dict.lookup "kind" e.outcome) k)
    && accepts q.bundle_hash (λ x. e.bundle_hash == x)
    && accepts q.since (λ t. str_leb t e.created_at)
    && accepts q.until (λ t. str_leb e.created_at t)

-- Newest first, `rows[offset : offset + limit]`.
unfoldable pub list : Store → String → Query → List DecisionEvent
unfolding selects stream
list s company q = take q.limit (drop q.offset (reverse (keep (selects q) (stream s company))))
