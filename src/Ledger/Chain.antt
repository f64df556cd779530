-- ===== src/Ledger/Chain.antt =====
-- The hash chain of a company's stream: appends keep it, only extend it, and answer a used
-- idempotency key with the event that has it.
use kernl.Prelude.{
  ◌≡◌, refl, ap, ◌⊎◌, inl, inr, String, Bool, true, false, ◌==◌, Option, none, some, List, [], ◌∷◌,
  ◌++◌, if◌then◌else◌, arith, eq_iff, Bool-cases, Option-cases,
}
use kernl.Prelude.Dict
use kernl.Prelude.Dict.{Dict}
use kernl.Prelude.PairDict
use kernl.Prelude.Result.{Result, ok, err}
use kernl.Canonical.{Hashing, CanonicalError}
use kernl.Ledger.Events.{DecisionEvent, verify}
use kernl.Ledger.Store.{
  LedgerError, Store, or_empty, stream, head_hash, chain_head, same_hash, set_default, add,
  append_verified, chain_step, chain_conflict, verify_from, by_idempotency_key,
}

pub same_hash→eq : (a b : Option String) → same_hash a b ≡ true → a ≡ b
unfolding same_hash
same_hash→eq none none h = refl
same_hash→eq none (some b) h = cc
same_hash→eq (some a) none h = cc
same_hash→eq (some a) (some b) h = ap some ((eq_iff a b).0 h)

-- The hash that the next event must name, from the hash before the first.
abbrev pub last_hash : Option String → List DecisionEvent → Option String
last_hash prev [] = prev
last_hash prev (e ∷ es) = last_hash (some e.event_hash) es

pub head_hash-eq-last_hash :
    (e : DecisionEvent) (es : List DecisionEvent) (prev : Option String)
    → head_hash (e ∷ es) ≡ last_hash prev (e ∷ es)
unfolding head_hash
head_hash-eq-last_hash e [] prev = refl
head_hash-eq-last_hash e (f ∷ es) prev = head_hash-eq-last_hash f es (some e.event_hash)

pub head_hash-eq-last_hash-none : (es : List DecisionEvent) → head_hash es ≡ last_hash none es
unfolding head_hash
head_hash-eq-last_hash-none [] = refl
head_hash-eq-last_hash-none (e ∷ es) = head_hash-eq-last_hash e es none

pub stream-add :
    (s : Store) (e : DecisionEvent) (c : String)
    → stream (add s e) c ≡ (if e.company_id == c then stream s c ++ e ∷ [] else stream s c)
unfolding stream add
stream-add s e c = ground (
  arith,
  Dict.lookup-insert e.company_id c (or_empty (Dict.lookup e.company_id s.events) ++ e ∷ [])
      s.events,
  eq_iff e.company_id c,
)

pub stream-set_default : (s : Store) (k c : String) → stream (set_default s k) c ≡ stream s c
unfolding stream set_default
stream-set_default s k c = ground (arith, Dict.lookup-insert k c [] s.events, eq_iff k c)

pub chain_step-true :
    (v : Result CanonicalError Bool) (linked : Bool) (rest : Result CanonicalError Bool)
    → chain_step v linked rest ≡ ok true
    → (v ≡ ok true) × (linked ≡ true) × (rest ≡ ok true)
unfolding chain_step
chain_step-true (err x) linked rest e = cc
chain_step-true (ok false) linked rest e = cc
chain_step-true (ok true) true rest e = (refl, refl, e)
chain_step-true (ok true) false rest e = cc

chain_step_of :
    {v : Result CanonicalError Bool} {linked : Bool} {rest : Result CanonicalError Bool}
    → v ≡ ok true
    → linked ≡ true
    → rest ≡ ok true
    → chain_step v linked rest ≡ ok true
unfolding chain_step
chain_step_of v l r = rw (v, l, r)

-- The event that was already there under the key, a new event at the end, or an error.
abbrev pub IsNew :
    DecisionEvent → Store → Result LedgerError (DecisionEvent × Bool) × Store → Type 0
IsNew e s r =
    (by_idempotency_key s e.company_id e.idempotency_key ≡ none)
    × (same_hash e.prev_event_hash (chain_head s e.company_id) ≡ true)
    × (r ≡ (ok (e, true), add s e))

abbrev pub IsOld :
    DecisionEvent → Store → Result LedgerError (DecisionEvent × Bool) × Store → Type 0
IsOld e s r =
    (old : DecisionEvent) × (by_idempotency_key s e.company_id e.idempotency_key ≡ some old)
    × (r ≡ (ok (old, false), s))

abbrev pub IsConflict :
    DecisionEvent → Store → Result LedgerError (DecisionEvent × Bool) × Store → Type 0
IsConflict e s r =
    (by_idempotency_key s e.company_id e.idempotency_key ≡ none)
    × (same_hash e.prev_event_hash (chain_head s e.company_id) ≡ false)
    × (r ≡ (err chain_conflict, set_default s e.company_id))

-- An event that verifies is new, known by its key, or in conflict with the head of its stream.
pub append_verified-cases :
    (e : DecisionEvent) (s : Store)
    → IsNew e s (append_verified e s)
      ⊎ (IsOld e s (append_verified e s) ⊎ IsConflict e s (append_verified e s))
unfolding by_idempotency_key append_verified add
append_verified-cases e s =
    elim (Option-cases (PairDict.lookup e.company_id e.idempotency_key s.by_key)) [
      | inr (old, k) ↦ inr (inl (old, k, rw (k, append_verified)))
      | inl k ↦ elim (Bool-cases (same_hash e.prev_event_hash (chain_head s e.company_id))) [
        | inl l ↦ inl (k, l, rw (k, l, append_verified))
        | inr l ↦ inr (inr (k, l, rw (k, l, append_verified)))
      ]
    ]

module _ (h : Hashing) where
  pub verify_from-append :
      (prev : Option String) (es : List DecisionEvent) (e : DecisionEvent)
      → verify_from h prev es ≡ ok true
      → verify h e ≡ ok true
      → same_hash e.prev_event_hash (last_hash prev es) ≡ true
      → verify_from h prev (es ++ e ∷ []) ≡ ok true
  unfolding verify_from
  verify_from-append prev [] e ch v link = chain_step_of v link refl
  verify_from-append prev (d ∷ es) e ch v link =
      let (dv, dl, rest) = chain_step-true _ _ _ ch in
      chain_step_of dv dl (verify_from-append (some d.event_hash) es e rest v link)
