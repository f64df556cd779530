-- ===== src/Ledger/Keys.antt =====
-- Idempotency keys of the ledger: no call takes one away or gives it another event, and an
-- adjudication that the service returns is the one that its key names.
use kernl.Prelude.{
  ◌≡◌, sym, ap, subst, inl, inr, String, Bool, true, false, ◌==◌, none, some, List, [], ◌∷◌,
  Bool-cases, Option-cases,
}
use kernl.Prelude.Dict
use kernl.Prelude.PairDict
use kernl.Prelude.Lists.{take}
use kernl.Prelude.Result.{Result, ok, err, ok_or_err}
use kernl.Python.Text.{Runtime, strip}
use kernl.Canonical.{Hashing, CanonicalError}
use kernl.Ledger.Events.{DecisionEvent, verify}
use kernl.Ledger.Store.{Store, add, set_default, append_if, append, by_idempotency_key}
use kernl.Ledger.Chain.{append_verified-cases}
use kernl.Ledger.Service.{
  Dumps, Attempt, Draft, seal_raw, interfere, append_sealed, Adjudication, adjudication_draft,
  record_adjudication, max_chain_conflict_retries,
}
use kernl.Ledger.Sealing.{retry-keeps, append_sealed-recorded}
use kernl.Ledger.WriteAhead.{as_service-ok, as_service-store}

-- Every key that names an event goes on naming it.
abbrev pub KeepsKeys : Store → Store → Type 0
KeepsKeys s t =
    (c k : String) (e : DecisionEvent)
    → by_idempotency_key s c k ≡ some e
    → by_idempotency_key t c k ≡ some e

add-KeepsKeys :
    (s : Store) (x : DecisionEvent)
    → by_idempotency_key s x.company_id x.idempotency_key ≡ none
    → KeepsKeys s (add s x)
unfolding by_idempotency_key add
add-KeepsKeys s x unused c k e named =
    PairDict.lookup-insert_keeps x.company_id x.idempotency_key c k x e s.by_key unused named

set_default-KeepsKeys : (s : Store) (c : String) → KeepsKeys s (set_default s c)
unfolding set_default by_idempotency_key
set_default-KeepsKeys s c d k e n = elim (Option-cases (Dict.lookup c s.events)) [
  | inl new ↦ rw (new, set_default) n
  | inr (es, o) ↦ rw (o, set_default) n
]

module _ (h : Hashing) where
  pub append-KeepsKeys : (x : DecisionEvent) (s : Store) → KeepsKeys s (append h x s).1
  unfolding append append_if
  append-KeepsKeys x s = by_verdict (verify h x)
    where
      by_verdict : (v : Result CanonicalError Bool) → KeepsKeys s (append_if v x s).1
      by_verdict (err y) = λ c k e n. n
      by_verdict (ok false) = λ c k e n. n
      by_verdict (ok true) = elim (append_verified-cases x s) [
        | inl (unused, _, r) ↦
            subst (KeepsKeys s) (ap (λ y. y.1) (sym r)) (add-KeepsKeys s x unused)
        | inr (inl (_, _, r)) ↦ subst (KeepsKeys s) (ap (λ y. y.1) (sym r)) (λ c k e n. n)
        | inr (inr (_, _, r)) ↦
            subst (KeepsKeys s) (ap (λ y. y.1) (sym r)) (set_default-KeepsKeys s x.company_id)
      ]

  interfere-KeepsKeys : (es : List DecisionEvent) (s : Store) → KeepsKeys s (interfere h es s)
  unfolding interfere
  interfere-KeepsKeys [] s c k e n = n
  interfere-KeepsKeys (x ∷ es) s c k e n =
      interfere-KeepsKeys es (append h x s).1 c k e (append-KeepsKeys x s c k e n)

  append_sealed-KeepsKeys :
      (d : Draft) (attempts : List Attempt) (s : Store)
      → KeepsKeys s (append_sealed h d attempts s).1
  unfolding append_sealed
  append_sealed-KeepsKeys d [] s c k e n = n
  append_sealed-KeepsKeys d (a ∷ later) s c k e n = elim (ok_or_err (seal_raw h d a s)) [
    | inr (x, q) ↦ rw (q, append_sealed) n
    | inl (x, q) ↦
        rw (q, append_sealed)
          (retry-keeps h (λ t. by_idempotency_key t c k ≡ some e)
            (append h x (interfere h a.others s)) (λ t. append_sealed h d later t)
            (append-KeepsKeys x (interfere h a.others s) c k e
              (interfere-KeepsKeys a.others s c k e n))
            (λ t m. append_sealed-KeepsKeys d later t c k e m))
  ]

module _ (rt : Runtime) (h : Hashing) (dumps : Dumps) where
  pub record_adjudication-KeepsKeys :
      (j : Adjudication) (attempts : List Attempt) (s : Store)
      → KeepsKeys s (record_adjudication rt h dumps j attempts s).1
  unfolding record_adjudication
  record_adjudication-KeepsKeys j attempts s c k e n =
      elim (Bool-cases (strip rt j.rationale == "")) [
        | inl blank ↦ rw (blank, record_adjudication) n
        | inr given ↦
            rw (given, record_adjudication, as_service-store)
              (append_sealed-KeepsKeys h (adjudication_draft rt h dumps j)
                (take max_chain_conflict_retries attempts) s c k e n)
      ]

  -- The write-ahead rule for adjudications: an event that `record_adjudication` returns, new or old,
  -- stands in the ledger under the company and the idempotency key of the call.
  pub record_adjudication-recorded :
      (j : Adjudication) (attempts : List Attempt) (s s' : Store) (e : DecisionEvent)
      (created : Bool)
      → record_adjudication rt h dumps j attempts s ≡ (ok (e, created), s')
      → by_idempotency_key s' j.company_id j.idempotency_key ≡ some e
  unfolding record_adjudication adjudication_draft
  record_adjudication-recorded j attempts s s' e created r =
      elim (Bool-cases (strip rt j.rationale == "")) [
        | inl blank ↦ cc (ap (λ y. y.0) (rw (blank, record_adjudication) at r))
        | inr given ↦
            append_sealed-recorded h (adjudication_draft rt h dumps j)
              (take max_chain_conflict_retries attempts) s s' e created
              (as_service-ok rt h dumps _ (e, created) s' (rw (given, record_adjudication) at r))
      ]
