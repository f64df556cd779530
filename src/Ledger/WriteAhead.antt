-- ===== src/Ledger/WriteAhead.antt =====
-- The write-ahead rule of `DecisionService.decide`: what a caller is given stands in the ledger.
use kernl.Prelude.{
  ◌≡◌, refl, ap, subst, ◌∙◌, ◌≢◌, inl, inr, String, Bool, true, false, some, List, [], Option-cases,
}
use kernl.Prelude.Lists.{In, take}
use kernl.Prelude.Result.{Result, ok, err, ok_or_err, ok-injective}
use kernl.Python.Text.{Runtime}
use kernl.Canonical.{Hashing}
use kernl.Evaluator.Types.{EvalError, EvaluationResult}
use kernl.Evaluator.Decide.{evaluate}
use kernl.Ledger.Events.{DecisionEvent}
use kernl.Ledger.Store.{
  LedgerError, chain_conflict, unavailable, not_sealed, non_finite, Store, verify_chain,
  by_idempotency_key,
}
use kernl.Ledger.Service.{
  Dumps, ledger, Attempt, append_sealed, max_chain_conflict_retries, as_service, Request,
  decision_draft, decide_new, decide,
}
use kernl.Ledger.Sealing.{append_sealed-recorded, append_sealed-keeps, append_sealed-settles}

module _ (rt : Runtime) (h : Hashing) (dumps : Dumps) where
  pub as_service-ok :
      (r : Result LedgerError (DecisionEvent × Bool) × Store) (x : DecisionEvent × Bool) (s : Store)
      → as_service r ≡ (ok x, s)
      → r ≡ (ok x, s)
  unfolding as_service
  as_service-ok (ok y, t) x s e = cc (ok-injective (ap (λ p. p.0) e), ap (λ p. p.1) e)
  as_service-ok (err y, t) x s e = cc (ap (λ p. p.0) e)

  pub as_service-store :
      (r : Result LedgerError (DecisionEvent × Bool) × Store) → (as_service r).1 ≡ r.1
  unfolding as_service
  as_service-store (ok y, t) = refl
  as_service-store (err y, t) = refl

  as_service-available :
      (r : Result LedgerError (DecisionEvent × Bool) × Store)
      → r.0 ≢ err unavailable
      → (as_service r).0 ≢ err (ledger unavailable)
  unfolding as_service
  as_service-available (ok y, t) n = cc
  as_service-available (err chain_conflict, t) n = cc
  as_service-available (err not_sealed, t) n = cc
  as_service-available (err non_finite, t) n = cc
  as_service-available (err unavailable, t) n = λ _. n refl

  decide_new-recorded :
      (q : Request) (attempts : List Attempt) (r : Result EvalError EvaluationResult) (s s' : Store)
      (e : DecisionEvent) (created : Bool)
      → decide_new rt h dumps q attempts r s ≡ (ok (e, created), s')
      → by_idempotency_key s' q.company_id q.idempotency_key ≡ some e
  unfolding decide_new decision_draft
  decide_new-recorded q attempts (err x) s s' e created p = cc (ap (λ x. x.0) p)
  decide_new-recorded q attempts (ok r) s s' e created p =
      append_sealed-recorded h (decision_draft rt h dumps q r)
        (take max_chain_conflict_retries attempts) s s' e created
        (as_service-ok _ (e, created) s' p)

  -- The write-ahead rule: an event that `decide` returns, new or old, stands in the ledger under the
  -- request's company and idempotency key.
  pub decide-recorded :
      (q : Request) (attempts : List Attempt) (s s' : Store) (e : DecisionEvent) (created : Bool)
      → decide rt h dumps q attempts s ≡ (ok (e, created), s')
      → by_idempotency_key s' q.company_id q.idempotency_key ≡ some e
  unfolding decide
  decide-recorded q attempts s s' e created r =
      elim (Option-cases (by_idempotency_key s q.company_id q.idempotency_key)) [
        | inl unused ↦
            decide_new-recorded q attempts (evaluate rt q.facts q.bundle q.workflow) s s' e created
              (rw (unused, decide) at r)
        | inr (old, used) ↦
            let same = rw (used, decide) at r in
            let event =
              ap (λ (x : DecisionEvent × Bool). x.0) (ok-injective (ap (λ x. x.0) same)) in
            subst (λ t. by_idempotency_key t q.company_id q.idempotency_key ≡ some e)
              (ap (λ x. x.1) same) (used ∙ ap some event)
      ]

  -- A second `decide` with the same company and idempotency key, with any facts, any bundle and any
  -- attempts, returns the event that the first one returned, reports that it is not new, and leaves
  -- the ledger as it was: no request is decided twice.
  pub decide_again :
      (q q2 : Request) (attempts attempts2 : List Attempt) (s s' : Store) (e : DecisionEvent)
      (created : Bool)
      → decide rt h dumps q attempts s ≡ (ok (e, created), s')
      → q2.company_id ≡ q.company_id
      → q2.idempotency_key ≡ q.idempotency_key
      → decide rt h dumps q2 attempts2 s' ≡ (ok (e, false), s')
  unfolding decide
  decide_again q q2 attempts attempts2 s s' e created r company key =
      let found : by_idempotency_key s' q2.company_id q2.idempotency_key ≡ some e =
        rw (company, key) (decide-recorded q attempts s s' e created r) in
      rw (found, decide) refl

  -- A `decide` keeps every company's chain, whatever it returns: with any events of other writers
  -- between its seals and its appends, a chain that verified before it verifies after it.
  pub decide-keeps_chain :
      (q : Request) (attempts : List Attempt) (s : Store) (c : String)
      → verify_chain h s c ≡ ok true
      → verify_chain h (decide rt h dumps q attempts s).1 c ≡ ok true
  unfolding decide decide_new
  decide-keeps_chain q attempts s c ch =
      elim (Option-cases (by_idempotency_key s q.company_id q.idempotency_key)) [
        | inr (old, used) ↦ rw (used, decide) ch
        | inl unused ↦ elim (ok_or_err (evaluate rt q.facts q.bundle q.workflow)) [
          | inr (x, bad) ↦ rw (unused, bad, decide) ch
          | inl (r, good) ↦
              rw (unused, good, decide, as_service-store)
                (append_sealed-keeps h (decision_draft rt h dumps q r)
                  (take max_chain_conflict_retries attempts) s c ch)
        ]
      ]

  -- If one of the first eight attempts of a `decide` meets no other writer, it does not answer that
  -- the ledger is unavailable, whatever the other attempts met.
  pub decide-settles :
      (q : Request) (attempts : List Attempt) (s : Store) (a : Attempt)
      → In a (take max_chain_conflict_retries attempts)
      → a.others ≡ []
      → (decide rt h dumps q attempts s).0 ≢ err (ledger unavailable)
  unfolding decide decide_new
  decide-settles q attempts s a i alone =
      elim (Option-cases (by_idempotency_key s q.company_id q.idempotency_key)) [
        | inr (old, used) ↦ rw (used, decide) cc
        | inl unused ↦ elim (ok_or_err (evaluate rt q.facts q.bundle q.workflow)) [
          | inr (x, bad) ↦ rw (unused, bad, decide) cc
          | inl (r, good) ↦
              rw (unused, good, decide)
                (as_service-available
                  (append_sealed h (decision_draft rt h dumps q r)
                    (take max_chain_conflict_retries attempts) s)
                  (append_sealed-settles h (decision_draft rt h dumps q r)
                    (take max_chain_conflict_retries attempts) s a i alone))
        ]
      ]
