-- ===== src/Escalation/Resolving.antt =====
-- What a call of `resolve` does: it refuses and leaves the escalations, or it settles an open
-- escalation by the event that the escalation's key names in the ledger.
use Prim.Native.String.{◌++◌ as str_append}
use kernl.Prelude.{
  ◌≡◌, refl, sym, ap, subst, ◌⊎◌, inl, inr, String, Bool, false, none, some, List, Bool-cases,
  Option-cases,
}
use kernl.Prelude.Result.{Result, ok, err}
use kernl.Python.Text.{Runtime}
use kernl.Canonical.{Hashing}
use kernl.Ledger.Events.{DecisionEvent}
use kernl.Ledger.Store.{Store, get, by_idempotency_key}
use kernl.Ledger.Service.{Dumps, ServiceError, Attempt, record_adjudication}
use kernl.Ledger.Origins.{
  HoldsOfAll, HoldsOf, IsForeign, IsAdjudication, record_adjudication-HoldsOfAll,
}
use kernl.Ledger.Keys.{KeepsKeys, record_adjudication-KeepsKeys, record_adjudication-recorded}
use kernl.Replay.Cases.{GoldenCase, CaseError, CaseStore}
use kernl.Escalation.Store.{Resolution, Escalation, get_escalation, update}
use kernl.Escalation.Service.{
  EscalationError, Desk, Ruling, Promotion, adjudication_of, resolution_of, settled, is_resolved,
  close, promote, after_adjudication, adjudicate, resolve,
}

-- The answer of a call, and the stores that it leaves.
abbrev pub Answer : Type 0
Answer = Result EscalationError Escalation × Desk

-- The idempotency key of an escalation's adjudication.
abbrev pub key_of : String → String
key_of id = str_append "adjudication:" id

abbrev pub HasError : Answer → Type 0
HasError r = (x : EscalationError) × (r.0 ≡ err x)

abbrev pub IsRefused : Desk → Answer → Type 0
IsRefused d r = HasError r × (r.1.escalations ≡ d.escalations) × KeepsKeys d.ledger r.1.ledger

-- The escalation of the call and the event that its key names.
abbrev pub IsSettledBy : Ruling → String → Desk → Answer → Escalation → DecisionEvent → Type 0
IsSettledBy q now d r e a =
    (get_escalation d.escalations q.company_id q.escalation_id ≡ some e)
    × (is_resolved e ≡ false)
    × (by_idempotency_key r.1.ledger q.company_id (key_of q.escalation_id) ≡ some a)
    × (r.0 ≡ ok (settled e (resolution_of q a now)))
    × (r.1.escalations ≡ update (settled e (resolution_of q a now)) d.escalations)
    × KeepsKeys d.ledger r.1.ledger

abbrev pub IsSettled : Ruling → String → Desk → Answer → Type 0
IsSettled q now d r = (e : Escalation) × (a : DecisionEvent) × IsSettledBy q now d r e a

-- The end of `resolve` either raises and leaves the escalations, or writes the settled one.
abbrev Ends : Escalation → Resolution → Desk → Answer → Type 0
Ends e r d x =
    (x.1.ledger ≡ d.ledger)
    × ((HasError x × (x.1.escalations ≡ d.escalations))
        ⊎ ((x.0 ≡ ok (settled e r)) × (x.1.escalations ≡ update (settled e r) d.escalations)))

close-Ends :
    (e : Escalation) (r : Resolution) (c : Result CaseError GoldenCase × CaseStore) (d : Desk)
    → Ends e r d (close e r c d)
unfolding close
close-Ends e r (err x, cases) d = (refl, inl ((_, refl), refl))
close-Ends e r (ok _, cases) d = (refl, inr (refl, refl))

promote-Ends :
    (callback : Promotion) (q : Ruling) (e : Escalation) (original : DecisionEvent) (r : Resolution)
    (d : Desk)
    → Ends e r d (promote callback q e original r d)
unfolding promote
promote-Ends none q e original r d = (refl, inr (refl, refl))
promote-Ends (some f) q e original r d = elim (Bool-cases q.promote_to_golden) [
  | inl wanted ↦ rw (wanted, promote) (close-Ends e r (f original r d.cases) d)
  | inr plain ↦ rw (plain, promote) (refl, inr (refl, refl))
]

module _ (rt : Runtime) (h : Hashing) (dumps : Dumps) (callback : Promotion) where
  after_adjudication-cases :
      (q : Ruling) (now : String) (e : Escalation) (original : DecisionEvent)
      (r : Result ServiceError (DecisionEvent × Bool) × Store) (d : Desk)
      → get_escalation d.escalations q.company_id q.escalation_id ≡ some e
      → is_resolved e ≡ false
      → KeepsKeys d.ledger r.1
      → ((a : DecisionEvent) (created : Bool)
          → r.0 ≡ ok (a, created)
          → by_idempotency_key r.1 q.company_id (key_of q.escalation_id) ≡ some a)
      → IsRefused d (after_adjudication callback q now e original r d)
        ⊎ IsSettled q now d (after_adjudication callback q now e original r d)
  unfolding after_adjudication
  after_adjudication-cases q now e original (err x, l) d found live keeps named =
      inl ((_, refl), refl, keeps)
  after_adjudication-cases q now e original (ok (a, created), l) d found live keeps named =
      let (same, ends) =
        promote-Ends callback q e original (resolution_of q a now) (record d { ledger = l }) in
      elim ends [
        | inl (raised, left) ↦ inl (raised, left, subst (KeepsKeys d.ledger) (sym same) keeps)
        | inr (done, wrote) ↦ inr (
          e,
          a,
          (
            found,
            live,
            subst (λ t. by_idempotency_key t q.company_id (key_of q.escalation_id) ≡ some a)
                (sym same) (named a created refl),
            done,
            wrote,
            subst (KeepsKeys d.ledger) (sym same) keeps,
          ),
        )
      ]

  resolve-eq :
      (q : Ruling) (attempts : List Attempt) (now : String) (d : Desk) (e : Escalation)
      (original : DecisionEvent)
      → get_escalation d.escalations q.company_id q.escalation_id ≡ some e
      → is_resolved e ≡ false
      → get d.ledger q.company_id e.decision_event_id ≡ some original
      → resolve rt h dumps callback q attempts now d
        ≡ after_adjudication callback q now e original
            (record_adjudication rt h dumps (adjudication_of q original) attempts d.ledger)
            d
  unfolding resolve adjudicate
  resolve-eq q attempts now d e original o live kept = rw (o, resolve, live, kept, adjudicate)

  after_adjudication-ledger :
      (q : Ruling) (now : String) (e : Escalation) (original : DecisionEvent)
      (r : Result ServiceError (DecisionEvent × Bool) × Store) (d : Desk)
      → (after_adjudication callback q now e original r d).1.ledger ≡ r.1
  unfolding after_adjudication
  after_adjudication-ledger q now e original (err x, l) d = refl
  after_adjudication-ledger q now e original (ok (a, created), l) d =
      (promote-Ends callback q e original (resolution_of q a now) (record d { ledger = l })).0

  -- What holds of the ledger's events, of the adjudication and of what other writers append during the
  -- call holds of the ledger's events after a call of `resolve`.
  pub resolve-HoldsOfAll :
      (P : String → String → DecisionEvent → Type 0) (q : Ruling) (attempts : List Attempt)
      (now : String) (d : Desk)
      → ((e : Escalation) (original x : DecisionEvent)
          → get_escalation d.escalations q.company_id q.escalation_id ≡ some e
          → get d.ledger q.company_id e.decision_event_id ≡ some original
          → IsAdjudication (adjudication_of q original) x
          → HoldsOf P x)
      → ((x : DecisionEvent) → IsForeign attempts x → HoldsOf P x)
      → HoldsOfAll P d.ledger
      → HoldsOfAll P (resolve rt h dumps callback q attempts now d).1.ledger
  unfolding resolve adjudicate
  resolve-HoldsOfAll P q attempts now d own others holds =
      elim (Option-cases (get_escalation d.escalations q.company_id q.escalation_id)) [
        | inl o ↦ rw (o, resolve) holds
        | inr (e, o) ↦ elim (Bool-cases (is_resolved e)) [
          | inl over ↦ rw (o, resolve, over) holds
          | inr live ↦ elim (Option-cases (get d.ledger q.company_id e.decision_event_id)) [
            | inl lost ↦ rw (o, resolve, live, lost, adjudicate) holds
            | inr (original, kept) ↦
                let r =
                  record_adjudication rt h dumps (adjudication_of q original) attempts d.ledger in
                subst (λ (x : Answer). HoldsOfAll P x.1.ledger)
                  (sym (resolve-eq q attempts now d e original o live kept))
                  (subst (HoldsOfAll P) (sym (after_adjudication-ledger q now e original r d)) (
                    record_adjudication-HoldsOfAll rt h dumps P (adjudication_of q original)
                      attempts d.ledger (λ x j. own e original x o kept j) others holds))
          ]
        ]
      ]

  -- A call of `resolve` is refused or settles.
  pub resolve-cases :
      (q : Ruling) (attempts : List Attempt) (now : String) (d : Desk)
      → IsRefused d (resolve rt h dumps callback q attempts now d)
        ⊎ IsSettled q now d (resolve rt h dumps callback q attempts now d)
  unfolding resolve adjudicate adjudication_of
  resolve-cases q attempts now d =
      elim (Option-cases (get_escalation d.escalations q.company_id q.escalation_id)) [
        | inl o ↦ rw (o, resolve) (inl ((_, refl), refl, λ c k e n. n))
        | inr (e, o) ↦ elim (Bool-cases (is_resolved e)) [
          | inl over ↦ rw (o, resolve, over) (inl ((_, refl), refl, λ c k e n. n))
          | inr live ↦ elim (Option-cases (get d.ledger q.company_id e.decision_event_id)) [
            | inl lost ↦
                rw (o, resolve, live, lost, adjudicate) (inl ((_, refl), refl, λ c k e n. n))
            | inr (original, kept) ↦
                let r =
                  record_adjudication rt h dumps (adjudication_of q original) attempts d.ledger in
                subst (λ x. IsRefused d x ⊎ IsSettled q now d x)
                  (sym (resolve-eq q attempts now d e original o live kept))
                  (after_adjudication-cases q now e original r d o live
                    (record_adjudication-KeepsKeys rt h dumps (adjudication_of q original) attempts
                      d.ledger)
                    (λ a created n.
                      record_adjudication-recorded rt h dumps (adjudication_of q original) attempts
                        d.ledger r.1 a created (ap (λ y. (y, r.1)) n)))
          ]
        ]
      ]
