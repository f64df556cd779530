-- ===== src/Escalation/Once.antt =====
-- An escalation is opened once for its decision and resolved once, and where the event comes from that
-- a resolution names.
use kernl.Prelude.{
  ◌≡◌, refl, ◌⊎◌, sym, ap, subst, ◌∙◌, inl, inr, String, true, false, Option, none, some, List,
  Bool-cases, Option-cases,
}
use kernl.Prelude.PairDict
use kernl.Prelude.Result.{Result, ok, err}
use kernl.Python.Text.{Runtime}
use kernl.Canonical.{Hashing}
use kernl.Ledger.Events.{DecisionEvent, adjudication}
use kernl.Ledger.Origins.{IsForeign}
use kernl.Ledger.Store.{by_idempotency_key, get}
use kernl.Ledger.Service.{Dumps, Attempt}
use kernl.Ledger.Keys.{KeepsKeys}
use kernl.Escalation.Store.{
  Escalation, EscalationStore, get_escalation, add_escalation, enter, update,
}
use kernl.Escalation.Needs.{Need, need_of}
use kernl.Escalation.Service.{
  new_escalation, or_missing, open_for, Desk, Ruling, Promotion, settled, resolution_of,
  is_resolved, resolve,
}
use kernl.Escalation.Resolving.{key_of, resolve-cases, resolve-HoldsOfAll}
use kernl.Ledger.Store.{is_text}
use kernl.Prelude.Dict.{lookup}
use kernl.Python.{null, str}
use kernl.Escalation.Needs.{is_truthy, get_or}
use kernl.Prelude.Result.{ok-injective}
use kernl.Prelude.{◌≢◌, ◌↔◌}
use kernl.Escalation.Service.{EscalationError, adjudication_of, already_resolved}
use kernl.Escalation.Inbox.{IsIndexed}
use kernl.Escalation.Resolving.{Answer}

or_missing-opens :
    (r : Option Escalation × EscalationStore) (s : EscalationStore) → or_missing r ≢ (ok none, s)
unfolding or_missing
or_missing-opens (none, t) s q = cc (ap (λ y. y.0) q)
or_missing-opens (some e, t) s q = cc (ap (λ y. y.0) q)

or_missing-ok :
    (r : Option Escalation × EscalationStore) (e : Escalation) (s : EscalationStore)
    → or_missing r ≡ (ok (some e), s)
    → (r.0 ≡ some e) × (r.1 ≡ s)
unfolding or_missing
or_missing-ok (none, t) e s q = cc (ap (λ y. y.0) q)
or_missing-ok (some f, t) e s q = (ok-injective (ap (λ y. y.0) q), ap (λ y. y.1) q)

open_known :
    (x : DecisionEvent) (id now old : String) (s : EscalationStore) (need : Need) (e : Escalation)
    → need_of x.outcome ≡ some need
    → PairDict.lookup x.company_id x.event_id s.by_decision ≡ some old
    → get_escalation s x.company_id old ≡ some e
    → open_for x id now s ≡ (ok (some e), s)
unfolding open_for add_escalation new_escalation
open_known x id now old s need e o known found =
    rw (o, open_for, known, add_escalation, found, or_missing)

-- `open_for` opens an escalation exactly for the outcomes that need a person: it returns None, and
-- leaves the store, if and only if the outcome's kind is not "escalate" and its `approval_required`
-- is not true.
pub open_for-none_iff :
    (x : DecisionEvent) (id now : String) (s : EscalationStore)
    → (open_for x id now s ≡ (ok none, s)) ↔ (
        (is_text (lookup "kind" x.outcome) "escalate" ≡ false)
        × (is_truthy (get_or null "approval_required" x.outcome) ≡ false))
unfolding open_for need_of
open_for-none_iff x id now s = elim (Bool-cases (is_text (lookup "kind" x.outcome) "escalate")) [
  | inl directed ↦ (
    (λ r. absurd (or_missing-opens _ s (rw (directed, open_for, need_of) at r))),
    (λ p. cc (p.0, directed)),
  )
  | inr plain ↦ elim (Bool-cases (is_truthy (get_or null "approval_required" x.outcome))) [
    | inl approval ↦ (
      (λ r. absurd (or_missing-opens _ s (rw (plain, approval, open_for, need_of) at r))),
      (λ p. cc (p.1, approval)),
    )
    | inr free ↦ ((λ _. (plain, free)), (λ _. rw (plain, free, open_for, need_of)))
  ]
]

-- One decision has one escalation: after an `open_for` that returned one, every `open_for` of that
-- event returns the same one and leaves the store.
pub open_for_again :
    (x : DecisionEvent) (id id2 now now2 : String) (s s' : EscalationStore) (e : Escalation)
    → open_for x id now s ≡ (ok (some e), s')
    → open_for x id2 now2 s' ≡ (ok (some e), s')
unfolding open_for add_escalation new_escalation enter get_escalation
open_for_again x id id2 now now2 s s' e r = elim (Option-cases (need_of x.outcome)) [
  | inl o ↦ cc (
      ap (λ (y : Result EscalationError (Option Escalation) × EscalationStore). y.0)
        (rw (o, open_for) at r))
  | inr (need, o) ↦ elim (Option-cases (PairDict.lookup x.company_id x.event_id s.by_decision)) [
    | inr (old, known) ↦
        let (found, same) = or_missing-ok _ e s' (rw (o, open_for, known, add_escalation) at r) in
        open_known x id2 now2 old s' need e o (rw (sym same) known) (rw (sym same) found)
    | inl new ↦
        let (made, same) = or_missing-ok _ e s' (rw (o, open_for, new, add_escalation) at r) in
        subst (λ t. open_for x id2 now2 t ≡ (ok (some e), t)) same
          (open_known x id2 now2 id (enter (new_escalation x need id now) s) need e o
            (PairDict.lookup-insert_self x.company_id x.event_id id s.by_decision)
            (PairDict.lookup-insert_self x.company_id id (new_escalation x need id now) s.rows
              ∙ made))
  ]
]

-- An adjudication that a call seals: of the original decision, by the resolver, with the action, the kind
-- and the rationale of the call.
abbrev pub IsOfCall : Ruling → DecisionEvent → DecisionEvent → Type 0
IsOfCall q original a =
    (a.event_type ≡ adjudication)
    × (a.company_id ≡ q.company_id)
    × (a.idempotency_key ≡ key_of q.escalation_id)
    × (a.linked_event_id ≡ some original.event_id)
    × (a.actor ≡ q.resolver)
    × (lookup "action" a.outcome ≡ some (str q.chosen_action))
    × (lookup "kind" a.outcome ≡ some (str q.outcome_kind))
    × (lookup "rationale" a.outcome ≡ some (str q.rationale))

-- Where the event under an escalation's key comes from: the ledger had it, another writer appended it
-- during the call, or the call sealed it.
abbrev pub HasOrigin : Ruling → List Attempt → Desk → Escalation → DecisionEvent → Type 0
HasOrigin q attempts d e a =
    (by_idempotency_key d.ledger q.company_id (key_of q.escalation_id) ≡ some a)
    ⊎ (IsForeign attempts a
        ⊎ ((original : DecisionEvent) × (get d.ledger q.company_id e.decision_event_id
              ≡ some original)
            × IsOfCall q original a))

module _ (rt : Runtime) (h : Hashing) (dumps : Dumps) (callback : Promotion) where
  resolve-HasOrigin :
      (q : Ruling) (attempts : List Attempt) (now : String) (d : Desk) (e : Escalation)
      (a : DecisionEvent)
      → get_escalation d.escalations q.company_id q.escalation_id ≡ some e
      → by_idempotency_key
          (resolve rt h dumps callback q attempts now d).1.ledger
          q.company_id
          (key_of q.escalation_id)
        ≡ some a
      → HasOrigin q attempts d e a
  unfolding adjudication_of
  resolve-HasOrigin q attempts now d e a found named =
      let P : String → String → DecisionEvent → Type 0 =
        λ c k x. (c ≡ q.company_id) → (k ≡ key_of q.escalation_id) → HasOrigin q attempts d e x in
      resolve-HoldsOfAll rt h dumps callback P q attempts now d
        (λ e' original x found' kept j c k.
          let one : e' ≡ e = cc (found, found') in
          inr (
            inr (
              original,
              subst (λ y. get d.ledger q.company_id y.decision_event_id ≡ some original) one kept,
              (
                j.kind, j.company, j.key, j.original, j.actor, j.action, j.outcome_kind,
                j.rationale,
              ),
            )))
        (λ x foreign c k. inr (inl foreign))
        (λ c k x n c_eq k_eq. inl (
          subst (λ y. by_idempotency_key d.ledger y (key_of q.escalation_id) ≡ some x) c_eq
            (subst (λ y. by_idempotency_key d.ledger c y ≡ some x) k_eq n)))
        q.company_id (key_of q.escalation_id) a named refl refl

  -- A `resolve` that raises, also after the adjudication is in the ledger, leaves every escalation as
  -- it was and takes no idempotency key from the ledger.
  pub resolve_raises :
      (q : Ruling) (attempts : List Attempt) (now : String) (d d' : Desk) (x : EscalationError)
      → resolve rt h dumps callback q attempts now d ≡ (err x, d')
      → (d'.escalations ≡ d.escalations) × KeepsKeys d.ledger d'.ledger
  resolve_raises q attempts now d d' x r =
      elim (resolve-cases rt h dumps callback q attempts now d) [
        | inl (_, left, keeps) ↦
            subst
              (λ (y : Answer). (y.1.escalations ≡ d.escalations) × KeepsKeys d.ledger y.1.ledger) r
              (left, keeps)
        | inr (e, a, (_, _, _, done, _, _)) ↦ cc (sym (ap (λ (y : Answer). y.0) r) ∙ done)
      ]

  -- A `resolve` that returns has written ahead: the escalation that is returned, which is the one that is
  -- stored, is the open one with the status resolved and a resolution that names an event of the ledger,
  -- the one under the escalation's key. Unless the ledger had an event under that key before, or another
  -- writer appended that event during the call, it is an adjudication of the ledger's event for the
  -- escalation's decision, by the resolver, with the action, the kind and the rationale of the call.
  pub resolve-recorded :
      (q : Ruling) (attempts : List Attempt) (now : String) (d d' : Desk) (e' : Escalation)
      → resolve rt h dumps callback q attempts now d ≡ (ok e', d')
      → (e : Escalation) × (a : DecisionEvent) × (get_escalation d.escalations q.company_id
            q.escalation_id
          ≡ some e)
        × (is_resolved e ≡ false)
        × (by_idempotency_key d'.ledger q.company_id (key_of q.escalation_id) ≡ some a)
        × (e' ≡ settled e (resolution_of q a now))
        × (d'.escalations ≡ update e' d.escalations)
        × HasOrigin q attempts d e a
  resolve-recorded q attempts now d d' e' r =
      elim (resolve-cases rt h dumps callback q attempts now d) [
        | inl ((x, raised), _, _) ↦ cc (sym (ap (λ (y : Answer). y.0) r) ∙ raised)
        | inr (e, a, (found, live, named, done, wrote, _)) ↦
            let same : e' ≡ settled e (resolution_of q a now) =
              ok-injective (sym (ap (λ (y : Answer). y.0) r) ∙ done) in
            (
              e,
              a,
              found,
              live,
              subst
                  (λ (y : Answer).
                    by_idempotency_key y.1.ledger q.company_id (key_of q.escalation_id) ≡ some a)
                  r named,
              same,
              subst (λ (y : Answer). y.1.escalations ≡ update e' d.escalations) r
                  (wrote ∙ ap (λ y. update y d.escalations) (sym same)),
              resolve-HasOrigin q attempts now d e a found named,
            )
      ]

  resolved_is_refused :
      (q : Ruling) (attempts : List Attempt) (now : String) (d : Desk) (e : Escalation)
      → get_escalation d.escalations q.company_id q.escalation_id ≡ some e
      → is_resolved e ≡ true
      → resolve rt h dumps callback q attempts now d ≡ (err already_resolved, d)
  unfolding resolve
  resolved_is_refused q attempts now d e found over = rw (found, resolve, over)

  -- No escalation is resolved twice: where each stands under its own company and id, any call for one
  -- that a `resolve` returned raises AlreadyResolvedError and changes nothing.
  pub resolve_again :
      (q q2 : Ruling) (attempts attempts2 : List Attempt) (now now2 : String) (d d' : Desk)
      (e' : Escalation)
      → IsIndexed d.escalations
      → resolve rt h dumps callback q attempts now d ≡ (ok e', d')
      → q2.company_id ≡ q.company_id
      → q2.escalation_id ≡ q.escalation_id
      → resolve rt h dumps callback q2 attempts2 now2 d' ≡ (err already_resolved, d')
  unfolding get_escalation update settled is_resolved
  resolve_again q q2 attempts attempts2 now now2 d d' e' indexed r company id =
      let (e, a, found, live, named, same, wrote, _) = resolve-recorded q attempts now d d' e' r in
      let (c, i, _) = indexed q.company_id q.escalation_id e found in
      let here : (e'.company_id ≡ q2.company_id) × (e'.escalation_id ≡ q2.escalation_id) = (
        ap (λ y. y.company_id) same ∙ c ∙ sym company,
        ap (λ y. y.escalation_id) same ∙ i ∙ sym id,
      ) in
      let stored : get_escalation d'.escalations e'.company_id e'.escalation_id ≡ some e' =
        subst (λ s. get_escalation s e'.company_id e'.escalation_id ≡ some e') (sym wrote)
          (PairDict.lookup-insert_self e'.company_id e'.escalation_id e' d.escalations.rows) in
      resolved_is_refused q2 attempts2 now2 d' e'
        (subst (λ k. get_escalation d'.escalations k q2.escalation_id ≡ some e') here.0
          (subst (λ k. get_escalation d'.escalations e'.company_id k ≡ some e') here.1 stored))
        (ap is_resolved same)

  -- The adjudication is recorded at most once: if the ledger holds one under the escalation's key
  -- already, because an earlier `resolve` raised after it had written it, then a `resolve` that returns
  -- names that one, although its resolution has the action, the kind and the rationale of the new call.
  pub resolve_names_first :
      (q : Ruling) (attempts : List Attempt) (now : String) (d d' : Desk) (e' : Escalation)
      (old : DecisionEvent)
      → by_idempotency_key d.ledger q.company_id (key_of q.escalation_id) ≡ some old
      → resolve rt h dumps callback q attempts now d ≡ (ok e', d')
      → (by_idempotency_key d'.ledger q.company_id (key_of q.escalation_id) ≡ some old)
        × (e'.resolution ≡ some (resolution_of q old now))
  unfolding settled
  resolve_names_first q attempts now d d' e' old named r =
      let keeps : KeepsKeys d.ledger d'.ledger =
        elim (resolve-cases rt h dumps callback q attempts now d) [
          | inl (_, _, k) ↦ subst (λ (y : Answer). KeepsKeys d.ledger y.1.ledger) r k
          | inr (_, _, (_, _, _, _, _, k)) ↦
              subst (λ (y : Answer). KeepsKeys d.ledger y.1.ledger) r k
        ] in
      let kept = keeps q.company_id (key_of q.escalation_id) old named in
      let (e, a, _, _, has, same, _, _) = resolve-recorded q attempts now d d' e' r in
      let first : a ≡ old = cc (has, kept) in
      (kept, ap (λ y. y.resolution) same ∙ ap (λ x. some (resolution_of q x now)) first)
