-- ===== src/Escalation/Inbox.antt =====
-- What holds of the escalations that calls of `open_for` and `resolve` make, and that the writes of
-- the store keep it.
use kernl.Prelude.{
  ◌≡◌, refl, sym, ap, subst, ◌∙◌, ◌⊎◌, inl, inr, String, true, false, Option, none, some,
  Option-cases,
}
use kernl.Prelude.PairDict
use kernl.Ledger.Events.{DecisionEvent}
use kernl.Ledger.Store.{Store, by_idempotency_key}
use kernl.Ledger.Keys.{KeepsKeys}
use kernl.Escalation.Store.{
  Resolution, Escalation, EscalationStore, get_escalation, add_escalation, enter, update,
}
use kernl.Escalation.Needs.{Need, need_of}
use kernl.Escalation.Service.{new_escalation, or_missing, open_for, Desk, settled, is_resolved}
use kernl.Escalation.Resolving.{key_of}

-- A row stands under its own company and id, and its decision names it.
abbrev pub IsIndexed : EscalationStore → Type 0
IsIndexed s =
    (c i : String) (e : Escalation)
    → get_escalation s c i ≡ some e
    → (e.company_id ≡ c)
      × (e.escalation_id ≡ i)
      × (PairDict.lookup c e.decision_event_id s.by_decision ≡ some i)

-- The ledger holds the event that an escalation's resolution names, under the escalation's key.
abbrev pub IsNamed : Store → String → String → Escalation → Type 0
IsNamed l c i e =
    (r : Resolution) × (a : DecisionEvent) × (e.resolution ≡ some r)
    × (by_idempotency_key l c (key_of i) ≡ some a)
    × (r.adjudication_event_id ≡ a.event_id)

abbrev pub IsNamedAhead : Desk → Type 0
IsNamedAhead d =
    (c i : String) (e : Escalation)
    → get_escalation d.escalations c i ≡ some e
    → is_resolved e ≡ true
    → IsNamed d.ledger c i e

or_missing-store : (r : Option Escalation × EscalationStore) → (or_missing r).1 ≡ r.1
unfolding or_missing
or_missing-store (none, s) = refl
or_missing-store (some e, s) = refl

-- What `open_for` does to the store.
pub open_for-cases :
    (x : DecisionEvent) (id now : String) (s : EscalationStore)
    → ((open_for x id now s).1 ≡ s)
      ⊎ ((need : Need) × (PairDict.lookup x.company_id x.event_id s.by_decision ≡ none)
          × ((open_for x id now s).1 ≡ enter (new_escalation x need id now) s))
unfolding open_for add_escalation new_escalation
open_for-cases x id now s = elim (Option-cases (need_of x.outcome)) [
  | inl o ↦ inl (rw (o, open_for))
  | inr (need, o) ↦ elim (Option-cases (PairDict.lookup x.company_id x.event_id s.by_decision)) [
    | inl new ↦ inr (need, new, rw (o, open_for, new, add_escalation, or_missing))
    | inr (old, known) ↦ inl (rw (o, open_for, known, add_escalation, or_missing-store) refl)
  ]
]

pub enter-IsIndexed :
    (e : Escalation) (s : EscalationStore)
    → PairDict.lookup e.company_id e.decision_event_id s.by_decision ≡ none
    → IsIndexed s
    → IsIndexed (enter e s)
unfolding enter get_escalation
enter-IsIndexed e s new indexed c i x found =
    elim (PairDict.lookup-insert_cases e.company_id e.escalation_id c i e x s.rows found) [
      | inl (company, id, same) ↦
          subst
            (λ (y : Escalation).
              (y.company_id ≡ c)
              × (y.escalation_id ≡ i)
              × (PairDict.lookup c y.decision_event_id
                    (PairDict.insert e.company_id e.decision_event_id e.escalation_id s.by_decision)
                  ≡ some i))
            same
            (
              company,
              id,
              subst
                  (λ k.
                    PairDict.lookup k e.decision_event_id (
                      PairDict.insert e.company_id e.decision_event_id e.escalation_id
                        s.by_decision)
                    ≡ some i)
                  company
                  (PairDict.lookup-insert_self e.company_id e.decision_event_id e.escalation_id
                      s.by_decision
                    ∙ ap some id),
            )
      | inr there ↦
          let (company, id, named) = indexed c i x there in
          (
            company,
            id,
            PairDict.lookup-insert_keeps e.company_id e.decision_event_id c x.decision_event_id
                e.escalation_id i s.by_decision new named,
          )
    ]

pub update-IsIndexed :
    (e : Escalation) (r : Resolution) (c i : String) (s : EscalationStore)
    → get_escalation s c i ≡ some e
    → IsIndexed s
    → IsIndexed (update (settled e r) s)
unfolding update get_escalation settled
update-IsIndexed e r c i s found indexed c' i' x there =
    elim (PairDict.lookup-insert_cases e.company_id e.escalation_id c' i' (settled e r) x s.rows
      there) [
        | inl (company, id, same) ↦
            let (here, own, named) = indexed c i e found in
            subst
              (λ (y : Escalation).
                (y.company_id ≡ c')
                × (y.escalation_id ≡ i')
                × (PairDict.lookup c' y.decision_event_id s.by_decision ≡ some i'))
              same
              (
                company,
                id,
                subst (λ k. PairDict.lookup k e.decision_event_id s.by_decision ≡ some i')
                    (sym here ∙ company) (named ∙ ap some (sym own ∙ id)),
              )
        | inr old ↦ indexed c' i' x old
      ]

pub enter-IsNamedAhead :
    (e : Escalation) (d : Desk)
    → is_resolved e ≡ false
    → IsNamedAhead d
    → IsNamedAhead (record d { escalations = enter e d.escalations })
unfolding enter get_escalation
enter-IsNamedAhead e d fresh ahead c i x found over =
    elim (PairDict.lookup-insert_cases e.company_id e.escalation_id c i e x d.escalations.rows
      found) [
        | inl (_, _, same) ↦ cc (ap is_resolved same, fresh, over)
        | inr there ↦ ahead c i x there over
      ]

-- What holds of a desk goes on holding where the ledger loses no key.
pub IsNamed-KeepsKeys :
    (l l' : Store) (c i : String) (e : Escalation)
    → KeepsKeys l l'
    → IsNamed l c i e
    → IsNamed l' c i e
IsNamed-KeepsKeys l l' c i e keeps (r, a, has, named, same) =
    (r, a, has, keeps c (key_of i) a named, same)
