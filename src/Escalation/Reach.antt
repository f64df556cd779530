-- ===== src/Escalation/Reach.antt =====
-- The desks that calls make, and what holds of each, whatever else is written to the ledger and to
-- the golden cases in between.
use kernl.Prelude.{◌≡◌, refl, sym, ap, subst, ◌∙◌, inl, inr, String, true, some, List, []}
use kernl.Prelude.PairDict
use kernl.Python.Text.{Runtime}
use kernl.Canonical.{Hashing}
use kernl.Ledger.Events.{DecisionEvent, adjudication}
use kernl.Ledger.Origins.{HoldsOfAll, IsForeign, append-HoldsOfAll}
use kernl.Ledger.Store.{empty, append, by_idempotency_key}
use kernl.Ledger.Service.{Dumps, Attempt}
use kernl.Ledger.Keys.{append-KeepsKeys}
use kernl.Replay.Cases.{GoldenCase, add_case}
use kernl.Escalation.Store.{
  Resolution, Escalation, EscalationStore, no_escalations, get_escalation, update,
}
use kernl.Escalation.Service.{
  new_escalation, open_for, adjudication_of, Desk, Ruling, Promotion, settled, resolution_of,
  is_resolved, resolve,
}
use kernl.Escalation.Resolving.{key_of, resolve-cases, resolve-HoldsOfAll}
use kernl.Escalation.Inbox.{
  IsIndexed, IsNamedAhead, open_for-cases, enter-IsIndexed, update-IsIndexed, enter-IsNamedAhead,
  IsNamed-KeepsKeys,
}

-- An event with the key of an adjudication is one.
abbrev pub RespectsKeys : DecisionEvent → Type 0
RespectsKeys x = (i : String) → x.idempotency_key ≡ key_of i → x.event_type ≡ adjudication

-- An escalation that is resolved has a resolution, and the ledger holds, under the escalation's key, the
-- adjudication that the resolution names.
abbrev pub IsWrittenAhead : Desk → Type 0
IsWrittenAhead d =
    (c i : String) (e : Escalation)
    → get_escalation d.escalations c i ≡ some e
    → is_resolved e ≡ true
    → (r : Resolution) × (a : DecisionEvent) × (e.resolution ≡ some r)
      × (by_idempotency_key d.ledger c (key_of i) ≡ some a)
      × (r.adjudication_event_id ≡ a.event_id)
      × (a.event_type ≡ adjudication)

module _ (rt : Runtime) (h : Hashing) (dumps : Dumps) (callback : Promotion)
    (Allowed : DecisionEvent → Type 0) where
  -- The desks that calls make from the empty stores: other writers append events to the ledger, at
  -- any time and of the kind that `Allowed` says, and add golden cases, decisions are escalated, and
  -- escalations are resolved.
  pub data Reachable : Desk → Type 0 where
    start : Reachable (record { escalations = no_escalations; ledger = empty; cases = [] })
    appended :
        (d : Desk) (x : DecisionEvent)
        → Allowed x
        → Reachable d
        → Reachable (record d { ledger = (append h x d.ledger).1 })
    grown :
        (d : Desk) (x : GoldenCase)
        → Reachable d
        → Reachable (record d { cases = (add_case x d.cases).1 })
    escalated :
        (d : Desk) (x : DecisionEvent) (id now : String)
        → Reachable d
        → Reachable (record d { escalations = (open_for x id now d.escalations).1 })
    ruled :
        (d : Desk) (q : Ruling) (attempts : List Attempt) (now : String)
        → ((x : DecisionEvent) → IsForeign attempts x → Allowed x)
        → Reachable d
        → Reachable (resolve rt h dumps callback q attempts now d).1

  open_for-IsIndexed :
      (x : DecisionEvent) (id now : String) (s : EscalationStore)
      → IsIndexed s
      → IsIndexed (open_for x id now s).1
  unfolding new_escalation
  open_for-IsIndexed x id now s indexed = elim (open_for-cases x id now s) [
    | inl same ↦ subst IsIndexed (sym same) indexed
    | inr (need, new, entered) ↦
        subst IsIndexed (sym entered) (enter-IsIndexed (new_escalation x need id now) s new indexed)
  ]

  resolve-IsIndexed :
      (q : Ruling) (attempts : List Attempt) (now : String) (d : Desk)
      → IsIndexed d.escalations
      → IsIndexed (resolve rt h dumps callback q attempts now d).1.escalations
  resolve-IsIndexed q attempts now d indexed =
      elim (resolve-cases rt h dumps callback q attempts now d) [
        | inl (_, left, _) ↦ subst IsIndexed (sym left) indexed
        | inr (e, a, (found, _, _, _, wrote, _)) ↦
            subst IsIndexed (sym wrote)
              (update-IsIndexed e _ q.company_id q.escalation_id d.escalations found indexed)
      ]

  -- On every desk that calls make, whatever other writers append, each escalation stands under its own
  -- company and id, and its decision's entry names it: no decision has two escalations.
  pub Reachable-IsIndexed : (d : Desk) → Reachable d → IsIndexed d.escalations
  unfolding get_escalation PairDict.lookup
  Reachable-IsIndexed _ start = λ c i e found. cc found
  Reachable-IsIndexed _ (appended d x allowed m) = Reachable-IsIndexed d m
  Reachable-IsIndexed _ (grown d x m) = Reachable-IsIndexed d m
  Reachable-IsIndexed _ (escalated d x id now m) =
      open_for-IsIndexed x id now d.escalations (Reachable-IsIndexed d m)
  Reachable-IsIndexed _ (ruled d q attempts now allowed m) =
      resolve-IsIndexed q attempts now d (Reachable-IsIndexed d m)

  open_for-IsNamedAhead :
      (x : DecisionEvent) (id now : String) (d : Desk)
      → IsNamedAhead d
      → IsNamedAhead (record d { escalations = (open_for x id now d.escalations).1 })
  unfolding new_escalation is_resolved
  open_for-IsNamedAhead x id now d ahead = elim (open_for-cases x id now d.escalations) [
    | inl same ↦ subst (λ s. IsNamedAhead (record d { escalations = s })) (sym same) ahead
    | inr (need, new, entered) ↦
        subst (λ s. IsNamedAhead (record d { escalations = s })) (sym entered)
          (enter-IsNamedAhead (new_escalation x need id now) d refl ahead)
  ]

  resolve-IsNamedAhead :
      (q : Ruling) (attempts : List Attempt) (now : String) (d : Desk)
      → IsIndexed d.escalations
      → IsNamedAhead d
      → IsNamedAhead (resolve rt h dumps callback q attempts now d).1
  unfolding update get_escalation settled resolution_of
  resolve-IsNamedAhead q attempts now d indexed ahead c i x found over =
      let r = resolve rt h dumps callback q attempts now d in
      elim (resolve-cases rt h dumps callback q attempts now d) [
        | inl (_, left, keeps) ↦
            IsNamed-KeepsKeys d.ledger r.1.ledger c i x keeps
              (ahead c i x (subst (λ s. get_escalation s c i ≡ some x) left found) over)
        | inr (e, a, (there, _, named, _, wrote, keeps)) ↦
            let (company, id, _) = indexed q.company_id q.escalation_id e there in
            elim (PairDict.lookup-insert_cases e.company_id e.escalation_id c i
              (settled e (resolution_of q a now)) x d.escalations.rows
              (subst (λ s. get_escalation s c i ≡ some x) wrote found)) [
                | inl (c_eq, i_eq, same) ↦ (
                  resolution_of q a now,
                  a,
                  ap (λ y. y.resolution) (sym same),
                  subst (λ k. by_idempotency_key r.1.ledger k (key_of i) ≡ some a)
                      (sym company ∙ c_eq)
                      (subst (λ k. by_idempotency_key r.1.ledger q.company_id (key_of k) ≡ some a)
                        (sym id ∙ i_eq) named),
                  refl,
                )
                | inr old ↦ IsNamed-KeepsKeys d.ledger r.1.ledger c i x keeps (ahead c i x old over)
              ]
      ]

  Reachable-IsNamedAhead : (d : Desk) → Reachable d → IsNamedAhead d
  unfolding get_escalation PairDict.lookup
  Reachable-IsNamedAhead _ start = λ c i e found over. cc found
  Reachable-IsNamedAhead _ (appended d x allowed m) = λ c i e found over.
      IsNamed-KeepsKeys d.ledger (append h x d.ledger).1 c i e (append-KeepsKeys h x d.ledger)
        (Reachable-IsNamedAhead d m c i e found over)
  Reachable-IsNamedAhead _ (grown d x m) = Reachable-IsNamedAhead d m
  Reachable-IsNamedAhead _ (escalated d x id now m) =
      open_for-IsNamedAhead x id now d (Reachable-IsNamedAhead d m)
  Reachable-IsNamedAhead _ (ruled d q attempts now allowed m) =
      resolve-IsNamedAhead q attempts now d (Reachable-IsIndexed d m) (Reachable-IsNamedAhead d m)

module _ (rt : Runtime) (h : Hashing) (dumps : Dumps) (callback : Promotion) where
  Reachable-RespectsKeys :
      (d : Desk)
      → Reachable rt h dumps callback RespectsKeys d
      → HoldsOfAll (λ c k x. (i : String) → k ≡ key_of i → x.event_type ≡ adjudication) d.ledger
  unfolding by_idempotency_key PairDict.lookup adjudication_of
  Reachable-RespectsKeys _ start = λ c k x named. cc named
  Reachable-RespectsKeys _ (appended d x allowed m) =
      append-HoldsOfAll h (λ c k y. (i : String) → k ≡ key_of i → y.event_type ≡ adjudication) x
        d.ledger allowed (Reachable-RespectsKeys d m)
  Reachable-RespectsKeys _ (grown d x m) = Reachable-RespectsKeys d m
  Reachable-RespectsKeys _ (escalated d x id now m) = Reachable-RespectsKeys d m
  Reachable-RespectsKeys _ (ruled d q attempts now allowed m) =
      resolve-HoldsOfAll rt h dumps callback
        (λ c k y. (i : String) → k ≡ key_of i → y.event_type ≡ adjudication) q attempts now d
        (λ e original x found kept j i key. j.kind) allowed (Reachable-RespectsKeys d m)

  -- The write-ahead rule of escalations: on every desk that calls make, an escalation that is
  -- resolved has a resolution, and the ledger holds, under the key "adjudication:" and the
  -- escalation's id, an event of the type adjudication, which is the one that the resolution names. It
  -- takes that other writers append under such keys, before and during the calls, adjudications only.
  pub Reachable-IsWrittenAhead :
      (d : Desk) → Reachable rt h dumps callback RespectsKeys d → IsWrittenAhead d
  Reachable-IsWrittenAhead d m c i e found over =
      let (r, a, has, named, same) =
        Reachable-IsNamedAhead rt h dumps callback RespectsKeys d m c i e found over in
      (r, a, has, named, same, Reachable-RespectsKeys d m c (key_of i) a named i refl)
