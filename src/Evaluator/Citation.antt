-- ===== src/Evaluator/Citation.antt =====
-- Every decision cites a policy that matches, that precedes the others, and that no unproven policy
-- outranks.
use kernl.Prelude.{
  ℕ, ◌≤◌, ◌≡◌, sym, subst, ◌∙◌, ◌⊎◌, inl, inr, String, some, List, [], ltb, arith, Bool-cases,
  not-ltb→le,
}
use kernl.Prelude.Dict.{Dict}
use kernl.Prelude.Lists.{In, In-keep_of}
use kernl.Prelude.Result.{ok}
use kernl.Python.{Json}
use kernl.Python.Text.{Runtime}
use kernl.Schema.{Policy, Bundle, policies_for, Scalar}
use kernl.Evaluator.Types.{PolicyEvaluation, EvaluationResult}
use kernl.Evaluator.Precedence.{winner-Precedes}
use kernl.Evaluator.Selection.{Precedes}
use kernl.Evaluator.Decide.{undetermined, evaluate, decision, blockers}
use kernl.Schema.Unique.{HasUniqueIds}
use kernl.Evaluator.Run.{Run, evaluate-Run}
use kernl.Evaluator.Ruling.{cited}
use kernl.Evaluator.Matching.{
  Matches, IsUnproven, matched_sound, matched_complete, undetermined_complete,
}

-- No matching policy of the list overrides this one.
abbrev pub IsUndefeated : Runtime → Dict Scalar → List Policy → Policy → Type 0
IsUndefeated rt effective ps q =
    ¬ ((p : Policy) × In p ps × Matches rt effective p × In q.id p.overrides)

not_blocking :
    (w : Policy) (x : PolicyEvaluation) (es : List PolicyEvaluation)
    → blockers w es ≡ []
    → In x es
    → (n : ℕ) → x.priority ≡ n
    → n ≤ w.priority
unfolding blockers
not_blocking w x es free m n prio = elim (Bool-cases (ltb w.priority x.priority)) [
  | inl e ↦ absurd (subst (In x) free (In-keep_of (λ y. ltb w.priority y.priority) x es m e))
  | inr e ↦ omega (arith, not-ltb→le w.priority x.priority e, prio)
]

module _ (rt : Runtime) (facts : Dict Json) (b : Bundle) (name : String)
    (r : EvaluationResult) where
  -- The policy that a run cites, and what the steps of the run say of it.
  abbrev IsCited : Run rt facts b name r → Policy → Type 0
  IsCited run w =
      (run.selection.winner ≡ some w)
      × (r.outcome ≡ decision w)
      × (blockers w (undetermined run.evaluations) ≡ [])

  policy-IsCited :
      (run : Run rt facts b name r) (pid : String)
      → r.outcome.policy_id ≡ some pid
      → (w : Policy) × (w.id ≡ pid) × IsCited run w
  policy-IsCited run pid h =
      let (w, won, id, out, free) =
        cited run.selection (undetermined run.evaluations) pid (rw run.ruled at h) in
      (w, id, (won, run.ruled ∙ out, free))

  module _ (unique : HasUniqueIds b.policies) (pid : String) where
    -- In a bundle whose policy ids differ, a decision that names a policy is that policy's: it stands
    -- in the bundle under the workflow, the outcome is its effect and authority, and each of its
    -- conditions has its fact among the effective facts and passes on it.
    pub decision_is_cited :
        evaluate rt facts b name ≡ ok r
        → r.outcome.policy_id ≡ some pid
        → (w : Policy) × In w (policies_for b name)
          × (w.id ≡ pid)
          × (r.outcome ≡ decision w)
          × Matches rt r.trace.facts_effective w
    decision_is_cited e h =
        let run = evaluate-Run rt facts b name r e in
        let (w, id, (won, out, free)) = policy-IsCited run pid h in
        let ((wm, _), _) = winner-Precedes run.matched run.selection w run.selected won in
        let (wp, holds) = matched_sound rt facts b name r run unique w wm in
        (w, wp, id, out, subst (λ x. Matches rt x w) (sym run.traced) holds)

    -- In a bundle whose policy ids differ, no matching policy overrides the policy of a decision, and
    -- it precedes every other policy of the workflow that matches and that no matching policy
    -- overrides: it has more conditions, or as many and a higher priority.
    pub decision-Precedes :
        evaluate rt facts b name ≡ ok r
        → r.outcome.policy_id ≡ some pid
        → (w : Policy) × (w.id ≡ pid)
          × In w (policies_for b name)
          × IsUndefeated rt r.trace.facts_effective (policies_for b name) w
          × ((q : Policy)
              → In q (policies_for b name)
              → Matches rt r.trace.facts_effective q
              → IsUndefeated rt r.trace.facts_effective (policies_for b name) q
              → Precedes w q ⊎ (q ≡ w))
    decision-Precedes e h =
        let run = evaluate-Run rt facts b name r e in
        let (w, id, (won, out, free)) = policy-IsCited run pid h in
        let (best, before) = winner-Precedes run.matched run.selection w run.selected won in
        let (wp, _) = matched_sound rt facts b name r run unique w best.0 in
        (
          w,
          id,
          wp,
          λ (p, pm, holds, o).
              best.1
                (p, matched_complete rt facts b name r run unique p pm (rw run.traced at holds), o),
          λ q qm holds free. before q (
            matched_complete rt facts b name r run unique q qm (rw run.traced at holds),
            λ (p, pm, o).
                let (pp, pholds) = matched_sound rt facts b name r run unique p pm in
                free (p, pp, rw run.traced pholds, o),
          ),
        )

    -- In a bundle whose policy ids differ, no policy of the workflow that is unproven, with a fact
    -- absent and no condition failed, has a higher priority than the policy of a decision.
    pub IsUnproven-le-decision :
        evaluate rt facts b name ≡ ok r
        → r.outcome.policy_id ≡ some pid
        → (w : Policy) × (w.id ≡ pid)
          × In w (policies_for b name)
          × ((q : Policy)
              → In q (policies_for b name)
              → IsUnproven rt r.trace.facts_effective q
              → q.priority ≤ w.priority)
    IsUnproven-le-decision e h =
        let run = evaluate-Run rt facts b name r e in
        let (w, id, (won, out, free)) = policy-IsCited run pid h in
        let (best, _) = winner-Precedes run.matched run.selection w run.selected won in
        let (wp, _) = matched_sound rt facts b name r run unique w best.0 in
        (
          w,
          id,
          wp,
          λ q qm u.
              let (x, xm, prio, _) =
                undetermined_complete rt facts b name r run q qm (rw run.traced at u) in
              not_blocking w x (undetermined run.evaluations) free xm q.priority prio,
        )
