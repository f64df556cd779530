-- ===== src/Evaluator/Matching.antt =====
-- The list `matched` of a run holds exactly the workflow's policies that match, and the list
-- `undeterminable` those with an absent fact and no failed condition.
use kernl.Prelude.{◌≡◌, refl, sym, ap, subst, ◌∙◌, String, true, some, []}
use kernl.Prelude.Dict.{Dict, lookup}
use kernl.Prelude.Lists.{In, In-keep, In-keep_of, All, All-In}
use kernl.Prelude.Result.{
  ok, traverse, or_raise, In-traverse, In-traverse_of, ok-injective, bind-eq-ok,
}
use kernl.Python.{Json}
use kernl.Python.Text.{Runtime}
use kernl.Schema.{Policy, Bundle, policies_for, Scalar}
use kernl.Schema.Integrity.{index_policies}
use kernl.Evaluator.Types.{key_error, PolicyStatus, PolicyEvaluation, EvaluationResult}
use kernl.Evaluator.Conditions.{evaluate_policy, check_condition}
use kernl.Evaluator.Results.{Holds, Fails, IsAbsent, SomeCondition}
use kernl.Evaluator.Strictness.{matched_iff, failed_iff}
use kernl.Evaluator.Decide.{is_matched, is_undeterminable, matching, undetermined, policy_of}
use kernl.Schema.Unique.{HasUniqueIds, HasUniqueIds-policies_for, lookup-index_policies}
use kernl.Evaluator.Run.{Run}

-- All conditions hold on these facts; no condition fails, and some fact is absent.
abbrev pub Matches : Runtime → Dict Scalar → Policy → Type 0
Matches rt effective p = All (Holds rt effective) p.conditions

abbrev pub IsUnproven : Runtime → Dict Scalar → Policy → Type 0
IsUnproven rt effective p =
    SomeCondition rt effective (IsAbsent rt effective) p.conditions
    × ¬ SomeCondition rt effective (Fails rt effective) p.conditions

is_matched→eq : (s : PolicyStatus) → is_matched s ≡ true → s ≡ PolicyStatus.matched
unfolding is_matched
is_matched→eq PolicyStatus.matched h = refl
is_matched→eq PolicyStatus.failed h = cc
is_matched→eq PolicyStatus.undeterminable h = cc

module _ (rt : Runtime) (effective : Dict Scalar) where
  pub named :
      (p : Policy) (e : PolicyEvaluation)
      → evaluate_policy rt effective p ≡ ok e
      → (e.policy_id ≡ p.id) × (e.priority ≡ p.priority)
  unfolding evaluate_policy
  named p e h =
      let (rs, t, h') = bind-eq-ok (traverse (check_condition rt effective) p.conditions) _ h in
      (
        ap (λ (x : PolicyEvaluation). x.policy_id) (sym (ok-injective h')),
        ap (λ (x : PolicyEvaluation). x.priority) (sym (ok-injective h')),
      )

  is_undeterminable_of :
      (p : Policy) (e : PolicyEvaluation)
      → evaluate_policy rt effective p ≡ ok e
      → IsUnproven rt effective p
      → is_undeterminable e.status ≡ true
  is_undeterminable_of p e h ((c, m, absent), no_fail) = by_status e.status refl
    where
      by_status : (s : PolicyStatus) → e.status ≡ s → is_undeterminable e.status ≡ true
      by_status PolicyStatus.matched st =
          let holds =
            All-In (Holds rt effective) c p.conditions ((matched_iff rt effective p e h).0 st) m in
          cc (absent, holds.1)
      by_status PolicyStatus.failed st = absurd (no_fail ((failed_iff rt effective p e h).0 st))
      by_status PolicyStatus.undeterminable st = unfold is_undeterminable in rw st

module _ (rt : Runtime) (facts : Dict Json) (b : Bundle) (name : String) (r : EvaluationResult)
    (run : Run rt facts b name r) where
  pub matched_sound :
      HasUniqueIds b.policies
      → (w : Policy) → In w run.matched
      → In w (policies_for b name) × Matches rt run.checked.effective w
  matched_sound unique w m =
      let ps = policies_for b name in
      let (e, em, t) =
        In-traverse (policy_of ps) w (matching run.evaluations) run.matched run.collected m in
      let (e', st) = In-keep (λ x. is_matched x.status) e run.evaluations em in
      let (p, pm, ev) =
        In-traverse (evaluate_policy rt run.checked.effective) e ps run.evaluations run.evaluated
          e' in
      let (id, _) = named rt run.checked.effective p e ev in
      let found : lookup e.policy_id (index_policies ps []) ≡ some p =
        rw id (lookup-index_policies p ps [] (HasUniqueIds-policies_for b name unique) pm) in
      let same : w ≡ p = ok-injective (sym t ∙ ap (λ o. or_raise o key_error) found) in
      (
        rw same pm,
        rw same ((matched_iff rt run.checked.effective p e ev).0 (is_matched→eq e.status st)),
      )

  pub matched_complete :
      HasUniqueIds b.policies
      → (p : Policy) → In p (policies_for b name)
      → Matches rt run.checked.effective p
      → In p run.matched
  matched_complete unique p pm holds =
      let ps = policies_for b name in
      let (e, em, ev) =
        In-traverse_of (evaluate_policy rt run.checked.effective) p ps run.evaluations run.evaluated
          pm in
      let st = (matched_iff rt run.checked.effective p e ev).1 holds in
      let km =
        In-keep_of (λ x. is_matched x.status) e run.evaluations em (unfold is_matched in rw st) in
      let (w, wm, t) =
        In-traverse_of (policy_of ps) e (matching run.evaluations) run.matched run.collected km in
      let (id, _) = named rt run.checked.effective p e ev in
      let found : lookup e.policy_id (index_policies ps []) ≡ some p =
        rw id (lookup-index_policies p ps [] (HasUniqueIds-policies_for b name unique) pm) in
      let same : w ≡ p = ok-injective (sym t ∙ ap (λ o. or_raise o key_error) found) in
      subst (λ x. In x run.matched) same wm

  pub undetermined_complete :
      (p : Policy)
      → In p (policies_for b name)
      → IsUnproven rt run.checked.effective p
      → (e : PolicyEvaluation) × In e (undetermined run.evaluations)
        × (e.priority ≡ p.priority)
        × (evaluate_policy rt run.checked.effective p ≡ ok e)
  undetermined_complete p pm u =
      let ps = policies_for b name in
      let (e, em, ev) =
        In-traverse_of (evaluate_policy rt run.checked.effective) p ps run.evaluations run.evaluated
          pm in
      let open_status = is_undeterminable_of rt run.checked.effective p e ev u in
      let (_, prio) = named rt run.checked.effective p e ev in
      (e, In-keep_of (λ x. is_undeterminable x.status) e run.evaluations em open_status, prio, ev)
