-- ===== src/Evaluator/Answers.antt =====
-- A bundle that passes its checks answers every request whose facts are
-- well typed.
use kernl.Prelude.{
  ℕ, ◌≡◌, sym, ap, subst, true, eq_iff, ◌∙◌, ◌⊎◌, arith, inl, inr, String, some, List, [], ◌∷◌,
  ◌==◌, Option-cases,
}
use kernl.Prelude.Dict.{Dict, lookup, insert, lookup-insert}
use kernl.Prelude.Lists.{In, In-keep, In-find}
use kernl.Prelude.Result.{
  ok, err, or_raise, traverse, In-traverse, traverse_returns, ok_or_err, ok-injective,
}
use kernl.Python.{Json}
use kernl.Python.Text.{Runtime}
use kernl.Schema.{Scalar, Policy, Condition, WorkflowSpec, Bundle, workflow, policies_for, fact_map}
use kernl.Schema.Integrity.{check_bundle, index_policies}
use kernl.Schema.Validate.{has_type}
use kernl.Schema.Declarations.{fact_map-IsKeyed, defaults_are_typed, conditions_are_declared}
use kernl.Schema.Checked.{overrides-IsRanked, condition_passed, ids_unique}
use kernl.Schema.Unique.{HasUniqueIds-policies_for, lookup-index_policies}
use kernl.Evaluator.Types.{
  EvalError, key_error, PolicyEvaluation, ConditionResult, EvaluationResult,
}
use kernl.Evaluator.Facts.{Validated, validate_facts}
use kernl.Evaluator.Conditions.{check_condition, evaluate_policy, evaluation_from}
use kernl.Evaluator.Decide.{
  is_matched, matching, policy_of, evaluate, traced, rule_on, undetermined,
}
use kernl.Evaluator.Totality.{IsInRange, compare_returns}
use kernl.Evaluator.Typed.{AreTyped, validate_facts-AreTyped}
use kernl.Evaluator.Precedence.{select_winner_returns}
use kernl.Schema.Ranked.{IsRanked}
use kernl.Evaluator.Matching.{named}

In-policies_for :
    (b : Bundle) (name : String) (p : Policy) → In p (policies_for b name) → In p b.policies
unfolding policies_for
In-policies_for b name p m = (In-keep (λ q. q.workflow == name) p b.policies m).0

In-index_policies :
    (k : String) (p : Policy) (ps : List Policy) (d : Dict Policy)
    → lookup k (index_policies ps d) ≡ some p
    → In p ps ⊎ (lookup k d ≡ some p)
In-index_policies k p [] d h = inr h
In-index_policies k p (q ∷ ps) d h = elim (In-index_policies k p ps (insert q.id q d) h) [
  | inl m ↦ inl (inr m)
  | inr old ↦ ground (arith, lookup-insert q.id k q d)
]

In-policy_of :
    (ps : List Policy) (e : PolicyEvaluation) (p : Policy) → policy_of ps e ≡ ok p → In p ps
unfolding lookup
In-policy_of ps e p h = elim (Option-cases (lookup e.policy_id (index_policies ps []))) [
  | inl o ↦ cc (rw o at h)
  | inr (q, o) ↦ elim (In-index_policies e.policy_id q ps [] o) as (λ _. In p ps) [
    | inl m ↦ subst (λ x. In x ps) (ok-injective (rw o at h)) m
    | inr old ↦ cc old
  ]
]

module _ (rt : Runtime) (b : Bundle) (passed : check_bundle rt b ≡ ok tt) (name : String)
    (effective : Dict Scalar) where
  -- The integers that the conditions of the workflow convert with these facts are in the range of the
  -- conversions.
  abbrev pub AreInRange : Type 0
  AreInRange =
      (p : Policy) (c : Condition) (v : Scalar)
      → In p (policies_for b name)
      → In c p.conditions
      → lookup c.field effective ≡ some v
      → IsInRange c.value_type c.value v

  module _ (wf : WorkflowSpec) (found : workflow b name ≡ some wf)
      (typed : AreTyped (fact_map wf) effective) (ranges : AreInRange) where
    -- The fact of a condition has the condition's type.
    fact_has_type :
        (p : Policy) (c : Condition) (v : Scalar)
        → In p (policies_for b name)
        → In c p.conditions
        → lookup c.field effective ≡ some v
        → has_type c.value_type v ≡ true
    unfolding policies_for
    fact_has_type p c v pm cm o =
        let (pb, own) = In-keep (λ q. q.workflow == name) p b.policies pm in
        let here = (eq_iff p.workflow name).0 own in
        let (spec, declared, same) =
          conditions_are_declared rt b passed wf p c pb cm
            (subst (λ k. workflow b k ≡ some wf) (sym here) found) in
        let (spec', declared', has) = typed c.field v o in
        let one : spec' ≡ spec = cc (declared, declared') in
        subst (λ t. has_type t v ≡ true) (ap (λ x. x.value_type) one ∙ same) has

    condition_returns :
        (p : Policy) (c : Condition)
        → In p (policies_for b name)
        → In c p.conditions
        → (r : ConditionResult) × (check_condition rt effective c ≡ ok r)
    unfolding check_condition
    condition_returns p c pm cm = elim (ok_or_err (check_condition rt effective c)) [
      | inl r ↦ r
      | inr (e, h) ↦ absurd (never e h)
    ]
      where
        never : (e : EvalError) → check_condition rt effective c ≡ err e → ⊥
        never e h = elim (Option-cases (lookup c.field effective)) [
          | inl o ↦ cc (rw (o, check_condition) at h)
          | inr (v, o) ↦
              let (t, et) =
                compare_returns rt c v
                  (condition_passed rt b passed p c (In-policies_for b name p pm) cm)
                  (fact_has_type p c v pm cm o) (ranges p c v pm cm o) in
              cc (rw (o, check_condition, et) at h)
        ]

    policy_returns :
        (p : Policy)
        → In p (policies_for b name)
        → (e : PolicyEvaluation) × (evaluate_policy rt effective p ≡ ok e)
    unfolding evaluate_policy
    policy_returns p pm =
        let (rs, h) =
          traverse_returns (check_condition rt effective) p.conditions
            (λ c cm. condition_returns p c pm cm) in
        (evaluation_from p rs, rw h)

  -- `by_id` has the policy of each evaluation.
  collected :
      (es : List PolicyEvaluation)
      → traverse (evaluate_policy rt effective) (policies_for b name) ≡ ok es
      → (e : PolicyEvaluation) → In e (matching es)
      → (p : Policy) × (policy_of (policies_for b name) e ≡ ok p)
  collected es h e m =
      let ps = policies_for b name in
      let (em, _) = In-keep (λ x. is_matched x.status) e es m in
      let (p, pm, ev) = In-traverse (evaluate_policy rt effective) e ps es h em in
      let (id, _) = named rt effective p e ev in
      let found =
        lookup-index_policies p ps [] (HasUniqueIds-policies_for b name (ids_unique rt b passed))
          pm in
      (
        p,
        ap (λ k. or_raise (lookup k (index_policies ps [])) key_error) id
            ∙ ap (λ o. or_raise o key_error) found,
      )

  matched-IsRanked :
      (rank : String → ℕ) (es : List PolicyEvaluation) (ms : List Policy)
      → IsRanked rank b.policies
      → traverse (policy_of (policies_for b name)) (matching es) ≡ ok ms
      → IsRanked rank ms
  matched-IsRanked rank es ms ranked h p m =
      let (e, _, found) = In-traverse (policy_of (policies_for b name)) p (matching es) ms h m in
      ranked p (In-policies_for b name p (In-policy_of (policies_for b name) e p found))

module _ (rt : Runtime) (b : Bundle) (passed : check_bundle rt b ≡ ok tt) where
  -- With a bundle that passes its checks, a request for one of its workflows whose facts pass
  -- `_validate_facts` gets a decision: `evaluate` returns. It takes that the integers that the workflow's
  -- conditions compare as numbers are in the range of the floats, and that those in the values of its
  -- conditions on texts have at most 4300 digits.
  pub evaluate_returns :
      (facts : Dict Json) (name : String) (wf : WorkflowSpec) (checked : Validated)
      → workflow b name ≡ some wf
      → validate_facts facts (fact_map wf) ≡ ok checked
      → AreInRange rt b passed name checked.effective
      → (r : EvaluationResult) × (evaluate rt facts b name ≡ ok r)
  unfolding evaluate workflow
  evaluate_returns facts name wf checked found valid ranges =
      let (rank, ranked) = overrides-IsRanked rt b passed in
      let ps = policies_for b name in
      let wm = (In-find (λ w. w.name == name) wf b.workflows found).0 in
      let typed =
        validate_facts-AreTyped (fact_map wf) facts checked (fact_map-IsKeyed wf)
          (λ k f m. defaults_are_typed rt b passed wf k f wm m) valid in
      let (es, h1) =
        traverse_returns (evaluate_policy rt checked.effective) ps
          (λ p m. policy_returns rt b passed name checked.effective wf found typed ranges p m) in
      let (ms, h2) =
        traverse_returns (policy_of ps) (matching es)
          (collected rt b passed name checked.effective es h1) in
      let (s, h3) =
        select_winner_returns rank ms
          (matched-IsRanked rt b passed name checked.effective rank es ms ranked h2) in
      (
        traced facts name checked es (rule_on s (undetermined es)),
        rw found (rw valid (rw h1 (rw h2 (rw h3)))),
      )
