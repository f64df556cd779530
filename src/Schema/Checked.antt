-- ===== src/Schema/Checked.antt =====
-- What a bundle that passes its checks is known to have.
use kernl.Prelude.{ℕ, String, arith, ◌≡◌, inl, inr, Bool, false, List, [], ◌∷◌, subst, sym}
use kernl.Prelude.Lists.{In}
use kernl.Prelude.Result.{ok, raise_if, check-passed}
use kernl.Python.Text.{Runtime}
use kernl.Schema.Types.{Policy, Condition, WorkflowSpec, Bundle}
use kernl.Schema.Validate.{
  Check, SchemaError, each, check_condition, check_workflow, check_policy, has_duplicates,
  duplicate_workflows, duplicate_policies,
}
use kernl.Schema.Integrity.{
  check_bundle, policy_ids, workflow_names, check_references, check_same_workflow, index_policies,
}
use kernl.Schema.Ranked.{IsRanked, IsRanked-of_acyclic}
use kernl.Schema.Unique.{HasUniqueIds, HasUniqueIds-of_check}

pub each_passed :
    {A : Type 0} (f : A → Check) (x : A) (xs : List A) → each f xs ≡ ok tt → In x xs → f x ≡ ok tt
unfolding each
each_passed f x [] h m = absurd m
each_passed f x (y ∷ ys) h (inl e) =
    subst (λ z. f z ≡ ok tt) (sym e) (check-passed (f y) (each f ys) tt h).0
each_passed f x (y ∷ ys) h (inr m) = each_passed f x ys (check-passed (f y) (each f ys) tt h).1 m

pub raise_if-passed : (t : Bool) (e : SchemaError) → raise_if t e ≡ ok tt → t ≡ false
raise_if-passed t e h = ground arith

module _ (rt : Runtime) (b : Bundle) (passed : check_bundle rt b ≡ ok tt) where
  policies_passed : each (check_policy rt) b.policies ≡ ok tt
  unfolding check_bundle
  policies_passed =
      let (_, h) = check-passed (each check_workflow b.workflows) _ tt passed in
      (check-passed (each (check_policy rt) b.policies) _ tt h).0

  -- Every workflow passes its own validator, and every policy the tests of `_integrity`.
  pub workflow_passed : (w : WorkflowSpec) → In w b.workflows → check_workflow w ≡ ok tt
  unfolding check_bundle
  workflow_passed w m =
      each_passed check_workflow w b.workflows
        (check-passed (each check_workflow b.workflows) _ tt passed).0 m

  pub references_passed : (p : Policy) → In p b.policies → check_references b p ≡ ok tt
  unfolding check_bundle
  references_passed p m =
      let (_, h1) = check-passed (each check_workflow b.workflows) _ tt passed in
      let (_, h2) = check-passed (each (check_policy rt) b.policies) _ tt h1 in
      let (_, h3) =
        check-passed (raise_if (has_duplicates (workflow_names b.workflows)) duplicate_workflows) _
          tt h2 in
      let (_, h4) =
        check-passed (raise_if (has_duplicates (policy_ids b.policies)) duplicate_policies) _ tt
          h3 in
      each_passed (check_references b) p b.policies
        (check-passed (each (check_references b) b.policies) _ tt h4).0 m

  -- Every condition of every policy passes its own validator.
  pub condition_passed :
      (p : Policy) (c : Condition) → In p b.policies → In c p.conditions → check_condition c ≡ ok tt
  unfolding check_policy
  condition_passed p c pm cm =
      let h = each_passed (check_policy rt) p b.policies policies_passed pm in
      each_passed check_condition c p.conditions
        (check-passed (each check_condition p.conditions) _ tt h).0 cm

  -- The policies' ids are all different.
  pub ids_unique : HasUniqueIds b.policies
  unfolding check_bundle
  ids_unique =
      let (_, h1) = check-passed (each check_workflow b.workflows) _ tt passed in
      let (_, h2) = check-passed (each (check_policy rt) b.policies) _ tt h1 in
      let (_, h3) =
        check-passed (raise_if (has_duplicates (workflow_names b.workflows)) duplicate_workflows) _
          tt h2 in
      let (h4, _) =
        check-passed (raise_if (has_duplicates (policy_ids b.policies)) duplicate_policies) _ tt
          h3 in
      HasUniqueIds-of_check b.policies
        (raise_if-passed (has_duplicates (policy_ids b.policies)) duplicate_policies h4)

  -- The overrides have no cycle.
  pub overrides-IsRanked : (rank : String → ℕ) × IsRanked rank b.policies
  unfolding check_bundle
  overrides-IsRanked =
      let (_, h1) = check-passed (each check_workflow b.workflows) _ tt passed in
      let (_, h2) = check-passed (each (check_policy rt) b.policies) _ tt h1 in
      let (_, h3) =
        check-passed (raise_if (has_duplicates (workflow_names b.workflows)) duplicate_workflows) _
          tt h2 in
      let (_, h4) =
        check-passed (raise_if (has_duplicates (policy_ids b.policies)) duplicate_policies) _ tt
          h3 in
      let (_, h5) = check-passed (each (check_references b) b.policies) _ tt h4 in
      let by_id = index_policies b.policies [] in
      let (_, h6) =
        check-passed (each (λ p. each (check_same_workflow by_id p) p.overrides) b.policies) _ tt
          h5 in
      IsRanked-of_acyclic b.policies ids_unique h6
