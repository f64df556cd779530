-- ===== src/Schema/Declarations.antt =====
-- The declarations of a bundle that passes its checks: no fact twice, each default of the declared type,
-- and each condition on a declared fact of its own type.
use kernl.Prelude.{
  ◌≡◌, refl, ap, ◌⊎◌, inl, inr, String, true, not, some, List, [], ◌∷◌, arith, Option-cases,
}
use kernl.Prelude.Dict.{Dict, lookup, insert, In-insert, IsKeyed, insert-IsKeyed}
use kernl.Prelude.Lists.{In, elem}
use kernl.Prelude.Result.{ok, raise_if, check-passed}
use kernl.Python.Text.{Runtime}
use kernl.Schema.Types.{
  ValueType, number, string, Policy, Condition, FactSpec, WorkflowSpec, Bundle, workflow, fact_map,
  index_facts,
}
use kernl.Schema.Validate.{
  each, check_fact, check_workflow, default_has_type, is_snake, not_snake, default_type,
  unknown_workflow, field_type,
}
use kernl.Schema.Integrity.{
  check_bundle, check_references, check_declared, check_target, same_type, workflow_names,
  policy_ids,
}
use kernl.Schema.Checked.{each_passed, raise_if-passed, workflow_passed, references_passed}

index_facts-IsKeyed :
    (fs : List FactSpec) (d : Dict FactSpec) → IsKeyed d → IsKeyed (index_facts fs d)
index_facts-IsKeyed [] d h = h
index_facts-IsKeyed (f ∷ fs) d h =
    index_facts-IsKeyed fs (insert f.name f d) (insert-IsKeyed f.name f d h)

-- No fact of a workflow is declared twice.
pub fact_map-IsKeyed : (w : WorkflowSpec) → IsKeyed (fact_map w)
unfolding fact_map
fact_map-IsKeyed w = index_facts-IsKeyed w.facts [] tt

In-index_facts :
    (fs : List FactSpec) (d : Dict FactSpec) (k : String) (f : FactSpec)
    → In (k, f) (index_facts fs d)
    → In f fs ⊎ In (k, f) d
In-index_facts [] d k f m = inr m
In-index_facts (g ∷ fs) d k f m = elim (In-index_facts fs (insert g.name g d) k f m) [
  | inl later ↦ inl (inr later)
  | inr now ↦ elim (In-insert g.name g d (k, f) now) [
    | inl e ↦ inl (inl (ap (λ x. x.1) e))
    | inr old ↦ inr old
  ]
]

same_type→eq : (s t : ValueType) → same_type s t ≡ true → s ≡ t
unfolding same_type
same_type→eq number number h = refl
same_type→eq string string h = refl
same_type→eq ValueType.boolean ValueType.boolean h = refl
same_type→eq number string h = cc
same_type→eq number ValueType.boolean h = cc
same_type→eq string number h = cc
same_type→eq string ValueType.boolean h = cc
same_type→eq ValueType.boolean number h = cc
same_type→eq ValueType.boolean string h = cc

check_declared-declares :
    (specs : Dict FactSpec) (c : Condition)
    → check_declared specs c ≡ ok tt
    → (spec : FactSpec) × (lookup c.field specs ≡ some spec) × (spec.value_type ≡ c.value_type)
unfolding check_declared
check_declared-declares specs c h = elim (Option-cases (lookup c.field specs)) [
  | inl o ↦ cc (rw (o, check_declared) at h)
  | inr (spec, o) ↦
      let apart =
        raise_if-passed (not (same_type spec.value_type c.value_type)) field_type
          (rw (o, check_declared) at h) in
      (spec, o, same_type→eq spec.value_type c.value_type (ground (arith, apart)))
]

module _ (rt : Runtime) (b : Bundle) (passed : check_bundle rt b ≡ ok tt) where
  -- Each default has the type that its fact declares.
  pub defaults_are_typed :
      (w : WorkflowSpec) (k : String) (f : FactSpec)
      → In w b.workflows
      → In (k, f) (fact_map w)
      → default_has_type f.value_type f.default ≡ true
  unfolding fact_map check_workflow check_fact
  defaults_are_typed w k f wm m = elim (In-index_facts w.facts [] k f m) [
    | inr old ↦ absurd old
    | inl fm ↦
        let (facts_pass, _) =
          check-passed (each check_fact w.facts) _ tt (workflow_passed rt b passed w wm) in
        let h = each_passed check_fact f w.facts facts_pass fm in
        let (_, typed) = check-passed (raise_if (not (is_snake f.name)) not_snake) _ tt h in
        let fine =
          raise_if-passed (not (default_has_type f.value_type f.default)) default_type typed in
        ground (arith, fine)
  ]

  -- Each condition of a policy is on a fact that its workflow declares, with the condition's type.
  pub conditions_are_declared :
      (w : WorkflowSpec) (p : Policy) (c : Condition)
      → In p b.policies
      → In c p.conditions
      → workflow b p.workflow ≡ some w
      → (spec : FactSpec) × (lookup c.field (fact_map w) ≡ some spec)
        × (spec.value_type ≡ c.value_type)
  unfolding check_references workflow
  conditions_are_declared w p c pm cm found =
      let h = references_passed rt b passed p pm in
      let (_, h1) =
        check-passed
          (raise_if (not (elem p.workflow (workflow_names b.workflows))) unknown_workflow) _ tt h in
      let (_, h2) =
        check-passed (each (check_target (policy_ids b.policies)) p.overrides) _ tt h1 in
      check_declared-declares (fact_map w) c
        (each_passed (check_declared (fact_map w)) c p.conditions (rw found at h2) cm)
