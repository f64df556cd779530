-- ===== src/Schema/Integrity.antt =====
-- `Bundle._integrity` of backend/bundle/schema.py.
use kernl.Prelude.{String, Bool, true, false, not, none, some, List, [], ◌∷◌, ◌==◌}
use kernl.Prelude.Dict.{Dict, lookup, insert}
use kernl.Prelude.Lists.{find, elem}
use kernl.Prelude.Result.{err, ◌>>=◌, ◌>>◌, raise_if, or_raise}
use kernl.Python.Text.{Runtime}
use kernl.Schema.Types.{
  ValueType, number, string, Condition, Policy, FactSpec, WorkflowSpec, Bundle, fact_map,
}
use kernl.Schema.Acyclic.{assert_acyclic}
use kernl.Schema.Validate.{
  Check, each, has_duplicates, check_policy, check_workflow, duplicate_workflows,
  duplicate_policies, unknown_workflow, unknown_override, undeclared_field, field_type,
  cross_workflow, stop_iteration, key_error,
}

abbrev pub workflow_names : List WorkflowSpec → List String
workflow_names [] = []
workflow_names (w ∷ ws) = w.name ∷ workflow_names ws

abbrev pub policy_ids : List Policy → List String
policy_ids [] = []
policy_ids (p ∷ ps) = p.id ∷ policy_ids ps

unfoldable pub same_type : ValueType → ValueType → Bool
same_type number number = true
same_type string string = true
same_type ValueType.boolean ValueType.boolean = true
same_type _ _ = false

-- The condition's field is declared, with the condition's type.
unfoldable pub check_declared : Dict FactSpec → Condition → Check
unfolding same_type
check_declared facts c = elim (lookup c.field facts) [
  | none ↦ err undeclared_field
  | some spec ↦ raise_if (not (same_type spec.value_type c.value_type)) field_type
]

unfoldable pub check_target : List String → String → Check
check_target ids target = raise_if (not (elem target ids)) unknown_override

-- One round of the loop over `self.policies`.
unfoldable pub check_references : Bundle → Policy → Check
unfolding each check_target check_declared
check_references b p = do
  raise_if (not (elem p.workflow (workflow_names b.workflows))) unknown_workflow
  each (check_target (policy_ids b.policies)) p.overrides
  wf ← or_raise (find (λ w. w.name == p.workflow) b.workflows) stop_iteration
  each (check_declared (fact_map wf)) p.conditions

-- `{p.id: p for p in policies}`, from the left.
abbrev pub index_policies : List Policy → Dict Policy → Dict Policy
index_policies [] d = d
index_policies (p ∷ ps) d = index_policies ps (insert p.id p d)

unfoldable pub check_same_workflow : Dict Policy → Policy → String → Check
check_same_workflow by_id p target = elim (lookup target by_id) [
  | none ↦ err key_error
  | some q ↦ raise_if (not (q.workflow == p.workflow)) cross_workflow
]

-- `Bundle._integrity` after the validators of its parts.
unfoldable pub check_bundle : Runtime → Bundle → Check
unfolding each check_references check_same_workflow has_duplicates assert_acyclic
check_bundle rt b = do
  each check_workflow b.workflows
  each (check_policy rt) b.policies
  raise_if (has_duplicates (workflow_names b.workflows)) duplicate_workflows
  raise_if (has_duplicates (policy_ids b.policies)) duplicate_policies
  each (check_references b) b.policies
  let by_id = index_policies b.policies []
  each (λ p. each (check_same_workflow by_id p) p.overrides) b.policies
  assert_acyclic b.policies
