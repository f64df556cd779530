-- ===== src/Onboarding/Assembly.antt =====
-- The assembly of a bundle from the accepted drafts, `assemble_bundle` and `_infer_workflows` of
-- backend/onboarding/service.py.
use kernl.Prelude.{String, Option, none, some, List, [], ◌∷◌, if◌then◌else◌}
use kernl.Prelude.Dict.{Dict, lookup, insert}
use kernl.Prelude.Sort.{sort_by, str_leb}
use kernl.Prelude.Result.{Result, ok, err, ◌>>=◌}
use kernl.Python.Text.{Runtime}
use kernl.Schema.{ValueType, Condition, Policy, FactSpec, WorkflowSpec, Bundle}
use kernl.Schema.Validate.{SchemaError, is_empty, each, check_workflow}
use kernl.Schema.Integrity.{same_type, check_bundle}
use kernl.Onboarding.Drafts.{OnboardingDraft, Validation, candidate_of, DraftStore, list_drafts}

-- The AssembleErrors: no accepted draft, a draft that is no policy, a fact of two types, a bundle that
-- fails its checks; and the ValueError of a workflow that fails its own.
pub data AssembleError : Type 0 where
  no_accepted type_conflict : AssembleError
  not_a_policy : String → List String → AssembleError
  bad_workflow bad_bundle : SchemaError → AssembleError

-- `facts_by_wf`
abbrev pub FieldTypes : Type 0
FieldTypes = Dict ValueType

-- The loop over a policy's conditions.
unfoldable pub declare_fields : List Condition → FieldTypes → Result AssembleError FieldTypes
unfolding same_type
declare_fields [] d = ok d
declare_fields (c ∷ cs) d = elim (lookup c.field d) [
  | none ↦ declare_fields cs (insert c.field c.value_type d)
  | some prior ↦
      let rest = declare_fields cs (insert c.field c.value_type d) in
      if same_type prior c.value_type then rest else err type_conflict
]

-- `facts_by_wf.setdefault(p.workflow, {})`
unfoldable pub fields_of : Option FieldTypes → FieldTypes
fields_of none = []
fields_of (some d) = d

unfoldable pub declare_policies :
    List Policy → Dict FieldTypes → Result AssembleError (Dict FieldTypes)
unfolding declare_fields fields_of
declare_policies [] d = ok d
declare_policies (p ∷ ps) d =
    declare_fields p.conditions (fields_of (lookup p.workflow d)) >>= λ fs.
    declare_policies ps (insert p.workflow fs d)

unfoldable pub fact_spec : String × ValueType → FactSpec
fact_spec (name, t) = record { name = name; value_type = t; description = ""; default = none }

unfoldable pub fact_specs : FieldTypes → List FactSpec
unfolding fact_spec
fact_specs [] = []
fact_specs (x ∷ d) = fact_spec x ∷ fact_specs d

-- `sorted(d.items())`: the keys differ, so that no value is compared.
unfoldable pub sorted_items : {A : Type 0} → Dict A → Dict A
sorted_items = sort_by (λ x y. str_leb x.0 y.0)

unfoldable pub workflow_specs : Dict FieldTypes → List WorkflowSpec
unfolding fact_specs sorted_items
workflow_specs [] = []
workflow_specs ((name, fs) ∷ d) =
    record { name = name; facts = fact_specs (sorted_items fs); description = "" }
    ∷ workflow_specs d

unfoldable pub or_bad :
    {A : Type 0}
    → (SchemaError → AssembleError)
    → A
    → Result SchemaError Unit
    → Result AssembleError A
or_bad wrap a (ok _) = ok a
or_bad wrap a (err e) = err (wrap e)

-- `_infer_workflows`
unfoldable pub infer_workflows : List Policy → Result AssembleError (List WorkflowSpec)
unfolding declare_policies workflow_specs or_bad
infer_workflows ps = declare_policies ps [] >>= λ d.
    let ws = workflow_specs (sorted_items d) in or_bad bad_workflow ws (each check_workflow ws)

unfoldable pub or_no_policy : String → Result (List String) Policy → Result AssembleError Policy
or_no_policy id (ok p) = ok p
or_no_policy id (err texts) = err (not_a_policy id texts)

-- The loop over the accepted drafts.
unfoldable pub policies_of : Validation → List OnboardingDraft → Result AssembleError (List Policy)
unfolding or_no_policy candidate_of
policies_of validate [] = ok []
policies_of validate (d ∷ ds) =
    or_no_policy d.draft_id (validate (candidate_of d.proposed_json d.evidence_json)) >>= λ p.
    policies_of validate ds >>= λ ps. ok (p ∷ ps)

-- `Bundle(...)`
unfoldable pub assembled :
    Runtime → String → List WorkflowSpec → List Policy → Result AssembleError Bundle
unfolding or_bad
assembled rt company ws ps =
    let b : Bundle = record {
      schema_version = "1";
      company_id = company;
      workflows = ws;
      policies = ps;
    } in
    or_bad bad_bundle b (check_bundle rt b)

unfoldable pub assemble_bundle :
    Runtime → Validation → DraftStore → String → Result AssembleError Bundle
unfolding policies_of infer_workflows assembled is_empty
assemble_bundle rt validate s company =
    let accepted = list_drafts s company (some "accepted") in
    if is_empty accepted
    then err no_accepted
    else (policies_of validate accepted >>= λ ps.
        infer_workflows ps >>= λ ws. assembled rt company ws ps)
