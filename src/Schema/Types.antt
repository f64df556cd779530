-- ===== src/Schema/Types.antt =====
-- The records of backend/bundle/schema.py and the lookups of a bundle. A `Field(ge=0)` is a ℕ.
use kernl.Prelude.{ℕ, String, Bool, List, Option, [], ◌∷◌, ◌==◌}
use kernl.Prelude.Dict.{Dict, insert}
use kernl.Prelude.Lists.{keep, find, length}
use kernl.Python.{ℤ}

pub data Scalar : Type 0 where
  str : String → Scalar
  int : ℤ → Scalar
  float : ℕ → Scalar
  boolean : Bool → Scalar

pub data ValueType : Type 0 where
  number string boolean : ValueType

pub data OutcomeKind : Type 0 where
  approve deny route escalate : OutcomeKind

-- `Union[Scalar, list[Scalar]]`
pub data CondValue : Type 0 where
  scalar : Scalar → CondValue
  list : List Scalar → CondValue

pub record Condition : Type 0 where
  pub field : String
  pub operator : String
  pub value : CondValue
  pub value_type : ValueType

pub record Evidence : Type 0 where
  pub source_id : String
  pub source_version : String
  pub span_start : ℕ
  pub span_end : ℕ
  pub excerpt : String

pub record Effect : Type 0 where
  pub kind : OutcomeKind
  pub action : String

pub record Authority : Type 0 where
  pub approval_required : Bool
  pub approver_role : Option String

pub record Policy : Type 0 where
  pub id : String
  pub workflow : String
  pub effect : Effect
  pub priority : ℕ
  pub conditions : List Condition
  pub authority : Authority
  pub evidence : List Evidence
  pub overrides : List String
  pub unconditional_ack : Bool
  pub rationale : String

abbrev pub specificity : Policy → ℕ
specificity p = length p.conditions

pub record FactSpec : Type 0 where
  pub name : String
  pub value_type : ValueType
  pub description : String
  pub default : Option Scalar

pub record WorkflowSpec : Type 0 where
  pub name : String
  pub facts : List FactSpec
  pub description : String

-- The comprehension `{f.name: f for f in self.facts}`, from the left.
abbrev pub index_facts : List FactSpec → Dict FactSpec → Dict FactSpec
index_facts [] d = d
index_facts (f ∷ fs) d = index_facts fs (insert f.name f d)

unfoldable pub fact_map : WorkflowSpec → Dict FactSpec
fact_map w = index_facts w.facts []

pub record Bundle : Type 0 where
  pub schema_version : String
  pub company_id : String
  pub workflows : List WorkflowSpec
  pub policies : List Policy

-- `Bundle.workflow`; `none` is its KeyError.
unfoldable pub workflow : Bundle → String → Option WorkflowSpec
workflow b name = find (λ w. w.name == name) b.workflows

unfoldable pub policies_for : Bundle → String → List Policy
policies_for b name = keep (λ p. p.workflow == name) b.policies
