-- ===== src/Schema/Validate.antt =====
-- The validators of backend/bundle/schema.py, record by record. Each returns the first error of the
-- source's checks; pydantic refuses the value if there is one.
use Prim.Native.Char.{Char, code}
use kernl.Prelude.{
  String, Bool, true, false, not, ◌&&◌, ◌||◌, Option, none, some, List, [], ◌∷◌, leb, ltb, eqb,
  ◌==◌, if◌then◌else◌,
}
use kernl.Prelude.Lists.{all, length, elem}
use kernl.Prelude.Sort.{distinct}
use kernl.Prelude.Result.{Result, ok, ◌>>◌, raise_if}
use kernl.Python.Text.{Runtime, strip}
use kernl.Schema.Types.{
  Scalar, str, int, float, ValueType, number, string, CondValue, scalar, list, Condition, Evidence,
  Effect, Authority, Policy, FactSpec, WorkflowSpec,
}

pub data SchemaError : Type 0 where
  not_snake operator_not_allowed list_required scalar_required non_numeric : SchemaError
  span_order empty_excerpt missing_role : SchemaError
  priority_range no_evidence no_ack self_override : SchemaError
  default_type duplicate_facts : SchemaError
  duplicate_workflows duplicate_policies unknown_workflow unknown_override : SchemaError
  undeclared_field field_type cross_workflow stop_iteration key_error : SchemaError
  override_cycle out_of_fuel : SchemaError

abbrev pub Check : Type 0
Check = Result SchemaError Unit

-- A check of each item of a list, in order.
unfoldable pub each : {A : Type 0} → (A → Check) → List A → Check
each f [] = ok tt
each f (x ∷ xs) = f x >> each f xs

is_lower : Char → Bool
is_lower c = leb b'a' (code c) && leb (code c) b'z'

is_word : Char → Bool
unfolding is_lower
is_word c = is_lower c || (leb b'0' (code c) && leb (code c) b'9') || eqb (code c) b'_'

-- `[a-z0-9_]*$`: the `$` of `re` matches at the end, and before a line feed at the end.
word_tail : String → Bool
unfolding is_word
word_tail String.[] = true
word_tail (String.◌∷◌ c s) = (is_word c && word_tail s) || (eqb (code c) 10 && s == "")

-- `SNAKE_CASE.match(v)`
unfoldable pub is_snake : String → Bool
unfolding is_lower word_tail
is_snake String.[] = false
is_snake (String.◌∷◌ c s) = is_lower c && word_tail s

-- `v.replace(".", "_")`
underscored : String → String
underscored String.[] = ""
underscored (String.◌∷◌ c s) =
    String.◌∷◌ (if eqb (code c) b'.' then underscore else c) (underscored s)
  where
    underscore : Char
    underscore = "_"

-- VALID_OPERATORS
unfoldable pub operator_allowed : ValueType → String → Bool
operator_allowed number op =
    op == "gt" || op == "gte" || op == "lt" || op == "lte" || op == "eq" || op == "neq"
operator_allowed string op = op == "eq" || op == "neq" || op == "in" || op == "not_in"
operator_allowed ValueType.boolean op = op == "eq"

unfoldable pub is_list : CondValue → Bool
is_list (scalar _) = false
is_list (list _) = true

unfoldable pub is_number : Scalar → Bool
is_number (int _) = true
is_number (float _) = true
is_number _ = false

unfoldable pub is_string : Scalar → Bool
is_string (str _) = true
is_string _ = false

unfoldable pub is_boolean : Scalar → Bool
is_boolean (Scalar.boolean _) = true
is_boolean _ = false

unfoldable pub all_numbers : CondValue → Bool
unfolding is_number
all_numbers (scalar v) = is_number v
all_numbers (list vs) = all is_number vs

unfoldable pub is_number_type : ValueType → Bool
is_number_type number = true
is_number_type _ = false

-- `Condition._field_snake` and `Condition._operator_valid`
unfoldable pub check_condition : Condition → Check
unfolding operator_allowed is_list all_numbers is_number_type
check_condition c = do
  raise_if (not (is_snake c.field)) not_snake
  raise_if (not (operator_allowed c.value_type c.operator)) operator_not_allowed
  let list_op = c.operator == "in" || c.operator == "not_in"
  raise_if (list_op && not (is_list c.value)) list_required
  raise_if (not list_op && is_list c.value) scalar_required
  raise_if (is_number_type c.value_type && not (all_numbers c.value)) non_numeric

-- `Evidence._span_ordered`
unfoldable pub check_evidence : Runtime → Evidence → Check
check_evidence rt e = do
  raise_if (ltb e.span_end e.span_start) span_order
  raise_if (strip rt e.excerpt == "") empty_excerpt

-- `Effect._action_snake`
unfoldable pub check_effect : Effect → Check
check_effect e = raise_if (not (is_snake e.action)) not_snake

-- `not self.approver_role`
unfoldable pub is_absent : Option String → Bool
is_absent none = true
is_absent (some s) = s == ""

-- `Authority._role_iff_required`
unfoldable pub check_authority : Authority → Check
unfolding is_absent
check_authority a = raise_if (a.approval_required && is_absent a.approver_role) missing_role

unfoldable pub is_empty {ℓ} : {A : Type ℓ} → List A → Bool
is_empty [] = true
is_empty (_ ∷ _) = false

-- `Policy._ids_snake`, the bound on `priority`, and `Policy._publishable_shape`
unfoldable pub check_policy : Runtime → Policy → Check
unfolding is_empty each check_evidence check_effect check_authority underscored
check_policy rt p = do
  each check_condition p.conditions
  each (check_evidence rt) p.evidence
  check_effect p.effect
  check_authority p.authority
  raise_if (not (is_snake (underscored p.id))) not_snake
  raise_if (not (is_snake (underscored p.workflow))) not_snake
  raise_if (not (leb p.priority 1000)) priority_range
  raise_if (is_empty p.evidence) no_evidence
  raise_if (is_empty p.conditions && not p.unconditional_ack) no_ack
  raise_if (elem p.id p.overrides) self_override

unfoldable pub has_type : ValueType → Scalar → Bool
unfolding is_number is_string is_boolean
has_type number v = is_number v
has_type string v = is_string v
has_type ValueType.boolean v = is_boolean v

unfoldable pub default_has_type : ValueType → Option Scalar → Bool
unfolding has_type
default_has_type t none = true
default_has_type t (some v) = has_type t v

-- `FactSpec._name_snake` and `FactSpec._default_typed`
unfoldable pub check_fact : FactSpec → Check
unfolding default_has_type
check_fact f = do
  raise_if (not (is_snake f.name)) not_snake
  raise_if (not (default_has_type f.value_type f.default)) default_type

-- `len(xs) != len(set(xs))`
unfoldable pub has_duplicates : List String → Bool
has_duplicates xs = not (eqb (length xs) (length (distinct xs)))

abbrev pub fact_names : List FactSpec → List String
fact_names [] = []
fact_names (f ∷ fs) = f.name ∷ fact_names fs

-- `WorkflowSpec._unique_facts`
unfoldable pub check_workflow : WorkflowSpec → Check
unfolding each check_fact has_duplicates
check_workflow w = do
  each check_fact w.facts
  raise_if (has_duplicates (fact_names w.facts)) duplicate_facts
