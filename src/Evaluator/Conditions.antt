-- ===== src/Evaluator/Conditions.antt =====
-- `_norm_str`, `_compare` and `_evaluate_policy` of backend/runtime/evaluator.py.
use kernl.Prelude.{
  ℕ, zero, String, Bool, true, false, not, ◌||◌, Option, none, some, List, [], ◌∷◌, ◌==◌,
  if◌then◌else◌,
}
use kernl.Prelude.Dict.{Dict, lookup}
use kernl.Prelude.Lists.{elem}
use kernl.Prelude.Sort.{sorted_set}
use kernl.Prelude.Result.{Result, ok, err, ◌>>=◌, or_raise, traverse}
use Prim.Native.String.{◌++◌ as str_append}
use kernl.Python.{pos}
use kernl.Schema.Validate.{is_empty}
use kernl.Python.Floats.{int_to_float, float_truth, float_gt, float_ge, float_eq}
use kernl.Python.Text.{Runtime, strip, str_of_int, bool_str}
use kernl.Schema.{
  Scalar, str, int, float, CondValue, scalar, list, ValueType, number, string, Condition, Policy,
  specificity,
}
use kernl.Evaluator.Types.{
  EvalError, overflow_error, assertion_error, type_error, value_error, PolicyStatus, matched,
  failed, undeterminable, CheckResult, pass, fail, missing, ConditionResult, PolicyEvaluation,
}

module _ (rt : Runtime) where
  -- `float(v)`
  unfoldable pub to_float : Scalar → Result EvalError ℕ
  to_float (int n) = or_raise (int_to_float n) overflow_error
  to_float (float x) = ok x
  to_float (Scalar.boolean b) = ok (if b then 0x3ff0000000000000 else 0)
  to_float (str s) = or_raise (rt.parse_float s) value_error

  unfoldable pub value_to_float : CondValue → Result EvalError ℕ
  unfolding to_float
  value_to_float (scalar v) = to_float v
  value_to_float (list vs) = err type_error

  -- `str(v)`
  unfoldable pub scalar_str : Scalar → Result EvalError String
  unfolding str_of_int
  scalar_str (str s) = ok s
  scalar_str (int n) = or_raise (str_of_int n) value_error
  scalar_str (float x) = ok (rt.float_str x)
  scalar_str (Scalar.boolean b) = ok (bool_str b)

  unfoldable pub norm_str : Scalar → Result EvalError String
  unfolding scalar_str
  norm_str v = scalar_str v >>= λ s. ok (rt.lower (strip rt s))

  -- `repr(v)`, and the items of a list's `str`
  scalar_repr : Scalar → Result EvalError String
  unfolding scalar_str
  scalar_repr (str s) = ok (rt.str_repr s)
  scalar_repr v = scalar_str v

  joined : List Scalar → Result EvalError String
  unfolding scalar_repr
  joined [] = ok ""
  joined (v ∷ []) = scalar_repr v
  joined (v ∷ w ∷ vs) =
      scalar_repr v >>= λ s. joined (w ∷ vs) >>= λ t. ok (str_append s (str_append ", " t))

  -- `_norm_str(cond.value)`
  unfoldable pub norm_value : CondValue → Result EvalError String
  unfolding norm_str joined
  norm_value (scalar v) = norm_str v
  norm_value (list vs) =
      joined vs >>= λ s. ok (rt.lower (strip rt (str_append "[" (str_append s "]"))))

-- The characters of a text, as Python iterates over it.
characters : String → List Scalar
characters String.[] = []
characters (String.◌∷◌ c s) = str (String.◌∷◌ c String.[]) ∷ characters s

-- `for v in cond.value`
unfoldable pub iterated : CondValue → Result EvalError (List Scalar)
unfolding characters
iterated (list vs) = ok vs
iterated (scalar (str s)) = ok (characters s)
iterated (scalar _) = err type_error

-- `bool(v)`
unfoldable pub truth : Scalar → Bool
truth (Scalar.boolean b) = b
truth (str s) = not (s == "")
truth (int (pos zero)) = false
truth (int _) = true
truth (float x) = float_truth x

unfoldable pub value_truth : CondValue → Bool
unfolding truth
value_truth (scalar v) = truth v
value_truth (list []) = false
value_truth (list (_ ∷ _)) = true

unfoldable pub same_truth : Bool → Bool → Bool
same_truth true b = b
same_truth false b = not b

-- What `op` says of two floats; `none` where no branch tests for it.
unfoldable pub number_test : String → Option (ℕ → ℕ → Bool)
number_test op =
    if op == "gt"
    then some float_gt
    else if op == "gte"
    then some float_ge
    else if op == "lt"
    then some (λ a e. float_gt e a)
    else if op == "lte"
    then some (λ a e. float_ge e a)
    else if op == "eq"
    then some float_eq
    else if op == "neq"
    then some (λ a e. not (float_eq a e))
    else none

module _ (rt : Runtime) where
  unfoldable pub compare_strings : String → String → CondValue → Result EvalError Bool
  compare_strings op a value =
      if op == "eq"
      then (norm_value rt value >>= λ e. ok (a == e))
      else if op == "neq"
      then (norm_value rt value >>= λ e. ok (not (a == e)))
      else if op == "in"
      then (iterated value >>= λ vs. traverse (norm_str rt) vs >>= λ es. ok (elem a es))
      else if op == "not_in"
      then (iterated value >>= λ vs. traverse (norm_str rt) vs >>= λ es. ok (not (elem a es)))
      else err assertion_error

  -- The three branches on `cond.value_type`.
  unfoldable pub compare_as : ValueType → String → CondValue → Scalar → Result EvalError Bool
  unfolding number_test compare_strings
  compare_as number op value actual = do
    a ← to_float rt actual
    test ← or_raise (number_test op) assertion_error
    e ← value_to_float rt value
    ok (test a e)
  compare_as string op value actual = norm_str rt actual >>= λ a. compare_strings op a value
  compare_as ValueType.boolean op value actual =
      if op == "eq" then ok (same_truth (truth actual) (value_truth value)) else err assertion_error

  unfoldable pub compare : Condition → Scalar → Result EvalError Bool
  unfolding compare_as
  compare cond actual = compare_as cond.value_type cond.operator cond.value actual

  -- One round of the loop over `policy.conditions`.
  unfoldable pub check_condition : Dict Scalar → Condition → Result EvalError ConditionResult
  check_condition facts cond = elim (lookup cond.field facts) [
    | none ↦ ok (record {
      field = cond.field;
      operator = cond.operator;
      expected = cond.value;
      actual = none;
      result = missing;
    })
    | some actual ↦ compare cond actual >>= λ passed. ok (record {
      field = cond.field;
      operator = cond.operator;
      expected = cond.value;
      actual = some actual;
      result = if passed then pass else fail;
    })
  ]

unfoldable pub is_fail : CheckResult → Bool
is_fail fail = true
is_fail _ = false

unfoldable pub is_missing : CheckResult → Bool
is_missing missing = true
is_missing _ = false

-- `any_fail`, and the list `missing`.
unfoldable pub any_fail : List ConditionResult → Bool
unfolding is_fail
any_fail [] = false
any_fail (r ∷ rs) = is_fail r.result || any_fail rs

unfoldable pub absent_fields : List ConditionResult → List String
unfolding is_missing
absent_fields [] = []
absent_fields (r ∷ rs) =
    let rest = absent_fields rs in if is_missing r.result then r.field ∷ rest else rest

unfoldable pub status_of : List ConditionResult → PolicyStatus
unfolding any_fail absent_fields is_empty
status_of rs =
    if any_fail rs then failed else if is_empty (absent_fields rs) then matched else undeterminable

-- The evaluation that stands on the results of the conditions.
abbrev pub evaluation_from : Policy → List ConditionResult → PolicyEvaluation
evaluation_from policy results = record {
  policy_id = policy.id;
  priority = policy.priority;
  specificity = specificity policy;
  status = status_of results;
  conditions = results;
  missing_fields = sorted_set (absent_fields results);
}

module _ (rt : Runtime) where
  unfoldable pub evaluate_policy : Dict Scalar → Policy → Result EvalError PolicyEvaluation
  evaluate_policy facts policy = do
    results ← traverse (check_condition rt facts) policy.conditions
    ok (evaluation_from policy results)
