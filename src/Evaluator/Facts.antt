-- ===== src/Evaluator/Facts.antt =====
-- `_check_type` and `_validate_facts` of backend/runtime/evaluator.py.
use kernl.Prelude.{String, none, some, List, [], ◌∷◌, ◌++◌, if◌then◌else◌}
use kernl.Prelude.Dict.{Dict, lookup, insert}
use kernl.Prelude.Sort.{sorted}
use kernl.Prelude.Result.{Result, ok, err, ◌>>=◌}
use kernl.Python.{Json}
use kernl.Python.Floats.{is_integer, float_to_int}
use kernl.Schema.{Scalar, str, int, float, ValueType, number, string, FactSpec}
use kernl.Evaluator.Types.{EvalError, invalid_fact}

-- A `bool` is no number here, though it is an `int` of Python; a float that is an integer becomes one.
unfoldable pub typed : ValueType → String → Json → Result EvalError Scalar
typed number name (Json.int n) = ok (int n)
typed number name (Json.float x) = if is_integer x then ok (int (float_to_int x)) else ok (float x)
typed number name _ = err (invalid_fact name)
typed string name (Json.str s) = ok (str s)
typed string name _ = err (invalid_fact name)
typed ValueType.boolean name (Json.boolean b) = ok (Scalar.boolean b)
typed ValueType.boolean name _ = err (invalid_fact name)

unfoldable pub check_type : String → Json → FactSpec → Result EvalError Scalar
unfolding typed
check_type name value spec = typed spec.value_type name value

-- The loop over `facts.items()`: the effective facts and the names that no spec declares.
unfoldable pub supplied :
    Dict FactSpec
    → Dict Json
    → Dict Scalar
    → List String
    → Result EvalError (Dict Scalar × List String)
supplied specs [] effective ignored = ok (effective, ignored)
supplied specs ((name, value) ∷ facts) effective ignored = elim (lookup name specs) [
  | none ↦ supplied specs facts effective (ignored ++ name ∷ [])
  | some spec ↦
      check_type name value spec >>= λ v. supplied specs facts (insert name v effective) ignored
]

-- The loop over `fact_map.items()`: the defaults of what is absent.
unfoldable pub with_defaults : Dict FactSpec → Dict Scalar → List String → Dict Scalar × List String
with_defaults [] effective defaults = (effective, defaults)
with_defaults ((name, spec) ∷ specs) effective defaults = elim (lookup name effective) [
  | some _ ↦ with_defaults specs effective defaults
  | none ↦ elim spec.default [
    | none ↦ with_defaults specs effective defaults
    | some d ↦ with_defaults specs (insert name d effective) (defaults ++ name ∷ [])
  ]
]

-- What `_validate_facts` returns.
pub record Validated : Type 0 where
  pub effective : Dict Scalar
  pub ignored : List String
  pub defaults : List String

unfoldable pub validate_facts : Dict Json → Dict FactSpec → Result EvalError Validated
unfolding supplied with_defaults
validate_facts facts specs = do
  taken ← supplied specs facts [] []
  let filled = with_defaults specs taken.0 []
  ok (record { effective = filled.0; ignored = sorted taken.1; defaults = sorted filled.1 })
