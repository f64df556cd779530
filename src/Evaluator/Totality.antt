-- ===== src/Evaluator/Totality.antt =====
-- A condition that the schema accepts never takes `_compare` to its AssertionError, and `float` and
-- `str` never to a TypeError: on a fact of the declared type the comparison returns, unless an integer
-- is beyond the floats or has too many digits for `str`.
use kernl.Prelude.{
  ℕ, Option-cases, ◌≡◌, refl, sym, subst, inl, inr, String, Bool, true, false, not, ◌&&◌, ◌||◌,
  none, some, ◌==◌, arith, eq_iff,
}
use kernl.Prelude.Lists.{All, All-In}
use kernl.Prelude.Result.{ok, ok_or_err, traverse_returns}
use kernl.Python.Text.{Runtime, strip, int_str, is_printable, str_of_int}
use kernl.Python.Floats.{int_to_float}
use kernl.Schema.{
  Scalar, int, float, str, CondValue, scalar, list, ValueType, number, string, Condition,
}
use kernl.Schema.Validate
use kernl.Schema.Validate.{
  operator_allowed, is_list, has_type, is_number, is_string, is_boolean, is_number_type,
  all_numbers,
}
use kernl.Evaluator.Conditions.{
  to_float, value_to_float, number_test, compare_strings, compare_as, compare, iterated, norm_str,
  norm_value, scalar_str, truth, value_truth, same_truth,
}

-- A text that is `a` is not `b`.
other_text : (s a b : String) → (a == b) ≡ false → (s == a) ≡ true → (s == b) ≡ false
other_text s a b differ same = subst (λ x. (x == b) ≡ false) (sym ((eq_iff s a).0 same)) differ

abbrev is_list_operator : String → Bool
is_list_operator op = op == "in" || op == "not_in"

number_scalar : (op : String) → operator_allowed number op ≡ true → is_list_operator op ≡ false
unfolding operator_allowed
number_scalar op h = ground (
  arith,
  other_text op "gt" "in" refl,
  other_text op "gte" "in" refl,
  other_text op "lt" "in" refl,
  other_text op "lte" "in" refl,
  other_text op "eq" "in" refl,
  other_text op "neq" "in" refl,
  other_text op "gt" "not_in" refl,
  other_text op "gte" "not_in" refl,
  other_text op "lt" "not_in" refl,
  other_text op "lte" "not_in" refl,
  other_text op "eq" "not_in" refl,
  other_text op "neq" "not_in" refl,
)

number_tested :
    (op : String)
    → operator_allowed number op ≡ true
    → (t : ℕ → ℕ → Bool) × (number_test op ≡ some t)
number_tested op h = elim (Option-cases (number_test op)) [
  | inl e ↦ absurd (untested e)
  | inr t ↦ t
]
  where
    untested : number_test op ≡ none → ⊥
    untested e = unfold operator_allowed number_test in ground (arith, h, e)

-- What an accepted condition is.
pub record IsAccepted (c : Condition) : Type 0 where
  pub allowed : operator_allowed c.value_type c.operator ≡ true
  pub list_shaped : (is_list_operator c.operator && not (is_list c.value)) ≡ false
  pub scalar_shaped : (not (is_list_operator c.operator) && is_list c.value) ≡ false
  pub numeric : (is_number_type c.value_type && not (all_numbers c.value)) ≡ false

pub check_condition-IsAccepted : (c : Condition) → Validate.check_condition c ≡ ok tt → IsAccepted c
unfolding Validate.check_condition
check_condition-IsAccepted c h = ground arith

-- An integer is in the range of the floats.
abbrev pub IsFloatable : Scalar → Type 0
IsFloatable (int n) = (x : ℕ) × (int_to_float n ≡ some x)
IsFloatable _ = Unit

-- An integer has no more digits than `str` converts.
abbrev pub IsPrintable : Scalar → Type 0
IsPrintable (int n) = is_printable n ≡ true
IsPrintable _ = Unit

-- The integers that a comparison converts are in the range of the conversion: of `float` for numbers,
-- of `str` for texts.
abbrev pub IsInRange : ValueType → CondValue → Scalar → Type 0
IsInRange number (scalar v) actual = IsFloatable v × IsFloatable actual
IsInRange number (list vs) actual = Unit
IsInRange string (scalar v) actual = IsPrintable v
IsInRange string (list vs) actual = All IsPrintable vs
IsInRange ValueType.boolean value actual = Unit

module _ (rt : Runtime) where
  to_float_returns :
      (v : Scalar) → is_number v ≡ true → IsFloatable v → (x : ℕ) × (to_float rt v ≡ ok x)
  unfolding to_float is_number
  to_float_returns (int n) h (x, e) = (x, rw e)
  to_float_returns (float x) h f = (x, refl)
  to_float_returns (str s) h f = cc
  to_float_returns (Scalar.boolean b) h f = cc

  norm_str_returns : (v : Scalar) → IsPrintable v → (s : String) × (norm_str rt v ≡ ok s)
  unfolding norm_str scalar_str str_of_int
  norm_str_returns (int n) h = (rt.lower (strip rt (int_str n)), rw h)
  norm_str_returns (float x) h = (_, refl)
  norm_str_returns (str s) h = (_, refl)
  norm_str_returns (Scalar.boolean b) h = (_, refl)

  compare_string_returns :
      (op s : String) (value : CondValue) (actual : Scalar)
      → operator_allowed string op ≡ true
      → (is_list_operator op && not (is_list value)) ≡ false
      → (not (is_list_operator op) && is_list value) ≡ false
      → IsInRange string value actual
      → (passed : Bool) × (compare_strings rt op s value ≡ ok passed)
  unfolding compare_strings operator_allowed is_list norm_value
  compare_string_returns op s (scalar v) actual a l k r =
      let (t, e) = norm_str_returns v r in
      elim (ok_or_err (compare_strings rt op s (scalar v))) [
        | inl done ↦ done
        | inr (x, raised) ↦ absurd (ground (arith, e, raised, a, l))
      ]
  compare_string_returns op s (list vs) actual a l k r =
      let (ts, e) =
        traverse_returns (norm_str rt) vs
          (λ v m. norm_str_returns v (All-In IsPrintable v vs r m)) in
      elim (ok_or_err (compare_strings rt op s (list vs))) [
        | inl done ↦ done
        | inr (x, raised) ↦ absurd (
            unfold iterated in
            ground (
              arith,
              e,
              raised,
              a,
              k,
              other_text op "eq" "in" refl,
              other_text op "neq" "in" refl,
              other_text op "eq" "not_in" refl,
              other_text op "neq" "not_in" refl,
            ))
      ]

  compare_as_returns :
      (t : ValueType) (op : String) (value : CondValue) (actual : Scalar)
      → operator_allowed t op ≡ true
      → (is_list_operator op && not (is_list value)) ≡ false
      → (not (is_list_operator op) && is_list value) ≡ false
      → (is_number_type t && not (all_numbers value)) ≡ false
      → has_type t actual ≡ true
      → IsInRange t value actual
      → (passed : Bool) × (compare_as rt t op value actual ≡ ok passed)
  unfolding compare_as value_to_float
  compare_as_returns number op (list vs) actual a l k n h r =
      let plain = number_scalar op a in absurd (unfold is_list in ground (arith, plain, k))
  compare_as_returns number op (scalar v) actual a l k n h (fv, fa) =
      let (t, et) = number_tested op a in
      let (x, ex) = to_float_returns actual (unfold has_type in h) fa in
      let (y, ey) = to_float_returns v (unfold all_numbers is_number_type in ground arith) fv in
      (t x y, rw (ex, et, ey))
  compare_as_returns string op value (str s) a l k n h r =
      let (t, e) = norm_str_returns (str s) tt in
      let (b, done) = compare_string_returns op t value (str s) a l k r in (b, rw e done)
  compare_as_returns string op value (int z) a l k n h r = unfold has_type is_string in cc h
  compare_as_returns string op value (float x) a l k n h r = unfold has_type is_string in cc h
  compare_as_returns string op value (Scalar.boolean b) a l k n h r =
      unfold has_type is_string in cc h
  compare_as_returns ValueType.boolean op value actual a l k n h r =
      (same_truth (truth actual) (value_truth value), unfold operator_allowed in rw a)

-- On a condition that the schema accepts and a fact of the condition's type the comparison returns: no
-- branch falls through to the AssertionError, and no value has the wrong shape for its operator or the
-- wrong type for `float`. It takes that the integers that are compared as numbers are in the range of
-- the floats, and that those in the value of a condition on texts have at most 4300 digits.
pub compare_returns :
    (rt : Runtime) (c : Condition) (actual : Scalar)
    → Validate.check_condition c ≡ ok tt
    → has_type c.value_type actual ≡ true
    → IsInRange c.value_type c.value actual
    → (passed : Bool) × (compare rt c actual ≡ ok passed)
unfolding compare
compare_returns rt c actual h typed r =
    let fine = check_condition-IsAccepted c h in
    compare_as_returns rt c.value_type c.operator c.value actual fine.allowed fine.list_shaped
      fine.scalar_shaped fine.numeric typed r
