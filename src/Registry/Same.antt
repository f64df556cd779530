-- ===== src/Registry/Same.antt =====
-- The `==` of two policies, which diff.py takes from pydantic: that of all the fields that the models of
-- backend/bundle/schema.py declare, on their values the `==` of Python.
use kernl.Prelude.{
  ℕ, Bool, true, false, ◌&&◌, ◌==◌, String, Option, none, some, List, [], ◌∷◌, eqb, if◌then◌else◌,
  ◌≡◌, refl,
}
use kernl.Python.{ℤ, pos, negsuc}
use kernl.Python.Floats.{float_eq, is_integer, float_to_int}
use kernl.Schema.{
  Scalar, str, int, float, CondValue, scalar, list, OutcomeKind, approve, deny, route, escalate,
  Condition, Evidence, Effect, Authority, Policy,
}
use kernl.Schema.Integrity.{same_type}

same_int : ℤ → ℤ → Bool
same_int (pos m) (pos n) = eqb m n
same_int (negsuc m) (negsuc n) = eqb m n
same_int _ _ = false

-- A number of Python; a `bool` is the integer 0 or 1.
pub data Number : Type 0 where
  whole : ℤ → Number
  real : ℕ → Number

number_of : Scalar → Option Number
number_of (str s) = none
number_of (int n) = some (whole n)
number_of (float x) = some (real x)
number_of (Scalar.boolean true) = some (whole (pos 1))
number_of (Scalar.boolean false) = some (whole (pos 0))

-- An integer and a float are compared by their exact values.
same_number : Number → Number → Bool
unfolding same_int
same_number (whole m) (whole n) = same_int m n
same_number (real x) (real y) = float_eq x y
same_number (whole m) (real y) = is_integer y && same_int m (float_to_int y)
same_number (real x) (whole n) = is_integer x && same_int (float_to_int x) n

same_if_numbers : Option Number → Option Number → Bool
unfolding same_number
same_if_numbers (some a) (some b) = same_number a b
same_if_numbers _ _ = false

unfoldable pub same_scalar : Scalar → Scalar → Bool
unfolding number_of same_if_numbers
same_scalar (str s) (str t) = s == t
same_scalar v w = same_if_numbers (number_of v) (number_of w)

-- The `==` of two lists, item by item.
unfoldable pub same_items : {A : Type 0} → (A → A → Bool) → List A → List A → Bool
same_items f [] [] = true
same_items f (x ∷ xs) (y ∷ ys) = f x y && same_items f xs ys
same_items f _ _ = false

unfoldable pub same_value : CondValue → CondValue → Bool
unfolding same_scalar same_items
same_value (scalar v) (scalar w) = same_scalar v w
same_value (list vs) (list ws) = same_items same_scalar vs ws
same_value _ _ = false

unfoldable pub same_condition : Condition → Condition → Bool
unfolding same_value same_type
same_condition c d =
    c.field == d.field
    && c.operator == d.operator
    && same_value c.value d.value
    && same_type c.value_type d.value_type

unfoldable pub same_evidence : Evidence → Evidence → Bool
same_evidence e f =
    e.source_id == f.source_id
    && e.source_version == f.source_version
    && eqb e.span_start f.span_start
    && eqb e.span_end f.span_end
    && e.excerpt == f.excerpt

same_kind : OutcomeKind → OutcomeKind → Bool
same_kind approve approve = true
same_kind deny deny = true
same_kind route route = true
same_kind escalate escalate = true
same_kind _ _ = false

unfoldable pub same_effect : Effect → Effect → Bool
unfolding same_kind
same_effect e f = same_kind e.kind f.kind && e.action == f.action

unfoldable pub same_bool : Bool → Bool → Bool
same_bool true true = true
same_bool false false = true
same_bool _ _ = false

same_role : Option String → Option String → Bool
same_role none none = true
same_role (some r) (some s) = r == s
same_role _ _ = false

unfoldable pub same_authority : Authority → Authority → Bool
unfolding same_bool same_role
same_authority a b =
    same_bool a.approval_required b.approval_required && same_role a.approver_role b.approver_role

-- `before_map[pid] == after_map[pid]`: all ten fields.
unfoldable pub same_policy : Policy → Policy → Bool
unfolding same_effect same_items same_condition same_authority same_evidence same_bool
same_policy p q =
    p.id == q.id
    && p.workflow == q.workflow
    && same_effect p.effect q.effect
    && eqb p.priority q.priority
    && same_items same_condition p.conditions q.conditions
    && same_authority p.authority q.authority
    && same_items same_evidence p.evidence q.evidence
    && same_items ◌==◌ p.overrides q.overrides
    && same_bool p.unconditional_ack q.unconditional_ack
    && p.rationale == q.rationale

-- `getattr(before, f) == getattr(after, f)`, for the names of `_COMPARE_FIELDS`.
unfoldable pub same_field : String → Policy → Policy → Bool
unfolding same_effect same_items same_condition same_authority same_evidence same_bool
same_field f p q =
    if f == "effect"
    then same_effect p.effect q.effect
    else if f == "priority"
    then eqb p.priority q.priority
    else if f == "conditions"
    then same_items same_condition p.conditions q.conditions
    else if f == "authority"
    then same_authority p.authority q.authority
    else if f == "evidence"
    then same_items same_evidence p.evidence q.evidence
    else if f == "overrides"
    then same_items ◌==◌ p.overrides q.overrides
    else if f == "unconditional_ack"
    then same_bool p.unconditional_ack q.unconditional_ack
    else if f == "rationale"
    then p.rationale == q.rationale
    else p.workflow == q.workflow

-- 1 is True and 1.0, and is not "1".
same_one : same_scalar (int (pos 1)) (float 0x3ff0000000000000) ≡ true
unfolding same_scalar is_integer float_to_int
same_one = refl

same_true : same_scalar (Scalar.boolean true) (int (pos 1)) ≡ true
unfolding same_scalar
same_true = refl

same_text : same_scalar (str "1") (int (pos 1)) ≡ false
unfolding same_scalar
same_text = refl
