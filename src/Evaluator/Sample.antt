-- ===== src/Evaluator/Sample.antt =====
-- A small refund workflow, and runs of the decision function on it.
use Prim.Native.Char.{code}
use kernl.Prelude.{ℕ, String, true, false, ◌||◌, Option, none, some, List, [], ◌∷◌, eqb}
use kernl.Prelude.Dict.{Dict, lookup, insert}
use kernl.Prelude.Sort.{sort_by, distinct}
use kernl.Prelude.Result.{Result, ok, err}
use kernl.Python.{Json, pos}
use kernl.Python.Text.{Runtime, strip, int_str}
use kernl.Python.Floats.{int_to_float, float_gt, float_ge, float_eq, is_integer}
use kernl.Schema.{
  Scalar, ValueType, number, string, scalar, list, Condition, Evidence, Policy, FactSpec, Bundle,
  approve, deny, route, workflow, policies_for, fact_map,
}
use kernl.Evaluator.Types.{EvalError, EvaluationResult}
use kernl.Evaluator.Conditions
use kernl.Evaluator.Conditions.{
  evaluate_policy, compare, norm_str, norm_value, to_float, value_to_float, iterated, truth,
  value_truth, same_truth, number_test, compare_strings, any_fail, absent_fields, status_of,
}
use kernl.Evaluator.Facts.{validate_facts, supplied, with_defaults, check_type}
use kernl.Evaluator.Winner.{
  Selection, select_winner, mark_overridden, top, conclude, at_top, narrow, unopposed,
  apply_overrides,
}
use kernl.Evaluator.Decide.{evaluate}

-- Texts of the tests are in lower case, and their numbers are integers.
abbrev pub plain : Runtime
plain = record {
  float_str = λ x. "";
  parse_float = λ s. none;
  str_repr = λ s. s;
  lower = λ s. s;
  is_space = λ c. eqb (code c) 32 || eqb (code c) 10;
}

abbrev pub sop : Evidence
sop = record {
  source_id = "refund_sop.md";
  source_version = "v1";
  span_start = 0;
  span_end = 12;
  excerpt = "refund small";
}

abbrev pub rule : String → ℕ → List Condition → Policy
rule id priority conditions = record {
  id = id;
  workflow = "refund";
  effect = record { kind = approve; action = "refund_full" };
  priority = priority;
  conditions = conditions;
  authority = record { approval_required = false; approver_role = none };
  evidence = sop ∷ [];
  overrides = [];
  unconditional_ack = false;
  rationale = "";
}

abbrev pub amount_lte : ℕ → Condition
amount_lte n = record {
  field = "amount";
  operator = "lte";
  value = scalar (Scalar.int (pos n));
  value_type = number;
}

abbrev pub amount_gt : ℕ → Condition
amount_gt n = record {
  field = "amount";
  operator = "gt";
  value = scalar (Scalar.int (pos n));
  value_type = number;
}

abbrev pub plan_in : List Scalar → Condition
plan_in vs = record { field = "plan"; operator = "in"; value = list vs; value_type = string }

abbrev pub is_flagged : Condition
is_flagged = record {
  field = "flagged";
  operator = "eq";
  value = scalar (Scalar.boolean true);
  value_type = ValueType.boolean;
}

abbrev pub small : Policy
small = rule "small" 10 (amount_lte 100 ∷ [])

abbrev pub vip : Policy
vip = rule "vip" 10 (amount_lte 100 ∷ plan_in (Scalar.str "pro" ∷ Scalar.str "max" ∷ []) ∷ [])

abbrev pub large : Policy
large = record (rule "large" 10 (amount_gt 100 ∷ [])) {
  effect = record { kind = route; action = "ask_lead" };
}

abbrev pub fraud : Policy
fraud = record (rule "fraud" 5 (is_flagged ∷ [])) {
  effect = record { kind = deny; action = "refuse" };
  overrides = "small" ∷ [];
}

abbrev pub fact : String → ValueType → Option Scalar → FactSpec
fact name t d = record { name = name; value_type = t; description = ""; default = d }

abbrev pub bundle : Bundle
bundle = record {
  schema_version = "1";
  company_id = "acme";
  workflows =
      record {
        name = "refund";
        facts =
            fact "amount" number none
            ∷ fact "plan" string (some (Scalar.str "pro"))
            ∷ fact "flagged" ValueType.boolean none
            ∷ [];
        description = "";
      }
      ∷ [];
  policies = small ∷ vip ∷ large ∷ fraud ∷ [];
}

abbrev pub facts : Dict Json
facts = ("amount", Json.int (pos 40)) ∷ ("color", Json.null) ∷ []

abbrev pub blank : EvaluationResult
blank = record {
  outcome = record {
    kind = approve;
    action = none;
    policy_id = none;
    approval_required = false;
    approver_role = none;
    escalation_reason = none;
    missing_facts = [];
    conflict_between = [];
  };
  trace = record {
    workflow = "";
    facts_supplied = [];
    facts_effective = [];
    facts_ignored = [];
    defaults_applied = [];
    policies = [];
    precedence = record {
      applied_rules = [];
      winner = none;
      eliminated = [];
      tie_between = [];
      dominance_blocked_by = [];
    };
    outcome = record {
      kind = approve;
      action = none;
      policy_id = none;
      approval_required = false;
      approver_role = none;
      escalation_reason = none;
      missing_facts = [];
      conflict_between = [];
    };
  };
}

abbrev pub returned : Result EvalError EvaluationResult → EvaluationResult
returned (ok r) = r
returned (err e) = blank

abbrev pub chosen : Result EvalError Selection → Selection
chosen (ok s) = s
chosen (err e) = record { winner = none; tie = []; rules = []; elims = [] }

-- A run on these facts; to unfold it is to unfold all that it calls.
unfoldable pub run : Dict Json → EvaluationResult
unfolding evaluate workflow policies_for fact_map lookup insert validate_facts supplied
    with_defaults check_type evaluate_policy Conditions.check_condition compare norm_str norm_value
    to_float value_to_float iterated truth value_truth same_truth number_test compare_strings
    any_fail absent_fields status_of select_winner mark_overridden top conclude sort_by distinct
    int_to_float float_gt float_ge float_eq is_integer strip int_str
run given = returned (evaluate plain given bundle "refund")

-- What `_select_winner` returns; to unfold it is to unfold all that it calls.
unfoldable pub selected : List Policy → Selection
unfolding select_winner mark_overridden top conclude sort_by distinct lookup insert at_top narrow
    unopposed apply_overrides
selected ms = chosen (select_winner ms)
