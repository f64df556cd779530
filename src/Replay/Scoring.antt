-- ===== src/Replay/Scoring.antt =====
-- How backend/replay/engine.py scores the outcome of a case: the expectations, the flips against a
-- reference, and the counters of `run`. The text of an exception that is caught is a parameter.
use kernl.Prelude.{
  ℕ, suc, String, Bool, true, false, not, ◌&&◌, ◌||◌, ◌==◌, Option, none, some, List, [], ◌∷◌, ◌++◌,
}
use kernl.Prelude.Result.{Result, ok, err}
use kernl.Canonical.{CanonicalError}
use kernl.Schema.{OutcomeKind, approve, deny, route, escalate}
use kernl.Evaluator.Types.{
  EvalError, unknown_workflow, invalid_fact, key_error, EscalationReason, missing_facts,
  no_matching_policy, conflict, Outcome,
}
use kernl.Replay.Cases.{Expected, GoldenCase}
use kernl.Replay.Runs.{CaseResult}

-- The values of `OutcomeKind` and of `EscalationReason`.
unfoldable pub kind_text : OutcomeKind → String
kind_text approve = "approve"
kind_text deny = "deny"
kind_text route = "route"
kind_text escalate = "escalate"

unfoldable pub reason_text : EscalationReason → String
reason_text missing_facts = "missing_facts"
reason_text no_matching_policy = "no_matching_policy"
reason_text conflict = "conflict"

-- The exceptions that `_outcome_of` catches, KeyError and InvalidFactsError.
unfoldable pub is_caught : EvalError → Bool
is_caught unknown_workflow = true
is_caught (invalid_fact _) = true
is_caught key_error = true
is_caught _ = false

-- `x == y` of optional texts.
unfoldable pub same_option : Option String → Option String → Bool
same_option none none = true
same_option (some a) (some b) = a == b
same_option _ _ = false

-- `expected is None or actual == expected`
unfoldable pub meets : Option String → Option String → Bool
unfolding same_option
meets none actual = true
meets (some x) actual = same_option actual (some x)

unfoldable pub reason_of : Option EscalationReason → Option String
unfolding reason_text
reason_of none = none
reason_of (some r) = some (reason_text r)

-- `golden_pass`
unfoldable pub passes_golden : Outcome → Expected → Bool
unfolding kind_text meets reason_of
passes_golden o x =
    kind_text o.kind == x.kind
    && meets x.action o.action
    && meets x.escalation_reason (reason_of o.escalation_reason)

-- `flipped`: a kind is told by its text.
unfoldable pub is_flipped : Outcome → Outcome → Bool
unfolding kind_text same_option
is_flipped c r = not (kind_text c.kind == kind_text r.kind) || not (same_option c.action r.action)

unfoldable pub is_new_escalation : Outcome → Outcome → Bool
unfolding kind_text
is_new_escalation c r = kind_text c.kind == "escalate" && not (kind_text r.kind == "escalate")

-- The counters of `run` and its results.
pub record Tally : Type 0 where
  pub golden_passed : ℕ
  pub golden_failed : ℕ
  pub flips : ℕ
  pub new_escalations : ℕ
  pub errors : ℕ
  pub results : List CaseResult

abbrev pub no_tally : Tally
no_tally = record {
  golden_passed = 0;
  golden_failed = 0;
  flips = 0;
  new_escalations = 0;
  errors = 0;
  results = [];
}

-- `n + 1 if b else n`
unfoldable pub count : Bool → ℕ → ℕ
count true n = suc n
count false n = n

unfoldable pub failed_case : GoldenCase → String → CaseResult
failed_case c text = record {
  case_id = c.case_id;
  workflow = c.workflow;
  candidate_kind = none;
  candidate_action = none;
  candidate_policy_id = none;
  expected_kind = none;
  expected_action = none;
  reference_kind = none;
  reference_action = none;
  golden_pass = none;
  flipped = none;
  error = some text;
}

unfoldable pub option_map : {A B : Type 0} → (A → B) → Option A → Option B
option_map f none = none
option_map f (some a) = some (f a)

unfoldable pub action_of : Option Outcome → Option String
action_of none = none
action_of (some o) = o.action

unfoldable pub scored_case : GoldenCase → Outcome → Option Outcome → CaseResult
unfolding passes_golden is_flipped kind_text option_map action_of
scored_case c o ref = record {
  case_id = c.case_id;
  workflow = c.workflow;
  candidate_kind = some (kind_text o.kind);
  candidate_action = o.action;
  candidate_policy_id = o.policy_id;
  expected_kind = some c.expected.kind;
  expected_action = c.expected.action;
  reference_kind = option_map (λ r. kind_text r.kind) ref;
  reference_action = action_of ref;
  golden_pass = some (passes_golden o c.expected);
  flipped = option_map (λ r. is_flipped o r) ref;
  error = none;
}

unfoldable pub flips_by : Outcome → Option Outcome → Bool
unfolding is_flipped
flips_by o none = false
flips_by o (some r) = is_flipped o r

unfoldable pub escalates_by : Outcome → Option Outcome → Bool
unfolding is_new_escalation
escalates_by o none = false
escalates_by o (some r) = is_flipped o r && is_new_escalation o r

-- A round of the loop whose candidate outcome is an error, or is scored.
unfoldable pub tally_error : Tally → GoldenCase → String → Tally
unfolding failed_case
tally_error t c text = record t {
  errors = suc t.errors;
  results = t.results ++ failed_case c text ∷ [];
}

unfoldable pub tally_outcome : Tally → GoldenCase → Outcome → Option Outcome → Tally
unfolding scored_case count flips_by escalates_by
tally_outcome t c o ref = record t {
  golden_passed = count (passes_golden o c.expected) t.golden_passed;
  golden_failed = count (not (passes_golden o c.expected)) t.golden_failed;
  flips = count (flips_by o ref) t.flips;
  new_escalations = count (escalates_by o ref) t.new_escalations;
  results = t.results ++ scored_case c o ref ∷ [];
}

-- What `run` may raise: what `_outcome_of` does not catch, and the ValueError of a hash.
pub data ReplayError : Type 0 where
  escaped : EvalError → ReplayError
  unhashable : CanonicalError → ReplayError

unfoldable pub or_unhashable : Result CanonicalError String → Result ReplayError String
or_unhashable (ok x) = ok x
or_unhashable (err e) = err (unhashable e)
