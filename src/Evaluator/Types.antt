-- ===== src/Evaluator/Types.antt =====
-- The records of backend/runtime/evaluator.py.
use kernl.Prelude.{ℕ, String, Bool, List, Option}
use kernl.Prelude.Dict.{Dict}
use kernl.Python.{Json}
use kernl.Schema.{Scalar, CondValue, OutcomeKind}

-- What `evaluate` may raise: the KeyError of an unknown workflow, InvalidFactsError with the fact's
-- name, and what Python itself raises in a step that fails.
pub data EvalError : Type 0 where
  unknown_workflow : EvalError
  invalid_fact : String → EvalError
  overflow_error assertion_error type_error value_error : EvalError
  index_error key_error stop_iteration : EvalError

pub data EscalationReason : Type 0 where
  missing_facts no_matching_policy conflict : EscalationReason

pub data PolicyStatus : Type 0 where
  matched failed undeterminable : PolicyStatus

-- The texts "pass", "fail" and "missing".
pub data CheckResult : Type 0 where
  pass fail missing : CheckResult

pub record ConditionResult : Type 0 where
  pub field : String
  pub operator : String
  pub expected : CondValue
  pub actual : Option Scalar
  pub result : CheckResult

pub record PolicyEvaluation : Type 0 where
  pub policy_id : String
  pub priority : ℕ
  pub specificity : ℕ
  pub status : PolicyStatus
  pub conditions : List ConditionResult
  pub missing_fields : List String

-- The texts in `applied_rules` and `Elimination.rule`.
pub data Rule : Type 0 where
  overrides specificity priority single_match dominance : Rule

pub record Elimination : Type 0 where
  pub policy_id : String
  pub eliminated_by : String
  pub rule : Rule

pub record PrecedenceTrace : Type 0 where
  pub applied_rules : List Rule
  pub winner : Option String
  pub eliminated : List Elimination
  pub tie_between : List String
  pub dominance_blocked_by : List String

pub record Outcome : Type 0 where
  pub kind : OutcomeKind
  pub action : Option String
  pub policy_id : Option String
  pub approval_required : Bool
  pub approver_role : Option String
  pub escalation_reason : Option EscalationReason
  pub missing_facts : List String
  pub conflict_between : List String

pub record Trace : Type 0 where
  pub workflow : String
  pub facts_supplied : Dict Json
  pub facts_effective : Dict Scalar
  pub facts_ignored : List String
  pub defaults_applied : List String
  pub policies : List PolicyEvaluation
  pub precedence : PrecedenceTrace
  pub outcome : Outcome

pub record EvaluationResult : Type 0 where
  pub outcome : Outcome
  pub trace : Trace
