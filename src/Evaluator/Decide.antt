-- ===== src/Evaluator/Decide.antt =====
-- `evaluate` of backend/runtime/evaluator.py: dominance, and the outcome with its trace.
use kernl.Prelude.{String, Bool, true, false, none, some, List, [], ◌∷◌, ◌++◌, ltb, if◌then◌else◌}
use kernl.Prelude.Dict.{Dict, lookup}
use kernl.Prelude.Lists.{keep}
use kernl.Prelude.Sort.{sorted, sorted_set}
use kernl.Prelude.Result.{Result, ok, ◌>>=◌, or_raise, traverse}
use kernl.Python.{Json}
use kernl.Python.Text.{Runtime}
use kernl.Schema.{Policy, Bundle, escalate, workflow, policies_for, fact_map}
use kernl.Schema.Validate.{is_empty}
use kernl.Schema.Integrity.{index_policies}
use kernl.Evaluator.Types.{
  EvalError, unknown_workflow, key_error, EscalationReason, PolicyStatus, PolicyEvaluation, Outcome,
  PrecedenceTrace, EvaluationResult, dominance,
}
use kernl.Evaluator.Facts.{Validated, validate_facts}
use kernl.Evaluator.Conditions.{evaluate_policy}
use kernl.Evaluator.Winner.{Selection, select_winner}

unfoldable pub is_matched : PolicyStatus → Bool
is_matched PolicyStatus.matched = true
is_matched _ = false

unfoldable pub is_undeterminable : PolicyStatus → Bool
is_undeterminable PolicyStatus.undeterminable = true
is_undeterminable _ = false

-- `{f for e in evaluations for f in e.missing_fields}`, before the set is taken.
unfoldable pub all_missing : List PolicyEvaluation → List String
all_missing [] = []
all_missing (e ∷ es) = e.missing_fields ++ all_missing es

unfoldable pub evaluation_ids : List PolicyEvaluation → List String
evaluation_ids [] = []
evaluation_ids (e ∷ es) = e.policy_id ∷ evaluation_ids es

abbrev pub escalation : EscalationReason → List String → List String → Outcome
escalation reason missing conflict = record {
  kind = escalate;
  action = none;
  policy_id = none;
  approval_required = false;
  approver_role = none;
  escalation_reason = some reason;
  missing_facts = missing;
  conflict_between = conflict;
}

unfoldable pub decision : Policy → Outcome
decision p = record {
  kind = p.effect.kind;
  action = some p.effect.action;
  policy_id = some p.id;
  approval_required = p.authority.approval_required;
  approver_role = p.authority.approver_role;
  escalation_reason = none;
  missing_facts = [];
  conflict_between = [];
}

-- The undeterminable policies with a higher priority than the winner's.
unfoldable pub blockers : Policy → List PolicyEvaluation → List PolicyEvaluation
blockers winner = keep (λ e. ltb winner.priority e.priority)

-- An outcome with the precedence trace that stands beside it.
pub record Ruling : Type 0 where
  pub outcome : Outcome
  pub precedence : PrecedenceTrace

-- The branches of `evaluate` after the selection: no winner and no tie, or a winner.
unfoldable pub without_winner : Selection → List PolicyEvaluation → Ruling
unfolding all_missing is_empty
without_winner s undeterminable = record {
  outcome =
      if is_empty undeterminable
      then escalation EscalationReason.no_matching_policy [] []
      else escalation EscalationReason.missing_facts (sorted_set (all_missing undeterminable)) [];
  precedence = record {
    applied_rules = s.rules;
    winner = none;
    eliminated = s.elims;
    tie_between = [];
    dominance_blocked_by = [];
  };
}

unfoldable pub with_winner : Selection → Policy → List PolicyEvaluation → Ruling
unfolding blockers all_missing evaluation_ids is_empty decision
with_winner s winner undeterminable =
    let blocking = blockers winner undeterminable in
    if is_empty blocking
    then record {
      outcome = decision winner;
      precedence = record {
        applied_rules = s.rules;
        winner = some winner.id;
        eliminated = s.elims;
        tie_between = [];
        dominance_blocked_by = [];
      };
    }
    else record {
      outcome = escalation EscalationReason.missing_facts (sorted_set (all_missing blocking)) [];
      precedence = record {
        applied_rules = s.rules ++ dominance ∷ [];
        winner = none;
        eliminated = s.elims;
        tie_between = [];
        dominance_blocked_by = sorted (evaluation_ids blocking);
      };
    }

unfoldable pub rule_on : Selection → List PolicyEvaluation → Ruling
unfolding without_winner with_winner is_empty
rule_on s undeterminable =
    if is_empty s.tie
    then elim s.winner [
      | none ↦ without_winner s undeterminable
      | some w ↦ with_winner s w undeterminable
    ]
    else record {
      outcome = escalation EscalationReason.conflict [] s.tie;
      precedence = record {
        applied_rules = s.rules;
        winner = none;
        eliminated = s.elims;
        tie_between = s.tie;
        dominance_blocked_by = [];
      };
    }

abbrev pub matching : List PolicyEvaluation → List PolicyEvaluation
matching = keep (λ e. is_matched e.status)

abbrev pub undetermined : List PolicyEvaluation → List PolicyEvaluation
undetermined = keep (λ e. is_undeterminable e.status)

-- `by_id[e.policy_id]`
abbrev pub policy_of : List Policy → PolicyEvaluation → Result EvalError Policy
policy_of policies e = or_raise (lookup e.policy_id (index_policies policies [])) key_error

-- `_trace` on the ruling: the outcome with the whole trace.
abbrev pub traced :
    Dict Json → String → Validated → List PolicyEvaluation → Ruling → EvaluationResult
traced facts name checked evaluations ruling = record {
  outcome = ruling.outcome;
  trace = record {
    workflow = name;
    facts_supplied = facts;
    facts_effective = checked.effective;
    facts_ignored = checked.ignored;
    defaults_applied = checked.defaults;
    policies = evaluations;
    precedence = ruling.precedence;
    outcome = ruling.outcome;
  };
}

unfoldable pub evaluate : Runtime → Dict Json → Bundle → String → Result EvalError EvaluationResult
unfolding rule_on is_matched is_undeterminable
evaluate rt facts bundle name = do
  wf ← or_raise (workflow bundle name) unknown_workflow
  checked ← validate_facts facts (fact_map wf)
  let policies = policies_for bundle name
  evaluations ← traverse (evaluate_policy rt checked.effective) policies
  matched ← traverse (policy_of policies) (matching evaluations)
  selection ← select_winner matched
  ok (traced facts name checked evaluations (rule_on selection (undetermined evaluations)))
