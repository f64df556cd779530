-- ===== src/Evaluator/Run.antt =====
-- A run of `evaluate` that returns, taken apart into what its steps returned.
use kernl.Prelude.{◌≡◌, sym, ap, String, Option, none, some, List}
use kernl.Prelude.Dict.{Dict}
use kernl.Prelude.Result.{ok, or_raise, traverse, bind-eq-ok, ok-injective}
use kernl.Python.{Json}
use kernl.Python.Text.{Runtime}
use kernl.Schema.{Policy, WorkflowSpec, Bundle, workflow, policies_for, fact_map}
use kernl.Evaluator.Types.{EvalError, unknown_workflow, PolicyEvaluation, EvaluationResult}
use kernl.Evaluator.Facts.{Validated, validate_facts}
use kernl.Evaluator.Conditions.{evaluate_policy}
use kernl.Evaluator.Winner.{Selection, select_winner}
use kernl.Evaluator.Decide.{rule_on, matching, undetermined, policy_of, evaluate}

module _ (rt : Runtime) (facts : Dict Json) (b : Bundle) (name : String) where
  -- What the steps of a run returned, in order.
  pub record Run (r : EvaluationResult) : Type 0 where
    pub wf : WorkflowSpec
    pub found : workflow b name ≡ some wf
    pub checked : Validated
    pub validated : validate_facts facts (fact_map wf) ≡ ok checked
    pub evaluations : List PolicyEvaluation
    pub evaluated :
        traverse (evaluate_policy rt checked.effective) (policies_for b name) ≡ ok evaluations
    pub matched : List Policy
    pub collected : traverse (policy_of (policies_for b name)) (matching evaluations) ≡ ok matched
    pub selection : Selection
    pub selected : select_winner matched ≡ ok selection
    pub ruled : r.outcome ≡ (rule_on selection (undetermined evaluations)).outcome
    pub traced : r.trace.facts_effective ≡ checked.effective

  or_raise-ok :
      {A : Type 0} (o : Option A) (e : EvalError) (a : A) → or_raise o e ≡ ok a → o ≡ some a
  or_raise-ok none e a h = cc
  or_raise-ok (some x) e a h = cc

  pub evaluate-Run : (r : EvaluationResult) → evaluate rt facts b name ≡ ok r → Run r
  unfolding evaluate
  evaluate-Run r h =
      let (wf, e1, h1) = bind-eq-ok (or_raise (workflow b name) unknown_workflow) _ h in
      let (checked, e2, h2) = bind-eq-ok (validate_facts facts (fact_map wf)) _ h1 in
      let (evaluations, e3, h3) =
        bind-eq-ok (traverse (evaluate_policy rt checked.effective) (policies_for b name)) _ h2 in
      let (matched, e4, h4) =
        bind-eq-ok (traverse (policy_of (policies_for b name)) (matching evaluations)) _ h3 in
      let (selection, e5, h5) = bind-eq-ok (select_winner matched) _ h4 in
      record {
        wf = wf;
        found = or_raise-ok (workflow b name) unknown_workflow wf e1;
        checked = checked;
        validated = e2;
        evaluations = evaluations;
        evaluated = e3;
        matched = matched;
        collected = e4;
        selection = selection;
        selected = e5;
        ruled = ap (λ (x : EvaluationResult). x.outcome) (sym (ok-injective h5));
        traced = ap (λ (x : EvaluationResult). x.trace.facts_effective) (sym (ok-injective h5));
      }
