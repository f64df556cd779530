-- ===== src/Evaluator/Tests.antt =====
-- Concrete runs of the decision function on a small refund workflow.
use kernl.Prelude.{◌≤◌, ◌≡◌, refl, subst, ◌⊎◌, none, some, List, [], ◌∷◌}
use kernl.Prelude.Lists.{In, All}
use kernl.Prelude.Sort.{distinct}
use kernl.Prelude.Result.{ok, err}
use kernl.Schema.{Policy, policies_for}
use kernl.Schema.Validate.{has_duplicates}
use kernl.Evaluator.Winner.{select_winner}
use kernl.Evaluator.Decide.{evaluate, decision}
use kernl.Evaluator.Selection.{Precedes, finalists, Concludes, select_winner-Concludes}
use kernl.Evaluator.Matching.{Matches, IsUnproven}
use kernl.Schema.Unique.{HasUniqueIds, HasUniqueIds-of_check}
use kernl.Evaluator.Citation.{
  IsUndefeated, decision_is_cited, decision-Precedes, IsUnproven-le-decision,
}
use kernl.Evaluator.Facts.{Validated, validate_facts, supplied, with_defaults, check_type}
use kernl.Schema.{workflow, fact_map, WorkflowSpec, Scalar, number, Condition}
use kernl.Schema.Integrity.{check_bundle}
use kernl.Schema.Validate
use kernl.Evaluator.Totality.{IsInRange, compare_returns}
use kernl.Evaluator.Conditions.{compare, to_float, value_to_float, number_test}
use kernl.Python.Floats.{int_to_float}
use kernl.Python.{pos}
use kernl.Evaluator.Sample.{
  plain, small, vip, large, bundle, facts, run, selected, amount_lte, amount_gt, is_flagged, rule,
}
use kernl.Prelude.Dict.{lookup, insert}
use kernl.Prelude.{Bool, true, ◌↔◌}
use kernl.Prelude.Lists.{All-In}
use kernl.Prelude.Sort.{sort_by}
use kernl.Evaluator.Answers.{AreInRange, evaluate_returns}
use kernl.Evaluator.Types.{EvaluationResult, PolicyEvaluation, matched}
use kernl.Evaluator.Conditions.{
  evaluate_policy, evaluation_from, any_fail, absent_fields, status_of,
}
use kernl.Evaluator.Results.{Holds}
use kernl.Evaluator.Strictness.{matched_iff}

evaluate_refund : evaluate plain facts bundle "refund" ≡ ok (run facts)
unfolding run
evaluate_refund = refl

run_policy : (run facts).outcome.policy_id ≡ some "vip"
unfolding run
run_policy = refl

bundle-HasUniqueIds : HasUniqueIds bundle.policies
unfolding has_duplicates distinct
bundle-HasUniqueIds = HasUniqueIds-of_check bundle.policies refl

decision_is_cited_example :
    (w : Policy) × In w (policies_for bundle "refund")
    × (w.id ≡ "vip")
    × ((run facts).outcome ≡ decision w)
    × Matches plain (run facts).trace.facts_effective w
decision_is_cited_example =
    decision_is_cited plain facts bundle "refund" (run facts) bundle-HasUniqueIds "vip"
      evaluate_refund run_policy

decision-Precedes_example :
    (w : Policy) × (w.id ≡ "vip")
    × In w (policies_for bundle "refund")
    × IsUndefeated plain (run facts).trace.facts_effective (policies_for bundle "refund") w
    × ((q : Policy)
        → In q (policies_for bundle "refund")
        → Matches plain (run facts).trace.facts_effective q
        → IsUndefeated plain (run facts).trace.facts_effective (policies_for bundle "refund") q
        → Precedes w q ⊎ (q ≡ w))
decision-Precedes_example =
    decision-Precedes plain facts bundle "refund" (run facts) bundle-HasUniqueIds "vip"
      evaluate_refund run_policy

IsUnproven-le-decision_example :
    (w : Policy) × (w.id ≡ "vip")
    × In w (policies_for bundle "refund")
    × ((q : Policy)
        → In q (policies_for bundle "refund")
        → IsUnproven plain (run facts).trace.facts_effective q
        → q.priority ≤ w.priority)
IsUnproven-le-decision_example =
    IsUnproven-le-decision plain facts bundle "refund" (run facts) bundle-HasUniqueIds "vip"
      evaluate_refund run_policy

-- The run's policies that match, in the bundle's order.
abbrev two : List Policy
two = small ∷ vip ∷ []

selected_two : select_winner two ≡ ok (selected two)
unfolding selected
selected_two = refl

selected_winner : (selected two).winner ≡ some vip
unfolding selected
selected_winner = refl

selected_tie : (selected (small ∷ large ∷ [])).winner ≡ none
unfolding selected
selected_tie = refl

selected_both : select_winner (small ∷ large ∷ []) ≡ ok (selected (small ∷ large ∷ []))
unfolding selected
selected_both = refl

select_winner-Concludes_example : Concludes (finalists two) (select_winner two)
select_winner-Concludes_example = select_winner-Concludes small (vip ∷ [])

-- The workflow's facts, checked against their declarations.
abbrev refund : WorkflowSpec
unfolding workflow
refund = elim (workflow bundle "refund") [
  | some wf ↦ wf
  | none ↦ record { name = ""; facts = []; description = "" }
]

abbrev checked : Validated
checked = record {
  effective = ("amount", Scalar.int (pos 40)) ∷ ("plan", Scalar.str "pro") ∷ [];
  ignored = "color" ∷ [];
  defaults = "plan" ∷ [];
}

facts_are_valid : validate_facts facts (fact_map refund) ≡ ok checked
unfolding validate_facts refund workflow fact_map supplied with_defaults check_type insert lookup
    sort_by
facts_are_valid = refl

refund_found : workflow bundle "refund" ≡ some refund
unfolding refund
refund_found = refl

bundle_passes : check_bundle plain bundle ≡ ok tt
unfolding check_bundle Validate.check_workflow Validate.is_snake distinct Validate.check_policy
    Validate.check_condition kernl.Python.Text.strip lookup fact_map insert
bundle_passes = refl

amount-IsInRange : IsInRange number (amount_lte 100).value (Scalar.int (pos 40))
unfolding int_to_float
amount-IsInRange = ((_, refl), (_, refl))

amount_is_accepted : Validate.check_condition (amount_lte 100) ≡ ok tt
unfolding Validate.check_condition Validate.is_snake
amount_is_accepted = refl

amount_is_number : Validate.has_type number (Scalar.int (pos 40)) ≡ true
unfolding Validate.has_type
amount_is_number = refl

compare_returns_example :
    (passed : Bool) × (compare plain (amount_lte 100) (Scalar.int (pos 40)) ≡ ok passed)
compare_returns_example =
    compare_returns plain (amount_lte 100) (Scalar.int (pos 40)) amount_is_accepted amount_is_number
      amount-IsInRange

-- The integers of a condition are in range on the fact that the request has for it.
abbrev IsInRangeHere : Condition → Type 0
IsInRangeHere c =
    (v : Scalar) → lookup c.field checked.effective ≡ some v → IsInRange c.value_type c.value v

amount_here :
    (c : Condition)
    → c.field ≡ "amount"
    → IsInRange c.value_type c.value (Scalar.int (pos 40))
    → IsInRangeHere c
unfolding lookup
amount_here c same f v found =
    let at_40 : some (Scalar.int (pos 40)) ≡ some v = rw same at found in
    subst (IsInRange c.value_type c.value) (cc at_40) f

amount-IsInRange_above : IsInRange number (amount_gt 100).value (Scalar.int (pos 40))
unfolding int_to_float
amount-IsInRange_above = ((_, refl), (_, refl))

bundle-AreInRange : All (λ p. All IsInRangeHere p.conditions) (policies_for bundle "refund")
unfolding policies_for
bundle-AreInRange = (
  (amount_here (amount_lte 100) refl amount-IsInRange, tt),
  (
    (amount_here (amount_lte 100) refl amount-IsInRange, ((λ v f. (tt, (tt, tt))), tt)),
    ((amount_here (amount_gt 100) refl amount-IsInRange_above, tt), (((λ v f. tt), tt), tt)),
  ),
)

in_range : AreInRange plain bundle bundle_passes "refund" checked.effective
in_range p c v pm cm found =
    All-In IsInRangeHere c p.conditions
      (All-In (λ q. All IsInRangeHere q.conditions) p (policies_for bundle "refund")
        bundle-AreInRange pm)
      cm v found

evaluate_returns_example : (r : EvaluationResult) × (evaluate plain facts bundle "refund" ≡ ok r)
evaluate_returns_example =
    evaluate_returns plain bundle bundle_passes facts "refund" refund checked refund_found
      facts_are_valid in_range

-- The evaluations of a policy that matches, and of one that has a failed and an absent condition.
evaluated_vip : PolicyEvaluation
unfolding evaluate_policy
evaluated_vip = elim (evaluate_policy plain checked.effective vip) [
  | ok e ↦ e
  | err _ ↦ evaluation_from vip []
]

abbrev mixed : Policy
mixed = rule "mixed" 1 (amount_gt 100 ∷ is_flagged ∷ [])

evaluated_mixed : PolicyEvaluation
unfolding evaluate_policy
evaluated_mixed = elim (evaluate_policy plain checked.effective mixed) [
  | ok e ↦ e
  | err _ ↦ evaluation_from mixed []
]

vip_evaluates : evaluate_policy plain checked.effective vip ≡ ok evaluated_vip
unfolding evaluated_vip kernl.Evaluator.Conditions.check_condition lookup compare to_float
    int_to_float value_to_float kernl.Evaluator.Conditions.iterated
    kernl.Evaluator.Conditions.norm_str
vip_evaluates = refl

mixed_evaluates : evaluate_policy plain checked.effective mixed ≡ ok evaluated_mixed
unfolding evaluated_mixed kernl.Evaluator.Conditions.check_condition lookup compare to_float
    int_to_float value_to_float
mixed_evaluates = refl

matched_iff_example :
    (evaluated_vip.status ≡ matched) ↔ All (Holds plain checked.effective) vip.conditions
matched_iff_example = matched_iff plain checked.effective vip evaluated_vip vip_evaluates
