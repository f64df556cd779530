-- ===== src/Replay/Tests.antt =====
-- A replay of the small refund bundle over two golden cases.
use kernl.Prelude.{◌≡◌, refl, inl, none, some, [], ◌∷◌}
use kernl.Prelude.Dict
use kernl.Prelude.Lists.{length}
use kernl.Prelude.Result.{Result, ok, err}
use kernl.Prelude.Sort.{sort_by, distinct}
use kernl.Python.Text.{strip, int_str}
use kernl.Python.Floats.{int_to_float, float_gt, float_ge, float_eq, is_integer}
use kernl.Canonical.{normalize, canonical_json, content_hash}
use kernl.Schema.{workflow, policies_for, fact_map}
use kernl.Evaluator.Sample.{plain, bundle}
use kernl.Evaluator.Decide.{evaluate}
use kernl.Evaluator.Conditions
use kernl.Evaluator.Conditions.{
  evaluate_policy, compare, norm_str, norm_value, to_float, value_to_float, iterated, truth,
  value_truth, same_truth, number_test, compare_strings, any_fail, absent_fields, status_of,
}
use kernl.Evaluator.Facts.{validate_facts, supplied, with_defaults, check_type}
use kernl.Evaluator.Winner.{select_winner, mark_overridden, top, conclude}
use kernl.Ledger.Sample.{digest}
use kernl.Registry.Lifecycle.{bundle_content_hash}
use kernl.Replay.Cases.{GoldenCase, case_set_hash}
use kernl.Replay.Runs.{ReplayRun}
use kernl.Replay.Scoring.{ReplayError, tally_error, tally_outcome, passes_golden, or_unhashable}
use kernl.Replay.Engine.{replay, replay_cases, score, caught, reference_hash}
use kernl.Replay.Recount.{IsSummary, replay-IsSummary}
use kernl.Replay.Baseline.{IsPassed, replay-IsPassed, replay_against_itself}
use kernl.Replay.Sample.{refunded, error_text, plain_dumps}

abbrev misnamed : GoldenCase
misnamed = record refunded { case_id = "c2"; workflow = "return" }

abbrev given : Result ReplayError ReplayRun → ReplayRun
given (ok r) = r
given (err e) = record {
  run_id = "";
  company_id = "";
  candidate_bundle_hash = "";
  reference_bundle_hash = none;
  case_set_hash = "";
  created_at = "";
  summary = record {
    total = 0;
    golden_passed = 0;
    golden_failed = 0;
    flips = 0;
    new_escalations = 0;
    errors = 0;
  };
  results = [];
  acknowledged_by = none;
  acknowledged_at = none;
}

-- A run of the bundle over both cases, against itself.
both : Result ReplayError ReplayRun
unfolding replay replay_cases score tally_error tally_outcome caught or_unhashable reference_hash
    case_set_hash bundle_content_hash content_hash canonical_json normalize Dict.lookup Dict.insert
    evaluate workflow policies_for fact_map validate_facts supplied with_defaults check_type
    evaluate_policy compare norm_str norm_value to_float value_to_float iterated truth value_truth
    same_truth number_test compare_strings any_fail absent_fields status_of select_winner
    mark_overridden top conclude sort_by distinct int_to_float float_gt float_ge float_eq is_integer
    strip int_str Conditions.check_condition passes_golden
both =
    replay plain error_text digest plain_dumps "acme" (refunded ∷ misnamed ∷ []) bundle
      (some bundle) "run1" "t1"

both_returns :
    replay plain error_text digest plain_dumps "acme"
      (refunded ∷ misnamed ∷ [])
      bundle
      (some bundle)
      "run1"
      "t1"
    ≡ ok (given both)
unfolding both
both_returns = refl

both_counts : (given both).summary ≡ record {
  total = 2;
  golden_passed = 1;
  golden_failed = 0;
  flips = 0;
  new_escalations = 0;
  errors = 1;
}
unfolding both
both_counts = refl

replay-IsSummary_example :
    IsSummary plain error_text digest plain_dumps (given both).summary (given both).results
    × (length (given both).results ≡ 2)
replay-IsSummary_example =
    replay-IsSummary plain error_text digest plain_dumps "acme" (refunded ∷ misnamed ∷ []) bundle
      (some bundle) "run1" "t1" (given both) both_returns

replay_against_itself_example :
    ((given both).summary.flips ≡ 0) × ((given both).summary.new_escalations ≡ 0)
replay_against_itself_example =
    replay_against_itself plain error_text digest plain_dumps "acme" (refunded ∷ misnamed ∷ [])
      bundle "run1" "t1" (given both) both_returns

-- A clean run, over the first case only.
clean : Result ReplayError ReplayRun
unfolding both
clean = replay plain error_text digest plain_dumps "acme" (refunded ∷ []) bundle none "run2" "t2"

clean_returns :
    replay plain error_text digest plain_dumps "acme" (refunded ∷ []) bundle none "run2" "t2"
    ≡ ok (given clean)
unfolding clean
clean_returns = refl

clean_failures : (given clean).summary.golden_failed ≡ 0
unfolding clean
clean_failures = refl

clean_errors : (given clean).summary.errors ≡ 0
unfolding clean
clean_errors = refl

replay-IsPassed_example : IsPassed plain error_text bundle refunded
replay-IsPassed_example =
    replay-IsPassed plain error_text digest plain_dumps "acme" (refunded ∷ []) bundle none "run2"
      "t2" (given clean) clean_returns clean_failures clean_errors refunded (inl refl)
