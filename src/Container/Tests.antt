-- ===== src/Container/Tests.antt =====
-- A seeding of the small refund bundle into empty stores.
use kernl.Prelude.{◌≡◌, refl, inl, none, [], ◌∷◌}
use kernl.Prelude.Dict
use kernl.Prelude.Result.{ok}
use kernl.Prelude.Sort.{sort_by, distinct}
use kernl.Python.Text.{strip, int_str}
use kernl.Python.Floats.{int_to_float, float_gt, float_ge, float_eq, is_integer}
use kernl.Canonical.{normalize, canonical_json, content_hash}
use kernl.Schema.{workflow, policies_for, fact_map}
use kernl.Evaluator.Sample.{plain, bundle}
use kernl.Evaluator.Decide.{evaluate}
use kernl.Evaluator.Conditions
use kernl.Evaluator.Conditions.{
  evaluate_policy, compare, norm_str, norm_value, to_float, value_to_float, iterated, truth,
  value_truth, same_truth, number_test, compare_strings, any_fail, absent_fields, status_of,
}
use kernl.Evaluator.Facts.{validate_facts, supplied, with_defaults, check_type}
use kernl.Evaluator.Winner.{select_winner, mark_overridden, top, conclude}
use kernl.Ledger.Sample.{digest}
use kernl.Registry.Lifecycle.{bundle_content_hash}
use kernl.Replay.Cases.{case_set_hash}
use kernl.Replay.Scoring.{tally_error, tally_outcome, passes_golden, or_unhashable}
use kernl.Replay.Engine.{replay, replay_cases, score, caught, reference_hash}
use kernl.Replay.Baseline.{IsPassed}
use kernl.Replay.Sample.{refunded, error_text, plain_dumps}
use kernl.Prelude.PairDict
use kernl.Replay.Cases.{list_cases, add_case, sorted_rows, company_cases, in_workflow}
use kernl.Replay.Engine.{filed, run}
use kernl.Replay.Runs.{acknowledge, get_run, latest_acknowledged_for, rows_of, gates, is_given}
use kernl.Registry.Store.{active, pointed, get_record, by_hash, find_hash, put, set_active}
use kernl.Registry.Lifecycle.{
  Signing, save_draft, file_draft, new_draft, publish, publish_record, publish_gated, publication,
  signed_with, retire_active, pointed_to,
}
use kernl.Container.Seed.{
  Platform, Draws, Seeded, seed_reference_bundle, seed_cases, seed_draft, seed_run, seed_publish,
  published_by_seed, seed-IsPassed,
}

abbrev unsigned : Signing
unsigned hash = none

abbrev nothing : Platform
nothing = record { cases = []; runs = []; bundles = record { rows = []; pointers = [] } }

abbrev draws : Draws
draws = record {
  draft_id = "r1";
  drafted_at = "t1";
  run_id = "run1";
  replayed_at = "t2";
  seen_at = "t3";
  published_at = "t4";
}

seeded : Seeded
unfolding replay replay_cases score tally_error tally_outcome caught or_unhashable reference_hash
    case_set_hash bundle_content_hash content_hash canonical_json normalize Dict.lookup Dict.insert
    evaluate workflow policies_for fact_map validate_facts supplied with_defaults check_type
    evaluate_policy compare norm_str norm_value to_float value_to_float iterated truth value_truth
    same_truth number_test compare_strings any_fail absent_fields status_of select_winner
    mark_overridden top conclude sort_by distinct int_to_float float_gt float_ge float_eq is_integer
    strip int_str Conditions.check_condition passes_golden seed_reference_bundle seed_cases
    seed_draft seed_run seed_publish published_by_seed list_cases add_case sorted_rows company_cases
    in_workflow filed run acknowledge get_run latest_acknowledged_for rows_of gates is_given active
    pointed get_record by_hash find_hash put set_active save_draft file_draft new_draft publish
    publish_record publish_gated publication signed_with retire_active pointed_to PairDict.lookup
    PairDict.insert
seeded =
    seed_reference_bundle plain error_text digest plain_dumps unsigned "acme" bundle (refunded ∷ [])
      draws nothing

nothing_is_live : active nothing.bundles "acme" ≡ none
unfolding active Dict.lookup
nothing_is_live = refl

seeded_returns :
    seed_reference_bundle plain error_text digest plain_dumps unsigned "acme" bundle
      (refunded ∷ [])
      draws
      nothing
    ≡ (ok tt, seeded.1)
unfolding seeded
seeded_returns = refl

refunded_is_seeded : list_cases seeded.1.cases "acme" none ≡ refunded ∷ []
unfolding seeded
refunded_is_seeded = refl

seed-IsPassed_example : IsPassed plain error_text bundle refunded
unfolding seeded
seed-IsPassed_example =
    seed-IsPassed plain error_text digest plain_dumps unsigned "acme" bundle (refunded ∷ []) draws
      nothing seeded.1 nothing_is_live seeded_returns refunded (inl refl)
