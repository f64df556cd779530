-- ===== src/Replay/Engine.antt =====
-- `ReplayEngine.run` of backend/replay/engine.py: a candidate bundle decides the golden cases, and a
-- reference bundle decides them beside it. `uuid4` and the clock are arguments.
use kernl.Prelude.{String, Option, none, some, List, [], ◌∷◌, if◌then◌else◌}
use kernl.Prelude.Lists.{length}
use kernl.Prelude.Result.{Result, ok, err, ◌>>=◌}
use kernl.Python.Text.{Runtime}
use kernl.Canonical.{Hashing}
use kernl.Schema.{Bundle}
use kernl.Evaluator.Types.{EvalError, Outcome, EvaluationResult}
use kernl.Evaluator.Decide.{evaluate}
use kernl.Registry.Lifecycle.{BundleDumps, bundle_content_hash}
use kernl.Replay.Cases.{GoldenCase, case_set_hash}
use kernl.Replay.Runs.{ReplaySummary, ReplayRun, RunStore, put_run}
use kernl.Replay.Scoring.{
  is_caught, Tally, no_tally, tally_error, tally_outcome, ReplayError, or_unhashable, escaped,
}

module _ (rt : Runtime) (error_text : EvalError → String) where
  unfoldable pub caught :
      Result EvalError EvaluationResult → Result ReplayError (Result String Outcome)
  unfolding is_caught
  caught (ok r) = ok (ok r.outcome)
  caught (err e) = if is_caught e then ok (err (error_text e)) else err (escaped e)

  -- `_outcome_of`
  unfoldable pub outcome_of : Bundle → GoldenCase → Result ReplayError (Result String Outcome)
  unfolding caught
  outcome_of b c = caught (evaluate rt c.facts b c.workflow)

  unfoldable pub as_reference : Result String Outcome → Option Outcome
  as_reference (ok o) = some o
  as_reference (err _) = none

  unfoldable pub reference_outcome :
      Option Bundle → GoldenCase → Result ReplayError (Option Outcome)
  unfolding outcome_of as_reference
  reference_outcome none c = ok none
  reference_outcome (some b) c = outcome_of b c >>= λ r. ok (as_reference r)

  -- The end of a round, from what the candidate made of the case.
  unfoldable pub score :
      Option Bundle → Tally → GoldenCase → Result String Outcome → Result ReplayError Tally
  unfolding reference_outcome tally_error tally_outcome
  score reference t c (err text) = ok (tally_error t c text)
  score reference t c (ok o) = reference_outcome reference c >>= λ ref. ok (tally_outcome t c o ref)

  -- One round of the loop.
  unfoldable pub replay_case :
      Bundle → Option Bundle → Tally → GoldenCase → Result ReplayError Tally
  unfolding score outcome_of
  replay_case candidate reference t c = outcome_of candidate c >>= λ r. score reference t c r

  unfoldable pub replay_cases :
      Bundle → Option Bundle → List GoldenCase → Tally → Result ReplayError Tally
  unfolding replay_case
  replay_cases candidate reference [] t = ok t
  replay_cases candidate reference (c ∷ cs) t =
      replay_case candidate reference t c >>= λ u. replay_cases candidate reference cs u

  module _ (h : Hashing) (dumps : BundleDumps) where
    unfoldable pub reference_hash : Option Bundle → Result ReplayError (Option String)
    unfolding or_unhashable
    reference_hash none = ok none
    reference_hash (some b) = or_unhashable (bundle_content_hash h dumps b) >>= λ x. ok (some x)

    unfoldable pub summary_of : List GoldenCase → Tally → ReplaySummary
    summary_of cs t = record {
      total = length cs;
      golden_passed = t.golden_passed;
      golden_failed = t.golden_failed;
      flips = t.flips;
      new_escalations = t.new_escalations;
      errors = t.errors;
    }

    -- The run, before it is added to the store.
    unfoldable pub replay :
        String
        → List GoldenCase
        → Bundle
        → Option Bundle
        → String
        → String
        → Result ReplayError ReplayRun
    unfolding replay_cases reference_hash summary_of or_unhashable
    replay company cs candidate reference id now = do
      t ← replay_cases candidate reference cs no_tally
      hash ← or_unhashable (bundle_content_hash h dumps candidate)
      other ← reference_hash reference
      set ← or_unhashable (case_set_hash h cs)
      ok (record {
        run_id = id;
        company_id = company;
        candidate_bundle_hash = hash;
        reference_bundle_hash = other;
        case_set_hash = set;
        created_at = now;
        summary = summary_of cs t;
        results = t.results;
        acknowledged_by = none;
        acknowledged_at = none;
      })

    unfoldable pub filed :
        Result ReplayError ReplayRun → RunStore → Result ReplayError ReplayRun × RunStore
    filed (err e) s = (err e, s)
    filed (ok r) s = (ok r, put_run r s)

    -- `run`
    unfoldable pub run :
        String
        → List GoldenCase
        → Bundle
        → Option Bundle
        → String
        → String
        → RunStore
        → Result ReplayError ReplayRun × RunStore
    unfolding replay filed
    run company cs candidate reference id now s =
        filed (replay company cs candidate reference id now) s
