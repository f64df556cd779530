-- ===== src/Replay/Sample.antt =====
-- A golden case of the small refund workflow, and what a replay of it takes.
use kernl.Prelude.{String, true, some, none}
use kernl.Python.{str}
use kernl.Evaluator.Sample.{facts}
use kernl.Evaluator.Types.{EvalError}
use kernl.Registry.Lifecycle.{BundleDumps}
use kernl.Replay.Cases.{GoldenCase}

abbrev pub refunded : GoldenCase
refunded = record {
  case_id = "c1";
  company_id = "acme";
  workflow = "refund";
  facts = facts;
  expected = record { kind = "approve"; action = some "refund_full"; escalation_reason = none };
  provenance = "sop";
  synthetic = true;
  notes = "";
}

abbrev pub error_text : EvalError → String
error_text e = "KeyError"

abbrev pub plain_dumps : BundleDumps
plain_dumps = record { of_workflow = λ w. str w.name; of_policy = λ p. str p.id }
