-- ===== src/Registry/Tests.antt =====
-- A draft with an acknowledged replay run, published and rolled back.
use kernl.Prelude.{
  String, some, inl, inr, ◌≢◌, ap, ◌∙◌, Bool-cases, ◌&&◌, ◌==◌, ◌≡◌, refl, ◌⊎◌, none, [], ◌∷◌,
}
use kernl.Prelude.PairDict
use kernl.Prelude.Dict
use kernl.Prelude.Sort.{sort_by}
use kernl.Prelude.Result.{ok, err}
use kernl.Evaluator.Sample.{bundle}
use kernl.Replay.Runs.{ReplayRun, RunStore, latest_acknowledged_for}
use kernl.Registry.Store.{
  draft, published, retired, BundleRecord, BundleStore, put, get_record, active, set_active,
}
use kernl.Registry.Lifecycle.{Signing, Filed, publish, activate}
use kernl.Registry.Content.{IsKeyed, Keeps, IsKeyed-put}
use kernl.Registry.Immutable.{publish-Keeps, activate-Keeps}
use kernl.Registry.Live.{OnlyLive, LeavesLive, publish-LeavesLive}
use kernl.Registry.Rollback.{activate-LeavesLive}
use kernl.Canonical.{Hashing}
use kernl.Python.{str, obj}
use kernl.Ledger.Events.{fields}
use kernl.Registry.Lifecycle.{BundleDumps, save_draft}
use kernl.Registry.Keyed.{start, saved, released, Reachable-IsKeyed}
use kernl.Registry.Gate.{IsGate, IsPublished, publish-is_gated}

abbrev nothing : BundleStore
nothing = record { rows = []; pointers = [] }

nothing-IsKeyed : IsKeyed nothing
unfolding get_record PairDict.lookup
nothing-IsKeyed c i r h = cc h

abbrev first : BundleRecord
first = record {
  record_id = "r1";
  company_id = "acme";
  content_hash = "sha256:b1";
  status = draft;
  bundle = bundle;
  created_at = "2026-01-01";
  created_by = "ann";
  published_at = none;
  published_by = none;
  replay_run_id = none;
  signature = none;
  signing_pubkey = none;
  signature_scheme = none;
}

abbrev run : ReplayRun
run = record {
  run_id = "run1";
  company_id = "acme";
  candidate_bundle_hash = "sha256:b1";
  reference_bundle_hash = none;
  case_set_hash = "sha256:c";
  created_at = "2026-01-02";
  summary = record {
    total = 0;
    golden_passed = 0;
    golden_failed = 0;
    flips = 0;
    new_escalations = 0;
    errors = 0;
  };
  results = [];
  acknowledged_by = some "ann";
  acknowledged_at = some "2026-01-02";
}

abbrev runs : RunStore
runs = ("acme", "run1", run) ∷ []

abbrev sign : Signing
sign hash = some ("signature", "key")

-- What publishing the draft gets.
answer : Filed
unfolding publish
answer = publish sign runs (put first nothing) "acme" "r1" "ann" "2026-01-03"

abbrev given : Filed → BundleRecord
given (ok r, s) = r
given (err e, s) = first

answered :
    publish sign runs (put first nothing) "acme" "r1" "ann" "2026-01-03"
    ≡ (ok (given answer), answer.1)
unfolding answer get_record PairDict.lookup put PairDict.insert active Dict.lookup
    latest_acknowledged_for sort_by set_active
answered = refl

first_is_found : get_record (put first nothing) "acme" "r1" ≡ some first
unfolding get_record put PairDict.lookup PairDict.insert
first_is_found = refl

publish-Keeps_example :
    Keeps
      (put first nothing)
      (publish sign runs (put first nothing) "acme" "r1" "ann" "2026-01-03").1
publish-Keeps_example =
    publish-Keeps sign runs (put first nothing) "acme" "r1" "ann" "2026-01-03"
      (IsKeyed-put first nothing nothing-IsKeyed)

activate-Keeps_example :
    Keeps
      (put (record first { published_at = some "2026-01-03" }) nothing)
      (activate (put (record first { published_at = some "2026-01-03" }) nothing) "acme" "r1").1
activate-Keeps_example =
    activate-Keeps (put (record first { published_at = some "2026-01-03" }) nothing) "acme" "r1"
      (IsKeyed-put (record first { published_at = some "2026-01-03" }) nothing nothing-IsKeyed)

publish-is_gated_example :
    ((active (put first nothing) "acme" ≡ some (given answer))
      × ((given answer).content_hash ≡ "sha256:b1")
      × (answer.1 ≡ put first nothing))
    ⊎ ((g : ReplayRun) × IsGate runs "acme" "sha256:b1" g
        × IsPublished first g "2026-01-03" (given answer))
publish-is_gated_example =
    publish-is_gated sign runs (put first nothing) answer.1 "acme" "r1" "ann" "2026-01-03" first
      (given answer) first_is_found answered

single-OnlyLive :
    (q : BundleRecord) (c : String) → q.status ≢ published → OnlyLive (put q nothing) c
unfolding get_record put PairDict.insert PairDict.lookup
single-OnlyLive q c off i x h st = elim (Bool-cases (q.company_id == c && q.record_id == i)) [
  | inl same ↦
      let one : q ≡ x = cc (rw same at h) in
      absurd (off (ap (λ (y : BundleRecord). y.status) one ∙ st))
  | inr other ↦ cc (rw other at h)
]

publish-LeavesLive_example :
    LeavesLive "acme" (publish sign runs (put first nothing) "acme" "r1" "ann" "2026-01-03")
publish-LeavesLive_example =
    publish-LeavesLive sign runs (put first nothing) "acme" "r1" "ann" "2026-01-03"
      (IsKeyed-put first nothing nothing-IsKeyed) (single-OnlyLive first "acme" cc) refl

-- A bundle that was live before.
abbrev former : BundleRecord
former = record first { status = retired; published_at = some "2026-01-03" }

activate-LeavesLive_example : LeavesLive "acme" (activate (put former nothing) "acme" "r1")
activate-LeavesLive_example =
    activate-LeavesLive (put former nothing) "acme" "r1"
      (IsKeyed-put former nothing nothing-IsKeyed) (single-OnlyLive former "acme" cc) refl

abbrev digest : Hashing
digest = record { dumps = λ x. "content"; sha256 = λ s. s; dump_dict = λ d. obj (fields d) }

abbrev flat : BundleDumps
flat = record { of_workflow = λ w. str w.name; of_policy = λ p. str p.id }

abbrev drafted : BundleStore
drafted = (save_draft digest flat nothing "acme" bundle "ann" "r1" "2026-01-01").1

abbrev released_draft : BundleStore
released_draft = (publish sign runs drafted "acme" "r1" "ann" "2026-01-03").1

Reachable-IsKeyed_example : IsKeyed released_draft
Reachable-IsKeyed_example = Reachable-IsKeyed digest flat sign released_draft (
    released drafted runs "acme" "r1" "ann" "2026-01-03"
      (saved nothing "acme" bundle "ann" "r1" "2026-01-01" start))
