-- ===== src/Container/Seed.antt =====
-- A reference bundle is published only if it decides the golden cases as they expect.
use kernl.Prelude.{
  ◌≡◌, refl, sym, ap, subst, ◌∙◌, ℕ, String, true, ◌&&◌, eqb, Option, none, some, List, [], ◌∷◌,
  if◌then◌else◌, inl, inr, Bool-cases, arith,
}
use kernl.Prelude.Lists.{In}
use kernl.Prelude.Result.{Result, ok, err}
use kernl.Python.Text.{Runtime}
use kernl.Canonical.{Hashing}
use kernl.Schema.{Bundle}
use kernl.Evaluator.Types.{EvalError}
use kernl.Replay.Cases.{GoldenCase, CaseStore, add_case, list_cases}
use kernl.Replay.Runs.{ReplayRun, RunStore, acknowledge}
use kernl.Replay.Scoring.{ReplayError}
use kernl.Replay.Engine.{replay, filed, run}
use kernl.Replay.Baseline.{IsPassed, replay-IsPassed}
use kernl.Registry.Store.{BundleRecord, BundleStore, active}
use kernl.Registry.Lifecycle.{Signing, BundleDumps, LifecycleError, save_draft, publish}

-- The stores that the seeding writes to.
pub record Platform : Type 0 where
  pub cases : CaseStore
  pub runs : RunStore
  pub bundles : BundleStore

-- What the seeding may raise: what the lifecycle and the replay raise, the RuntimeError of a bundle that
-- fails its own cases, with the counts, and the KeyError of a run that is not stored.
pub data SeedError : Type 0 where
  lifecycle : LifecycleError → SeedError
  replaying : ReplayError → SeedError
  fails_golden : ℕ → ℕ → SeedError
  unknown_run : SeedError

-- The ids and the times that the services draw.
pub record Draws : Type 0 where
  pub draft_id : String
  pub drafted_at : String
  pub run_id : String
  pub replayed_at : String
  pub seen_at : String
  pub published_at : String

abbrev pub Seeded : Type 0
Seeded = Result SeedError Unit × Platform

-- `try: self.cases.add(case) except ValueError: pass`, for each case.
unfoldable pub seed_cases : List GoldenCase → CaseStore → CaseStore
seed_cases [] s = s
seed_cases (c ∷ cs) s = seed_cases cs (add_case c s).1

unfoldable pub published_by_seed :
    Result LifecycleError BundleRecord × BundleStore → Platform → Seeded
published_by_seed (err e, s) p = (err (lifecycle e), record p { bundles = s })
published_by_seed (ok _, s) p = (ok tt, record p { bundles = s })

module _ (rt : Runtime) (error_text : EvalError → String) (h : Hashing) (dumps : BundleDumps)
    (sign : Signing) where
  -- From the acknowledgement on.
  unfoldable pub seed_publish :
      String → BundleRecord → Draws → Option ReplayRun × RunStore → Platform → Seeded
  unfolding published_by_seed
  seed_publish company r x (none, runs) p = (err unknown_run, record p { runs = runs })
  seed_publish company r x (some _, runs) p =
      published_by_seed (publish sign runs p.bundles company r.record_id "seed" x.published_at)
        (record p { runs = runs })

  -- From the run on.
  unfoldable pub seed_run :
      String → BundleRecord → Draws → Result ReplayError ReplayRun × RunStore → Platform → Seeded
  unfolding seed_publish
  seed_run company r x (err e, runs) p = (err (replaying e), record p { runs = runs })
  seed_run company r x (ok g, runs) p =
      if eqb g.summary.golden_failed 0 && eqb g.summary.errors 0
      then seed_publish company r x (acknowledge runs company g.run_id "seed" x.seen_at) p
      else (err (fails_golden g.summary.golden_failed g.summary.errors), record p { runs = runs })

  -- From the draft on.
  unfoldable pub seed_draft :
      String → Bundle → Draws → Result LifecycleError BundleRecord × BundleStore → Platform → Seeded
  unfolding seed_run
  seed_draft company b x (err e, s) p = (err (lifecycle e), record p { bundles = s })
  seed_draft company b x (ok r, s) p =
      seed_run company r x
        (run rt error_text h dumps company (list_cases p.cases company none) b none x.run_id
          x.replayed_at p.runs)
        (record p { bundles = s })

  -- `_seed_reference_bundle`
  unfoldable pub seed_reference_bundle :
      String → Bundle → List GoldenCase → Draws → Platform → Seeded
  unfolding seed_cases seed_draft
  seed_reference_bundle company b golden x p =
      let q = record p { cases = seed_cases golden p.cases } in
      elim (active p.bundles company) [
        | some _ ↦ (ok tt, q)
        | none ↦
            seed_draft company b x
              (save_draft h dumps p.bundles company b "seed" x.draft_id x.drafted_at) q
      ]

  -- The cases are never touched after they are seeded.
  seed_publish-cases :
      (company : String) (r : BundleRecord) (x : Draws) (a : Option ReplayRun × RunStore)
      (p : Platform)
      → (seed_publish company r x a p).1.cases ≡ p.cases
  unfolding seed_publish published_by_seed
  seed_publish-cases company r x (none, runs) p = refl
  seed_publish-cases company r x (some _, runs) p =
      by_result (publish sign runs p.bundles company r.record_id "seed" x.published_at)
    where
      by_result :
          (y : Result LifecycleError BundleRecord × BundleStore)
          → (published_by_seed y (record p { runs = runs })).1.cases ≡ p.cases
      by_result (ok _, s) = refl
      by_result (err e, s) = refl

  filed-ok :
      (m : Result ReplayError ReplayRun) (s : RunStore) (g : ReplayRun)
      → (filed rt error_text h dumps m s).0 ≡ ok g
      → m ≡ ok g
  unfolding filed
  filed-ok (ok r) s g e = e
  filed-ok (err x) s g e = cc e

  both_zero : (a b : ℕ) → eqb a 0 && eqb b 0 ≡ true → (a ≡ 0) × (b ≡ 0)
  both_zero a b e = (ground arith, ground arith)

  -- A seeding that returns has had a clean run.
  seed_run_clean :
      (company : String) (r : BundleRecord) (x : Draws)
      (a : Result ReplayError ReplayRun × RunStore) (p p' : Platform)
      → seed_run company r x a p ≡ (ok tt, p')
      → (g : ReplayRun) × (a.0 ≡ ok g)
        × (g.summary.golden_failed ≡ 0)
        × (g.summary.errors ≡ 0)
        × (p'.cases ≡ p.cases)
  unfolding seed_run
  seed_run_clean company r x (err e, runs) p p' w = cc (ap (λ (y : Seeded). y.0) w)
  seed_run_clean company r x (ok g, runs) p p' w =
      elim (Bool-cases (eqb g.summary.golden_failed 0 && eqb g.summary.errors 0)) [
        | inr bad ↦ cc (ap (λ (y : Seeded). y.0) (rw (bad, seed_run) at w))
        | inl clean ↦
            let (failures, errors) = both_zero g.summary.golden_failed g.summary.errors clean in
            let seen = acknowledge runs company g.run_id "seed" x.seen_at in
            (
              g,
              refl,
              failures,
              errors,
              sym (ap (λ (y : Seeded). y.1.cases) (rw (clean, seed_run) at w))
                  ∙ seed_publish-cases company r x seen p,
            )
      ]

  -- Where the seeding of a company without a live bundle returns, the bundle returns a decision for
  -- every golden case of the company, those that were there before included, and each decision is the
  -- one that its case expects.
  pub seed-IsPassed :
      (company : String) (b : Bundle) (golden : List GoldenCase) (x : Draws) (p p' : Platform)
      → active p.bundles company ≡ none
      → seed_reference_bundle company b golden x p ≡ (ok tt, p')
      → (c : GoldenCase) → In c (list_cases p'.cases company none)
      → IsPassed rt error_text b c
  unfolding seed_reference_bundle seed_draft run
  seed-IsPassed company b golden x p p' unseeded done c m =
      by_draft (save_draft h dumps p.bundles company b "seed" x.draft_id x.drafted_at)
        (rw (unseeded, seed_reference_bundle) at done)
    where
      q : Platform
      q = record p { cases = seed_cases golden p.cases }

      by_draft :
          (d : Result LifecycleError BundleRecord × BundleStore)
          → seed_draft company b x d q ≡ (ok tt, p')
          → IsPassed rt error_text b c
      by_draft (err e, s) w = cc (ap (λ (y : Seeded). y.0) w)
      by_draft (ok r, s) w =
          let cs = list_cases q.cases company none in
          let (g, ran, failures, errors, kept) =
            seed_run_clean company r x
              (run rt error_text h dumps company cs b none x.run_id x.replayed_at p.runs)
              (record q { bundles = s }) p' w in
          replay-IsPassed rt error_text h dumps company cs b none x.run_id x.replayed_at g
            (filed-ok (replay rt error_text h dumps company cs b none x.run_id x.replayed_at) p.runs
              g ran)
            failures errors c (subst (λ z. In c (list_cases z company none)) kept m)
