-- ===== src/Replay/Baseline.antt =====
-- What a replay run says of its candidate: a clean run has decided every case as it is expected, and a
-- bundle that is replayed against itself flips nothing.
use kernl.Prelude.{
  ◌≡◌, refl, sym, ap, ◌∙◌, ℕ, suc, String, true, false, Option, none, some, List, [], ◌∷◌, arith,
  Bool-cases, inl, inr, eq_refl,
}
use kernl.Prelude.Lists.{In, All, All-In}
use kernl.Prelude.Result.{Result, ok, err, bind-eq-ok, ok-injective}
use kernl.Python.Text.{Runtime}
use kernl.Canonical.{Hashing}
use kernl.Schema.{Bundle}
use kernl.Evaluator.Types.{EvalError, Outcome, EvaluationResult}
use kernl.Evaluator.Decide.{evaluate}
use kernl.Registry.Lifecycle.{BundleDumps, bundle_content_hash}
use kernl.Replay.Cases.{GoldenCase, case_set_hash}
use kernl.Replay.Runs.{ReplayRun}
use kernl.Replay.Scoring.{
  Tally, no_tally, count, tally_error, tally_outcome, flips_by, is_flipped, passes_golden,
  same_option, kind_text, is_caught, or_unhashable,
}
use kernl.Replay.Engine.{
  caught, outcome_of, reference_outcome, score, replay_case, replay_cases, replay, summary_of,
  reference_hash, as_reference,
}
use kernl.Replay.Recount.{replay-IsSummary}

suc_nonzero : (n : ℕ) → suc n ≡ 0 → ⊥
suc_nonzero n z = omega (arith, z)

same_option_refl : (x : Option String) → same_option x x ≡ true
unfolding same_option
same_option_refl none = refl
same_option_refl (some x) = eq_refl x

is_flipped_refl : (o : Outcome) → is_flipped o o ≡ false
unfolding is_flipped
is_flipped_refl o = rw (eq_refl (kind_text o.kind), same_option_refl o.action) refl

module _ (rt : Runtime) (error_text : EvalError → String) where
  -- The candidate decides the case as it expects.
  abbrev pub IsPassed : Bundle → GoldenCase → Type 0
  IsPassed b c =
      (x : EvaluationResult) × (evaluate rt c.facts b c.workflow ≡ ok x)
      × (passes_golden x.outcome c.expected ≡ true)

  caught-ok :
      (r : Result EvalError EvaluationResult) (o : Outcome)
      → caught rt error_text r ≡ ok (ok o)
      → (x : EvaluationResult) × (r ≡ ok x) × (x.outcome ≡ o)
  unfolding caught
  caught-ok (ok x) o h = (x, refl, ok-injective (ok-injective h))
  caught-ok (err e) o h = elim (Bool-cases (is_caught e)) [
    | inl k ↦ cc (ok-injective (rw k at h))
    | inr k ↦ cc (rw k at h)
  ]

  -- A round after which there is no failure and no error.
  score_clean :
      (reference : Option Bundle) (t u : Tally) (c : GoldenCase) (r : Result String Outcome)
      → score rt error_text reference t c r ≡ ok u
      → u.golden_failed ≡ 0
      → u.errors ≡ 0
      → (o : Outcome) × (r ≡ ok o)
        × (passes_golden o c.expected ≡ true)
        × (t.golden_failed ≡ 0)
        × (t.errors ≡ 0)
  unfolding score tally_error tally_outcome count
  score_clean reference t u c (err text) h f e =
      absurd (suc_nonzero t.errors (ap (λ (x : Tally). x.errors) (ok-injective h) ∙ e))
  score_clean reference t u c (ok o) h f e =
      let (ref, _, done) = bind-eq-ok (reference_outcome rt error_text reference c) _ h in
      let failures = ap (λ (x : Tally). x.golden_failed) (ok-injective done) ∙ f in
      let none_before = ap (λ (x : Tally). x.errors) (ok-injective done) ∙ e in
      elim (Bool-cases (passes_golden o c.expected)) [
        | inl pass ↦ (o, refl, pass, rw pass at failures, none_before)
        | inr missed ↦ absurd (suc_nonzero t.golden_failed (rw missed at failures))
      ]

  replay_cases_clean :
      (candidate : Bundle) (reference : Option Bundle) (cs : List GoldenCase) (t u : Tally)
      → replay_cases rt error_text candidate reference cs t ≡ ok u
      → u.golden_failed ≡ 0
      → u.errors ≡ 0
      → All (IsPassed candidate) cs × (t.golden_failed ≡ 0) × (t.errors ≡ 0)
  unfolding replay_cases replay_case outcome_of
  replay_cases_clean candidate reference [] t u h f e =
      (tt, ap (λ x. x.golden_failed) (ok-injective h) ∙ f, ap (λ x. x.errors) (ok-injective h) ∙ e)
  replay_cases_clean candidate reference (c ∷ cs) t u h f e =
      let (v, first, rest) = bind-eq-ok (replay_case rt error_text candidate reference t c) _ h in
      let (r, made, scored) = bind-eq-ok (outcome_of rt error_text candidate c) _ first in
      let (all, vf, ve) = replay_cases_clean candidate reference cs v u rest f e in
      let (o, same, passed, tf, te) = score_clean reference t v c r scored vf ve in
      let (x, decided, out) =
        caught-ok (evaluate rt c.facts candidate c.workflow) o (made ∙ ap ok same) in
      (((x, decided, ap (λ y. passes_golden y c.expected) out ∙ passed), all), tf, te)

  -- A candidate that is its own reference flips no case.
  self_replay :
      (b : Bundle) (cs : List GoldenCase) (t u : Tally)
      → replay_cases rt error_text b (some b) cs t ≡ ok u
      → t.flips ≡ 0
      → u.flips ≡ 0
  unfolding replay_cases replay_case score reference_outcome tally_error tally_outcome as_reference
      flips_by count
  self_replay b [] t u h z = ap (λ x. x.flips) (sym (ok-injective h)) ∙ z
  self_replay b (c ∷ cs) t u h z =
      let (v, first, rest) = bind-eq-ok (replay_case rt error_text b (some b) t c) _ h in
      let (r, made, scored) = bind-eq-ok (outcome_of rt error_text b c) _ first in
      self_replay b cs v u rest (by_outcome r made scored)
    where
      by_outcome :
          (r : Result String Outcome) {v : Tally}
          → outcome_of rt error_text b c ≡ ok r
          → score rt error_text (some b) t c r ≡ ok v
          → v.flips ≡ 0
      by_outcome (err text) made scored = ap (λ x. x.flips) (sym (ok-injective scored)) ∙ z
      by_outcome (ok o) made scored =
          let same = ok-injective (rw (made, reference_outcome) at scored) in
          let counted : count (is_flipped o o) t.flips ≡ 0 = rw (is_flipped_refl o) z in
          ap (λ (x : Tally). x.flips) (sym same) ∙ counted

  module _ (h : Hashing) (dumps : BundleDumps) where
    -- What a run that is returned was made of.
    replay-tally :
        (company : String) (cs : List GoldenCase) (candidate : Bundle) (reference : Option Bundle)
        (id now : String) (r : ReplayRun)
        → replay rt error_text h dumps company cs candidate reference id now ≡ ok r
        → (t : Tally) × (replay_cases rt error_text candidate reference cs no_tally ≡ ok t)
          × (r.summary ≡ summary_of rt error_text h dumps cs t)
    unfolding replay
    replay-tally company cs candidate reference id now r made =
        let (t, tallied, rest) =
          bind-eq-ok (replay_cases rt error_text candidate reference cs no_tally) _ made in
        let (_, _, rest2) =
          bind-eq-ok (or_unhashable (bundle_content_hash h dumps candidate)) _ rest in
        let (_, _, rest3) = bind-eq-ok (reference_hash rt error_text h dumps reference) _ rest2 in
        let (_, _, done) = bind-eq-ok (or_unhashable (case_set_hash h cs)) _ rest3 in
        (t, tallied, ap (λ (x : ReplayRun). x.summary) (sym (ok-injective done)))

    -- A run without failures and without errors is the promise that its name makes: the candidate
    -- returns a decision for every golden case, and the decision is the one that the case expects.
    pub replay-IsPassed :
        (company : String) (cs : List GoldenCase) (candidate : Bundle) (reference : Option Bundle)
        (id now : String) (r : ReplayRun)
        → replay rt error_text h dumps company cs candidate reference id now ≡ ok r
        → r.summary.golden_failed ≡ 0
        → r.summary.errors ≡ 0
        → (c : GoldenCase) → In c cs
        → IsPassed candidate c
    unfolding summary_of
    replay-IsPassed company cs candidate reference id now r made failures errors c m =
        let (t, tallied, summed) = replay-tally company cs candidate reference id now r made in
        let (all, _, _) =
          replay_cases_clean candidate reference cs no_tally t tallied
            (sym (ap (λ s. s.golden_failed) summed) ∙ failures)
            (sym (ap (λ s. s.errors) summed) ∙ errors) in
        All-In (IsPassed candidate) c cs all m

    -- A bundle that is replayed against itself flips no case and makes no new escalation.
    pub replay_against_itself :
        (company : String) (cs : List GoldenCase) (b : Bundle) (id now : String) (r : ReplayRun)
        → replay rt error_text h dumps company cs b (some b) id now ≡ ok r
        → (r.summary.flips ≡ 0) × (r.summary.new_escalations ≡ 0)
    unfolding summary_of
    replay_against_itself company cs b id now r made =
        let (t, tallied, summed) = replay-tally company cs b (some b) id now r made in
        let flips = ap (λ s. s.flips) summed ∙ self_replay b cs no_tally t tallied refl in
        let ((_, _, _, _, _, _, less), _) =
          replay-IsSummary rt error_text h dumps company cs b (some b) id now r made in
        (flips, omega (arith, flips, less))
