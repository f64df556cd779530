-- ===== src/Replay/Recount.antt =====
-- The summary of a replay run counts its results.
use kernl.Prelude.{
  ◌≡◌, refl, sym, ap, subst, ◌≤◌, ℕ, suc, ◌+◌, String, Bool, true, false, not, Option, none, some,
  List, [], ◌∷◌, ◌++◌, arith, Bool-cases, inl, inr,
}
use kernl.Prelude.Lists.{length, keep}
use kernl.Prelude.Result.{Result, ok, err, bind-eq-ok, ok-injective}
use kernl.Python.Text.{Runtime}
use kernl.Canonical.{Hashing}
use kernl.Schema.{Bundle}
use kernl.Evaluator.Types.{EvalError, Outcome}
use kernl.Registry.Lifecycle.{BundleDumps, bundle_content_hash}
use kernl.Replay.Cases.{GoldenCase, case_set_hash}
use kernl.Replay.Runs.{CaseResult, ReplaySummary, ReplayRun}
use kernl.Replay.Scoring.{
  Tally, no_tally, count, failed_case, option_map, scored_case, flips_by, escalates_by, tally_error,
  tally_outcome, or_unhashable, is_flipped, is_new_escalation, passes_golden,
}
use kernl.Replay.Engine.{
  outcome_of, reference_outcome, score, replay_case, replay_cases, summary_of, replay,
  reference_hash,
}

-- `r.golden_pass is True`, and so on for the other fields of a result.
abbrev pub is_true : Option Bool → Bool
is_true none = false
is_true (some b) = b

abbrev pub is_false : Option Bool → Bool
is_false none = false
is_false (some b) = not b

abbrev pub is_failed : Option String → Bool
is_failed none = false
is_failed (some x) = true

abbrev pub recount : (CaseResult → Bool) → List CaseResult → ℕ
recount p rs = length (keep p rs)

recount-append :
    (p : CaseResult → Bool) (rs : List CaseResult) (r : CaseResult)
    → recount p (rs ++ r ∷ []) ≡ count (p r) (recount p rs)
unfolding count
recount-append p [] r = elim (Bool-cases (p r)) [ inl e ↦ rw e | inr e ↦ rw e ]
recount-append p (x ∷ rs) r =
    let rest = recount-append p rs r in
    elim (Bool-cases (p x)) [
      | inr e ↦ rw e rest
      | inl e ↦ elim (Bool-cases (p r)) [
        | inl q ↦ rw (e, q) (ap suc (rw q at rest))
        | inr q ↦ rw (e, q) (ap suc (rw q at rest))
      ]
    ]

length-snoc : (rs : List CaseResult) (r : CaseResult) → length (rs ++ r ∷ []) ≡ suc (length rs)
length-snoc [] r = refl
length-snoc (x ∷ rs) r = ap suc (length-snoc rs r)

-- A counter and the recount of its results after one result more.
counted :
    (p : CaseResult → Bool) (n : ℕ) (rs : List CaseResult) (r : CaseResult) (b : Bool)
    → n ≡ recount p rs
    → b ≡ p r
    → count b n ≡ recount p (rs ++ r ∷ [])
counted p n rs r b e same = rw (e, same) (sym (recount-append p rs r))

flips_by-eq :
    (o : Outcome) (ref : Option Outcome) → flips_by o ref ≡ is_true (option_map (is_flipped o) ref)
unfolding flips_by option_map
flips_by-eq o none = refl
flips_by-eq o (some r) = refl

-- Each scored case counts once.
scored_once : (b : Bool) (p q : ℕ) → count b p + count (not b) q ≡ suc (p + q)
unfolding count
scored_once true p q = omega arith
scored_once false p q = omega arith

count-le :
    (o : Outcome) (ref : Option Outcome) (n f : ℕ)
    → n ≤ f
    → count (escalates_by o ref) n ≤ count (flips_by o ref) f
unfolding count escalates_by flips_by
count-le o none n f h = h
count-le o (some r) n f h = elim (Bool-cases (is_flipped o r)) [
  | inr same ↦ rw same h
  | inl flipped ↦ elim (Bool-cases (is_new_escalation o r)) [
    | inl new ↦ rw (flipped, new) (omega arith)
    | inr old ↦ rw (flipped, old) (omega arith)
  ]
]

-- The counters are those of the results so far.
abbrev pub IsRecount : Tally → Type 0
IsRecount t =
    (t.golden_passed ≡ recount (λ r. is_true r.golden_pass) t.results)
    × (t.golden_failed ≡ recount (λ r. is_false r.golden_pass) t.results)
    × (t.flips ≡ recount (λ r. is_true r.flipped) t.results)
    × (t.errors ≡ recount (λ r. is_failed r.error) t.results)
    × (t.golden_passed + t.golden_failed + t.errors ≡ length t.results)
    × (t.new_escalations ≤ t.flips)

tally_error-IsRecount :
    (t : Tally) (c : GoldenCase) (text : String) → IsRecount t → IsRecount (tally_error t c text)
unfolding tally_error failed_case count
tally_error-IsRecount t c text (a, b, f, e, all, less) =
    let r = failed_case c text in
    (
      counted (λ r. is_true r.golden_pass) t.golden_passed t.results r false a refl,
      counted (λ r. is_false r.golden_pass) t.golden_failed t.results r false b refl,
      counted (λ r. is_true r.flipped) t.flips t.results r false f refl,
      counted (λ r. is_failed r.error) t.errors t.results r true e refl,
      omega (arith, all, length-snoc t.results r),
      less,
    )

tally_outcome-IsRecount :
    (t : Tally) (c : GoldenCase) (o : Outcome) (ref : Option Outcome)
    → IsRecount t
    → IsRecount (tally_outcome t c o ref)
unfolding tally_outcome scored_case count
tally_outcome-IsRecount t c o ref (a, b, f, e, all, less) =
    let r = scored_case c o ref in
    let pass = passes_golden o c.expected in
    (
      counted (λ r. is_true r.golden_pass) t.golden_passed t.results r pass a refl,
      counted (λ r. is_false r.golden_pass) t.golden_failed t.results r (not pass) b refl,
      counted (λ r. is_true r.flipped) t.flips t.results r (flips_by o ref) f (flips_by-eq o ref),
      counted (λ r. is_failed r.error) t.errors t.results r false e refl,
      omega (arith, all, length-snoc t.results r, scored_once pass t.golden_passed t.golden_failed),
      count-le o ref t.new_escalations t.flips less,
    )

module _ (rt : Runtime) (error_text : EvalError → String) where
  score-IsRecount :
      (reference : Option Bundle) (t u : Tally) (c : GoldenCase) (r : Result String Outcome)
      → score rt error_text reference t c r ≡ ok u
      → IsRecount t
      → IsRecount u × (length u.results ≡ suc (length t.results))
  unfolding score tally_error tally_outcome
  score-IsRecount reference t u c (err text) h good =
      let same = ok-injective h in
      subst (λ u. IsRecount u × (length u.results ≡ suc (length t.results))) same
        (tally_error-IsRecount t c text good, length-snoc t.results (failed_case c text))
  score-IsRecount reference t u c (ok o) h good =
      let (ref, _, done) = bind-eq-ok (reference_outcome rt error_text reference c) _ h in
      subst (λ u. IsRecount u × (length u.results ≡ suc (length t.results))) (ok-injective done)
        (tally_outcome-IsRecount t c o ref good, length-snoc t.results (scored_case c o ref))

  replay_cases-IsRecount :
      (candidate : Bundle) (reference : Option Bundle) (cs : List GoldenCase) (t u : Tally)
      → replay_cases rt error_text candidate reference cs t ≡ ok u
      → IsRecount t
      → IsRecount u × (length u.results ≡ length t.results + length cs)
  unfolding replay_cases replay_case
  replay_cases-IsRecount candidate reference [] t u h good =
      subst (λ u. IsRecount u × (length u.results ≡ length t.results + 0)) (ok-injective h)
        (good, omega arith)
  replay_cases-IsRecount candidate reference (c ∷ cs) t u h good =
      let (v, first, rest) = bind-eq-ok (replay_case rt error_text candidate reference t c) _ h in
      let (r, _, scored) = bind-eq-ok (outcome_of rt error_text candidate c) _ first in
      let (kept, one) = score-IsRecount reference t v c r scored good in
      let (all, len) = replay_cases-IsRecount candidate reference cs v u rest kept in
      (all, omega (arith, one, len))

  module _ (h : Hashing) (dumps : BundleDumps) where
    -- What a run's summary is to its results.
    abbrev pub IsSummary : ReplaySummary → List CaseResult → Type 0
    IsSummary s rs =
        (s.total ≡ length rs)
        × (s.golden_passed ≡ recount (λ r. is_true r.golden_pass) rs)
        × (s.golden_failed ≡ recount (λ r. is_false r.golden_pass) rs)
        × (s.flips ≡ recount (λ r. is_true r.flipped) rs)
        × (s.errors ≡ recount (λ r. is_failed r.error) rs)
        × (s.golden_passed + s.golden_failed + s.errors ≡ s.total)
        × (s.new_escalations ≤ s.flips)

    -- The summary of a run that `run` returns is the recount of its results: there is one result for
    -- each case; the passes, failures, flips and errors are as many as the results that say so; each
    -- case has passed, failed or made an error; and no more new escalations are counted than flips.
    pub replay-IsSummary :
        (company : String) (cs : List GoldenCase) (candidate : Bundle) (reference : Option Bundle)
        (id now : String) (r : ReplayRun)
        → replay rt error_text h dumps company cs candidate reference id now ≡ ok r
        → IsSummary r.summary r.results × (length r.results ≡ length cs)
    unfolding replay summary_of
    replay-IsSummary company cs candidate reference id now r made =
        let (t, tallied, rest) =
          bind-eq-ok (replay_cases rt error_text candidate reference cs no_tally) _ made in
        let (_, _, rest2) =
          bind-eq-ok (or_unhashable (bundle_content_hash h dumps candidate)) _ rest in
        let (_, _, rest3) = bind-eq-ok (reference_hash rt error_text h dumps reference) _ rest2 in
        let (_, _, done) = bind-eq-ok (or_unhashable (case_set_hash h cs)) _ rest3 in
        let ((a, b, f, e, all, less), len) =
          replay_cases-IsRecount candidate reference cs no_tally t tallied
            (refl, refl, refl, refl, refl, omega arith) in
        subst (λ (x : ReplayRun). IsSummary x.summary x.results × (length x.results ≡ length cs))
          (ok-injective done)
          ((omega (arith, len), a, b, f, e, omega (arith, all, len), less), omega (arith, len))
