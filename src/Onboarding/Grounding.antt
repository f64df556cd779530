-- ===== src/Onboarding/Grounding.antt =====
-- Evidence that is grounded quotes its source, and every quotation can be grounded.
use Prim.Native.String.{◌++◌ as str_append}
use Prim.Native.String.append
use kernl.Prelude.{
  ◌≡◌, refl, sym, ap, subst, ◌∙◌, ◌≤◌, ◌<◌, ℕ, zero, suc, ◌+◌, ◌-◌, String, true, false, ◌||◌, ◌==◌,
  ltb, leb, Option, some, arith, eq_iff, inl, inr, Bool-cases, Option-cases,
}
use kernl.Prelude.Result.{Result, ok, err, ok-injective}
use kernl.Python.{ℤ, pos, negsuc}
use kernl.Python.Text.{Runtime, strip, prefix}
use kernl.Schema.{Evidence}
use kernl.Schema.Validate.{SchemaError, check_evidence}
use kernl.Onboarding.Sources.{
  SourceSnapshot, str_length, suffix, slice, span_of, cited, validated, ground_evidence,
}

str_length-append : (s t : String) → str_length (str_append s t) ≡ str_length s + str_length t
unfolding str_length
str_length-append String.[] t = ap str_length (append.nil t) ∙ omega arith
str_length-append (String.◌∷◌ c s) t =
    ap str_length (append.cons c s t) ∙ omega (arith, str_length-append s t)

-- The text before a cut, and after it.
suffix-append : (s t : String) → suffix (str_length s) (str_append s t) ≡ t
unfolding suffix str_length
suffix-append String.[] t = append.nil t
suffix-append (String.◌∷◌ c s) t =
    ap (suffix (suc (str_length s))) (append.cons c s t) ∙ suffix-append s t

prefix-append : (s t : String) → prefix (str_length s) (str_append s t) ≡ s
unfolding prefix str_length
prefix-append String.[] t = refl
prefix-append (String.◌∷◌ c s) t =
    ap (prefix (suc (str_length s))) (append.cons c s t)
    ∙ ap (λ x. String.◌∷◌ c x) (prefix-append s t)

-- A text is the text before a cut and the text after it.
cut : (n : ℕ) (s : String) → str_append (prefix n s) (suffix n s) ≡ s
unfolding prefix suffix
cut zero s = append.nil s
cut (suc n) String.[] = append.nil ""
cut (suc n) (String.◌∷◌ c s) =
    append.cons c (prefix n s) (suffix n s) ∙ ap (λ x. String.◌∷◌ c x) (cut n s)

str_length-prefix : (n : ℕ) (s : String) → n ≤ str_length s → str_length (prefix n s) ≡ n
unfolding prefix str_length
str_length-prefix zero s h = refl
str_length-prefix (suc n) String.[] h = omega (arith, h)
str_length-prefix (suc n) (String.◌∷◌ c s) h = ap suc (str_length-prefix n s (omega (arith, h)))

str_length-suffix :
    (n : ℕ) (s : String) → n ≤ str_length s → str_length (suffix n s) + n ≡ str_length s
unfolding suffix str_length
str_length-suffix zero s h = omega arith
str_length-suffix (suc n) String.[] h = omega (arith, h)
str_length-suffix (suc n) (String.◌∷◌ c s) h =
    let rest = str_length-suffix n s (omega (arith, h)) in omega (arith, rest)

some-injective : {A : Type 0} {x y : A} → ◌≡◌ {A = Option A} (some x) (some y) → x ≡ y
some-injective h = cc h

in_range : (n a b : ℕ) → (ltb n b || leb b a) ≡ false → (b ≤ n) × (a < b)
in_range n a b h = (ground arith, ground arith)

-- A span that is in range has its numbers.
span_of-some :
    (n : ℕ) (start end_ : ℤ) (x : ℕ × ℕ)
    → span_of n start end_ ≡ some x
    → (start ≡ pos x.0) × (end_ ≡ pos x.1) × (x.1 ≤ n) × (x.0 < x.1)
unfolding span_of
span_of-some n (negsuc a) b x h = cc h
span_of-some n (pos a) (negsuc b) x h = cc h
span_of-some n (pos a) (pos b) x h = elim (Bool-cases (ltb n b || leb b a)) [
  | inl out ↦ cc (rw out at h)
  | inr fits ↦
      let same : ◌≡◌ {A = Option (ℕ × ℕ)} (some (a, b)) (some x) = rw fits at h in
      let both : ◌≡◌ {A = ℕ × ℕ} (a, b) x = some-injective same in
      let (le, lt) = in_range n a b fits in
      subst (λ (y : ℕ × ℕ). (pos a ≡ pos y.0) × (pos b ≡ pos y.1) × (y.1 ≤ n) × (y.0 < y.1)) both
        (refl, refl, le, lt)
]

span_of-fits : (n a b : ℕ) → b ≤ n → a < b → span_of n (pos a) (pos b) ≡ some (a, b)
unfolding span_of
span_of-fits n a b le lt = ground arith

-- What stands between two places of a text.
slice_cuts :
    (a b : ℕ) (s : String)
    → a ≤ b
    → b ≤ str_length s
    → (str_append (prefix a s) (str_append (slice a b s) (suffix (b - a) (suffix a s))) ≡ s)
      × (str_length (prefix a s) ≡ a)
      × (str_length (slice a b s) ≡ b - a)
unfolding slice
slice_cuts a b s le fits =
    let rest = str_length-suffix a s (omega (arith, le, fits)) in
    (
      ap (str_append (prefix a s)) (cut (b - a) (suffix a s)) ∙ cut a s,
      str_length-prefix a s (omega (arith, le, fits)),
      str_length-prefix (b - a) (suffix a s) (omega (arith, le, fits, rest)),
    )

slice-append_middle :
    (s t u : String)
    → slice (str_length s) (str_length s + str_length t) (str_append s (str_append t u)) ≡ t
unfolding slice
slice-append_middle s t u =
    let width : str_length s + str_length t - str_length s ≡ str_length t = omega arith in
    rw (width, suffix-append s (str_append t u)) (prefix-append t u)

validated-ok : (e e' : Evidence) (r : Result SchemaError Unit) → validated e r ≡ ok e' → e' ≡ e
unfolding validated
validated-ok e e' (ok u) h = sym (ok-injective h)
validated-ok e e' (err x) h = cc h

nonempty : (rt : Runtime) (t : String) → (strip rt t == "") ≡ false → 0 < str_length t
unfolding strip str_length
nonempty rt String.[] h = cc h
nonempty rt (String.◌∷◌ c t) h = omega arith

in_order : (a n : ℕ) → ltb (a + n) a ≡ false
in_order a n = ground arith

module _ (rt : Runtime) (s : SourceSnapshot) where
  -- An evidence that is returned quotes its source: the document is the text before the span, the
  -- excerpt, and the text after it; the span's ends are the numbers that were asked for and are the
  -- excerpt's in the document; and the evidence names the document's id and hash.
  pub ground_evidence-quotes :
      (start end_ : ℤ) (excerpt : String) (e : Evidence)
      → ground_evidence rt s start end_ excerpt ≡ ok e
      → (before after : String) × (s.content ≡ str_append before (str_append excerpt after))
        × (e.span_start ≡ str_length before)
        × (e.span_end ≡ str_length before + str_length excerpt)
        × (start ≡ pos e.span_start)
        × (end_ ≡ pos e.span_end)
        × (e ≡ cited s e.span_start e.span_end excerpt)
  unfolding ground_evidence cited
  ground_evidence-quotes start end_ excerpt e h =
      elim (Option-cases (span_of (str_length s.content) start end_)) [
        | inl out ↦ cc (rw (out, ground_evidence) at h)
        | inr (span, fits) ↦ elim (Bool-cases (slice span.0 span.1 s.content == excerpt)) [
          | inr other ↦ cc (rw (fits, other, ground_evidence) at h)
          | inl quoted ↦ elim (Bool-cases (strip rt excerpt == "")) [
            | inl blank ↦ cc (rw (fits, quoted, blank, ground_evidence) at h)
            | inr full ↦
                let (sa, sb, le, lt) = span_of-some (str_length s.content) start end_ span fits in
                let (whole, left, width) =
                  slice_cuts span.0 span.1 s.content (omega (arith, lt)) le in
                let text = (eq_iff (slice span.0 span.1 s.content) excerpt).0 quoted in
                let same : e ≡ cited s span.0 span.1 excerpt =
                  validated-ok (cited s span.0 span.1 excerpt) e _
                    (rw (fits, quoted, full, ground_evidence) at h) in
                let after = suffix (span.1 - span.0) (suffix span.0 s.content) in
                let first : e.span_start ≡ span.0 = ap (λ (y : Evidence). y.span_start) same in
                let last : e.span_end ≡ span.1 = ap (λ (y : Evidence). y.span_end) same in
                let long : str_length excerpt ≡ span.1 - span.0 =
                  sym (ap str_length text) ∙ width in
                (
                  prefix span.0 s.content,
                  after,
                  sym whole
                      ∙ ap (λ t. str_append (prefix span.0 s.content) (str_append t after)) text,
                  first ∙ sym left,
                  omega (arith, last, left, long, lt),
                  sa ∙ ap pos (sym first),
                  sb ∙ ap pos (sym last),
                  subst (λ (y : Evidence). y ≡ cited s y.span_start y.span_end excerpt) (sym same)
                      refl,
                )
          ]
        ]
      ]

  -- Every quotation can be grounded: for an excerpt of the document that is not blank, the call with
  -- the excerpt's place returns the evidence.
  pub ground_evidence_returns :
      (before after excerpt : String)
      → s.content ≡ str_append before (str_append excerpt after)
      → (strip rt excerpt == "") ≡ false
      → ground_evidence rt s
          (pos (str_length before))
          (pos (str_length before + str_length excerpt))
          excerpt
        ≡ ok (cited s (str_length before) (str_length before + str_length excerpt) excerpt)
  unfolding ground_evidence check_evidence cited validated
  ground_evidence_returns before after excerpt whole full =
      let a = str_length before in
      let n = str_length excerpt in
      let size : str_length s.content ≡ a + (n + str_length after) =
        ap str_length whole
        ∙ str_length-append before (str_append excerpt after)
        ∙ ap (λ x. a + x) (str_length-append excerpt after) in
      let some_text = nonempty rt excerpt full in
      let fits =
        span_of-fits (str_length s.content) a (a + n) (omega (arith, size))
          (omega (arith, some_text)) in
      let quoted : slice a (a + n) s.content == excerpt ≡ true =
        (eq_iff (slice a (a + n) s.content) excerpt).1
          (ap (slice a (a + n)) whole ∙ slice-append_middle before excerpt after) in
      rw (fits, ground_evidence, quoted, full, check_evidence, in_order a n) refl
