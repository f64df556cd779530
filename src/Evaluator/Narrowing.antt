-- ===== src/Evaluator/Narrowing.antt =====
-- The rounds of `_select_winner` by what they leave: each is the policies at the top of its key.
use kernl.Prelude.{
  ℕ, suc, ◌≤◌, ◌≡◌, refl, inl, inr, String, Bool, true, some, List, [], ◌∷◌, ◌++◌, ltb, eqb, arith,
  Bool-cases, Option-cases, eqb_self, sym, ap,
}
use kernl.Prelude.Dict.{Dict, lookup}
use kernl.Prelude.Lists.{keep, find, In, length, find-none}
use kernl.Prelude.Sort.{sort_by}
use kernl.Prelude.Result.{ok}
use kernl.Schema.{Policy}
use kernl.Schema.Validate.{is_empty}
use kernl.Schema.Integrity.{policy_ids}
use kernl.Evaluator.Types.{Rule, Elimination}
use kernl.Evaluator.Winner.{
  Round, top, below, at_top, narrow, unopposed, apply_overrides, mark_overridden, beaten_by, id_leb,
}

two_or_more : (ps : List Policy) → ltb 1 (suc (suc (length ps))) ≡ true
two_or_more ps = ground arith

module _ (key : Policy → ℕ) where
  pub le-top : (p : Policy) (ps : List Policy) → In p ps → key p ≤ top key ps
  unfolding top
  le-top p [] m = absurd m
  le-top p (q ∷ ps) (inl e) = rw e (omega arith)
  le-top p (q ∷ ps) (inr m) = omega (arith, le-top p ps m)

  pub top_attained :
      (p : Policy) (ps : List Policy) → (q : Policy) × In q (p ∷ ps) × (key q ≡ top key (p ∷ ps))
  unfolding top
  top_attained p [] = (p, inl refl, omega arith)
  top_attained p (r ∷ ps) =
      let (q, m, e) = top_attained r ps in
      elim (Bool-cases (ltb (key p) (key q))) [
        | inl lt ↦ (q, inr m, ground (arith, e))
        | inr ge ↦ (p, inl refl, ground (arith, e))
      ]

  keep_none_below :
      (t : ℕ) (ps : List Policy)
      → ((q : Policy) → In q ps → key q ≤ t)
      → is_empty (keep (λ p. ltb (key p) t) ps) ≡ true
      → keep (λ p. eqb (key p) t) ps ≡ ps
  unfolding is_empty
  keep_none_below t [] h e = refl
  keep_none_below t (p ∷ ps) h e =
      ground (arith, h p (inl refl), keep_none_below t ps (λ q m. h q (inr m)))

  at_top_one : (p : Policy) → at_top key (p ∷ []) ≡ p ∷ []
  unfolding at_top
  at_top_one p = ground arith

  pub find-top :
      (p : Policy) (ps : List Policy)
      → (k : Policy) × (find (λ q. eqb (key q) (top key (p ∷ ps))) (p ∷ ps) ≡ some k)
  find-top p ps =
      let (q, m, e) = top_attained p ps in
      let t = top key (p ∷ ps) in
      elim (Option-cases (find (λ q. eqb (key q) t) (p ∷ ps))) [
        | inl none_found ↦
            let no = find-none (λ q. eqb (key q) t) q (p ∷ ps) none_found m in
            cc (no, ap (λ n. eqb n t) e, eqb_self t)
        | inr found ↦ found
      ]

  abbrev narrowed : Rule → List Policy → List Rule → List Elimination → Policy → Round
  narrowed rule ps rules elims k = record {
    survivors = at_top key ps;
    rules = rules ++ rule ∷ [];
    elims = elims ++ beaten_by rule k.id (sort_by id_leb (below key ps));
  }

  narrow_on :
      (rule : Rule) (ps : List Policy) (rules : List Rule) (elims : List Elimination)
      → (r' : Round) × (narrow rule key (record { survivors = ps; rules = rules; elims = elims })
          ≡ ok r')
        × (r'.survivors ≡ at_top key ps)
  unfolding narrow
  narrow_on rule [] rules elims = (_, refl, refl)
  narrow_on rule (p ∷ []) rules elims = (_, refl, sym (at_top_one p))
  narrow_on rule (p ∷ q ∷ ps) rules elims = elim (Bool-cases (is_empty (below key (p ∷ q ∷ ps)))) [
    | inl e ↦ (
      record { survivors = p ∷ q ∷ ps; rules = rules; elims = elims },
      rw (two_or_more ps, e),
      sym (keep_none_below (top key (p ∷ q ∷ ps)) (p ∷ q ∷ ps) (λ x m. le-top x (p ∷ q ∷ ps) m) e),
    )
    | inr e ↦
        let (k, f) = find-top p (q ∷ ps) in
        (narrowed rule (p ∷ q ∷ ps) rules elims k, rw (two_or_more ps, e, f), refl)
  ]

  -- What a block does: it leaves the policies at the top of its key, and never raises.
  pub narrow_lem :
      (rule : Rule) (r : Round)
      → (r' : Round) × (narrow rule key r ≡ ok r') × (r'.survivors ≡ at_top key r.survivors)
  narrow_lem rule r = narrow_on rule r.survivors r.rules r.elims

keep_all : (p : Policy → Bool) (ps : List Policy) → ((q : Policy) → p q ≡ true) → keep p ps ≡ ps
keep_all p [] h = refl
keep_all p (q ∷ ps) h = ground (arith, h q, keep_all p ps h)

abbrev pub overridden_by : List Policy → Dict String
overridden_by ms = mark_overridden (policy_ids ms) ms []

-- The first block leaves the policies that are not marked, also where it is passed over.
pub apply_overrides-survivors :
    (ms : List Policy) → (apply_overrides ms).survivors ≡ unopposed (overridden_by ms) ms
unfolding apply_overrides lookup
apply_overrides-survivors ms = on_dict (overridden_by ms) refl
  where
    on_dict :
        (d : Dict String)
        → overridden_by ms ≡ d
        → (apply_overrides ms).survivors ≡ unopposed (overridden_by ms) ms
    on_dict [] e = rw e (sym (keep_all _ ms (λ q. refl)))
    on_dict (x ∷ d) e = rw e
