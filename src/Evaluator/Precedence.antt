-- ===== src/Evaluator/Precedence.antt =====
-- The contract of `_select_winner`: the winner precedes all, a tie is among peers, and a bundle whose
-- overrides have no cycle always gets an answer.
use kernl.Prelude.{
  ℕ, suc, ◌≤◌, ◌≡◌, refl, ap, ◌⊎◌, inl, inr, String, none, some, List, [], ◌∷◌, arith,
}
use kernl.Prelude.Lists.{In, length}
use kernl.Prelude.Sort.{sorted, In-sort_by, length-sort_by, str_leb}
use kernl.Prelude.Result.{Result, ok, err}
use kernl.Schema.{Policy, specificity}
use kernl.Schema.Integrity.{policy_ids}
use kernl.Schema.Ranked.{IsRanked}
use kernl.Evaluator.Types.{EvalError}
use kernl.Evaluator.Winner.{Selection, select_winner, top, at_top}
use kernl.Evaluator.Narrowing.{top_attained, le-top}
use kernl.Evaluator.Overriding.{IsOverridden}
use kernl.Evaluator.Selection.{
  finalists, Concludes, select_winner-Concludes, Precedes, IsPeer, IsUnopposed,
  finalist-IsUnopposed, finalist_compares, unopposed_complete, at_top_complete,
}

only_finalist :
    (fs : List Policy) (s : Selection) (w : Policy)
    → Concludes fs (ok s)
    → s.winner ≡ some w
    → fs ≡ w ∷ []
only_finalist [] s w c e = absurd c
only_finalist (p ∷ []) s w c e = ground (arith, c.0, e)
only_finalist (p ∷ q ∷ ps) s w c e = cc (c.0, e)

winner_is_finalist :
    (ms : List Policy) (s : Selection) (w : Policy)
    → select_winner ms ≡ ok s
    → s.winner ≡ some w
    → finalists ms ≡ w ∷ []
winner_is_finalist [] s w e h = no_winner s w e h
  where
    no_winner :
        (s : Selection) (w : Policy)
        → select_winner [] ≡ ok s
        → s.winner ≡ some w
        → finalists [] ≡ w ∷ []
    no_winner s w e h = unfold select_winner in cc (e, h)
winner_is_finalist (p ∷ ms) s w e h =
    only_finalist (finalists (p ∷ ms)) s w (rw e at (select_winner-Concludes p ms)) h

-- The winner is a matched policy that no matched policy overrides, and it precedes every other such
-- policy: it has more conditions, or as many and a higher priority.
pub winner-Precedes :
    (ms : List Policy) (s : Selection) (w : Policy)
    → select_winner ms ≡ ok s
    → s.winner ≡ some w
    → IsUnopposed ms w × ((q : Policy) → IsUnopposed ms q → Precedes w q ⊎ (q ≡ w))
winner-Precedes ms s w e h =
    let only = winner_is_finalist ms s w e h in
    let wm : In w (finalists ms) = rw only (inl refl) in
    (finalist-IsUnopposed ms w wm, λ q u. conclude only (finalist_compares ms w q wm u))
  where
    conclude :
        {q : Policy}
        → finalists ms ≡ w ∷ []
        → Precedes w q ⊎ (IsPeer w q × In q (finalists ms))
        → Precedes w q ⊎ (q ≡ w)
    conclude only (inl before) = inl before
    conclude only (inr (peer, m)) = inr (same (rw only at m))
      where
        same : {q : Policy} → In q (w ∷ []) → q ≡ w
        same (inl e) = e
        same (inr m) = absurd m

In-policy_ids_inv :
    (k : String) (ps : List Policy) → In k (policy_ids ps) → (p : Policy) × In p ps × (k ≡ p.id)
In-policy_ids_inv k [] m = absurd m
In-policy_ids_inv k (p ∷ ps) (inl e) = (p, inl refl, e)
In-policy_ids_inv k (p ∷ ps) (inr m) = let (q, qm, e) = In-policy_ids_inv k ps m in (q, inr qm, e)

length-policy_ids : (ps : List Policy) → length (policy_ids ps) ≡ length ps
length-policy_ids [] = refl
length-policy_ids (p ∷ ps) = ap suc (length-policy_ids ps)

-- A policy that no other unopposed policy precedes.
abbrev pub IsUnbeaten : List Policy → Policy → Type 0
IsUnbeaten ms p = IsUnopposed ms p × ((q : Policy) → IsUnopposed ms q → Precedes p q ⊎ IsPeer p q)

finalist-IsUnbeaten : (ms : List Policy) (p : Policy) → In p (finalists ms) → IsUnbeaten ms p
finalist-IsUnbeaten ms p m =
    (finalist-IsUnopposed ms p m, λ q u. weaken q (finalist_compares ms p q m u))
  where
    weaken :
        (q : Policy) → Precedes p q ⊎ (IsPeer p q × In q (finalists ms)) → Precedes p q ⊎ IsPeer p q
    weaken q (inl before) = inl before
    weaken q (inr (peer, _)) = inr peer

tied_finalists :
    (fs : List Policy) (s : Selection)
    → Concludes fs (ok s)
    → s.winner ≡ none
    → (2 ≤ length fs) × (s.tie ≡ sorted (policy_ids fs))
tied_finalists [] s c e = absurd c
tied_finalists (p ∷ []) s c e = cc (c.0, e)
tied_finalists (p ∷ q ∷ ps) s c e = (omega arith, c.1)

-- Where policies match and none is the winner, the tie names two or more, and each id in it is that
-- of a policy that no other unopposed one precedes.
pub tie_is_among_peers :
    (p : Policy) (ms : List Policy) (s : Selection)
    → select_winner (p ∷ ms) ≡ ok s
    → s.winner ≡ none
    → (2 ≤ length s.tie)
      × ((k : String) → In k s.tie → (q : Policy) × IsUnbeaten (p ∷ ms) q × (k ≡ q.id))
tie_is_among_peers p ms s e h =
    let fs = finalists (p ∷ ms) in
    let (two, tie) = tied_finalists fs s (rw e at (select_winner-Concludes p ms)) h in
    (
      rw tie (rw (length-sort_by str_leb (policy_ids fs)) (rw (length-policy_ids fs) two)),
      λ k m.
          let (q, qm, i) =
            In-policy_ids_inv k fs (In-sort_by str_leb k (policy_ids fs) (rw tie at m)) in
          (q, finalist-IsUnbeaten (p ∷ ms) q qm, i),
    )

module _ (rank : String → ℕ) where
  some-IsUnopposed :
      (p : Policy) (ms : List Policy)
      → IsRanked rank (p ∷ ms)
      → (q : Policy) × IsUnopposed (p ∷ ms) q
  some-IsUnopposed p ms ranked =
      let (q, m, e) = top_attained (λ r. rank r.id) p ms in (q, (m, λ o. beaten q e o))
    where
      beaten :
          (q : Policy) → rank q.id ≡ top (λ r. rank r.id) (p ∷ ms) → ¬ IsOverridden (p ∷ ms) q.id
      beaten q e (r, rm, o) =
          omega (arith, ranked r rm q.id o, le-top (λ r. rank r.id) r (p ∷ ms) rm, e)

  at_top_nonempty :
      (key : Policy → ℕ) (q : Policy) (ps : List Policy)
      → In q ps
      → (r : Policy) × In r (at_top key ps)
  at_top_nonempty key q [] m = absurd m
  at_top_nonempty key q (p ∷ ps) m =
      let (r, rm, e) = top_attained key p ps in (r, at_top_complete key r (p ∷ ps) rm e)

  some_finalist :
      (p : Policy) (ms : List Policy)
      → IsRanked rank (p ∷ ms)
      → (q : Policy) × In q (finalists (p ∷ ms))
  some_finalist p ms ranked =
      let (q, u) = some-IsUnopposed p ms ranked in
      let (r, rm) = at_top_nonempty specificity q _ (unopposed_complete (p ∷ ms) q u) in
      at_top_nonempty (λ x. x.priority) r _ rm

  concluded :
      (fs : List Policy) (r : Result EvalError Selection) (q : Policy)
      → Concludes fs r
      → In q fs
      → (s : Selection) × (r ≡ ok s)
  concluded [] r q c m = absurd m
  concluded (p ∷ []) (ok s) q c m = (s, refl)
  concluded (p ∷ p' ∷ ps) (ok s) q c m = (s, refl)
  concluded (p ∷ ps) (err e) q c m = absurd c

  -- Where the overrides of the matched policies have no cycle, `_select_winner` never raises.
  pub select_winner_returns :
      (ms : List Policy) → IsRanked rank ms → (s : Selection) × (select_winner ms ≡ ok s)
  unfolding select_winner
  select_winner_returns [] ranked = (_, refl)
  select_winner_returns (p ∷ ms) ranked =
      let (q, m) = some_finalist p ms ranked in
      concluded (finalists (p ∷ ms)) (select_winner (p ∷ ms)) q (select_winner-Concludes p ms) m
