-- ===== src/Evaluator/Selection.antt =====
-- What `_select_winner` returns, against a description without its rounds: the finalists.
use kernl.Prelude.{
  ℕ, ◌<◌, ◌≡◌, refl, sym, ap, ◌∙◌, ◌⊎◌, inl, inr, true, not, none, some, List, [], ◌∷◌, eqb, arith,
  Bool-cases, eqb→eq, eqb_self,
}
use kernl.Prelude.Dict.{contains, lookup}
use kernl.Prelude.Lists.{In, In-keep, In-keep_of, elem_of_In}
use kernl.Prelude.Sort.{sorted}
use kernl.Prelude.Result.{Result, ok, err}
use kernl.Schema.{Policy, specificity}
use kernl.Schema.Integrity.{policy_ids}
use kernl.Evaluator.Types.{EvalError, index_error, Rule, Elimination}
use kernl.Evaluator.Winner.{
  top, at_top, unopposed, apply_overrides, Selection, conclude, conclude_on, select_winner,
}
use kernl.Evaluator.Narrowing.{narrow_lem, overridden_by, apply_overrides-survivors, le-top}
use kernl.Evaluator.Overriding.{IsOverridden, contains-mark_overridden, mark_overridden_marks}

-- The policies that no matched policy overrides, of these the most specific, of these those of the
-- highest priority.
abbrev pub by_priority : List Policy → List Policy
by_priority = at_top (λ q. q.priority)

abbrev pub finalists : List Policy → List Policy
finalists ms = by_priority (at_top specificity (unopposed (overridden_by ms) ms))

-- The result that the finalists call for: an error where there is none, the only one as the winner,
-- or a tie between the ids of all.
abbrev pub Concludes : List Policy → Result EvalError Selection → Type 0
Concludes [] (err e) = e ≡ index_error
Concludes [] (ok s) = ⊥
Concludes (p ∷ ps) (err e) = ⊥
Concludes (p ∷ []) (ok s) = (s.winner ≡ some p) × (s.tie ≡ [])
Concludes (p ∷ q ∷ ps) (ok s) = (s.winner ≡ none) × (s.tie ≡ sorted (policy_ids (p ∷ q ∷ ps)))

conclude_on-Concludes :
    (ps : List Policy) (rules : List Rule) (elims : List Elimination)
    → Concludes ps (conclude_on ps rules elims)
unfolding conclude_on
conclude_on-Concludes [] rules elims = refl
conclude_on-Concludes (p ∷ []) rules elims = (refl, refl)
conclude_on-Concludes (p ∷ q ∷ ps) rules elims = (refl, refl)

-- Of the policies that match, one or more, `_select_winner` makes what the finalists call for: the
-- only finalist is the winner, two or more are a tie, none is an IndexError.
pub select_winner-Concludes :
    (p : Policy) (ms : List Policy) → Concludes (finalists (p ∷ ms)) (select_winner (p ∷ ms))
unfolding select_winner conclude
select_winner-Concludes p ms =
    let r = apply_overrides (p ∷ ms) in
    let (specific, e, se) = narrow_lem specificity Rule.specificity r in
    let (prior, f, sf) = narrow_lem (λ q. q.priority) Rule.priority specific in
    let all : prior.survivors ≡ finalists (p ∷ ms) =
      sf ∙ ap by_priority (se ∙ ap (at_top specificity) (apply_overrides-survivors (p ∷ ms))) in
    rw (e, f) (rw (← all) (conclude_on-Concludes prior.survivors prior.rules prior.elims))

-- The order of precedence: the more specific policy, then the one of higher priority.
abbrev pub Precedes : Policy → Policy → Type 0
Precedes p q =
    (specificity q < specificity p) ⊎ ((specificity q ≡ specificity p) × (q.priority < p.priority))

abbrev pub IsPeer : Policy → Policy → Type 0
IsPeer p q = (specificity q ≡ specificity p) × (q.priority ≡ p.priority)

In-policy_ids : (q : Policy) (ms : List Policy) → In q ms → In q.id (policy_ids ms)
In-policy_ids q [] m = absurd m
In-policy_ids q (p ∷ ps) (inl e) = inl (ap (λ (x : Policy). x.id) e)
In-policy_ids q (p ∷ ps) (inr m) = inr (In-policy_ids q ps m)

-- The policies that no matched policy overrides.
abbrev pub IsUnopposed : List Policy → Policy → Type 0
IsUnopposed ms q = In q ms × ¬ IsOverridden ms q.id

unopposed_sound :
    (ms : List Policy) (q : Policy) → In q (unopposed (overridden_by ms) ms) → IsUnopposed ms q
unfolding unopposed
unopposed_sound ms q m =
    let (qm, free) = In-keep (λ p. not (contains p.id (overridden_by ms))) q ms m in
    (qm, λ o. clash qm free o)
  where
    clash : In q ms → not (contains q.id (overridden_by ms)) ≡ true → IsOverridden ms q.id → ⊥
    clash qm free (p, pm, o) = cc (
      free,
      mark_overridden_marks q.id (policy_ids ms) p ms []
          (elem_of_In q.id (policy_ids ms) (In-policy_ids q ms qm)) pm o,
    )

pub unopposed_complete :
    (ms : List Policy) (q : Policy) → IsUnopposed ms q → In q (unopposed (overridden_by ms) ms)
unfolding unopposed lookup
unopposed_complete ms q (qm, free) = elim (Bool-cases (contains q.id (overridden_by ms))) [
  | inr e ↦ In-keep_of (λ p. not (contains p.id (overridden_by ms))) q ms qm (ap not e)
  | inl e ↦ elim (contains-mark_overridden q.id (policy_ids ms) ms [] e) [
    | inl none_marked ↦ cc
    | inr o ↦ absurd (free o)
  ]
]

module _ (key : Policy → ℕ) where
  at_top_sound :
      (q : Policy) (ps : List Policy) → In q (at_top key ps) → In q ps × (key q ≡ top key ps)
  unfolding at_top
  at_top_sound q ps m =
      let (qm, e) = In-keep (λ p. eqb (key p) (top key ps)) q ps m in
      (qm, eqb→eq (key q) (top key ps) e)

  pub at_top_complete :
      (q : Policy) (ps : List Policy) → In q ps → key q ≡ top key ps → In q (at_top key ps)
  unfolding at_top
  at_top_complete q ps m e =
      In-keep_of (λ p. eqb (key p) (top key ps)) q ps m (rw e (eqb_self (top key ps)))

  at_top_compares :
      (w q : Policy) (ps : List Policy)
      → In w (at_top key ps)
      → In q ps
      → (key q < key w) ⊎ ((key q ≡ key w) × In q (at_top key ps))
  at_top_compares w q ps wm qm =
      let (_, e) = at_top_sound w ps wm in
      elim (Bool-cases (eqb (key q) (top key ps))) [
        | inl same ↦
            let f = eqb→eq (key q) (top key ps) same in inr (f ∙ sym e, at_top_complete q ps qm f)
        | inr other ↦ inl (ground (arith, e, le-top key q ps qm))
      ]

pub finalist-IsUnopposed : (ms : List Policy) (w : Policy) → In w (finalists ms) → IsUnopposed ms w
finalist-IsUnopposed ms w m =
    let (ms1, _) = at_top_sound (λ p. p.priority) w _ m in
    let (ms2, _) = at_top_sound specificity w _ ms1 in unopposed_sound ms w ms2

-- A finalist precedes each unopposed policy, but for its peers, which are finalists too.
pub finalist_compares :
    (ms : List Policy) (w q : Policy)
    → In w (finalists ms)
    → IsUnopposed ms q
    → Precedes w q ⊎ (IsPeer w q × In q (finalists ms))
finalist_compares ms w q wm u =
    let us = unopposed (overridden_by ms) ms in
    let (ws, _) = at_top_sound (λ p. p.priority) w (at_top specificity us) wm in
    elim (at_top_compares specificity w q us ws (unopposed_complete ms q u)) [
      | inl less ↦ inl (inl less)
      | inr (same, qs) ↦
          elim (at_top_compares (λ p. p.priority) w q (at_top specificity us) wm qs) [
            | inl less ↦ inl (inr (same, less))
            | inr (peer, qf) ↦ inr ((same, peer), qf)
          ]
    ]
