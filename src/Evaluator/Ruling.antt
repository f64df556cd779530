-- ===== src/Evaluator/Ruling.antt =====
-- The branches of `evaluate` after the selection: which of them cites a policy.
use kernl.Prelude.{
  ◌≡◌, refl, inl, inr, String, true, Option, none, some, List, [], ◌∷◌, arith, Bool-cases,
}
use kernl.Schema.{Policy}
use kernl.Schema.Validate.{is_empty}
use kernl.Evaluator.Types.{PolicyEvaluation, Rule, Elimination}
use kernl.Evaluator.Winner.{Selection}
use kernl.Evaluator.Decide.{rule_on, with_winner, without_winner, decision, blockers}

is_empty→nil : {A : Type 0} (xs : List A) → is_empty xs ≡ true → xs ≡ []
unfolding is_empty
is_empty→nil [] h = refl
is_empty→nil (x ∷ xs) h = cc

-- The branch that cites a policy: there is a winner, and nothing blocks it.
abbrev pub Cites : Selection → List PolicyEvaluation → String → Type 0
Cites s es pid =
    (w : Policy) × (s.winner ≡ some w)
    × (w.id ≡ pid)
    × ((rule_on s es).outcome ≡ decision w)
    × (blockers w es ≡ [])

without_winner-uncited :
    (s : Selection) (es : List PolicyEvaluation) → (without_winner s es).outcome.policy_id ≡ none
unfolding without_winner
without_winner-uncited s es = ground arith

with_winner-cited :
    (s : Selection) (w : Policy) (es : List PolicyEvaluation) (pid : String)
    → (with_winner s w es).outcome.policy_id ≡ some pid
    → (w.id ≡ pid) × ((with_winner s w es).outcome ≡ decision w) × (blockers w es ≡ [])
unfolding with_winner
with_winner-cited s w es pid h = elim (Bool-cases (is_empty (blockers w es))) [
  | inl e ↦ let h' = rw e at h in (cc h', rw e, is_empty→nil (blockers w es) e)
  | inr e ↦ cc (rw e at h)
]

pub cited :
    (s : Selection) (es : List PolicyEvaluation) (pid : String)
    → (rule_on s es).outcome.policy_id ≡ some pid
    → Cites s es pid
unfolding rule_on
cited s es pid h = on_parts s.tie s.winner s.rules s.elims h
  where
    on_parts :
        (tie : List String) (win : Option Policy) (rules : List Rule) (elims : List Elimination)
        → let s' : Selection = record { winner = win; rules = rules; elims = elims; tie = tie } in
          (rule_on s' es).outcome.policy_id ≡ some pid → Cites s' es pid
    on_parts (x ∷ tie) win rules elims h = cc h
    on_parts [] none rules elims h = cc (
      h,
      without_winner-uncited (record { winner = none; rules = rules; elims = elims; tie = [] }) es,
    )
    on_parts [] (some w) rules elims h =
        let (same, out, free) =
          with_winner-cited (record { winner = some w; rules = rules; elims = elims; tie = [] }) w
            es pid h in
        (w, refl, same, out, free)
