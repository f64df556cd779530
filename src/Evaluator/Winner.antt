-- ===== src/Evaluator/Winner.antt =====
-- `_select_winner` of backend/runtime/evaluator.py: the precedence among the policies that match.
use Prim.Native.Nat.{max}
use kernl.Prelude.{
  ℕ, String, Bool, not, ◌&&◌, Option, none, some, List, [], ◌∷◌, ◌++◌, ltb, eqb, if◌then◌else◌,
}
use kernl.Prelude.Dict.{Dict, insert, contains}
use kernl.Prelude.Lists.{keep, find, elem, length}
use kernl.Prelude.Sort.{sorted, sort_by, str_leb}
use kernl.Prelude.Result.{Result, ok, err, ◌>>=◌, or_raise}
use kernl.Schema.{Policy, specificity}
use kernl.Schema.Validate.{is_empty}
use kernl.Schema.Integrity.{policy_ids}
use kernl.Evaluator.Types.{EvalError, index_error, stop_iteration, Rule, single_match, Elimination}

-- The loop over one policy's `overrides`, then over the survivors.
unfoldable pub mark_targets : String → List String → List String → Dict String → Dict String
mark_targets by matched_ids [] overridden = overridden
mark_targets by matched_ids (target ∷ targets) overridden =
    mark_targets by matched_ids targets
      (if elem target matched_ids then insert target by overridden else overridden)

unfoldable pub mark_overridden : List String → List Policy → Dict String → Dict String
unfolding mark_targets
mark_overridden matched_ids [] overridden = overridden
mark_overridden matched_ids (p ∷ ps) overridden =
    mark_overridden matched_ids ps (mark_targets p.id matched_ids p.overrides overridden)

-- `survivors`, `rules` and `elims`.
pub record Round : Type 0 where
  pub survivors : List Policy
  pub rules : List Rule
  pub elims : List Elimination

abbrev pub eliminated : Rule → Dict String → List Elimination
eliminated rule [] = []
eliminated rule ((t, by) ∷ d) =
    record { policy_id = t; eliminated_by = by; rule = rule } ∷ eliminated rule d

abbrev pub key_leb : String × String → String × String → Bool
key_leb a b = str_leb a.0 b.0

-- The survivors that no other overrides.
unfoldable pub unopposed : Dict String → List Policy → List Policy
unopposed overridden = keep (λ p. not (contains p.id overridden))

unfoldable pub apply_overrides : List Policy → Round
unfolding mark_overridden unopposed is_empty
apply_overrides matched =
    let overridden = mark_overridden (policy_ids matched) matched [] in
    if is_empty overridden then record { survivors = matched; rules = []; elims = [] } else record {
      survivors = unopposed overridden matched;
      rules = Rule.overrides ∷ [];
      elims = eliminated Rule.overrides (sort_by key_leb overridden);
    }

-- `max(key(p) for p in ps)`
unfoldable pub top : (Policy → ℕ) → List Policy → ℕ
top key [] = 0
top key (p ∷ ps) = max (key p) (top key ps)

abbrev pub id_leb : Policy → Policy → Bool
id_leb p q = str_leb p.id q.id

abbrev pub beaten_by : Rule → String → List Policy → List Elimination
beaten_by rule keeper [] = []
beaten_by rule keeper (p ∷ ps) =
    record { policy_id = p.id; eliminated_by = keeper; rule = rule } ∷ beaten_by rule keeper ps

unfoldable pub below : (Policy → ℕ) → List Policy → List Policy
unfolding top
below key ps = keep (λ p. ltb (key p) (top key ps)) ps

unfoldable pub at_top : (Policy → ℕ) → List Policy → List Policy
unfolding top
at_top key ps = keep (λ p. eqb (key p) (top key ps)) ps

-- One of the two blocks `if len(survivors) > 1`, by specificity or by priority.
unfoldable pub narrow : Rule → (Policy → ℕ) → Round → Result EvalError Round
unfolding below at_top is_empty
narrow rule key r =
    if ltb 1 (length r.survivors) && not (is_empty (below key r.survivors))
    then (do
      keeper ← or_raise (find (λ p. eqb (key p) (top key r.survivors)) r.survivors) stop_iteration
      ok (record {
        survivors = at_top key r.survivors;
        rules = r.rules ++ rule ∷ [];
        elims = r.elims ++ beaten_by rule keeper.id (sort_by id_leb (below key r.survivors));
      }))
    else ok r

-- What `_select_winner` returns.
pub record Selection : Type 0 where
  pub winner : Option Policy
  pub rules : List Rule
  pub elims : List Elimination
  pub tie : List String

-- The last lines: a tie, the winner, or the IndexError of `survivors[0]`.
unfoldable pub conclude_on : List Policy → List Rule → List Elimination → Result EvalError Selection
conclude_on [] rules elims = err index_error
conclude_on (p ∷ []) rules elims = ok (record {
  winner = some p;
  rules = elim rules [ [] ↦ single_match ∷ [] | x ∷ xs ↦ x ∷ xs ];
  elims = elims;
  tie = [];
})
conclude_on (p ∷ q ∷ ps) rules elims =
    ok (record {
      winner = none;
      rules = rules;
      elims = elims;
      tie = sorted (policy_ids (p ∷ q ∷ ps));
    })

unfoldable pub conclude : Round → Result EvalError Selection
unfolding conclude_on
conclude r = conclude_on r.survivors r.rules r.elims

unfoldable pub select_winner : List Policy → Result EvalError Selection
unfolding apply_overrides conclude narrow
select_winner [] = ok (record { winner = none; rules = []; elims = []; tie = [] })
select_winner (p ∷ ps) = do
  specific ← narrow Rule.specificity specificity (apply_overrides (p ∷ ps))
  prior ← narrow Rule.priority (λ q. q.priority) specific
  conclude prior
