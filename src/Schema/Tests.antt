-- ===== src/Schema/Tests.antt =====
-- The search for override cycles on the policies of a small workflow.
use kernl.Prelude.{
  ℕ, ◌<◌, ◌≡◌, refl, ◌≢◌, inl, inr, String, ◌==◌, if◌then◌else◌, List, [], ◌∷◌, sym, subst, arith,
}
use kernl.Prelude.Dict.{lookup, insert}
use kernl.Prelude.Lists.{In, All}
use kernl.Prelude.Sort.{distinct}
use kernl.Prelude.Result.{ok, err}
use kernl.Schema.Types.{Policy}
use kernl.Schema.Validate.{out_of_fuel, override_cycle, has_duplicates}
use kernl.Schema.Integrity.{policy_ids}
use kernl.Schema.Unique.{HasUniqueIds, HasUniqueIds-of_check}
use kernl.Schema.Acyclic.{assert_acyclic}
use kernl.Schema.Ranked.{IsRanked, IsRanked-of_acyclic}
use kernl.Schema.Fuel.{assert_acyclic_terminates}
use kernl.Schema.Complete.{assert_acyclic_complete}
use kernl.Evaluator.Sample.{small, fraud, bundle}

-- Two policies that override each other.
abbrev looped : List Policy
looped = record small { overrides = "fraud" ∷ [] } ∷ fraud ∷ []

looped_is_refused : assert_acyclic looped ≡ err override_cycle
unfolding assert_acyclic insert lookup distinct
looped_is_refused = refl

bundle_is_acyclic : assert_acyclic bundle.policies ≡ ok tt
unfolding assert_acyclic insert lookup distinct
bundle_is_acyclic = refl

policies-HasUniqueIds : HasUniqueIds bundle.policies
unfolding has_duplicates distinct
policies-HasUniqueIds = HasUniqueIds-of_check bundle.policies refl

assert_acyclic_terminates_example : assert_acyclic looped ≢ err out_of_fuel
assert_acyclic_terminates_example = assert_acyclic_terminates looped

IsRanked-of_acyclic_example : (rank : String → ℕ) × IsRanked rank bundle.policies
IsRanked-of_acyclic_example =
    IsRanked-of_acyclic bundle.policies policies-HasUniqueIds bundle_is_acyclic

-- `fraud` overrides `small`.
abbrev height : String → ℕ
height k = if k == "fraud" then 1 else 0

-- What a policy's overrides need: that they go down and name policies.
abbrev IsSettled : List Policy → Policy → Type 0
IsSettled ps p = (k : String) → In k p.overrides → (height k < height p.id) × In k (policy_ids ps)

fraud-IsSettled : IsSettled bundle.policies fraud
fraud-IsSettled k (inl e) = (rw e (omega arith), inl e)
fraud-IsSettled k (inr m) = elim m [ ]

All-IsSettled :
    (ps qs : List Policy) → All (IsSettled ps) qs → (p : Policy) → In p qs → IsSettled ps p
All-IsSettled ps [] _ p m = elim m [ ]
All-IsSettled ps (q ∷ qs) (d, ds) p (inl e) = subst (IsSettled ps) (sym e) d
All-IsSettled ps (q ∷ qs) (d, ds) p (inr m) = All-IsSettled ps qs ds p m

bundle-IsSettled : (p : Policy) → In p bundle.policies → IsSettled bundle.policies p
bundle-IsSettled =
    All-IsSettled bundle.policies bundle.policies
      ((λ k o. absurd o), ((λ k o. absurd o), ((λ k o. absurd o), (fraud-IsSettled, tt))))

assert_acyclic_complete_example : assert_acyclic bundle.policies ≡ ok tt
assert_acyclic_complete_example =
    assert_acyclic_complete bundle.policies height policies-HasUniqueIds
      (λ p m k o. (bundle-IsSettled p m k o).1) (λ p m k o. (bundle-IsSettled p m k o).0)
