-- ===== src/Schema/Unique.antt =====
-- The ids of a checked bundle's policies are all different, so `by_id` finds each policy.
use kernl.Prelude.{
  ◌≤◌, ◌≡◌, refl, sym, ap, ◌∙◌, ◌⊎◌, inl, inr, String, Bool, true, false, some, List, [], ◌∷◌, ◌==◌,
  if◌then◌else◌, arith, eq_iff, Bool-cases,
}
use kernl.Prelude.Dict.{Dict, lookup, insert, lookup-insert, lookup-insert_self}
use kernl.Prelude.Lists.{In, keep, length, elem, elem_of_In}
use kernl.Prelude.Sort.{distinct, In-distinct_of}
use kernl.Schema.Validate.{has_duplicates}
use kernl.Schema.Types.{Policy, Bundle, policies_for}
use kernl.Schema.Integrity.{policy_ids, index_policies}

-- No two policies have one id.
abbrev pub HasUniqueIds : List Policy → Type 0
HasUniqueIds [] = Unit
HasUniqueIds (p ∷ ps) = ¬ In p.id (policy_ids ps) × HasUniqueIds ps

In-policy_ids : (q : Policy) (ms : List Policy) → In q ms → In q.id (policy_ids ms)
In-policy_ids q [] m = absurd m
In-policy_ids q (p ∷ ps) (inl e) = inl (ap (λ (x : Policy). x.id) e)
In-policy_ids q (p ∷ ps) (inr m) = inr (In-policy_ids q ps m)

index_policies_other :
    (k : String) (ps : List Policy) (d : Dict Policy)
    → ¬ In k (policy_ids ps)
    → lookup k (index_policies ps d) ≡ lookup k d
index_policies_other k [] d h = refl
index_policies_other k (p ∷ ps) d h =
    index_policies_other k ps (insert p.id p d) (λ m. h (inr m))
    ∙ lookup-insert p.id k p d
    ∙ other (Bool-cases (p.id == k))
  where
    other :
        ((p.id == k) ≡ true) ⊎ ((p.id == k) ≡ false)
        → (if p.id == k then some p else lookup k d) ≡ lookup k d
    other (inl e) = absurd (h (inl (sym ((eq_iff p.id k).0 e))))
    other (inr e) = rw e

-- `by_id[p.id]` is `p`.
pub lookup-index_policies :
    (p : Policy) (ps : List Policy) (d : Dict Policy)
    → HasUniqueIds ps
    → In p ps
    → lookup p.id (index_policies ps d) ≡ some p
lookup-index_policies p [] d u m = absurd m
lookup-index_policies p (q ∷ ps) d u (inl e) =
    rw e (index_policies_other q.id ps (insert q.id q d) u.0 ∙ lookup-insert_self q.id q d)
lookup-index_policies p (q ∷ ps) d u (inr m) = lookup-index_policies p ps (insert q.id q d) u.1 m

policy_ids-keep :
    (f : Policy → Bool) (k : String) (ps : List Policy)
    → In k (policy_ids (keep f ps))
    → In k (policy_ids ps)
policy_ids-keep f k [] m = m
policy_ids-keep f k (p ∷ ps) m = elim (Bool-cases (f p)) [
  | inl e ↦ elim (rw e at m) as (λ _. In k (policy_ids (p ∷ ps))) [
    | inl here ↦ inl here
    | inr there ↦ inr (policy_ids-keep f k ps there)
  ]
  | inr e ↦ inr (policy_ids-keep f k ps (rw e at m))
]

HasUniqueIds-keep :
    (f : Policy → Bool) (ps : List Policy) → HasUniqueIds ps → HasUniqueIds (keep f ps)
HasUniqueIds-keep f [] u = tt
HasUniqueIds-keep f (p ∷ ps) u = elim (Bool-cases (f p)) [
  | inl e ↦ rw e ((λ m. u.0 (policy_ids-keep f p.id ps m)), HasUniqueIds-keep f ps u.1)
  | inr e ↦ rw e (HasUniqueIds-keep f ps u.1)
]

pub HasUniqueIds-policies_for :
    (b : Bundle) (name : String) → HasUniqueIds b.policies → HasUniqueIds (policies_for b name)
unfolding policies_for
HasUniqueIds-policies_for b name u = HasUniqueIds-keep (λ p. p.workflow == name) b.policies u

length-distinct-le : (xs : List String) → length (distinct xs) ≤ length xs
unfolding distinct
length-distinct-le [] = omega arith
length-distinct-le (x ∷ xs) = ground (arith, length-distinct-le xs)

distinct_tail :
    (x : String) (xs : List String)
    → length (x ∷ xs) ≡ length (distinct (x ∷ xs))
    → (length xs ≡ length (distinct xs)) × (elem x (distinct xs) ≡ false)
unfolding distinct
distinct_tail x xs h = ground (arith, length-distinct-le xs)

unique_of_lengths :
    (ps : List Policy)
    → length (policy_ids ps) ≡ length (distinct (policy_ids ps))
    → HasUniqueIds ps
unique_of_lengths [] h = tt
unique_of_lengths (p ∷ ps) h =
    let (tail, fresh) = distinct_tail p.id (policy_ids ps) h in
    (
      λ m. cc (
        fresh,
        elem_of_In p.id (distinct (policy_ids ps)) (In-distinct_of p.id (policy_ids ps) m),
      ),
      unique_of_lengths ps tail,
    )

-- What the check `len(pol_ids) != len(set(pol_ids))` is for.
pub HasUniqueIds-of_check :
    (ps : List Policy) → has_duplicates (policy_ids ps) ≡ false → HasUniqueIds ps
unfolding has_duplicates
HasUniqueIds-of_check ps h = unique_of_lengths ps (ground arith)
