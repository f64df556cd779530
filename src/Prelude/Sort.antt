-- ===== src/Prelude/Sort.antt =====
-- Python's `sorted`: stable, by a key's order; and `sorted(set(xs))` of texts.
use Prim.Native.Nat.{Ordering}
use Prim.Native.String.{String, compare}
use mathlib.Core.Path.{◌≡◌, refl}
use mathlib.Core.Logic.{◌⊎◌, inl, inr}
use mathlib.Core.Bool.{Bool, true, false}
use mathlib.Core.List.{List, [], ◌∷◌}
use native.Mathlib.Omega.{arith}
use kernl.Prelude.Tests.{if◌then◌else◌}
use kernl.Prelude.Lists.{In, elem, In-of_elem, length}

-- Texts compare by code points.
abbrev pub str_leb : String → String → Bool
str_leb s t = elim (compare s t) [ Ordering.gt ↦ false | _ ↦ true ]

module _ {A : Type 0} (le : A → A → Bool) where
  -- An equal item stays in front of those that came after it.
  abbrev pub insert_sorted : A → List A → List A
  insert_sorted x [] = x ∷ []
  insert_sorted x (y ∷ ys) = if le x y then x ∷ y ∷ ys else y ∷ insert_sorted x ys

  unfoldable pub sort_by : List A → List A
  sort_by [] = []
  sort_by (x ∷ xs) = insert_sorted x (sort_by xs)

  In-insert_sorted : (a x : A) (ys : List A) → In a (insert_sorted x ys) → (a ≡ x) ⊎ In a ys
  In-insert_sorted a x [] h = h
  In-insert_sorted a x (y ∷ ys) h = ground (arith, In-insert_sorted a x ys)

  In-insert_sorted_of : (a x : A) (ys : List A) → (a ≡ x) ⊎ In a ys → In a (insert_sorted x ys)
  In-insert_sorted_of a x [] h = h
  In-insert_sorted_of a x (y ∷ ys) h = ground (arith, In-insert_sorted_of a x ys)

  length-insert_sorted : (x : A) (ys : List A) → length (insert_sorted x ys) ≡ length (x ∷ ys)
  length-insert_sorted x [] = refl
  length-insert_sorted x (y ∷ ys) = ground (arith, length-insert_sorted x ys)

  pub In-sort_by : (a : A) (xs : List A) → In a (sort_by xs) → In a xs
  unfolding sort_by
  In-sort_by a [] h = h
  In-sort_by a (x ∷ xs) h = ground (arith, In-insert_sorted a x (sort_by xs) h, In-sort_by a xs)

  pub In-sort_by_of : (a : A) (xs : List A) → In a xs → In a (sort_by xs)
  unfolding sort_by
  In-sort_by_of a [] h = h
  In-sort_by_of a (x ∷ xs) (inl e) = In-insert_sorted_of a x (sort_by xs) (inl e)
  In-sort_by_of a (x ∷ xs) (inr m) =
      In-insert_sorted_of a x (sort_by xs) (inr (In-sort_by_of a xs m))

  pub length-sort_by : (xs : List A) → length (sort_by xs) ≡ length xs
  unfolding sort_by
  length-sort_by [] = refl
  length-sort_by (x ∷ xs) = ground (arith, length-insert_sorted x (sort_by xs), length-sort_by xs)

abbrev pub sorted : List String → List String
sorted = sort_by str_leb

-- `set(xs)`: each text once.
unfoldable pub distinct : List String → List String
distinct [] = []
distinct (x ∷ xs) = let rest = distinct xs in if elem x rest then rest else x ∷ rest

pub In-distinct : (s : String) (xs : List String) → In s (distinct xs) → In s xs
unfolding distinct
In-distinct s [] h = h
In-distinct s (x ∷ xs) h = ground (arith, In-distinct s xs)

pub In-distinct_of : (s : String) (xs : List String) → In s xs → In s (distinct xs)
unfolding distinct
In-distinct_of s [] h = h
In-distinct_of s (x ∷ xs) h = ground (arith, In-distinct_of s xs, In-of_elem x (distinct xs))

abbrev pub sorted_set : List String → List String
sorted_set xs = sorted (distinct xs)

pub In-sorted_set : (s : String) (xs : List String) → In s (sorted_set xs) → In s xs
In-sorted_set s xs h = In-distinct s xs (In-sort_by str_leb s (distinct xs) h)

pub In-sorted_set_of : (s : String) (xs : List String) → In s xs → In s (sorted_set xs)
In-sorted_set_of s xs h = In-sort_by_of str_leb s (distinct xs) (In-distinct_of s xs h)
