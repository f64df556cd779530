-- ===== src/Prelude/Dict.antt =====
-- Python's `dict` with text keys, as an association list in insertion order: a write to a key that
-- is there keeps its place.
use Prim.Native.String.{String}
use mathlib.Core.Path.{◌≡◌, refl}
use mathlib.Core.Logic.{◌⊎◌, inl, inr}
use mathlib.Core.Bool.{Bool}
use mathlib.Core.Option.{Option, none, some}
use mathlib.Core.List.{List, [], ◌∷◌}
use native.Mathlib.Omega.{arith}
use text.Mathlib.Text.{◌==◌}
use text.Mathlib.TextEquality.{eq_iff}
use kernl.Prelude.Tests.{if◌then◌else◌, is_some}
use kernl.Prelude.Lists.{In}

abbrev pub Dict : Type 0 → Type 0
Dict V = List (String × V)

module _ {V : Type 0} where
  -- `d.get(k)`
  unfoldable pub lookup : String → Dict V → Option V
  lookup k [] = none
  lookup k ((j, v) ∷ d) = if j == k then some v else lookup k d

  -- `k in d`
  abbrev pub contains : String → Dict V → Bool
  contains k d = is_some (lookup k d)

  -- `d[k] = v`
  unfoldable pub insert : String → V → Dict V → Dict V
  insert k v [] = (k, v) ∷ []
  insert k v ((j, w) ∷ d) = if j == k then (j, v) ∷ d else (j, w) ∷ insert k v d

  -- `d.pop(k, None)`
  unfoldable pub remove : String → Dict V → Dict V
  remove k [] = []
  remove k ((j, w) ∷ d) = let rest = remove k d in if j == k then rest else (j, w) ∷ rest

  -- `d.keys()`
  abbrev pub keys : Dict V → List String
  keys [] = []
  keys ((k, _) ∷ d) = k ∷ keys d

  abbrev pub values : Dict V → List V
  values [] = []
  values ((_, v) ∷ d) = v ∷ values d

  pub lookup-insert :
      (k j : String) (v : V) (d : Dict V)
      → lookup j (insert k v d) ≡ (if k == j then some v else lookup j d)
  unfolding lookup insert
  lookup-insert k j v [] = refl
  lookup-insert k j v ((i, w) ∷ d) =
      ground (arith, eq_iff k j, eq_iff i k, eq_iff i j, lookup-insert k j v d)

  pub lookup-insert_self : (k : String) (v : V) (d : Dict V) → lookup k (insert k v d) ≡ some v
  lookup-insert_self k v d = ground (arith, lookup-insert k k v d, eq_iff k k)

  -- What a lookup after a write finds: the new value, or what was there.
  pub lookup-insert_cases :
      (k j : String) (v w : V) (d : Dict V)
      → lookup j (insert k v d) ≡ some w
      → ((k ≡ j) × (v ≡ w)) ⊎ (lookup j d ≡ some w)
  lookup-insert_cases k j v w d h = ground (arith, lookup-insert k j v d, eq_iff k j)

  pub lookup-remove :
      (k j : String) (d : Dict V) → lookup j (remove k d) ≡ (if k == j then none else lookup j d)
  unfolding lookup remove
  lookup-remove k j [] = ground arith
  lookup-remove k j ((i, w) ∷ d) =
      ground (arith, lookup-remove k j d, eq_iff i k, eq_iff i j, eq_iff k j)

  pub In-lookup : (k : String) (v : V) (d : Dict V) → lookup k d ≡ some v → In (k, v) d
  unfolding lookup
  In-lookup k v [] h = cc
  In-lookup k v ((j, w) ∷ d) h = ground (arith, eq_iff j k, In-lookup k v d)

  pub In-insert :
      (k : String) (v : V) (d : Dict V) (p : String × V)
      → In p (insert k v d)
      → ((p ≡ (k, v)) ⊎ In p d)
  unfolding insert
  In-insert k v [] p h = h
  In-insert k v ((j, w) ∷ d) p h = ground (arith, eq_iff j k, In-insert k v d p)

  -- No key stands twice.
  abbrev pub IsKeyed : Dict V → Type 0
  IsKeyed [] = Unit
  IsKeyed ((k, _) ∷ d) = (lookup k d ≡ none) × IsKeyed d

  pub insert-IsKeyed : (k : String) (v : V) (d : Dict V) → IsKeyed d → IsKeyed (insert k v d)
  unfolding insert lookup
  insert-IsKeyed k v [] h = (refl, tt)
  insert-IsKeyed k v ((j, w) ∷ d) h =
      ground (arith, insert-IsKeyed k v d, lookup-insert k j v d, eq_iff j k, eq_iff k j)

  pub lookup_of_In :
      (k : String) (v : V) (d : Dict V) → IsKeyed d → In (k, v) d → lookup k d ≡ some v
  unfolding lookup
  lookup_of_In k v [] h m = absurd m
  lookup_of_In k v ((j, w) ∷ d) h (inl e) = ground (arith, eq_iff j k)
  lookup_of_In k v ((j, w) ∷ d) (new, h) (inr m) =
      let found = lookup_of_In k v d h m in ground (arith, eq_iff j k)
