-- ===== src/Prelude/PairDict.antt =====
-- A `dict` whose keys are pairs of texts.
use Prim.Native.String.{String}
use mathlib.Core.Path.{◌≡◌, refl}
use mathlib.Core.Logic.{◌⊎◌}
use mathlib.Core.Bool.{◌&&◌}
use mathlib.Core.Option.{Option, none, some}
use mathlib.Core.List.{List, [], ◌∷◌}
use native.Mathlib.Omega.{arith}
use text.Mathlib.Text.{◌==◌}
use text.Mathlib.TextEquality.{eq_iff}
use kernl.Prelude.Tests.{if◌then◌else◌}

abbrev pub PairDict : Type 0 → Type 0
PairDict V = List (String × String × V)

module _ {V : Type 0} where
  -- `d.get((a, b))`
  unfoldable pub lookup : String → String → PairDict V → Option V
  lookup a b [] = none
  lookup a b ((i, j, v) ∷ d) = if i == a && j == b then some v else lookup a b d

  -- `d[(a, b)] = v`
  unfoldable pub insert : String → String → V → PairDict V → PairDict V
  insert a b v [] = (a, b, v) ∷ []
  insert a b v ((i, j, w) ∷ d) =
      if i == a && j == b then (i, j, v) ∷ d else (i, j, w) ∷ insert a b v d

  pub lookup-insert :
      (a b c d : String) (v : V) (m : PairDict V)
      → lookup c d (insert a b v m) ≡ (if a == c && b == d then some v else lookup c d m)
  unfolding lookup insert
  lookup-insert a b c d v [] = refl
  lookup-insert a b c d v ((i, j, w) ∷ m) = ground (
    arith,
    eq_iff a c,
    eq_iff b d,
    eq_iff i a,
    eq_iff j b,
    eq_iff i c,
    eq_iff j d,
    lookup-insert a b c d v m,
  )

  pub lookup-insert_self :
      (a b : String) (v : V) (m : PairDict V) → lookup a b (insert a b v m) ≡ some v
  lookup-insert_self a b v m = ground (arith, lookup-insert a b a b v m, eq_iff a a, eq_iff b b)

  -- What a lookup after a write finds: the new value, or what was there.
  pub lookup-insert_cases :
      (a b c d : String) (v w : V) (m : PairDict V)
      → lookup c d (insert a b v m) ≡ some w
      → ((a ≡ c) × (b ≡ d) × (v ≡ w)) ⊎ (lookup c d m ≡ some w)
  lookup-insert_cases a b c d v w m h =
      ground (arith, lookup-insert a b c d v m, eq_iff a c, eq_iff b d)

  -- A write to a new key keeps every other.
  pub lookup-insert_keeps :
      (a b c d : String) (v w : V) (m : PairDict V)
      → lookup a b m ≡ none
      → lookup c d m ≡ some w
      → lookup c d (insert a b v m) ≡ some w
  lookup-insert_keeps a b c d v w m new h =
      ground (arith, lookup-insert a b c d v m, eq_iff a c, eq_iff b d)
