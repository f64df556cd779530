-- ===== src/Schema/Total.antt =====
-- Colours that know every node of the graph, and a search that fails at none.
use kernl.Prelude.{
  ◌≡◌, sym, ◌∙◌, inl, inr, String, ◌==◌, some, List, [], ◌∷◌, arith, eq_iff, Bool-cases,
}
use kernl.Prelude.Dict.{lookup, insert, keys}
use kernl.Prelude.Lists.{In}
use kernl.Prelude.Result.{Result, ok, err, ◌>>=◌}
use kernl.Schema.Validate.{SchemaError, out_of_fuel}
use kernl.Schema.Acyclic.{Color, white, gray, Colors, Graph, all_white}
use kernl.Schema.Finishing.{at_insert, off_insert}

-- Every node of the graph has a color.
abbrev pub IsTotal : Graph → Colors → Type 0
IsTotal g c =
    (n : String) (next : List String) → lookup n g ≡ some next → (x : Color) × (lookup n c ≡ some x)

-- The only error is the model's own; the colors stay total, and no node is left gray.
abbrev pub IsFine : Graph → Colors → Result SchemaError Colors → Type 0
IsFine g c (ok d) = IsTotal g d × ((k : String) → lookup k d ≡ some gray → lookup k c ≡ some gray)
IsFine g c (err e) = e ≡ out_of_fuel

pub IsFine-bind :
    (g : Graph) (b c : Colors) (r : Result SchemaError Colors)
    (f : Colors → Result SchemaError Colors)
    → IsFine g c r
    → ((d : Colors)
        → IsTotal g d
        → ((k : String) → lookup k d ≡ some gray → lookup k c ≡ some gray)
        → IsFine g b (f d))
    → IsFine g b (r >>= f)
IsFine-bind g b c (err e) f h k = h
IsFine-bind g b c (ok d) f (t, s) k = k d t s

pub IsFine-trans :
    (g : Graph) (b c : Colors) (r : Result SchemaError Colors)
    → ((k : String) → lookup k c ≡ some gray → lookup k b ≡ some gray)
    → IsFine g c r
    → IsFine g b r
IsFine-trans g b c (ok d) f (t, s) = (t, λ k h. f k (s k h))
IsFine-trans g b c (err e) f h = h

pub IsTotal-insert :
    (g : Graph) (n : String) (x : Color) (c : Colors) → IsTotal g c → IsTotal g (insert n x c)
IsTotal-insert g n x c t k next o = elim (Bool-cases (n == k)) [
  | inl same ↦ (x, at_insert n k x c same)
  | inr other ↦ let (y, h) = t k next o in (y, off_insert n k x c other ∙ h)
]

pub all_white_total :
    (n : String) (g : Graph) (next : List String)
    → lookup n g ≡ some next
    → lookup n (all_white g) ≡ some white
unfolding all_white lookup
all_white_total n [] next h = cc h
all_white_total n ((k, v) ∷ g) next h = ground (arith, all_white_total n g next)

pub lookup_of_keys :
    (n : String) (g : Graph) → In n (keys g) → (next : List String) × (lookup n g ≡ some next)
unfolding lookup
lookup_of_keys n [] m = absurd m
lookup_of_keys n ((k, v) ∷ g) m = elim (Bool-cases (k == n)) [
  | inl same ↦ (v, rw same)
  | inr other ↦ elim m as (λ _. (next : List String) × (lookup n ((k, v) ∷ g) ≡ some next)) [
    | inl e ↦ cc (other, (eq_iff k n).1 (sym e))
    | inr there ↦ let (next, o) = lookup_of_keys n g there in (next, rw other o)
  ]
]
