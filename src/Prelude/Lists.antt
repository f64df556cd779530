-- ===== src/Prelude/Lists.antt =====
-- Lists measured by native numbers, the Boolean filters, and predicates on all or some members.
use Prim.Native.Nat.{ℕ, zero, suc}
use mathlib.Core.Path.{◌≡◌, refl, sym, subst}
use mathlib.Core.Logic.{◌⊎◌, inl, inr}
use mathlib.Core.Bool.{Bool, true, false, ◌&&◌, ◌||◌}
use mathlib.Core.Option.{Option, none, some}
use mathlib.Core.List.{List, [], ◌∷◌, ◌++◌, map}
use native.Mathlib.Omega.{arith}
use Prim.Native.String.{String}
use text.Mathlib.Text.{◌==◌}
use text.Mathlib.TextEquality.{eq_iff}
use kernl.Prelude.Tests.{if◌then◌else◌, Bool-cases}

module _ {ℓ} {A : Type ℓ} where
  abbrev pub length : List A → ℕ
  length [] = 0
  length (x ∷ xs) = suc (length xs)

  -- `[x for x in xs if p(x)]`
  abbrev pub keep : (A → Bool) → List A → List A
  keep p [] = []
  keep p (x ∷ xs) = let rest = keep p xs in if p x then x ∷ rest else rest

  -- `next(x for x in xs if p(x))`
  abbrev pub find : (A → Bool) → List A → Option A
  find p [] = none
  find p (x ∷ xs) = let rest = find p xs in if p x then some x else rest

  -- `any(p(x) for x in xs)`
  abbrev pub any : (A → Bool) → List A → Bool
  any p [] = false
  any p (x ∷ xs) = p x || any p xs

  abbrev pub all : (A → Bool) → List A → Bool
  all p [] = true
  all p (x ∷ xs) = p x && all p xs

  abbrev pub take : ℕ → List A → List A
  take zero xs = []
  take (suc n) [] = []
  take (suc n) (x ∷ xs) = x ∷ take n xs

  abbrev pub drop : ℕ → List A → List A
  drop zero xs = xs
  drop (suc n) [] = []
  drop (suc n) (x ∷ xs) = drop n xs

  -- `xs[-1] if xs else None`
  abbrev pub get_last? : List A → Option A
  get_last? [] = none
  get_last? (x ∷ []) = some x
  get_last? (x ∷ y ∷ r) = get_last? (y ∷ r)

-- Membership as data: where the member stands.
abbrev pub In : {A : Type 0} → A → List A → Type 0
In a [] = ⊥
In a (x ∷ xs) = (a ≡ x) ⊎ In a xs

abbrev pub All {ℓ κ} : {A : Type ℓ} → (A → Type κ) → List A → Type κ
All P [] = Unit
All P (x ∷ xs) = P x × All P xs

-- `s in xs`
abbrev pub elem : String → List String → Bool
elem s = any (λ x. x == s)

module _ {A : Type 0} (p : A → Bool) where
  pub In-keep : (a : A) (xs : List A) → In a (keep p xs) → In a xs × (p a ≡ true)
  In-keep a [] h = absurd h
  In-keep a (x ∷ xs) h = ground (arith, In-keep a xs)

  pub In-keep_of : (a : A) (xs : List A) → In a xs → p a ≡ true → In a (keep p xs)
  In-keep_of a [] h e = absurd h
  In-keep_of a (x ∷ xs) h e = ground (arith, In-keep_of a xs)

  pub In-find : (a : A) (xs : List A) → find p xs ≡ some a → In a xs × (p a ≡ true)
  In-find a [] h = cc
  In-find a (x ∷ xs) h = ground (arith, In-find a xs)

  pub find-none : (a : A) (xs : List A) → find p xs ≡ none → In a xs → p a ≡ false
  find-none a [] h m = absurd m
  find-none a (x ∷ xs) h m = ground (arith, find-none a xs)

  pub any_of_In : (a : A) (xs : List A) → In a xs → p a ≡ true → any p xs ≡ true
  any_of_In a [] h e = absurd h
  any_of_In a (x ∷ xs) h e = ground (arith, any_of_In a xs)

  pub In-of_any : (xs : List A) → any p xs ≡ true → (a : A) × In a xs × (p a ≡ true)
  In-of_any [] h = cc
  In-of_any (x ∷ xs) h = elim (Bool-cases (p x)) [
    | inl e ↦ (x, inl refl, e)
    | inr e ↦ let (a, m, q) = In-of_any xs (rw e at h) in (a, inr m, q)
  ]

  pub all_of_In : (a : A) (xs : List A) → all p xs ≡ true → In a xs → p a ≡ true
  all_of_In a [] h m = absurd m
  all_of_In a (x ∷ xs) h m = ground (arith, all_of_In a xs)

module _ {A B : Type 0} (f : A → B) where
  pub In-map : (a : A) (xs : List A) → In a xs → In (f a) (map f xs)
  In-map a [] h = absurd h
  In-map a (x ∷ xs) h = ground (arith, In-map a xs)

  pub In-map_inv : (b : B) (xs : List A) → In b (map f xs) → (a : A) × In a xs × (b ≡ f a)
  In-map_inv b [] h = absurd h
  In-map_inv b (x ∷ xs) (inl e) = (x, inl refl, e)
  In-map_inv b (x ∷ xs) (inr h) = let (a, m, e) = In-map_inv b xs h in (a, inr m, e)

module _ {A : Type 0} where
  pub In-append : (a : A) (xs ys : List A) → In a (xs ++ ys) → In a xs ⊎ In a ys
  In-append a [] ys h = inr h
  In-append a (x ∷ xs) ys (inl e) = inl (inl e)
  In-append a (x ∷ xs) ys (inr h) = elim (In-append a xs ys h) [
    | inl m ↦ inl (inr m)
    | inr m ↦ inr m
  ]

  pub In-append_left : (a : A) (xs ys : List A) → In a xs → In a (xs ++ ys)
  In-append_left a [] ys h = absurd h
  In-append_left a (x ∷ xs) ys (inl e) = inl e
  In-append_left a (x ∷ xs) ys (inr h) = inr (In-append_left a xs ys h)

  pub In-append_right : (a : A) (xs ys : List A) → In a ys → In a (xs ++ ys)
  In-append_right a [] ys h = h
  In-append_right a (x ∷ xs) ys h = inr (In-append_right a xs ys h)

  pub All-In : (P : A → Type 0) (a : A) (xs : List A) → All P xs → In a xs → P a
  All-In P a [] h m = absurd m
  All-In P a (x ∷ xs) h (inl e) = subst P (sym e) h.0
  All-In P a (x ∷ xs) h (inr m) = All-In P a xs h.1 m

  pub All-of_In : (P : A → Type 0) (xs : List A) → ((a : A) → In a xs → P a) → All P xs
  All-of_In P [] h = tt
  All-of_In P (x ∷ xs) h = (h x (inl refl), All-of_In P xs (λ a m. h a (inr m)))

pub elem_of_In : (s : String) (xs : List String) → In s xs → elem s xs ≡ true
elem_of_In s xs m = any_of_In (λ x. x == s) s xs m ((eq_iff s s).1 refl)

pub In-of_elem : (s : String) (xs : List String) → elem s xs ≡ true → In s xs
In-of_elem s [] h = cc
In-of_elem s (x ∷ xs) h = ground (arith, eq_iff x s, In-of_elem s xs)
