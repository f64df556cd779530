-- ===== src/Prelude/Result.antt =====
-- Calls that may raise: a value, or the exception. `Err` is the type of the exceptions.
use kernl.Prelude.Lists.{In}
use mathlib.Core.Path.{◌≡◌, refl, sym, ap, subst, ◌∙◌}
use mathlib.Core.Logic.{◌⊎◌, inl, inr}
use mathlib.Core.Bool.{Bool, true, false}
use mathlib.Core.List.{List, [], ◌∷◌}
use mathlib.Core.Option.{Option, none, some}

pub data Result {ℓ} (E A : Type ℓ) : Type ℓ where
  ok : A → Result E A
  err : E → Result E A

module _ {ℓ} {E A B : Type ℓ} where
  infixl 5 ◌>>=◌
  abbrev pub ◌>>=◌ : Result E A → (A → Result E B) → Result E B
  ok a >>= f = f a
  err e >>= f = err e

module _ {ℓ} {E B : Type ℓ} where
  infixl 5 ◌>>◌
  abbrev pub ◌>>◌ : Result E (Unit {ℓ}) → Result E B → Result E B
  m >> k = m >>= λ _. k

module _ {ℓ} {E : Type ℓ} where
  -- `if test: raise e`
  abbrev pub raise_if : Bool → E → Result E (Unit {ℓ})
  raise_if true e = err e
  raise_if false e = ok tt

module _ {ℓ} {E A : Type ℓ} where
  abbrev pub or_raise : Option A → E → Result E A
  or_raise none e = err e
  or_raise (some a) e = ok a

  pub ok_or_err : (r : Result E A) → ((a : A) × (r ≡ ok a)) ⊎ ((e : E) × (r ≡ err e))
  ok_or_err (ok a) = inl (a, refl)
  ok_or_err (err e) = inr (e, refl)

module _ {ℓ} {E A B : Type ℓ} where
  -- A list comprehension whose body may raise: the first exception ends it.
  abbrev pub traverse : (A → Result E B) → List A → Result E (List B)
  traverse f [] = ok []
  traverse f (x ∷ xs) = f x >>= λ y. traverse f xs >>= λ ys. ok (y ∷ ys)

  -- Inversion of a call that returns.
  pub bind-eq-ok :
      (m : Result E A) (f : A → Result E B) {b : B}
      → (m >>= f) ≡ ok b
      → (a : A) × (m ≡ ok a) × (f a ≡ ok b)
  bind-eq-ok (ok a) f h = (a, refl, h)
  bind-eq-ok (err e) f h = cc

module _ {ℓ} {E A : Type ℓ} where
  pub ok-injective : {a b : A} → ◌≡◌ {A = Result E A} (ok a) (ok b) → a ≡ b
  ok-injective h = cc

module _ {ℓ} {E A B : Type ℓ} where
  -- Inversion of a comprehension that returns, item by item.
  pub traverse-cons :
      (f : A → Result E B) (x : A) (xs : List A) (ys : List B)
      → traverse f (x ∷ xs) ≡ ok ys
      → (y : B) × (zs : List B) × (f x ≡ ok y) × (traverse f xs ≡ ok zs) × (ys ≡ y ∷ zs)
  traverse-cons f x xs ys h =
      let (y, e, h') = bind-eq-ok (f x) (λ y. traverse f xs >>= λ ys. ok (y ∷ ys)) h in
      let (zs, e', h'') = bind-eq-ok (traverse f xs) (λ ys. ok (y ∷ ys)) h' in (y, zs, e, e', cc)

module _ {E A B : Type 0} (f : A → Result E B) where
  pub In-traverse :
      (y : B) (xs : List A) (ys : List B)
      → traverse f xs ≡ ok ys
      → In y ys
      → (x : A) × In x xs × (f x ≡ ok y)
  In-traverse y [] ys h m = absurd (subst (In y) (sym (ok-injective h)) m)
  In-traverse y (x ∷ xs) ys h m =
      let (z, zs, e, h', split) = traverse-cons f x xs ys h in
      elim (subst (In y) split m) as (λ _. (x' : A) × In x' (x ∷ xs) × (f x' ≡ ok y)) [
        | inl here ↦ (x, inl refl, e ∙ ap ok (sym here))
        | inr there ↦ let (x', m', e') = In-traverse y xs zs h' there in (x', inr m', e')
      ]

  pub In-traverse_of :
      (x : A) (xs : List A) (ys : List B)
      → traverse f xs ≡ ok ys
      → In x xs
      → (y : B) × In y ys × (f x ≡ ok y)
  In-traverse_of x [] ys h m = absurd m
  In-traverse_of x (x' ∷ xs) ys h m =
      let (z, zs, e, h', split) = traverse-cons f x' xs ys h in
      elim m as (λ _. (y : B) × In y ys × (f x ≡ ok y)) [
        | inl here ↦ (z, subst (In z) (sym split) (inl refl), ap f here ∙ e)
        | inr there ↦
            let (y, m', e') = In-traverse_of x xs zs h' there in
            (y, subst (In y) (sym split) (inr m'), e')
      ]

  pub traverse_returns :
      (xs : List A)
      → ((x : A) → In x xs → (y : B) × (f x ≡ ok y))
      → (ys : List B) × (traverse f xs ≡ ok ys)
  traverse_returns [] h = ([], refl)
  traverse_returns (x ∷ xs) h =
      let (y, e) = h x (inl refl) in
      let (ys, e') = traverse_returns xs (λ z m. h z (inr m)) in (y ∷ ys, rw (e, e'))

module _ {E A : Type 0} where
  -- Inversion of `if test: raise e` before a step that returns.
  pub raise_if-passed :
      (t : Bool) (e : E) (k : Result E A) (a : A)
      → (raise_if t e >> k) ≡ ok a
      → (t ≡ false) × (k ≡ ok a)
  raise_if-passed true e k a h = cc
  raise_if-passed false e k a h = (refl, h)

  -- Inversion of one check before the others.
  pub check-passed :
      (m : Result E Unit) (k : Result E A) (a : A) → (m >> k) ≡ ok a → (m ≡ ok tt) × (k ≡ ok a)
  check-passed (ok u) k a h = (refl, h)
  check-passed (err e) k a h = cc
