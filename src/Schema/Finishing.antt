-- ===== src/Schema/Finishing.antt =====
-- What it is for a search to have finished and coloured nodes, and how the colours change.
use kernl.Prelude.{
  ◌≡◌, refl, sym, ◌∙◌, ◌⊎◌, inl, inr, String, true, false, ◌==◌, Option, none, some, List, [], ◌∷◌,
  eq_iff, Bool-cases,
}
use kernl.Prelude.Dict.{lookup, insert, lookup-insert}
use kernl.Prelude.Lists.{In, All}
use kernl.Prelude.Result.{ok, or_raise}
use kernl.Schema.Validate.{SchemaError}
use kernl.Schema.Acyclic.{Color, white, gray, black, Colors, Graph}

-- The nodes in the order in which they were finished, the last one first: each is new, and its
-- overrides stand behind it.
abbrev pub IsFinished : Graph → List String → Type 0
IsFinished g [] = Unit
IsFinished g (n ∷ done) =
    ¬ In n done
    × ((next : List String) × (lookup n g ≡ some next) × All (λ t. In t done) next)
    × IsFinished g done

-- The black nodes are the finished ones.
abbrev pub IsColored : Graph → List String → Colors → Type 0
IsColored g done c =
    IsFinished g done
    × ((k : String) → (lookup k c ≡ some black → In k done) × (In k done → lookup k c ≡ some black))

-- What a part of the search leaves alone.
abbrev pub Goes : Colors → Colors → Type 0
Goes c d =
    (k : String)
    → (lookup k c ≡ some black → lookup k d ≡ some black)
      × (lookup k c ≡ some gray → lookup k d ≡ some gray)
      × (lookup k d ≡ some gray → lookup k c ≡ some gray)

pub Goes-refl : (c : Colors) → Goes c c
Goes-refl c k = (λ h. h, λ h. h, λ h. h)

pub Goes-trans : (a b c : Colors) → Goes a b → Goes b c → Goes a c
Goes-trans a b c f g k =
    (λ h. (g k).0 ((f k).0 h), λ h. (g k).1 ((f k).1 h), λ h. (f k).2 ((g k).2 h))

pub color_cases :
    (x : Option Color) → (x ≡ none) ⊎ (x ≡ some white) ⊎ (x ≡ some gray) ⊎ (x ≡ some black)
color_cases none = inl refl
color_cases (some white) = inr (inl refl)
color_cases (some gray) = inr (inr (inl refl))
color_cases (some black) = inr (inr (inr refl))

pub at_insert :
    (n k : String) (x : Color) (c : Colors) → (n == k) ≡ true → lookup k (insert n x c) ≡ some x
at_insert n k x c same = lookup-insert n k x c ∙ rw same

pub off_insert :
    (n k : String) (x : Color) (c : Colors)
    → (n == k) ≡ false
    → lookup k (insert n x c) ≡ lookup k c
off_insert n k x c other = lookup-insert n k x c ∙ rw other

pub All-map :
    {P Q : String → Type 0} → ((t : String) → P t → Q t) → (ts : List String) → All P ts → All Q ts
All-map f [] h = tt
All-map f (t ∷ ts) (p, h) = (f t p, All-map f ts h)

pub or_raise-ok :
    (x : Option (List String)) (e : SchemaError) (v : List String)
    → or_raise x e ≡ ok v
    → x ≡ some v
or_raise-ok none e v h = cc h
or_raise-ok (some w) e v h = cc h

-- A node that was white is gray in between, and black at the end.
pub Goes-around :
    (n : String) (c d : Colors)
    → lookup n c ≡ some white
    → Goes (insert n gray c) d
    → Goes c (insert n black d)
Goes-around n c d w goes k = elim (Bool-cases (n == k)) [
  | inl same ↦ (
    λ h. cc (w, h, (eq_iff n k).0 same),
    λ h. cc (w, h, (eq_iff n k).0 same),
    λ h. cc (h, at_insert n k black d same),
  )
  | inr other ↦ (
    λ h. off_insert n k black d other ∙ (goes k).0 (off_insert n k gray c other ∙ h),
    λ h. off_insert n k black d other ∙ (goes k).1 (off_insert n k gray c other ∙ h),
    λ h. sym (off_insert n k gray c other) ∙ (goes k).2 (sym (off_insert n k black d other) ∙ h),
  )
]

-- What a part of the search that ends well gives: a longer order, and black nodes.
abbrev pub Reaches : Graph → Colors → List String → Colors → Type 0
Reaches g c ns d =
    (done : List String) × IsColored g done d × Goes c d × All (λ t. lookup t d ≡ some black) ns
