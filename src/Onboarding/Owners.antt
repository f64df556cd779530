-- ===== src/Onboarding/Owners.antt =====
-- No tenant is locked out: the count of a company's active owner keys, and what each call does to it.
use kernl.Prelude.{
  ◌≡◌, refl, sym, ap, subst, ◌∙◌, ℕ, ◌+◌, String, false, ◌==◌, Option, none, some, List, [], ◌∷◌,
  if◌then◌else◌, arith, eq_iff, eq_refl, inl, inr, Bool-cases,
}
use kernl.Prelude.Dict.{Dict, lookup, insert, remove, values, lookup-insert, lookup-remove}
use kernl.Prelude.Lists.{length, keep, In}
use kernl.Onboarding.TenantStore.{ApiKeyRecord, key_ids_of, TenantStore, pop_keys, pop_hash}
use kernl.Onboarding.Tenants.{is_owner}

-- `len(active_owners)` of a company, from the store's dict of keys.
abbrev pub owner_count : String → Dict ApiKeyRecord → ℕ
owner_count company d = length (keep is_owner (keep (λ k. k.company_id == company) (values d)))

-- What one record adds to it.
abbrev pub share : String → ApiKeyRecord → ℕ
share company r = if r.company_id == company then if is_owner r then 1 else 0 else 0

abbrev pub share_of : String → Option ApiKeyRecord → ℕ
share_of company none = 0
share_of company (some r) = share company r

owner_count-cons :
    (c k : String) (r : ApiKeyRecord) (d : Dict ApiKeyRecord)
    → owner_count c ((k, r) ∷ d) ≡ share c r + owner_count c d
owner_count-cons c k r d = elim (Bool-cases (r.company_id == c)) [
  | inr other ↦ rw other (omega arith)
  | inl same ↦ elim (Bool-cases (is_owner r)) [
    | inl owner ↦ rw (same, owner) (omega arith)
    | inr plain ↦ rw (same, plain) (omega arith)
  ]
]

-- A write takes away what the key had and adds what it gets.
pub owner_count-insert :
    (c k : String) (r : ApiKeyRecord) (d : Dict ApiKeyRecord)
    → owner_count c (insert k r d) + share_of c (lookup k d) ≡ owner_count c d + share c r
unfolding insert lookup
owner_count-insert c k r [] = omega (arith, owner_count-cons c k r [])
owner_count-insert c k r ((j, w) ∷ d) =
    let rest = owner_count-insert c k r d in
    elim (Bool-cases (j == k)) [
      | inl same ↦ rw same (omega (arith, owner_count-cons c j r d, owner_count-cons c j w d))
      | inr other ↦
          rw other
            (omega (arith, rest, owner_count-cons c j w (insert k r d), owner_count-cons c j w d))
    ]

-- Each key stands in a dict once.
abbrev pub IsUnique : Dict ApiKeyRecord → Type 0
IsUnique [] = Unit
IsUnique ((k, _) ∷ d) = (lookup k d ≡ none) × IsUnique d

pub insert-IsUnique :
    (k : String) (r : ApiKeyRecord) (d : Dict ApiKeyRecord) → IsUnique d → IsUnique (insert k r d)
unfolding insert lookup
insert-IsUnique k r [] u = (refl, tt)
insert-IsUnique k r ((j, w) ∷ d) (new, u) = elim (Bool-cases (j == k)) [
  | inl same ↦ rw same (new, u)
  | inr other ↦
      rw other
        (ground (arith, lookup-insert k j r d, eq_iff k j, eq_iff j k), insert-IsUnique k r d u)
]

pub remove-IsUnique : (k : String) (d : Dict ApiKeyRecord) → IsUnique d → IsUnique (remove k d)
unfolding remove lookup
remove-IsUnique k [] u = tt
remove-IsUnique k ((j, w) ∷ d) (new, u) =
    let rest = remove-IsUnique k d u in
    elim (Bool-cases (j == k)) [
      | inl same ↦ rw same rest
      | inr other ↦ rw other (ground (arith, lookup-remove k j d), rest)
    ]

pub lookup_of_In :
    (k : String) (r : ApiKeyRecord) (d : Dict ApiKeyRecord)
    → IsUnique d
    → In (k, r) d
    → lookup k d ≡ some r
unfolding lookup
lookup_of_In k r [] u m = absurd m
lookup_of_In k r ((j, w) ∷ d) (new, u) (inl e) =
    rw (ap (λ p. p.0) e, eq_refl) (ap some (sym (ap (λ p. p.1) e)))
lookup_of_In k r ((j, w) ∷ d) (new, u) (inr m) =
    let rest = lookup_of_In k r d u m in
    elim (Bool-cases (j == k)) [
      | inl same ↦ cc (ap (λ x. lookup x d) ((eq_iff j k).0 same), new, rest)
      | inr other ↦ rw other rest
    ]

-- A key that adds nothing can go.
pub owner_count-remove :
    (c k : String) (d : Dict ApiKeyRecord)
    → IsUnique d
    → share_of c (lookup k d) ≡ 0
    → owner_count c (remove k d) ≡ owner_count c d
unfolding remove lookup
owner_count-remove c k [] u z = refl
owner_count-remove c k ((j, w) ∷ d) (new, u) z = elim (Bool-cases (j == k)) [
  | inl same ↦
      let absent : lookup k d ≡ none = subst (λ x. lookup x d ≡ none) ((eq_iff j k).0 same) new in
      let rest = owner_count-remove c k d u (ap (share_of c) absent) in
      let nothing : share c w ≡ 0 = rw same at z in
      rw same (omega (arith, rest, nothing, owner_count-cons c j w d))
  | inr other ↦
      let rest = owner_count-remove c k d u (rw other at z) in
      rw other (omega (arith, rest, owner_count-cons c j w (remove k d), owner_count-cons c j w d))
]

key_ids_of-lookup :
    (c k : String) (d : Dict ApiKeyRecord)
    → In k (key_ids_of c d)
    → (r : ApiKeyRecord) × In (k, r) d × (r.company_id ≡ c)
unfolding key_ids_of
key_ids_of-lookup c k [] m = absurd m
key_ids_of-lookup c k ((j, w) ∷ d) m = elim (Bool-cases (w.company_id == c)) [
  | inr other ↦ let (r, rm, e) = key_ids_of-lookup c k d (rw other at m) in (r, inr rm, e)
  | inl same ↦ elim (rw same at m) [
    | inl e ↦ (w, inl (ap (λ x. (x, w)) e), (eq_iff w.company_id c).0 same)
    | inr deep ↦ let (r, rm, e) = key_ids_of-lookup c k d deep in (r, inr rm, e)
  ]
]

-- The keys of another company add nothing.
share-other :
    (c c' : String) (r : ApiKeyRecord) → r.company_id ≡ c' → (c' == c) ≡ false → share c r ≡ 0
share-other c c' r e other = rw (e, other) refl

-- A list of keys none of which counts for the company.
abbrev AreOthers : String → List String → Dict ApiKeyRecord → Type 0
AreOthers c ids d = (k : String) → In k ids → share_of c (lookup k d) ≡ 0

AreOthers-remove :
    (c k : String) (ids : List String) (d : Dict ApiKeyRecord)
    → AreOthers c ids d
    → AreOthers c ids (remove k d)
AreOthers-remove c k ids d others j m = elim (Bool-cases (k == j)) [
  | inl same ↦ rw (lookup-remove k j d, same) refl
  | inr other ↦ rw (lookup-remove k j d, other) (others j m)
]

pub pop_keys-keeps :
    (ids : List String) (s : TenantStore)
    → IsUnique s.keys
    → IsUnique (pop_keys ids s).keys × ((pop_keys ids s).tenants ≡ s.tenants)
unfolding pop_keys
pop_keys-keeps [] s u = (u, refl)
pop_keys-keeps (k ∷ ids) s u =
    pop_keys-keeps ids
      (record s { keys = remove k s.keys; by_hash = pop_hash (lookup k s.keys) s.by_hash })
      (remove-IsUnique k s.keys u)

pub pop_keys-counts :
    (c : String) (ids : List String) (s : TenantStore)
    → IsUnique s.keys
    → AreOthers c ids s.keys
    → owner_count c (pop_keys ids s).keys ≡ owner_count c s.keys
unfolding pop_keys
pop_keys-counts c [] s u others = refl
pop_keys-counts c (k ∷ ids) s u others =
    pop_keys-counts c ids
      (record s { keys = remove k s.keys; by_hash = pop_hash (lookup k s.keys) s.by_hash })
      (remove-IsUnique k s.keys u) (AreOthers-remove c k ids s.keys (λ j m. others j (inr m)))
    ∙ owner_count-remove c k s.keys u (others k (inl refl))

-- A tenant that is deleted takes no key of another.
pub key_ids_of-others :
    (c c' : String) (d : Dict ApiKeyRecord)
    → IsUnique d
    → (c' == c) ≡ false
    → AreOthers c (key_ids_of c' d) d
key_ids_of-others c c' d u other k m =
    let (r, rm, e) = key_ids_of-lookup c' k d m in
    ap (share_of c) (lookup_of_In k r d u rm) ∙ share-other c c' r e other
