-- ===== src/Registry/Content.antt =====
-- What it is for a registry to keep its records' content, and what the single writes keep.
use kernl.Prelude.{
  ◌≡◌, refl, sym, ap, subst, ◌∙◌, inl, inr, String, ◌&&◌, ◌==◌, Option, some, if◌then◌else◌, arith,
  eq_iff, Bool-cases, Option-cases,
}
use kernl.Prelude.PairDict
use kernl.Prelude.Dict
use kernl.Registry.Store.{BundleRecord, BundleStore, put, get_record, active, pointed, set_active}

-- What never changes of a record.
abbrev pub SameContent : BundleRecord → BundleRecord → Type 0
SameContent a b =
    (b.bundle ≡ a.bundle)
    × (b.content_hash ≡ a.content_hash)
    × (b.created_at ≡ a.created_at)
    × (b.created_by ≡ a.created_by)

-- Each record stands under its own company and id.
abbrev pub IsKeyed : BundleStore → Type 0
IsKeyed s =
    (c i : String) (r : BundleRecord)
    → get_record s c i ≡ some r
    → (r.company_id ≡ c) × (r.record_id ≡ i)

-- Every record is kept, with its content.
abbrev pub Keeps : BundleStore → BundleStore → Type 0
Keeps s t =
    (c i : String) (r : BundleRecord)
    → get_record s c i ≡ some r
    → (r' : BundleRecord) × (get_record t c i ≡ some r') × SameContent r r'

pub SameContent-trans : (a b c : BundleRecord) → SameContent a b → SameContent b c → SameContent a c
SameContent-trans a b c (p, q, r, s) (p', q', r', s') = (p' ∙ p, q' ∙ q, r' ∙ r, s' ∙ s)

pub SameContent-sym : (a b : BundleRecord) → SameContent a b → SameContent b a
SameContent-sym a b (p, q, r, s) = (sym p, sym q, sym r, sym s)

pub Keeps-refl : (s : BundleStore) → Keeps s s
Keeps-refl s c i r h = (r, h, (refl, refl, refl, refl))

pub Keeps-trans : (s t u : BundleStore) → Keeps s t → Keeps t u → Keeps s u
Keeps-trans s t u f g c i r h =
    let (r', h', same) = f c i r h in
    let (r'', h'', same') = g c i r' h' in (r'', h'', SameContent-trans r r' r'' same same')

pub get_record-put :
    (r : BundleRecord) (s : BundleStore) (c i : String)
    → get_record (put r s) c i
      ≡ (if r.company_id == c && r.record_id == i then some r else get_record s c i)
unfolding get_record put
get_record-put r s c i = PairDict.lookup-insert r.company_id r.record_id c i r s.rows

-- The one that is put at a record's place has its content.
pub Keeps-put :
    (old r : BundleRecord) (s : BundleStore)
    → get_record s r.company_id r.record_id ≡ some old
    → SameContent old r
    → Keeps s (put r s)
Keeps-put old r s at_key same c i x h = elim (Bool-cases (r.company_id == c && r.record_id == i)) [
  | inr other ↦ (
    x,
    get_record-put r s c i ∙ ap (λ b. if b then some r else get_record s c i) other ∙ h,
    (refl, refl, refl, refl),
  )
  | inl here ↦
      let both : (r.company_id ≡ c) × (r.record_id ≡ i) =
        ground (arith, here, eq_iff r.company_id c, eq_iff r.record_id i) in
      let found : get_record s c i ≡ some old = rw (both.0, both.1) at at_key in
      let one : old ≡ x = cc (found, h) in
      (
        r,
        get_record-put r s c i ∙ ap (λ b. if b then some r else get_record s c i) here,
        subst (λ y. SameContent y r) one same,
      )
]

pub IsKeyed-put : (r : BundleRecord) (s : BundleStore) → IsKeyed s → IsKeyed (put r s)
IsKeyed-put r s keyed c i x h = elim (Bool-cases (r.company_id == c && r.record_id == i)) [
  | inr other ↦ keyed c i x (
      ap (λ b. if b then some r else get_record s c i) (sym other)
      ∙ sym (get_record-put r s c i)
      ∙ h)
  | inl here ↦
      let both : (r.company_id ≡ c) × (r.record_id ≡ i) =
        ground (arith, here, eq_iff r.company_id c, eq_iff r.record_id i) in
      let one : r ≡ x = cc (
        ap (λ b. if b then some r else get_record s c i) (sym here)
        ∙ sym (get_record-put r s c i)
        ∙ h) in
      subst (λ y. (y.company_id ≡ c) × (y.record_id ≡ i)) one both
]

pub get_record-set_active :
    (s : BundleStore) (company id c i : String)
    → get_record (set_active s company id).1 c i ≡ get_record s c i
unfolding set_active get_record
get_record-set_active s company id c i = elim (Option-cases (get_record s company id)) [
  | inl o ↦ rw (o, set_active)
  | inr (r, o) ↦ rw (o, set_active)
]

pub Keeps-set_active : (s : BundleStore) (company id : String) → Keeps s (set_active s company id).1
Keeps-set_active s company id c i r h =
    (r, get_record-set_active s company id c i ∙ h, (refl, refl, refl, refl))

-- The live record stands in the store.
pub active-get_record :
    (s : BundleStore) (company : String) (r : BundleRecord)
    → active s company ≡ some r
    → (id : String) × (get_record s company id ≡ some r)
unfolding active pointed
active-get_record s company r h = elim (Option-cases (Dict.lookup company s.pointers)) [
  | inl o ↦ cc (rw (o, active) at h)
  | inr (id, o) ↦ (id, ground (arith, rw (o, active) at h))
]

pub relocate :
    (s : BundleStore) (c c' i i' : String) (x : Option BundleRecord)
    → c' ≡ c
    → i' ≡ i
    → get_record s c i ≡ x
    → get_record s c' i' ≡ x
relocate s c c' i i' x e f h = cc (e, f, h)
