-- ===== src/Onboarding/Revoked.antt =====
-- What the revocation of a key does to the texts that resolve to a key.
use kernl.Prelude.{
  ◌≡◌, refl, ap, subst, String, Bool, false, ◌&&◌, ◌==◌, leb, Option, none, some, if◌then◌else◌,
  eq_iff, inl, inr, Bool-cases, Option-cases,
}
use kernl.Prelude.Dict.{lookup, lookup-insert}
use kernl.Prelude.Lists.{length}
use kernl.Prelude.Result.{Result, ok}
use kernl.Canonical.{Hashing}
use kernl.Onboarding.TenantStore.{
  ApiKeyRecord, TenantStore, TenantError, is_active, get_key, revoke, find_by_hash, active_key,
}
use kernl.Onboarding.Tenants.{is_owner, active_owners, revoke_key, or_assert, resolve_key}
use kernl.Onboarding.Managed.{of_company-some}

-- The store knows the digest as that of the key.
abbrev pub names_key : String → Option String → Bool
names_key id none = false
names_key id (some j) = id == j

-- The key is there and revoked; no other key and no digest has changed.
abbrev IsRevoked : TenantStore → String → TenantStore → Type 0
IsRevoked s id t =
    (r : ApiKeyRecord) × (is_active r ≡ false)
    × ((j : String) → lookup j t.keys ≡ (if id == j then some r else lookup j s.keys))
    × (t.by_hash ≡ s.by_hash)

revoke-IsRevoked :
    (s : TenantStore) (company id now : String) (r : ApiKeyRecord)
    → get_key s company id ≡ some r
    → IsRevoked s id (revoke s company id now).1
unfolding revoke get_key is_active
revoke-IsRevoked s company id now r o = elim (Bool-cases (is_active r)) [
  | inl live ↦
      rw (o, revoke, live)
        (record r { revoked_at = some now }, refl, (λ j. lookup-insert id j _ s.keys), refl)
  | inr over ↦
      let (there, _) = of_company-some company (lookup id s.keys) r o in
      rw (o, revoke, over)
        (
          r,
          over,
          (λ j. elim (Bool-cases (id == j)) [
            | inl e ↦ rw e (subst (λ k. lookup k s.keys ≡ some r) ((eq_iff id j).0 e) there)
            | inr e ↦ rw e refl
          ]),
          refl,
        )
]

or_assert-ok :
    (p : Option ApiKeyRecord × TenantStore) (r : ApiKeyRecord) (t : TenantStore)
    → or_assert p ≡ (ok r, t)
    → p.1 ≡ t
unfolding or_assert
or_assert-ok (none, s) r t e = cc (ap (λ y. y.0) e)
or_assert-ok (some x, s) r t e = ap (λ y. y.1) e

revoke_key-ok :
    (s s' : TenantStore) (company id now : String) (r : ApiKeyRecord)
    → revoke_key s company id now ≡ (ok r, s')
    → (x : ApiKeyRecord) × (get_key s company id ≡ some x) × ((revoke s company id now).1 ≡ s')
unfolding revoke_key or_assert
revoke_key-ok s s' company id now r done = elim (Option-cases (get_key s company id)) [
  | inl o ↦
      cc (
        ap (λ (y : Result TenantError ApiKeyRecord × TenantStore). y.0)
          (rw (o, revoke_key) at done))
  | inr (x, o) ↦ elim (Bool-cases (is_owner x && leb (length (active_owners s company)) 1)) [
    | inl last ↦ cc (
        ap (λ (y : Result TenantError ApiKeyRecord × TenantStore). y.0)
          (rw (o, last, revoke_key) at done))
    | inr safe ↦ (x, o, or_assert-ok _ r s' (rw (o, safe, revoke_key) at done))
  ]
]

module _ (h : Hashing) where
  -- A `revoke_key` that returns takes exactly that key away: a text whose digest names the key resolves
  -- to none from then on, and every other text resolves as it did before.
  pub resolve_key-revoked :
      (s s' : TenantStore) (company id now plaintext : String) (r : ApiKeyRecord)
      → revoke_key s company id now ≡ (ok r, s')
      → resolve_key h s' plaintext ≡ (
          if names_key id (lookup (h.sha256 plaintext) s.by_hash)
          then none
          else resolve_key h s plaintext)
  unfolding resolve_key find_by_hash active_key
  resolve_key-revoked s s' company id now plaintext r done =
      let (x, o, same) = revoke_key-ok s s' company id now r done in
      let (y, dead, keys, hashes) =
        subst (IsRevoked s id) same (revoke-IsRevoked s company id now x o) in
      elim (Option-cases (lookup (h.sha256 plaintext) s.by_hash)) [
        | inl n ↦ rw (hashes, n, resolve_key, find_by_hash) refl
        | inr (j, n) ↦ elim (Bool-cases (id == j)) [
          | inl e ↦ rw (hashes, n, resolve_key, find_by_hash, keys j, e, active_key, dead) refl
          | inr e ↦ rw (hashes, n, resolve_key, find_by_hash, keys j, e) refl
        ]
      ]
