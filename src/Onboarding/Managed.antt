-- ===== src/Onboarding/Managed.antt =====
-- Each call of the service leaves every tenant an owner key that is not revoked.
use Prim.Native.String.{◌++◌ as str_append}
use kernl.Prelude.{
  ◌≡◌, refl, sym, ap, subst, ◌≤◌, ◌<◌, ℕ, String, true, false, ◌&&◌, ◌==◌, leb, Option, none, some,
  arith, eq_iff, inl, inr, Bool-cases, Option-cases,
}
use kernl.Prelude.Dict.{
  lookup, insert, remove, contains, lookup-insert, lookup-insert_self, lookup-remove,
}
use kernl.Prelude.Lists.{length, elem}
use kernl.Canonical.{Hashing}
use kernl.Onboarding.TenantStore.{
  Tenant, ApiKeyRecord, TenantStore, add_tenant, get_tenant, stored_key, or_else, add_key,
  is_active, list_keys, get_key, of_company, revoke, key_ids_of, delete_tenant, roles,
}
use kernl.Onboarding.Tenants.{
  is_owner, active_owners, revoke_key, or_assert, new_key, issue_key, with_owner, then_owner,
  provision,
}
use kernl.Onboarding.Owners.{
  owner_count, share, share_of, owner_count-insert, IsUnique, insert-IsUnique, pop_keys-counts,
  pop_keys-keeps, key_ids_of-others,
}

-- Each key stands once, and every tenant has an owner key that is not revoked.
abbrev pub IsManaged : TenantStore → Type 0
IsManaged s =
    IsUnique s.keys × ((c : String) → contains c s.tenants ≡ true → 1 ≤ length (active_owners s c))

module _ (h : Hashing) where
  add_key-IsManaged :
      (company role plaintext token now : String) (s : TenantStore)
      → lookup (str_append "key_" token) s.keys ≡ none
      → IsManaged s
      → IsManaged (add_key (new_key h company role plaintext token) now s).1
  unfolding add_key active_owners list_keys new_key
  add_key-IsManaged company role plaintext token now s fresh (u, owned) =
      let r = stored_key (new_key h company role plaintext token) now in
      (
        insert-IsUnique (str_append "key_" token) r s.keys u,
        λ c t.
            let more = owner_count-insert c (str_append "key_" token) r s.keys in
            let nothing = ap (share_of c) fresh in omega (arith, owned c t, more, nothing),
      )

  pub issue_key-IsManaged :
      (company role plaintext token now : String) (s : TenantStore)
      → lookup (str_append "key_" token) s.keys ≡ none
      → IsManaged s
      → IsManaged (issue_key h company role plaintext token now s).1
  unfolding issue_key
  issue_key-IsManaged company role plaintext token now s fresh good =
      elim (Bool-cases (elem role roles)) [
        | inr unknown ↦ rw (unknown, issue_key) good
        | inl known ↦ elim (Option-cases (get_tenant s company)) [
          | inl o ↦ rw (known, o, issue_key) good
          | inr (t, o) ↦
              rw (known, o, issue_key)
                (add_key-IsManaged company role plaintext token now s fresh good)
        ]
      ]

  -- A new tenant has the owner key that it is given.
  add_owner-IsManaged :
      (company plaintext token now : String) (t : Tenant) (s : TenantStore)
      → lookup (str_append "key_" token) s.keys ≡ none
      → IsManaged s
      → IsManaged
          (add_key
            (new_key h company "owner" plaintext token)
            now
            (record s { tenants = insert company t s.tenants })).1
  unfolding add_key active_owners list_keys new_key is_owner is_active stored_key
  add_owner-IsManaged company plaintext token now t s fresh (u, owned) =
      let r = stored_key (new_key h company "owner" plaintext token) now in
      (
        insert-IsUnique (str_append "key_" token) r s.keys u,
        λ c there.
            let more = owner_count-insert c (str_append "key_" token) r s.keys in
            elim (Bool-cases (company == c)) [
              | inl same ↦
                  let one : share c r ≡ 1 = rw same refl in
                  omega (arith, more, ap (share_of c) fresh, one)
              | inr other ↦
                  let before = owned c (rw (lookup-insert company c t s.tenants, other) at there) in
                  omega (arith, before, more, ap (share_of c) fresh)
            ],
      )

  pub provision-IsManaged :
      (company name plaintext token now : String) (s : TenantStore)
      → lookup (str_append "key_" token) s.keys ≡ none
      → IsManaged s
      → IsManaged (provision h company name plaintext token now s).1
  unfolding provision add_tenant then_owner
  provision-IsManaged company name plaintext token now s fresh good =
      elim (Bool-cases (contains company s.tenants)) [
        | inl known ↦ rw (known, provision, add_tenant, then_owner) good
        | inr new ↦
            let t : Tenant = record {
              company_id = company;
              name = name;
              created_at = or_else "" now;
            } in
            let s1 : TenantStore = record s { tenants = insert company t s.tenants } in
            let made : (provision h company name plaintext token now s).1
                ≡ (add_key (new_key h company "owner" plaintext token) now s1).1 =
              rw
                (
                  new,
                  provision,
                  add_tenant,
                  then_owner,
                  issue_key,
                  get_tenant,
                  lookup-insert_self company t s.tenants,
                  with_owner,
                )
                refl in
            subst IsManaged (sym made)
              (add_owner-IsManaged company plaintext token now t s fresh good)
      ]

pub of_company-some :
    (company : String) (o : Option ApiKeyRecord) (r : ApiKeyRecord)
    → of_company company o ≡ some r
    → (o ≡ some r) × (r.company_id ≡ company)
unfolding of_company
of_company-some company none r e = cc e
of_company-some company (some x) r e = ground (arith, eq_iff x.company_id company)

not-leb→lt : (n m : ℕ) → leb n m ≡ false → m < n
not-leb→lt n m e = ground arith

-- The record with its revocation is no owner's active key.
share-revoked :
    (c now : String) (r : ApiKeyRecord) → share c (record r { revoked_at = some now }) ≡ 0
unfolding is_owner is_active
share-revoked c now r = ground arith

revoked-IsManaged :
    (s : TenantStore) (company id now : String) (r : ApiKeyRecord)
    → get_key s company id ≡ some r
    → is_owner r && leb (length (active_owners s company)) 1 ≡ false
    → IsManaged s
    → IsManaged (record s { keys = insert id (record r { revoked_at = some now }) s.keys })
unfolding get_key active_owners list_keys
revoked-IsManaged s company id now r found safe (u, owned) =
    let (there, own) = of_company-some company (lookup id s.keys) r found in
    (
      insert-IsUnique id (record r { revoked_at = some now }) s.keys u,
      λ c t.
          let less = owner_count-insert c id (record r { revoked_at = some now }) s.keys in
          let had = ap (share_of c) there in
          let nothing = share-revoked c now r in
          let before = owned c t in
          elim (Bool-cases (company == c)) [
            | inr other ↦
                let zero_ : share c r ≡ 0 = rw (own, other) refl in
                omega (arith, before, less, had, nothing, zero_)
            | inl same ↦ elim (Bool-cases (is_owner r)) [
              | inr plain ↦
                  let none_ : share c r ≡ 0 = rw (own, same, plain) refl in
                  omega (arith, before, less, had, nothing, none_)
              | inl owner ↦
                  let two = not-leb→lt (length (active_owners s company)) 1 (rw owner at safe) in
                  let many : 1 < owner_count c s.keys =
                    subst (λ x. 1 < owner_count x s.keys) ((eq_iff company c).0 same) two in
                  let one : share c r ≡ 1 = rw (own, same, owner) refl in
                  omega (arith, many, less, had, nothing, one)
            ]
          ],
    )

revoke-IsManaged :
    (s : TenantStore) (company id now : String) (r : ApiKeyRecord)
    → get_key s company id ≡ some r
    → is_owner r && leb (length (active_owners s company)) 1 ≡ false
    → IsManaged s
    → IsManaged (or_assert (revoke s company id now)).1
unfolding revoke or_assert
revoke-IsManaged s company id now r o safe good = elim (Bool-cases (is_active r)) [
  | inr over ↦ rw (o, revoke, over, or_assert) good
  | inl live ↦ rw (o, revoke, live, or_assert) (revoked-IsManaged s company id now r o safe good)
]

-- A revocation leaves an active owner key: the last one is refused.
pub revoke_key-IsManaged :
    (s : TenantStore) (company id now : String)
    → IsManaged s
    → IsManaged (revoke_key s company id now).1
unfolding revoke_key
revoke_key-IsManaged s company id now good = elim (Option-cases (get_key s company id)) [
  | inl o ↦ rw (o, revoke_key) good
  | inr (r, o) ↦ elim (Bool-cases (is_owner r && leb (length (active_owners s company)) 1)) [
    | inl last ↦ rw (o, last, revoke_key) good
    | inr safe ↦ rw (o, safe, revoke_key) (revoke-IsManaged s company id now r o safe good)
  ]
]

pub delete_tenant-IsManaged :
    (s : TenantStore) (company : String) → IsManaged s → IsManaged (delete_tenant s company).1
unfolding delete_tenant active_owners list_keys
delete_tenant-IsManaged s company (u, owned) = elim (Bool-cases (contains company s.tenants)) [
  | inr unknown ↦ rw (unknown, delete_tenant) (u, owned)
  | inl known ↦
      let s1 : TenantStore = record s { tenants = remove company s.tenants } in
      let ids = key_ids_of company s.keys in
      let (unique, left) = pop_keys-keeps ids s1 u in
      rw (known, delete_tenant)
        (
          unique,
          λ c t. elim (Bool-cases (company == c)) [
            | inl same ↦ cc (rw (left, lookup-remove company c s.tenants, same) at t)
            | inr other ↦
                let before = owned c (rw (left, lookup-remove company c s.tenants, other) at t) in
                let same =
                  pop_keys-counts c ids s1 u (key_ids_of-others c company s.keys u other) in
                omega (arith, before, same)
          ],
        )
]
