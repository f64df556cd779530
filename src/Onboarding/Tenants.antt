-- ===== src/Onboarding/Tenants.antt =====
-- `TenantService` of backend/onboarding/tenants.py. The random texts and the clock are arguments;
-- SHA-256 is that of `Hashing`.
use Prim.Native.String.{◌++◌ as str_append}
use kernl.Prelude.{String, Bool, ◌&&◌, ◌==◌, leb, Option, none, some, List, if◌then◌else◌}
use kernl.Prelude.Lists.{length, keep, elem}
use kernl.Prelude.Result.{Result, ok, err}
use kernl.Canonical.{Hashing}
use kernl.Onboarding.TenantStore.{
  roles, Tenant, ApiKeyRecord, TenantStore, TenantError, add_tenant, get_tenant, add_key, is_active,
  find_by_hash, list_keys, get_key, revoke, unknown_role, last_owner, unknown_tenant, unknown_key,
  assertion_error,
}

module _ (h : Hashing) where
  -- The text of `generate_key`, the digits of the id, and the time.
  unfoldable pub new_key : String → String → String → String → ApiKeyRecord
  new_key company role plaintext token = record {
    key_id = str_append "key_" token;
    key_hash = h.sha256 plaintext;
    company_id = company;
    role = role;
    created_at = "";
    revoked_at = none;
  }

  -- `issue_key`
  unfoldable pub issue_key :
      String
      → String
      → String
      → String
      → String
      → TenantStore
      → Result TenantError (ApiKeyRecord × String) × TenantStore
  unfolding new_key add_key get_tenant
  issue_key company role plaintext token now s =
      if elem role roles
      then elim (get_tenant s company) [
        | none ↦ (err unknown_tenant, s)
        | some _ ↦
            let (r, t) = add_key (new_key company role plaintext token) now s in
            (ok (r, plaintext), t)
      ]
      else (err unknown_role, s)

  unfoldable pub with_owner :
      Tenant
      → Result TenantError (ApiKeyRecord × String) × TenantStore
      → Result TenantError (Tenant × String) × TenantStore
  with_owner t (err e, s) = (err e, s)
  with_owner t (ok (_, plaintext), s) = (ok (t, plaintext), s)

  unfoldable pub then_owner :
      String
      → String
      → String
      → String
      → Result TenantError Tenant × TenantStore
      → Result TenantError (Tenant × String) × TenantStore
  unfolding issue_key with_owner
  then_owner company plaintext token now (err e, s) = (err e, s)
  then_owner company plaintext token now (ok t, s) =
      with_owner t (issue_key company "owner" plaintext token now s)

  unfoldable pub provision :
      String
      → String
      → String
      → String
      → String
      → TenantStore
      → Result TenantError (Tenant × String) × TenantStore
  unfolding add_tenant then_owner
  provision company name plaintext token now s =
      then_owner company plaintext token now
        (add_tenant (record { company_id = company; name = name; created_at = "" }) now s)

  unfoldable pub resolve_key : TenantStore → String → Option ApiKeyRecord
  unfolding find_by_hash
  resolve_key s plaintext = find_by_hash s (h.sha256 plaintext)

-- An owner's key that is not revoked.
unfoldable pub is_owner : ApiKeyRecord → Bool
unfolding is_active
is_owner k = k.role == "owner" && is_active k

unfoldable pub active_owners : TenantStore → String → List ApiKeyRecord
unfolding list_keys is_owner
active_owners s company = keep is_owner (list_keys s company)

-- What the assertion at the end of `revoke_key` checks.
unfoldable pub or_assert :
    Option ApiKeyRecord × TenantStore → Result TenantError ApiKeyRecord × TenantStore
or_assert (none, s) = (err assertion_error, s)
or_assert (some r, s) = (ok r, s)

-- `revoke_key` of the service.
unfoldable pub revoke_key :
    TenantStore → String → String → String → Result TenantError ApiKeyRecord × TenantStore
unfolding get_key active_owners revoke or_assert
revoke_key s company id now = elim (get_key s company id) [
  | none ↦ (err unknown_key, s)
  | some r ↦
      if is_owner r && leb (length (active_owners s company)) 1
      then (err last_owner, s)
      else or_assert (revoke s company id now)
]
