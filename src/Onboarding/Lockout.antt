-- ===== src/Onboarding/Lockout.antt =====
-- The stores that calls of the service make: no tenant is locked out.
use Prim.Native.String.{◌++◌ as str_append}
use kernl.Prelude.{◌≡◌, String, none}
use kernl.Prelude.Dict.{lookup}
use kernl.Canonical.{Hashing}
use kernl.Onboarding.TenantStore.{TenantStore, no_tenants, delete_tenant}
use kernl.Onboarding.Tenants.{revoke_key, issue_key, provision}
use kernl.Onboarding.Managed.{
  IsManaged, provision-IsManaged, issue_key-IsManaged, revoke_key-IsManaged,
  delete_tenant-IsManaged,
}

module _ (h : Hashing) where
  -- The stores that calls of the service make from the empty one. A random key id is a new one.
  pub data Reachable : TenantStore → Type 0 where
    start : Reachable no_tenants
    provisioned :
        (s : TenantStore) (company name plaintext token now : String)
        → lookup (str_append "key_" token) s.keys ≡ none
        → Reachable s
        → Reachable (provision h company name plaintext token now s).1
    issued :
        (s : TenantStore) (company role plaintext token now : String)
        → lookup (str_append "key_" token) s.keys ≡ none
        → Reachable s
        → Reachable (issue_key h company role plaintext token now s).1
    revoked :
        (s : TenantStore) (company id now : String)
        → Reachable s
        → Reachable (revoke_key s company id now).1
    deleted :
        (s : TenantStore) (company : String) → Reachable s → Reachable (delete_tenant s company).1

  -- No tenant is locked out: in every store that calls of `provision`, `issue_key`, `revoke_key` and
  -- `delete_tenant` make from the empty one, whatever they return, where each key gets a new id, every
  -- tenant has an owner key that is not revoked.
  pub Reachable-IsManaged : (s : TenantStore) → Reachable s → IsManaged s
  unfolding lookup
  Reachable-IsManaged _ start = (tt, λ c t. cc t)
  Reachable-IsManaged _ (provisioned s company name plaintext token now fresh m) =
      provision-IsManaged h company name plaintext token now s fresh (Reachable-IsManaged s m)
  Reachable-IsManaged _ (issued s company role plaintext token now fresh m) =
      issue_key-IsManaged h company role plaintext token now s fresh (Reachable-IsManaged s m)
  Reachable-IsManaged _ (revoked s company id now m) =
      revoke_key-IsManaged s company id now (Reachable-IsManaged s m)
  Reachable-IsManaged _ (deleted s company m) =
      delete_tenant-IsManaged s company (Reachable-IsManaged s m)
