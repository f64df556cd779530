-- ===== src/Onboarding/TenantStore.antt =====
-- `InMemoryTenantStore` of backend/onboarding/tenants.py. The clock is an argument.
use kernl.Prelude.{
  String, Bool, true, false, ◌==◌, Option, none, some, List, [], ◌∷◌, if◌then◌else◌,
}
use kernl.Prelude.Dict.{Dict, lookup, insert, remove, contains, values}
use kernl.Prelude.Lists.{keep}
use kernl.Prelude.Sort.{sort_by, str_leb}
use kernl.Prelude.Result.{Result, ok, err}

-- ROLES
abbrev pub roles : List String
roles = "owner" ∷ "approver" ∷ "agent" ∷ []

pub record Tenant : Type 0 where
  pub company_id : String
  pub name : String
  pub created_at : String

pub record ApiKeyRecord : Type 0 where
  pub key_id : String
  pub key_hash : String
  pub company_id : String
  pub role : String
  pub created_at : String
  pub revoked_at : Option String

pub record TenantStore : Type 0 where
  pub tenants : Dict Tenant
  pub keys : Dict ApiKeyRecord
  pub by_hash : Dict String

abbrev pub no_tenants : TenantStore
no_tenants = record { tenants = []; keys = []; by_hash = [] }

-- The ValueErrors of a tenant that exists, a role that does not, and the last owner key, and the
-- KeyErrors, and an assertion that fails.
pub data TenantError : Type 0 where
  tenant_exists unknown_role last_owner unknown_tenant unknown_key assertion_error : TenantError

-- `x or y` of texts
unfoldable pub or_else : String → String → String
or_else x y = if x == "" then y else x

unfoldable pub add_tenant : Tenant → String → TenantStore → Result TenantError Tenant × TenantStore
unfolding or_else
add_tenant t now s =
    if contains t.company_id s.tenants
    then (err tenant_exists, s)
    else let stored = record t { created_at = or_else t.created_at now } in
      (ok stored, record s { tenants = insert t.company_id stored s.tenants })

unfoldable pub get_tenant : TenantStore → String → Option Tenant
get_tenant s company = lookup company s.tenants

unfoldable pub list_tenants : TenantStore → List Tenant
list_tenants s = sort_by (λ a b. str_leb a.created_at b.created_at) (values s.tenants)

unfoldable pub stored_key : ApiKeyRecord → String → ApiKeyRecord
unfolding or_else
stored_key r now = record r { created_at = or_else r.created_at now }

unfoldable pub add_key : ApiKeyRecord → String → TenantStore → ApiKeyRecord × TenantStore
unfolding stored_key
add_key r now s = (
  stored_key r now,
  record s {
    keys = insert r.key_id (stored_key r now) s.keys;
    by_hash = insert r.key_hash r.key_id s.by_hash;
  },
)

-- `revoked_at is None`
unfoldable pub is_active : ApiKeyRecord → Bool
is_active r = elim r.revoked_at [ none ↦ true | some _ ↦ false ]

unfoldable pub active_key : Option ApiKeyRecord → Option ApiKeyRecord
unfolding is_active
active_key none = none
active_key (some r) = if is_active r then some r else none

unfoldable pub find_by_hash : TenantStore → String → Option ApiKeyRecord
unfolding active_key
find_by_hash s hash = elim (lookup hash s.by_hash) [
  | none ↦ none
  | some id ↦ active_key (lookup id s.keys)
]

unfoldable pub list_keys : TenantStore → String → List ApiKeyRecord
list_keys s company = keep (λ k. k.company_id == company) (values s.keys)

unfoldable pub of_company : String → Option ApiKeyRecord → Option ApiKeyRecord
of_company company none = none
of_company company (some r) = if r.company_id == company then some r else none

unfoldable pub get_key : TenantStore → String → String → Option ApiKeyRecord
unfolding of_company
get_key s company id = of_company company (lookup id s.keys)

-- `revoke_key` of the store.
unfoldable pub revoke : TenantStore → String → String → String → Option ApiKeyRecord × TenantStore
unfolding get_key is_active
revoke s company id now = elim (get_key s company id) [
  | none ↦ (none, s)
  | some r ↦
      if is_active r
      then (
        some (record r { revoked_at = some now }),
        record s { keys = insert id (record r { revoked_at = some now }) s.keys },
      )
      else (some r, s)
]

-- `[k for k, v in self._keys.items() if v.company_id == company_id]`
unfoldable pub key_ids_of : String → Dict ApiKeyRecord → List String
key_ids_of company [] = []
key_ids_of company ((id, r) ∷ d) =
    let rest = key_ids_of company d in if r.company_id == company then id ∷ rest else rest

unfoldable pub pop_hash : Option ApiKeyRecord → Dict String → Dict String
pop_hash none d = d
pop_hash (some r) d = remove r.key_hash d

-- The loop of `delete_tenant`.
unfoldable pub pop_keys : List String → TenantStore → TenantStore
unfolding pop_hash
pop_keys [] s = s
pop_keys (id ∷ ids) s =
    pop_keys ids
      (record s { keys = remove id s.keys; by_hash = pop_hash (lookup id s.keys) s.by_hash })

unfoldable pub delete_tenant : TenantStore → String → Bool × TenantStore
unfolding key_ids_of pop_keys
delete_tenant s company =
    if contains company s.tenants
    then (
      true,
      pop_keys (key_ids_of company s.keys) (record s { tenants = remove company s.tenants }),
    )
    else (false, s)
