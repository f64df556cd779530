-- ===== src/Onboarding/Tests.antt =====
-- A tenant with an owner and an agent, and a document that is quoted.
use Prim.Native.String.{◌++◌ as str_append}
use kernl.Prelude.{◌≡◌, refl, ◌+◌, String, false, ◌==◌, none, some, if◌then◌else◌}
use kernl.Prelude.Dict.{lookup, insert}
use kernl.Prelude.Result.{Result, ok, err}
use kernl.Python.{pos}
use kernl.Python.Text.{strip, prefix}
use kernl.Schema.Validate.{check_evidence}
use kernl.Evaluator.Sample.{plain}
use kernl.Ledger.Sample.{digest}
use kernl.Onboarding.TenantStore.{
  ApiKeyRecord, TenantStore, TenantError, no_tenants, add_tenant, add_key, stored_key, or_else,
  get_tenant, get_key, of_company, revoke, list_keys, is_active, last_owner,
}
use kernl.Onboarding.Tenants.{
  provision, then_owner, issue_key, with_owner, new_key, revoke_key, or_assert, active_owners,
  is_owner, resolve_key,
}
use kernl.Onboarding.Managed.{IsManaged}
use kernl.Onboarding.Lockout.{Reachable, start, provisioned, issued, revoked, Reachable-IsManaged}
use kernl.Onboarding.Revoked.{names_key, resolve_key-revoked}
use kernl.Onboarding.Sources.{
  SourceSnapshot, make_snapshot, text_hash, slice, suffix, str_length, cited, ground_evidence,
  span_of, validated,
}
use kernl.Onboarding.Grounding.{ground_evidence-quotes, ground_evidence_returns}

-- A company with its first owner key.
founded : TenantStore
unfolding provision add_tenant then_owner issue_key with_owner add_key new_key stored_key or_else
    get_tenant lookup insert
founded = (provision digest "acme" "Acme" "kk_a" "01" "t0" no_tenants).1

-- The same company with a second owner key.
staffed : TenantStore
unfolding founded
staffed = (issue_key digest "acme" "owner" "kk_b" "02" "t1" founded).1

staffed_is_made : Reachable digest staffed
unfolding staffed lookup
staffed_is_made =
    issued founded "acme" "owner" "kk_b" "02" "t1" refl
      (provisioned no_tenants "acme" "Acme" "kk_a" "01" "t0" refl start)

Reachable-IsManaged_example : IsManaged (revoke_key staffed "acme" "key_01" "t2").1
Reachable-IsManaged_example =
    Reachable-IsManaged digest (revoke_key staffed "acme" "key_01" "t2").1
      (revoked staffed "acme" "key_01" "t2" staffed_is_made)

-- The first key is revoked; then the second is the last one.
after : Result TenantError ApiKeyRecord × TenantStore
unfolding staffed revoke_key get_key of_company revoke or_assert active_owners list_keys is_owner
    is_active
after = revoke_key staffed "acme" "key_01" "t2"

abbrev first_key : ApiKeyRecord
first_key = record {
  key_id = "key_01";
  key_hash = "kk_a";
  company_id = "acme";
  role = "owner";
  created_at = "t0";
  revoked_at = some "t2";
}

after_is : revoke_key staffed "acme" "key_01" "t2" ≡ (ok first_key, after.1)
unfolding after
after_is = refl

last_is_refused : revoke_key after.1 "acme" "key_02" "t3" ≡ (err last_owner, after.1)
unfolding after
last_is_refused = refl

resolve_key-revoked_example : resolve_key digest after.1 "kk_a" ≡ (
    if names_key "key_01" (lookup "kk_a" staffed.by_hash)
    then none
    else resolve_key digest staffed "kk_a")
resolve_key-revoked_example =
    resolve_key-revoked digest staffed after.1 "acme" "key_01" "t2" "kk_a" first_key after_is

abbrev document : SourceSnapshot
document = make_snapshot digest "acme" "refunds.md" "Pay small claims."

small_is_grounded :
    ground_evidence plain document (pos 4) (pos 9) "small" ≡ ok (cited document 4 9 "small")
unfolding ground_evidence span_of str_length slice suffix prefix make_snapshot text_hash strip
    check_evidence validated cited
small_is_grounded = refl

ground_evidence-quotes_example :
    (before after : String) × (document.content ≡ str_append before (str_append "small" after))
    × (4 ≡ str_length before)
    × (9 ≡ str_length before + str_length "small")
    × (pos 4 ≡ pos 4)
    × (pos 9 ≡ pos 9)
    × (cited document 4 9 "small" ≡ cited document 4 9 "small")
unfolding cited
ground_evidence-quotes_example =
    ground_evidence-quotes plain document (pos 4) (pos 9) "small" (cited document 4 9 "small")
      small_is_grounded

claims_is_full : (strip plain "claims" == "") ≡ false
unfolding strip
claims_is_full = refl

ground_evidence_returns_example :
    ground_evidence plain document
      (pos (str_length "Pay small "))
      (pos (str_length "Pay small " + str_length "claims"))
      "claims"
    ≡ ok (
        cited document
          (str_length "Pay small ")
          (str_length "Pay small " + str_length "claims")
          "claims")
unfolding make_snapshot
ground_evidence_returns_example =
    ground_evidence_returns plain document "Pay small " "." "claims" refl claims_is_full
