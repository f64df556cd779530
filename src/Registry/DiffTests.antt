-- ===== src/Registry/DiffTests.antt =====
-- The diff of the small bundle and one with another rationale.
use kernl.Prelude.{◌≡◌, refl, ◌≢◌, ◌+◌, some, [], ◌∷◌}
use kernl.Prelude.Dict
use kernl.Prelude.Lists.{In, length}
use kernl.Prelude.Sort.{sort_by}
use kernl.Prelude.Result.{Result, ok, err}
use kernl.Canonical.{CanonicalError, content_hash, canonical_json, normalize}
use kernl.Schema.{Bundle}
use kernl.Evaluator.Sample.{bundle, small, fraud}
use kernl.Ledger.Sample.{digest}
use kernl.Replay.Sample.{plain_dumps}
use kernl.Registry.Lifecycle.{bundle_content_hash}
use kernl.Registry.Same.{
  same_policy, same_field, same_items, same_condition, same_evidence, same_effect, same_authority,
  same_value, same_scalar,
}
use kernl.Registry.Diff.{
  PolicyChange, BundleDiff, policy_map, added_of, removed_of, modified_of, unchanged_in,
  changed_fields, modification, hash_or_none, diff_bundles,
}
use kernl.Registry.Changes.{FindsChanges, diff_bundles-accounts}

abbrev revised : Bundle
revised = record bundle { policies = record small { rationale = "new" } ∷ fraud ∷ [] }

found : Result CanonicalError BundleDiff
unfolding diff_bundles hash_or_none bundle_content_hash content_hash canonical_json normalize
    policy_map added_of removed_of modified_of unchanged_in changed_fields same_policy same_field
    same_items same_condition same_evidence same_effect same_authority same_value same_scalar
    modification Dict.lookup Dict.insert sort_by
found = diff_bundles digest plain_dumps (some bundle) revised

abbrev given : Result CanonicalError BundleDiff → BundleDiff
given (ok r) = r
given (err e) = record {
  from_hash = some "";
  to_hash = "";
  added = [];
  removed = [];
  modified = [];
  unchanged_count = 0;
}

found_returns : diff_bundles digest plain_dumps (some bundle) revised ≡ ok (given found)
unfolding found
found_returns = refl

one_is_modified : length (given found).modified ≡ 1
unfolding found
one_is_modified = refl

diff_bundles-accounts_example :
    (length (given found).added + length (given found).modified + (given found).unchanged_count
      ≡ length (policy_map (some revised)))
    × ((c : PolicyChange) → In c (given found).modified → c.changed_fields ≢ [])
    × FindsChanges (policy_map (some bundle)) (policy_map (some revised)) (given found).modified
diff_bundles-accounts_example =
    diff_bundles-accounts digest plain_dumps (some bundle) revised (given found) found_returns
