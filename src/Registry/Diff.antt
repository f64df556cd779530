-- ===== src/Registry/Diff.antt =====
-- The diff of two bundles, backend/bundle/diff.py.
use kernl.Prelude.{ℕ, suc, String, not, Option, none, some, List, [], ◌∷◌, if◌then◌else◌}
use kernl.Prelude.Dict.{Dict, lookup, contains}
use kernl.Prelude.Lists.{keep}
use kernl.Prelude.Result.{Result, ok, ◌>>=◌}
use kernl.Canonical.{Hashing, CanonicalError}
use kernl.Schema.{Policy, Bundle}
use kernl.Schema.Integrity.{index_policies}
use kernl.Registry.Same.{same_field, same_policy}
use kernl.Registry.Lifecycle.{BundleDumps, bundle_content_hash}

pub record PolicyChange : Type 0 where
  pub policy_id : String
  pub workflow : String
  pub change : String
  pub before : Option Policy
  pub after : Option Policy
  pub changed_fields : List String

pub record BundleDiff : Type 0 where
  pub from_hash : Option String
  pub to_hash : String
  pub added : List PolicyChange
  pub removed : List PolicyChange
  pub modified : List PolicyChange
  pub unchanged_count : ℕ

-- _COMPARE_FIELDS: all fields of a policy but its id.
abbrev pub compare_fields : List String
compare_fields =
    "effect" ∷ "priority" ∷ "conditions" ∷ "authority" ∷ "evidence" ∷ "overrides"
    ∷ "unconditional_ack" ∷ "rationale" ∷ "workflow" ∷ []

-- `{p.id: p for p in before.policies} if before else {}`
unfoldable pub policy_map : Option Bundle → Dict Policy
policy_map none = []
policy_map (some b) = index_policies b.policies []

-- The policies of the first dict that the second has not: `added`, and the other way round `removed`.
unfoldable pub added_of : Dict Policy → Dict Policy → List PolicyChange
added_of old [] = []
added_of old ((id, p) ∷ d) =
    let rest = added_of old d in
    if contains id old
    then rest
    else record {
      policy_id = id;
      workflow = p.workflow;
      change = "added";
      before = none;
      after = some p;
      changed_fields = [];
    }
      ∷ rest

unfoldable pub removed_of : Dict Policy → Dict Policy → List PolicyChange
removed_of new [] = []
removed_of new ((id, p) ∷ d) =
    let rest = removed_of new d in
    if contains id new
    then rest
    else record {
      policy_id = id;
      workflow = p.workflow;
      change = "removed";
      before = some p;
      after = none;
      changed_fields = [];
    }
      ∷ rest

unfoldable pub changed_fields : Policy → Policy → List String
unfolding same_field
changed_fields p q = keep (λ f. not (same_field f p q)) compare_fields

unfoldable pub modification : String → Policy → Policy → PolicyChange
unfolding changed_fields
modification id p q = record {
  policy_id = id;
  workflow = q.workflow;
  change = "modified";
  before = some p;
  after = some q;
  changed_fields = changed_fields p q;
}

unfoldable pub modified_of : Dict Policy → Dict Policy → List PolicyChange
unfolding same_policy modification
modified_of old [] = []
modified_of old ((id, q) ∷ d) =
    let rest = modified_of old d in
    elim (lookup id old) [
      | none ↦ rest
      | some p ↦ if same_policy p q then rest else modification id p q ∷ rest
    ]

unfoldable pub unchanged_in : Dict Policy → Dict Policy → ℕ
unfolding same_policy
unchanged_in old [] = 0
unchanged_in old ((id, q) ∷ d) =
    let rest = unchanged_in old d in
    elim (lookup id old) [ none ↦ rest | some p ↦ if same_policy p q then suc rest else rest ]

module _ (h : Hashing) (dumps : BundleDumps) where
  unfoldable pub hash_or_none : Option Bundle → Result CanonicalError (Option String)
  hash_or_none none = ok none
  hash_or_none (some b) = bundle_content_hash h dumps b >>= λ x. ok (some x)

  unfoldable pub diff_bundles : Option Bundle → Bundle → Result CanonicalError BundleDiff
  unfolding policy_map added_of removed_of modified_of unchanged_in hash_or_none
  diff_bundles before after =
      let old = policy_map before in
      let new = policy_map (some after) in
      hash_or_none before >>= λ x. bundle_content_hash h dumps after >>= λ y. ok (record {
        from_hash = x;
        to_hash = y;
        added = added_of old new;
        removed = removed_of new old;
        modified = modified_of old new;
        unchanged_count = unchanged_in old new;
      })
