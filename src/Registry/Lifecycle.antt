-- ===== src/Registry/Lifecycle.antt =====
-- `BundleLifecycle` of backend/bundle/lifecycle.py and `bundle_content_hash` of
-- backend/bundle/canonical.py. The ids and times that it draws are arguments.
use kernl.Prelude.{String, ◌==◌, Option, none, some, List, [], ◌∷◌, if◌then◌else◌, map}
use kernl.Prelude.Result.{Result, ok, err}
use kernl.Prelude.Sort.{sort_by, str_leb}
use kernl.Python.{Json, str, arr, obj, Items, nil, cons, end, field}
use kernl.Canonical.{Hashing, CanonicalError, content_hash}
use kernl.Schema.{Bundle, Policy, WorkflowSpec}
use kernl.Replay.Runs.{ReplayRun, RunStore, latest_acknowledged_for}
use kernl.Registry.Store.{
  draft, published, retired, BundleRecord, BundleStore, put, get_record, by_hash, active,
  set_active,
}

-- `model_dump(mode="json")` of a workflow and of a policy, which pydantic makes.
pub record BundleDumps : Type 0 where
  pub of_workflow : WorkflowSpec → Json
  pub of_policy : Policy → Json

-- `sign_content_hash`, with the key of the environment: a signature and a public key.
abbrev pub Signing : Type 0
Signing = String → Option (String × String)

-- The KeyError of an unknown record, PublishGateError, and the ValueError of a float that is not finite.
pub data LifecycleError : Type 0 where
  unknown_record gate_closed non_finite : LifecycleError

unfoldable pub items : List Json → Items
items [] = nil
items (x ∷ xs) = cons x (items xs)

unfoldable pub bundle_content_hash : Hashing → BundleDumps → Bundle → Result CanonicalError String
unfolding items
bundle_content_hash h dumps b = content_hash h (
    obj (
      field "schema_version" (str b.schema_version) (
        field "workflows" (arr (items (map dumps.of_workflow b.workflows))) (
          field "policies"
            (arr (items (map dumps.of_policy (sort_by (λ p q. str_leb p.id q.id) b.policies))))
            end))))

-- A draft, with the id and the time that it gets.
unfoldable pub new_draft : String → String → Bundle → String → String → String → BundleRecord
new_draft company hash bundle by id now = record {
  record_id = id;
  company_id = company;
  content_hash = hash;
  status = draft;
  bundle = bundle;
  created_at = now;
  created_by = by;
  published_at = none;
  published_by = none;
  replay_run_id = none;
  signature = none;
  signing_pubkey = none;
  signature_scheme = none;
}

abbrev pub Filed : Type 0
Filed = Result LifecycleError BundleRecord × BundleStore

-- `save_draft` after the hash.
unfoldable pub file_draft :
    Result CanonicalError String → BundleStore → String → Bundle → String → String → String → Filed
unfolding new_draft
file_draft (err _) s company bundle by id now = (err non_finite, s)
file_draft (ok hash) s company bundle by id now = elim (by_hash s company hash) [
  | some existing ↦ (ok existing, s)
  | none ↦ let r = new_draft company hash bundle by id now in (ok r, put r s)
]

unfoldable pub save_draft :
    Hashing → BundleDumps → BundleStore → String → Bundle → String → String → String → Filed
unfolding file_draft
save_draft h dumps s company bundle by id now =
    file_draft (bundle_content_hash h dumps bundle) s company bundle by id now

unfoldable pub signed_with : Option (String × String) → BundleRecord → BundleRecord
signed_with none r = record r { signature = none; signing_pubkey = none; signature_scheme = none }
signed_with (some (sig, key)) r = record r {
  signature = some sig;
  signing_pubkey = some key;
  signature_scheme = some "ed25519";
}

-- The copy of a record that `publish` stores.
unfoldable pub publication : Signing → BundleRecord → ReplayRun → String → String → BundleRecord
unfolding signed_with
publication sign r gate by now = signed_with (sign r.content_hash) (record r {
  status = published;
  published_at = some now;
  published_by = some by;
  replay_run_id = some gate.run_id;
})

abbrev pub retire : BundleRecord → BundleStore → BundleStore
retire r s = put (record r { status = retired }) s

-- `if active is not None: self._store.update(...)`
unfoldable pub retire_active : Option BundleRecord → BundleStore → BundleStore
retire_active none s = s
retire_active (some r) s = retire r s

-- The last line: the published record, once the pointer is set; a KeyError where it has no row.
unfoldable pub pointed_to : Option BundleRecord × BundleStore → BundleRecord → Filed
pointed_to (none, s) r = (err unknown_record, s)
pointed_to (some _, s) r = (ok r, s)

-- `publish` from the gate on.
unfoldable pub publish_gated :
    Signing → Option ReplayRun → BundleStore → String → BundleRecord → String → String → Filed
unfolding publication retire_active pointed_to
publish_gated sign none s company r by now = (err gate_closed, s)
publish_gated sign (some gate) s company r by now =
    let p = publication sign r gate by now in
    pointed_to (set_active (retire_active (active s company) (put p s)) company p.record_id) p

-- `publish` of a record that the store has.
unfoldable pub publish_record :
    Signing → RunStore → BundleStore → String → BundleRecord → String → String → Filed
unfolding publish_gated
publish_record sign runs s company r by now = elim (active s company) [
  | none ↦
      publish_gated sign (latest_acknowledged_for runs company r.content_hash) s company r by now
  | some live ↦
      if live.content_hash == r.content_hash
      then (ok live, s)
      else publish_gated sign (latest_acknowledged_for runs company r.content_hash) s company r by
          now
]

unfoldable pub publish :
    Signing → RunStore → BundleStore → String → String → String → String → Filed
unfolding publish_record
publish sign runs s company id by now = elim (get_record s company id) [
  | none ↦ (err unknown_record, s)
  | some r ↦ publish_record sign runs s company r by now
]

-- `if current is not None and current.record_id != record.record_id: self._store.update(...)`
unfoldable pub retire_other : Option BundleRecord → BundleRecord → BundleStore → BundleStore
retire_other none r s = s
retire_other (some live) r s = if live.record_id == r.record_id then s else retire live s

-- `return self._store.set_active(...)`
unfoldable pub restored : Option BundleRecord × BundleStore → Filed
restored (none, s) = (err unknown_record, s)
restored (some r, s) = (ok r, s)

-- `activate` of a record that the store has.
unfoldable pub activate_record :
    Option String → BundleStore → String → BundleRecord → String → Filed
unfolding retire_other restored
activate_record none s company r id = (err gate_closed, s)
activate_record (some _) s company r id = restored (
    set_active (put (record r { status = published }) (retire_other (active s company) r s)) company
      id)

unfoldable pub activate : BundleStore → String → String → Filed
unfolding activate_record
activate s company id = elim (get_record s company id) [
  | none ↦ (err unknown_record, s)
  | some r ↦ activate_record r.published_at s company r id
]
