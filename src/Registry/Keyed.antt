-- ===== src/Registry/Keyed.antt =====
-- Each record stands under its own company and id, in every registry that the lifecycle makes.
use kernl.Prelude.{
  sym, ◌∙◌, inl, inr, String, ◌==◌, Option, none, some, [], Bool-cases, Option-cases,
}
use kernl.Prelude.PairDict
use kernl.Prelude.Result.{Result, ok, err}
use kernl.Canonical.{Hashing, CanonicalError}
use kernl.Schema.{Bundle}
use kernl.Replay.Runs.{ReplayRun, RunStore, latest_acknowledged_for}
use kernl.Registry.Store.{
  published, retired, BundleRecord, BundleStore, put, get_record, by_hash, active, set_active,
}
use kernl.Registry.Lifecycle.{
  BundleDumps, Signing, bundle_content_hash, new_draft, file_draft, save_draft, publication,
  retire_active, publish_gated, publish_record, publish, retire_other, activate_record, activate,
}
use kernl.Registry.Content.{IsKeyed, IsKeyed-put, get_record-set_active}
use kernl.Registry.Immutable.{pointed_to-store, restored-store}

pub IsKeyed-nothing : IsKeyed (record { rows = []; pointers = [] })
unfolding get_record PairDict.lookup
IsKeyed-nothing c i r h = cc h

IsKeyed-set_active :
    (s : BundleStore) (company id : String) → IsKeyed s → IsKeyed (set_active s company id).1
IsKeyed-set_active s company id keyed c i r h =
    keyed c i r (sym (get_record-set_active s company id c i) ∙ h)

IsKeyed-retire_active :
    (a : Option BundleRecord) (s : BundleStore) → IsKeyed s → IsKeyed (retire_active a s)
unfolding retire_active
IsKeyed-retire_active none s keyed = keyed
IsKeyed-retire_active (some r) s keyed = IsKeyed-put (record r { status = retired }) s keyed

IsKeyed-retire_other :
    (a : Option BundleRecord) (r : BundleRecord) (s : BundleStore)
    → IsKeyed s
    → IsKeyed (retire_other a r s)
unfolding retire_other
IsKeyed-retire_other none r s keyed = keyed
IsKeyed-retire_other (some live) r s keyed = elim (Bool-cases (live.record_id == r.record_id)) [
  | inl same ↦ rw (same, retire_other) keyed
  | inr other ↦ rw (other, retire_other) (IsKeyed-put (record live { status = retired }) s keyed)
]

file_draft-IsKeyed :
    (hash : Result CanonicalError String) (s : BundleStore) (company : String) (b : Bundle)
    (by id now : String)
    → IsKeyed s
    → IsKeyed (file_draft hash s company b by id now).1
unfolding file_draft
file_draft-IsKeyed (err e) s company b by id now keyed = keyed
file_draft-IsKeyed (ok hash) s company b by id now keyed =
    elim (Option-cases (by_hash s company hash)) [
      | inl o ↦ rw (o, file_draft) (IsKeyed-put (new_draft company hash b by id now) s keyed)
      | inr (old, o) ↦ rw (o, file_draft) keyed
    ]

publish_gated-IsKeyed :
    (sign : Signing) (gate : Option ReplayRun) (s : BundleStore) (company : String)
    (r : BundleRecord) (by now : String)
    → IsKeyed s
    → IsKeyed (publish_gated sign gate s company r by now).1
unfolding publish_gated
publish_gated-IsKeyed sign none s company r by now keyed = keyed
publish_gated-IsKeyed sign (some g) s company r by now keyed =
    let p = publication sign r g by now in
    let t = retire_active (active s company) (put p s) in
    rw (pointed_to-store (set_active t company p.record_id) p) (
      IsKeyed-set_active t company p.record_id
        (IsKeyed-retire_active (active s company) (put p s) (IsKeyed-put p s keyed)))

publish-IsKeyed :
    (sign : Signing) (runs : RunStore) (s : BundleStore) (company id by now : String)
    → IsKeyed s
    → IsKeyed (publish sign runs s company id by now).1
unfolding publish publish_record
publish-IsKeyed sign runs s company id by now keyed =
    elim (Option-cases (get_record s company id)) [
      | inl o ↦ rw (o, publish) keyed
      | inr (r, o) ↦
          let gated =
            publish_gated-IsKeyed sign (latest_acknowledged_for runs company r.content_hash) s
              company r by now keyed in
          elim (Option-cases (active s company)) [
            | inl a ↦ rw (o, publish, a, publish_record) gated
            | inr (live, a) ↦ elim (Bool-cases (live.content_hash == r.content_hash)) [
              | inl same ↦ rw (o, publish, a, publish_record, same) keyed
              | inr other ↦ rw (o, publish, a, publish_record, other) gated
            ]
          ]
    ]

activate_record-IsKeyed :
    (once : Option String) (s : BundleStore) (company id : String) (r : BundleRecord)
    → IsKeyed s
    → IsKeyed (activate_record once s company r id).1
unfolding activate_record
activate_record-IsKeyed none s company id r keyed = keyed
activate_record-IsKeyed (some when) s company id r keyed =
    let q = record r { status = published } in
    let t = retire_other (active s company) r s in
    rw (restored-store (set_active (put q t) company id)) (
      IsKeyed-set_active (put q t) company id
        (IsKeyed-put q t (IsKeyed-retire_other (active s company) r s keyed)))

activate-IsKeyed :
    (s : BundleStore) (company id : String) → IsKeyed s → IsKeyed (activate s company id).1
unfolding activate
activate-IsKeyed s company id keyed = elim (Option-cases (get_record s company id)) [
  | inl o ↦ rw (o, activate) keyed
  | inr (r, o) ↦ rw (o, activate) (activate_record-IsKeyed r.published_at s company id r keyed)
]

module _ (h : Hashing) (dumps : BundleDumps) (sign : Signing) where
  -- The registries that calls of the lifecycle make, with any ids, times and replay runs.
  pub data Reachable : BundleStore → Type 0 where
    start : Reachable (record { rows = []; pointers = [] })
    saved :
        (s : BundleStore) (company : String) (b : Bundle) (by id now : String)
        → Reachable s
        → Reachable (save_draft h dumps s company b by id now).1
    released :
        (s : BundleStore) (runs : RunStore) (company id by now : String)
        → Reachable s
        → Reachable (publish sign runs s company id by now).1
    rolled :
        (s : BundleStore) (company id : String) → Reachable s → Reachable (activate s company id).1

  -- In every registry that calls of `save_draft`, `publish` and `activate` make from the empty one,
  -- whatever they return, each record stands under its own company and id.
  pub Reachable-IsKeyed : (s : BundleStore) → Reachable s → IsKeyed s
  unfolding save_draft
  Reachable-IsKeyed _ start = IsKeyed-nothing
  Reachable-IsKeyed _ (saved s company b by id now m) =
      file_draft-IsKeyed (bundle_content_hash h dumps b) s company b by id now
        (Reachable-IsKeyed s m)
  Reachable-IsKeyed _ (released s runs company id by now m) =
      publish-IsKeyed sign runs s company id by now (Reachable-IsKeyed s m)
  Reachable-IsKeyed _ (rolled s company id m) =
      activate-IsKeyed s company id (Reachable-IsKeyed s m)
