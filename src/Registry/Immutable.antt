-- ===== src/Registry/Immutable.antt =====
-- Bundles are immutable: what `publish` and `activate` do to the registry.
use kernl.Prelude.{
  ◌≡◌, refl, ◌∙◌, inl, inr, String, ◌==◌, Option, none, some, Bool-cases, Option-cases,
}
use kernl.Replay.Runs.{ReplayRun, RunStore, latest_acknowledged_for}
use kernl.Registry.Store.{
  published, retired, BundleRecord, BundleStore, put, get_record, active, set_active,
}
use kernl.Registry.Lifecycle.{
  Signing, signed_with, publication, retire, retire_active, pointed_to, publish_gated,
  publish_record, publish, retire_other, restored, activate_record, activate,
}
use kernl.Registry.Content.{
  SameContent, IsKeyed, Keeps, SameContent-sym, Keeps-refl, Keeps-trans, Keeps-put,
  Keeps-set_active, active-get_record, relocate,
}

pub SameContent-publication :
    (sign : Signing) (r : BundleRecord) (gate : ReplayRun) (by now : String)
    → SameContent r (publication sign r gate by now)
      × ((publication sign r gate by now).company_id ≡ r.company_id)
      × ((publication sign r gate by now).record_id ≡ r.record_id)
unfolding publication signed_with
SameContent-publication sign r gate by now = elim (Option-cases (sign r.content_hash)) [
  | inl o ↦ rw (o, publication) ((refl, refl, refl, refl), refl, refl)
  | inr (both, o) ↦ rw (o, publication) ((refl, refl, refl, refl), refl, refl)
]

-- To retire a record of a store changes nothing of what a later store keeps of it.
Keeps-retire :
    (s t : BundleStore) (id : String) (live : BundleRecord)
    → IsKeyed s
    → Keeps s t
    → get_record s live.company_id id ≡ some live
    → Keeps t (retire live t)
Keeps-retire s t id live keyed kept h =
    let (_, own) = keyed live.company_id id live h in
    let (old, found, same) = kept live.company_id id live h in
    Keeps-put old (record live { status = retired }) t
      (relocate t live.company_id live.company_id id live.record_id (some old) refl own found)
      (SameContent-sym live old same)

active-is_own :
    (s : BundleStore) (company : String) (live : BundleRecord)
    → IsKeyed s
    → active s company ≡ some live
    → (id : String) × (get_record s live.company_id id ≡ some live)
active-is_own s company live keyed h =
    let (id, found) = active-get_record s company live h in
    let (own, _) = keyed company id live found in
    (id, relocate s company live.company_id id id (some live) own refl found)

Keeps-retire_active :
    (s t : BundleStore) (company : String)
    → IsKeyed s
    → Keeps s t
    → Keeps s (retire_active (active s company) t)
unfolding retire_active
Keeps-retire_active s t company keyed kept = elim (Option-cases (active s company)) [
  | inl o ↦ rw (o, retire_active) kept
  | inr (live, o) ↦
      let (id, found) = active-is_own s company live keyed o in
      rw (o, retire_active)
        (Keeps-trans s t (retire live t) kept (Keeps-retire s t id live keyed kept found))
]

Keeps-retire_other :
    (s : BundleStore) (company : String) (r : BundleRecord)
    → IsKeyed s
    → Keeps s (retire_other (active s company) r s)
unfolding retire_other
Keeps-retire_other s company r keyed = elim (Option-cases (active s company)) [
  | inl o ↦ rw (o, retire_other) (Keeps-refl s)
  | inr (live, o) ↦
      let (id, found) = active-is_own s company live keyed o in
      elim (Bool-cases (live.record_id == r.record_id)) [
        | inl same ↦ rw (o, retire_other, same) (Keeps-refl s)
        | inr other ↦
            rw (o, retire_other, other) (Keeps-retire s s id live keyed (Keeps-refl s) found)
      ]
]

pub pointed_to-store :
    (x : Option BundleRecord × BundleStore) (p : BundleRecord) → (pointed_to x p).1 ≡ x.1
unfolding pointed_to
pointed_to-store (none, s) p = refl
pointed_to-store (some r, s) p = refl

pub restored-store : (x : Option BundleRecord × BundleStore) → (restored x).1 ≡ x.1
unfolding restored
restored-store (none, s) = refl
restored-store (some r, s) = refl

publish_gated-Keeps :
    (sign : Signing) (gate : Option ReplayRun) (s : BundleStore) (company id : String)
    (r : BundleRecord) (by now : String)
    → IsKeyed s
    → get_record s company id ≡ some r
    → Keeps s (publish_gated sign gate s company r by now).1
unfolding publish_gated
publish_gated-Keeps sign none s company id r by now keyed h = Keeps-refl s
publish_gated-Keeps sign (some gate) s company id r by now keyed h =
    let p = publication sign r gate by now in
    let (same, own, same_id) = SameContent-publication sign r gate by now in
    let (c, i) = keyed company id r h in
    let t = retire_active (active s company) (put p s) in
    let stored : Keeps s (put p s) =
      Keeps-put r p s
        (relocate s company p.company_id id p.record_id (some r) (own ∙ c) (same_id ∙ i) h) same in
    rw (pointed_to-store (set_active t company p.record_id) p) (
      Keeps-trans s t (set_active t company p.record_id).1
        (Keeps-retire_active s (put p s) company keyed stored)
        (Keeps-set_active t company p.record_id))

-- `publish` drops no record of the registry and changes no record's bundle, content hash or author,
-- whatever it returns, as long as each record stands under its own company and id.
pub publish-Keeps :
    (sign : Signing) (runs : RunStore) (s : BundleStore) (company id by now : String)
    → IsKeyed s
    → Keeps s (publish sign runs s company id by now).1
unfolding publish publish_record
publish-Keeps sign runs s company id by now keyed = elim (Option-cases (get_record s company id)) [
  | inl o ↦ rw (o, publish) (Keeps-refl s)
  | inr (r, o) ↦
      let gated =
        publish_gated-Keeps sign (latest_acknowledged_for runs company r.content_hash) s company id
          r by now keyed o in
      elim (Option-cases (active s company)) [
        | inl a ↦ rw (o, publish, a, publish_record) gated
        | inr (live, a) ↦ elim (Bool-cases (live.content_hash == r.content_hash)) [
          | inl same ↦ rw (o, publish, a, publish_record, same) (Keeps-refl s)
          | inr other ↦ rw (o, publish, a, publish_record, other) gated
        ]
      ]
]

activate_record-Keeps :
    (once : Option String) (s : BundleStore) (company id : String) (r : BundleRecord)
    → IsKeyed s
    → get_record s company id ≡ some r
    → Keeps s (activate_record once s company r id).1
unfolding activate_record
activate_record-Keeps none s company id r keyed o = Keeps-refl s
activate_record-Keeps (some when) s company id r keyed o =
    let t = retire_other (active s company) r s in
    let q = record r { status = published } in
    let (c, i) = keyed company id r o in
    let kept = Keeps-retire_other s company r keyed in
    let (old, found, same) = kept company id r o in
    rw (restored-store (set_active (put q t) company id)) (
      Keeps-trans s (put q t) (set_active (put q t) company id).1
        (Keeps-trans s t (put q t) kept (
          Keeps-put old q t (relocate t company q.company_id id q.record_id (some old) c i found)
            (SameContent-sym r old same)))
        (Keeps-set_active (put q t) company id))

-- `activate` drops no record of the registry and changes no record's bundle, content hash or author,
-- whatever it returns, as long as each record stands under its own company and id.
pub activate-Keeps :
    (s : BundleStore) (company id : String) → IsKeyed s → Keeps s (activate s company id).1
unfolding activate
activate-Keeps s company id keyed = elim (Option-cases (get_record s company id)) [
  | inl o ↦ rw (o, activate) (Keeps-refl s)
  | inr (r, o) ↦ rw (o, activate) (activate_record-Keeps r.published_at s company id r keyed o)
]
