-- ===== src/Registry/Gate.antt =====
-- The publish gate: no bundle goes live but one that a replay run gated, and that an owner has seen.
use kernl.Prelude.{
  ◌≡◌, refl, sym, ap, subst, ◌∙◌, ◌⊎◌, inl, inr, String, Bool, true, ◌&&◌, ◌==◌, Option, none, some,
  List, [], ◌∷◌, arith, eq_iff, Bool-cases, Option-cases,
}
use kernl.Prelude.Lists.{In}
use kernl.Prelude.Sort.{In-sort_by, str_leb}
use kernl.Prelude.Result.{ok, ok-injective}
use kernl.Replay.Runs.{
  ReplayRun, RunStore, rows_of, gates, is_given, latest_acknowledged_for, head_run,
  newest_run_first,
}
use kernl.Registry.Store.{published, BundleRecord, BundleStore, get_record, active, set_active, put}
use kernl.Registry.Lifecycle.{
  Signing, signed_with, publication, retire_active, pointed_to, publish_gated, publish_record,
  publish,
}

-- A run of the company on exactly this content, which someone has acknowledged.
abbrev pub IsGate : RunStore → String → String → ReplayRun → Type 0
IsGate runs company hash g =
    ((id : String) × In (company, id, g) runs)
    × (g.candidate_bundle_hash ≡ hash)
    × ((by : String) × (g.acknowledged_by ≡ some by))

rows_of_sound :
    (company : String) (p : ReplayRun → Bool) (runs : RunStore) (g : ReplayRun)
    → In g (rows_of company p runs)
    → ((id : String) × In (company, id, g) runs) × (p g ≡ true)
unfolding rows_of
rows_of_sound company p [] g m = absurd m
rows_of_sound company p ((cid, i, r) ∷ runs) g m = elim (Bool-cases (cid == company && p r)) [
  | inr other ↦
      let ((id, n), h) = rows_of_sound company p runs g (rw other at m) in ((id, inr n), h)
  | inl here ↦
      let both : (cid ≡ company) × (p r ≡ true) = ground (arith, here, eq_iff cid company) in
      taken both (λ n. rows_of_sound company p runs g n) (rw here at m)
]
  where
    taken :
        (cid ≡ company) × (p r ≡ true)
        → (In g (rows_of company p runs)
            → ((id : String) × In (company, id, g) runs) × (p g ≡ true))
        → In g (r ∷ rows_of company p runs)
        → ((id : String) × In (company, id, g) ((cid, i, r) ∷ runs)) × (p g ≡ true)
    taken (c, h) later (inl e) = ((i, inl (cc (c, e))), cc (h, e))
    taken (c, h) later (inr n) = let ((id, k), q) = later n in ((id, inr k), q)

gates_sound :
    (hash : String) (g : ReplayRun)
    → gates hash g ≡ true
    → (g.candidate_bundle_hash ≡ hash) × ((by : String) × (g.acknowledged_by ≡ some by))
unfolding gates is_given
gates_sound hash g h = elim (Option-cases g.acknowledged_by) [
  | inl none_yet ↦ ground (arith, h, none_yet)
  | inr (by, seen) ↦ (ground (arith, h, eq_iff g.candidate_bundle_hash hash), (by, seen))
]

head_run-In : (rs : List ReplayRun) (g : ReplayRun) → head_run rs ≡ some g → In g rs
head_run-In [] g h = cc h
head_run-In (r ∷ rs) g h = inl (cc h)

-- What `latest_acknowledged_for` returns is a run of that company on that content that someone has
-- acknowledged.
pub latest_acknowledged_for-IsGate :
    (runs : RunStore) (company hash : String) (g : ReplayRun)
    → latest_acknowledged_for runs company hash ≡ some g
    → IsGate runs company hash g
unfolding latest_acknowledged_for
latest_acknowledged_for-IsGate runs company hash g h =
    let rows = rows_of company (gates hash) runs in
    let m =
      In-sort_by (λ a b. str_leb b.created_at a.created_at) g rows
        (head_run-In (newest_run_first rows) g h) in
    let (place, fits) = rows_of_sound company (gates hash) runs g m in
    let (same, seen) = gates_sound hash g fits in (place, same, seen)

-- A publication is published, by its gate, at its time, with the record's content.
abbrev pub IsPublished : BundleRecord → ReplayRun → String → BundleRecord → Type 0
IsPublished r g now p =
    (p.status ≡ published)
    × (p.replay_run_id ≡ some g.run_id)
    × (p.published_at ≡ some now)
    × (p.content_hash ≡ r.content_hash)
    × (p.bundle ≡ r.bundle)

publication-IsPublished :
    (sign : Signing) (r : BundleRecord) (g : ReplayRun) (by now : String)
    → IsPublished r g now (publication sign r g by now)
unfolding publication signed_with
publication-IsPublished sign r g by now = elim (Option-cases (sign r.content_hash)) [
  | inl o ↦ rw (o, publication) (refl, refl, refl, refl, refl)
  | inr (both, o) ↦ rw (o, publication) (refl, refl, refl, refl, refl)
]

pointed_to-ok :
    (x : Option BundleRecord × BundleStore) (q p : BundleRecord) (s' : BundleStore)
    → pointed_to x q ≡ (ok p, s')
    → q ≡ p
unfolding pointed_to
pointed_to-ok (none, s) q p s' h = cc (ap (λ x. x.0) h)
pointed_to-ok (some r, s) q p s' h = cc (ok-injective (ap (λ x. x.0) h))

publish_gated-ok :
    (sign : Signing) (gate : Option ReplayRun) (s : BundleStore) (company : String)
    (r : BundleRecord) (by now : String) (p : BundleRecord) (s' : BundleStore)
    → publish_gated sign gate s company r by now ≡ (ok p, s')
    → (g : ReplayRun) × (gate ≡ some g) × IsPublished r g now p
unfolding publish_gated
publish_gated-ok sign none s company r by now p s' h = cc (ap (λ x. x.0) h)
publish_gated-ok sign (some g) s company r by now p s' h =
    let q = publication sign r g by now in
    let same =
      pointed_to-ok (set_active (retire_active (active s company) (put q s)) company q.record_id) q
        p s' h in
    (g, refl, subst (IsPublished r g now) same (publication-IsPublished sign r g by now))

-- A `publish` that returns a record either found the record's content live and left the registry as
-- it was, or published the record, with a run of that company on exactly its content that someone
-- has acknowledged: its status, its gate and its time are set, and its content is the draft's.
pub publish-is_gated :
    (sign : Signing) (runs : RunStore) (s s' : BundleStore) (company id by now : String)
    (r p : BundleRecord)
    → get_record s company id ≡ some r
    → publish sign runs s company id by now ≡ (ok p, s')
    → ((active s company ≡ some p) × (p.content_hash ≡ r.content_hash) × (s' ≡ s))
      ⊎ ((g : ReplayRun) × IsGate runs company r.content_hash g × IsPublished r g now p)
unfolding publish publish_record
publish-is_gated sign runs s s' company id by now r p found h =
    elim (Option-cases (active s company)) [
      | inl a ↦ gated (rw (found, publish, a, publish_record) at h)
      | inr (live, a) ↦ elim (Bool-cases (live.content_hash == r.content_hash)) [
        | inr other ↦ gated (rw (found, publish, a, publish_record, other) at h)
        | inl same ↦
            let q = rw (found, publish, a, publish_record, same) at h in
            let one : live ≡ p = ok-injective (ap (λ x. x.0) q) in
            inl (
              a ∙ ap some one,
              sym (ap (λ (x : BundleRecord). x.content_hash) one)
                  ∙ (eq_iff live.content_hash r.content_hash).0 same,
              sym (ap (λ x. x.1) q),
            )
      ]
    ]
  where
    gated :
        publish_gated sign (latest_acknowledged_for runs company r.content_hash) s company r by now
          ≡ (ok p, s')
        → ((active s company ≡ some p) × (p.content_hash ≡ r.content_hash) × (s' ≡ s))
          ⊎ ((g : ReplayRun) × IsGate runs company r.content_hash g × IsPublished r g now p)
    gated h =
        let (g, e, done) =
          publish_gated-ok sign (latest_acknowledged_for runs company r.content_hash) s company r by
            now p s' h in
        inr (g, latest_acknowledged_for-IsGate runs company r.content_hash g e, done)
