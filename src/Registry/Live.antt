-- ===== src/Registry/Live.antt =====
-- What is live: after `publish` the published record is the live one, and no other is published.
use kernl.Prelude.{
  ◌≡◌, refl, sym, ap, subst, ◌∙◌, ◌≢◌, ◌⊎◌, inl, inr, String, false, ◌==◌, Option, none, some,
  arith, eq_iff, eq_refl, Bool-cases, Option-cases,
}
use kernl.Prelude.Dict
use kernl.Prelude.Result.{ok, err, ok-injective}
use kernl.Replay.Runs.{ReplayRun, RunStore, latest_acknowledged_for}
use kernl.Registry.Store.{
  published, retired, BundleRecord, BundleStore, put, get_record, active, pointed, set_active,
}
use kernl.Registry.Lifecycle.{
  Signing, Filed, LifecycleError, unknown_record, gate_closed, publication, retire, retire_active,
  pointed_to, publish_gated, publish_record, publish,
}
use kernl.Registry.Content.{
  IsKeyed, get_record-put, get_record-set_active, active-get_record, relocate,
}
use kernl.Registry.Immutable.{SameContent-publication}

-- A company has no published record but the live one.
abbrev pub OnlyLive : BundleStore → String → Type 0
OnlyLive s c =
    (i : String) (x : BundleRecord)
    → get_record s c i ≡ some x
    → x.status ≡ published
    → active s c ≡ some x

pub active_of_pointer :
    (s : BundleStore) (c id : String) (x : BundleRecord)
    → (id == "") ≡ false
    → get_record s c id ≡ some x
    → active (set_active s c id).1 c ≡ some x
unfolding active pointed set_active get_record
active_of_pointer s c id x full h =
    rw (h, set_active) (rw (Dict.lookup-insert_self c id s.pointers, active, full, pointed) h)

get_record-put_self :
    (r : BundleRecord) (s : BundleStore) → get_record (put r s) r.company_id r.record_id ≡ some r
get_record-put_self r s =
    get_record-put r s r.company_id r.record_id
    ∙ ground (arith, eq_refl r.company_id, eq_refl r.record_id)

pub get_record-put_other :
    (r : BundleRecord) (s : BundleStore) (c i : String)
    → (r.record_id == i) ≡ false
    → get_record (put r s) c i ≡ get_record s c i
get_record-put_other r s c i other = get_record-put r s c i ∙ ground (arith, other)

pub get_record-put_at :
    (r : BundleRecord) (s : BundleStore) (c i : String)
    → r.company_id ≡ c
    → r.record_id ≡ i
    → get_record (put r s) c i ≡ some r
get_record-put_at r s c i own here =
    relocate (put r s) r.company_id c r.record_id i (some r) (sym own) (sym here)
      (get_record-put_self r s)

pub retired≢published : retired ≢ published
retired≢published e = cc e

module _ (s : BundleStore) (c id : String) (r p : BundleRecord) (keyed : IsKeyed s)
    (only : OnlyLive s c) (found : get_record s c id ≡ some r) (own : p.company_id ≡ c)
    (here : p.record_id ≡ id)
    (fresh : (live : BundleRecord)
      → active s c ≡ some live
      → live.content_hash ≢ r.content_hash) where
  -- The live record stands elsewhere than the one that is replaced.
  live_elsewhere : (live : BundleRecord) → active s c ≡ some live → (live.record_id == id) ≡ false
  live_elsewhere live a = elim (Bool-cases (live.record_id == id)) [
    | inr other ↦ other
    | inl same ↦
        let (lid, got) = active-get_record s c live a in
        let (_, k) = keyed c lid live got in
        let at_id : get_record s c id ≡ some live =
          relocate s c c lid id (some live) refl (sym ((eq_iff live.record_id id).0 same) ∙ k)
            got in
        let one : live ≡ r = cc (at_id, found) in
        absurd (fresh live a (ap (λ (x : BundleRecord). x.content_hash) one))
  ]

  put-published :
      (i : String) (x : BundleRecord)
      → get_record (put p s) c i ≡ some x
      → x.status ≡ published
      → (x ≡ p) ⊎ ((active s c ≡ some x) × (get_record s c i ≡ some x))
  put-published i x h st = elim (Bool-cases (p.record_id == i)) [
    | inl same ↦ inl (cc (get_record-put_at p s c i own ((eq_iff p.record_id i).0 same), h))
    | inr other ↦
        let old = sym (get_record-put_other p s c i other) ∙ h in inr (only i x old st, old)
  ]

  replaced : get_record (retire_active (active s c) (put p s)) c id ≡ some p
  unfolding retire_active
  replaced = elim (Option-cases (active s c)) [
    | inl a ↦ rw (a, retire_active) (get_record-put_at p s c id own here)
    | inr (live, a) ↦
        rw (a, retire_active)
          (get_record-put_other (record live { status = retired }) (put p s) c id
              (live_elsewhere live a)
            ∙ get_record-put_at p s c id own here)
  ]

  only_replaced :
      (i : String) (x : BundleRecord)
      → get_record (retire_active (active s c) (put p s)) c i ≡ some x
      → x.status ≡ published
      → x ≡ p
  unfolding retire_active
  only_replaced i x h st = elim (Option-cases (active s c)) [
    | inl a ↦ elim (put-published i x (rw (a, retire_active) at h) st) [
      | inl same ↦ same
      | inr (live, _) ↦ cc (a, live)
    ]
    | inr (live, a) ↦ beside live a (rw (a, retire_active) at h)
  ]
    where
      beside :
          (live : BundleRecord)
          → active s c ≡ some live
          → get_record (retire live (put p s)) c i ≡ some x
          → x ≡ p
      beside live a h = elim (Bool-cases (live.record_id == i)) [
        | inl same ↦
            let (lid, got) = active-get_record s c live a in
            let (k, _) = keyed c lid live got in
            let q = record live { status = retired } in
            let is_q : q ≡ x =
              cc (get_record-put_at q (put p s) c i k ((eq_iff live.record_id i).0 same), h) in
            absurd (retired≢published (ap (λ (y : BundleRecord). y.status) is_q ∙ st))
        | inr other ↦
            elim (put-published i x
              (sym (get_record-put_other (record live { status = retired }) (put p s) c i other)
                ∙ h)
              st) [
                | inl same ↦ same
                | inr (also, old) ↦
                    let (_, k) = keyed c i x old in
                    let one : x ≡ live = cc (a, also) in
                    let at_i : live.record_id ≡ i =
                      sym (ap (λ (y : BundleRecord). y.record_id) one) ∙ k in
                    cc (other, (eq_iff live.record_id i).1 at_i)
              ]
      ]

-- What `publish` leaves: no published record but the live one, which is the one that it returns.
abbrev pub LeavesLive : String → Filed → Type 0
LeavesLive c (r, s) = OnlyLive s c × ((p : BundleRecord) → r ≡ ok p → active s c ≡ some p)

pub refused-LeavesLive :
    (s : BundleStore) (c : String) (e : LifecycleError) → OnlyLive s c → LeavesLive c (err e, s)
refused-LeavesLive s c e only = (only, λ p h. cc h)

pub set_active-found :
    (t : BundleStore) (c id : String) (p : BundleRecord)
    → get_record t c id ≡ some p
    → set_active t c id ≡ (some p, (set_active t c id).1)
unfolding set_active
set_active-found t c id p h = rw (h, set_active)

pointed_to-LeavesLive :
    (t : BundleStore) (c id : String) (p : BundleRecord)
    → (id == "") ≡ false
    → get_record t c id ≡ some p
    → ((i : String) (x : BundleRecord) → get_record t c i ≡ some x → x.status ≡ published → x ≡ p)
    → LeavesLive c (pointed_to (set_active t c id) p)
unfolding pointed_to
pointed_to-LeavesLive t c id p full h sole =
    let live = active_of_pointer t c id p full h in
    let set : set_active t c id ≡ (some p, (set_active t c id).1) = set_active-found t c id p h in
    subst (λ y. LeavesLive c (pointed_to y p)) (sym set)
      (
        λ i x g st. live ∙ ap some (sym (sole i x (sym (get_record-set_active t c id c i) ∙ g) st)),
        λ q e. live ∙ ap some (ok-injective e),
      )

publish_gated-LeavesLive :
    (sign : Signing) (gate : Option ReplayRun) (s : BundleStore) (c id : String) (r : BundleRecord)
    (by now : String)
    → IsKeyed s
    → OnlyLive s c
    → (id == "") ≡ false
    → get_record s c id ≡ some r
    → ((live : BundleRecord) → active s c ≡ some live → live.content_hash ≢ r.content_hash)
    → LeavesLive c (publish_gated sign gate s c r by now)
unfolding publish_gated
publish_gated-LeavesLive sign none s c id r by now keyed only full found fresh =
    refused-LeavesLive s c gate_closed only
publish_gated-LeavesLive sign (some g) s c id r by now keyed only full found fresh =
    let p = publication sign r g by now in
    let (_, own, here) = SameContent-publication sign r g by now in
    let (k, l) = keyed c id r found in
    let t = retire_active (active s c) (put p s) in
    let at_id : p.record_id ≡ id = here ∙ l in
    subst (λ y. LeavesLive c (pointed_to (set_active t c y) p)) (sym at_id)
      (pointed_to-LeavesLive t c id p full
        (replaced s c id r p keyed only found (own ∙ k) at_id fresh)
        (only_replaced s c id r p keyed only found (own ∙ k) at_id fresh))

-- In a registry whose records stand under their own company and id, and where the company has no
-- published record but the live one, `publish` of a record with an id that is not empty leaves it so,
-- whatever it returns, and a record that it returns is then the live one.
pub publish-LeavesLive :
    (sign : Signing) (runs : RunStore) (s : BundleStore) (company id by now : String)
    → IsKeyed s
    → OnlyLive s company
    → (id == "") ≡ false
    → LeavesLive company (publish sign runs s company id by now)
unfolding publish publish_record
publish-LeavesLive sign runs s company id by now keyed only full =
    elim (Option-cases (get_record s company id)) [
      | inl o ↦ rw (o, publish) (refused-LeavesLive s company unknown_record only)
      | inr (r, o) ↦
          let gate = latest_acknowledged_for runs company r.content_hash in
          elim (Option-cases (active s company)) [
            | inl a ↦
                rw (o, publish, a, publish_record)
                  (publish_gated-LeavesLive sign gate s company id r by now keyed only full o
                    (λ live b. cc (a, b)))
            | inr (live, a) ↦ elim (Bool-cases (live.content_hash == r.content_hash)) [
              | inl same ↦
                  rw (o, publish, a, publish_record, same)
                    (only, λ p e. a ∙ ap some (ok-injective e))
              | inr other ↦
                  rw (o, publish, a, publish_record, other)
                    (publish_gated-LeavesLive sign gate s company id r by now keyed only full o
                      (λ x b same. cc (a, b, other, (eq_iff x.content_hash r.content_hash).1 same)))
            ]
          ]
    ]
