-- ===== src/Registry/Rollback.antt =====
-- Rollback: after `activate` the chosen record is the live one, and no other is published.
use kernl.Prelude.{
  ◌≡◌, sym, ap, subst, ◌∙◌, inl, inr, String, false, ◌==◌, Option, none, some, eq_iff, Bool-cases,
  Option-cases,
}
use kernl.Prelude.Result.{ok-injective}
use kernl.Registry.Store.{
  published, retired, BundleRecord, BundleStore, put, get_record, active, set_active,
}
use kernl.Registry.Lifecycle.{
  unknown_record, gate_closed, retire, retire_other, restored, activate_record, activate,
}
use kernl.Registry.Content.{IsKeyed, get_record-set_active, active-get_record}
use kernl.Registry.Live.{
  OnlyLive, LeavesLive, retired≢published, active_of_pointer, get_record-put_at,
  get_record-put_other, refused-LeavesLive, set_active-found,
}

module _ (s : BundleStore) (c id : String) (r : BundleRecord) (keyed : IsKeyed s)
    (only : OnlyLive s c) (found : get_record s c id ≡ some r) where
  -- But for the record itself, none is published once the live one is retired.
  none_other :
      (i : String) (x : BundleRecord)
      → get_record (retire_other (active s c) r s) c i ≡ some x
      → x.status ≡ published
      → x.record_id ≡ i × (r.record_id ≡ i)
  unfolding retire_other
  none_other i x h st = elim (Option-cases (active s c)) [
    | inl a ↦ cc (a, only i x (rw (a, retire_other) at h) st)
    | inr (live, a) ↦ elim (Bool-cases (live.record_id == r.record_id)) [
      | inl same ↦
          at_live live a ((eq_iff live.record_id r.record_id).0 same)
            (rw (a, retire_other, same) at h)
      | inr other ↦ beside live a other (rw (a, retire_other, other) at h)
    ]
  ]
    where
      at_live :
          (live : BundleRecord)
          → active s c ≡ some live
          → live.record_id ≡ r.record_id
          → get_record s c i ≡ some x
          → x.record_id ≡ i × (r.record_id ≡ i)
      at_live live a same g =
          let (_, k) = keyed c i x g in
          let one : live ≡ x = cc (a, only i x g st) in
          (k, sym same ∙ ap (λ (y : BundleRecord). y.record_id) one ∙ k)

      beside :
          (live : BundleRecord)
          → active s c ≡ some live
          → (live.record_id == r.record_id) ≡ false
          → get_record (retire live s) c i ≡ some x
          → x.record_id ≡ i × (r.record_id ≡ i)
      beside live a other g = elim (Bool-cases (live.record_id == i)) [
        | inl same ↦
            let (lid, got) = active-get_record s c live a in
            let (k, _) = keyed c lid live got in
            let q = record live { status = retired } in
            let is_q : q ≡ x =
              cc (get_record-put_at q s c i k ((eq_iff live.record_id i).0 same), g) in
            absurd (retired≢published (ap (λ (y : BundleRecord). y.status) is_q ∙ st))
        | inr away ↦
            let old =
              sym (get_record-put_other (record live { status = retired }) s c i away) ∙ g in
            let (_, k) = keyed c i x old in
            let one : x ≡ live = cc (a, only i x old st) in
            let at_i : live.record_id ≡ i = sym (ap (λ (y : BundleRecord). y.record_id) one) ∙ k in
            cc (away, (eq_iff live.record_id i).1 at_i)
      ]

  restored-LeavesLive :
      (id == "") ≡ false
      → LeavesLive c (
          restored (
            set_active
              (put (record r { status = published }) (retire_other (active s c) r s))
              c
              id))
  unfolding restored
  restored-LeavesLive full =
      let q = record r { status = published } in
      let t = put q (retire_other (active s c) r s) in
      let (own, here) = keyed c id r found in
      let at_id : get_record t c id ≡ some q =
        get_record-put_at q (retire_other (active s c) r s) c id own here in
      let live = active_of_pointer t c id q full at_id in
      subst (λ y. LeavesLive c (restored y)) (sym (set_active-found t c id q at_id))
        (
          λ i x g st.
              live ∙ ap some (sym (sole i x (sym (get_record-set_active t c id c i) ∙ g) st)),
          λ p e. live ∙ ap some (ok-injective e),
        )
    where
      sole :
          (i : String) (x : BundleRecord)
          → get_record (put (record r { status = published }) (retire_other (active s c) r s)) c i
            ≡ some x
          → x.status ≡ published
          → x ≡ record r { status = published }
      sole i x g st =
          let q = record r { status = published } in
          let rest = retire_other (active s c) r s in
          let (own, _) = keyed c id r found in
          elim (Bool-cases (r.record_id == i)) [
            | inl same ↦ cc (get_record-put_at q rest c i own ((eq_iff r.record_id i).0 same), g)
            | inr away ↦
                let (_, at_i) =
                  none_other i x (sym (get_record-put_other q rest c i away) ∙ g) st in
                cc (away, (eq_iff r.record_id i).1 at_i)
          ]

activate_record-LeavesLive :
    (once : Option String) (s : BundleStore) (c id : String) (r : BundleRecord)
    → IsKeyed s
    → OnlyLive s c
    → get_record s c id ≡ some r
    → (id == "") ≡ false
    → LeavesLive c (activate_record once s c r id)
unfolding activate_record
activate_record-LeavesLive none s c id r keyed only found full =
    refused-LeavesLive s c gate_closed only
activate_record-LeavesLive (some when) s c id r keyed only found full =
    restored-LeavesLive s c id r keyed only found full

-- In a registry whose records stand under their own company and id, and where the company has no
-- published record but the live one, `activate` of an id that is not empty leaves it so, whatever it
-- returns, and a record that it returns is then the live one.
pub activate-LeavesLive :
    (s : BundleStore) (company id : String)
    → IsKeyed s
    → OnlyLive s company
    → (id == "") ≡ false
    → LeavesLive company (activate s company id)
unfolding activate
activate-LeavesLive s company id keyed only full = elim (Option-cases (get_record s company id)) [
  | inl o ↦ rw (o, activate) (refused-LeavesLive s company unknown_record only)
  | inr (r, o) ↦
      rw (o, activate) (activate_record-LeavesLive r.published_at s company id r keyed only o full)
]
