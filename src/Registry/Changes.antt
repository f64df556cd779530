-- ===== src/Registry/Changes.antt =====
-- What a diff of two bundles says: it counts each policy once, and a change names what has changed.
use kernl.Prelude.{◌&&◌, ◌==◌, eqb}
use kernl.Prelude.{
  ◌≡◌, refl, sym, ap, ◌∙◌, ◌≢◌, ◌+◌, String, Bool, true, false, not, Option, none, some, List, [],
  ◌∷◌, arith, inl, inr, Bool-cases, Option-cases, eq_iff, subst,
}
use kernl.Prelude.Dict.{Dict, lookup}
use kernl.Prelude.Lists.{length, keep, all, In}
use kernl.Prelude.Result.{ok}
use kernl.Canonical.{Hashing}
use kernl.Schema.{Policy, Bundle}
use kernl.Schema.Integrity.{index_policies}
use kernl.Registry.Lifecycle.{BundleDumps, bundle_content_hash}
use kernl.Prelude.Dict.{insert, In-insert, In-lookup}
use kernl.Prelude.Result.{bind-eq-ok, ok-injective}
use kernl.Registry.Same.{
  same_field, same_policy, same_effect, same_items, same_condition, same_authority, same_evidence,
  same_bool,
}
use kernl.Registry.Diff.{
  PolicyChange, BundleDiff, compare_fields, policy_map, added_of, changed_fields, modification,
  modified_of, unchanged_in, hash_or_none, diff_bundles,
}

-- Each policy stands under its own id.
abbrev IsById : Dict Policy → Type 0
IsById d = (id : String) (p : Policy) → In (id, p) d → p.id ≡ id

index_policies-IsById :
    (ps : List Policy) (d : Dict Policy) → IsById d → IsById (index_policies ps d)
index_policies-IsById [] d good = good
index_policies-IsById (p ∷ ps) d good = index_policies-IsById ps (insert p.id p d) (λ id q m.
    elim (In-insert p.id p d (id, q) m) [
      | inl e ↦ ap (λ x. x.1.id) e ∙ sym (ap (λ x. x.0) e)
      | inr old ↦ good id q old
    ])

policy_map-IsById : (b : Option Bundle) → IsById (policy_map b)
unfolding policy_map
policy_map-IsById none = λ id p m. absurd m
policy_map-IsById (some b) = index_policies-IsById b.policies [] (λ id p m. absurd m)

-- Where not all are the same, one is not.
some_kept :
    (f : String → Bool) (xs : List String) → all f xs ≡ false → keep (λ x. not (f x)) xs ≢ []
some_kept f [] h = cc h
some_kept f (x ∷ xs) h = elim (Bool-cases (f x)) [
  | inl same ↦ rw same (some_kept f xs (rw same at h))
  | inr other ↦ rw other cc
]

-- Two policies with one id that are not equal differ in a field that is compared.
compared_apart :
    (p q : Policy)
    → p.id ≡ q.id
    → same_policy p q ≡ false
    → all (λ f. same_field f p q) compare_fields ≡ false
unfolding same_policy same_field
compared_apart p q ids apart = ground (arith, apart, (eq_iff p.id q.id).1 ids)

none_kept : (f : String → Bool) (xs : List String) → all f xs ≡ true → keep (λ x. not (f x)) xs ≡ []
none_kept f [] h = refl
none_kept f (x ∷ xs) h = ground (arith, none_kept f xs)

-- The tests of `==` give those of the loop, which come in another order.
chained :
    (i w e n c a v o u r : Bool)
    → (i && w && e && n && c && a && v && o && u && r) ≡ true
    → (e && (n && (c && (a && (v && (o && (u && (r && (w && true))))))))) ≡ true
chained true true true true true true true true true true h = refl
chained true true true true true true true true true false h = cc h
chained true true true true true true true true false r h = cc h
chained true true true true true true true false u r h = cc h
chained true true true true true true false o u r h = cc h
chained true true true true true false v o u r h = cc h
chained true true true true false a v o u r h = cc h
chained true true true false c a v o u r h = cc h
chained true true false n c a v o u r h = cc h
chained true false e n c a v o u r h = cc h
chained false w e n c a v o u r h = cc h

all_alike :
    (p q : Policy) → same_policy p q ≡ true → all (λ f. same_field f p q) compare_fields ≡ true
unfolding same_policy same_field
all_alike p q same =
    chained (p.id == q.id) (p.workflow == q.workflow) (same_effect p.effect q.effect)
      (eqb p.priority q.priority) (same_items same_condition p.conditions q.conditions)
      (same_authority p.authority q.authority) (same_items same_evidence p.evidence q.evidence)
      (same_items ◌==◌ p.overrides q.overrides) (same_bool p.unconditional_ack q.unconditional_ack)
      (p.rationale == q.rationale) same

compared_alike : (p q : Policy) → same_policy p q ≡ true → changed_fields p q ≡ []
unfolding changed_fields
compared_alike p q same = none_kept (λ f. same_field f p q) compare_fields (all_alike p q same)

-- Each policy that both bundles have and of which a compared field has changed is among the modified.
abbrev pub FindsChanges : Dict Policy → Dict Policy → List PolicyChange → Type 0
FindsChanges old new changes =
    (id : String) (p q : Policy)
    → lookup id old ≡ some p
    → lookup id new ≡ some q
    → changed_fields p q ≢ []
    → In (modification id p q) changes

changes_are_found :
    (old new : Dict Policy) (id : String) (p q : Policy)
    → lookup id old ≡ some p
    → In (id, q) new
    → changed_fields p q ≢ []
    → In (modification id p q) (modified_of old new)
unfolding modified_of
changes_are_found old [] id p q o m changed = absurd m
changes_are_found old ((j, r) ∷ d) id p q o (inl e) changed =
    let here : lookup j old ≡ some p = subst (λ k. lookup k old ≡ some p) (ap (λ x. x.0) e) o in
    let this : q ≡ r = ap (λ x. x.1) e in
    elim (Bool-cases (same_policy p r)) [
      | inl same ↦
          absurd
            (changed (subst (λ y. changed_fields p y ≡ []) (sym this) (compared_alike p r same)))
      | inr other ↦ rw (here, modified_of, other) (inl (ap (λ x. modification x.0 p x.1) e))
    ]
changes_are_found old ((j, r) ∷ d) id p q o (inr m) changed =
    let rest = changes_are_found old d id p q o m changed in
    elim (Option-cases (lookup j old)) [
      | inl none_there ↦ rw (none_there, modified_of) rest
      | inr (p', there) ↦ elim (Bool-cases (same_policy p' r)) [
        | inl same ↦ rw (there, modified_of, same) rest
        | inr other ↦ rw (there, modified_of, other) (inr rest)
      ]
    ]

-- Each policy of the second dict is added, modified or unchanged.
diff_counts :
    (old new : Dict Policy)
    → length (added_of old new) + length (modified_of old new) + unchanged_in old new ≡ length new
unfolding added_of modified_of unchanged_in
diff_counts old [] = omega arith
diff_counts old ((id, q) ∷ d) =
    let rest = diff_counts old d in
    elim (Option-cases (lookup id old)) [
      | inl o ↦ rw (o, modified_of, unchanged_in) (omega (arith, rest))
      | inr (p, o) ↦ elim (Bool-cases (same_policy p q)) [
        | inl same ↦ rw (o, modified_of, unchanged_in, same) (omega (arith, rest))
        | inr other ↦ rw (o, modified_of, unchanged_in, other) (omega (arith, rest))
      ]
    ]

modified_names :
    (old new : Dict Policy) (c : PolicyChange)
    → IsById old
    → IsById new
    → In c (modified_of old new)
    → c.changed_fields ≢ []
unfolding modified_of modification changed_fields
modified_names old [] c by_old by_new m = absurd m
modified_names old ((id, q) ∷ d) c by_old by_new m =
    let later = modified_names old d c by_old (λ i p k. by_new i p (inr k)) in
    elim (Option-cases (lookup id old)) [
      | inl o ↦ later (rw (o, modified_of) at m)
      | inr (p, o) ↦ elim (Bool-cases (same_policy p q)) [
        | inl same ↦ later (rw (o, modified_of, same) at m)
        | inr other ↦ elim (rw (o, modified_of, other) at m) [
          | inr deep ↦ later deep
          | inl e ↦
              let ids : p.id ≡ q.id =
                by_old id p (In-lookup id p old o) ∙ sym (by_new id q (inl refl)) in
              let unlike : all (λ f. same_field f p q) compare_fields ≡ false =
                compared_apart p q ids other in
              subst (λ (x : PolicyChange). x.changed_fields ≢ []) (sym e)
                (some_kept (λ f. same_field f p q) compare_fields unlike)
        ]
      ]
    ]

module _ (h : Hashing) (dumps : BundleDumps) where
  -- A diff that is returned counts each policy of the new bundle once, as added, as modified or as
  -- unchanged. Each policy that it says is modified, since the `==` of all its fields fails, has a
  -- changed field among those that `_COMPARE_FIELDS` names; and each policy that both bundles have under
  -- one id and that has such a field is among the modified, with all its changed fields.
  pub diff_bundles-accounts :
      (before : Option Bundle) (after : Bundle) (r : BundleDiff)
      → diff_bundles h dumps before after ≡ ok r
      → (length r.added + length r.modified + r.unchanged_count ≡ length (policy_map (some after)))
        × ((c : PolicyChange) → In c r.modified → c.changed_fields ≢ [])
        × FindsChanges (policy_map before) (policy_map (some after)) r.modified
  unfolding diff_bundles
  diff_bundles-accounts before after r made =
      let (x, _, rest) = bind-eq-ok (hash_or_none h dumps before) _ made in
      let (y, _, done) = bind-eq-ok (bundle_content_hash h dumps after) _ rest in
      let old = policy_map before in
      let new = policy_map (some after) in
      subst
        (λ (z : BundleDiff).
          (length z.added + length z.modified + z.unchanged_count ≡ length new)
          × ((c : PolicyChange) → In c z.modified → c.changed_fields ≢ [])
          × FindsChanges old new z.modified)
        (ok-injective done)
        (
          diff_counts old new,
          (λ c m.
              modified_names old new c (policy_map-IsById before) (policy_map-IsById (some after))
                m),
          (λ id p q o n changed. changes_are_found old new id p q o (In-lookup id q new n) changed),
        )
