-- ===== src/Schema/Complete.antt =====
-- The search for override cycles passes where there is an order in which every override goes down.
use kernl.Prelude.{
  ℕ, zero, suc, ◌<◌, ◌≡◌, refl, sym, ap, subst, ◌∙◌, ◌≢◌, ◌⊎◌, inl, inr, String, true, false, ◌==◌,
  some, List, [], ◌∷◌, arith, eq_iff, Bool-cases,
}
use kernl.Prelude.Dict.{lookup, insert, keys, lookup-insert}
use kernl.Prelude.Lists.{In, length}
use kernl.Prelude.Sort.{distinct, In-distinct}
use kernl.Prelude.Result.{Result, ok, err, ◌>>=◌}
use kernl.Schema.Types.{Policy}
use kernl.Schema.Validate.{SchemaError}
use kernl.Schema.Integrity.{policy_ids}
use kernl.Schema.Unique.{HasUniqueIds}
use kernl.Schema.Ranked.{IsRanked, lookup-override_graph}
use kernl.Schema.Acyclic.{
  white, gray, black, Colors, Graph, all_white, visit_each, visit, visit_roots, color_graph,
  override_graph, assert_acyclic,
}
use kernl.Schema.Finishing.{color_cases, at_insert, off_insert}
use kernl.Schema.Search.{lookup-all_white}
use kernl.Schema.Fuel.{assert_acyclic_terminates}
use kernl.Schema.Total.{
  IsTotal, IsFine, IsFine-bind, IsFine-trans, IsTotal-insert, all_white_total, lookup_of_keys,
}

module _ (g : Graph) (rank : String → ℕ)
    (falls : (n t : String) (next : List String)
      → lookup n g ≡ some next
      → In t next
      → rank t < rank n)
    (closed : (n t : String) (next : List String)
      → lookup n g ≡ some next
      → In t next
      → (ts : List String) × (lookup t g ≡ some ts)) where
  -- A node below all gray ones, from which a search may start.
  abbrev IsBelow : String → Colors → Type 0
  IsBelow n c =
      ((next : List String) × (lookup n g ≡ some next))
      × ((k : String) → lookup k c ≡ some gray → rank n < rank k)

  visit_each-IsFine :
      (go : String → Colors → Result SchemaError Colors)
      → ((n : String) (c : Colors)
          → IsTotal g c
          → IsBelow n c
          → lookup n c ≡ some white
          → IsFine g c (go n c))
      → (ns : List String) (c : Colors) → IsTotal g c
      → ((t : String) → In t ns → IsBelow t c)
      → IsFine g c (visit_each go ns c)
  unfolding visit_each
  visit_each-IsFine go rule [] c total below = (total, λ k h. h)
  visit_each-IsFine go rule (n ∷ ns) c total below =
      let ((next, o), low) = below n (inl refl) in
      let rest = λ (t : String) (m : In t ns). below t (inr m) in
      elim (color_cases (lookup n c)) [
        | inl e ↦ let (x, h) = total n next o in cc (e, h)
        | inr (inr (inl e)) ↦ absurd (omega (arith, low n e))
        | inr (inr (inr e)) ↦ rw (e, visit_each) (visit_each-IsFine go rule ns c total rest)
        | inr (inl e) ↦
            rw (e, visit_each)
              (IsFine-bind g c c (go n c) (λ d. visit_each go ns d)
                (rule n c total (below n (inl refl)) e)
                (λ d t s. IsFine-trans g c d (visit_each go ns d) s (
                  visit_each-IsFine go rule ns d t
                    (λ x m. ((rest x m).0, λ k h. (rest x m).1 k (s k h))))))
      ]

  visit-IsFine :
      (fuel : ℕ) (n : String) (c : Colors)
      → IsTotal g c
      → IsBelow n c
      → lookup n c ≡ some white
      → IsFine g c (visit g fuel n c)
  unfolding visit
  visit-IsFine zero n c total below w = refl
  visit-IsFine (suc fuel) n c total ((next, o), low) w =
      let start = insert n gray c in
      rw (o, visit)
        (IsFine-bind g c start (visit_each (visit g fuel) next start) (λ d. ok (insert n black d))
          (visit_each-IsFine (visit g fuel) (λ m b. visit-IsFine fuel m b) next start
            (IsTotal-insert g n gray c total) (λ t m. (closed n t next o m, λ k h. under t m k h)))
          (λ d t s. (IsTotal-insert g n black d t, λ k h. left d s k h)))
    where
      under :
          (t : String)
          → In t next
          → (k : String) → lookup k (insert n gray c) ≡ some gray
          → rank t < rank k
      under t m k h = elim (Bool-cases (n == k)) [
        | inl same ↦ subst (λ y. rank t < rank y) ((eq_iff n k).0 same) (falls n t next o m)
        | inr other ↦
            omega (arith, falls n t next o m, low k (sym (off_insert n k gray c other) ∙ h))
      ]

      left :
          (d : Colors)
          → ((k : String) → lookup k d ≡ some gray → lookup k (insert n gray c) ≡ some gray)
          → (k : String) → lookup k (insert n black d) ≡ some gray
          → lookup k c ≡ some gray
      left d s k h = elim (Bool-cases (n == k)) [
        | inl same ↦ cc (h, at_insert n k black d same)
        | inr other ↦
            sym (off_insert n k gray c other) ∙ s k (sym (off_insert n k black d other) ∙ h)
      ]

  visit_roots-IsFine :
      (fuel : ℕ) (ns : List String) (c : Colors)
      → IsTotal g c
      → ((k : String) → lookup k c ≢ some gray)
      → ((n : String) → In n ns → (next : List String) × (lookup n g ≡ some next))
      → IsFine g c (visit_roots g fuel ns c)
  unfolding visit_roots
  visit_roots-IsFine fuel [] c total free nodes = (total, λ k h. h)
  visit_roots-IsFine fuel (n ∷ ns) c total free nodes =
      let (next, o) = nodes n (inl refl) in
      let rest = λ (t : String) (m : In t ns). nodes t (inr m) in
      elim (color_cases (lookup n c)) [
        | inl e ↦ let (x, h) = total n next o in cc (e, h)
        | inr (inr (inl e)) ↦ absurd (free n e)
        | inr (inr (inr e)) ↦ rw (e, visit_roots) (visit_roots-IsFine fuel ns c total free rest)
        | inr (inl e) ↦
            rw (e, visit_roots)
              (IsFine-bind g c c (visit g fuel n c) (λ d. visit_roots g fuel ns d)
                (visit-IsFine fuel n c total ((next, o), λ k h. absurd (free k h)) e)
                (λ d t s.
                  IsFine-trans g c d (visit_roots g fuel ns d) s
                    (visit_roots-IsFine fuel ns d t (λ k h. free k (s k h)) rest)))
      ]

  color_graph-IsFine : IsFine g (all_white g) (color_graph g)
  unfolding color_graph
  color_graph-IsFine =
      visit_roots-IsFine (suc (length g)) (keys g) (all_white g)
        (λ n next o. (white, all_white_total n g next o))
        (λ k h. cc (lookup-all_white g k g gray h)) (λ n m. lookup_of_keys n g m)

In-policies-of_graph :
    (n : String) (next : List String) (ps : List Policy) (d : Graph)
    → lookup n (override_graph ps d) ≡ some next
    → ((p : Policy) × In p ps × (p.id ≡ n) × (next ≡ distinct p.overrides))
      ⊎ (lookup n d ≡ some next)
unfolding override_graph
In-policies-of_graph n next [] d h = inr h
In-policies-of_graph n next (p ∷ ps) d h =
    elim (In-policies-of_graph n next ps (insert p.id (distinct p.overrides) d) h) [
      | inl (q, m, i, e) ↦ inl (q, inr m, i, e)
      | inr old ↦ here old (Bool-cases (p.id == n))
    ]
  where
    here :
        lookup n (insert p.id (distinct p.overrides) d) ≡ some next
        → ((p.id == n) ≡ true) ⊎ ((p.id == n) ≡ false)
        → ((q : Policy) × In q (p ∷ ps) × (q.id ≡ n) × (next ≡ distinct q.overrides))
          ⊎ (lookup n d ≡ some next)
    here old (inl same) = inl (
      p,
      inl refl,
      (eq_iff p.id n).0 same,
      cc (rw same at (lookup-insert p.id n (distinct p.overrides) d), old),
    )
    here old (inr other) =
        inr (sym (rw other at (lookup-insert p.id n (distinct p.overrides) d)) ∙ old)

In-policy-of_id :
    (k : String) (ps : List Policy) → In k (policy_ids ps) → (p : Policy) × In p ps × (k ≡ p.id)
In-policy-of_id k [] m = absurd m
In-policy-of_id k (p ∷ ps) (inl e) = (p, inl refl, e)
In-policy-of_id k (p ∷ ps) (inr m) = let (q, qm, e) = In-policy-of_id k ps m in (q, inr qm, e)

-- Where the policies' ids differ, all overrides name policies, and some order of the ids has every
-- override go down, the search for cycles passes.
pub assert_acyclic_complete :
    (ps : List Policy) (rank : String → ℕ)
    → HasUniqueIds ps
    → ((p : Policy) → In p ps → (k : String) → In k p.overrides → In k (policy_ids ps))
    → IsRanked rank ps
    → assert_acyclic ps ≡ ok tt
unfolding assert_acyclic lookup
assert_acyclic_complete ps rank unique declared ranked =
    passes (color_graph (override_graph ps [])) refl
      (color_graph-IsFine (override_graph ps []) rank falls closed)
  where
    falls :
        (n t : String) (next : List String)
        → lookup n (override_graph ps []) ≡ some next
        → In t next
        → rank t < rank n
    falls n t next o m = elim (In-policies-of_graph n next ps [] o) [
      | inr none_yet ↦ cc none_yet
      | inl (p, pm, i, e) ↦
          subst (λ y. rank t < rank y) i
            (ranked p pm t (In-distinct t p.overrides (subst (In t) e m)))
    ]

    closed :
        (n t : String) (next : List String)
        → lookup n (override_graph ps []) ≡ some next
        → In t next
        → (ts : List String) × (lookup t (override_graph ps []) ≡ some ts)
    closed n t next o m = elim (In-policies-of_graph n next ps [] o) [
      | inr none_yet ↦ cc none_yet
      | inl (p, pm, i, e) ↦
          let (q, qm, same) =
            In-policy-of_id t ps (declared p pm t (In-distinct t p.overrides (subst (In t) e m))) in
          (
            distinct q.overrides,
            subst (λ y. lookup y (override_graph ps []) ≡ some (distinct q.overrides)) (sym same)
                (lookup-override_graph q ps [] unique qm),
          )
    ]

    passes :
        (r : Result SchemaError Colors)
        → color_graph (override_graph ps []) ≡ r
        → IsFine (override_graph ps []) (all_white (override_graph ps [])) r
        → (color_graph (override_graph ps []) >>= λ _. ok tt) ≡ ok tt
    passes (ok d) e f = rw e
    passes (err x) e f =
        absurd (assert_acyclic_terminates ps (unfold assert_acyclic in rw e (ap err f)))
