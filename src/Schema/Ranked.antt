-- ===== src/Schema/Ranked.antt =====
-- The overrides of a bundle that passes its checks have no cycle: the finishing order of the search
-- ranks the policies.
use kernl.Prelude.{
  ℕ, ◌<◌, ◌≡◌, refl, sym, ◌∙◌, ◌⊎◌, inl, inr, String, true, false, ◌==◌, some, List, [], ◌∷◌,
  if◌then◌else◌, arith, eq_iff, Bool-cases,
}
use kernl.Prelude.Dict.{lookup, insert, keys, lookup-insert, lookup-insert_self}
use kernl.Prelude.Lists.{In, All-In}
use kernl.Prelude.Result.{ok, bind-eq-ok}
use kernl.Schema.Acyclic.{Graph, color_graph, override_graph, assert_acyclic}
use kernl.Prelude.Sort.{distinct, In-distinct_of}
use kernl.Schema.Types.{Policy}
use kernl.Schema.Integrity.{policy_ids}
use kernl.Schema.Unique.{HasUniqueIds}
use kernl.Schema.Search.{color_graph-IsFinished, place, place-falls}

override_graph_other :
    (k : String) (ps : List Policy) (d : Graph)
    → ¬ In k (policy_ids ps)
    → lookup k (override_graph ps d) ≡ lookup k d
unfolding override_graph
override_graph_other k [] d h = refl
override_graph_other k (p ∷ ps) d h =
    override_graph_other k ps (insert p.id (distinct p.overrides) d) (λ m. h (inr m))
    ∙ lookup-insert p.id k (distinct p.overrides) d
    ∙ other (Bool-cases (p.id == k))
  where
    other :
        ((p.id == k) ≡ true) ⊎ ((p.id == k) ≡ false)
        → (if p.id == k then some (distinct p.overrides) else lookup k d) ≡ lookup k d
    other (inl e) = absurd (h (inl (sym ((eq_iff p.id k).0 e))))
    other (inr e) = rw e

pub lookup-override_graph :
    (p : Policy) (ps : List Policy) (d : Graph)
    → HasUniqueIds ps
    → In p ps
    → lookup p.id (override_graph ps d) ≡ some (distinct p.overrides)
unfolding override_graph
lookup-override_graph p [] d u m = absurd m
lookup-override_graph p (q ∷ ps) d u (inl e) = rw e (
    override_graph_other q.id ps (insert q.id (distinct q.overrides) d) u.0
    ∙ lookup-insert_self q.id (distinct q.overrides) d)
lookup-override_graph p (q ∷ ps) d u (inr m) =
    lookup-override_graph p ps (insert q.id (distinct q.overrides) d) u.1 m

In-keys : (k : String) (v : List String) (d : Graph) → lookup k d ≡ some v → In k (keys d)
unfolding lookup
In-keys k v [] h = cc h
In-keys k v ((j, w) ∷ d) h = ground (arith, In-keys k v d, eq_iff j k)

-- An order of the ids in which every override goes down.
abbrev pub IsRanked : (String → ℕ) → List Policy → Type 0
IsRanked rank ms = (p : Policy) → In p ms → (k : String) → In k p.overrides → rank k < rank p.id

-- If no two policies share an id and the search for cycles passes, there is a rank of the ids in which
-- every override goes down: no chain of overrides comes back to where it began.
pub IsRanked-of_acyclic :
    (ps : List Policy)
    → HasUniqueIds ps
    → assert_acyclic ps ≡ ok tt
    → (rank : String → ℕ) × IsRanked rank ps
unfolding assert_acyclic
IsRanked-of_acyclic ps unique h =
    let g = override_graph ps [] in
    let (d, colored, _) = bind-eq-ok (color_graph g) _ h in
    let (done, fin, all) = color_graph-IsFinished g d colored in
    (
      place done,
      λ p m k o.
          let here = lookup-override_graph p ps [] unique m in
          place-falls g done p.id k (distinct p.overrides) fin
            (All-In (λ t. In t done) p.id (keys g) all (In-keys p.id (distinct p.overrides) g here))
            here (In-distinct_of k p.overrides o),
    )
