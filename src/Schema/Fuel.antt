-- ===== src/Schema/Fuel.antt =====
-- The search for override cycles ends within its fuel: each visit takes a white node away.
use kernl.Prelude.{
  ℕ, zero, suc, ◌+◌, ◌≤◌, ◌≡◌, refl, ◌≢◌, inl, inr, String, some, List, [], ◌∷◌, arith,
  Option-cases,
}
use kernl.Prelude.Dict.{lookup, insert, keys}
use kernl.Prelude.Lists.{length}
use kernl.Prelude.Result.{Result, ok, err, ◌>>=◌}
use kernl.Schema.Types.{Policy}
use kernl.Schema.Validate.{SchemaError, out_of_fuel}
use kernl.Schema.Acyclic.{
  Color, white, gray, black, Colors, Graph, all_white, visit_each, visit, visit_roots, color_graph,
  override_graph, assert_acyclic,
}
use kernl.Schema.Finishing.{color_cases}

abbrev pub one_if_white : Color → ℕ
one_if_white white = 1
one_if_white gray = 0
one_if_white black = 0

abbrev pub whites : Colors → ℕ
whites [] = 0
whites ((k, x) ∷ c) = one_if_white x + whites c

whites-insert_gray :
    (n : String) (c : Colors) → lookup n c ≡ some white → suc (whites (insert n gray c)) ≡ whites c
unfolding lookup insert
whites-insert_gray n [] h = cc h
whites-insert_gray n ((k, x) ∷ c) h = ground (arith, whites-insert_gray n c)

whites-insert_black : (n : String) (c : Colors) → whites (insert n black c) ≤ whites c
unfolding insert
whites-insert_black n [] = omega arith
whites-insert_black n ((k, x) ∷ c) = ground (arith, whites-insert_black n c)

-- A part of the search that starts with these colors does not run out of fuel, and leaves no more
-- white nodes.
abbrev pub Ends : Colors → Result SchemaError Colors → Type 0
Ends c (ok d) = whites d ≤ whites c
Ends c (err e) = e ≢ out_of_fuel

Ends-bind :
    (b c : Colors) (r : Result SchemaError Colors) (f : Colors → Result SchemaError Colors)
    → whites c ≤ whites b
    → Ends c r
    → ((d : Colors) → whites d ≤ whites c → Ends d (f d))
    → Ends b (r >>= f)
Ends-bind b c (err e) f le h k = h
Ends-bind b c (ok d) f le h k = widen (f d) (k d h)
  where
    widen : (r : Result SchemaError Colors) → Ends d r → Ends b r
    widen (ok x) p = omega arith
    widen (err e) p = p

module _ (g : Graph) where
  visit_each-Ends :
      (go : String → Colors → Result SchemaError Colors) (most : ℕ)
      → ((n : String) (c : Colors) → lookup n c ≡ some white → whites c ≤ most → Ends c (go n c))
      → (ns : List String) (c : Colors) → whites c ≤ most
      → Ends c (visit_each go ns c)
  unfolding visit_each
  visit_each-Ends go most rule [] c le = omega arith
  visit_each-Ends go most rule (n ∷ ns) c le = elim (color_cases (lookup n c)) [
    | inl o ↦ rw (o, visit_each) cc
    | inr (inr (inl o)) ↦ rw (o, visit_each) cc
    | inr (inr (inr o)) ↦ rw (o, visit_each) (visit_each-Ends go most rule ns c le)
    | inr (inl o) ↦
        rw (o, visit_each)
          (Ends-bind c c (go n c) (λ d. visit_each go ns d) (omega arith) (rule n c o le)
            (λ d p. visit_each-Ends go most rule ns d (omega arith)))
  ]

  visit-Ends :
      (fuel : ℕ) (n : String) (c : Colors)
      → lookup n c ≡ some white
      → whites c ≤ fuel
      → Ends c (visit g fuel n c)
  unfolding visit
  visit-Ends zero n c w le = absurd (omega (arith, whites-insert_gray n c w))
  visit-Ends (suc fuel) n c w le = elim (Option-cases (lookup n g)) [
    | inl o ↦ rw (o, visit) cc
    | inr (next, o) ↦
        let taken = whites-insert_gray n c w in
        let start = insert n gray c in
        rw (o, visit)
          (Ends-bind c start (visit_each (visit g fuel) next start) (λ d. ok (insert n black d))
            (omega (arith, taken))
            (visit_each-Ends (visit g fuel) fuel (λ m b. visit-Ends fuel m b) next start
              (omega (arith, taken)))
            (λ d p. whites-insert_black n d))
  ]

  visit_roots-Ends :
      (fuel : ℕ) (ns : List String) (c : Colors)
      → whites c ≤ fuel
      → Ends c (visit_roots g fuel ns c)
  unfolding visit_roots
  visit_roots-Ends fuel [] c le = omega arith
  visit_roots-Ends fuel (n ∷ ns) c le = elim (color_cases (lookup n c)) [
    | inl o ↦ rw (o, visit_roots) cc
    | inr (inr (inl o)) ↦ rw (o, visit_roots) (visit_roots-Ends fuel ns c le)
    | inr (inr (inr o)) ↦ rw (o, visit_roots) (visit_roots-Ends fuel ns c le)
    | inr (inl o) ↦
        rw (o, visit_roots)
          (Ends-bind c c (visit g fuel n c) (λ d. visit_roots g fuel ns d) (omega arith)
            (visit-Ends fuel n c o le) (λ d p. visit_roots-Ends fuel ns d (omega arith)))
  ]

  whites-all_white : (h : Graph) → whites (all_white h) ≡ length h
  unfolding all_white
  whites-all_white [] = refl
  whites-all_white ((k, v) ∷ h) = omega (arith, whites-all_white h)

  color_graph-Ends : Ends (all_white g) (color_graph g)
  unfolding color_graph
  color_graph-Ends =
      visit_roots-Ends (suc (length g)) (keys g) (all_white g) (omega (arith, whites-all_white g))

-- The search for cycles never runs out of fuel, whatever the policies.
pub assert_acyclic_terminates : (ps : List Policy) → assert_acyclic ps ≢ err out_of_fuel
unfolding assert_acyclic
assert_acyclic_terminates ps =
    by_end (color_graph (override_graph ps [])) (color_graph-Ends (override_graph ps []))
  where
    by_end :
        (r : Result SchemaError Colors)
        → Ends (all_white (override_graph ps [])) r
        → (r >>= λ _. ok tt) ≢ err out_of_fuel
    by_end (ok d) p = cc
    by_end (err e) p = λ h. p (cc h)
