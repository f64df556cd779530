-- ===== src/Schema/Search.antt =====
-- The search for override cycles finishes a node after the nodes that it overrides.
use kernl.Prelude.{
  ℕ, zero, suc, ◌≤◌, ◌<◌, ◌≡◌, sym, subst, ◌∙◌, ◌≢◌, ◌⊎◌, inl, inr, String, false, ◌==◌, some, List,
  [], ◌∷◌, if◌then◌else◌, arith, eq_iff, Bool-cases,
}
use kernl.Prelude.Dict.{lookup, insert, keys, lookup-insert_self}
use kernl.Prelude.Lists.{In, All, length, All-In}
use kernl.Prelude.Result.{Result, ok, bind-eq-ok, or_raise}
use kernl.Schema.Validate.{SchemaError, key_error}
use kernl.Schema.Acyclic.{
  Color, white, gray, black, Colors, Graph, all_white, visit_each, visit, visit_roots, color_graph,
}
use kernl.Schema.Finishing.{
  IsFinished, IsColored, Goes, Goes-refl, Goes-trans, color_cases, at_insert, off_insert, All-map,
  or_raise-ok, Goes-around, Reaches,
}

module _ (g : Graph) where
  -- A visit of a white node ends with it black.
  abbrev Visits : (String → Colors → Result SchemaError Colors) → Type 0
  Visits go =
      (n : String) (c d : Colors) (done : List String)
      → IsColored g done c
      → lookup n c ≡ some white
      → go n c ≡ ok d
      → Reaches g c (n ∷ []) d

  visit_each-Reaches :
      (go : String → Colors → Result SchemaError Colors)
      → Visits go
      → (ns : List String) (c d : Colors) (done : List String) → IsColored g done c
      → visit_each go ns c ≡ ok d
      → Reaches g c ns d
  unfolding visit_each
  visit_each-Reaches go rule [] c d done i h =
      let same : c ≡ d = cc h in
      (done, subst (IsColored g done) same i, subst (Goes c) same (Goes-refl c), tt)
  visit_each-Reaches go rule (n ∷ ns) c d done i h = elim (color_cases (lookup n c)) [
    | inl o ↦ cc (rw (o, visit_each) at h)
    | inr (inr (inl o)) ↦ cc (rw (o, visit_each) at h)
    | inr (inr (inr o)) ↦
        let (done', i', goes, all) =
          visit_each-Reaches go rule ns c d done i (rw (o, visit_each) at h) in
        (done', i', goes, ((goes n).0 o, all))
    | inr (inl o) ↦
        let (e, visited, rest) = bind-eq-ok (go n c) _ (rw (o, visit_each) at h) in
        let (done1, i1, goes1, (here, _)) = rule n c e done i o visited in
        let (done2, i2, goes2, all) = visit_each-Reaches go rule ns e d done1 i1 rest in
        (done2, i2, Goes-trans c e d goes1 goes2, ((goes2 n).0 here, all))
  ]

  IsColored-gray :
      (n : String) (done : List String) (c : Colors)
      → lookup n c ≡ some white
      → IsColored g done c
      → IsColored g done (insert n gray c)
  IsColored-gray n done c w (fin, i) = (
    fin,
    λ k. elim (Bool-cases (n == k)) [
      | inl same ↦
          (λ h. cc (h, at_insert n k gray c same), λ m. cc (w, (i k).1 m, (eq_iff n k).0 same))
      | inr other ↦ (
        λ h. (i k).0 (sym (off_insert n k gray c other) ∙ h),
        λ m. off_insert n k gray c other ∙ (i k).1 m,
      )
    ],
  )

  IsColored-black :
      (n : String) (next : List String) (done : List String) (d : Colors)
      → lookup n d ≡ some gray
      → lookup n g ≡ some next
      → All (λ t. lookup t d ≡ some black) next
      → IsColored g done d
      → IsColored g (n ∷ done) (insert n black d)
  IsColored-black n next done d now o all (fin, i) = (
    ((λ m. cc (now, (i n).1 m)), (next, o, All-map (λ t h. (i t).0 h) next all), fin),
    λ k. (λ h. newly k h, λ m. stays k m),
  )
    where
      newly : (k : String) → lookup k (insert n black d) ≡ some black → (k ≡ n) ⊎ In k done
      newly k h = elim (Bool-cases (n == k)) [
        | inl same ↦ inl (sym ((eq_iff n k).0 same))
        | inr other ↦ inr ((i k).0 (sym (off_insert n k black d other) ∙ h))
      ]

      stays : (k : String) → (k ≡ n) ⊎ In k done → lookup k (insert n black d) ≡ some black
      stays k m = elim (Bool-cases (n == k)) [
        | inl same ↦ at_insert n k black d same
        | inr other ↦ off_insert n k black d other ∙ there other m
      ]
        where
          there : (n == k) ≡ false → (k ≡ n) ⊎ In k done → lookup k d ≡ some black
          there other (inl e) = cc (other, (eq_iff n k).1 (sym e))
          there other (inr m) = (i k).1 m

  visit-Visits : (fuel : ℕ) → Visits (visit g fuel)
  unfolding visit
  visit-Visits zero n c d done i w h = cc h
  visit-Visits (suc fuel) n c d done i w h =
      let (next, o, h1) = bind-eq-ok (or_raise (lookup n g) key_error) _ h in
      let (e, visited, h2) = bind-eq-ok (visit_each (visit g fuel) next (insert n gray c)) _ h1 in
      let (done1, i1, goes, all) =
        visit_each-Reaches (visit g fuel) (visit-Visits fuel) next (insert n gray c) e done
          (IsColored-gray n done c w i) visited in
      let now : lookup n e ≡ some gray = (goes n).1 (lookup-insert_self n gray c) in
      let same : insert n black e ≡ d = cc h2 in
      (
        n ∷ done1,
        subst (IsColored g (n ∷ done1)) same
            (IsColored-black n next done1 e now (or_raise-ok (lookup n g) key_error next o) all i1),
        subst (Goes c) same (Goes-around n c e w goes),
        (subst (λ x. lookup n x ≡ some black) same (lookup-insert_self n black e), tt),
      )

  -- Between two roots no node is gray.
  abbrev NoneGray : Colors → Type 0
  NoneGray c = (k : String) → lookup k c ≢ some gray

  visit_roots-Reaches :
      (fuel : ℕ) (ns : List String) (c d : Colors) (done : List String)
      → IsColored g done c
      → NoneGray c
      → visit_roots g fuel ns c ≡ ok d
      → Reaches g c ns d
  unfolding visit_roots
  visit_roots-Reaches fuel [] c d done i free h =
      let same : c ≡ d = cc h in
      (done, subst (IsColored g done) same i, subst (Goes c) same (Goes-refl c), tt)
  visit_roots-Reaches fuel (n ∷ ns) c d done i free h = elim (color_cases (lookup n c)) [
    | inl o ↦ cc (rw (o, visit_roots) at h)
    | inr (inr (inl o)) ↦ absurd (free n o)
    | inr (inr (inr o)) ↦
        let (done', i', goes, all) =
          visit_roots-Reaches fuel ns c d done i free (rw (o, visit_roots) at h) in
        (done', i', goes, ((goes n).0 o, all))
    | inr (inl o) ↦
        let (e, visited, rest) = bind-eq-ok (visit g fuel n c) _ (rw (o, visit_roots) at h) in
        let (done1, i1, goes1, (here, _)) = visit-Visits fuel n c e done i o visited in
        let (done2, i2, goes2, all) =
          visit_roots-Reaches fuel ns e d done1 i1 (λ k h. free k ((goes1 k).2 h)) rest in
        (done2, i2, Goes-trans c e d goes1 goes2, ((goes2 n).0 here, all))
  ]

  pub lookup-all_white :
      (k : String) (h : Graph) (x : Color) → lookup k (all_white h) ≡ some x → x ≡ white
  unfolding all_white lookup
  lookup-all_white k [] x e = cc e
  lookup-all_white k ((j, v) ∷ h) x e = ground (arith, lookup-all_white k h x)

  -- A graph that is colored without an error has a finishing order with all its nodes.
  pub color_graph-IsFinished :
      (d : Colors)
      → color_graph g ≡ ok d
      → (done : List String) × IsFinished g done × All (λ t. In t done) (keys g)
  unfolding color_graph
  color_graph-IsFinished d h =
      let (done, (fin, i), _, all) =
        visit_roots-Reaches (suc (length g)) (keys g) (all_white g) d []
          (tt, λ k. (λ h. cc (lookup-all_white k g black h), λ m. absurd m))
          (λ k h. cc (lookup-all_white k g gray h)) h in
      (done, fin, All-map (λ t h. (i t).0 h) (keys g) all)

-- The place of a node in a finishing order, from the end; 0 is for a node that is not there.
abbrev pub place : List String → String → ℕ
place [] k = 0
place (n ∷ done) k = if n == k then suc (length done) else place done k

place-le-length : (done : List String) (k : String) → place done k ≤ length done
place-le-length [] k = omega arith
place-le-length (n ∷ done) k = ground (arith, place-le-length done k)

finished_closed :
    (g : Graph) (done : List String) (n t : String) (next : List String)
    → IsFinished g done
    → In n done
    → lookup n g ≡ some next
    → In t next
    → In t done
finished_closed g [] n t next fin m o it = absurd m
finished_closed g (x ∷ done) n t next (new, (ts, o', all), fin) (inl e) o it =
    let same : ts ≡ next = cc (o, o', e) in
    inr (All-In (λ k. In k done) t next (subst (All (λ k. In k done)) same all) it)
finished_closed g (x ∷ done) n t next (new, _, fin) (inr m) o it =
    inr (finished_closed g done n t next fin m o it)

not_there : (x k : String) (done : List String) → ¬ In x done → In k done → (x == k) ≡ false
not_there x k done new m = elim (Bool-cases (x == k)) [
  | inl same ↦ absurd (new (subst (λ y. In y done) (sym ((eq_iff x k).0 same)) m))
  | inr other ↦ other
]

-- In a finishing order every override of a node that is there goes down.
pub place-falls :
    (g : Graph) (done : List String) (n t : String) (next : List String)
    → IsFinished g done
    → In n done
    → lookup n g ≡ some next
    → In t next
    → place done t < place done n
place-falls g [] n t next fin m o it = absurd m
place-falls g (x ∷ done) n t next (new, (ts, o', all), fin) (inl e) o it =
    let same : ts ≡ next = cc (o, o', e) in
    let behind = All-In (λ k. In k done) t next (subst (All (λ k. In k done)) same all) it in
    ground (arith, not_there x t done new behind, place-le-length done t, (eq_iff x n).1 (sym e))
place-falls g (x ∷ done) n t next (new, _, fin) (inr m) o it = ground (
  arith,
  not_there x t done new (finished_closed g done n t next fin m o it),
  not_there x n done new m,
  place-falls g done n t next fin m o it,
)
