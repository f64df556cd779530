-- ===== src/Evaluator/Results.antt =====
-- What the results of a policy's conditions say of the facts, one condition at a time.
use kernl.Prelude.{
  subst, ◌≡◌, refl, sym, ap, ◌∙◌, inl, inr, String, true, false, none, some, List, [], ◌∷◌, arith,
  Bool-cases, Option-cases,
}
use kernl.Prelude.Dict.{Dict, lookup}
use kernl.Prelude.Lists.{In, All}
use kernl.Prelude.Sort.{sorted_set}
use kernl.Prelude.Result.{ok, traverse, traverse-cons, bind-eq-ok, ok-injective}
use kernl.Python.Text.{Runtime}
use kernl.Schema.{Scalar, Condition, Policy}
use kernl.Schema.Validate.{is_empty}
use kernl.Evaluator.Types.{
  matched, failed, undeterminable, CheckResult, pass, fail, missing, ConditionResult,
  PolicyEvaluation,
}
use kernl.Evaluator.Conditions.{
  compare, check_condition, any_fail, absent_fields, status_of, evaluate_policy, is_fail,
  is_missing,
}

module _ (rs : List ConditionResult) where
  pub failed_status : status_of rs ≡ failed → any_fail rs ≡ true
  unfolding status_of
  failed_status h = ground arith

  pub status_failed : any_fail rs ≡ true → status_of rs ≡ failed
  unfolding status_of
  status_failed h = rw h

  pub matched_status :
      status_of rs ≡ matched → (any_fail rs ≡ false) × (is_empty (absent_fields rs) ≡ true)
  unfolding status_of
  matched_status h = ground arith

  status_matched : any_fail rs ≡ false → is_empty (absent_fields rs) ≡ true → status_of rs ≡ matched
  unfolding status_of
  status_matched h k = rw (h, k)

  undeterminable_status :
      status_of rs ≡ undeterminable → (any_fail rs ≡ false) × (is_empty (absent_fields rs) ≡ false)
  unfolding status_of
  undeterminable_status h = ground arith

module _ (rt : Runtime) (facts : Dict Scalar) where
  -- The condition's fact is there and passes the test, or is there and fails it, or is not there.
  abbrev pub Holds : Condition → Type 0
  Holds c = (v : Scalar) × (lookup c.field facts ≡ some v) × (compare rt c v ≡ ok true)

  abbrev pub Fails : Condition → Type 0
  Fails c = (v : Scalar) × (lookup c.field facts ≡ some v) × (compare rt c v ≡ ok false)

  abbrev pub IsAbsent : Condition → Type 0
  IsAbsent c = lookup c.field facts ≡ none

  -- What the result of one condition says of it.
  abbrev pub Says : CheckResult → Condition → Type 0
  Says pass c = Holds c
  Says fail c = Fails c
  Says missing c = IsAbsent c

  check_condition-Says :
      (c : Condition) (r : ConditionResult)
      → check_condition rt facts c ≡ ok r
      → (r.field ≡ c.field) × Says r.result c
  unfolding check_condition
  check_condition-Says c r h = elim (Option-cases (lookup c.field facts)) [
    | inl e ↦
        subst (λ x. (x.field ≡ c.field) × Says x.result c)
          (ok-injective (rw (e, check_condition) at h)) (refl, e)
    | inr (v, e) ↦
        let (passed, t, h') = bind-eq-ok (compare rt c v) _ (rw (e, check_condition) at h) in
        elim (Bool-cases passed) [
          | inl p ↦
              subst (λ x. (x.field ≡ c.field) × Says x.result c) (ok-injective (rw p at h'))
                (refl, (v, e, rw p at t))
          | inr p ↦
              subst (λ x. (x.field ≡ c.field) × Says x.result c) (ok-injective (rw p at h'))
                (refl, (v, e, rw p at t))
        ]
  ]

  -- The results of a policy's conditions, one for each, in order.
  abbrev pub AllSay : List Condition → List ConditionResult → Type 0
  AllSay [] [] = Unit
  AllSay [] (r ∷ rs) = ⊥
  AllSay (c ∷ cs) [] = ⊥
  AllSay (c ∷ cs) (r ∷ rs) = ((r.field ≡ c.field) × Says r.result c) × AllSay cs rs

  traverse-AllSay :
      (cs : List Condition) (rs : List ConditionResult)
      → traverse (check_condition rt facts) cs ≡ ok rs
      → AllSay cs rs
  traverse-AllSay [] rs h = subst (AllSay []) (ok-injective h) tt
  traverse-AllSay (c ∷ cs) rs h =
      let (r, rs', e, h', split) = traverse-cons (check_condition rt facts) c cs rs h in
      subst (AllSay (c ∷ cs)) (sym split) (check_condition-Says c r e, traverse-AllSay cs rs' h')

  Fails-of : (x : CheckResult) (c : Condition) → Says x c → is_fail x ≡ true → Fails c
  unfolding is_fail
  Fails-of fail c s e = s
  Fails-of pass c s e = cc
  Fails-of missing c s e = cc

  is_fail_of : (x : CheckResult) (c : Condition) → Says x c → Fails c → is_fail x ≡ true
  unfolding is_fail
  is_fail_of fail c s f = refl
  is_fail_of pass c (v, e, t) (w, e', t') = cc (e, e', t, t')
  is_fail_of missing c s (w, e', t') = cc (s, e')

  IsAbsent-of : (x : CheckResult) (c : Condition) → Says x c → is_missing x ≡ true → IsAbsent c
  unfolding is_missing
  IsAbsent-of missing c s e = s
  IsAbsent-of pass c s e = cc
  IsAbsent-of fail c s e = cc

  is_missing_of : (x : CheckResult) (c : Condition) → Says x c → IsAbsent c → is_missing x ≡ true
  unfolding is_missing
  is_missing_of missing c s a = refl
  is_missing_of pass c (v, e, t) a = cc (e, a)
  is_missing_of fail c (v, e, t) a = cc (e, a)

  Holds-of :
      (x : CheckResult) (c : Condition)
      → Says x c
      → is_fail x ≡ false
      → is_missing x ≡ false
      → Holds c
  unfolding is_fail is_missing
  Holds-of pass c s e f = s
  Holds-of fail c s e f = cc
  Holds-of missing c s e f = cc

  passes :
      (x : CheckResult) (c : Condition)
      → Says x c
      → Holds c
      → (is_fail x ≡ false) × (is_missing x ≡ false)
  unfolding is_fail is_missing
  passes pass c s h = (refl, refl)
  passes fail c (v, e, t) (w, e', t') = cc (e, e', t, t')
  passes missing c s (w, e', t') = cc (s, e')

  abbrev pub SomeCondition : (Condition → Type 0) → List Condition → Type 0
  SomeCondition P cs = (c : Condition) × In c cs × P c

  pub any_fail_sound :
      (cs : List Condition) (rs : List ConditionResult)
      → AllSay cs rs
      → any_fail rs ≡ true
      → SomeCondition Fails cs
  unfolding any_fail
  any_fail_sound [] [] s e = cc
  any_fail_sound [] (r ∷ rs) s e = absurd s
  any_fail_sound (c ∷ cs) [] s e = absurd s
  any_fail_sound (c ∷ cs) (r ∷ rs) ((n, s), ss) e = elim (Bool-cases (is_fail r.result)) [
    | inl f ↦ (c, inl refl, Fails-of r.result c s f)
    | inr f ↦ let (d, m, fails) = any_fail_sound cs rs ss (rw f at e) in (d, inr m, fails)
  ]

  pub any_fail_complete :
      (c : Condition) (cs : List Condition) (rs : List ConditionResult)
      → AllSay cs rs
      → In c cs
      → Fails c
      → any_fail rs ≡ true
  unfolding any_fail
  any_fail_complete c [] rs s m f = absurd m
  any_fail_complete c (d ∷ cs) [] s m f = absurd s
  any_fail_complete c (d ∷ cs) (r ∷ rs) ((n, s), ss) (inl e) f =
      rw (is_fail_of r.result d s (subst Fails e f))
  any_fail_complete c (d ∷ cs) (r ∷ rs) ((n, s), ss) (inr m) f =
      ground (arith, any_fail_complete c cs rs ss m f)

  pub absent_fields_sound :
      (k : String) (cs : List Condition) (rs : List ConditionResult)
      → AllSay cs rs
      → In k (absent_fields rs)
      → (c : Condition) × In c cs × IsAbsent c × (k ≡ c.field)
  unfolding absent_fields
  absent_fields_sound k [] [] s m = absurd m
  absent_fields_sound k [] (r ∷ rs) s m = absurd s
  absent_fields_sound k (c ∷ cs) [] s m = absurd s
  absent_fields_sound k (c ∷ cs) (r ∷ rs) ((n, s), ss) m = elim (Bool-cases (is_missing r.result)) [
    | inl e ↦
        elim (rw e at m)
          as (λ _. (c' : Condition) × In c' (c ∷ cs) × IsAbsent c' × (k ≡ c'.field)) [
            | inl here ↦ (c, inl refl, IsAbsent-of r.result c s e, here ∙ n)
            | inr there ↦ later (absent_fields_sound k cs rs ss there)
          ]
    | inr e ↦ later (absent_fields_sound k cs rs ss (rw e at m))
  ]
    where
      later :
          (c' : Condition) × In c' cs × IsAbsent c' × (k ≡ c'.field)
          → (c' : Condition) × In c' (c ∷ cs) × IsAbsent c' × (k ≡ c'.field)
      later (c', m', a, f) = (c', inr m', a, f)

  pub absent_fields_complete :
      (c : Condition) (cs : List Condition) (rs : List ConditionResult)
      → AllSay cs rs
      → In c cs
      → IsAbsent c
      → In c.field (absent_fields rs)
  unfolding absent_fields
  absent_fields_complete c [] rs s m a = absurd m
  absent_fields_complete c (d ∷ cs) [] s m a = absurd s
  absent_fields_complete c (d ∷ cs) (r ∷ rs) ((n, s), ss) (inl e) a =
      rw (is_missing_of r.result d s (subst IsAbsent e a))
        (inl (ap (λ (x : Condition). x.field) e ∙ sym n))
  absent_fields_complete c (d ∷ cs) (r ∷ rs) ((n, s), ss) (inr m) a =
      ground (arith, absent_fields_complete c cs rs ss m a)

  pub All-Holds :
      (cs : List Condition) (rs : List ConditionResult)
      → AllSay cs rs
      → any_fail rs ≡ false
      → is_empty (absent_fields rs) ≡ true
      → All Holds cs
  unfolding any_fail absent_fields is_empty
  All-Holds [] rs s e f = tt
  All-Holds (c ∷ cs) [] s e f = absurd s
  All-Holds (c ∷ cs) (r ∷ rs) ((n, s), ss) e f = elim (Bool-cases (is_missing r.result)) [
    | inl m ↦ cc (rw m at f)
    | inr m ↦ elim (Bool-cases (is_fail r.result)) [
      | inl b ↦ cc (rw b at e)
      | inr b ↦ (Holds-of r.result c s b m, All-Holds cs rs ss (rw b at e) (rw m at f))
    ]
  ]

  clean :
      (cs : List Condition) (rs : List ConditionResult)
      → AllSay cs rs
      → All Holds cs
      → (any_fail rs ≡ false) × (is_empty (absent_fields rs) ≡ true)
  unfolding any_fail absent_fields is_empty
  clean [] [] s a = (refl, refl)
  clean [] (r ∷ rs) s a = absurd s
  clean (c ∷ cs) [] s a = absurd s
  clean (c ∷ cs) (r ∷ rs) ((n, s), ss) (h, hs) =
      let (unfailed, none_absent) = clean cs rs ss hs in
      let (not_failed, not_missing) = passes r.result c s h in
      rw (not_failed, not_missing) (unfailed, none_absent)

  pub holding_status :
      (cs : List Condition) (rs : List ConditionResult)
      → AllSay cs rs
      → All Holds cs
      → status_of rs ≡ matched
  holding_status cs rs s a =
      let (unfailed, full) = clean cs rs s a in status_matched rs unfailed full

  pub evaluated :
      (p : Policy) (e : PolicyEvaluation)
      → evaluate_policy rt facts p ≡ ok e
      → (rs : List ConditionResult) × AllSay p.conditions rs
        × (e.status ≡ status_of rs)
        × (e.missing_fields ≡ sorted_set (absent_fields rs))
  unfolding evaluate_policy
  evaluated p e h =
      let (rs, t, h') = bind-eq-ok (traverse (check_condition rt facts) p.conditions) _ h in
      (
        rs,
        traverse-AllSay p.conditions rs t,
        ap (λ (x : PolicyEvaluation). x.status) (sym (ok-injective h')),
        ap (λ (x : PolicyEvaluation). x.missing_fields) (sym (ok-injective h')),
      )
