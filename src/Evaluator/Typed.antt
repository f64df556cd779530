-- ===== src/Evaluator/Typed.antt =====
-- The facts that `_validate_facts` returns have the types that the workflow declares.
use kernl.Prelude.{
  ◌≡◌, refl, subst, inl, inr, String, true, some, List, [], ◌∷◌, ◌++◌, Option-cases, arith,
}
use kernl.Prelude.Dict.{Dict, lookup, insert, lookup-insert_cases, IsKeyed, lookup_of_In}
use kernl.Prelude.Lists.{In}
use kernl.Prelude.Result.{ok, bind-eq-ok, ok-injective}
use kernl.Python.{Json}
use kernl.Schema.{Scalar, ValueType, number, string, FactSpec}
use kernl.Schema.Validate.{has_type, default_has_type}
use kernl.Evaluator.Facts.{typed, check_type, supplied, with_defaults, Validated, validate_facts}

typed-has_type :
    (t : ValueType) (name : String) (x : Json) (v : Scalar)
    → typed t name x ≡ ok v
    → has_type t v ≡ true
unfolding typed has_type
typed-has_type number name (Json.int n) v h = ground arith
typed-has_type number name (Json.float x) v h = ground arith
typed-has_type number name _ v h = cc
typed-has_type string name (Json.str s) v h = ground arith
typed-has_type string name _ v h = cc
typed-has_type ValueType.boolean name (Json.boolean b) v h = ground arith
typed-has_type ValueType.boolean name _ v h = cc

-- Each fact is declared, and has the type of its declaration.
abbrev pub AreTyped : Dict FactSpec → Dict Scalar → Type 0
AreTyped specs facts =
    (k : String) (v : Scalar)
    → lookup k facts ≡ some v
    → (spec : FactSpec) × (lookup k specs ≡ some spec) × (has_type spec.value_type v ≡ true)

insert-AreTyped :
    (specs : Dict FactSpec) (k : String) (v : Scalar) (spec : FactSpec) (facts : Dict Scalar)
    → lookup k specs ≡ some spec
    → has_type spec.value_type v ≡ true
    → AreTyped specs facts
    → AreTyped specs (insert k v facts)
insert-AreTyped specs k v spec facts declared has good j w found =
    elim (lookup-insert_cases k j v w facts found) [
      | inr old ↦ good j w old
      | inl (key, value) ↦ (
        spec,
        subst (λ x. lookup x specs ≡ some spec) key declared,
        subst (λ x. has_type spec.value_type x ≡ true) value has,
      )
    ]

supplied-AreTyped :
    (specs : Dict FactSpec) (facts : Dict Json) (effective : Dict Scalar) (ignored : List String)
    (r : Dict Scalar × List String)
    → AreTyped specs effective
    → supplied specs facts effective ignored ≡ ok r
    → AreTyped specs r.0
unfolding supplied check_type
supplied-AreTyped specs [] effective ignored r good h =
    subst (λ (x : Dict Scalar × List String). AreTyped specs x.0) (ok-injective h) good
supplied-AreTyped specs ((name, x) ∷ facts) effective ignored r good h =
    elim (Option-cases (lookup name specs)) [
      | inl o ↦
          supplied-AreTyped specs facts effective (ignored ++ name ∷ []) r good
            (rw (o, supplied) at h)
      | inr (spec, o) ↦
          let (v, checked, rest) = bind-eq-ok (check_type name x spec) _ (rw (o, supplied) at h) in
          supplied-AreTyped specs facts (insert name v effective) ignored r
            (insert-AreTyped specs name v spec effective o
              (typed-has_type spec.value_type name x v checked) good)
            rest
    ]

with_defaults-AreTyped :
    (all specs : Dict FactSpec) (effective : Dict Scalar) (defaults : List String)
    → ((k : String) (spec : FactSpec)
        → In (k, spec) specs
        → (lookup k all ≡ some spec) × (default_has_type spec.value_type spec.default ≡ true))
    → AreTyped all effective
    → AreTyped all (with_defaults specs effective defaults).0
unfolding with_defaults default_has_type
with_defaults-AreTyped all [] effective defaults known good = good
with_defaults-AreTyped all ((name, spec) ∷ specs) effective defaults known good =
    let later = λ (k : String) (s : FactSpec) (m : In (k, s) specs). known k s (inr m) in
    elim (Option-cases (lookup name effective)) [
      | inr (v, o) ↦
          rw (o, with_defaults) (with_defaults-AreTyped all specs effective defaults later good)
      | inl o ↦ elim (Option-cases spec.default) [
        | inl n ↦
            rw (o, with_defaults, n)
              (with_defaults-AreTyped all specs effective defaults later good)
        | inr (d, n) ↦
            let (declared, has) = known name spec (inl refl) in
            rw (o, with_defaults, n)
              (with_defaults-AreTyped all specs (insert name d effective) (defaults ++ name ∷ [])
                later
                (insert-AreTyped all name d spec effective declared
                  (rw (n, default_has_type) at has) good))
      ]
    ]

-- The facts that a validation leaves are typed, where no fact is declared twice and each default has
-- the declared type.
pub validate_facts-AreTyped :
    (specs : Dict FactSpec) (facts : Dict Json) (checked : Validated)
    → IsKeyed specs
    → ((k : String) (spec : FactSpec)
        → In (k, spec) specs
        → default_has_type spec.value_type spec.default ≡ true)
    → validate_facts facts specs ≡ ok checked
    → AreTyped specs checked.effective
unfolding validate_facts lookup
validate_facts-AreTyped specs facts checked keyed defaulted h =
    let (taken, s, done) = bind-eq-ok (supplied specs facts [] []) _ h in
    subst (λ (x : Validated). AreTyped specs x.effective) (ok-injective done)
      (with_defaults-AreTyped specs specs taken.0 []
        (λ k spec m. (lookup_of_In k spec specs keyed m, defaulted k spec m))
        (supplied-AreTyped specs facts [] [] taken (λ k v found. cc found) s))
