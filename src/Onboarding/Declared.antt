-- ===== src/Onboarding/Declared.antt =====
-- The workflows that are inferred declare what the policies use.
use kernl.Prelude.{
  ◌≡◌, refl, sym, ap, subst, ◌∙◌, String, true, ◌==◌, some, List, [], ◌∷◌, inl, inr, Bool-cases,
  Option-cases, eq_iff,
}
use kernl.Prelude.Dict.{Dict, lookup, insert, lookup-insert, lookup-insert_self, In-lookup}
use kernl.Prelude.Lists.{In}
use kernl.Prelude.Sort.{In-sort_by_of}
use kernl.Prelude.Result.{Result, ok, err, bind-eq-ok, ok-injective}
use kernl.Schema.{ValueType, number, string, Condition, Policy, FactSpec, WorkflowSpec}
use kernl.Schema.Validate.{SchemaError}
use kernl.Schema.Integrity.{same_type}
use kernl.Onboarding.Assembly.{
  AssembleError, FieldTypes, declare_fields, fields_of, declare_policies, fact_spec, fact_specs,
  sorted_items, workflow_specs, or_bad, infer_workflows, bad_workflow,
}

same_type→eq : (a b : ValueType) → same_type a b ≡ true → a ≡ b
unfolding same_type
same_type→eq number number h = refl
same_type→eq string string h = refl
same_type→eq ValueType.boolean ValueType.boolean h = refl
same_type→eq number string h = cc h
same_type→eq number ValueType.boolean h = cc h
same_type→eq string number h = cc h
same_type→eq string ValueType.boolean h = cc h
same_type→eq ValueType.boolean number h = cc h
same_type→eq ValueType.boolean string h = cc h

-- What a dict knows, the other knows.
abbrev Grows : FieldTypes → FieldTypes → Type 0
Grows d d' = (k : String) (t : ValueType) → lookup k d ≡ some t → lookup k d' ≡ some t

insert-Grows :
    (k : String) (t : ValueType) (d : FieldTypes)
    → ((u : ValueType) → lookup k d ≡ some u → u ≡ t)
    → Grows d (insert k t d)
insert-Grows k t d agrees j u found = elim (Bool-cases (k == j)) [
  | inr other ↦ rw (lookup-insert k j t d, other) found
  | inl same ↦
      let here : u ≡ t =
        agrees u (subst (λ x. lookup x d ≡ some u) (sym ((eq_iff k j).0 same)) found) in
      rw (lookup-insert k j t d, same) (ap some (sym here))
]

-- The loop over conditions: it declares each, and forgets nothing.
declare_fields-declares :
    (cs : List Condition) (d d' : FieldTypes)
    → declare_fields cs d ≡ ok d'
    → Grows d d' × ((c : Condition) → In c cs → lookup c.field d' ≡ some c.value_type)
unfolding declare_fields
declare_fields-declares [] d d' h =
    ((λ k t found. subst (λ x. lookup k x ≡ some t) (ok-injective h) found), (λ c m. absurd m))
declare_fields-declares (c ∷ cs) d d' h = elim (Option-cases (lookup c.field d)) [
  | inl new ↦
      after (λ u found. cc (new, found))
        (declare_fields-declares cs (insert c.field c.value_type d) d'
          (rw (new, declare_fields) at h))
  | inr (prior, known) ↦ elim (Bool-cases (same_type prior c.value_type)) [
    | inr other ↦ cc (rw (known, other, declare_fields) at h)
    | inl same ↦
        after (λ u found. cc (same_type→eq prior c.value_type same, known, found))
          (declare_fields-declares cs (insert c.field c.value_type d) d'
            (rw (known, same, declare_fields) at h))
  ]
]
  where
    after :
        ((u : ValueType) → lookup c.field d ≡ some u → u ≡ c.value_type)
        → Grows (insert c.field c.value_type d) d'
          × ((x : Condition) → In x cs → lookup x.field d' ≡ some x.value_type)
        → Grows d d' × ((x : Condition) → In x (c ∷ cs) → lookup x.field d' ≡ some x.value_type)
    after agrees (grows, declared) = (
      (λ k t found. grows k t (insert-Grows c.field c.value_type d agrees k t found)),
      (λ x m. elim m [
        | inl e ↦
            subst (λ y. lookup y.field d' ≡ some y.value_type) (sym e)
              (grows c.field c.value_type (lookup-insert_self c.field c.value_type d))
        | inr deep ↦ declared x deep
      ]),
    )

-- A workflow's field is declared with a type.
abbrev Has : Dict FieldTypes → String → String → ValueType → Type 0
Has d w k t = (fs : FieldTypes) × (lookup w d ≡ some fs) × (lookup k fs ≡ some t)

insert-Has :
    (w v k : String) (t : ValueType) (fs : FieldTypes) (d : Dict FieldTypes)
    → Grows (fields_of (lookup w d)) fs
    → Has d v k t
    → Has (insert w fs d) v k t
unfolding fields_of
insert-Has w v k t fs d grows (gs, found, field_) = elim (Bool-cases (w == v)) [
  | inr other ↦ (gs, rw (lookup-insert w v fs d, other) found, field_)
  | inl same ↦
      let here : fields_of (lookup w d) ≡ gs =
        ap (λ x. fields_of (lookup x d)) ((eq_iff w v).0 same) ∙ ap fields_of found in
      (
        fs,
        rw (lookup-insert w v fs d, same) refl,
        grows k t (subst (λ x. lookup k x ≡ some t) (sym here) field_),
      )
]

declare_policies-declares :
    (ps : List Policy) (d d' : Dict FieldTypes)
    → declare_policies ps d ≡ ok d'
    → ((v k : String) (t : ValueType) → Has d v k t → Has d' v k t)
      × ((p : Policy) (c : Condition)
          → In p ps
          → In c p.conditions
          → Has d' p.workflow c.field c.value_type)
unfolding declare_policies
declare_policies-declares [] d d' h =
    ((λ v k t x. subst (λ y. Has y v k t) (ok-injective h) x), (λ p c m. absurd m))
declare_policies-declares (q ∷ ps) d d' h =
    let (fs, fields_, rest) =
      bind-eq-ok (declare_fields q.conditions (fields_of (lookup q.workflow d))) _ h in
    let (grows, declared) =
      declare_fields-declares q.conditions (fields_of (lookup q.workflow d)) fs fields_ in
    let (keeps, all) = declare_policies-declares ps (insert q.workflow fs d) d' rest in
    (
      (λ v k t x. keeps v k t (insert-Has q.workflow v k t fs d grows x)),
      (λ p c m n. elim m [
        | inr deep ↦ all p c deep n
        | inl e ↦
            subst (λ w. Has d' w c.field c.value_type) (ap (λ y. y.workflow) (sym e))
              (keeps q.workflow c.field c.value_type (
                fs,
                lookup-insert_self q.workflow fs d,
                declared c (subst (λ y. In c y.conditions) e n),
              ))
      ]),
    )

In-fact_specs :
    (k : String) (t : ValueType) (d : FieldTypes)
    → In (k, t) d
    → In (fact_spec (k, t)) (fact_specs d)
unfolding fact_specs
In-fact_specs k t [] m = absurd m
In-fact_specs k t (x ∷ d) (inl e) = inl (ap fact_spec e)
In-fact_specs k t (x ∷ d) (inr m) = inr (In-fact_specs k t d m)

-- The specification of a workflow.
abbrev spec_of : String → FieldTypes → WorkflowSpec
spec_of name fs = record { name = name; facts = fact_specs (sorted_items fs); description = "" }

In-workflow_specs :
    (w : String) (fs : FieldTypes) (d : Dict FieldTypes)
    → In (w, fs) d
    → In (spec_of w fs) (workflow_specs d)
unfolding workflow_specs
In-workflow_specs w fs [] m = absurd m
In-workflow_specs w fs ((v, gs) ∷ d) (inl e) = inl (ap (λ x. spec_of x.0 x.1) e)
In-workflow_specs w fs ((v, gs) ∷ d) (inr m) = inr (In-workflow_specs w fs d m)

or_bad-ok :
    {A : Type 0} (wrap : SchemaError → AssembleError) (a b : A) (r : Result SchemaError Unit)
    → or_bad wrap a r ≡ ok b
    → a ≡ b
unfolding or_bad
or_bad-ok wrap a b (ok u) h = ok-injective h
or_bad-ok wrap a b (err e) h = cc h

-- The workflows that are inferred declare all that the policies use: for each condition of each policy,
-- the policy's workflow is among them, with a fact of the condition's field and type.
pub infer_workflows-declares :
    (ps : List Policy) (ws : List WorkflowSpec) (p : Policy) (c : Condition)
    → infer_workflows ps ≡ ok ws
    → In p ps
    → In c p.conditions
    → (w : WorkflowSpec) × (f : FactSpec) × In w ws
      × (w.name ≡ p.workflow)
      × In f w.facts
      × (f.name ≡ c.field)
      × (f.value_type ≡ c.value_type)
unfolding infer_workflows sorted_items fact_spec
infer_workflows-declares ps ws p c h m n =
    let (d, declared, rest) = bind-eq-ok (declare_policies ps []) _ h in
    let same = or_bad-ok bad_workflow (workflow_specs (sorted_items d)) ws _ rest in
    let (_, all) = declare_policies-declares ps [] d declared in
    let (fs, found, known) = all p c m n in
    (
      spec_of p.workflow fs,
      fact_spec (c.field, c.value_type),
      subst (In (spec_of p.workflow fs)) same (
          In-workflow_specs p.workflow fs (sorted_items d)
            (In-sort_by_of _ (p.workflow, fs) d (In-lookup p.workflow fs d found))),
      refl,
      In-fact_specs c.field c.value_type (sorted_items fs)
          (In-sort_by_of _ (c.field, c.value_type) fs (In-lookup c.field c.value_type fs known)),
      refl,
      refl,
    )
