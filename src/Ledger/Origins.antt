-- ===== src/Ledger/Origins.antt =====
-- Where the events that idempotency keys name come from: what holds of the events that a ledger has,
-- that other writers append and that the service seals holds of all that it has afterwards.
use kernl.Prelude.{
  ℕ, zero, suc, ◌≡◌, refl, sym, ap, subst, inl, inr, String, Bool, true, false, ◌==◌, some, List,
  [], ◌∷◌, Bool-cases, Option-cases,
}
use kernl.Prelude.Dict
use kernl.Prelude.PairDict
use kernl.Prelude.Lists.{In, take}
use kernl.Prelude.Result.{Result, ok, err, ok_or_err, ok-injective}
use kernl.Python.{str}
use kernl.Python.Text.{Runtime, strip}
use kernl.Canonical.{Hashing, CanonicalError}
use kernl.Ledger.Events.{DecisionEvent, adjudication, sealed, compute_hash, verify}
use kernl.Ledger.Store.{Store, add, set_default, append_if, append, by_idempotency_key}
use kernl.Ledger.Chain.{append_verified-cases}
use kernl.Ledger.Service.{
  Dumps, Attempt, Draft, unsealed, seal_raw, or_non_finite, interfere, append_sealed, Adjudication,
  adjudication_draft, record_adjudication, max_chain_conflict_retries,
}
use kernl.Ledger.Sealing.{retry-keeps}
use kernl.Ledger.WriteAhead.{as_service-store}

-- Every event that a key names has a property, of its company, its key and itself.
abbrev pub HoldsOfAll : (String → String → DecisionEvent → Type 0) → Store → Type 0
HoldsOfAll P s = (c k : String) (e : DecisionEvent) → by_idempotency_key s c k ≡ some e → P c k e

-- It holds of an event under the company and the key that the event has.
abbrev pub HoldsOf : (String → String → DecisionEvent → Type 0) → DecisionEvent → Type 0
HoldsOf P x = P x.company_id x.idempotency_key x

-- The events that other writers append during some attempts.
abbrev pub IsForeign : List Attempt → DecisionEvent → Type 0
IsForeign attempts x = (a : Attempt) × In a attempts × In x a.others

-- What `record_adjudication` seals: an adjudication of the original decision, by the actor of the call.
pub record IsAdjudication (j : Adjudication) (x : DecisionEvent) : Type 0 where
  pub kind : x.event_type ≡ adjudication
  pub company : x.company_id ≡ j.company_id
  pub key : x.idempotency_key ≡ j.idempotency_key
  pub original : x.linked_event_id ≡ some j.original.event_id
  pub actor : x.actor ≡ j.actor
  pub workflow : x.workflow ≡ j.original.workflow
  pub facts : x.facts ≡ j.original.facts
  pub outcome_kind : Dict.lookup "kind" x.outcome ≡ some (str j.outcome_kind)
  pub action : Dict.lookup "action" x.outcome ≡ some (str j.chosen_action)
  pub rationale : Dict.lookup "rationale" x.outcome ≡ some (str j.rationale)
  pub bundle : x.bundle_hash ≡ j.original.bundle_hash

module _ (h : Hashing) (P : String → String → DecisionEvent → Type 0) where
  add-HoldsOfAll :
      (s : Store) (x : DecisionEvent) → HoldsOf P x → HoldsOfAll P s → HoldsOfAll P (add s x)
  unfolding by_idempotency_key add
  add-HoldsOfAll s x new holds c k e named =
      elim (PairDict.lookup-insert_cases x.company_id x.idempotency_key c k x e s.by_key named) [
        | inr old ↦ holds c k e old
        | inl (company, key, same) ↦
            subst (λ y. P c k y) same
              (subst (λ y. P c y x) key (subst (λ y. P y x.idempotency_key x) company new))
      ]

  set_default-HoldsOfAll :
      (s : Store) (c : String) → HoldsOfAll P s → HoldsOfAll P (set_default s c)
  unfolding set_default by_idempotency_key
  set_default-HoldsOfAll s c holds d k e n = elim (Option-cases (Dict.lookup c s.events)) [
    | inl new ↦ holds d k e (rw (new, set_default) at n)
    | inr (es, o) ↦ holds d k e (rw (o, set_default) at n)
  ]

  pub append-HoldsOfAll :
      (x : DecisionEvent) (s : Store) → HoldsOf P x → HoldsOfAll P s → HoldsOfAll P (append h x s).1
  unfolding append append_if
  append-HoldsOfAll x s new holds = by_verdict (verify h x)
    where
      by_verdict : (v : Result CanonicalError Bool) → HoldsOfAll P (append_if v x s).1
      by_verdict (err y) = holds
      by_verdict (ok false) = holds
      by_verdict (ok true) = elim (append_verified-cases x s) [
        | inl (_, _, r) ↦
            subst (HoldsOfAll P) (ap (λ y. y.1) (sym r)) (add-HoldsOfAll s x new holds)
        | inr (inl (_, _, r)) ↦ subst (HoldsOfAll P) (ap (λ y. y.1) (sym r)) holds
        | inr (inr (_, _, r)) ↦
            subst (HoldsOfAll P) (ap (λ y. y.1) (sym r))
              (set_default-HoldsOfAll s x.company_id holds)
      ]

  interfere-HoldsOfAll :
      (es : List DecisionEvent) (s : Store)
      → ((x : DecisionEvent) → In x es → HoldsOf P x)
      → HoldsOfAll P s
      → HoldsOfAll P (interfere h es s)
  unfolding interfere
  interfere-HoldsOfAll [] s others holds = holds
  interfere-HoldsOfAll (x ∷ es) s others holds =
      interfere-HoldsOfAll es (append h x s).1 (λ y m. others y (inr m))
        (append-HoldsOfAll x s (others x (inl refl)) holds)

  append_sealed-HoldsOfAll :
      (d : Draft) (attempts : List Attempt) (s : Store)
      → ((a : Attempt) (t : Store) (x : DecisionEvent) → seal_raw h d a t ≡ ok x → HoldsOf P x)
      → ((x : DecisionEvent) → IsForeign attempts x → HoldsOf P x)
      → HoldsOfAll P s
      → HoldsOfAll P (append_sealed h d attempts s).1
  unfolding append_sealed
  append_sealed-HoldsOfAll d [] s seals others holds = holds
  append_sealed-HoldsOfAll d (a ∷ later) s seals others holds =
      elim (ok_or_err (seal_raw h d a s)) [
        | inr (x, q) ↦ rw (q, append_sealed) holds
        | inl (x, q) ↦
            rw (q, append_sealed)
              (retry-keeps h (HoldsOfAll P) (append h x (interfere h a.others s))
                (λ t. append_sealed h d later t)
                (append-HoldsOfAll x (interfere h a.others s) (seals a s x q)
                  (interfere-HoldsOfAll a.others s (λ y m. others y (a, inl refl, m)) holds))
                (λ t held.
                  append_sealed-HoldsOfAll d later t seals (λ y f. others y (f.0, inr f.1, f.2))
                    held))
      ]

In-take : {A : Type 0} (n : ℕ) (a : A) (xs : List A) → In a (take n xs) → In a xs
In-take zero a xs m = absurd m
In-take (suc n) a [] m = absurd m
In-take (suc n) a (x ∷ xs) (inl e) = inl e
In-take (suc n) a (x ∷ xs) (inr m) = inr (In-take n a xs m)

module _ (rt : Runtime) (h : Hashing) (dumps : Dumps) where
  sealed-IsAdjudication :
      (j : Adjudication) (a : Attempt) (t : Store) (x : DecisionEvent)
      → seal_raw h (adjudication_draft rt h dumps j) a t ≡ ok x
      → IsAdjudication j x
  unfolding seal_raw sealed adjudication_draft or_non_finite Dict.lookup
  sealed-IsAdjudication j a t x r =
      elim (ok_or_err (compute_hash h (unsealed (adjudication_draft rt h dumps j) a t))) [
        | inr (y, c) ↦ cc (rw c at r)
        | inl (y, c) ↦
            let same : record (unsealed (adjudication_draft rt h dumps j) a t) { event_hash = y }
                ≡ x =
              ok-injective (rw c at r) in
            subst (IsAdjudication j) same (record {
              kind = refl;
              company = refl;
              key = refl;
              original = refl;
              actor = refl;
              workflow = refl;
              facts = refl;
              outcome_kind = refl;
              action = refl;
              rationale = refl;
              bundle = refl;
            })
      ]

  -- What holds of the ledger, of the adjudication and of what other writers append goes on holding.
  pub record_adjudication-HoldsOfAll :
      (P : String → String → DecisionEvent → Type 0) (j : Adjudication) (attempts : List Attempt)
      (s : Store)
      → ((x : DecisionEvent) → IsAdjudication j x → HoldsOf P x)
      → ((x : DecisionEvent) → IsForeign attempts x → HoldsOf P x)
      → HoldsOfAll P s
      → HoldsOfAll P (record_adjudication rt h dumps j attempts s).1
  unfolding record_adjudication
  record_adjudication-HoldsOfAll P j attempts s own others holds =
      elim (Bool-cases (strip rt j.rationale == "")) [
        | inl blank ↦ rw (blank, record_adjudication) holds
        | inr given ↦
            rw (given, record_adjudication, as_service-store)
              (append_sealed-HoldsOfAll h P (adjudication_draft rt h dumps j)
                (take max_chain_conflict_retries attempts) s
                (λ a t x q. own x (sealed-IsAdjudication j a t x q))
                (λ x f. others x (f.0, In-take max_chain_conflict_retries f.0 attempts f.1, f.2))
                holds)
      ]
