-- ===== src/Ledger/Sealing.antt =====
-- The retry loop of the decision service, `_append_sealed`: what each round seals, what the loop
-- leaves in the ledger, and when it ends.
use Prim.Native.String.append
use kernl.Prelude.{
  ◌≡◌, refl, sym, ◌∙◌, ap, subst, ◌≢◌, ◌⊎◌, inl, inr, String, Bool, true, false, ◌==◌, Option, none,
  some, List, [], ◌∷◌, eq_iff, eq_refl, Bool-cases,
}
use kernl.Prelude.Lists.{In}
use kernl.Prelude.Result.{Result, ok, err, ok_or_err, ok-injective, bind-eq-ok}
use kernl.Canonical.{Hashing, CanonicalError, content_hash, canonical_json}
use kernl.Ledger.Events.{DecisionEvent, body, verify, sealed, compute_hash}
use kernl.Ledger.Store.{
  LedgerError, chain_conflict, unavailable, not_sealed, non_finite, Store, chain_head, same_hash,
  append, verify_chain, by_idempotency_key, append_if,
}
use kernl.Ledger.Chain.{append_verified-cases}
use kernl.Ledger.Appends.{verify_chain-append, append_ok_recorded, append_at_head}
use kernl.Ledger.Service.{
  Attempt, Draft, unsealed, or_non_finite, seal_raw, interfere, retry, append_sealed,
}

module _ (h : Hashing) where
  compute_hash-nonblank :
      (e : DecisionEvent) (x : String) → compute_hash h e ≡ ok x → (x == "") ≡ false
  unfolding compute_hash content_hash
  compute_hash-nonblank e x c =
      let (t, _, same) = bind-eq-ok (canonical_json h (body h e)) _ c in
      elim (Bool-cases (x == "")) [
        | inr full ↦ full
        | inl blank ↦
            cc (ok-injective same, (eq_iff x "").0 blank, append.cons "s" "ha256:" (h.sha256 t))
      ]

  verify-sealed :
      (u : DecisionEvent) (x : String)
      → compute_hash h u ≡ ok x
      → verify h (record u { event_hash = x }) ≡ ok true
  unfolding verify compute_hash body
  verify-sealed u x c = rw (compute_hash-nonblank u x c, c, verify, eq_refl)

  -- A round that seals makes an event of its draft that verifies and names the head that it read.
  sealed_event :
      (d : Draft) (a : Attempt) (s : Store) (e : DecisionEvent)
      → seal_raw h d a s ≡ ok e
      → (e.company_id ≡ d.company_id)
        × (e.idempotency_key ≡ d.idempotency_key)
        × (e.prev_event_hash ≡ chain_head s d.company_id)
        × (verify h e ≡ ok true)
  unfolding seal_raw sealed
  sealed_event d a s e r = elim (ok_or_err (compute_hash h (unsealed d a s))) [
    | inr (x, c) ↦ cc (rw c at r)
    | inl (x, c) ↦
        let same : record (unsealed d a s) { event_hash = x } ≡ e = ok-injective (rw c at r) in
        (
          ap (λ y. y.company_id) (sym same),
          ap (λ y. y.idempotency_key) (sym same),
          ap (λ y. y.prev_event_hash) (sym same),
          subst (λ y. verify h y ≡ ok true) same (verify-sealed (unsealed d a s) x c),
        )
  ]

  retry-ok :
      (r : Result LedgerError (DecisionEvent × Bool) × Store)
      (again : Store → Result LedgerError (DecisionEvent × Bool) × Store) (x : DecisionEvent × Bool)
      (s' : Store)
      → retry r again ≡ (ok x, s')
      → (r ≡ (ok x, s')) ⊎ ((t : Store) × (r ≡ (err chain_conflict, t)) × (again t ≡ (ok x, s')))
  unfolding retry
  retry-ok (ok y, t) again x s' e = inl e
  retry-ok (err chain_conflict, t) again x s' e = inr (t, refl, e)
  retry-ok (err not_sealed, t) again x s' e = cc (ap (λ p. p.0) e)
  retry-ok (err non_finite, t) again x s' e = cc (ap (λ p. p.0) e)
  retry-ok (err unavailable, t) again x s' e = cc (ap (λ p. p.0) e)

  pub append_sealed-recorded :
      (d : Draft) (attempts : List Attempt) (s s' : Store) (e : DecisionEvent) (created : Bool)
      → append_sealed h d attempts s ≡ (ok (e, created), s')
      → by_idempotency_key s' d.company_id d.idempotency_key ≡ some e
  unfolding append_sealed
  append_sealed-recorded d [] s s' e created r = cc (ap (λ p. p.0) r)
  append_sealed-recorded d (a ∷ later) s s' e created r = elim (ok_or_err (seal_raw h d a s)) [
    | inr (x, q) ↦ cc (ap (λ p. p.0) (rw (q, append_sealed) at r))
    | inl (new, q) ↦
        let (company, key, _, _) = sealed_event d a s new q in
        elim (retry-ok (append h new (interfere h a.others s)) (λ t. append_sealed h d later t)
          (e, created) s' (rw (q, append_sealed) at r)) [
            | inl done ↦
                subst (λ c. by_idempotency_key s' c d.idempotency_key ≡ some e) company
                  (subst (λ k. by_idempotency_key s' new.company_id k ≡ some e) key
                    (append_ok_recorded h new e created (interfere h a.others s) s' done))
            | inr (t, _, more) ↦ append_sealed-recorded d later t s' e created more
          ]
  ]

  interfere-keeps :
      (es : List DecisionEvent) (s : Store) (c : String)
      → verify_chain h s c ≡ ok true
      → verify_chain h (interfere h es s) c ≡ ok true
  unfolding interfere
  interfere-keeps [] s c ch = ch
  interfere-keeps (e ∷ es) s c ch =
      interfere-keeps es (append h e s).1 c (verify_chain-append h e s c ch)

  -- A round that loses the race goes on, with the store that the append left.
  pub retry-keeps :
      (P : Store → Type 0) (r : Result LedgerError (DecisionEvent × Bool) × Store)
      (again : Store → Result LedgerError (DecisionEvent × Bool) × Store)
      → P r.1
      → ((t : Store) → P t → P (again t).1)
      → P (retry r again).1
  unfolding retry
  retry-keeps P (ok y, t) again p step = p
  retry-keeps P (err chain_conflict, t) again p step = step t p
  retry-keeps P (err not_sealed, t) again p step = p
  retry-keeps P (err non_finite, t) again p step = p
  retry-keeps P (err unavailable, t) again p step = p

  pub append_sealed-keeps :
      (d : Draft) (attempts : List Attempt) (s : Store) (c : String)
      → verify_chain h s c ≡ ok true
      → verify_chain h (append_sealed h d attempts s).1 c ≡ ok true
  unfolding append_sealed
  append_sealed-keeps d [] s c ch = ch
  append_sealed-keeps d (a ∷ later) s c ch = elim (ok_or_err (seal_raw h d a s)) [
    | inr (x, q) ↦ rw (q, append_sealed) ch
    | inl (e, q) ↦
        rw (q, append_sealed)
          (retry-keeps (λ t. verify_chain h t c ≡ ok true) (append h e (interfere h a.others s))
            (λ t. append_sealed h d later t)
            (verify_chain-append h e (interfere h a.others s) c (interfere-keeps a.others s c ch))
            (λ t p. append_sealed-keeps d later t c p))
  ]

  same_hash_refl : (x : Option String) → same_hash x x ≡ true
  unfolding same_hash
  same_hash_refl none = refl
  same_hash_refl (some x) = eq_refl x

  seal_raw-available : (d : Draft) (a : Attempt) (s : Store) → seal_raw h d a s ≢ err unavailable
  unfolding seal_raw or_non_finite
  seal_raw-available d a s = by_seal (sealed h (unsealed d a s))
    where
      by_seal : (r : Result CanonicalError DecisionEvent) → or_non_finite r ≢ err unavailable
      by_seal (ok e) = cc
      by_seal (err x) = cc

  append-available : (e : DecisionEvent) (s : Store) → (append h e s).0 ≢ err unavailable
  unfolding append append_if
  append-available e s = by_verdict (verify h e)
    where
      by_verdict : (v : Result CanonicalError Bool) → (append_if v e s).0 ≢ err unavailable
      by_verdict (err x) = cc
      by_verdict (ok false) = cc
      by_verdict (ok true) = elim (append_verified-cases e s) [
        | inl (_, _, n) ↦ λ q. cc (ap (λ x. x.0) n, q)
        | inr (inl (old, _, n)) ↦ λ q. cc (ap (λ x. x.0) n, q)
        | inr (inr (_, _, n)) ↦ λ q. cc (ap (λ x. x.0) n, q)
      ]

  retry-available :
      (r : Result LedgerError (DecisionEvent × Bool) × Store)
      (again : Store → Result LedgerError (DecisionEvent × Bool) × Store)
      → r.0 ≢ err unavailable
      → ((t : Store) → (again t).0 ≢ err unavailable)
      → (retry r again).0 ≢ err unavailable
  unfolding retry
  retry-available (ok x, t) again n more = cc
  retry-available (err chain_conflict, t) again n more = more t
  retry-available (err not_sealed, t) again n more = cc
  retry-available (err non_finite, t) again n more = cc
  retry-available (err unavailable, t) again n more = λ _. n refl

  retry-done :
      (r : Result LedgerError (DecisionEvent × Bool) × Store)
      (again : Store → Result LedgerError (DecisionEvent × Bool) × Store) (x : DecisionEvent × Bool)
      → r.0 ≡ ok x
      → (retry r again).0 ≡ ok x
  unfolding retry
  retry-done (ok y, t) again x e = e
  retry-done (err y, t) again x e = cc

  -- A round without another writer ends the loop: what it sealed names the head still.
  pub append_sealed-settles :
      (d : Draft) (attempts : List Attempt) (s : Store) (a : Attempt)
      → In a attempts
      → a.others ≡ []
      → (append_sealed h d attempts s).0 ≢ err unavailable
  unfolding append_sealed interfere
  append_sealed-settles d [] s a i alone = elim i [ ]
  append_sealed-settles d (b ∷ later) s a i alone = elim (ok_or_err (seal_raw h d b s)) [
    | inr (x, q) ↦ λ z.
        let same : x ≡ unavailable = cc (rw (q, append_sealed) at z) in
        seal_raw-available d b s (q ∙ ap err same)
    | inl (e, q) ↦ elim i [
      | inr i ↦
          rw (q, append_sealed)
            (retry-available (append h e (interfere h b.others s)) (λ t. append_sealed h d later t)
              (append-available e (interfere h b.others s))
              (λ t. append_sealed-settles d later t a i alone))
      | inl same ↦
          let (company, _, prev, v) = sealed_event d b s e q in
          let link : same_hash e.prev_event_hash (chain_head s e.company_id) ≡ true =
            rw (prev, company) (same_hash_refl (chain_head s d.company_id)) in
          let quiet : interfere h b.others s ≡ s = rw (sym same, alone) refl in
          let (x, done) = append_at_head h e s v link in
          rw (q, append_sealed, quiet)
            (λ z. cc (retry-done (append h e s) (λ t. append_sealed h d later t) x done, z))
    ]
  ]
