-- ===== src/Ledger/Appends.antt =====
-- What an append does: it keeps every company's chain, only extends the streams, and answers a used
-- idempotency key with the event that has it.
use kernl.Prelude.{
  ◌≡◌, refl, sym, ap, subst, ◌∙◌, ◌⊎◌, inl, inr, String, Bool, true, false, ◌==◌, Option, none,
  some, List, [], ◌∷◌, ◌++◌, if◌then◌else◌, eq_iff, eq_refl, Bool-cases,
}
use kernl.Prelude.PairDict
use kernl.Prelude.Result.{Result, ok, err, ok-injective}
use kernl.Canonical.{Hashing, CanonicalError}
use kernl.Ledger.Events.{DecisionEvent, verify}
use kernl.Ledger.Store.{
  Store, stream, chain_head, same_hash, add, append_verified, append_if, append, verify_chain,
  by_idempotency_key, get,
}
use kernl.Ledger.Chain.{
  last_hash, head_hash-eq-last_hash-none, stream-add, stream-set_default, append_verified-cases,
  verify_from-append,
}

-- The two things that an append can do to a company's stream.
abbrev pub Extends : Hashing → DecisionEvent → String → Store → Store → Type 0
Extends h e c s s' =
    (stream s' c ≡ stream s c)
    ⊎ ((stream s' c ≡ stream s c ++ e ∷ [])
        × (e.company_id ≡ c)
        × (verify h e ≡ ok true)
        × (same_hash e.prev_event_hash (chain_head s c) ≡ true))

added_stream :
    (e : DecisionEvent) (s : Store)
    → stream (add s e) e.company_id ≡ stream s e.company_id ++ e ∷ []
added_stream e s = rw stream-add (rw eq_refl refl)

added_id : (e : DecisionEvent) (s : Store) → get (add s e) e.company_id e.event_id ≡ some e
unfolding get add
added_id e s = PairDict.lookup-insert_self e.company_id e.event_id e s.by_id

added_key :
    (e : DecisionEvent) (s : Store)
    → by_idempotency_key (add s e) e.company_id e.idempotency_key ≡ some e
unfolding by_idempotency_key add
added_key e s = PairDict.lookup-insert_self e.company_id e.idempotency_key e s.by_key

last_hash-append :
    (init : Option String) (es : List DecisionEvent) (e : DecisionEvent)
    → last_hash init (es ++ e ∷ []) ≡ some e.event_hash
last_hash-append init [] e = refl
last_hash-append init (x ∷ es) e = last_hash-append (some x.event_hash) es e

added_head : (e : DecisionEvent) (s : Store) → chain_head (add s e) e.company_id ≡ some e.event_hash
unfolding chain_head
added_head e s =
    head_hash-eq-last_hash-none (stream (add s e) e.company_id)
    ∙ ap (last_hash none) (added_stream e s)
    ∙ last_hash-append none (stream s e.company_id) e

module _ (h : Hashing) where
  add-Extends :
      (e : DecisionEvent) (s : Store) (c : String)
      → verify h e ≡ ok true
      → same_hash e.prev_event_hash (chain_head s e.company_id) ≡ true
      → Extends h e c s (add s e)
  add-Extends e s c v link = elim (Bool-cases (e.company_id == c)) [
    | inr other ↦
        inl (stream-add s e c ∙ ap (λ t. if t then stream s c ++ e ∷ [] else stream s c) other)
    | inl same ↦
        let k : e.company_id ≡ c = (eq_iff e.company_id c).0 same in
        inr (
          stream-add s e c ∙ ap (λ t. if t then stream s c ++ e ∷ [] else stream s c) same,
          k,
          v,
          subst (λ x. same_hash e.prev_event_hash (chain_head s x) ≡ true) k link,
        )
  ]

  append_verified-Extends :
      (e : DecisionEvent) (s : Store) (c : String)
      → verify h e ≡ ok true
      → Extends h e c s (append_verified e s).1
  append_verified-Extends e s c v = elim (append_verified-cases e s) [
    | inl (_, link, r) ↦ subst (Extends h e c s) (ap (λ x. x.1) (sym r)) (add-Extends e s c v link)
    | inr (inl (old, _, r)) ↦ inl (ap (λ x. stream x.1 c) r)
    | inr (inr (_, _, r)) ↦ inl (ap (λ x. stream x.1 c) r ∙ stream-set_default s e.company_id c)
  ]

  -- An append leaves each company's stream as it is, or adds the event at its end: an event of that
  -- company that verifies and that names the hash of the one before it. No event is ever changed or
  -- removed.
  pub append-Extends :
      (e : DecisionEvent) (s : Store) (c : String) → Extends h e c s (append h e s).1
  unfolding append
  append-Extends e s c = by_verdict (verify h e) refl
    where
      by_verdict :
          (v : Result CanonicalError Bool) → verify h e ≡ v → Extends h e c s (append_if v e s).1
      by_verdict (err x) w = inl refl
      by_verdict (ok false) w = inl refl
      by_verdict (ok true) w = append_verified-Extends e s c w

  -- Every company's chain that verifies before an append verifies after it.
  pub verify_chain-append :
      (e : DecisionEvent) (s : Store) (c : String)
      → verify_chain h s c ≡ ok true
      → verify_chain h (append h e s).1 c ≡ ok true
  unfolding verify_chain chain_head
  verify_chain-append e s c ch = elim (append-Extends e s c) [
    | inl same ↦ rw same ch
    | inr (longer, _, v, link) ↦ rw longer (
        verify_from-append h none (stream s c) e ch v (
          subst (λ x. same_hash e.prev_event_hash x ≡ true)
            (head_hash-eq-last_hash-none (stream s c)) link))
  ]

  -- An append under an idempotency key that the company has used returns the event that was recorded
  -- under it, with `created` false, and leaves the store as it is.
  pub append_again :
      (e old : DecisionEvent) (s : Store)
      → verify h e ≡ ok true
      → by_idempotency_key s e.company_id e.idempotency_key ≡ some old
      → append h e s ≡ (ok (old, false), s)
  unfolding append append_verified by_idempotency_key
  append_again e old s v k = rw (v, append_if, k, append_verified)

  -- An append that returns `created` true has recorded the event that it returns: it is the last of
  -- its company's stream, its hash is the head of the chain, and both lookups find it; its key was
  -- not used before.
  pub append_created :
      (e e' : DecisionEvent) (s s' : Store)
      → append h e s ≡ (ok (e', true), s')
      → (e' ≡ e)
        × (by_idempotency_key s e.company_id e.idempotency_key ≡ none)
        × (stream s' e.company_id ≡ stream s e.company_id ++ e ∷ [])
        × (get s' e.company_id e.event_id ≡ some e)
        × (by_idempotency_key s' e.company_id e.idempotency_key ≡ some e)
        × (chain_head s' e.company_id ≡ some e.event_hash)
  unfolding append
  append_created e e' s s' r = by_verdict (verify h e) r
    where
      by_verdict :
          (v : Result CanonicalError Bool)
          → append_if v e s ≡ (ok (e', true), s')
          → (e' ≡ e)
            × (by_idempotency_key s e.company_id e.idempotency_key ≡ none)
            × (stream s' e.company_id ≡ stream s e.company_id ++ e ∷ [])
            × (get s' e.company_id e.event_id ≡ some e)
            × (by_idempotency_key s' e.company_id e.idempotency_key ≡ some e)
            × (chain_head s' e.company_id ≡ some e.event_hash)
      by_verdict (err x) q = cc (ap (λ x. x.0) q)
      by_verdict (ok false) q = cc (ap (λ x. x.0) q)
      by_verdict (ok true) q = elim (append_verified-cases e s) [
        | inl (unused, _, n) ↦
            let both = sym n ∙ q in
            let same = ap (λ (x : DecisionEvent × Bool). x.0) (ok-injective (ap (λ x. x.0) both)) in
            (
              sym same,
              unused,
              subst (λ x. stream x e.company_id ≡ stream s e.company_id ++ e ∷ [])
                  (ap (λ x. x.1) both) (added_stream e s),
              subst (λ x. get x e.company_id e.event_id ≡ some e) (ap (λ x. x.1) both)
                  (added_id e s),
              subst (λ x. by_idempotency_key x e.company_id e.idempotency_key ≡ some e)
                  (ap (λ x. x.1) both) (added_key e s),
              subst (λ x. chain_head x e.company_id ≡ some e.event_hash) (ap (λ x. x.1) both)
                  (added_head e s),
            )
        | inr (inl (old, _, n)) ↦
            cc (ap (λ (x : DecisionEvent × Bool). x.1) (ok-injective (ap (λ x. x.0) (sym n ∙ q))))
        | inr (inr (_, _, n)) ↦ cc (ap (λ x. x.0) (sym n ∙ q))
      ]

  -- Whether the event that an append returns is new or old, it stands in the store under its key.
  pub append_ok_recorded :
      (e e' : DecisionEvent) (created : Bool) (s s' : Store)
      → append h e s ≡ (ok (e', created), s')
      → by_idempotency_key s' e.company_id e.idempotency_key ≡ some e'
  unfolding append
  append_ok_recorded e e' created s s' r = by_verdict (verify h e) r
    where
      by_verdict :
          (v : Result CanonicalError Bool)
          → append_if v e s ≡ (ok (e', created), s')
          → by_idempotency_key s' e.company_id e.idempotency_key ≡ some e'
      by_verdict (err x) q = cc (ap (λ x. x.0) q)
      by_verdict (ok false) q = cc (ap (λ x. x.0) q)
      by_verdict (ok true) q = elim (append_verified-cases e s) [
        | inl (_, _, n) ↦
            let both = sym n ∙ q in
            let same = ap (λ (x : DecisionEvent × Bool). x.0) (ok-injective (ap (λ x. x.0) both)) in
            subst (λ x. by_idempotency_key x e.company_id e.idempotency_key ≡ some e')
              (ap (λ x. x.1) both) (added_key e s ∙ ap some same)
        | inr (inl (old, k, n)) ↦
            let both = sym n ∙ q in
            let same = ap (λ (x : DecisionEvent × Bool). x.0) (ok-injective (ap (λ x. x.0) both)) in
            subst (λ x. by_idempotency_key x e.company_id e.idempotency_key ≡ some e')
              (ap (λ x. x.1) both) (k ∙ ap some same)
        | inr (inr (_, _, n)) ↦ cc (ap (λ x. x.0) (sym n ∙ q))
      ]

  -- An event that verifies and names the head of its company's chain is not refused.
  pub append_at_head :
      (e : DecisionEvent) (s : Store)
      → verify h e ≡ ok true
      → same_hash e.prev_event_hash (chain_head s e.company_id) ≡ true
      → (r : DecisionEvent × Bool) × ((append h e s).0 ≡ ok r)
  unfolding append
  append_at_head e s v link = elim (append_verified-cases e s) [
    | inl (_, _, n) ↦ ((e, true), rw (v, append_if) (ap (λ x. x.0) n))
    | inr (inl (old, _, n)) ↦ ((old, false), rw (v, append_if) (ap (λ x. x.0) n))
    | inr (inr (_, other, n)) ↦ cc (link, other)
  ]
