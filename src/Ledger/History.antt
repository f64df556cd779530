-- ===== src/Ledger/History.antt =====
-- The hash chain binds the history: the hash of the last event determines every event before it.
use kernl.Prelude.{
  ◌≡◌, refl, sym, ap, subst, ◌∙◌, inl, inr, String, true, ◌==◌, Option, none, some, List, [], ◌∷◌,
  eq_iff, Bool-cases, if◌then◌else◌,
}
use Prim.Native.String.{◌++◌ as str_append}
use Prim.Native.String.append
use kernl.Prelude.Result.{Result, ok, ok-injective, bind-eq-ok}
use kernl.Canonical.{
  Hashing, CanonicalError, canonical_json, content_hash, normalize, normalize_fields,
}
use kernl.Ledger.Events.{DecisionEvent, body, fields, opt_str, compute_hash, verify}
use kernl.Python.{Json, obj, Fields, end, field}
use kernl.Ledger.Store.{Store, stream, chain_head, verify_from, verify_chain}
use kernl.Ledger.Chain.{same_hash→eq, last_hash, head_hash-eq-last_hash-none, chain_step-true}

-- The canonical text of an event, over which its hash is taken.
abbrev pub text_of : Hashing → DecisionEvent → Result CanonicalError String
text_of h e = canonical_json h (body h e)

-- The events of a stream, the newest first.
abbrev pub newest_first : List DecisionEvent → List DecisionEvent → List DecisionEvent
newest_first [] done = done
newest_first (e ∷ es) done = newest_first es (e ∷ done)

abbrev pub texts : Hashing → List DecisionEvent → List (Result CanonicalError String)
texts h [] = []
texts h (e ∷ es) = text_of h e ∷ texts h es

pub append_cancel : (p x y : String) → str_append p x ≡ str_append p y → x ≡ y
append_cancel String.[] x y e = cc (e, append.nil x, append.nil y)
append_cancel (String.◌∷◌ c p) x y e =
    append_cancel p x y (cc (e, append.cons c p x, append.cons c p y))

module _ (h : Hashing) where
  hash_of : List DecisionEvent → Option String
  hash_of [] = none
  hash_of (e ∷ _) = some e.event_hash

  -- Each event verifies and names the hash of the next older one.
  abbrev Linked : List DecisionEvent → Type 0
  Linked [] = Unit
  Linked (e ∷ es) = (verify h e ≡ ok true) × (e.prev_event_hash ≡ hash_of es) × Linked es

  Linked-of_chain :
      (es done : List DecisionEvent)
      → verify_from h (hash_of done) es ≡ ok true
      → Linked done
      → Linked (newest_first es done)
  unfolding verify_from hash_of
  Linked-of_chain [] done ch l = l
  Linked-of_chain (e ∷ es) done ch l =
      let (v, link, rest) = chain_step-true _ _ _ ch in
      Linked-of_chain es (e ∷ done) rest (v, same_hash→eq e.prev_event_hash (hash_of done) link, l)

  hash_of-newest_first :
      (es done : List DecisionEvent) → hash_of (newest_first es done) ≡ last_hash (hash_of done) es
  unfolding hash_of
  hash_of-newest_first [] done = refl
  hash_of-newest_first (e ∷ es) done = hash_of-newest_first es (e ∷ done)

  -- The hash of an event that verifies is the one that is computed from its text.
  verified_hash : (e : DecisionEvent) → verify h e ≡ ok true → compute_hash h e ≡ ok e.event_hash
  unfolding verify
  verified_hash e v = elim (Bool-cases (e.event_hash == "")) [
    | inl blank ↦ cc (rw (blank, verify) at v)
    | inr full ↦
        let (x, c, same) = bind-eq-ok (compute_hash h e) _ (rw (full, verify) at v) in
        c ∙ ap ok (sym ((eq_iff e.event_hash x).0 (ok-injective same)))
  ]

  -- The text behind the hash of an event that verifies.
  hashed_text :
      (e : DecisionEvent)
      → verify h e ≡ ok true
      → (t : String) × (text_of h e ≡ ok t) × (str_append "sha256:" (h.sha256 t) ≡ e.event_hash)
  unfolding compute_hash content_hash
  hashed_text e v =
      let (t, c, same) = bind-eq-ok (canonical_json h (body h e)) _ (verified_hash e v) in
      (t, c, ok-injective same)

-- `d[k]` of a JSON object.
abbrev pub member : String → Fields → Option Json
member k end = none
member k (field j x fs) = let rest = member k fs in if j == k then some x else rest

normalize-opt_str : (v : Option String) → normalize (opt_str v) ≡ ok (opt_str v)
unfolding normalize opt_str
normalize-opt_str none = refl
normalize-opt_str (some s) = refl

-- The normal form of an object has the same texts and nulls.
pub normalize_fields-member :
    (k : String) (v : Option String) (fs gs : Fields)
    → normalize_fields fs ≡ ok gs
    → member k fs ≡ some (opt_str v)
    → member k gs ≡ some (opt_str v)
unfolding normalize_fields
normalize_fields-member k v end gs h m = cc
normalize_fields-member k v (field j x fs) gs h m =
    let (y, ny, rest) = bind-eq-ok (normalize x) _ h in
    let (ys, nys, done) = bind-eq-ok (normalize_fields fs) _ rest in
    subst (λ z. member k z ≡ some (opt_str v)) (ok-injective done)
      (elim (Bool-cases (j == k)) [
        | inr other ↦ rw other (normalize_fields-member k v fs ys nys (rw other at m))
        | inl here ↦
            let this : some x ≡ some (opt_str v) = rw here at m in
            let is_text : x ≡ opt_str v = cc this in
            let same : y ≡ opt_str v =
              ok-injective (sym ny ∙ ap normalize is_text ∙ normalize-opt_str v) in
            rw here (ap some same)
      ])

-- The members of an event's body.
body_fields : Hashing → DecisionEvent → Fields
unfolding body
body_fields h e = elim (body h e) [ obj fs ↦ fs | _ ↦ end ]

body-eq-obj : (h : Hashing) (e : DecisionEvent) → body h e ≡ obj (body_fields h e)
unfolding body body_fields
body-eq-obj h e = refl

body_fields-prev :
    (h : Hashing) (e : DecisionEvent)
    → member "prev_event_hash" (body_fields h e) ≡ some (opt_str e.prev_event_hash)
unfolding body body_fields fields
body_fields-prev h e = refl

module _ (h : Hashing) (sha256-injective : (a b : String) → h.sha256 a ≡ h.sha256 b → a ≡ b)
    (dumps-member : (fs gs : Fields) (v w : Option String)
      → h.dumps (obj fs) ≡ h.dumps (obj gs)
      → member "prev_event_hash" fs ≡ some (opt_str v)
      → member "prev_event_hash" gs ≡ some (opt_str w)
      → v ≡ w) where
  -- The object behind the text of an event, with the event's `prev_event_hash`.
  dumped_fields :
      (e : DecisionEvent) (t : String)
      → text_of h e ≡ ok t
      → (fs : Fields) × (h.dumps (obj fs) ≡ t)
        × (member "prev_event_hash" fs ≡ some (opt_str e.prev_event_hash))
  unfolding canonical_json normalize
  dumped_fields e t q =
      let q' : canonical_json h (obj (body_fields h e)) ≡ ok t =
        subst (λ x. canonical_json h x ≡ ok t) (body-eq-obj h e) q in
      let (y, n, shown) = bind-eq-ok (normalize (obj (body_fields h e))) _ q' in
      let (fs, nf, same) = bind-eq-ok (normalize_fields (body_fields h e)) _ n in
      (
        fs,
        ap h.dumps (ok-injective same) ∙ ok-injective shown,
        normalize_fields-member "prev_event_hash" e.prev_event_hash (body_fields h e) fs nf
            (body_fields-prev h e),
      )

  text-prev :
      (a b : DecisionEvent) (t : String)
      → text_of h a ≡ ok t
      → text_of h b ≡ ok t
      → a.prev_event_hash ≡ b.prev_event_hash
  text-prev a b t p q =
      let (fs, sf, mf) = dumped_fields a t p in
      let (gs, sg, mg) = dumped_fields b t q in
      dumps-member fs gs a.prev_event_hash b.prev_event_hash (sf ∙ sym sg) mf mg

  same_event :
      (a b : DecisionEvent)
      → verify h a ≡ ok true
      → verify h b ≡ ok true
      → a.event_hash ≡ b.event_hash
      → (text_of h a ≡ text_of h b) × (a.prev_event_hash ≡ b.prev_event_hash)
  same_event a b va vb e =
      let (t, ta, ha) = hashed_text h a va in
      let (u, tb, hb) = hashed_text h b vb in
      let same = sha256-injective t u (append_cancel "sha256:" _ _ (ha ∙ e ∙ sym hb)) in
      (ta ∙ ap ok same ∙ sym tb, text-prev a b t ta (tb ∙ ap ok (sym same)))

  Linked-same :
      (es fs : List DecisionEvent)
      → Linked h es
      → Linked h fs
      → hash_of h es ≡ hash_of h fs
      → texts h es ≡ texts h fs
  unfolding hash_of
  Linked-same [] [] l m e = refl
  Linked-same [] (f ∷ fs) l m e = cc
  Linked-same (e ∷ es) [] l m q = cc
  Linked-same (e ∷ es) (f ∷ fs) (v, p, l) (w, q, m) same =
      let (text, prev) = same_event e f v w (cc same) in
      let rest = Linked-same es fs l m (sym p ∙ prev ∙ q) in cc (text, rest)

  -- Two ledgers whose chains verify and have one head hash hold the same events, in the same order,
  -- by their canonical texts: no event before the head can be changed, dropped or inserted. It takes
  -- that SHA-256 has no collision, and of `json.dumps` that two objects that have a text or a null
  -- under "prev_event_hash" have the same one there if they have the same JSON text.
  pub chain_head-determines_history :
      (s s' : Store) (c c' : String)
      → verify_chain h s c ≡ ok true
      → verify_chain h s' c' ≡ ok true
      → chain_head s c ≡ chain_head s' c'
      → texts h (newest_first (stream s c) []) ≡ texts h (newest_first (stream s' c') [])
  unfolding verify_chain chain_head hash_of
  chain_head-determines_history s s' c c' v v' same =
      let es = stream s c in
      let fs = stream s' c' in
      Linked-same (newest_first es []) (newest_first fs []) (Linked-of_chain h es [] v tt)
        (Linked-of_chain h fs [] v' tt)
        (hash_of-newest_first h es []
          ∙ sym (head_hash-eq-last_hash-none es)
          ∙ same
          ∙ head_hash-eq-last_hash-none fs
          ∙ sym (hash_of-newest_first h fs []))
