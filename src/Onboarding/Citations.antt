-- ===== src/Onboarding/Citations.antt =====
-- What it is for an item of evidence to be a citation of a stored document, and for a draft to be
-- sound; and what the store of documents keeps.
use Prim.Native.String.{◌++◌ as str_append}
use kernl.Prelude.{
  ◌≡◌, sym, ap, ◌∙◌, ℕ, zero, suc, ◌+◌, String, some, List, [], ◌∷◌, inl, inr, Option-cases,
}
use kernl.Prelude.PairDict
use kernl.Prelude.Lists.{In, take, drop, In-append}
use kernl.Schema.{Evidence}
use kernl.Onboarding.Sources.{
  SourceStore, SourceSnapshot, get_source, add_source, stamped, str_length,
}
use kernl.Onboarding.Drafts.{
  EvidenceJson, OnboardingDraft, Validation, evaluate_draft, DraftStore, get_draft,
}
use kernl.Onboarding.Review.{evidence_json, without_item}

-- The item is the dump of an evidence whose excerpt stands at its span in a stored document.
abbrev pub IsCitation : SourceStore → String → EvidenceJson → Type 0
IsCitation sources company x =
    (e : Evidence) × (s : SourceSnapshot) × (before after : String) × (x ≡ evidence_json e)
    × (get_source sources company e.source_id ≡ some s)
    × (e.source_version ≡ s.content_hash)
    × (s.content ≡ str_append before (str_append e.excerpt after))
    × (e.span_start ≡ str_length before)
    × (e.span_end ≡ str_length before + str_length e.excerpt)

-- Each document stands under its own id.
abbrev pub IsFiled : SourceStore → Type 0
IsFiled sources =
    (c i : String) (s : SourceSnapshot) → get_source sources c i ≡ some s → s.source_id ≡ i

-- The draft's verdict is that of its content, and its citations are citations.
abbrev pub IsSound : Validation → SourceStore → OnboardingDraft → Type 0
IsSound validate sources d =
    (d.publishable ≡ (evaluate_draft validate d.proposed_json d.evidence_json).0)
    × (d.issues_json ≡ (evaluate_draft validate d.proposed_json d.evidence_json).1)
    × ((x : EvidenceJson) → In x d.evidence_json → IsCitation sources d.company_id x)

abbrev pub IsReviewed : Validation → SourceStore → DraftStore → Type 0
IsReviewed validate sources drafts =
    (c i : String) (d : OnboardingDraft)
    → get_draft drafts c i ≡ some d
    → (d.company_id ≡ c) × IsSound validate sources d

pub IsCitation-keeps :
    (sources sources' : SourceStore) (c : String) (x : EvidenceJson)
    → ((i : String) (s : SourceSnapshot)
        → get_source sources c i ≡ some s
        → get_source sources' c i ≡ some s)
    → IsCitation sources c x
    → IsCitation sources' c x
IsCitation-keeps sources sources' c x keeps (e, s, before, after, same, found, v, w, f, l) =
    (e, s, before, after, same, keeps e.source_id s found, v, w, f, l)

-- A document that is added is added under a new key, or not at all.
pub add_source-keeps :
    (x : SourceSnapshot) (now : String) (sources : SourceStore) (c i : String) (s : SourceSnapshot)
    → get_source sources c i ≡ some s
    → get_source (add_source x now sources).1 c i ≡ some s
unfolding add_source get_source
add_source-keeps x now sources c i s found =
    elim (Option-cases (PairDict.lookup x.company_id x.source_id sources)) [
      | inr (old, o) ↦ rw (o, add_source) found
      | inl o ↦
          rw (o, add_source)
            (PairDict.lookup-insert_keeps x.company_id x.source_id c i (stamped x now) s sources o
              found)
    ]

pub add_source-IsFiled :
    (x : SourceSnapshot) (now : String) (sources : SourceStore)
    → IsFiled sources
    → IsFiled (add_source x now sources).1
unfolding add_source get_source stamped
add_source-IsFiled x now sources filed =
    elim (Option-cases (PairDict.lookup x.company_id x.source_id sources)) [
      | inr (old, o) ↦ rw (o, add_source) filed
      | inl o ↦
          rw (o, add_source)
            (λ c i s found.
              elim (PairDict.lookup-insert_cases x.company_id x.source_id c i (stamped x now) s
                sources found) [
                  | inl (_, id, same) ↦ ap (λ (y : SourceSnapshot). y.source_id) (sym same) ∙ id
                  | inr there ↦ filed c i s there
                ])
    ]

In-take : (n : ℕ) (x : EvidenceJson) (xs : List EvidenceJson) → In x (take n xs) → In x xs
In-take zero x xs m = absurd m
In-take (suc n) x [] m = m
In-take (suc n) x (y ∷ ys) (inl e) = inl e
In-take (suc n) x (y ∷ ys) (inr m) = inr (In-take n x ys m)

In-drop : (n : ℕ) (x : EvidenceJson) (xs : List EvidenceJson) → In x (drop n xs) → In x xs
In-drop zero x xs m = m
In-drop (suc n) x [] m = m
In-drop (suc n) x (y ∷ ys) m = inr (In-drop n x ys m)

pub In-without_item :
    (i : ℕ) (x : EvidenceJson) (es : List EvidenceJson) → In x (without_item i es) → In x es
unfolding without_item
In-without_item i x es m = elim (In-append x (take i es) (drop (suc i) es) m) [
  | inl early ↦ In-take i x es early
  | inr late ↦ In-drop (suc i) x es late
]
