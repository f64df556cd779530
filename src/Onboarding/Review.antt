-- ===== src/Onboarding/Review.antt =====
-- The review of drafts, `OnboardingService` of backend/onboarding/service.py. A call returns its result
-- and the drafts that it leaves; the clock and the drawn ids are arguments.
use kernl.Prelude.{
  ℕ, suc, String, not, ◌&&◌, ◌==◌, Option, none, some, List, [], ◌∷◌, ◌++◌, if◌then◌else◌, leb,
}
use kernl.Prelude.Dict.{Dict}
use kernl.Prelude.Lists.{length, take, drop}
use kernl.Prelude.Result.{Result, ok, err}
use kernl.Python.{Json, int, str, ℤ, pos, negsuc}
use kernl.Python.Text.{Runtime}
use kernl.Schema.{Evidence}
use kernl.Onboarding.Sources.{SourceStore, get_source, GroundingError, ground_evidence}
use kernl.Onboarding.Drafts.{
  EvidenceJson, OnboardingDraft, Validation, evaluate_draft, build_draft, DraftStore, upsert,
  get_draft,
}

-- What the calls raise.
pub data ReviewError : Type 0 where
  unknown_draft unknown_source index_out_of_range : ReviewError
  grounding : GroundingError → ReviewError
  not_publishable : List String → ReviewError

abbrev pub Reviewed : Type 0
Reviewed = Result ReviewError OnboardingDraft × DraftStore

-- `Evidence.model_dump(mode="json")`
unfoldable pub evidence_json : Evidence → EvidenceJson
evidence_json e =
    ("source_id", str e.source_id)
    ∷ ("source_version", str e.source_version)
    ∷ ("span_start", int (pos e.span_start))
    ∷ ("span_end", int (pos e.span_end))
    ∷ ("excerpt", str e.excerpt)
    ∷ []

-- `self.drafts.get(company_id, draft_id) if draft_id else None`
unfoldable pub existing_draft : DraftStore → String → Option String → Option OnboardingDraft
unfolding get_draft
existing_draft s company none = none
existing_draft s company (some id) = if id == "" then none else get_draft s company id

unfoldable pub evidence_of : Option OnboardingDraft → List EvidenceJson
evidence_of none = []
evidence_of (some d) = d.evidence_json

unfoldable pub skill_of : Option OnboardingDraft → Option String
skill_of none = none
skill_of (some d) = d.source_skill_id

-- `source_skill_id or ...`
unfoldable pub skill_or : Option String → Option String → Option String
skill_or none other = other
skill_or (some x) other = if x == "" then other else some x

unfoldable pub keep_created : Option OnboardingDraft → OnboardingDraft → OnboardingDraft
keep_created none d = d
keep_created (some old) d = record d { created_at = old.created_at }

-- A draft with other evidence: the update of `ground_span` and `remove_evidence`.
unfoldable pub with_evidence :
    Validation → OnboardingDraft → List EvidenceJson → String → OnboardingDraft
unfolding evaluate_draft
with_evidence validate d evidence now = record d {
  evidence_json = evidence;
  publishable = (evaluate_draft validate d.proposed_json evidence).0;
  issues_json = (evaluate_draft validate d.proposed_json evidence).1;
  updated_at = now;
}

-- `return self.drafts.upsert(...)`
unfoldable pub put_draft : OnboardingDraft → DraftStore → Reviewed
unfolding upsert
put_draft d s = (ok d, upsert d s)

-- `draft.evidence_json[:i] + draft.evidence_json[i + 1:]`
unfoldable pub without_item : ℕ → List EvidenceJson → List EvidenceJson
without_item i es = take i es ++ drop (suc i) es

module _ (validate : Validation) where
  unfoldable pub save_draft :
      String
      → Dict Json
      → String
      → Option String
      → Option String
      → String
      → String
      → DraftStore
      → OnboardingDraft × DraftStore
  unfolding existing_draft evidence_of skill_of skill_or keep_created build_draft upsert
  save_draft company proposed origin skill id new now s =
      let old = existing_draft s company id in
      let d = keep_created old (
        build_draft validate company proposed origin (skill_or skill (skill_of old))
          (evidence_of old) id new now) in
      (d, upsert d s)

  -- `ground_span` from what the grounding gave.
  unfoldable pub attach :
      OnboardingDraft → Result GroundingError Evidence → String → DraftStore → Reviewed
  unfolding with_evidence evidence_json put_draft
  attach d (err e) now s = (err (grounding e), s)
  attach d (ok e) now s =
      put_draft (with_evidence validate d (d.evidence_json ++ evidence_json e ∷ []) now) s

  unfoldable pub ground_span :
      Runtime
      → SourceStore
      → String
      → String
      → String
      → ℤ
      → ℤ
      → String
      → String
      → DraftStore
      → Reviewed
  unfolding attach get_source get_draft
  ground_span rt sources company id source start end_ excerpt now s =
      elim (get_draft s company id) [
        | none ↦ (err unknown_draft, s)
        | some d ↦ elim (get_source sources company source) [
          | none ↦ (err unknown_source, s)
          | some snapshot ↦ attach d (ground_evidence rt snapshot start end_ excerpt) now s
        ]
      ]

  -- `remove_evidence` of a draft; an index below zero is out of range.
  unfoldable pub remove_item : OnboardingDraft → ℤ → String → DraftStore → Reviewed
  unfolding with_evidence without_item put_draft
  remove_item d (negsuc i) now s = (err index_out_of_range, s)
  remove_item d (pos i) now s =
      if leb (length d.evidence_json) i
      then (err index_out_of_range, s)
      else put_draft (with_evidence validate d (without_item i d.evidence_json) now) s

  unfoldable pub remove_evidence : String → String → ℤ → String → DraftStore → Reviewed
  unfolding remove_item get_draft
  remove_evidence company id index now s = elim (get_draft s company id) [
    | none ↦ (err unknown_draft, s)
    | some d ↦ remove_item d index now s
  ]

unfoldable pub set_status : String → String → String → String → DraftStore → Reviewed
unfolding get_draft put_draft
set_status company id status now s = elim (get_draft s company id) [
  | none ↦ (err unknown_draft, s)
  | some d ↦
      if status == "accepted" && not d.publishable
      then (err (not_publishable d.issues_json), s)
      else put_draft (record d { status = status; updated_at = now }) s
]
