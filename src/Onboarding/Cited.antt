-- ===== src/Onboarding/Cited.antt =====
-- Each call of the review keeps every draft sound: its verdict is that of its content, and each of its
-- citations quotes a document that the company has stored.
use Prim.Native.String.{◌++◌ as str_append}
use kernl.Prelude.{
  ◌≡◌, refl, sym, ap, subst, ◌∙◌, ◌+◌, String, not, ◌&&◌, ◌==◌, Option, none, some, List, [], ◌∷◌,
  ◌++◌, leb, inl, inr, Bool-cases, Option-cases,
}
use kernl.Prelude.Dict.{Dict}
use kernl.Prelude.PairDict
use kernl.Prelude.Lists.{In, length, In-append}
use kernl.Prelude.Result.{ok, ok_or_err}
use kernl.Python.{Json, ℤ, pos, negsuc}
use kernl.Python.Text.{Runtime}
use kernl.Schema.{Evidence}
use kernl.Onboarding.Sources.{
  SourceStore, SourceSnapshot, get_source, str_length, ground_evidence, cited,
}
use kernl.Onboarding.Grounding.{ground_evidence-quotes}
use kernl.Onboarding.Drafts.{
  EvidenceJson, OnboardingDraft, Validation, build_draft, DraftStore, upsert, get_draft,
}
use kernl.Onboarding.Review.{
  evidence_json, existing_draft, evidence_of, skill_of, skill_or, keep_created, with_evidence,
  put_draft, without_item, save_draft, attach, ground_span, remove_item, remove_evidence,
  set_status,
}
use kernl.Onboarding.Citations.{IsCitation, IsFiled, IsSound, IsReviewed, In-without_item}

module _ (validate : Validation) (sources : SourceStore) where
  upsert-IsReviewed :
      (d : OnboardingDraft) (s : DraftStore)
      → IsSound validate sources d
      → IsReviewed validate sources s
      → IsReviewed validate sources (upsert d s)
  unfolding upsert get_draft
  upsert-IsReviewed d s sound good c i x found =
      elim (PairDict.lookup-insert_cases d.company_id d.draft_id c i d x s found) [
        | inl (company, _, same) ↦
            subst (λ y. (y.company_id ≡ c) × IsSound validate sources y) same (company, sound)
        | inr there ↦ good c i x there
      ]

  with_evidence-IsSound :
      (d : OnboardingDraft) (es : List EvidenceJson) (now : String)
      → ((x : EvidenceJson) → In x es → IsCitation sources d.company_id x)
      → IsSound validate sources (with_evidence validate d es now)
  unfolding with_evidence
  with_evidence-IsSound d es now cited_ = (refl, refl, cited_)

  keep_created-IsSound :
      (old : Option OnboardingDraft) (d : OnboardingDraft)
      → IsSound validate sources d
      → IsSound validate sources (keep_created old d)
  unfolding keep_created
  keep_created-IsSound none d sound = sound
  keep_created-IsSound (some x) d sound = sound

  existing-IsCitation :
      (company : String) (id : Option String) (s : DraftStore) (x : EvidenceJson)
      → IsReviewed validate sources s
      → In x (evidence_of (existing_draft s company id))
      → IsCitation sources company x
  unfolding existing_draft evidence_of
  existing-IsCitation company none s x good m = absurd m
  existing-IsCitation company (some id) s x good m = elim (Bool-cases (id == "")) [
    | inl blank ↦ absurd (rw (blank, existing_draft) at m)
    | inr given ↦ elim (Option-cases (get_draft s company id)) [
      | inl o ↦ absurd (rw (given, o, existing_draft) at m)
      | inr (d, o) ↦
          let (same, (_, _, all)) = good company id d o in
          subst (λ c. IsCitation sources c x) same (all x (rw (given, o, existing_draft) at m))
    ]
  ]

  pub save_draft-IsReviewed :
      (company : String) (proposed : Dict Json) (origin : String) (skill id : Option String)
      (new now : String) (s : DraftStore)
      → IsReviewed validate sources s
      → IsReviewed validate sources
          (save_draft validate company proposed origin skill id new now s).1
  unfolding save_draft build_draft
  save_draft-IsReviewed company proposed origin skill id new now s good =
      let old = existing_draft s company id in
      let d =
        build_draft validate company proposed origin (skill_or skill (skill_of old))
          (evidence_of old) id new now in
      upsert-IsReviewed (keep_created old d) s
        (keep_created-IsSound old d
          (refl, refl, (λ x m. existing-IsCitation company id s x good m)))
        good

  pub remove_evidence-IsReviewed :
      (company id : String) (index : ℤ) (now : String) (s : DraftStore)
      → IsReviewed validate sources s
      → IsReviewed validate sources (remove_evidence validate company id index now s).1
  unfolding remove_evidence remove_item put_draft with_evidence
  remove_evidence-IsReviewed company id index now s good =
      elim (Option-cases (get_draft s company id)) [
        | inl o ↦ rw (o, remove_evidence) good
        | inr (d, o) ↦ rw (o, remove_evidence) (by_index d (good company id d o).1 index)
      ]
    where
      by_index :
          (d : OnboardingDraft)
          → IsSound validate sources d
          → (i : ℤ) → IsReviewed validate sources (remove_item validate d i now s).1
      by_index d sound (negsuc i) = good
      by_index d (_, _, cited_) (pos i) = elim (Bool-cases (leb (length d.evidence_json) i)) [
        | inl out ↦ rw (out, remove_item) good
        | inr fits ↦
            rw (fits, remove_item)
              (upsert-IsReviewed (with_evidence validate d (without_item i d.evidence_json) now) s
                (with_evidence-IsSound d (without_item i d.evidence_json) now
                  (λ x m. cited_ x (In-without_item i x d.evidence_json m)))
                good)
      ]

  -- What a grounding that returns attaches is a citation.
  grounded-IsCitation :
      (rt : Runtime) (company source : String) (snapshot : SourceSnapshot) (start end_ : ℤ)
      (excerpt : String) (e : Evidence)
      → IsFiled sources
      → get_source sources company source ≡ some snapshot
      → ground_evidence rt snapshot start end_ excerpt ≡ ok e
      → IsCitation sources company (evidence_json e)
  unfolding cited
  grounded-IsCitation rt company source snapshot start end_ excerpt e filed found made =
      let (before, after, whole, first, last, _, _, same) =
        ground_evidence-quotes rt snapshot start end_ excerpt e made in
      let id : e.source_id ≡ source =
        ap (λ (y : Evidence). y.source_id) same ∙ filed company source snapshot found in
      let text : e.excerpt ≡ excerpt = ap (λ (y : Evidence). y.excerpt) same in
      (
        e,
        snapshot,
        before,
        after,
        refl,
        subst (λ k. get_source sources company k ≡ some snapshot) (sym id) found,
        ap (λ (y : Evidence). y.source_version) same,
        whole ∙ ap (λ t. str_append before (str_append t after)) (sym text),
        first,
        last ∙ ap (λ t. str_length before + str_length t) (sym text),
      )

  pub ground_span-IsReviewed :
      (rt : Runtime) (company id source : String) (start end_ : ℤ) (excerpt now : String)
      (s : DraftStore)
      → IsFiled sources
      → IsReviewed validate sources s
      → IsReviewed validate sources
          (ground_span validate rt sources company id source start end_ excerpt now s).1
  unfolding ground_span attach put_draft with_evidence
  ground_span-IsReviewed rt company id source start end_ excerpt now s filed good =
      elim (Option-cases (get_draft s company id)) [
        | inl o ↦ rw (o, ground_span) good
        | inr (d, o) ↦ elim (Option-cases (get_source sources company source)) [
          | inl k ↦ rw (o, k, ground_span) good
          | inr (snapshot, k) ↦ elim (ok_or_err (ground_evidence rt snapshot start end_ excerpt)) [
            | inr (x, bad) ↦ rw (o, k, bad, ground_span) good
            | inl (e, made) ↦
                let (same, (_, _, all)) = good company id d o in
                rw (o, k, made, ground_span)
                  (upsert-IsReviewed
                    (with_evidence validate d (d.evidence_json ++ evidence_json e ∷ []) now) s
                    (with_evidence-IsSound d (d.evidence_json ++ evidence_json e ∷ []) now (λ x m.
                      elim (In-append x d.evidence_json (evidence_json e ∷ []) m) [
                        | inl old ↦ all x old
                        | inr (inl new) ↦ subst (IsCitation sources d.company_id) (sym new) (
                            subst (λ c. IsCitation sources c (evidence_json e)) (sym same)
                              (grounded-IsCitation rt company source snapshot start end_ excerpt e
                                filed k made))
                        | inr (inr none_) ↦ absurd none_
                      ]))
                    good)
          ]
        ]
      ]

  pub set_status-IsReviewed :
      (company id status now : String) (s : DraftStore)
      → IsReviewed validate sources s
      → IsReviewed validate sources (set_status company id status now s).1
  unfolding set_status put_draft
  set_status-IsReviewed company id status now s good =
      elim (Option-cases (get_draft s company id)) [
        | inl o ↦ rw (o, set_status) good
        | inr (d, o) ↦ elim (Bool-cases (status == "accepted" && not d.publishable)) [
          | inl held ↦ rw (o, held, set_status) good
          | inr free ↦
              rw (o, free, set_status)
                (upsert-IsReviewed (record d { status = status; updated_at = now }) s
                  (good company id d o).1 good)
        ]
      ]
