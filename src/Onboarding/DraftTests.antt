-- ===== src/Onboarding/DraftTests.antt =====
-- A draft that is grounded, accepted, and stripped of its evidence; and the workflow of two policies.
use kernl.Prelude.{◌≡◌, refl, inl, inr, String, Bool, true, false, Option, none, some, [], ◌∷◌}
use kernl.Prelude.Dict
use kernl.Prelude.PairDict
use kernl.Prelude.Sort.{sort_by, distinct}
use kernl.Prelude.Result.{ok}
use kernl.Prelude.Lists.{In}
use kernl.Python.{pos}
use kernl.Python.Text.{strip, prefix}
use kernl.Schema.{WorkflowSpec, FactSpec, number, ValueType}
use kernl.Schema.Validate.{
  check_evidence, each, check_workflow, check_fact, has_duplicates, is_snake, is_empty,
}
use kernl.Schema.Integrity.{same_type}
use kernl.Evaluator.Sample.{plain, small, fraud, amount_lte, fact}
use kernl.Ledger.Sample.{digest}
use kernl.Onboarding.Sources.{
  SourceSnapshot, SourceStore, make_snapshot, text_hash, slice, suffix, str_length, utf8_length,
  char_width, cited, ground_evidence, span_of, validated, add_source, get_source, stamped,
}
use kernl.Onboarding.Drafts.{
  OnboardingDraft, Validation, DraftStore, get_draft, upsert, build_draft, evaluate_draft,
  candidate_of, errors_of, id_or_new, evidence_items,
}
use kernl.Onboarding.Review.{
  save_draft, ground_span, remove_evidence, set_status, attach, remove_item, with_evidence,
  put_draft, without_item, existing_draft, evidence_of, skill_of, skill_or, keep_created,
  evidence_json,
}
use kernl.Onboarding.Citations.{IsReviewed}
use kernl.Onboarding.Desk.{
  Reachable, start, uploaded, saved, grounded, decided, Reachable-IsReviewed,
}
use kernl.Onboarding.Assembly.{
  infer_workflows, declare_policies, declare_fields, fields_of, workflow_specs, fact_specs,
  fact_spec, sorted_items, or_bad,
}
use kernl.Onboarding.Declared.{infer_workflows-declares}

-- A validation that takes every candidate for one policy.
abbrev lenient : Validation
lenient candidate = ok small

abbrev document : SourceSnapshot
document = make_snapshot digest "acme" "refunds.md" "Pay small claims."

shelf : SourceStore
unfolding add_source stamped make_snapshot text_hash slice suffix prefix utf8_length char_width
    PairDict.lookup PairDict.insert
shelf = (add_source document "t0" []).1

proposed : DraftStore
unfolding save_draft existing_draft evidence_of skill_of skill_or keep_created build_draft upsert
    evaluate_draft candidate_of errors_of id_or_new evidence_items PairDict.insert Dict.insert
    is_empty
proposed = (save_draft lenient "acme" [] "authored" none none "od_1" "t1" []).1

quoted : DraftStore
unfolding shelf proposed ground_span attach get_source get_draft with_evidence put_draft
    evidence_json ground_evidence span_of str_length check_evidence validated cited strip
    PairDict.lookup
quoted =
    (ground_span lenient plain shelf "acme" "od_1" document.source_id (pos 4) (pos 9) "small" "t2"
      proposed).1

accepted : DraftStore
unfolding quoted set_status
accepted = (set_status "acme" "od_1" "accepted" "t3" quoted).1

stripped : DraftStore
unfolding accepted remove_evidence remove_item without_item
stripped = (remove_evidence lenient "acme" "od_1" (pos 0) "t4" accepted).1

-- The review's state of a draft: its status and whether it can be published.
abbrev state_of : Option OnboardingDraft → String × Bool
state_of none = ("", false)
state_of (some d) = (d.status, d.publishable)

accepted_is_publishable : state_of (get_draft accepted "acme" "od_1") ≡ ("accepted", true)
unfolding accepted
accepted_is_publishable = refl

-- It stays accepted without its only citation.
stripped_is_accepted : state_of (get_draft stripped "acme" "od_1") ≡ ("accepted", false)
unfolding stripped
stripped_is_accepted = refl

accepted-Reachable : Reachable plain lenient shelf accepted
unfolding shelf proposed quoted accepted
accepted-Reachable = decided shelf quoted "acme" "od_1" "accepted" "t3" (
    grounded shelf proposed "acme" "od_1" document.source_id (pos 4) (pos 9) "small" "t2" (
      saved shelf [] "acme" [] "authored" none none "od_1" "t1"
        (uploaded [] [] document "t0" start)))

Reachable-IsReviewed_example : IsReviewed lenient shelf accepted
Reachable-IsReviewed_example = Reachable-IsReviewed plain lenient shelf accepted accepted-Reachable

abbrev refund : WorkflowSpec
refund = record {
  name = "refund";
  facts = fact "amount" number none ∷ fact "flagged" ValueType.boolean none ∷ [];
  description = "";
}

refund_is_inferred : infer_workflows (fraud ∷ small ∷ []) ≡ ok (refund ∷ [])
unfolding infer_workflows declare_policies declare_fields fields_of workflow_specs fact_specs
    fact_spec sorted_items or_bad sort_by Dict.lookup Dict.insert each check_workflow check_fact
    has_duplicates distinct is_snake same_type
refund_is_inferred = refl

infer_workflows-declares_example :
    (w : WorkflowSpec) × (f : FactSpec) × In w (refund ∷ [])
    × (w.name ≡ "refund")
    × In f w.facts
    × (f.name ≡ "amount")
    × (f.value_type ≡ number)
infer_workflows-declares_example =
    infer_workflows-declares (fraud ∷ small ∷ []) (refund ∷ []) small (amount_lte 100)
      refund_is_inferred (inr (inl refl)) (inl refl)
