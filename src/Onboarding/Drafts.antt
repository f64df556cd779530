-- ===== src/Onboarding/Drafts.antt =====
-- `OnboardingDraft`, `evaluate_draft`, `build_draft` and `InMemoryDraftStore` of
-- backend/onboarding/drafts.py. `Policy.model_validate`, which pydantic makes of the model, is a
-- parameter: it gives a policy, or the texts of its errors.
use kernl.Prelude.{
  String, Bool, true, ◌&&◌, ◌==◌, Option, none, some, List, [], ◌∷◌, ◌++◌, if◌then◌else◌,
}
use kernl.Prelude.Dict.{Dict, insert}
use kernl.Prelude.PairDict
use kernl.Prelude.PairDict.{PairDict}
use kernl.Prelude.Sort.{sort_by, str_leb}
use kernl.Prelude.Result.{Result, ok, err}
use kernl.Python.{Json, obj, arr, Items, nil, cons}
use kernl.Ledger.Events.{fields}
use kernl.Schema.{Policy}
use kernl.Schema.Validate.{is_empty}

-- An item of `evidence_json`.
abbrev pub EvidenceJson : Type 0
EvidenceJson = Dict Json

pub record OnboardingDraft : Type 0 where
  pub draft_id : String
  pub company_id : String
  pub proposed_json : Dict Json
  pub evidence_json : List EvidenceJson
  pub origin : String
  pub source_skill_id : Option String
  pub status : String
  pub publishable : Bool
  pub issues_json : List String
  pub created_at : String
  pub updated_at : String

-- `Policy.model_validate`: the policy, or `loc: msg` of each error.
abbrev pub Validation : Type 0
Validation = Dict Json → Result (List String) Policy

unfoldable pub evidence_items : List EvidenceJson → Items
unfolding fields
evidence_items [] = nil
evidence_items (e ∷ es) = cons (obj (fields e)) (evidence_items es)

-- `{**proposed, "evidence": list(evidence)}`
unfoldable pub candidate_of : Dict Json → List EvidenceJson → Dict Json
unfolding evidence_items
candidate_of proposed evidence = insert "evidence" (arr (evidence_items evidence)) proposed

abbrev pub no_evidence_text : String
no_evidence_text = "no grounded evidence yet -- select the source text that justifies this policy"

unfoldable pub errors_of : Result (List String) Policy → List String
errors_of (ok _) = []
errors_of (err texts) = texts

-- `evaluate_draft`
unfoldable pub evaluate_draft : Validation → Dict Json → List EvidenceJson → Bool × List String
unfolding candidate_of errors_of is_empty
evaluate_draft validate proposed evidence =
    let issues =
      (if is_empty evidence then no_evidence_text ∷ [] else [])
      ++ errors_of (validate (candidate_of proposed evidence)) in
    (is_empty issues, issues)

-- `draft_id or new_draft_id()`
unfoldable pub id_or_new : Option String → String → String
id_or_new none new = new
id_or_new (some id) new = if id == "" then new else id

-- `build_draft`, with the id that it draws and the time.
unfoldable pub build_draft :
    Validation
    → String
    → Dict Json
    → String
    → Option String
    → List EvidenceJson
    → Option String
    → String
    → String
    → OnboardingDraft
unfolding evaluate_draft id_or_new
build_draft validate company proposed origin skill evidence id new now =
    let verdict = evaluate_draft validate proposed evidence in
    record {
      draft_id = id_or_new id new;
      company_id = company;
      proposed_json = proposed;
      evidence_json = evidence;
      origin = origin;
      source_skill_id = skill;
      status = "draft";
      publishable = verdict.0;
      issues_json = verdict.1;
      created_at = now;
      updated_at = now;
    }

abbrev pub DraftStore : Type 0
DraftStore = PairDict OnboardingDraft

unfoldable pub upsert : OnboardingDraft → DraftStore → DraftStore
upsert d s = PairDict.insert d.company_id d.draft_id d s

unfoldable pub get_draft : DraftStore → String → String → Option OnboardingDraft
get_draft s company id = PairDict.lookup company id s

unfoldable pub in_status : Option String → OnboardingDraft → Bool
in_status none d = true
in_status (some x) d = d.status == x

unfoldable pub company_drafts : String → Option String → DraftStore → List OnboardingDraft
unfolding in_status
company_drafts company x [] = []
company_drafts company x ((cid, _, d) ∷ s) =
    let rest = company_drafts company x s in
    if cid == company && in_status x d then d ∷ rest else rest

-- Newest first, a stable sort.
unfoldable pub list_drafts : DraftStore → String → Option String → List OnboardingDraft
unfolding company_drafts
list_drafts s company x =
    sort_by (λ a b. str_leb b.updated_at a.updated_at) (company_drafts company x s)

-- `delete`: `pop(key, None)`
unfoldable pub delete_draft : String → String → DraftStore → DraftStore
delete_draft company id [] = []
delete_draft company id ((cid, i, d) ∷ s) =
    let rest = delete_draft company id s in
    if cid == company && i == id then rest else (cid, i, d) ∷ rest
