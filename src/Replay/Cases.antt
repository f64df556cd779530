-- ===== src/Replay/Cases.antt =====
-- Golden cases of backend/replay/cases.py: the cases, the hash of a set of them, and
-- `InMemoryCaseStore`.
use kernl.Prelude.{
  String, Bool, true, ◌&&◌, ◌==◌, Option, none, some, List, [], ◌∷◌, map, if◌then◌else◌,
}
use kernl.Prelude.Dict.{Dict}
use kernl.Prelude.PairDict
use kernl.Prelude.PairDict.{PairDict}
use kernl.Prelude.Sort.{sort_by, str_leb}
use kernl.Prelude.Result.{Result, ok, err}
use kernl.Python.{Json, boolean, str, obj, arr, Items, nil, cons, end, field}
use kernl.Canonical.{Hashing, CanonicalError, content_hash}
use kernl.Ledger.Events.{fields, opt_str}

pub record Expected : Type 0 where
  pub kind : String
  pub action : Option String
  pub escalation_reason : Option String

pub record GoldenCase : Type 0 where
  pub case_id : String
  pub company_id : String
  pub workflow : String
  pub facts : Dict Json
  pub expected : Expected
  pub provenance : String
  pub synthetic : Bool
  pub notes : String

-- The ValueError of `add`.
pub data CaseError : Type 0 where
  duplicate_case : String → CaseError

expected_json : Expected → Json
unfolding opt_str
expected_json x = obj (
    field "kind" (str x.kind) (
      field "action" (opt_str x.action)
        (field "escalation_reason" (opt_str x.escalation_reason) end)))

-- `model_dump` of a case.
case_json : GoldenCase → Json
unfolding expected_json fields
case_json c = obj (
    fields (
      ("case_id", str c.case_id)
      ∷ ("company_id", str c.company_id)
      ∷ ("workflow", str c.workflow)
      ∷ ("facts", obj (fields c.facts))
      ∷ ("expected", expected_json c.expected)
      ∷ ("provenance", str c.provenance)
      ∷ ("synthetic", boolean c.synthetic)
      ∷ ("notes", str c.notes)
      ∷ []))

items_of : List Json → Items
items_of [] = nil
items_of (x ∷ xs) = cons x (items_of xs)

module _ (h : Hashing) where
  -- The dumps sorted by their ids are the dumps of the sorted cases.
  unfoldable pub case_set_hash : List GoldenCase → Result CanonicalError String
  unfolding case_json items_of
  case_set_hash cs =
      content_hash h
        (arr (items_of (map case_json (sort_by (λ a b. str_leb a.case_id b.case_id) cs))))

abbrev pub CaseStore : Type 0
CaseStore = PairDict GoldenCase

unfoldable pub add_case : GoldenCase → CaseStore → Result CaseError GoldenCase × CaseStore
add_case c s = elim (PairDict.lookup c.company_id c.case_id s) [
  | some _ ↦ (err (duplicate_case c.case_id), s)
  | none ↦ (ok c, PairDict.insert c.company_id c.case_id c s)
]

-- `sorted(self._rows.items())`: the keys differ, so that no case is compared.
unfoldable pub sorted_rows : CaseStore → CaseStore
sorted_rows = sort_by (λ (x y : String × String × GoldenCase).
    if x.0 == y.0 then str_leb x.1 y.1 else str_leb x.0 y.0)

unfoldable pub in_workflow : Option String → GoldenCase → Bool
in_workflow none c = true
in_workflow (some w) c = c.workflow == w

unfoldable pub company_cases : String → Option String → CaseStore → List GoldenCase
unfolding in_workflow
company_cases company w [] = []
company_cases company w ((cid, _, c) ∷ s) =
    let rest = company_cases company w s in
    if cid == company && in_workflow w c then c ∷ rest else rest

unfoldable pub list_cases : CaseStore → String → Option String → List GoldenCase
unfolding sorted_rows company_cases
list_cases s company w = company_cases company w (sorted_rows s)
