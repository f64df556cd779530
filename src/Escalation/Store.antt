-- ===== src/Escalation/Store.antt =====
-- `Escalation` and `InMemoryEscalationStore` of backend/escalation/service.py.
use kernl.Prelude.{
  ℕ, String, Bool, true, false, ◌&&◌, ◌==◌, Option, none, some, List, [], ◌∷◌, if◌then◌else◌,
}
use kernl.Prelude.Dict.{Dict}
use kernl.Prelude.PairDict
use kernl.Prelude.PairDict.{PairDict}
use kernl.Prelude.Lists.{take, drop}
use kernl.Prelude.Sort.{sort_by, str_leb}
use kernl.Python.{Json}
use kernl.Ledger.Events.{Actor}

pub data EscalationStatus : Type 0 where
  opened resolved : EscalationStatus

pub data EscalationReasonKind : Type 0 where
  missing_facts no_matching_policy conflict policy_directed authority_required :
      EscalationReasonKind

pub record Resolution : Type 0 where
  pub chosen_action : String
  pub outcome_kind : String
  pub rationale : String
  pub resolver : Actor
  pub adjudication_event_id : String
  pub resolved_at : String
  pub promoted_to_golden : Bool

pub record Escalation : Type 0 where
  pub escalation_id : String
  pub company_id : String
  pub workflow : String
  pub decision_event_id : String
  pub reason : EscalationReasonKind
  pub detail : Dict Json
  pub status : EscalationStatus
  pub created_at : String
  pub resolution : Option Resolution

pub record EscalationStore : Type 0 where
  pub rows : PairDict Escalation
  pub by_decision : PairDict String

abbrev pub no_escalations : EscalationStore
no_escalations = record { rows = []; by_decision = [] }

unfoldable pub get_escalation : EscalationStore → String → String → Option Escalation
get_escalation s company id = PairDict.lookup company id s.rows

-- The two writes of `add`.
unfoldable pub enter : Escalation → EscalationStore → EscalationStore
enter e s = record {
  rows = PairDict.insert e.company_id e.escalation_id e s.rows;
  by_decision = PairDict.insert e.company_id e.decision_event_id e.escalation_id s.by_decision;
}

-- `add`; `none` is the KeyError of an id without its row.
unfoldable pub add_escalation : Escalation → EscalationStore → Option Escalation × EscalationStore
unfolding get_escalation enter
add_escalation e s = elim (PairDict.lookup e.company_id e.decision_event_id s.by_decision) [
  | some id ↦ (get_escalation s e.company_id id, s)
  | none ↦ (some e, enter e s)
]

unfoldable pub update : Escalation → EscalationStore → EscalationStore
update e s = record s { rows = PairDict.insert e.company_id e.escalation_id e s.rows }

unfoldable pub same_status : EscalationStatus → EscalationStatus → Bool
same_status opened opened = true
same_status resolved resolved = true
same_status _ _ = false

unfoldable pub has_status : Option EscalationStatus → Escalation → Bool
unfolding same_status
has_status none e = true
has_status (some x) e = same_status e.status x

unfoldable pub company_escalations :
    String → Option EscalationStatus → PairDict Escalation → List Escalation
unfolding has_status
company_escalations company x [] = []
company_escalations company x ((cid, _, e) ∷ d) =
    let rest = company_escalations company x d in
    if cid == company && has_status x e then e ∷ rest else rest

-- Newest first, a stable sort, and a page of it.
unfoldable pub list_escalations :
    EscalationStore → String → Option EscalationStatus → ℕ → ℕ → List Escalation
unfolding company_escalations
list_escalations s company x limit offset = take limit (
    drop offset
      (sort_by (λ a b. str_leb b.created_at a.created_at) (company_escalations company x s.rows)))

-- `self._rows.get((company_id, eid)) if eid else None`
unfoldable pub by_decision_event : EscalationStore → String → String → Option Escalation
unfolding get_escalation
by_decision_event s company event_id = elim (PairDict.lookup company event_id s.by_decision) [
  | none ↦ none
  | some id ↦ if id == "" then none else get_escalation s company id
]
