-- ===== src/Escalation/Service.antt =====
-- `EscalationService` of backend/escalation/service.py, over the stores of one process, and
-- `_promote_golden` of backend/v1_container.py, which it calls for a resolution that is promoted.
-- `uuid4` and the clock are arguments, as are the attempts of the ledger's retry loop.
use Prim.Native.String.{◌++◌ as str_append}
use kernl.Prelude.{String, Bool, true, false, Option, none, some, List, if◌then◌else◌}
use kernl.Prelude.Result.{Result, ok, err}
use kernl.Python.Text.{Runtime, prefix}
use kernl.Canonical.{Hashing}
use kernl.Ledger.Events.{Actor, DecisionEvent}
use kernl.Ledger.Store.{Store, get}
use kernl.Ledger.Service.{Dumps, ServiceError, Attempt, Adjudication, record_adjudication}
use kernl.Replay.Cases.{GoldenCase, CaseError, CaseStore, add_case}
use kernl.Escalation.Store.{
  opened, resolved, Resolution, Escalation, EscalationStore, get_escalation, add_escalation, update,
}
use kernl.Escalation.Needs.{Need, need_of}

-- What `open_for` and `resolve` may raise.
pub data EscalationError : Type 0 where
  unknown_escalation already_resolved unknown_event row_missing : EscalationError
  service : ServiceError → EscalationError
  promotion : CaseError → EscalationError

unfoldable pub new_escalation : DecisionEvent → Need → String → String → Escalation
new_escalation event (reason, detail) id now = record {
  escalation_id = id;
  company_id = event.company_id;
  workflow = event.workflow;
  decision_event_id = event.event_id;
  reason = reason;
  detail = detail;
  status = opened;
  created_at = now;
  resolution = none;
}

unfoldable pub or_missing :
    Option Escalation × EscalationStore
    → Result EscalationError (Option Escalation) × EscalationStore
or_missing (none, s) = (err row_missing, s)
or_missing (some e, s) = (ok (some e), s)

-- `open_for` with the `uuid4` and the time.
unfoldable pub open_for :
    DecisionEvent
    → String
    → String
    → EscalationStore
    → Result EscalationError (Option Escalation) × EscalationStore
unfolding need_of new_escalation or_missing
open_for event id now s = elim (need_of event.outcome) [
  | none ↦ (ok none, s)
  | some need ↦ or_missing (add_escalation (new_escalation event need id now) s)
]

-- The stores that `resolve` writes to.
pub record Desk : Type 0 where
  pub escalations : EscalationStore
  pub ledger : Store
  pub cases : CaseStore

-- The arguments of `resolve`.
pub record Ruling : Type 0 where
  pub company_id : String
  pub escalation_id : String
  pub resolver : Actor
  pub chosen_action : String
  pub outcome_kind : String
  pub rationale : String
  pub promote_to_golden : Bool

-- The callback `promote_golden`, or no callback.
abbrev pub Promotion : Type 0
Promotion =
    Option (DecisionEvent → Resolution → CaseStore → Result CaseError GoldenCase × CaseStore)

-- `_promote_golden`
unfoldable pub promoted_case : DecisionEvent → Resolution → GoldenCase
unfolding prefix
promoted_case event r = record {
  case_id = str_append "adj-" (prefix 8 event.event_id);
  company_id = event.company_id;
  workflow = event.workflow;
  facts = event.facts;
  expected = record {
    kind = r.outcome_kind;
    action = some r.chosen_action;
    escalation_reason = none;
  };
  provenance = str_append "adjudication:" r.adjudication_event_id;
  synthetic = false;
  notes = "";
}

unfoldable pub promote_golden :
    DecisionEvent → Resolution → CaseStore → Result CaseError GoldenCase × CaseStore
unfolding promoted_case
promote_golden event r s = add_case (promoted_case event r) s

unfoldable pub adjudication_of : Ruling → DecisionEvent → Adjudication
adjudication_of q original = record {
  company_id = q.company_id;
  original = original;
  actor = q.resolver;
  chosen_action = q.chosen_action;
  outcome_kind = q.outcome_kind;
  rationale = q.rationale;
  idempotency_key = str_append "adjudication:" q.escalation_id;
}

unfoldable pub resolution_of : Ruling → DecisionEvent → String → Resolution
resolution_of q adjudication now = record {
  chosen_action = q.chosen_action;
  outcome_kind = q.outcome_kind;
  rationale = q.rationale;
  resolver = q.resolver;
  adjudication_event_id = adjudication.event_id;
  resolved_at = now;
  promoted_to_golden = q.promote_to_golden;
}

-- `esc.model_copy(update={...})`
unfoldable pub settled : Escalation → Resolution → Escalation
settled e r = record e { status = resolved; resolution = some r }

-- The status flips only where the promotion has not raised.
unfoldable pub close :
    Escalation
    → Resolution
    → Result CaseError GoldenCase × CaseStore
    → Desk
    → Result EscalationError Escalation × Desk
unfolding settled
close e r (err x, cases) d = (err (promotion x), record d { cases = cases })
close e r (ok _, cases) d =
    (ok (settled e r), record d { escalations = update (settled e r) d.escalations; cases = cases })

-- The end of `resolve`, from the golden case.
unfoldable pub promote :
    Promotion
    → Ruling
    → Escalation
    → DecisionEvent
    → Resolution
    → Desk
    → Result EscalationError Escalation × Desk
unfolding close
promote (some callback) q e original r d =
    if q.promote_to_golden
    then close e r (callback original r d.cases) d
    else (ok (settled e r), record d { escalations = update (settled e r) d.escalations })
promote none q e original r d =
    (ok (settled e r), record d { escalations = update (settled e r) d.escalations })

-- What follows the write of the adjudication.
unfoldable pub after_adjudication :
    Promotion
    → Ruling
    → String
    → Escalation
    → DecisionEvent
    → Result ServiceError (DecisionEvent × Bool) × Store
    → Desk
    → Result EscalationError Escalation × Desk
unfolding promote resolution_of
after_adjudication callback q now e original (err x, ledger) d =
    (err (service x), record d { ledger = ledger })
after_adjudication callback q now e original (ok (adjudication, _), ledger) d =
    promote callback q e original (resolution_of q adjudication now) (record d { ledger = ledger })

unfoldable pub is_resolved : Escalation → Bool
is_resolved e = elim e.status [ opened ↦ false | resolved ↦ true ]

module _ (rt : Runtime) (h : Hashing) (dumps : Dumps) (callback : Promotion) where
  -- `resolve` of an escalation that is open.
  unfoldable pub adjudicate :
      Ruling → List Attempt → String → Escalation → Desk → Result EscalationError Escalation × Desk
  unfolding after_adjudication adjudication_of
  adjudicate q attempts now e d = elim (get d.ledger q.company_id e.decision_event_id) [
    | none ↦ (err unknown_event, d)
    | some original ↦
        after_adjudication callback q now e original
          (record_adjudication rt h dumps (adjudication_of q original) attempts d.ledger) d
  ]

  -- `resolve` with the attempts of its adjudication and the time.
  unfoldable pub resolve :
      Ruling → List Attempt → String → Desk → Result EscalationError Escalation × Desk
  unfolding adjudicate is_resolved
  resolve q attempts now d = elim (get_escalation d.escalations q.company_id q.escalation_id) [
    | none ↦ (err unknown_escalation, d)
    | some e ↦ if is_resolved e then (err already_resolved, d) else adjudicate q attempts now e d
  ]
