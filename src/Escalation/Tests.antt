-- ===== src/Escalation/Tests.antt =====
-- An escalated decision, its resolution, and a resolution that is tried again.
use kernl.Prelude.{◌≡◌, refl, true, false, Option, none, some, List, [], ◌∷◌}
use kernl.Prelude.{subst, inl, inr, ap, ◌∙◌, ◌==◌}
use kernl.Prelude.Lists.{In}
use kernl.Ledger.Origins.{IsForeign}
use Prim.Native.String.append
use kernl.Prelude.Dict
use kernl.Prelude.PairDict
use kernl.Prelude.Result.{Result, ok, err}
use kernl.Python.{str, arr, nil}
use kernl.Python.Text.{strip, prefix}
use kernl.Canonical
use kernl.Evaluator.Sample.{plain}
use kernl.Ledger.Events.{DecisionEvent, verify, sealed, compute_hash, body}
use kernl.Ledger.Store.{empty, append, append_verified, add, by_idempotency_key, get, is_text}
use kernl.Ledger.Service.{
  Attempt, append_sealed, seal_raw, or_non_finite, interfere, retry, as_service, adjudication_draft,
  record_adjudication,
}
use kernl.Ledger.Sample.{digest, agent, event, dumped}
use kernl.Replay.Cases.{add_case, GoldenCase, duplicate_case}
use kernl.Escalation.Store.{
  EscalationReasonKind, Escalation, no_escalations, get_escalation, enter, update, add_escalation,
}
use kernl.Escalation.Needs.{need_of, is_truthy, get_or}
use kernl.Escalation.Service.{
  open_for, new_escalation, Desk, Ruling, promote_golden, resolve, is_resolved, settled,
  resolution_of, already_resolved, EscalationError, promotion, adjudicate, after_adjudication,
  promote, close,
}
use kernl.Escalation.Resolving.{Answer, key_of}
use kernl.Escalation.Inbox.{IsIndexed}
use kernl.Escalation.Reach.{
  RespectsKeys, IsWrittenAhead, Reachable, start, appended, escalated, ruled, Reachable-IsIndexed,
  Reachable-IsWrittenAhead,
}
use kernl.Escalation.Once.{
  HasOrigin, open_for_again, resolve-recorded, resolve_again, resolve_names_first,
}

-- A decision that its policy escalates.
abbrev escalated_event : DecisionEvent
escalated_event = record (event "decision01" "k1" none "sha256:decision01") {
  outcome = ("kind", str "escalate") ∷ ("escalation_reason", str "conflict") ∷ [];
}

-- The desk after that decision and its escalation.
desk : Desk
unfolding append append_verified add verify compute_hash Canonical.content_hash Canonical.normalize
    body open_for need_of new_escalation add_escalation enter get_escalation is_text is_truthy
    get_or
desk = record {
  escalations = (open_for escalated_event "esc1" "t0" no_escalations).1;
  ledger = (append digest escalated_event empty).1;
  cases = [];
}

abbrev ruling : Ruling
ruling = record {
  company_id = "acme";
  escalation_id = "esc1";
  resolver = agent;
  chosen_action = "pay";
  outcome_kind = "approve";
  rationale = "agreed";
  promote_to_golden = true;
}

abbrev rounds : List Attempt
rounds = record { event_id = "adj1"; created_at = "t1"; others = [] } ∷ []

answer : Answer
unfolding desk resolve adjudicate get record_adjudication adjudication_draft append_sealed seal_raw
    or_non_finite interfere retry as_service sealed by_idempotency_key append append_verified verify
    compute_hash PairDict.lookup PairDict.insert Dict.lookup Dict.insert strip prefix is_resolved
    after_adjudication promote promote_golden close add_case update settled resolution_of
answer = resolve plain digest dumped (some promote_golden) ruling rounds "t2" desk

abbrev given : Result EscalationError Escalation → Escalation
given (ok e) = e
given (err x) = new_escalation escalated_event (EscalationReasonKind.conflict, []) "" ""

answered :
    resolve plain digest dumped (some promote_golden) ruling rounds "t2" desk
    ≡ (ok (given answer.0), answer.1)
unfolding answer
answered = refl

status_is_resolved : is_resolved (given answer.0) ≡ true
unfolding answer
status_is_resolved = refl

k1-RespectsKeys : RespectsKeys escalated_event
unfolding prefix
k1-RespectsKeys i same =
    let clash : true ≡ false =
      ap (λ s. prefix 1 s == "k") (same ∙ append.cons "a" "djudication:" i) in
    cc clash

desk-Reachable : Reachable plain digest dumped (some promote_golden) RespectsKeys desk
unfolding desk
desk-Reachable =
    escalated
      (record {
        escalations = no_escalations;
        ledger = (append digest escalated_event empty).1;
        cases = [];
      })
      escalated_event "esc1" "t0"
      (appended (record { escalations = no_escalations; ledger = empty; cases = [] })
        escalated_event k1-RespectsKeys start)

desk-IsIndexed : IsIndexed desk.escalations
desk-IsIndexed =
    Reachable-IsIndexed plain digest dumped (some promote_golden) RespectsKeys desk desk-Reachable

Reachable-IsIndexed_example : IsIndexed desk.escalations
Reachable-IsIndexed_example =
    Reachable-IsIndexed plain digest dumped (some promote_golden) RespectsKeys desk desk-Reachable

rounds_are_quiet : (x : DecisionEvent) → IsForeign rounds x → RespectsKeys x
rounds_are_quiet x (a, inl same, m) = absurd (subst (λ (b : Attempt). In x b.others) same m)
rounds_are_quiet x (a, inr m, n) = absurd m

Reachable-IsWrittenAhead_example :
    IsWrittenAhead (resolve plain digest dumped (some promote_golden) ruling rounds "t2" desk).1
Reachable-IsWrittenAhead_example =
    Reachable-IsWrittenAhead plain digest dumped (some promote_golden)
      (resolve plain digest dumped (some promote_golden) ruling rounds "t2" desk).1
      (ruled desk ruling rounds "t2" rounds_are_quiet desk-Reachable)

resolve-recorded_example :
    (e : Escalation) × (a : DecisionEvent) × (get_escalation desk.escalations "acme" "esc1"
      ≡ some e)
    × (is_resolved e ≡ false)
    × (by_idempotency_key answer.1.ledger "acme" (key_of "esc1") ≡ some a)
    × (given answer.0 ≡ settled e (resolution_of ruling a "t2"))
    × (answer.1.escalations ≡ update (given answer.0) desk.escalations)
    × HasOrigin ruling rounds desk e a
resolve-recorded_example =
    resolve-recorded plain digest dumped (some promote_golden) ruling rounds "t2" desk answer.1
      (given answer.0) answered

resolve_again_example :
    resolve plain digest dumped (some promote_golden) ruling [] "t3" answer.1
    ≡ (err already_resolved, answer.1)
resolve_again_example =
    resolve_again plain digest dumped (some promote_golden) ruling ruling rounds [] "t2" "t3" desk
      answer.1 (given answer.0) desk-IsIndexed answered refl refl

-- A case has the id of the promotion, so that the call raises when the ledger has the adjudication.
abbrev taken : GoldenCase
taken = record {
  case_id = "adj-decision";
  company_id = "acme";
  workflow = "refund";
  facts = [];
  expected = record { kind = "approve"; action = none; escalation_reason = none };
  provenance = "";
  synthetic = true;
  notes = "";
}

stuck : Answer
unfolding desk resolve adjudicate get record_adjudication adjudication_draft append_sealed seal_raw
    or_non_finite interfere retry as_service sealed by_idempotency_key append append_verified verify
    compute_hash PairDict.lookup PairDict.insert Dict.lookup Dict.insert strip prefix is_resolved
    after_adjudication promote promote_golden close add_case update settled resolution_of
stuck =
    resolve plain digest dumped (some promote_golden) ruling rounds "t2"
      (record desk { cases = (add_case taken []).1 })

stuck_raises :
    resolve plain digest dumped
      (some promote_golden)
      ruling
      rounds
      "t2"
      (record desk { cases = (add_case taken []).1 })
    ≡ (err (promotion (duplicate_case "adj-decision")), stuck.1)
unfolding stuck
stuck_raises = refl

-- The same person tries again, with another action and without the promotion.
abbrev changed : Ruling
changed = record ruling {
  chosen_action = "refuse";
  outcome_kind = "deny";
  promote_to_golden = false;
}

late : Answer
unfolding stuck
late = resolve plain digest dumped (some promote_golden) changed rounds "t3" stuck.1

late_answered :
    resolve plain digest dumped (some promote_golden) changed rounds "t3" stuck.1
    ≡ (ok (given late.0), late.1)
unfolding late
late_answered = refl

-- The adjudication of the first try, in which the action is "pay".
abbrev adjudicated : Option DecisionEvent → DecisionEvent
adjudicated none = escalated_event
adjudicated (some e) = e

first_adjudication : DecisionEvent
unfolding stuck
first_adjudication = adjudicated (by_idempotency_key stuck.1.ledger "acme" (key_of "esc1"))

first_action : Dict.lookup "action" first_adjudication.outcome ≡ some (str "pay")
unfolding first_adjudication
first_action = refl

first_is_named : by_idempotency_key stuck.1.ledger "acme" (key_of "esc1") ≡ some first_adjudication
unfolding first_adjudication
first_is_named = refl

resolve_names_first_example :
    (by_idempotency_key late.1.ledger "acme" (key_of "esc1") ≡ some first_adjudication)
    × ((given late.0).resolution ≡ some (resolution_of changed first_adjudication "t3"))
resolve_names_first_example =
    resolve_names_first plain digest dumped (some promote_golden) changed rounds "t3" stuck.1 late.1
      (given late.0) first_adjudication first_is_named late_answered

the_opened : Escalation
unfolding new_escalation need_of
the_opened =
    new_escalation escalated_event
      (EscalationReasonKind.conflict, ("conflict_between", arr nil) ∷ []) "esc1" "t0"

opens :
    open_for escalated_event "esc1" "t0" no_escalations ≡ (ok (some the_opened), desk.escalations)
unfolding the_opened desk Dict.lookup PairDict.lookup
opens = refl

open_for_again_example :
    open_for escalated_event "esc2" "t1" desk.escalations ≡ (ok (some the_opened), desk.escalations)
open_for_again_example =
    open_for_again escalated_event "esc1" "esc2" "t0" "t1" no_escalations desk.escalations
      the_opened opens
