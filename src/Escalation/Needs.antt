-- ===== src/Escalation/Needs.antt =====
-- When a decision needs a person, and why: the first half of `open_for` of
-- backend/escalation/service.py.
use kernl.Prelude.{
  zero, suc, String, Bool, true, false, not, ◌==◌, eqb, ◌^◌, Option, none, some, [], ◌∷◌,
  if◌then◌else◌,
}
use kernl.Prelude.Dict.{Dict, lookup}
use kernl.Python.{
  Json, null, boolean, int, float, str, arr, obj, nil, cons, end, field, pos, negsuc,
}
use kernl.Ledger.Store.{is_text}
use kernl.Escalation.Store.{
  EscalationReasonKind, missing_facts, no_matching_policy, conflict, policy_directed,
  authority_required,
}

-- `bool(x)` of a JSON value; a float is false where its bits are those of 0.0 or -0.0.
unfoldable pub is_truthy : Json → Bool
is_truthy null = false
is_truthy (boolean b) = b
is_truthy (int (pos zero)) = false
is_truthy (int (pos (suc n))) = true
is_truthy (int (negsuc n)) = true
is_truthy (float bits) = if eqb bits 0 then false else not (eqb bits (2 ^ 63))
is_truthy (str s) = not (s == "")
is_truthy (arr nil) = false
is_truthy (arr (cons _ _)) = true
is_truthy (obj end) = false
is_truthy (obj (field _ _ _)) = true

-- `d.get(k, default)`
unfoldable pub get_or : Json → String → Dict Json → Json
get_or default k d = elim (lookup k d) [ none ↦ default | some v ↦ v ]

-- The reason and the details of an escalation.
abbrev pub Need : Type 0
Need = EscalationReasonKind × Dict Json

-- The need of an outcome whose kind is "escalate", by its `escalation_reason`.
unfoldable pub escalated_need : Dict Json → Need
unfolding get_or is_text
escalated_need o =
    if is_text (lookup "escalation_reason" o) "missing_facts"
    then (missing_facts, ("missing_facts", get_or (arr nil) "missing_facts" o) ∷ [])
    else if is_text (lookup "escalation_reason" o) "conflict"
    then (conflict, ("conflict_between", get_or (arr nil) "conflict_between" o) ∷ [])
    else if is_text (lookup "escalation_reason" o) "no_matching_policy"
    then (no_matching_policy, [])
    else (
      policy_directed,
      ("action", get_or null "action" o) ∷ ("policy_id", get_or null "policy_id" o) ∷ [],
    )

unfoldable pub approval_need : Dict Json → Need
unfolding get_or
approval_need o = (
  authority_required,
  ("approver_role", get_or null "approver_role" o)
      ∷ ("action", get_or null "action" o)
      ∷ ("policy_id", get_or null "policy_id" o)
      ∷ [],
)

unfoldable pub need_of : Dict Json → Option Need
unfolding escalated_need approval_need is_truthy get_or
need_of o =
    if is_text (lookup "kind" o) "escalate"
    then some (escalated_need o)
    else if is_truthy (get_or null "approval_required" o)
    then some (approval_need o)
    else none
