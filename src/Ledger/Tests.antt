-- ===== src/Ledger/Tests.antt =====
-- A ledger with two events, and decisions that are recorded in it.
use kernl.Prelude.{
  ◌≡◌, refl, ◌≢◌, inl, inr, String, true, false, none, some, Option, List, [], ◌∷◌, ◌++◌,
}
use kernl.Prelude.Dict
use kernl.Prelude.PairDict
use kernl.Prelude.Result.{ok, err}
use kernl.Python.{Json, str, obj}
use kernl.Canonical
use kernl.Canonical.{Hashing}
use kernl.Evaluator.Sample.{plain, bundle, facts}
use kernl.Evaluator.Decide.{evaluate}
use kernl.Evaluator.Conditions
use kernl.Evaluator.Conditions.{
  evaluate_policy, compare, norm_str, norm_value, to_float, value_to_float, iterated, truth,
  value_truth, same_truth, number_test, compare_strings, any_fail, absent_fields, status_of,
}
use kernl.Evaluator.Facts.{validate_facts, supplied, with_defaults, check_type}
use kernl.Evaluator.Winner.{select_winner, mark_overridden, top, conclude}
use kernl.Schema.{workflow, policies_for, fact_map}
use kernl.Prelude.Sort.{sort_by, distinct}
use kernl.Python.Text.{strip, int_str}
use kernl.Python.Floats.{int_to_float, float_gt, float_ge, float_eq, is_integer}
use kernl.Ledger.Events.{DecisionEvent, verify, sealed, compute_hash, body}
use kernl.Ledger.Store.{
  Store, empty, stream, append, append_verified, add, verify_chain, verify_from, get,
  by_idempotency_key, unavailable, chain_head,
}
use kernl.Ledger.Appends.{Extends, append-Extends, append_created}
use kernl.Ledger.Service.{
  append_sealed, seal_raw, or_non_finite, interfere, retry, as_service, decision_draft, Attempt,
  Request, Answer, decide, ledger,
}
use Prim.Native.String.{◌++◌ as str_append}
use Prim.Native.String.append
use kernl.Canonical.{canonical_json, normalize}
use kernl.Ledger.Events.{opt_str, fields}
use kernl.Ledger.History.{texts, newest_first, append_cancel, member, chain_head-determines_history}
use kernl.Prelude.{◌∙◌, sym, ap}
use kernl.Ledger.WriteAhead.{decide-recorded, decide_again, decide-keeps_chain, decide-settles}
use kernl.Ledger.Sample.{digest, agent, event, dumped}

abbrev first : DecisionEvent
first = event "e1" "k1" none "sha256:e1"

abbrev second : DecisionEvent
second = event "e2" "k2" (some "sha256:e1") "sha256:e2"

-- The store after the first event.
one : Store
unfolding append append_verified add verify compute_hash Canonical.content_hash Canonical.normalize
    body
one = (append digest first empty).1

two : Store
unfolding one
two = (append digest second one).1

first_verifies : verify digest first ≡ ok true
unfolding verify compute_hash Canonical.content_hash Canonical.normalize body
first_verifies = refl

second_is_new : append digest second one ≡ (ok (second, true), two)
unfolding two PairDict.lookup Dict.lookup PairDict.insert Dict.insert
second_is_new = refl

one_is_chained : verify_chain digest one "acme" ≡ ok true
unfolding one verify_chain verify_from Dict.lookup PairDict.lookup Dict.insert
one_is_chained = refl

first_is_found : by_idempotency_key one "acme" "k1" ≡ some first
unfolding one by_idempotency_key PairDict.lookup Dict.lookup PairDict.insert
first_is_found = refl

append-Extends_example : Extends digest second "acme" one (append digest second one).1
append-Extends_example = append-Extends digest second one "acme"

append_created_example :
    (second ≡ second)
    × (by_idempotency_key one "acme" "k2" ≡ none)
    × (stream two "acme" ≡ stream one "acme" ++ second ∷ [])
    × (get two "acme" "e2" ≡ some second)
    × (by_idempotency_key two "acme" "k2" ≡ some second)
    × (chain_head two "acme" ≡ some second.event_hash)
append_created_example = append_created digest second second one two second_is_new

-- A request whose first round loses the race to the second event.
abbrev request : Request
request = record {
  company_id = "acme";
  workflow = "refund";
  facts = facts;
  actor = agent;
  idempotency_key = "k3";
  bundle = bundle;
  bundle_hash = "b";
}

abbrev quiet : Attempt
quiet = record { event_id = "e4"; created_at = "2026-01-02"; others = [] }

abbrev attempts : List Attempt
attempts = record { event_id = "e3"; created_at = "2026-01-02"; others = second ∷ [] } ∷ quiet ∷ []

-- What that request gets; to unfold it is to unfold all that it calls.
answer : Answer
unfolding decide append_sealed seal_raw or_non_finite interfere retry as_service decision_draft
    sealed by_idempotency_key append PairDict.lookup PairDict.insert Dict.lookup Dict.insert one
    evaluate workflow policies_for fact_map validate_facts supplied with_defaults check_type
    evaluate_policy compare norm_str norm_value to_float value_to_float iterated truth value_truth
    same_truth number_test compare_strings any_fail absent_fields status_of select_winner
    mark_overridden top conclude sort_by distinct int_to_float float_gt float_ge float_eq is_integer
    strip int_str Conditions.check_condition
answer = decide plain digest dumped request attempts one

abbrev given : Answer → DecisionEvent
given (ok (e, created), s) = e
given (err e, s) = first

answered : decide plain digest dumped request attempts one ≡ (ok (given answer, true), answer.1)
unfolding answer
answered = refl

decide-recorded_example : by_idempotency_key answer.1 "acme" "k3" ≡ some (given answer)
decide-recorded_example =
    decide-recorded plain digest dumped request attempts one answer.1 (given answer) true answered

decide_again_example :
    decide plain digest dumped (record request { facts = [] }) [] answer.1
    ≡ (ok (given answer, false), answer.1)
decide_again_example =
    decide_again plain digest dumped request (record request { facts = [] }) attempts [] one
      answer.1 (given answer) true answered refl refl

decide-keeps_chain_example :
    verify_chain digest (decide plain digest dumped request attempts one).1 "acme" ≡ ok true
decide-keeps_chain_example =
    decide-keeps_chain plain digest dumped request attempts one "acme" one_is_chained

decide-settles_example :
    (decide plain digest dumped request attempts one).0 ≢ err (ledger unavailable)
decide-settles_example =
    decide-settles plain digest dumped request attempts one quiet (inr (inl refl)) refl

-- A canonical text that shows the `prev_event_hash` of an object.
abbrev value_text : Option Json → String
value_text (some (str s)) = str_append "p" s
value_text _ = ""

abbrev shown : Json → String
shown (obj fs) = value_text (member "prev_event_hash" fs)
shown _ = ""

abbrev showing : Hashing
showing = record { dumps = shown; sha256 = λ s. s; dump_dict = λ d. obj (fields d) }

abbrev shown_hash : Option String → String
shown_hash none = ""
shown_hash (some s) = str_append "p" s

value_text-opt_str : (v : Option String) → value_text (some (opt_str v)) ≡ shown_hash v
unfolding opt_str
value_text-opt_str none = refl
value_text-opt_str (some s) = refl

shown_hash-injective : (x y : Option String) → shown_hash x ≡ shown_hash y → x ≡ y
shown_hash-injective none none h = refl
shown_hash-injective none (some y) h = cc (h, append.cons "p" "" y)
shown_hash-injective (some x) none h = cc (h, append.cons "p" "" x)
shown_hash-injective (some x) (some y) h = ap some (append_cancel "p" x y h)

-- Two linked events by these hashes.
abbrev linked : Store
linked = record {
  events =
      (
        "acme",
        event "e1" "k1" none "sha256:" ∷ event "e2" "k2" (some "sha256:") "sha256:psha256:" ∷ [],
      )
      ∷ [];
  by_key = [];
  by_id = [];
}

linked_is_chained : verify_chain showing linked "acme" ≡ ok true
unfolding verify_chain verify_from stream Dict.lookup verify compute_hash Canonical.content_hash
    normalize body kernl.Ledger.Store.same_hash
linked_is_chained = refl

chain_head-determines_history_example :
    texts showing (newest_first (stream linked "acme") [])
    ≡ texts showing (newest_first (stream linked "acme") [])
chain_head-determines_history_example =
    chain_head-determines_history showing (λ a b h. h)
      (λ fs gs v w same mf mg. shown_hash-injective v w (
        sym (ap value_text mf ∙ value_text-opt_str v)
        ∙ same
        ∙ ap value_text mg
        ∙ value_text-opt_str w))
      linked linked "acme" "acme" linked_is_chained linked_is_chained refl
