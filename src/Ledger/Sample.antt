-- ===== src/Ledger/Sample.antt =====
-- Events of a small company, and hashes that are easy to read.
use kernl.Prelude.{String, none, Option, []}
use kernl.Python.{Json, str, obj, field}
use kernl.Canonical.{Hashing}
use kernl.Ledger.Events.{DecisionEvent, EventType, Actor, fields}
use kernl.Ledger.Service.{Dumps}

-- The text of an event is its id, and the digest of a text is the text.
abbrev first_text : Json → String
first_text (obj (field k (str s) fs)) = s
first_text _ = ""

abbrev pub digest : Hashing
digest = record { dumps = first_text; sha256 = λ s. s; dump_dict = λ d. obj (fields d) }

abbrev pub agent : Actor
agent = record { kind = "agent"; id = "bot"; api_key_id = none }

abbrev pub event : String → String → Option String → String → DecisionEvent
event id key prev hash = record {
  event_id = id;
  event_type = EventType.decision;
  company_id = "acme";
  workflow = "refund";
  actor = agent;
  idempotency_key = key;
  facts = [];
  outcome = [];
  trace = [];
  bundle_hash = "b";
  linked_event_id = none;
  created_at = "2026-01-01";
  prev_event_hash = prev;
  event_hash = hash;
}

abbrev pub dumped : Dumps
dumped = record { of_outcome = λ _. []; of_trace = λ _. [] }
