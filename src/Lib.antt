-- ===== src/Lib.antt =====
-- Verification of the decision core of Kernl, backend/ of this repository: a policy bundle is checked
-- when it is made, a pure evaluator decides a request with it, and a ledger records the decision
-- before the caller is given it.
--
-- The parts, and the files that model them:
--   * Schema: backend/bundle/schema.py. `Schema/Types` has the records; `Schema/Validate` has the
--     validators of the single models (`check_condition` is `Condition`'s, `check_policy` is
--     `Policy`'s); `Schema/Integrity` has `Bundle._integrity` as `check_bundle`, and
--     `Schema/Acyclic` the search for override cycles at its end, `_assert_acyclic_overrides`.
--   * Evaluator: backend/runtime/evaluator.py. `Evaluator/Facts` is `_validate_facts`,
--     `Evaluator/Conditions` is `_compare` and `_evaluate_policy`, `Evaluator/Winner` is
--     `_select_winner`, `Evaluator/Decide` is `evaluate`. The other files below it have the proofs.
--   * Canonical: backend/bundle/canonical.py, the normal form of JSON values and the content hash.
--   * Ledger: backend/ledger. `Ledger/Events` is events.py, `Ledger/Store` the in-memory store of
--     store.py, `Ledger/Service` is `DecisionService` of service.py, which calls `evaluate` and
--     appends the sealed event to the store.
--   * Registry: backend/bundle/lifecycle.py. `Registry/Store` is `InMemoryBundleStore`,
--     `Registry/Lifecycle` is `BundleLifecycle` and `bundle_content_hash`; `publish` asks the replay
--     runs for its gate. `Registry/Diff` is backend/bundle/diff.py, and `Registry/Same` the `==` of two
--     policies that it takes from pydantic.
--   * Replay: backend/replay. `Replay/Cases` is cases.py, `Replay/Runs` the store of replay runs and
--     `acknowledge` of engine.py, `Replay/Scoring` and `Replay/Engine` its `run`, which calls `evaluate`
--     for each case.
--   * Escalation: backend/escalation/service.py. `Escalation/Store` is `InMemoryEscalationStore`,
--     `Escalation/Needs` and `Escalation/Service` are `EscalationService` with `_promote_golden` of
--     backend/v1_container.py; `resolve` calls `record_adjudication` of the ledger and adds a golden case.
--   * Onboarding: backend/onboarding. `Onboarding/TenantStore` and `Onboarding/Tenants` are tenants.py,
--     the tenants and their API keys;
--     `Onboarding/Sources` is sources.py, the snapshots of documents and the grounding of evidence;
--     `Onboarding/Drafts` is drafts.py, and `Onboarding/Review` and `Onboarding/Assembly` are the calls
--     of service.py, which ground a draft's evidence in a snapshot and make a bundle of the drafts that
--     are accepted.
--   * Container: `Container/Seed` is `_seed_reference_bundle` of backend/v1_container.py, which makes a
--     draft of a reference bundle, replays the golden cases with it, and publishes it.
--   * Python: what the source uses of its language. A float is its IEEE 754 bit pattern, an int is an
--     integer without bound; `str` of an int is limited to the 4300 digits of
--     `sys.get_int_max_str_digits()`. `str` of a float, `float` of a text, `str.lower` and `str.isspace`
--     are the fields of `Runtime`, a parameter.
--   * Prelude: lists, dicts in insertion order, sorting and results.
--
-- A step that can raise returns a `Result` whose error names the exception. A call of the store
-- returns its result and the store that it leaves, in one step, as under the lock that the stores of the
-- ledger, the registry, the cases, the runs and the escalations take; the stores of onboarding have no
-- lock, and what two threads do to them at once is not modelled.
-- `uuid4`, the clock, and the events that other writers append between a round's seal and its append
-- are the `Attempt`s of the retry loop, of which `decide` takes the first eight,
-- `_MAX_CHAIN_CONFLICT_RETRIES`. All other loops go over a list, but for the search for
-- override cycles, which runs on one unit of fuel more than there are policies.
--
-- Parameters: `json.dumps`, SHA-256 and pydantic's dump of a dict (`Hashing`), the dumps that
-- pydantic makes of an outcome and a trace (`Dumps`) and of a bundle's parts (`BundleDumps`),
-- `Policy.model_validate` (`Validation`), the Ed25519 signature (`Signing`), and the text of an
-- exception; nothing is taken of them but that they are functions, unless a theorem names more.
--
-- Not modelled: Python's limit on the depth of calls, which a long chain of overrides can meet;
-- the limit of `json.dumps` on the digits of an integer; the HTTP interface, the Postgres adapter,
-- the extraction of drafts and the compiler, which are input and output or calls of a language
-- model.
pub mod Prelude
pub mod Python
pub mod Schema
pub mod Evaluator
pub mod Canonical
pub mod Ledger
pub mod Replay
pub mod Registry
pub mod Escalation
pub mod Onboarding
pub mod Container
