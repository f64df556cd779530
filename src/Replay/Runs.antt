-- ===== src/Replay/Runs.antt =====
-- `ReplayRun` and `InMemoryReplayRunStore` of backend/replay/engine.py, and `acknowledge`, which marks
-- a run as seen by an owner.
use kernl.Prelude.{
  ℕ, String, Bool, true, false, ◌&&◌, ◌==◌, Option, none, some, List, [], ◌∷◌, if◌then◌else◌,
}
use kernl.Prelude.PairDict
use kernl.Prelude.PairDict.{PairDict}
use kernl.Prelude.Lists.{take}
use kernl.Prelude.Sort.{sort_by, str_leb}

pub record CaseResult : Type 0 where
  pub case_id : String
  pub workflow : String
  pub candidate_kind : Option String
  pub candidate_action : Option String
  pub candidate_policy_id : Option String
  pub expected_kind : Option String
  pub expected_action : Option String
  pub reference_kind : Option String
  pub reference_action : Option String
  pub golden_pass : Option Bool
  pub flipped : Option Bool
  pub error : Option String

pub record ReplaySummary : Type 0 where
  pub total : ℕ
  pub golden_passed : ℕ
  pub golden_failed : ℕ
  pub flips : ℕ
  pub new_escalations : ℕ
  pub errors : ℕ

pub record ReplayRun : Type 0 where
  pub run_id : String
  pub company_id : String
  pub candidate_bundle_hash : String
  pub reference_bundle_hash : Option String
  pub case_set_hash : String
  pub created_at : String
  pub summary : ReplaySummary
  pub results : List CaseResult
  pub acknowledged_by : Option String
  pub acknowledged_at : Option String

abbrev pub RunStore : Type 0
RunStore = PairDict ReplayRun

-- `add` and `update`, which do the same.
unfoldable pub put_run : ReplayRun → RunStore → RunStore
put_run r s = PairDict.insert r.company_id r.run_id r s

unfoldable pub get_run : RunStore → String → String → Option ReplayRun
get_run s company id = PairDict.lookup company id s

unfoldable pub is_given : Option String → Bool
is_given none = false
is_given (some x) = true

-- `[r for (cid, _), r in self._rows.items() if ...]`
unfoldable pub rows_of : String → (ReplayRun → Bool) → RunStore → List ReplayRun
rows_of company p [] = []
rows_of company p ((cid, _, r) ∷ s) =
    let rest = rows_of company p s in if cid == company && p r then r ∷ rest else rest

unfoldable pub gates : String → ReplayRun → Bool
unfolding is_given
gates hash r = r.candidate_bundle_hash == hash && is_given r.acknowledged_by

-- `rows.sort(key=lambda r: r.created_at, reverse=True)`, a stable sort.
abbrev pub newest_run_first : List ReplayRun → List ReplayRun
newest_run_first = sort_by (λ a b. str_leb b.created_at a.created_at)

abbrev pub head_run : List ReplayRun → Option ReplayRun
head_run [] = none
head_run (r ∷ rs) = some r

unfoldable pub latest_acknowledged_for : RunStore → String → String → Option ReplayRun
unfolding rows_of gates
latest_acknowledged_for s company hash =
    head_run (newest_run_first (rows_of company (gates hash) s))

unfoldable pub list_runs : RunStore → String → ℕ → List ReplayRun
unfolding rows_of
list_runs s company limit = take limit (newest_run_first (rows_of company (λ r. true) s))

-- `ReplayEngine.acknowledge` at a time; `none` is its KeyError.
unfoldable pub acknowledge :
    RunStore → String → String → String → String → Option ReplayRun × RunStore
unfolding get_run put_run
acknowledge s company id by now = elim (get_run s company id) [
  | none ↦ (none, s)
  | some run ↦
      let seen = record run { acknowledged_by = some by; acknowledged_at = some now } in
      (some seen, put_run seen s)
]
