-- ===== src/Onboarding/Desk.antt =====
-- The documents and the drafts that calls of the onboarding service make.
use kernl.Prelude.{String, Option, []}
use kernl.Prelude.Dict.{Dict}
use kernl.Prelude.PairDict
use kernl.Python.{Json, ℤ}
use kernl.Python.Text.{Runtime}
use kernl.Onboarding.Sources.{SourceStore, SourceSnapshot, get_source, add_source}
use kernl.Onboarding.Drafts.{Validation, DraftStore, get_draft}
use kernl.Onboarding.Review.{save_draft, ground_span, remove_evidence, set_status}
use kernl.Onboarding.Citations.{
  IsFiled, IsReviewed, IsCitation-keeps, add_source-keeps, add_source-IsFiled,
}
use kernl.Onboarding.Cited.{
  save_draft-IsReviewed, remove_evidence-IsReviewed, ground_span-IsReviewed, set_status-IsReviewed,
}

module _ (rt : Runtime) (validate : Validation) where
  pub data Reachable : SourceStore → DraftStore → Type 0 where
    start : Reachable [] []
    uploaded :
        (sources : SourceStore) (drafts : DraftStore) (x : SourceSnapshot) (now : String)
        → Reachable sources drafts
        → Reachable (add_source x now sources).1 drafts
    saved :
        (sources : SourceStore) (drafts : DraftStore) (company : String) (proposed : Dict Json)
        (origin : String) (skill id : Option String) (new now : String)
        → Reachable sources drafts
        → Reachable sources (save_draft validate company proposed origin skill id new now drafts).1
    grounded :
        (sources : SourceStore) (drafts : DraftStore) (company id source : String) (low high : ℤ)
        (excerpt now : String)
        → Reachable sources drafts
        → Reachable sources
            (ground_span validate rt sources company id source low high excerpt now drafts).1
    ungrounded :
        (sources : SourceStore) (drafts : DraftStore) (company id : String) (index : ℤ)
        (now : String)
        → Reachable sources drafts
        → Reachable sources (remove_evidence validate company id index now drafts).1
    decided :
        (sources : SourceStore) (drafts : DraftStore) (company id status now : String)
        → Reachable sources drafts
        → Reachable sources (set_status company id status now drafts).1

  Reachable-IsFiled :
      (sources : SourceStore) (drafts : DraftStore) → Reachable sources drafts → IsFiled sources
  unfolding get_source PairDict.lookup
  Reachable-IsFiled _ _ start = λ c i s found. cc found
  Reachable-IsFiled _ _ (uploaded sources drafts x now m) =
      add_source-IsFiled x now sources (Reachable-IsFiled sources drafts m)
  Reachable-IsFiled _ _ (saved sources drafts company proposed origin skill id new now m) =
      Reachable-IsFiled sources drafts m
  Reachable-IsFiled _ _ (grounded sources drafts company id source low high excerpt now m) =
      Reachable-IsFiled sources drafts m
  Reachable-IsFiled _ _ (ungrounded sources drafts company id index now m) =
      Reachable-IsFiled sources drafts m
  Reachable-IsFiled _ _ (decided sources drafts company id status now m) =
      Reachable-IsFiled sources drafts m

  -- Nothing is cited that was not read: whatever calls of `add`, `save_draft`, `ground_span`,
  -- `remove_evidence` and `set_status` are made from the empty stores, and whatever they return, each
  -- citation of each draft quotes a stored document of its company, at the excerpt's place and by the
  -- document's hash; and a draft's `publishable` and its issues are what `evaluate_draft` says of its
  -- content.
  pub Reachable-IsReviewed :
      (sources : SourceStore) (drafts : DraftStore)
      → Reachable sources drafts
      → IsReviewed validate sources drafts
  unfolding get_draft PairDict.lookup
  Reachable-IsReviewed _ _ start = λ c i d found. cc found
  Reachable-IsReviewed _ _ (uploaded sources drafts x now m) = λ c i d found.
      let (same, (verdict, issues, all)) = Reachable-IsReviewed sources drafts m c i d found in
      (
        same,
        (
          verdict,
          issues,
          (λ y k.
              IsCitation-keeps sources (add_source x now sources).1 d.company_id y
                (add_source-keeps x now sources d.company_id) (all y k)),
        ),
      )
  Reachable-IsReviewed _ _ (saved sources drafts company proposed origin skill id new now m) =
      save_draft-IsReviewed validate sources company proposed origin skill id new now drafts
        (Reachable-IsReviewed sources drafts m)
  Reachable-IsReviewed _ _ (grounded sources drafts company id source low high excerpt now m) =
      ground_span-IsReviewed validate sources rt company id source low high excerpt now drafts
        (Reachable-IsFiled sources drafts m) (Reachable-IsReviewed sources drafts m)
  Reachable-IsReviewed _ _ (ungrounded sources drafts company id index now m) =
      remove_evidence-IsReviewed validate sources company id index now drafts
        (Reachable-IsReviewed sources drafts m)
  Reachable-IsReviewed _ _ (decided sources drafts company id status now m) =
      set_status-IsReviewed validate sources company id status now drafts
        (Reachable-IsReviewed sources drafts m)
