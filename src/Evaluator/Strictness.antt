-- ===== src/Evaluator/Strictness.antt =====
-- The strict reading of conditions: a condition on an absent fact never passes silently.
use kernl.Prelude.{◌≡◌, sym, ◌∙◌, ◌↔◌, String}
use kernl.Prelude.Dict.{Dict}
use kernl.Prelude.Lists.{In, All}
use kernl.Prelude.Sort.{In-sorted_set, In-sorted_set_of}
use kernl.Prelude.Result.{ok}
use kernl.Python.Text.{Runtime}
use kernl.Schema.{Scalar, Condition, Policy}
use kernl.Evaluator.Types.{matched, failed, PolicyEvaluation}
use kernl.Evaluator.Conditions.{absent_fields, evaluate_policy}
use kernl.Evaluator.Results.{
  Holds, Fails, IsAbsent, SomeCondition, failed_status, status_failed, matched_status, evaluated,
  any_fail_sound, any_fail_complete, absent_fields_sound, absent_fields_complete, All-Holds,
  holding_status,
}

module _ (rt : Runtime) (facts : Dict Scalar) where
  -- A policy matches exactly when each of its conditions has its fact and passes on it.
  pub matched_iff :
      (p : Policy) (e : PolicyEvaluation)
      → evaluate_policy rt facts p ≡ ok e
      → (e.status ≡ matched) ↔ All (Holds rt facts) p.conditions
  matched_iff p e h =
      let (rs, says, st, _) = evaluated rt facts p e h in
      (
        λ m.
            let (unfailed, full) = matched_status rs (sym st ∙ m) in
            All-Holds rt facts p.conditions rs says unfailed full,
        λ a. st ∙ holding_status rt facts p.conditions rs says a,
      )

  -- A policy fails exactly when some condition has its fact and does not pass on it.
  pub failed_iff :
      (p : Policy) (e : PolicyEvaluation)
      → evaluate_policy rt facts p ≡ ok e
      → (e.status ≡ failed) ↔ SomeCondition rt facts (Fails rt facts) p.conditions
  failed_iff p e h =
      let (rs, says, st, _) = evaluated rt facts p e h in
      (
        λ m. any_fail_sound rt facts p.conditions rs says (failed_status rs (sym st ∙ m)),
        λ (c, m, f). st ∙ status_failed rs (any_fail_complete rt facts c p.conditions rs says m f),
      )

  -- The missing fields of a policy's evaluation are those of its conditions that have no fact.
  pub missing_fields_iff :
      (p : Policy) (e : PolicyEvaluation) (k : String)
      → evaluate_policy rt facts p ≡ ok e
      → In k e.missing_fields
        ↔ ((c : Condition) × In c p.conditions × IsAbsent rt facts c × (k ≡ c.field))
  missing_fields_iff p e k h =
      let (rs, says, _, fields) = evaluated rt facts p e h in
      (
        λ m.
            absent_fields_sound rt facts k p.conditions rs says
              (In-sorted_set k _ (rw fields at m)),
        λ (c, m, a, f).
            rw (fields, f)
              (In-sorted_set_of c.field (absent_fields rs)
                (absent_fields_complete rt facts c p.conditions rs says m a)),
      )
