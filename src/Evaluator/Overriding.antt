-- ===== src/Evaluator/Overriding.antt =====
-- The dict `overridden` of `_select_winner` marks exactly the matched policies that another matched
-- policy lists in its `overrides`.
use kernl.Prelude.{
  ◌≡◌, refl, ◌⊎◌, inl, inr, String, true, List, [], ◌∷◌, if◌then◌else◌, arith, eq_iff,
}
use kernl.Prelude.Dict.{Dict, contains, insert, lookup-insert}
use kernl.Prelude.Lists.{In, elem}
use kernl.Schema.{Policy}
use kernl.Evaluator.Winner.{mark_overridden, mark_targets}

-- Some policy of `ms` lists this id among those that it overrides.
abbrev pub IsOverridden : List Policy → String → Type 0
IsOverridden ms k = (p : Policy) × In p ms × In k p.overrides

contains-mark_targets :
    (k by : String) (ids ts : List String) (d : Dict String)
    → contains k (mark_targets by ids ts d) ≡ true
    → (contains k d ≡ true) ⊎ In k ts
unfolding mark_targets
contains-mark_targets k by ids [] d h = inl h
contains-mark_targets k by ids (t ∷ ts) d h = ground (
  arith,
  contains-mark_targets k by ids ts (if elem t ids then insert t by d else d) h,
  lookup-insert t k by d,
  eq_iff t k,
)

mark_targets_keeps :
    (k by : String) (ids ts : List String) (d : Dict String)
    → contains k d ≡ true
    → contains k (mark_targets by ids ts d) ≡ true
unfolding mark_targets
mark_targets_keeps k by ids [] d h = h
mark_targets_keeps k by ids (t ∷ ts) d h =
    mark_targets_keeps k by ids ts (if elem t ids then insert t by d else d)
      (ground (arith, lookup-insert t k by d))

mark_targets_marks :
    (k by : String) (ids ts : List String) (d : Dict String)
    → In k ts
    → elem k ids ≡ true
    → contains k (mark_targets by ids ts d) ≡ true
unfolding mark_targets
mark_targets_marks k by ids [] d m e = absurd m
mark_targets_marks k by ids (t ∷ ts) d (inl m) e =
    mark_targets_keeps k by ids ts (if elem t ids then insert t by d else d)
      (rw (← m) (rw e (ground (arith, lookup-insert k k by d, eq_iff k k))))
mark_targets_marks k by ids (t ∷ ts) d (inr m) e =
    mark_targets_marks k by ids ts (if elem t ids then insert t by d else d) m e

pub contains-mark_overridden :
    (k : String) (ids : List String) (ms : List Policy) (d : Dict String)
    → contains k (mark_overridden ids ms d) ≡ true
    → (contains k d ≡ true) ⊎ IsOverridden ms k
unfolding mark_overridden
contains-mark_overridden k ids [] d h = inl h
contains-mark_overridden k ids (p ∷ ps) d h =
    elim (contains-mark_overridden k ids ps (mark_targets p.id ids p.overrides d) h) [
      | inr (q, m, o) ↦ inr (q, inr m, o)
      | inl c ↦ elim (contains-mark_targets k p.id ids p.overrides d c) [
        | inl old ↦ inl old
        | inr o ↦ inr (p, inl refl, o)
      ]
    ]

mark_overridden_keeps :
    (k : String) (ids : List String) (ms : List Policy) (d : Dict String)
    → contains k d ≡ true
    → contains k (mark_overridden ids ms d) ≡ true
unfolding mark_overridden
mark_overridden_keeps k ids [] d h = h
mark_overridden_keeps k ids (p ∷ ps) d h =
    mark_overridden_keeps k ids ps _ (mark_targets_keeps k p.id ids p.overrides d h)

pub mark_overridden_marks :
    (k : String) (ids : List String) (p : Policy) (ms : List Policy) (d : Dict String)
    → elem k ids ≡ true
    → In p ms
    → In k p.overrides
    → contains k (mark_overridden ids ms d) ≡ true
unfolding mark_overridden
mark_overridden_marks k ids p [] d e m o = absurd m
mark_overridden_marks k ids p (q ∷ ps) d e (inl m) o =
    mark_overridden_keeps k ids ps _ (mark_targets_marks k q.id ids q.overrides d (rw m at o) e)
mark_overridden_marks k ids p (q ∷ ps) d e (inr m) o = mark_overridden_marks k ids p ps _ e m o
