-- ===== src/Schema/Acyclic.antt =====
-- `_assert_acyclic_overrides` of backend/bundle/schema.py. A set of overrides is iterated in the order
-- of `distinct`, where Python gives no order. `out_of_fuel` is the model's own, and never met.
use kernl.Prelude.{ℕ, zero, suc, String, none, some, List, [], ◌∷◌}
use kernl.Prelude.Dict.{Dict, lookup, insert, keys}
use kernl.Prelude.Lists.{length}
use kernl.Prelude.Sort.{distinct}
use kernl.Prelude.Result.{Result, ok, err, ◌>>=◌, or_raise}
use kernl.Schema.Types.{Policy}
use kernl.Schema.Validate.{Check, SchemaError, key_error, override_cycle, out_of_fuel}

pub data Color : Type 0 where
  white gray black : Color

abbrev pub Colors : Type 0
Colors = Dict Color

abbrev pub Graph : Type 0
Graph = Dict (List String)

-- `{p.id: set(p.overrides) for p in policies}`, from the left.
unfoldable pub override_graph : List Policy → Graph → Graph
override_graph [] d = d
override_graph (p ∷ ps) d = override_graph ps (insert p.id (distinct p.overrides) d)

-- `dict.fromkeys(graph, WHITE)`
unfoldable pub all_white : Graph → Colors
all_white [] = []
all_white ((k, _) ∷ g) = (k, white) ∷ all_white g

-- The loop over the overrides of a node, with what `visit` does to a white one.
unfoldable pub visit_each :
    (String → Colors → Result SchemaError Colors) → List String → Colors → Result SchemaError Colors
visit_each visit [] c = ok c
visit_each visit (n ∷ ns) c = elim (lookup n c) [
  | none ↦ err key_error
  | some gray ↦ err override_cycle
  | some black ↦ visit_each visit ns c
  | some white ↦ visit n c >>= λ d. visit_each visit ns d
]

unfoldable pub visit : Graph → ℕ → String → Colors → Result SchemaError Colors
unfolding visit_each
visit g zero n c = err out_of_fuel
visit g (suc fuel) n c = do
  next ← or_raise (lookup n g) key_error
  d ← visit_each (visit g fuel) next (insert n gray c)
  ok (insert n black d)

-- `for node in graph`
unfoldable pub visit_roots : Graph → ℕ → List String → Colors → Result SchemaError Colors
unfolding visit
visit_roots g fuel [] c = ok c
visit_roots g fuel (n ∷ ns) c = elim (lookup n c) [
  | none ↦ err key_error
  | some white ↦ visit g fuel n c >>= λ d. visit_roots g fuel ns d
  | some _ ↦ visit_roots g fuel ns c
]

-- No chain of visits is longer than there are nodes, so one more is fuel enough.
unfoldable pub color_graph : Graph → Result SchemaError Colors
unfolding visit_roots all_white
color_graph g = visit_roots g (suc (length g)) (keys g) (all_white g)

unfoldable pub assert_acyclic : List Policy → Check
unfolding color_graph override_graph
assert_acyclic ps = color_graph (override_graph ps []) >>= λ _. ok tt
