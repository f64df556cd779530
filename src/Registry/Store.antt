-- ===== src/Registry/Store.antt =====
-- `BundleRecord` and `InMemoryBundleStore` of backend/bundle/lifecycle.py.
use kernl.Prelude.{String, ◌&&◌, ◌==◌, Option, none, some, List, [], ◌∷◌, if◌then◌else◌}
use kernl.Prelude.Dict
use kernl.Prelude.Dict.{Dict}
use kernl.Prelude.PairDict
use kernl.Prelude.PairDict.{PairDict}
use kernl.Prelude.Sort.{sort_by, str_leb}
use kernl.Schema.{Bundle}

pub data BundleStatus : Type 0 where
  draft published retired : BundleStatus

pub record BundleRecord : Type 0 where
  pub record_id : String
  pub company_id : String
  pub content_hash : String
  pub status : BundleStatus
  pub bundle : Bundle
  pub created_at : String
  pub created_by : String
  pub published_at : Option String
  pub published_by : Option String
  pub replay_run_id : Option String
  pub signature : Option String
  pub signing_pubkey : Option String
  pub signature_scheme : Option String

pub record BundleStore : Type 0 where
  pub rows : PairDict BundleRecord
  pub pointers : Dict String

-- `add` and `update`, which do the same.
unfoldable pub put : BundleRecord → BundleStore → BundleStore
put r s = record s { rows = PairDict.insert r.company_id r.record_id r s.rows }

unfoldable pub get_record : BundleStore → String → String → Option BundleRecord
get_record s company id = PairDict.lookup company id s.rows

unfoldable pub find_hash : String → String → PairDict BundleRecord → Option BundleRecord
find_hash company hash [] = none
find_hash company hash ((cid, _, r) ∷ d) =
    let rest = find_hash company hash d in
    if cid == company && r.content_hash == hash then some r else rest

unfoldable pub by_hash : BundleStore → String → String → Option BundleRecord
unfolding find_hash
by_hash s company hash = find_hash company hash s.rows

-- `self._rows.get((company_id, rid)) if rid else None`
unfoldable pub pointed : BundleStore → String → Option String → Option BundleRecord
unfolding get_record
pointed s company none = none
pointed s company (some id) = if id == "" then none else get_record s company id

unfoldable pub active : BundleStore → String → Option BundleRecord
unfolding pointed
active s company = pointed s company (Dict.lookup company s.pointers)

-- `set_active`; `none` is the KeyError of a record that the store does not have.
unfoldable pub set_active : BundleStore → String → String → Option BundleRecord × BundleStore
unfolding get_record
set_active s company id = elim (get_record s company id) [
  | none ↦ (none, s)
  | some r ↦ (some r, record s { pointers = Dict.insert company id s.pointers })
]

unfoldable pub company_rows : String → PairDict BundleRecord → List BundleRecord
company_rows company [] = []
company_rows company ((cid, _, r) ∷ d) =
    let rest = company_rows company d in if cid == company then r ∷ rest else rest

-- Newest first, a stable sort.
unfoldable pub list_records : BundleStore → String → List BundleRecord
unfolding company_rows
list_records s company =
    sort_by (λ a b. str_leb b.created_at a.created_at) (company_rows company s.rows)
