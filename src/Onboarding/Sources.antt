-- ===== src/Onboarding/Sources.antt =====
-- `make_snapshot`, `ground_evidence` and `InMemorySourceStore` of backend/onboarding/sources.py. A text
-- is the list of its code points, as in Python; the clock is an argument.
use Prim.Native.Char.{Char, code}
use Prim.Native.String.{◌++◌ as str_append}
use kernl.Prelude.{
  ℕ, zero, suc, ◌+◌, ◌-◌, String, ◌||◌, ◌==◌, ltb, leb, Option, none, some, List, [], ◌∷◌,
  if◌then◌else◌,
}
use kernl.Prelude.PairDict
use kernl.Prelude.PairDict.{PairDict}
use kernl.Prelude.Sort.{sort_by, str_leb}
use kernl.Prelude.Result.{Result, ok, err}
use kernl.Python.{ℤ, pos, negsuc}
use kernl.Python.Text.{Runtime, strip, prefix}
use kernl.Canonical.{Hashing}
use kernl.Schema.{Evidence}
use kernl.Schema.Validate.{SchemaError, check_evidence}

pub record SourceSnapshot : Type 0 where
  pub source_id : String
  pub company_id : String
  pub filename : String
  pub content_hash : String
  pub content : String
  pub byte_length : ℕ
  pub created_at : String

-- `len(s)`
unfoldable pub str_length : String → ℕ
str_length String.[] = 0
str_length (String.◌∷◌ c s) = suc (str_length s)

-- `s[n:]`
unfoldable pub suffix : ℕ → String → String
suffix zero s = s
suffix (suc n) String.[] = String.[]
suffix (suc n) (String.◌∷◌ c s) = suffix n s

-- `s[a:b]`
unfoldable pub slice : ℕ → ℕ → String → String
unfolding suffix prefix
slice a b s = prefix (b - a) (suffix a s)

-- The bytes that UTF-8 takes for a character.
unfoldable pub char_width : Char → ℕ
char_width c =
    if ltb (code c) 128
    then 1
    else if ltb (code c) 2048
    then 2
    else if ltb (code c) 65536
    then 3
    else 4

-- `len(s.encode("utf-8"))`
unfoldable pub utf8_length : String → ℕ
unfolding char_width
utf8_length String.[] = 0
utf8_length (String.◌∷◌ c s) = char_width c + utf8_length s

module _ (h : Hashing) where
  -- `_sha256`
  unfoldable pub text_hash : String → String
  text_hash s = str_append "sha256:" (h.sha256 s)

  unfoldable pub make_snapshot : String → String → String → SourceSnapshot
  unfolding text_hash slice utf8_length
  make_snapshot company filename content = record {
    source_id = str_append "src_" (slice 7 19 (text_hash content));
    company_id = company;
    filename = filename;
    content_hash = text_hash content;
    content = content;
    byte_length = utf8_length content;
    created_at = "";
  }

-- The three GroundingErrors, and what the validators of `Evidence` raise.
pub data GroundingError : Type 0 where
  out_of_range mismatch empty_evidence : GroundingError
  invalid : SchemaError → GroundingError

-- `span_start < 0 or span_end > len(text) or span_start >= span_end`; a span that is in range has no
-- negative end.
unfoldable pub span_of : ℕ → ℤ → ℤ → Option (ℕ × ℕ)
span_of n (pos a) (pos b) = if ltb n b || leb b a then none else some (a, b)
span_of n (negsuc a) b = none
span_of n (pos a) (negsuc b) = none

unfoldable pub cited : SourceSnapshot → ℕ → ℕ → String → Evidence
cited s a b excerpt = record {
  source_id = s.source_id;
  source_version = s.content_hash;
  span_start = a;
  span_end = b;
  excerpt = excerpt;
}

unfoldable pub validated : Evidence → Result SchemaError Unit → Result GroundingError Evidence
validated e (ok _) = ok e
validated e (err x) = err (invalid x)

unfoldable pub ground_evidence :
    Runtime → SourceSnapshot → ℤ → ℤ → String → Result GroundingError Evidence
unfolding span_of str_length slice cited validated
ground_evidence rt s start end_ excerpt = elim (span_of (str_length s.content) start end_) [
  | none ↦ err out_of_range
  | some span ↦
      if slice span.0 span.1 s.content == excerpt
      then if strip rt excerpt == ""
        then err empty_evidence
        else validated (cited s span.0 span.1 excerpt)
            (check_evidence rt (cited s span.0 span.1 excerpt))
      else err mismatch
]

abbrev pub SourceStore : Type 0
SourceStore = PairDict SourceSnapshot

unfoldable pub stamped : SourceSnapshot → String → SourceSnapshot
stamped s now = record s { created_at = if s.created_at == "" then now else s.created_at }

unfoldable pub add_source : SourceSnapshot → String → SourceStore → SourceSnapshot × SourceStore
unfolding stamped
add_source s now store = elim (PairDict.lookup s.company_id s.source_id store) [
  | some old ↦ (old, store)
  | none ↦ (stamped s now, PairDict.insert s.company_id s.source_id (stamped s now) store)
]

unfoldable pub get_source : SourceStore → String → String → Option SourceSnapshot
get_source store company id = PairDict.lookup company id store

unfoldable pub company_sources : String → SourceStore → List SourceSnapshot
company_sources company [] = []
company_sources company ((cid, _, s) ∷ store) =
    let rest = company_sources company store in if cid == company then s ∷ rest else rest

-- `sorted(rows, key=..., reverse=True)`, stable, newest first.
unfoldable pub list_sources : SourceStore → String → List SourceSnapshot
unfolding company_sources
list_sources store company =
    sort_by (λ a b. str_leb b.created_at a.created_at) (company_sources company store)
