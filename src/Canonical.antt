-- ===== src/Canonical.antt =====
-- Canonical forms and content hashes, backend/bundle/canonical.py.
use Prim.Native.String.{◌++◌ as str_append}
use kernl.Prelude.{ℕ, String, Bool, ◌%◌, ◌^◌, ◌*◌, leb, if◌then◌else◌}
use kernl.Prelude.Dict.{Dict}
use kernl.Prelude.Result.{Result, ok, err, ◌>>=◌}
use kernl.Python.{
  Json, null, boolean, int, float, str, arr, obj, Items, nil, cons, Fields, end, field,
}
use kernl.Python.Floats.{is_integer, float_to_int}

-- `json.dumps` with sorted keys and the compact separators, the hex digest of SHA-256, and the JSON
-- value that pydantic's `model_dump(mode="json")` makes of a field of the type `dict[str, Any]`.
pub record Hashing : Type 0 where
  pub dumps : Json → String
  pub sha256 : String → String
  pub dump_dict : Dict Json → Json

-- The ValueError of a float that is not finite.
pub data CanonicalError : Type 0 where
  non_finite : CanonicalError

-- An infinity or a NaN.
unfoldable pub is_non_finite : ℕ → Bool
is_non_finite x = leb (2047 * 2 ^ 52) (x % 2 ^ 63)

unfoldable mutual
  pub normalize : Json → Result CanonicalError Json
  normalize null = ok null
  normalize (boolean b) = ok (boolean b)
  normalize (int n) = ok (int n)
  normalize (float x) =
      if is_non_finite x
      then err non_finite
      else if is_integer x
      then ok (int (float_to_int x))
      else ok (float x)
  normalize (str s) = ok (str s)
  normalize (arr xs) = normalize_items xs >>= λ ys. ok (arr ys)
  normalize (obj fs) = normalize_fields fs >>= λ gs. ok (obj gs)

  pub normalize_items : Items → Result CanonicalError Items
  normalize_items nil = ok nil
  normalize_items (cons x xs) = normalize x >>= λ y. normalize_items xs >>= λ ys. ok (cons y ys)

  pub normalize_fields : Fields → Result CanonicalError Fields
  normalize_fields end = ok end
  normalize_fields (field k x fs) =
      normalize x >>= λ y. normalize_fields fs >>= λ gs. ok (field k y gs)

module _ (h : Hashing) where
  unfoldable pub canonical_json : Json → Result CanonicalError String
  canonical_json x = normalize x >>= λ y. ok (h.dumps y)

  -- HASH_PREFIX and the digest.
  unfoldable pub content_hash : Json → Result CanonicalError String
  unfolding canonical_json
  content_hash x = canonical_json x >>= λ text. ok (str_append "sha256:" (h.sha256 text))
