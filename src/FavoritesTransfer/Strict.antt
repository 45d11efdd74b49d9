-- ===== src/FavoritesTransfer/Strict.antt =====
-- The limits, the errors, and the strict JSON of `validate_document_bytes`.
use ottplay_control_server.Prelude.{
  ℕ, ◌*◌, Bool, true, false, not, ◌&&◌, Option, length, leb, Result, ok, ◌>>=◌, ◌>>◌, guard, need,
}
use ottplay_control_server.Text.{Bytes, Text, elem, encodable}
use ottplay_control_server.Json.Value
use ottplay_control_server.Json.Value.{
  Value, Values, Fields, Float, null, bool, int, float, str, arr, dict, nil, cons, end, field,
  dyadic, infinite, nan,
}

-- The codes of `TransferError`.
pub data Failure : Type 0 where
  invalid_limits invalid_bytes invalid_json invalid_encoding size_mismatch digest_mismatch : Failure
  invalid_envelope envelope_too_large too_many_chunks : Failure

abbrev pub max_document_bytes : ℕ
max_document_bytes = 1024 * 1024

abbrev pub max_chunk_bytes : ℕ
max_chunk_bytes = 8 * 1024

abbrev pub max_rpc_bytes : ℕ
max_rpc_bytes = 16 * 1024

abbrev pub max_chunks : ℕ
max_chunks = 256

-- What the code uses of Python's libraries: the JSON value of UTF-8 bytes, an object with every
-- pair in its order; SHA-256 in hexadecimal; Base64, and its validating decoder.
pub record Codec : Type 0 where
  pub loads : Bytes → Option Value
  pub sha256 : Bytes → Text
  pub b64encode : Bytes → Text
  pub b64decode : Text → Option Bytes

-- `_limit`
unfoldable pub limit : ℕ → ℕ → Result Failure (Unit {0})
limit value maximum = guard (leb 1 value && leb value maximum) invalid_limits

-- `_raw_bytes`
unfoldable pub raw_bytes : Bytes → ℕ → Result Failure (Unit {0})
raw_bytes raw maximum = guard (leb 1 (length raw) && leb (length raw) maximum) invalid_bytes

-- `finite_number` and `reject_constant`
unfoldable pub is_finite : Float → Bool
is_finite (dyadic _ _ _ _) = true
is_finite (infinite _) = false
is_finite nan = false

-- No object has a key twice, every number is finite, and every text can be encoded.
unfoldable mutual
  pub is_strict : Value → Bool
  is_strict (float x) = is_finite x
  is_strict (str s) = encodable s
  is_strict (arr vs) = all_strict vs
  is_strict (dict fs) = fields_strict fs
  is_strict _ = true

  pub all_strict : Values → Bool
  all_strict nil = true
  all_strict (cons v vs) = is_strict v && all_strict vs

  pub fields_strict : Fields → Bool
  fields_strict end = true
  fields_strict (field k v fs) =
      encodable k && not (elem k (Value.keys fs)) && is_strict v && fields_strict fs

module _ (codec : Codec) where
  unfoldable pub validate_document_bytes : Bytes → ℕ → Result Failure Value
  validate_document_bytes raw max_bytes = do
    limit max_bytes max_document_bytes
    raw_bytes raw max_bytes
    value ← need invalid_json (codec.loads raw)
    guard (is_strict value) invalid_json
    ok value
