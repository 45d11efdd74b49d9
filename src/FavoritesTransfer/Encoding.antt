-- ===== src/FavoritesTransfer/Encoding.antt =====
-- `encode_bytes` and `decode_bytes`.
pub mod Inverse
use ottplay_control_server.Prelude.{
  ℕ, ◌+◌, ◌*◌, ◌/◌, ◌≡◌, Bool, true, false, not, ◌&&◌, ◌||◌, Option, none, some, List, [], ◌∷◌,
  length, leb, ◌==◌, all, if◌then◌else◌, Result, ok, err, ◌>>=◌, ◌>>◌, guard, need,
}
use ottplay_control_server.Text.{is_lower_hex, Bytes, Text, text_eq, is_digit}
use ottplay_control_server.Json.Value.{Value}
use ottplay_control_server.FavoritesTransfer.Strict.{
  Failure, invalid_encoding, size_mismatch, digest_mismatch, max_document_bytes, Codec, limit,
  raw_bytes, validate_document_bytes,
}

pub record EncodedBytes : Type 0 where
  pub size_bytes : ℕ
  pub sha256 : Text
  pub data_base64 : Text

-- `[a-f0-9]{64}`
unfoldable pub is_sha256 : Text → Bool
unfolding is_lower_hex
is_sha256 s = all is_lower_hex s && length s == 64

-- The longest Base64 text of so many bytes.
abbrev pub base64_length : ℕ → ℕ
base64_length n = 4 * ((n + 2) / 3)

module _ (codec : Codec) where
  unfoldable pub encode_bytes : Bytes → ℕ → Result Failure EncodedBytes
  encode_bytes raw max_bytes = do
    limit max_bytes max_document_bytes
    raw_bytes raw max_bytes
    ok (record {
      size_bytes = length raw;
      sha256 = codec.sha256 raw;
      data_base64 = codec.b64encode raw;
    })

  unfoldable pub encode_document : Bytes → ℕ → Result Failure EncodedBytes
  encode_document raw max_bytes = do
    _ ← validate_document_bytes codec raw max_bytes
    encode_bytes raw max_bytes

  unfoldable pub decode_bytes : EncodedBytes → ℕ → Result Failure Bytes
  decode_bytes e max_bytes = do
    limit max_bytes max_document_bytes
    guard
        (leb 1 e.size_bytes
          && leb e.size_bytes max_bytes
          && is_sha256 e.sha256
          && leb 1 (length e.data_base64)
          && leb (length e.data_base64) (base64_length max_bytes))
        invalid_encoding
    raw ← need invalid_encoding (codec.b64decode e.data_base64)
    guard (text_eq (codec.b64encode raw) e.data_base64) invalid_encoding
    guard (length raw == e.size_bytes) size_mismatch
    guard (text_eq (codec.sha256 raw) e.sha256) digest_mismatch
    ok raw

  unfoldable pub decode_document : EncodedBytes → ℕ → Result Failure Bytes
  decode_document e max_bytes = do
    raw ← decode_bytes e max_bytes
    _ ← validate_document_bytes codec raw max_bytes
    ok raw
