-- ===== src/FavoritesTransfer/Envelopes.antt =====
-- `request_envelopes`: the bytes of a request as the client sends it, and as the server stores it.
use ottplay_control_server.Prelude.{
  ℕ, zero, suc, Bool, true, ◌&&◌, ◌||◌, Option, none, some, [], ◌∷◌, ◌++◌, length, all, leb, ltb,
  ◌==◌, if◌then◌else◌, Result, ok, ◌>>=◌, ◌>>◌, guard, need,
}
use ottplay_control_server.Text.{Bytes, Text, codes, is_alnum}
use ottplay_control_server.Json.Value.{Value, Fields, str, dict, field, end}
use ottplay_control_server.FavoritesTransfer.Strict.{
  Failure, invalid_envelope, max_document_bytes, Codec, validate_document_bytes,
}
use ottplay_control_server.FavoritesTransfer.Pack.{EnvelopeBytes, as_envelope}

-- `json.dumps(value, ensure_ascii=False)` with its default separators, with the compact ones, and
-- with these and `allow_nan=False`; `text.encode("utf-8")`. `none` where it raises.
pub record Printer : Type 0 where
  pub spaced : Value → Option Text
  pub compact : Value → Option Text
  pub finite : Value → Option Text
  pub utf8 : Text → Option Bytes

-- `text.replace(character, escaped)` for one character
unfoldable pub replace : ℕ → Text → Text → Text
replace character escaped [] = []
replace character escaped (c ∷ s) =
    let rest = replace character escaped s in if c == character then escaped ++ rest else c ∷ rest

-- The loop of `go_raw`; 92 is the backslash.
unfoldable pub go_escaped : Text → Text
unfolding replace
go_escaped raw = replace 0x2029 (92 ∷ codes "u2029") (
    replace 0x2028 (92 ∷ codes "u2028") (
      replace b'&' (92 ∷ codes "u0026")
        (replace b'>' (92 ∷ codes "u003e") (replace b'<' (92 ∷ codes "u003c") raw))))

-- `[a-zA-Z0-9_-]{16,80}`
unfoldable pub key_ok : Option Text → Bool
key_ok none = true
key_ok (some key) =
    all (λ c. is_alnum c || c == b'_' || c == b'-') key
    && leb 16 (length key)
    && leb (length key) 80

unfoldable pub repeated : ℕ → ℕ → Text
repeated c zero = []
repeated c (suc n) = c ∷ repeated c n

-- `payload`
abbrev pub payload : Text → Fields → Option Text → Value
payload action params none =
    dict (field (codes "action") (str action) (field (codes "params") (dict params) end))
payload action params (some key) = dict (
    field (codes "action") (str action)
      (field (codes "params") (dict params) (field (codes "idempotency_key") (str key) end)))

-- The double quote is 34.
abbrev quoted : Text → Text
quoted s = 34 ∷ s ++ 34 ∷ []

-- The text in front of the action, and those behind it and behind the identity.
abbrev pub head : Text
head = b'{' ∷ quoted (codes "action") ++ b':' ∷ []

abbrev pub middle : Text
unfolding repeated
middle =
    b',' ∷ quoted (codes "expires_at")
    ++ b':' ∷ b'-' ∷ repeated b'9' 31
    ++ b',' ∷ quoted (codes "id")
    ++ b':' ∷ quoted (repeated b'f' 32)
    ++ b',' ∷ quoted (codes "params")
    ++ b':' ∷ []

module _ (codec : Codec) (printer : Printer) where
  unfoldable pub go_raw : Value → Result Failure Bytes
  go_raw value = do
    raw ← need invalid_envelope (printer.compact value)
    need invalid_envelope (printer.utf8 (go_escaped raw))

  unfoldable pub request_envelopes : Text → Fields → Option Text → Result Failure EnvelopeBytes
  request_envelopes action params key = do
    guard (ltb 0 (length action) && key_ok key) invalid_envelope
    text ← need invalid_envelope (printer.spaced (payload action params key))
    client ← need invalid_envelope (printer.utf8 text)
    as_envelope (validate_document_bytes codec client max_document_bytes)
    name ← go_raw (str action)
    raw ← go_raw (dict params)
    let queued = head ++ name ++ middle ++ raw ++ b'}' ∷ []
    as_envelope (validate_document_bytes codec queued max_document_bytes)
    ok (record { client = client; queued_upper_bound = queued })
