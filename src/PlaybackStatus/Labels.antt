-- ===== src/PlaybackStatus/Labels.antt =====
-- The texts of a report, and which of them are private.
use ottplay_control_server.Prelude.{
  ℕ, ◌+◌, ◌-◌, Bool, false, not, ◌&&◌, ◌||◌, List, [], ◌∷◌, map, all, any, keep_if, length, leb,
  ◌==◌, take, drop, if◌then◌else◌,
}
use ottplay_control_server.Text.{
  Text, codes, text_eq, starts_with, contains, encodable, utf8_length, is_alnum, is_letter,
  is_lower_alnum, is_lower_hex,
}

-- Python's Unicode: whether the category of a character starts with "C" or is "Cc", and `str.strip`.
pub record Unicode : Type 0 where
  pub is_other : ℕ → Bool
  pub is_control : ℕ → Bool
  pub strip : Text → Text

abbrev backslash : ℕ
backslash = 92

abbrev is_slash : ℕ → Bool
is_slash c = c == b'/' || c == backslash

-- `^[A-Za-z]:[/\\]`
unfoldable pub is_drive : Text → Bool
is_drive (c ∷ colon ∷ d ∷ rest) = is_letter c && colon == b':' && is_slash d
is_drive _ = false

-- `value.startswith(("/", "\\", "~/", "~\\"))`
unfoldable pub is_rooted : Text → Bool
is_rooted [] = false
is_rooted (c ∷ []) = is_slash c
is_rooted (c ∷ d ∷ rest) = is_slash c || (c == b'~' && is_slash d)

-- `private_label`
unfoldable pub private_label : Unicode → Text → Bool
private_label u value =
    let shown = u.strip (keep_if (λ c. not (u.is_other c)) value) in
    contains (codes "://") shown || is_rooted shown || is_drive shown

-- `text`
unfoldable pub text_ok : Unicode → ℕ → Text → Bool
text_ok u most s =
    leb 1 (length s)
    && leb (length s) most
    && encodable s
    && leb (utf8_length s) most
    && text_eq s (u.strip s)
    && not (any u.is_control s)

is_label_char : ℕ → Bool
is_label_char c = is_alnum c || c == b'_' || c == b'.' || c == b'-'

abbrev within : ℕ → ℕ → Text → Bool
within low high s = leb low (length s) && leb (length s) high

-- `LABEL`
unfoldable pub is_label : Text → Bool
unfolding is_label_char
is_label s = all is_label_char s && within 1 128 s

is_runtime_char : ℕ → Bool
unfolding is_label_char
is_runtime_char c = is_label_char c || c == b':'

-- `RUNTIME`
unfoldable pub is_runtime : Text → Bool
unfolding is_runtime_char
is_runtime s = all is_runtime_char s && within 1 128 s

is_colon_hex : Text → Bool
is_colon_hex [] = false
is_colon_hex (c ∷ s) = c == b':' && all is_lower_hex s && length s == 16

-- `NATIVE_LIVE_MEDIA_ID`: the last 17 characters are a colon and a fingerprint.
unfoldable pub is_native_id : Text → Bool
unfolding is_colon_hex
is_native_id s =
    let split = length s - 17 in is_runtime (take split s) && is_colon_hex (drop split s)

-- `str.lower` on ASCII
unfoldable pub lower : Text → Text
lower s = map (λ c. if leb b'A' c && leb c b'Z' then c + 32 else c) s

abbrev private_keys : List Text
private_keys =
    codes "authorization:"
    ∷ codes "password:"
    ∷ codes "token:"
    ∷ codes "secret:"
    ∷ codes "apikey:"
    ∷ codes "api_key:"
    ∷ codes "api-key:"
    ∷ []

-- `NATIVE_PRIVATE_KEY.search`, behind a character of `[a-z0-9_]` or not
unfoldable pub private_key_in : Bool → Text → Bool
private_key_in behind [] = false
private_key_in behind (c ∷ s) =
    (not behind && any (λ k. starts_with k (c ∷ s)) private_keys)
    || private_key_in (is_lower_alnum c || c == b'_') s

-- `native_live_media_id`
unfoldable pub native_live_media_id : Text → Bool
native_live_media_id s =
    let lowered = lower s in
    is_native_id s
    && not (any (λ k. starts_with k lowered) (codes "data:" ∷ codes "blob:" ∷ codes "file:" ∷ []))
    && not (private_key_in false lowered)
