-- ===== src/GlobalFavorites/Fields.antt =====
-- The checks on single values: `_require`, `_shape`, `_text` and `_pattern`, and the patterns.
use ottplay_control_server.Prelude.{
  ℕ, ◌≡◌, Bool, true, false, not, ◌&&◌, ◌||◌, none, some, List, [], ◌∷◌, arith, ltb, leb, ◌==◌,
  length, all, any, Result, ok, err, ◌>>◌, guard,
}
use ottplay_control_server.Text.{
  Text, codes, text_eq, starts_with, contains, strip, encodable, utf16_units, is_digit,
  is_lower_alnum, is_alnum,
}
use ottplay_control_server.Json.Value.{Value, Fields, str, dict, get, same_keys}

-- The codes of `DocumentError`, and Python's KeyError and IndexError.
pub data Code : Type 0 where
  invalid_document document_too_large duplicate_entry invalid_json invalid_mode : Code
  invalid_documents key_error index_error : Code

-- `_shape`: a dictionary with exactly these keys.
unfoldable pub shape : Value → List Text → Result Code Fields
shape (dict fs) ks = do guard (same_keys fs ks) invalid_document; ok fs
shape _ ks = err invalid_document

-- `value[key]`
unfoldable pub at : Text → Fields → Result Code Value
at k fs = elim (get k fs) [ none ↦ err key_error | some v ↦ ok v ]

abbrev js_trim : List ℕ
js_trim =
    0x09 ∷ 0x0a ∷ 0x0b ∷ 0x0c ∷ 0x0d ∷ 0x20 ∷ 0xa0 ∷ 0x1680 ∷ 0x2000 ∷ 0x2001 ∷ 0x2002 ∷ 0x2003
    ∷ 0x2004 ∷ 0x2005 ∷ 0x2006 ∷ 0x2007 ∷ 0x2008 ∷ 0x2009 ∷ 0x200a ∷ 0x2028 ∷ 0x2029 ∷ 0x202f
    ∷ 0x205f ∷ 0x3000 ∷ 0xfeff ∷ []

is_trimmed : ℕ → Bool
is_trimmed c = any (λ d. c == d) js_trim

is_control : ℕ → Bool
is_control c = ltb c 32 || c == 127

-- The tests of `_text` on a string.
unfoldable pub text_ok : Text → ℕ → Bool
unfolding is_trimmed is_control
text_ok s maximum =
    ltb 0 (length s)
    && leb (length s) maximum
    && encodable s
    && leb (utf16_units s) maximum
    && text_eq (strip is_trimmed s) s
    && not (any is_control s)
    && not (contains (codes "://") s)

unfoldable pub text : Value → ℕ → Result Code Text
text (str s) maximum = do guard (text_ok s maximum) invalid_document; ok s
text _ maximum = err invalid_document

unfoldable pub pattern_text : Value → (Text → Bool) → Result Code Text
pattern_text (str s) matches = do guard (matches s) invalid_document; ok s
pattern_text _ matches = err invalid_document

-- `PROVIDER`: behind a first `[a-z0-9]`, and behind each further `/[a-z0-9]`, `[a-z0-9_.-]*`.
is_provider_char : ℕ → Bool
is_provider_char c = is_lower_alnum c || c == b'_' || c == b'.' || c == b'-'

mutual
  unfolding is_provider_char

  segment_start : Text → Bool
  segment_start [] = false
  segment_start (c ∷ s) = is_lower_alnum c && segment_rest s

  segment_rest : Text → Bool
  segment_rest [] = true
  segment_rest (c ∷ s) = elim (c == b'/') [
    | true ↦ segment_start s
    | false ↦ is_provider_char c && segment_rest s
  ]

unfoldable pub provider_pattern : Text → Bool
unfolding segment_start
provider_pattern = segment_start

is_identifier_char : ℕ → Bool
is_identifier_char c = is_alnum c || c == b'.' || c == b'_' || c == b':' || c == b'-'

-- `IDENTIFIER`
unfoldable pub identifier : Text → Bool
unfolding is_identifier_char
identifier [] = false
identifier (c ∷ s) = is_alnum c && all is_identifier_char s && leb (length s) 255

is_pms_char : ℕ → Bool
is_pms_char c = is_alnum c || c == b'.' || c == b'_' || c == b'-'

-- `PMS`
unfoldable pub pms : Text → Bool
unfolding is_pms_char
pms [] = false
pms (c ∷ s) = is_alnum c && all is_pms_char s && leb (length s) 255

-- `RATING_KEY`
unfoldable pub rating_key : Text → Bool
rating_key [] = false
rating_key (c ∷ s) = leb b'1' c && leb c b'9' && all is_digit s && leb (length s) 19

drop_prefix : Text → Text → Text
drop_prefix [] s = s
drop_prefix (p ∷ ps) [] = []
drop_prefix (p ∷ ps) (c ∷ s) = drop_prefix ps s

-- `re.fullmatch(r"channel:[0-9]+", identifier)`
unfoldable pub numbered_channel : Text → Bool
unfolding drop_prefix
numbered_channel s =
    let number = drop_prefix (codes "channel:") s in
    starts_with (codes "channel:") s && ltb 0 (length number) && all is_digit number

-- An accepted text is the string that was given.
pub text-eq-ok :
    (v : Value) (maximum : ℕ) (s : Text)
    → text v maximum ≡ ok s
    → (v ≡ str s) × (text_ok s maximum ≡ true)
unfolding text
text-eq-ok (str t) maximum s h = ground arith
text-eq-ok _ maximum s h = absurd (cc)

pub pattern_text-eq-ok :
    (v : Value) (matches : Text → Bool) (s : Text)
    → pattern_text v matches ≡ ok s
    → (v ≡ str s) × (matches s ≡ true)
unfolding pattern_text
pattern_text-eq-ok (str t) matches s h = ground arith
pattern_text-eq-ok _ matches s h = absurd (cc)
