-- ===== src/Text.antt =====
-- Python's `str` as the list of its code points, and the string operations that the code uses.
pub mod Members
use Prim.Native.Char.{code}
use ottplay_control_server.Prelude.{
  ℕ, ◌+◌, ◌≡◌, ◌↔◌, Bool, true, false, not, ◌&&◌, ◌||◌, List, [], ◌∷◌, ◌++◌, String, arith, leb,
  ltb, ◌==◌, if◌then◌else◌, any,
}

abbrev pub Text : Type 0
Text = List ℕ

-- Python's `bytes` as the list of its values.
abbrev pub Bytes : Type 0
Bytes = List ℕ

-- A literal of the source as its code points.
abbrev pub codes : String → Text
codes String.[] = []
codes (String.◌∷◌ c s) = code c ∷ codes s

unfoldable pub text_eq : Text → Text → Bool
text_eq [] [] = true
text_eq (c ∷ s) (d ∷ t) = c == d && text_eq s t
text_eq _ _ = false

pub text_eq_iff : (s t : Text) → (text_eq s t ≡ true) ↔ (s ≡ t)
unfolding text_eq
text_eq_iff [] [] = ground arith
text_eq_iff [] (d ∷ t) = ground arith
text_eq_iff (c ∷ s) [] = ground arith
text_eq_iff (c ∷ s) (d ∷ t) = ground (arith, text_eq_iff s t)

-- `value in (…)` on texts.
unfoldable pub elem : Text → List Text → Bool
unfolding text_eq
elem t = any (text_eq t)

-- `value.startswith(prefix)`
unfoldable pub starts_with : Text → Text → Bool
starts_with [] s = true
starts_with (p ∷ ps) [] = false
starts_with (p ∷ ps) (c ∷ s) = p == c && starts_with ps s

-- `part in value` on strings
unfoldable pub contains : Text → Text → Bool
unfolding starts_with
contains p [] = starts_with p []
contains p (c ∷ s) = starts_with p (c ∷ s) || contains p s

-- `value.split(sep)` for one character: the first part, and the others
unfoldable pub split : ℕ → Text → List Text
split sep [] = [] ∷ []
split sep (c ∷ s) = elim (split sep s) [
  | [] ↦ []
  | part ∷ parts ↦ if c == sep then [] ∷ part ∷ parts else (c ∷ part) ∷ parts
]

drop_while : (ℕ → Bool) → Text → Text
drop_while p [] = []
drop_while p (c ∷ s) = let rest = drop_while p s in if p c then rest else c ∷ s

drop_while_end : (ℕ → Bool) → Text → Text
drop_while_end p [] = []
drop_while_end p (c ∷ s) = elim (drop_while_end p s) [
  | [] ↦ if p c then [] else c ∷ []
  | d ∷ t ↦ c ∷ d ∷ t
]

-- `value.strip(chars)`, with the set of characters as a test
unfoldable pub strip : (ℕ → Bool) → Text → Text
unfolding drop_while drop_while_end
strip p s = drop_while_end p (drop_while p s)

is_surrogate : ℕ → Bool
is_surrogate c = leb 0xd800 c && leb c 0xdfff

-- `value.encode(…)` raises UnicodeError exactly on an unpaired surrogate.
unfoldable pub encodable : Text → Bool
unfolding is_surrogate
encodable s = not (any is_surrogate s)

-- `len(value.encode("utf-16-le")) // 2`
unfoldable pub utf16_units : Text → ℕ
utf16_units [] = 0
utf16_units (c ∷ s) = (if ltb c 0x10000 then 1 else 2) + utf16_units s

char_bytes : ℕ → ℕ
char_bytes c = if ltb c 0x80 then 1 else if ltb c 0x800 then 2 else if ltb c 0x10000 then 3 else 4

-- `len(value.encode("utf-8"))`
unfoldable pub utf8_length : Text → ℕ
unfolding char_bytes
utf8_length [] = 0
utf8_length (c ∷ s) = char_bytes c + utf8_length s

pub utf8_length-cons :
    (c : ℕ) (s : Text) → utf8_length (c ∷ s) ≡ utf8_length (c ∷ []) + utf8_length s
unfolding utf8_length
utf8_length-cons c s = omega arith

pub utf8_length-append : (s t : Text) → utf8_length (s ++ t) ≡ utf8_length s + utf8_length t
unfolding utf8_length
utf8_length-append [] t = omega arith
utf8_length-append (c ∷ s) t = omega (arith, utf8_length-append s t)

unfoldable pub is_digit : ℕ → Bool
is_digit c = leb b'0' c && leb c b'9'

is_lower : ℕ → Bool
is_lower c = leb b'a' c && leb c b'z'

is_upper : ℕ → Bool
is_upper c = leb b'A' c && leb c b'Z'

-- `[a-z0-9]`
unfoldable pub is_lower_alnum : ℕ → Bool
unfolding is_digit is_lower
is_lower_alnum c = is_lower c || is_digit c

-- `[A-Za-z]`
unfoldable pub is_letter : ℕ → Bool
unfolding is_lower is_upper
is_letter c = is_upper c || is_lower c

-- `[A-Za-z0-9]`
unfoldable pub is_alnum : ℕ → Bool
unfolding is_letter is_digit
is_alnum c = is_letter c || is_digit c

-- `[0-9a-f]`
unfoldable pub is_lower_hex : ℕ → Bool
unfolding is_digit
is_lower_hex c = is_digit c || (leb b'a' c && leb c b'f')
