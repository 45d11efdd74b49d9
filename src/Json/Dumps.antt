-- ===== src/Json/Dumps.antt =====
-- `json.dumps(value, ensure_ascii=False, sort_keys=True, separators=(",", ":"))` on null, texts and
-- dictionaries. The modules build every dictionary with its keys in order, so `sort_keys` moves
-- nothing. The printer writes in front of the text that follows.
pub mod Injective
pub mod Append
use ottplay_control_server.Prelude.{ℕ, ◌+◌, ◌/◌, ◌%◌, [], ◌∷◌, ◌++◌, ltb, ◌==◌, if◌then◌else◌}
use ottplay_control_server.Text.{Text, codes}

mutual
  pub data Json : Type 0 where
    null : Json
    str : Text → Json
    object : Members → Json

  pub data Members : Type 0 where
    end : Members
    member : Text → Json → Members → Members

unfoldable pub hex_digit : ℕ → ℕ
hex_digit n = if ltb n 10 then b'0' + n else 87 + n

-- One character of a string, with the escapes of `json.encoder.ESCAPE` (92 is the backslash).
unfoldable pub char_onto : ℕ → Text → Text
unfolding hex_digit
char_onto c r =
    if c == 34
    then 92 ∷ 34 ∷ r
    else if c == 92
    then 92 ∷ 92 ∷ r
    else if c == 10
    then 92 ∷ b'n' ∷ r
    else if c == 13
    then 92 ∷ b'r' ∷ r
    else if c == 9
    then 92 ∷ b't' ∷ r
    else if c == 12
    then 92 ∷ b'f' ∷ r
    else if c == 8
    then 92 ∷ b'b' ∷ r
    else if ltb c 32
    then 92 ∷ b'u' ∷ b'0' ∷ b'0' ∷ hex_digit (c / 16) ∷ hex_digit (c % 16) ∷ r
    else c ∷ r

unfoldable pub escape_onto : Text → Text → Text
unfolding char_onto
escape_onto [] r = r
escape_onto (c ∷ s) r = char_onto c (escape_onto s r)

unfoldable pub quote_onto : Text → Text → Text
unfolding escape_onto
quote_onto s r = 34 ∷ escape_onto s (34 ∷ r)

unfoldable mutual
  unfolding quote_onto

  pub dumps_onto : Json → Text → Text
  dumps_onto null r = codes "null" ++ r
  dumps_onto (str s) r = quote_onto s r
  dumps_onto (object end) r = b'{' ∷ b'}' ∷ r
  dumps_onto (object (member k v ms)) r =
      b'{' ∷ quote_onto k (b':' ∷ dumps_onto v (members_onto ms r))

  pub members_onto : Members → Text → Text
  members_onto end r = b'}' ∷ r
  members_onto (member k v ms) r = b',' ∷ quote_onto k (b':' ∷ dumps_onto v (members_onto ms r))

unfoldable pub dumps : Json → Text
unfolding dumps_onto
dumps j = dumps_onto j []
