-- ===== src/Json/Dumps/Injective.antt =====
-- Two values that print alike are equal, whatever follows them.
use ottplay_control_server.Prelude.{
  ℕ, ◌+◌, ◌-◌, ◌*◌, ◌/◌, ◌%◌, ◌<◌, ◌≡◌, refl, sym, ap, ◌∙◌, Option, none, some, [], ◌∷◌, arith,
  ◌==◌, ltb, if◌then◌else◌,
}
use ottplay_control_server.Text.{Text}
use ottplay_control_server.Json.Dumps.{
  Json, Members, null, str, object, end, member, hex_digit, char_onto, escape_onto, quote_onto,
  dumps_onto, members_onto, dumps,
}

digit_value : ℕ → ℕ
digit_value d = if ltb d 58 then d - 48 else d - 87

-- What stands behind a backslash, read back.
unicode : Text → Option (ℕ × Text)
unfolding digit_value
unicode (_ ∷ _ ∷ _ ∷ h ∷ l ∷ r) = some (digit_value h * 16 + digit_value l, r)
unicode _ = none

unescape : ℕ → Text → Option (ℕ × Text)
unfolding unicode
unescape d r =
    if d == b'u'
    then unicode (d ∷ r)
    else if d == b'n'
    then some (10, r)
    else if d == b'r'
    then some (13, r)
    else if d == b't'
    then some (9, r)
    else if d == b'f'
    then some (12, r)
    else if d == b'b'
    then some (8, r)
    else some (d, r)

-- The first character of a string, and the text behind it; `none` at the closing quote.
read_char : Text → Option (ℕ × Text)
unfolding unescape
read_char [] = none
read_char (c ∷ []) = if c == 34 then none else some (c, [])
read_char (c ∷ d ∷ r) = if c == 34 then none else if c == 92 then unescape d r else some (c, d ∷ r)

hex_value : (n : ℕ) → n < 16 → digit_value (hex_digit n) ≡ n
unfolding digit_value hex_digit
hex_value n h = ground arith

hex_pair :
    (c : ℕ) → c < 32 → digit_value (hex_digit (c / 16)) * 16 + digit_value (hex_digit (c % 16)) ≡ c
hex_pair c h = omega (arith, hex_value (c / 16) (omega arith), hex_value (c % 16) (omega arith))

read-char_onto : (c : ℕ) (r : Text) → read_char (char_onto c r) ≡ some (c, r)
unfolding read_char char_onto
read-char_onto c [] = ground (arith, hex_pair c)
read-char_onto c (d ∷ r) = ground (arith, hex_pair c)

read-quote : (r : Text) → read_char (34 ∷ r) ≡ none
unfolding read_char
read-quote [] = refl
read-quote (d ∷ r) = refl

char-injective : (c d : ℕ) (r s : Text) → char_onto c r ≡ char_onto d s → (c ≡ d) × (r ≡ s)
char-injective c d r s e =
    let same : ◌≡◌ {A = Option (ℕ × Text)} (some (c, r)) (some (d, s)) =
      sym (read-char_onto c r) ∙ ap read_char e ∙ read-char_onto d s in
    (ground arith, ground arith)

char-ne-quote : (c : ℕ) (r s : Text) → char_onto c r ≡ 34 ∷ s → ⊥
char-ne-quote c r s e = cc (read-char_onto c r, read-quote s, ap read_char e)

escape-injective :
    (s t r q : Text) → escape_onto s (34 ∷ r) ≡ escape_onto t (34 ∷ q) → (s ≡ t) × (r ≡ q)
unfolding escape_onto
escape-injective [] [] r q e = (refl, cc)
escape-injective [] (d ∷ t) r q e = absurd (char-ne-quote d _ r (sym e))
escape-injective (c ∷ s) [] r q e = absurd (char-ne-quote c _ q e)
escape-injective (c ∷ s) (d ∷ t) r q e =
    let (same, rest) = char-injective c d _ _ e in
    let (tails, after) = escape-injective s t r q rest in (cc, after)

quote-injective : (s t r q : Text) → quote_onto s r ≡ quote_onto t q → (s ≡ t) × (r ≡ q)
unfolding quote_onto
quote-injective s t r q e = escape-injective s t r q (cc)

abbrev first : Text → ℕ
first [] = 0
first (c ∷ s) = c

abbrev second : Text → ℕ
second [] = 0
second (c ∷ s) = first s

-- One entry of a dictionary: its key, and what stands behind the colon.
entry-injective :
    (k j : Text) (r q : Text)
    → quote_onto k (b':' ∷ r) ≡ quote_onto j (b':' ∷ q)
    → (k ≡ j) × (r ≡ q)
entry-injective k j r q e =
    let (same_key, rest) = quote-injective k j (b':' ∷ r) (b':' ∷ q) e in (same_key, cc)

tail-injective : (c : ℕ) (r q : Text) → ◌≡◌ {A = Text} (c ∷ r) (c ∷ q) → r ≡ q
tail-injective c r q e = cc

mutual
  unfolding dumps_onto

  dumps_onto-injective :
      (v w : Json) (r q : Text) → dumps_onto v r ≡ dumps_onto w q → (v ≡ w) × (r ≡ q)
  dumps_onto-injective null null r q e = (refl, cc)
  dumps_onto-injective null (str t) r q e = absurd (omega (arith, ap first e))
  dumps_onto-injective null (object end) r q e = absurd (omega (arith, ap first e))
  dumps_onto-injective null (object (member k v ms)) r q e = absurd (omega (arith, ap first e))
  dumps_onto-injective (str s) null r q e = absurd (omega (arith, ap first e))
  dumps_onto-injective (str s) (str t) r q e = let (a, b) = quote-injective s t r q e in (cc, b)
  dumps_onto-injective (str s) (object end) r q e = absurd (omega (arith, ap first e))
  dumps_onto-injective (str s) (object (member k v ms)) r q e = absurd (omega (arith, ap first e))
  dumps_onto-injective (object end) null r q e = absurd (omega (arith, ap first e))
  dumps_onto-injective (object end) (str t) r q e = absurd (omega (arith, ap first e))
  dumps_onto-injective (object end) (object end) r q e = (refl, cc)
  dumps_onto-injective (object end) (object (member k v ms)) r q e =
      absurd (omega (arith, ap second e))
  dumps_onto-injective (object (member k v ms)) null r q e = absurd (omega (arith, ap first e))
  dumps_onto-injective (object (member k v ms)) (str t) r q e = absurd (omega (arith, ap first e))
  dumps_onto-injective (object (member k v ms)) (object end) r q e =
      absurd (omega (arith, ap second e))
  dumps_onto-injective (object (member k v ms)) (object (member j w ns)) r q e =
      let (same_key, rest) = entry-injective k j _ _ (tail-injective b'{' _ _ e) in
      let (same_value, after_value) =
        dumps_onto-injective v w (members_onto ms r) (members_onto ns q) rest in
      let (same_rest, after) = members_onto-injective ms ns r q after_value in (cc, after)

  members_onto-injective :
      (ms ns : Members) (r q : Text) → members_onto ms r ≡ members_onto ns q → (ms ≡ ns) × (r ≡ q)
  members_onto-injective end end r q e = (refl, cc)
  members_onto-injective end (member j w ns) r q e = absurd (omega (arith, ap first e))
  members_onto-injective (member k v ms) end r q e = absurd (omega (arith, ap first e))
  members_onto-injective (member k v ms) (member j w ns) r q e =
      let (same_key, rest) = entry-injective k j _ _ (tail-injective b',' _ _ e) in
      let (same_value, after_value) =
        dumps_onto-injective v w (members_onto ms r) (members_onto ns q) rest in
      let (same_rest, after) = members_onto-injective ms ns r q after_value in (cc, after)

pub dumps-injective : (v w : Json) → dumps v ≡ dumps w → v ≡ w
unfolding dumps
dumps-injective v w e = (dumps_onto-injective v w [] [] e).0
