-- ===== src/GlobalFavorites/Nesting.antt =====
-- What the scan of `load_document` accepts, by the tokens of the text.
use ottplay_control_server.Prelude.{
  ℕ, ◌+◌, ◌≡◌, ◌≤◌, ◌↔◌, refl, ap, sym, ◌∙◌, subst, Bool-cases, inl, inr, Bool, true, false, ◌||◌,
  List, [], ◌∷◌, ◌++◌, leb, leb→le, le→leb, ◌==◌, if◌then◌else◌, arith, ok, err,
}
use ottplay_control_server.GlobalFavorites.Fields.{invalid_json}
use ottplay_control_server.GlobalFavorites.Scan.{Scan, max_depth, scan, scan_byte, scan_start}

-- In a string: a byte, or a backslash and the byte that it escapes.
pub data Piece : Type 0 where
  char escape : ℕ → Piece

-- A bracket or a brace, which is the one where the flag is set; another byte; a string.
pub data Token : Type 0 where
  opening closing : Bool → Token
  plain : ℕ → Token
  quoted : List Piece → Token

-- The bytes of these pieces, before others.
abbrev pub piece_bytes : List Piece → List ℕ → List ℕ
piece_bytes [] rest = rest
piece_bytes (char byte ∷ ps) rest = byte ∷ piece_bytes ps rest
piece_bytes (escape byte ∷ ps) rest = b'\\' ∷ byte ∷ piece_bytes ps rest

abbrev pub bytes_of : List Token → List ℕ
bytes_of [] = []
bytes_of (opening b ∷ ts) = (if b then b'{' else b'[') ∷ bytes_of ts
bytes_of (closing b ∷ ts) = (if b then b'}' else b']') ∷ bytes_of ts
bytes_of (plain byte ∷ ts) = byte ∷ bytes_of ts
bytes_of (quoted ps ∷ ts) = b'"' ∷ piece_bytes ps (b'"' ∷ bytes_of ts)

-- A single byte of a string is neither a quote nor a backslash.
abbrev pub ArePieces : List Piece → Type 0
ArePieces [] = Unit
ArePieces (char byte ∷ ps) = ((byte == b'"') ≡ false) × ((byte == b'\\') ≡ false) × ArePieces ps
ArePieces (escape byte ∷ ps) = ArePieces ps

-- Another byte is neither a quote nor a bracket or brace.
abbrev pub AreTokens : List Token → Type 0
AreTokens [] = Unit
AreTokens (opening b ∷ ts) = AreTokens ts
AreTokens (closing b ∷ ts) = AreTokens ts
AreTokens (plain byte ∷ ts) =
    ((byte == b'"') ≡ false)
    × ((byte == b'[' || byte == b'{') ≡ false)
    × ((byte == b']' || byte == b'}') ≡ false)
    × AreTokens ts
AreTokens (quoted ps ∷ ts) = ArePieces ps × AreTokens ts

-- How many of the tokens open a container, and how many close one.
abbrev pub opens : List Token → ℕ
opens [] = 0
opens (opening b ∷ ts) = opens ts + 1
opens (closing b ∷ ts) = opens ts
opens (plain byte ∷ ts) = opens ts
opens (quoted ps ∷ ts) = opens ts

abbrev pub closes : List Token → ℕ
closes [] = 0
closes (opening b ∷ ts) = closes ts
closes (closing b ∷ ts) = closes ts + 1
closes (plain byte ∷ ts) = closes ts
closes (quoted ps ∷ ts) = closes ts

-- Where this many are opened and closed before, no point of the tokens is nested too deep.
abbrev Within : ℕ → ℕ → List Token → Type 0
Within o c ts =
    (before after : List Token)
    → ts ≡ before ++ after
    → o + opens before ≤ max_depth + c + closes before

abbrev Accepts : List ℕ → Scan → Type 0
Accepts bytes s = (t : Scan) × (scan bytes s ≡ ok t)

abbrev state : ℕ → ℕ → Bool → Scan
state o c q = record { opened = o; closed = c; quoted = q; escaped = false }

scan_pieces :
    (ps : List Piece) (rest : List ℕ) (o c : ℕ)
    → ArePieces ps
    → scan (piece_bytes ps (b'"' ∷ rest)) (state o c true) ≡ scan rest (state o c false)
unfolding scan scan_byte
scan_pieces [] rest o c h = refl
scan_pieces (char byte ∷ ps) rest o c h =
    let (quote, backslash, more) = h in rw (quote, backslash) (scan_pieces ps rest o c more)
scan_pieces (escape byte ∷ ps) rest o c h = scan_pieces ps rest o c h

scan_quoted :
    (ps : List Piece) (rest : List ℕ) (o c : ℕ)
    → ArePieces ps
    → scan (b'"' ∷ piece_bytes ps (b'"' ∷ rest)) (state o c false) ≡ scan rest (state o c false)
unfolding scan scan_byte
scan_quoted ps rest o c h = scan_pieces ps rest o c h

scan_opening :
    (b : Bool) (rest : List ℕ) (o c : ℕ)
    → scan ((if b then b'{' else b'[') ∷ rest) (state o c false) ≡ (
        if leb (o + 1) (max_depth + c) then scan rest (state (o + 1) c false) else err invalid_json)
unfolding scan scan_byte
scan_opening true rest o c = elim (Bool-cases (leb (o + 1) (max_depth + c))) [
  | inl h ↦ rw h refl
  | inr h ↦ rw h refl
]
scan_opening false rest o c = elim (Bool-cases (leb (o + 1) (max_depth + c))) [
  | inl h ↦ rw h refl
  | inr h ↦ rw h refl
]

scan_closing :
    (b : Bool) (rest : List ℕ) (o c : ℕ)
    → scan ((if b then b'}' else b']') ∷ rest) (state o c false) ≡ scan rest (state o (c + 1) false)
unfolding scan scan_byte
scan_closing true rest o c = refl
scan_closing false rest o c = refl

scan_plain :
    (byte : ℕ) (rest : List ℕ) (o c : ℕ)
    → (byte == b'"') ≡ false
    → (byte == b'[' || byte == b'{') ≡ false
    → (byte == b']' || byte == b'}') ≡ false
    → scan (byte ∷ rest) (state o c false) ≡ scan rest (state o c false)
unfolding scan scan_byte
scan_plain byte rest o c h j k = rw (h, j, k) refl

-- Behind one token more.
Within-rest :
    (o c o₁ c₁ : ℕ) (t : Token) (ts : List Token)
    → ((xs : List Token) → o + opens (t ∷ xs) ≡ o₁ + opens xs)
    → ((xs : List Token) → c + closes (t ∷ xs) ≡ c₁ + closes xs)
    → Within o c (t ∷ ts)
    → Within o₁ c₁ ts
Within-rest o c o₁ c₁ t ts up down w before after same =
    omega (arith, up before, down before, w (t ∷ before) after (ap (λ xs. t ∷ xs) same))

-- In front of tokens that stay within the limit.
Within-more :
    (o c o₁ c₁ : ℕ) (t : Token) (ts : List Token)
    → ((xs : List Token) → o + opens (t ∷ xs) ≡ o₁ + opens xs)
    → ((xs : List Token) → c + closes (t ∷ xs) ≡ c₁ + closes xs)
    → o ≤ max_depth + c
    → Within o₁ c₁ ts
    → Within o c (t ∷ ts)
Within-more o c o₁ c₁ t ts up down low w [] after same = omega (arith, low)
Within-more o c o₁ c₁ t ts up down low w (u ∷ before) after same =
    let head : t ≡ u = cc same in
    let tail : ts ≡ before ++ after = cc same in
    subst (λ u. o + opens (u ∷ before) ≤ max_depth + c + closes (u ∷ before)) head
      (omega (arith, up before, down before, w before after tail))

tokens_iff :
    (ts : List Token) (o c : ℕ)
    → AreTokens ts
    → o ≤ max_depth + c
    → Accepts (bytes_of ts) (state o c false) ↔ Within o c ts
unfolding scan
tokens_iff [] o c h low = (λ _. within, λ _. (state o c false, refl))
  where
    within : Within o c []
    within [] after same = omega (arith, low)
    within (u ∷ before) after same = absurd (cc)
tokens_iff (opening b ∷ ts) o c h low = elim (Bool-cases (leb (o + 1) (max_depth + c))) [
  | inl fits ↦
      let low₁ = leb→le (o + 1) (max_depth + c) fits in
      let (into, back) = tokens_iff ts (o + 1) c h low₁ in
      let same : scan (bytes_of (opening b ∷ ts)) (state o c false)
          ≡ scan (bytes_of ts) (state (o + 1) c false) =
        scan_opening b (bytes_of ts) o c ∙ rw fits refl in
      (
        λ (t, e).
            Within-more o c (o + 1) c (opening b) ts (λ xs. omega arith) (λ xs. refl) low
              (into (t, sym same ∙ e)),
        λ w.
            let (t, e) =
              back (Within-rest o c (o + 1) c (opening b) ts (λ xs. omega arith) (λ xs. refl) w) in
            (t, same ∙ e),
      )
  | inr deep ↦
      let same : scan (bytes_of (opening b ∷ ts)) (state o c false) ≡ err invalid_json =
        scan_opening b (bytes_of ts) o c ∙ rw deep refl in
      (
        λ (t, e). absurd (cc (same, e)),
        λ w. absurd (
            let first = w (opening b ∷ []) ts refl in
            cc (deep, le→leb (o + 1) (max_depth + c) (omega (arith, first)))),
      )
]
tokens_iff (closing b ∷ ts) o c h low =
    let (into, back) = tokens_iff ts o (c + 1) h (omega (arith, low)) in
    let same = scan_closing b (bytes_of ts) o c in
    (
      λ (t, e).
          Within-more o c o (c + 1) (closing b) ts (λ xs. refl) (λ xs. omega arith) low
            (into (t, sym same ∙ e)),
      λ w.
          let (t, e) =
            back (Within-rest o c o (c + 1) (closing b) ts (λ xs. refl) (λ xs. omega arith) w) in
          (t, same ∙ e),
    )
tokens_iff (plain byte ∷ ts) o c (h₀, h₁, h₂, h) low =
    let (into, back) = tokens_iff ts o c h low in
    let same = scan_plain byte (bytes_of ts) o c h₀ h₁ h₂ in
    (
      λ (t, e).
          Within-more o c o c (plain byte) ts (λ xs. refl) (λ xs. refl) low
            (into (t, sym same ∙ e)),
      λ w.
          let (t, e) = back (Within-rest o c o c (plain byte) ts (λ xs. refl) (λ xs. refl) w) in
          (t, same ∙ e),
    )
tokens_iff (quoted ps ∷ ts) o c (k, h) low =
    let (into, back) = tokens_iff ts o c h low in
    let same = scan_quoted ps (bytes_of ts) o c k in
    (
      λ (t, e).
          Within-more o c o c (quoted ps) ts (λ xs. refl) (λ xs. refl) low (into (t, sym same ∙ e)),
      λ w.
          let (t, e) = back (Within-rest o c o c (quoted ps) ts (λ xs. refl) (λ xs. refl) w) in
          (t, same ∙ e),
    )

-- The scan accepts the bytes of a text, whose tokens are brackets and braces, strings of characters
-- and escaped characters, and other bytes, exactly when no prefix of the tokens opens more than eight
-- containers that it does not close; what stands in a string does not count.
pub scan_iff :
    (ts : List Token)
    → AreTokens ts
    → ((t : Scan) × (scan (bytes_of ts) scan_start ≡ ok t)) ↔ (
        (before after : List Token)
        → ts ≡ before ++ after
        → opens before ≤ max_depth + closes before)
scan_iff ts h =
    let (into, back) = tokens_iff ts 0 0 h (omega arith) in
    (
      λ a before after same. omega (arith, into a before after same),
      λ w. back (λ before after same. omega (arith, w before after same)),
    )
