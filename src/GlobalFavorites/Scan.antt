-- ===== src/GlobalFavorites/Scan.antt =====
-- The nesting scan of `load_document`, which runs over the raw bytes before they are parsed. The
-- depth, which may fall below zero, is the difference of two counters.
use ottplay_control_server.Prelude.{
  ℕ, ◌+◌, Bool, true, false, not, ◌&&◌, ◌||◌, List, [], ◌∷◌, leb, ◌==◌, if◌then◌else◌, Result, ok,
  err,
}
use ottplay_control_server.GlobalFavorites.Fields.{Code, invalid_json}

-- `MAX_JSON_DEPTH`
abbrev pub max_depth : ℕ
max_depth = 8

pub record Scan : Type 0 where
  pub opened : ℕ
  pub closed : ℕ
  pub quoted : Bool
  pub escaped : Bool

abbrev pub scan_start : Scan
scan_start = record { opened = 0; closed = 0; quoted = false; escaped = false }

-- One byte, without the test of the depth.
unfoldable pub scan_byte : ℕ → Scan → Scan
scan_byte byte s =
    if s.quoted
    then (if s.escaped
        then record s { escaped = false }
        else if byte == 92
        then record s { escaped = true }
        else if byte == 34
        then record s { quoted = false }
        else s)
    else if byte == 34
    then record s { quoted = true }
    else if byte == 91 || byte == 123
    then record s { opened = s.opened + 1 }
    else if byte == 93 || byte == 125
    then record s { closed = s.closed + 1 }
    else s

-- `depth <= MAX_JSON_DEPTH`
abbrev pub shallow : Scan → Bool
shallow s = leb s.opened (max_depth + s.closed)

-- The byte opens a container outside a string, and the nesting is over the limit then.
abbrev pub too_deep : ℕ → Scan → Bool
too_deep byte s = not s.quoted && (byte == 91 || byte == 123) && not (shallow (scan_byte byte s))

-- The loop; `depth` is tested where it has grown.
unfoldable pub scan : List ℕ → Scan → Result Code Scan
scan [] s = ok s
scan (byte ∷ rest) s =
    let go = scan rest (scan_byte byte s) in if too_deep byte s then err invalid_json else go
