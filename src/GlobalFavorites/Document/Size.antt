-- ===== src/GlobalFavorites/Document/Size.antt =====
-- The running size of the loop is the length of the bytes that it would print.
use ottplay_control_server.Prelude.{ℕ, ◌+◌, ◌≡◌, ◌≤◌, refl, List, [], ◌∷◌, ◌++◌, arith}
use ottplay_control_server.Text.{Text, codes, utf8_length}
use ottplay_control_server.Json.Dumps.{dumps, dumps_onto}
use ottplay_control_server.Json.Dumps.Append.{utf8_length-dumps_onto}
use ottplay_control_server.GlobalFavorites.Entry.{Entry, entry_json}
use ottplay_control_server.GlobalFavorites.Document.{
  Document, more_onto, entries_onto, canonical_text, canonical_size, empty_size, comma,
}

abbrev pub entry_size : Entry → ℕ
entry_size e = utf8_length (dumps (entry_json e))

-- The bytes of the entries behind the first one.
abbrev more_size : List Entry → ℕ
more_size [] = 0
more_size (e ∷ es) = 1 + entry_size e + more_size es

abbrev pub entries_size : List Entry → ℕ
entries_size [] = 0
entries_size (e ∷ es) = entry_size e + more_size es

comma_length : (r : Text) → utf8_length (b',' ∷ r) ≡ 1 + utf8_length r
unfolding utf8_length
comma_length r = refl

utf8_length-more :
    (es : List Entry) (r : Text) → utf8_length (more_onto es r) ≡ more_size es + utf8_length r
unfolding more_onto
utf8_length-more [] r = omega arith
utf8_length-more (e ∷ es) r = omega (
  arith,
  comma_length (dumps_onto (entry_json e) (more_onto es r)),
  utf8_length-dumps_onto (entry_json e) (more_onto es r),
  utf8_length-more es r,
)

utf8_length-entries :
    (es : List Entry) (r : Text) → utf8_length (entries_onto es r) ≡ entries_size es + utf8_length r
unfolding entries_onto
utf8_length-entries [] r = omega arith
utf8_length-entries (e ∷ es) r =
    omega (arith, utf8_length-dumps_onto (entry_json e) (more_onto es r), utf8_length-more es r)

pub canonical_size-eq : (d : Document) → canonical_size d ≡ empty_size + entries_size d.entries
unfolding canonical_size canonical_text utf8_length
canonical_size-eq d = omega (arith, utf8_length-entries d.entries (codes "],\"version\":1}"))

more_size-append :
    (es : List Entry) (e : Entry) → more_size (es ++ e ∷ []) ≡ more_size es + 1 + entry_size e
more_size-append [] e = omega arith
more_size-append (x ∷ es) e = omega (arith, more_size-append es e)

pub entries_size-snoc :
    (es : List Entry) (e : Entry)
    → entries_size (es ++ e ∷ []) ≡ entries_size es + (entry_size e + comma es)
entries_size-snoc [] e = omega arith
entries_size-snoc (x ∷ es) e = omega (arith, more_size-append es e)

more_size-le : (es fs : List Entry) → more_size es ≤ more_size (es ++ fs)
more_size-le [] fs = omega arith
more_size-le (e ∷ es) fs = omega (arith, more_size-le es fs)

-- A prefix of the entries takes no more bytes.
pub entries_size-le : (es fs : List Entry) → entries_size es ≤ entries_size (es ++ fs)
entries_size-le [] fs = omega arith
entries_size-le (e ∷ es) fs = omega (arith, more_size-le es fs)
