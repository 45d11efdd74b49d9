-- ===== src/GlobalFavorites/Document/Valid.antt =====
-- Which documents `validate_document` accepts: soundness, and acceptance of every valid document.
use ottplay_control_server.Prelude.{
  ℕ, ◌+◌, ◌≡◌, ◌≤◌, ◌∙◌, false, Option, none, some, List, [], ◌∷◌, ◌++◌, map, length, All, All-snoc,
  arith, ok, Result-cases, inl, inr, length-append, map-append,
}
use ottplay_control_server.Text.{Text, codes, elem}
use ottplay_control_server.Text.Members.{Unique, Unique-snoc}
use ottplay_control_server.Json.Value.{Value, arr, dict, items, get}
use ottplay_control_server.GlobalFavorites.Fields.{shape, at}
use ottplay_control_server.GlobalFavorites.Entry.{Entry, parse_entry, identity}
use ottplay_control_server.GlobalFavorites.Entry.Normal.{IsNormal, parse_entry-IsNormal}
use ottplay_control_server.GlobalFavorites.Document.{
  Document, max_bytes, max_entries, empty_size, comma, validate_rows, list_value, validate_document,
  canonical_size,
}
use ottplay_control_server.GlobalFavorites.Document.Size.{
  entries_size, entry_size, canonical_size-eq, entries_size-snoc,
}

abbrev pub identities : List Entry → List Text
identities = map identity

-- What the loop has established of the entries that it has read.
pub record IsAccepted (es : List Entry) : Type 0 where
  pub normal : All IsNormal es
  pub unique : Unique (identities es)
  pub small : empty_size + entries_size es ≤ max_bytes

pub IsAccepted-snoc :
    (es : List Entry) (e : Entry)
    → IsAccepted es
    → IsNormal e
    → elem (identity e) (identities es) ≡ false
    → empty_size + entries_size es + (entry_size e + comma es) ≤ max_bytes
    → IsAccepted (es ++ e ∷ [])
IsAccepted-snoc es e a n fresh fits = record {
  normal = All-snoc IsNormal es e a.normal n;
  unique = rw map-append (Unique-snoc (identities es) (identity e) a.unique fresh);
  small = omega (arith, entries_size-snoc es e);
}

-- One round of the loop that goes on.
pub row_step :
    (value : Value) (rows : List Value) (es : List Entry) (seen : List Text) (size : ℕ)
    (out : List Entry)
    → validate_rows (value ∷ rows) es seen size ≡ ok out
    → (e : Entry) × (parse_entry value ≡ ok e)
      × (size + (entry_size e + comma es) ≤ max_bytes)
      × (elem (identity e) seen ≡ false)
      × (validate_rows rows
            (es ++ e ∷ [])
            (seen ++ identity e ∷ [])
            (size + (entry_size e + comma es))
          ≡ ok out)
unfolding validate_rows
row_step value rows es seen size out h = elim (Result-cases (parse_entry value)) [
  | inl (e, p) ↦ (e, p, ground arith, ground arith, ground arith)
  | inr (c, p) ↦ absurd (cc (h, p))
]

rows-IsAccepted :
    (rows : List Value) (es : List Entry) (size : ℕ) (out : List Entry)
    → validate_rows rows es (identities es) size ≡ ok out
    → size ≡ empty_size + entries_size es
    → IsAccepted es
    → IsAccepted out × (length out ≡ length es + length rows)
unfolding validate_rows
rows-IsAccepted [] es size out h s a = ground arith
rows-IsAccepted (value ∷ rows) es size out h s a =
    let (e, parsed, fits, fresh, rest) = row_step value rows es (identities es) size out h in
    let (accepted, counted) =
      rows-IsAccepted rows (es ++ e ∷ []) (size + (entry_size e + comma es)) out
        (rw map-append rest) (omega (arith, entries_size-snoc es e))
        (IsAccepted-snoc es e a (parse_entry-IsNormal value e parsed) fresh (omega arith)) in
    (accepted, omega (arith, length-append es (e ∷ [])))

-- A document that every test of `validate_document` accepts.
pub record IsValid (d : Document) : Type 0 where
  pub normal : All IsNormal d.entries
  pub unique : Unique (identities d.entries)
  pub few : length d.entries ≤ max_entries
  pub small : canonical_size d ≤ max_bytes

abbrev pub rows_of : Option Value → List Value
rows_of (some (arr vs)) = items vs
rows_of _ = []

abbrev pub entries_of : Value → Option Value
entries_of (dict fs) = get (codes "entries") fs
entries_of _ = none

-- The rows of an accepted value, and what the loop makes of them.
pub document_rows :
    (v : Value) (d : Document)
    → validate_document v ≡ ok d
    → (length (rows_of (entries_of v)) ≤ max_entries)
      × (validate_rows (rows_of (entries_of v)) [] [] empty_size ≡ ok d.entries)
unfolding validate_document shape at list_value
document_rows (dict fs) d h = ground arith
document_rows _ d h = absurd (cc)

-- What `validate_document` returns is valid: entries in normal form, no identity twice, at most
-- 1000 entries, and canonical bytes of at most one MiB.
pub validate_document-IsValid : (v : Value) (d : Document) → validate_document v ≡ ok d → IsValid d
validate_document-IsValid v d h =
    let (few, read) = document_rows v d h in
    let (accepted, counted) =
      rows-IsAccepted (rows_of (entries_of v)) [] empty_size d.entries read (omega arith)
        (record { normal = tt; unique = tt; small = omega arith }) in
    record {
      normal = accepted.normal;
      unique = accepted.unique;
      few = omega arith;
      small = omega (arith, canonical_size-eq d, accepted.small);
    }

-- Validation drops no row.
pub length-validate_document :
    (v : Value) (d : Document)
    → validate_document v ≡ ok d
    → length d.entries ≡ length (rows_of (entries_of v))
length-validate_document v d h =
    let (few, read) = document_rows v d h in
    (rows-IsAccepted (rows_of (entries_of v)) [] empty_size d.entries read (omega arith)
      (record { normal = tt; unique = tt; small = omega arith })).1
    ∙ omega arith
