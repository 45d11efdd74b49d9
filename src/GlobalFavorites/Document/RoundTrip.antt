-- ===== src/GlobalFavorites/Document/RoundTrip.antt =====
-- Every valid document is accepted, and validation gives it back.
use ottplay_control_server.Prelude.{
  ℕ, ◌+◌, ◌≡◌, ◌≤◌, refl, ap, ◌∙◌, true, false, List, [], ◌∷◌, ◌++◌, map, leb, All, arith, ok,
  le→leb, length-map, map-append, append-nil, append_assoc,
}
use ottplay_control_server.Text.{Text, codes, elem}
use ottplay_control_server.Text.Members.{Unique, Unique-middle}
use ottplay_control_server.Json.Value.{
  Value, arr, dict, int, field, end, of_items, get, same_keys, is_one, items-of_items,
}
use ottplay_control_server.GlobalFavorites.Fields.{shape, at}
use ottplay_control_server.GlobalFavorites.Entry.{Entry, entry_json, identity}
use ottplay_control_server.GlobalFavorites.Entry.Normal.{IsNormal}
use ottplay_control_server.GlobalFavorites.Entry.AsValue.{as_value, entry-as_value}
use ottplay_control_server.GlobalFavorites.Document.{
  Document, max_bytes, empty_size, comma, validate_rows, list_value, validate_document,
}
use ottplay_control_server.GlobalFavorites.Document.Size.{
  entries_size, entry_size, canonical_size-eq, entries_size-snoc, entries_size-le,
}
use ottplay_control_server.GlobalFavorites.Document.Valid.{
  IsValid, identities, validate_document-IsValid,
}

-- The value that `json.loads` makes of the canonical bytes of an entry and of a document.
abbrev pub entry_value : Entry → Value
entry_value e = as_value (entry_json e)

unfoldable pub document_value : Document → Value
document_value d = dict (
    field (codes "entries") (arr (of_items (map entry_value d.entries)))
      (field (codes "version") (int false 1) end))

-- One round of the loop on a row in normal form that is new and fits.
pub row_accepted :
    (e : Entry) (rows : List Value) (before : List Entry) (seen : List Text) (size : ℕ)
    → IsNormal e
    → leb (size + (entry_size e + comma before)) max_bytes ≡ true
    → elem (identity e) seen ≡ false
    → validate_rows (entry_value e ∷ rows) before seen size
      ≡ validate_rows rows
          (before ++ e ∷ [])
          (seen ++ identity e ∷ [])
          (size + (entry_size e + comma before))
unfolding validate_rows
row_accepted e rows before seen size n room fresh = rw (entry-as_value e n) (rw room (rw fresh))

pub fresh_row :
    (before : List Entry) (e : Entry) (left : List Entry)
    → Unique (identities (before ++ e ∷ left))
    → elem (identity e) (identities before) ≡ false
fresh_row before e left u =
    Unique-middle (identities before) (identity e) (identities left) (rw map-append at u)

rows-accepted :
    (done left : List Entry) (size : ℕ)
    → All IsNormal left
    → Unique (identities (done ++ left))
    → size ≡ empty_size + entries_size done
    → empty_size + entries_size (done ++ left) ≤ max_bytes
    → validate_rows (map entry_value left) done (identities done) size ≡ ok (done ++ left)
unfolding validate_rows
rows-accepted done [] size n u s fits = rw append-nil refl
rows-accepted done (e ∷ left) size n u s fits =
    let next = done ++ e ∷ [] in
    let shift : next ++ left ≡ done ++ e ∷ left = append_assoc done (e ∷ []) left in
    let room : size + (entry_size e + comma done) ≤ max_bytes =
      omega (arith, entries_size-snoc done e, entries_size-le next left, ap entries_size shift) in
    let rest =
      rows-accepted next left (size + (entry_size e + comma done)) n.1 (rw shift u)
        (omega (arith, entries_size-snoc done e)) (rw shift fits) in
    row_accepted e (map entry_value left) done (identities done) size n.0 (le→leb _ _ room)
      (fresh_row done e left u)
    ∙ rw (← shift) (rw map-append at rest)

-- Every valid document is accepted, and validating it gives it back.
pub validate-document_value :
    (d : Document) → IsValid d → validate_document (document_value d) ≡ ok d
unfolding validate_document document_value shape same_keys get at is_one list_value
validate-document_value d v = rw items-of_items (
    rw length-map (
      rw (le→leb _ _ v.few) (
        rw (
          rows-accepted [] d.entries empty_size v.normal v.unique (omega arith)
            (omega (arith, canonical_size-eq d))))))

-- Validating what validation returned changes nothing.
pub validate_document_idempotent :
    (v : Value) (d : Document)
    → validate_document v ≡ ok d
    → validate_document (document_value d) ≡ ok d
validate_document_idempotent v d h = validate-document_value d (validate_document-IsValid v d h)
