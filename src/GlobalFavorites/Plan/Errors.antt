-- ===== src/GlobalFavorites/Plan/Errors.antt =====
-- The only way in which planning with valid documents fails is that the result is too large.
use ottplay_control_server.Prelude.{
  ℕ, suc, ◌+◌, ◌≡◌, ◌≤◌, ◌⊎◌, inl, inr, ap, sym, ◌∙◌, none, some, List, [], ◌∷◌, ◌++◌, map, length,
  leb, All, arith, ok, err, Result-cases, Option-cases, Bool-cases, get_elem?, le→leb, length-map,
  map-append, append_assoc,
}
use ottplay_control_server.Text.Members.{Unique}
use ottplay_control_server.Dict
use ottplay_control_server.Json.Value.{same_keys, get, is_one, items-of_items}
use ottplay_control_server.GlobalFavorites.Fields.{Code, document_too_large, shape, at}
use ottplay_control_server.GlobalFavorites.Entry.{Entry, identity}
use ottplay_control_server.GlobalFavorites.Entry.Normal.{IsNormal}
use ottplay_control_server.GlobalFavorites.Entry.AsValue.{entry-as_value}
use ottplay_control_server.GlobalFavorites.Document.{
  Document, max_bytes, max_entries, empty_size, comma, validate_rows, validate_document, list_value,
}
use ottplay_control_server.GlobalFavorites.Document.Size.{entry_size}
use ottplay_control_server.GlobalFavorites.Document.Valid.{IsValid, identities}
use ottplay_control_server.GlobalFavorites.Document.RoundTrip.{
  document_value, entry_value, row_accepted, fresh_row,
}
use ottplay_control_server.GlobalFavorites.Plan.{
  Mode, Plan, Selection, start, first_rows, meet_row, merge_row, merge_rows, merge_documents,
  plan_valid,
}
use ottplay_control_server.GlobalFavorites.Plan.Find.{Tracks, Tracks-some}
use ottplay_control_server.GlobalFavorites.Plan.Merging.{
  IsSelection, Outcome-IsSelection, merge_row-Outcome, merge_row-present,
}
use ottplay_control_server.GlobalFavorites.Plan.Steps.{
  merge_rows-Steps, merge_documents-Steps, Steps-IsSelection,
}
use ottplay_control_server.GlobalFavorites.Plan.Outcome.{
  plan_ok, plan_err, first_rows-IsSelection, Steps-IsNormal, all_rows-IsNormal, first_rows-IsNormal,
}

append_error :
    (d i : ℕ) (row : Entry) (s : Selection) (c : Code)
    → Dict.lookup (identity row) s.positions ≡ none
    → merge_row d i row s ≡ err c
    → c ≡ document_too_large
unfolding merge_row
append_error d i row s c absent h = ground arith

meet_error :
    (d i p : ℕ) (row old : Entry) (s : Selection) (c : Code)
    → get_elem? s.selected p ≡ some old
    → meet_row d i row p s ≡ err c
    → c ≡ document_too_large
unfolding meet_row
meet_error d i p row old s c here h = absurd (ground arith)

merge_row-error :
    (d i : ℕ) (row : Entry) (s : Selection) (c : Code)
    → Tracks s.positions s.selected
    → merge_row d i row s ≡ err c
    → c ≡ document_too_large
merge_row-error d i row s c t h = elim (Option-cases (Dict.lookup (identity row) s.positions)) [
  | inl absent ↦ append_error d i row s c absent h
  | inr (p, present) ↦
      let (old, here, found) = Tracks-some (identity row) p t present in
      meet_error d i p row old s c here (sym (merge_row-present d i p row s present) ∙ h)
]

merge_rows-error :
    (d i : ℕ) (rows : List Entry) (s : Selection) (c : Code)
    → IsSelection s
    → merge_rows d i rows s ≡ err c
    → c ≡ document_too_large
unfolding merge_rows
merge_rows-error d i [] s c v h = absurd (cc)
merge_rows-error d i (row ∷ rows) s c v h = elim (Result-cases (merge_row d i row s)) [
  | inl (t, e) ↦
      merge_rows-error d (suc i) rows t c
        (Outcome-IsSelection row s t (merge_row-Outcome d i row s t v.tracks e) v)
        (rw (e, merge_rows) at h)
  | inr (b, e) ↦ let same : b ≡ c = cc (h, e) in sym same ∙ merge_row-error d i row s b v.tracks e
]

merge_documents-error :
    (d : ℕ) (documents : List Document) (s : Selection) (c : Code)
    → IsSelection s
    → merge_documents d documents s ≡ err c
    → c ≡ document_too_large
unfolding merge_documents
merge_documents-error d [] s c v h = absurd (cc)
merge_documents-error d (document ∷ documents) s c v h =
    elim (Result-cases (merge_rows d 0 document.entries s)) [
      | inl (t, e) ↦
          merge_documents-error (suc d) documents t c
            (Steps-IsSelection (merge_rows-Steps d 0 document.entries s t v e))
            (rw (e, merge_documents) at h)
      | inr (b, e) ↦
          let same : b ≡ c = cc (h, e) in sym same ∙ merge_rows-error d 0 document.entries s b v e
    ]

rows_error :
    (before left : List Entry) (size : ℕ) (c : Code)
    → All IsNormal left
    → Unique (identities (before ++ left))
    → validate_rows (map entry_value left) before (identities before) size ≡ err c
    → c ≡ document_too_large
unfolding validate_rows
rows_error before [] size c n u h = absurd (cc)
rows_error before (e ∷ left) size c n u h =
    elim (Bool-cases (leb (size + (entry_size e + comma before)) max_bytes)) [
      | inl room ↦
          rows_error (before ++ e ∷ []) left (size + (entry_size e + comma before)) c n.1
            (rw append_assoc u)
            (rw (← map-append identity before (e ∷ [])) at (
              sym (
                row_accepted e (map entry_value left) before (identities before) size n.0 room
                  (fresh_row before e left u))
              ∙ h))
      | inr full ↦ ground (arith, entry-as_value e n.0)
    ]

document_fits :
    (d : Document) (es : List Entry)
    → length d.entries ≤ max_entries
    → validate_rows (map entry_value d.entries) [] [] empty_size ≡ ok es
    → validate_document (document_value d) ≡ ok (record { entries = es })
unfolding validate_document document_value shape same_keys get at is_one list_value
document_fits d es few e =
    rw (items-of_items (map entry_value d.entries))
      (rw (length-map entry_value d.entries) (rw (le→leb _ _ few) (rw e)))

document_fails :
    (d : Document) (c : Code)
    → length d.entries ≤ max_entries
    → validate_rows (map entry_value d.entries) [] [] empty_size ≡ err c
    → validate_document (document_value d) ≡ err c
unfolding validate_document document_value shape same_keys get at is_one list_value
document_fails d c few e =
    rw (items-of_items (map entry_value d.entries))
      (rw (length-map entry_value d.entries) (rw (le→leb _ _ few) (rw e)))

document_error :
    (d : Document) (c : Code)
    → All IsNormal d.entries
    → Unique (identities d.entries)
    → length d.entries ≤ max_entries
    → validate_document (document_value d) ≡ err c
    → c ≡ document_too_large
document_error d c n u few h =
    elim (Result-cases (validate_rows (map entry_value d.entries) [] [] empty_size)) [
      | inl (es, e) ↦ absurd (cc (document_fits d es few e, h))
      | inr (b, e) ↦
          let same : b ≡ c = cc (document_fails d b few e, h) in
          sym same ∙ rows_error [] d.entries empty_size b n u e
    ]

selection_error :
    (m : Mode) (original : Document) (documents : List Document) (s : Selection) (c : Code)
    → IsValid original
    → All IsValid documents
    → merge_documents 0 documents (start (first_rows m original)) ≡ ok s
    → validate_document (document_value (record { entries = s.selected })) ≡ err c
    → c ≡ document_too_large
selection_error m original documents s c v vs e f =
    let steps =
      merge_documents-Steps 0 documents (start (first_rows m original)) s
        (first_rows-IsSelection m original v) e in
    let final = Steps-IsSelection steps in
    document_error (record { entries = s.selected }) c
      (Steps-IsNormal steps (all_rows-IsNormal documents vs) (first_rows-IsNormal m original v))
      final.unique final.few f

plan_valid-error :
    (m : Mode) (original : Document) (documents : List Document) (c : Code)
    → IsValid original
    → All IsValid documents
    → plan_valid m original documents ≡ err c
    → c ≡ document_too_large
unfolding plan_valid
plan_valid-error m original documents c v vs h =
    elim (Result-cases (merge_documents 0 documents (start (first_rows m original)))) [
      | inr (b, e) ↦
          let same : b ≡ c = cc (h, e) in
          sym same
          ∙ merge_documents-error 0 documents (start (first_rows m original)) b
              (first_rows-IsSelection m original v) e
      | inl (s, e) ↦
          elim (Result-cases
            (validate_document (document_value (record { entries = s.selected })))) [
              | inl (r, f) ↦ absurd (cc (plan_ok m original documents s r e f, h))
              | inr (b, f) ↦
                  let same : b ≡ c = cc (plan_err m original documents s b e f, h) in
                  sym same ∙ selection_error m original documents s b v vs e f
            ]
    ]

-- Planning with valid documents either gives a plan or fails with `document_too_large`.
pub plan_valid_total :
    (m : Mode) (original : Document) (documents : List Document)
    → IsValid original
    → All IsValid documents
    → ((plan : Plan) × (plan_valid m original documents ≡ ok plan))
      ⊎ (plan_valid m original documents ≡ err document_too_large)
plan_valid_total m original documents v vs = elim (Result-cases (plan_valid m original documents)) [
  | inl planned ↦ inl planned
  | inr (c, h) ↦ inr (h ∙ ap err (plan_valid-error m original documents c v vs h))
]
