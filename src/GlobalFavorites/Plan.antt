-- ===== src/GlobalFavorites/Plan.antt =====
-- `plan_documents`: the preview of a merge or a replacement.
pub mod Find
pub mod Merging
pub mod Steps
pub mod Outcome
pub mod Merge
pub mod Errors
pub mod Repeat
pub mod Counts
pub mod Summaries
pub mod Arguments
use ottplay_control_server.Prelude.{
  ℕ, suc, ◌+◌, Bool, true, false, not, ◌&&◌, Option, none, some, List, [], ◌∷◌, ◌++◌, ltb, leb,
  ◌==◌, if◌then◌else◌, length, get_elem?, count_if, keep_if, Result, ok, err, ◌>>=◌, ◌>>◌, guard,
}
use ottplay_control_server.Text.{Text, codes, text_eq}
use ottplay_control_server.Dict
use ottplay_control_server.Dict.{Dict, has, keys}
use ottplay_control_server.Json.Value.{Value, str, arr, items}
use ottplay_control_server.GlobalFavorites.Fields.{
  Code, invalid_document, document_too_large, invalid_mode, invalid_documents, index_error, shape,
  at,
}
use ottplay_control_server.GlobalFavorites.Entry.{Entry, identity}
use ottplay_control_server.GlobalFavorites.Document.{
  Document, max_bytes, max_entries, document_keys, list_value, validate_document, canonical_size,
}
use ottplay_control_server.GlobalFavorites.Document.RoundTrip.{document_value}

pub data Mode : Type 0 where
  merge replace : Mode

-- `type(mode) is str and mode in ("merge", "replace")`
unfoldable pub read_mode : Value → Result Code Mode
read_mode (str s) =
    if text_eq s (codes "merge")
    then ok merge
    else if text_eq s (codes "replace")
    then ok replace
    else err invalid_mode
read_mode _ = err invalid_mode

-- `type(incoming) is list and 1 <= len(incoming) <= MAX_DOCUMENTS`
unfoldable pub read_list : Value → Result Code (List Value)
read_list (arr vs) = do
  guard (leb 1 (length (items vs)) && leb (length (items vs)) 64) invalid_documents
  ok (items vs)
read_list _ = err invalid_documents

-- The loop that validates the incoming documents, with its running count and size.
unfoldable pub read_documents : List Value → ℕ → ℕ → Result Code (List Document)
read_documents [] count size = ok []
read_documents (value ∷ values) count size = do
  fs ← shape value document_keys
  entries ← at (codes "entries") fs
  rows ← list_value entries
  let count = count + length rows
  guard (leb count max_entries) document_too_large
  document ← validate_document value
  let size = size + canonical_size document
  guard (leb size max_bytes) document_too_large
  documents ← read_documents values count size
  ok (document ∷ documents)

pub record Conflict : Type 0 where
  pub existing_index : ℕ
  pub incoming_document : ℕ
  pub incoming_index : ℕ

-- The variables of the merge loop.
pub record Selection : Type 0 where
  pub selected : List Entry
  pub positions : Dict ℕ
  pub conflicts : Dict Conflict
  pub duplicates : ℕ

-- `{_identity(row): index for index, row in enumerate(rows)}`, from an index and a dictionary on
unfoldable pub positions_from : ℕ → List Entry → Dict ℕ → Dict ℕ
positions_from i [] d = d
positions_from i (row ∷ rows) d = positions_from (suc i) rows (Dict.put (identity row) i d)

-- `{_identity(row): row for row in rows}`
unfoldable pub rows_by_identity : List Entry → Dict Entry → Dict Entry
rows_by_identity [] d = d
rows_by_identity (row ∷ rows) d = rows_by_identity rows (Dict.put (identity row) row d)

unfoldable pub start : List Entry → Selection
start rows = record {
  selected = rows;
  positions = positions_from 0 rows [];
  conflicts = [];
  duplicates = 0;
}

-- The row at a known position: a duplicate, or a conflict that is noted once.
pub meet_row : ℕ → ℕ → Entry → ℕ → Selection → Result Code Selection
meet_row document_index entry_index row position s = elim (get_elem? s.selected position) [
  | none ↦ err index_error
  | some old ↦
      if text_eq old.title row.title
      then ok (record s { duplicates = s.duplicates + 1 })
      else if has (identity row) s.conflicts
      then ok s
      else ok (record s {
        conflicts =
            Dict.put (identity row)
              (record {
                existing_index = position;
                incoming_document = document_index;
                incoming_index = entry_index;
              })
              s.conflicts;
      })
]

-- One row of the merge loop.
unfoldable pub merge_row : ℕ → ℕ → Entry → Selection → Result Code Selection
unfolding meet_row
merge_row document_index entry_index row s = elim (Dict.lookup (identity row) s.positions) [
  | none ↦ do
    guard (ltb (length s.selected) max_entries) document_too_large
    ok (record s {
      positions = Dict.put (identity row) (length s.selected) s.positions;
      selected = s.selected ++ row ∷ [];
    })
  | some position ↦ meet_row document_index entry_index row position s
]

unfoldable pub merge_rows : ℕ → ℕ → List Entry → Selection → Result Code Selection
merge_rows document_index entry_index [] s = ok s
merge_rows document_index entry_index (row ∷ rows) s = do
  s ← merge_row document_index entry_index row s
  merge_rows document_index (suc entry_index) rows s

unfoldable pub merge_documents : ℕ → List Document → Selection → Result Code Selection
merge_documents document_index [] s = ok s
merge_documents document_index (document ∷ documents) s = do
  s ← merge_rows document_index 0 document.entries s
  merge_documents (suc document_index) documents s

pub record Summary : Type 0 where
  pub before : ℕ
  pub after : ℕ
  pub added : ℕ
  pub removed : ℕ
  pub retained : ℕ
  pub moved : ℕ
  pub skipped_duplicates : ℕ
  pub title_changes : ℕ
  pub title_conflicts : ℕ

pub record Plan : Type 0 where
  pub document : Document
  pub summary : Summary
  pub title_conflicts : List Conflict
  pub can_commit : Bool

-- `a[key] != b[key]`; the keys that it is asked about are in both.
moved_position : Option ℕ → Option ℕ → Bool
moved_position (some i) (some j) = not (i == j)
moved_position _ _ = false

changed_title : Option Entry → Option Entry → Bool
changed_title (some e) (some f) = not (text_eq e.title f.title)
changed_title _ _ = false

unfoldable pub summarize : List Entry → List Entry → ℕ → ℕ → Summary
unfolding moved_position changed_title
summarize original result skipped conflicts =
    let before = rows_by_identity original [] in
    let after = rows_by_identity result [] in
    let retained = keep_if (λ k. has k after) (keys before) in
    let old_positions = positions_from 0 original [] in
    let new_positions = positions_from 0 result [] in
    record {
      before = length before;
      after = length after;
      added = count_if (λ k. not (has k before)) (keys after);
      removed = count_if (λ k. not (has k after)) (keys before);
      retained = length retained;
      moved =
          count_if (λ k. moved_position (Dict.lookup k old_positions) (Dict.lookup k new_positions))
            retained;
      skipped_duplicates = skipped;
      title_changes =
          count_if (λ k. changed_title (Dict.lookup k before) (Dict.lookup k after)) retained;
      title_conflicts = conflicts;
    }

-- `current if current is not None else {"version": 1, "entries": []}`
unfoldable pub current_value : Option Value → Value
current_value none = document_value (record { entries = [] })
current_value (some v) = v

-- `list(original["entries"]) if mode == "merge" else []`
abbrev pub first_rows : Mode → Document → List Entry
first_rows merge original = original.entries
first_rows replace original = []

-- `plan_documents` behind the validation of its arguments.
unfoldable pub plan_valid : Mode → Document → List Document → Result Code Plan
plan_valid mode original documents = do
  s ← merge_documents 0 documents (start (first_rows mode original))
  result ← validate_document (document_value (record { entries = s.selected }))
  ok (record {
    document = result;
    summary = summarize original.entries result.entries s.duplicates (length s.conflicts);
    title_conflicts = Dict.values s.conflicts;
    can_commit = length s.conflicts == 0;
  })

unfoldable pub plan_documents : Option Value → Value → Value → Result Code Plan
unfolding read_mode read_list current_value
plan_documents current incoming mode = do
  m ← read_mode mode
  values ← read_list incoming
  original ← validate_document (current_value current)
  documents ← read_documents values 0 0
  plan_valid m original documents
