-- ===== src/GlobalFavorites/Document.antt =====
-- `validate_document`, `canonical_bytes`, `required_locator_kinds` and `supports`.
pub mod Size
pub mod Valid
pub mod RoundTrip
use ottplay_control_server.Prelude.{
  ℕ, ◌+◌, ◌*◌, Bool, true, false, not, ◌&&◌, Option, none, some, List, [], ◌∷◌, ◌++◌, map, leb,
  length, all, Result, ok, err, ◌>>=◌, ◌>>◌, guard,
}
use ottplay_control_server.Text.{Text, codes, elem, utf8_length}
use ottplay_control_server.Json.Value.{Value, Values, arr, items, is_one}
use ottplay_control_server.Json.Dumps.{dumps, dumps_onto}
use ottplay_control_server.GlobalFavorites.Fields.{
  Code, invalid_document, document_too_large, duplicate_entry, shape, at,
}
use ottplay_control_server.GlobalFavorites.Entry.{
  Entry, Locator, plex_media, local_media, vportal_media, channel_name, channel, parse_entry,
  entry_json, identity,
}

-- `MAX_BYTES` and `MAX_ENTRIES`
abbrev pub max_bytes : ℕ
max_bytes = 1024 * 1024

abbrev pub max_entries : ℕ
max_entries = 1000

-- The normalized dictionary `{"entries": entries, "version": 1}`.
pub record Document : Type 0 where
  pub entries : List Entry

-- `bool(entries)` as a number of bytes
abbrev pub comma : List Entry → ℕ
comma [] = 0
comma (e ∷ es) = 1

-- The loop of `validate_document`: the rows that are left, the entries and identities so far, and
-- the bytes that they take.
unfoldable pub validate_rows : List Value → List Entry → List Text → ℕ → Result Code (List Entry)
validate_rows [] entries seen size = ok entries
validate_rows (value ∷ rows) entries seen size = do
  entry ← parse_entry value
  let size = size + (utf8_length (dumps (entry_json entry)) + comma entries)
  guard (leb size max_bytes) document_too_large
  let key = identity entry
  guard (not (elem key seen)) duplicate_entry
  validate_rows rows (entries ++ entry ∷ []) (seen ++ key ∷ []) size

abbrev pub document_keys : List Text
document_keys = codes "version" ∷ codes "entries" ∷ []

-- `len(b'{"entries":[],"version":1}')`
abbrev pub empty_size : ℕ
empty_size = 26

-- A value that must be a list.
unfoldable pub list_value : Value → Result Code (List Value)
list_value (arr vs) = ok (items vs)
list_value _ = err invalid_document

unfoldable pub validate_document : Value → Result Code Document
validate_document value = do
  fs ← shape value document_keys
  version ← at (codes "version") fs
  guard (is_one version) invalid_document
  entries ← at (codes "entries") fs
  rows ← list_value entries
  guard (leb (length rows) max_entries) document_too_large
  entries ← validate_rows rows [] [] empty_size
  ok (record { entries = entries })

-- The text of `_json` on the entries of a document, behind the first one with its comma.
more_onto : List Entry → Text → Text
more_onto [] r = r
more_onto (e ∷ es) r = b',' ∷ dumps_onto (entry_json e) (more_onto es r)

entries_onto : List Entry → Text → Text
unfolding more_onto
entries_onto [] r = r
entries_onto (e ∷ es) r = dumps_onto (entry_json e) (more_onto es r)

-- The text whose UTF-8 form is `canonical_bytes`.
unfoldable pub canonical_text : Document → Text
unfolding entries_onto
canonical_text d = codes "{\"entries\":[" ++ entries_onto d.entries (codes "],\"version\":1}")

unfoldable pub canonical_size : Document → ℕ
canonical_size d = utf8_length (canonical_text d)
