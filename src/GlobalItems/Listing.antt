-- ===== src/GlobalItems/Listing.antt =====
-- `ItemsPeer.list`: the pages of one revision, collected.
pub mod Complete
pub mod Pages
use ottplay_control_server.Prelude.{
  ℕ, suc, zero, ◌+◌, ◌-◌, Bool, true, false, not, ◌&&◌, ◌||◌, Option, none, some, List, [], ◌∷◌,
  ◌++◌, map, leb, ◌==◌, if◌then◌else◌, length, Result, ok, err, ◌>>=◌, ◌>>◌, guard,
}
use ottplay_control_server.Text.{Text, codes, text_eq, elem}
use ottplay_control_server.GlobalFavorites.Fields.{Code}
use ottplay_control_server.GlobalFavorites.Entry.{Entry, parse_entry, identity}
use ottplay_control_server.GlobalFavorites.Document.{
  Document, max_bytes, max_entries, empty_size, canonical_size, validate_document,
}
use ottplay_control_server.GlobalItems.Page.{
  Failure, invalid_response, document, Row, Page, max_page_entries, wrapped, check_page,
}

-- An error of the document codec.
unfoldable pub lift {ℓ} : {A : Type ℓ} → Result Code A → Result Failure A
lift (ok a) = ok a
lift (err c) = err (document c)

-- The variables of the loop.
pub record Collect : Type 0 where
  pub rows : List Row
  pub ids : List Text
  pub identities : List Text
  pub size : ℕ

-- `bool(rows)` as a number of bytes
unfoldable pub comma_of : List Row → ℕ
comma_of [] = 0
comma_of (row ∷ rows) = 1

unfoldable pub read_row : Row → Collect → Result Failure Collect
read_row row s = do
  entry ← lift (parse_entry row.entry)
  let key = identity entry
  guard (not (elem row.id s.ids) && not (elem key s.identities)) invalid_response
  single ← lift (validate_document (wrapped (row.entry ∷ [])))
  let size = s.size + (canonical_size single - empty_size + comma_of s.rows)
  guard (leb size max_bytes) invalid_response
  ok (record {
    rows = s.rows ++ row ∷ [];
    ids = s.ids ++ row.id ∷ [];
    identities = s.identities ++ key ∷ [];
    size = size;
  })

unfoldable pub read_rows : List Row → Collect → Result Failure Collect
read_rows [] s = ok s
read_rows (row ∷ rows) s = do s ← read_row row s; read_rows rows s

-- The first page, which every later page must agree with.
unfoldable pub agree : Option Page → Page → Result Failure Page
agree none p = ok p
agree (some first) p = do
  guard
      (text_eq p.revision first.revision
        && text_eq p.context_revision first.context_revision
        && p.total == first.total
        && p.unresolved_legacy_count == first.unresolved_legacy_count)
      invalid_response
  ok first

-- `Listing`
pub record Listing : Type 0 where
  pub revision : Text
  pub context_revision : Text
  pub total : ℕ
  pub unresolved_legacy_count : ℕ
  pub rows : List Row

abbrev pub listing_of : Page → List Row → Listing
listing_of first rows = record {
  revision = first.revision;
  context_revision = first.context_revision;
  total = first.total;
  unresolved_legacy_count = first.unresolved_legacy_count;
  rows = rows;
}

-- The transport's reply to the request of this number, with this cursor.
module _ (reply : ℕ → Option Text → Result Failure Page) where
  -- `_rpc` of a list request
  unfoldable pub rpc : ℕ → Option Text → ℕ → Result Failure Page
  rpc i cursor most = do page ← reply i cursor; check_page cursor most page; ok page

  -- At most `left` more rounds of the loop, from the request with the number `i` on.
  unfoldable pub collect :
      ℕ → ℕ → ℕ → Option Text → Option Page → List Text → Collect → Result Failure Listing
  collect most zero i cursor first seen s = err invalid_response
  collect most (suc left) i cursor first seen s = do
    page ← rpc i cursor most
    first ← agree first page
    guard (page.page_offset == length s.rows) invalid_response
    s ← read_rows page.entries s
    elim page.next_cursor [
      | none ↦ do
        guard (length s.rows == first.total) invalid_response
        ok (listing_of first s.rows)
      | some c ↦ do
        guard (not (elem c seen)) invalid_response
        collect most left (suc i) (some c) (some first) (c ∷ seen) s
    ]

  unfoldable pub collect_start : Collect
  collect_start = record { rows = []; ids = []; identities = []; size = empty_size }

  -- `ItemsPeer.list`
  unfoldable pub list : ℕ → Result Failure Listing
  list most = collect most max_entries 0 none none [] collect_start
