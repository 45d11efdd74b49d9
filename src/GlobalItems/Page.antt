-- ===== src/GlobalItems/Page.antt =====
-- `_page`: the tests of one page, behind the reading of its fields.
use ottplay_control_server.Prelude.{
  ℕ, ◌+◌, ◌≡◌, ◌≤◌, Bool, true, false, not, ◌&&◌, ◌||◌, Option, none, some, List, [], ◌∷◌, map, leb,
  ltb, ◌==◌, if◌then◌else◌, length, all, Result, ok, err, ◌>>=◌, ◌>>◌, guard, guard-eq-ok,
  >>=-eq-ok, leb→le,
}
use ottplay_control_server.Text.{Text, codes, text_eq, elem, is_alnum, is_digit}
use ottplay_control_server.Json.Value.{Value, dict, arr, int, field, end, of_items}
use ottplay_control_server.GlobalFavorites.Fields.{Code}
use ottplay_control_server.GlobalFavorites.Document.{Document, max_entries, validate_document}

-- `ProtocolError`, `RemoteError` with its code, a document's error, and what the transport raises.
pub data Failure : Type 0 where
  protocol context_mismatch invalid_response already_started invalid_snapshot : Failure
  document : Code → Failure
  remote : Text → Failure

pub record Row : Type 0 where
  pub id : Text
  pub entry : Value

-- The fields of the data of a page.
pub record Page : Type 0 where
  pub revision : Text
  pub context_revision : Text
  pub total : ℕ
  pub unresolved_legacy_count : ℕ
  pub cursor : Option Text
  pub page_offset : ℕ
  pub entries : List Row
  pub next_cursor : Option Text

-- `MAX_PAGE_ENTRIES`
abbrev pub max_page_entries : ℕ
max_page_entries = 100

-- A character of the template: `x` is a digit in base 16, `v` one of 8, 9, a and b.
uuid_char : ℕ → ℕ → Bool
uuid_char t c =
    if t == b'x'
    then is_digit c || (leb 97 c && leb c 102)
    else if t == b'v'
    then c == b'8' || c == b'9' || c == b'a' || c == b'b'
    else t == c

fits : Text → Text → Bool
unfolding uuid_char
fits [] [] = true
fits (t ∷ template) (c ∷ s) = uuid_char t c && fits template s
fits _ _ = false

-- `core.UUID.fullmatch`
unfoldable pub is_uuid : Text → Bool
unfolding fits
is_uuid s = fits (codes "xxxxxxxx-xxxx-4xxx-vxxx-xxxxxxxxxxxx") s

-- `_cursor`
unfoldable pub cursor_ok : Option Text → Bool
cursor_ok none = true
cursor_ok (some c) =
    all (λ x. is_alnum x || x == b'_' || x == b'-') c && leb 1 (length c) && leb (length c) 512

unfoldable pub same_cursor : Option Text → Option Text → Bool
same_cursor none none = true
same_cursor (some a) (some b) = text_eq a b
same_cursor _ _ = false

-- `set(ids)` has no id twice.
unfoldable pub fresh_ids : List Row → List Text → Bool
fresh_ids [] seen = true
fresh_ids (row ∷ rows) seen = not (elem row.id seen) && fresh_ids rows (row.id ∷ seen)

-- `{"version": 1, "entries": entries}`
abbrev pub wrapped : List Value → Value
wrapped entries =
    dict
      (field (codes "version") (int false 1) (field (codes "entries") (arr (of_items entries)) end))

-- `_portable`
unfoldable pub portable : List Value → Result Failure Document
portable entries = elim (validate_document (wrapped entries)) [ err _ ↦ err protocol | ok d ↦ ok d ]

abbrev is_none : Option Text → Bool
is_none none = true
is_none (some _) = false

-- The page's place among the pages, and the cursor of the next one.
unfoldable pub place_ok : Page → Bool
place_ok p =
    let end = p.page_offset + length p.entries in
    leb end p.total
    && (if is_none p.cursor then p.page_offset == 0 else ltb 0 p.page_offset)
    && (ltb 0 (length p.entries) || (is_none p.cursor && p.page_offset == 0 && p.total == 0))
    && cursor_ok p.next_cursor
    && (if ltb end p.total
        then ltb 0 (length p.entries)
          && not (is_none p.next_cursor)
          && not (same_cursor p.next_cursor p.cursor)
        else is_none p.next_cursor)

-- `_page`
unfoldable pub check_page : Option Text → ℕ → Page → Result Failure (Unit {0})
check_page cursor most p = do
  guard (same_cursor p.cursor cursor) context_mismatch
  guard (leb p.page_offset max_entries) protocol
  guard (leb p.total max_entries) protocol
  guard (leb p.unresolved_legacy_count 100) protocol
  guard (leb (length p.entries) most) protocol
  guard (all (λ row. is_uuid row.id) p.entries && fresh_ids p.entries []) protocol
  _ ← portable (map (λ row. row.entry) p.entries)
  guard (place_ok p) protocol

pub check_page-total :
    (cursor : Option Text) (most : ℕ) (p : Page)
    → check_page cursor most p ≡ ok tt
    → p.total ≤ max_entries
unfolding check_page
check_page-total cursor most p h =
    let (_, _, h₁) = >>=-eq-ok (guard (same_cursor p.cursor cursor) context_mismatch) _ h in
    let (_, _, h₂) = >>=-eq-ok (guard (leb p.page_offset max_entries) protocol) _ h₁ in
    let (_, few, _) = >>=-eq-ok (guard (leb p.total max_entries) protocol) _ h₂ in
    leb→le _ _ (guard-eq-ok _ _ few)
