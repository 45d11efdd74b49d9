-- ===== src/GlobalItems/Tests.antt =====
-- Two pages of one row each, the peer's calls, and the theorems at them.
use ottplay_control_server.Prelude.{
  ℕ, ◌≡◌, ◌≤◌, refl, true, none, some, List, [], ◌∷◌, String, ok, err, Option, Result, length,
}
use ottplay_control_server.Text.{
  Text, codes, text_eq, elem, starts_with, contains, split, strip, encodable, utf16_units,
  utf8_length, is_digit, is_lower_alnum, is_letter, is_alnum,
}
use ottplay_control_server.Json.Value.{
  Value, dict, str, field, end, items, of_items, get, is_one, same_keys,
}
use ottplay_control_server.Json.Dumps.{dumps}
use ottplay_control_server.GlobalFavorites.Fields.{
  shape, at, text_ok, text, pattern_text, provider_pattern, identifier, pms, rating_key,
  numbered_channel,
}
use ottplay_control_server.GlobalFavorites.Entry.{
  optional_text, parse_origin, parse_locator, parse_entry, plex_locator, has_kind, is_vportal_value,
  channel_locator, provider_length, kind_guard, is_text, entry_json, origin_json, locator_json,
  option_json, identity,
}
use ottplay_control_server.GlobalFavorites.Document.{
  validate_document, validate_rows, list_value, canonical_size, canonical_text,
}
use ottplay_control_server.GlobalItems.Page.{
  Failure, Row, Page, max_page_entries, cursor_ok, same_cursor, fresh_ids, portable, is_uuid,
  place_ok, check_page,
}
use ottplay_control_server.GlobalItems.Listing.{
  lift, comma_of, read_row, read_rows, agree, Listing, rpc, collect, collect_start, list,
}
use ottplay_control_server.GlobalItems.Listing.Pages.{IsComplete, list-IsComplete}
use ottplay_control_server.GlobalItems.Peer
use ottplay_control_server.GlobalItems.Peer.{
  Call, play, new_peer, dispatched, completed, step, may_play, after_list, dispatched-le-completed,
}

abbrev text_value : String → Value
text_value s = str (codes s)

abbrev channel_value : String → Value
channel_value id = dict (
    field (codes "title") (text_value "A title") (
      field (codes "origin")
        (dict (
          field (codes "provider") (text_value "m3u") (
            field (codes "profile") (text_value "home") (
              field (codes "subprofile") Value.null
                (field (codes "sourceAlias") (text_value "main") end)))))
        (field (codes "locator")
          (dict (
            field (codes "kind") (text_value "channel")
              (field (codes "channelId") (text_value id) end)))
          end)))

abbrev first_row : Row
first_row = record {
  id = codes "00000000-0000-4000-8000-000000000001";
  entry = channel_value "news";
}

abbrev second_row : Row
second_row = record {
  id = codes "00000000-0000-4000-8000-000000000002";
  entry = channel_value "sport";
}

abbrev page : Option Text → ℕ → List Row → Option Text → Page
page cursor offset rows next = record {
  revision = codes "r";
  context_revision = codes "c";
  total = 2;
  unresolved_legacy_count = 0;
  cursor = cursor;
  page_offset = offset;
  entries = rows;
  next_cursor = next;
}

abbrev two_pages : ℕ → Option Text → Result Failure Page
two_pages i none = ok (page none 0 (first_row ∷ []) (some (codes "n1")))
two_pages i (some c) = ok (page (some c) 1 (second_row ∷ []) none)

-- The server repeats its first page.
abbrev repeated : ℕ → Option Text → Result Failure Page
repeated i cursor = ok (page cursor 0 (first_row ∷ []) (some (codes "n1")))

abbrev listed : Listing
listed = record {
  revision = codes "r";
  context_revision = codes "c";
  total = 2;
  unresolved_legacy_count = 0;
  rows = first_row ∷ second_row ∷ [];
}

program : Unit {0}
unfolding validate_document validate_rows list_value shape at text text_ok pattern_text
    provider_pattern identifier pms rating_key numbered_channel optional_text parse_origin
    parse_locator parse_entry plex_locator has_kind is_vportal_value channel_locator provider_length
    kind_guard is_text entry_json origin_json locator_json option_json identity dumps text_eq elem
    starts_with contains split strip encodable utf16_units utf8_length is_digit is_lower_alnum
    is_letter is_alnum items of_items get is_one same_keys canonical_size canonical_text cursor_ok
    same_cursor fresh_ids portable is_uuid place_ok check_page lift comma_of read_row read_rows
    agree rpc collect collect_start list dispatched step may_play after_list
program = tt

list_run : list two_pages max_page_entries ≡ ok listed
unfolding program
list_run = refl

no_progress : list repeated max_page_entries ≡ err Failure.protocol
unfolding program
no_progress = refl

list-IsComplete_example : IsComplete two_pages max_page_entries listed
list-IsComplete_example = list-IsComplete two_pages max_page_entries listed list_run

-- A second playback from the same listing is refused.
abbrev calls : List Call
calls =
    Peer.list (ok listed)
    ∷ play second_row.id (record { serial = 0; listing = listed }) true (ok tt)
    ∷ play first_row.id (record { serial = 0; listing = listed }) true (ok tt)
    ∷ []

calls_run : dispatched calls new_peer ≡ second_row.id ∷ []
unfolding program
calls_run = refl

dispatched-le-completed_example : length (dispatched calls new_peer) ≤ completed calls
dispatched-le-completed_example = dispatched-le-completed calls
