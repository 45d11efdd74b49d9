-- ===== src/GlobalFavorites/Tests.antt =====
-- Concrete documents, and the theorems at them.
use ottplay_control_server.Prelude.{
  ◌≡◌, ◌↔◌, ◌⊎◌, ◌+◌, ◌≤◌, ◌++◌, map, refl, true, false, none, some, List, [], ◌∷◌, String, All,
  length, ok, err,
}
use ottplay_control_server.Text.{
  Text, codes, text_eq, elem, starts_with, contains, split, strip, encodable, utf16_units,
  utf8_length, is_digit, is_lower_alnum, is_letter, is_alnum,
}
use ottplay_control_server.Dict
use ottplay_control_server.Json.Value
use ottplay_control_server.Json.Value.{
  Value, dict, arr, str, field, cons, nil, end, items, of_items, get, is_one, same_keys,
}
use ottplay_control_server.Json.Dumps.{dumps}
use ottplay_control_server.GlobalFavorites.Fields.{
  duplicate_entry, document_too_large, shape, at, text_ok, text, pattern_text, provider_pattern,
  identifier, pms, rating_key, numbered_channel,
}
use ottplay_control_server.GlobalFavorites.Entry.{
  Entry, Origin, channel, plex_media, optional_text, parse_origin, parse_locator, parse_entry,
  plex_locator, has_kind, is_vportal_value, channel_locator, provider_length, kind_guard, is_text,
  entry_json, origin_json, locator_json, option_json, identity,
}
use ottplay_control_server.GlobalFavorites.Document.{
  Document, validate_document, validate_rows, list_value, canonical_size, canonical_text,
}
use ottplay_control_server.GlobalFavorites.Document.Valid.{IsValid, validate_document-IsValid}
use ottplay_control_server.GlobalFavorites.Document.RoundTrip.{
  document_value, validate_document_idempotent,
}
use ottplay_control_server.GlobalFavorites.Entry.Identity.{identity_iff}
use ottplay_control_server.GlobalFavorites.Entry.AsValue.{as_value}
use ottplay_control_server.GlobalFavorites.Plan.{
  merge, replace, Plan, first_rows, start, plan_valid, plan_documents, merge_row, merge_rows,
  merge_documents, positions_from, rows_by_identity, summarize, read_documents,
}
use ottplay_control_server.GlobalFavorites.Plan.Find.{find}
use ottplay_control_server.GlobalFavorites.Plan.Steps.{all_rows, Verbatim, Present, Occurs}
use ottplay_control_server.GlobalFavorites.Plan.Merge.{
  plan-can_commit_iff, plan-Present, merge_prefix, plan-sources,
}
use ottplay_control_server.GlobalFavorites.Plan.Errors.{plan_valid_total}
use ottplay_control_server.GlobalFavorites.Plan.Repeat.{merge_again, replace_by_one}
use ottplay_control_server.GlobalFavorites.Plan.Counts.{IsBalanced, IsKept}
use ottplay_control_server.GlobalFavorites.Plan.Summaries.{
  plan-IsBalanced, merge-IsKept, merge_accounts,
}
use ottplay_control_server.GlobalFavorites.Plan.Arguments.{plan_documents_validates, IsPlanned}
use ottplay_control_server.GlobalFavorites.Kinds.{supports}
use ottplay_control_server.GlobalFavorites.Supports.{IsAdvertised, supports_lem}
use ottplay_control_server.GlobalFavorites.Scan.{Scan, max_depth, scan, scan_start}
use ottplay_control_server.GlobalFavorites.Nesting.{
  Token, opening, closing, plain, quoted, char, escape, bytes_of, opens, closes, scan_iff,
}

abbrev key : String → Value → Value.Fields → Value.Fields
key k = field (codes k)

abbrev text_value : String → Value
text_value s = str (codes s)

abbrev origin_value : String → Value
origin_value provider = dict (
    key "provider" (text_value provider) (
      key "profile" (text_value "home")
        (key "subprofile" Value.null (key "sourceAlias" (text_value "main") end))))

abbrev channel_value : String → String → Value
channel_value id title = dict (
    key "title" (text_value title) (
      key "origin" (origin_value "m3u") (
        key "locator"
          (dict (key "kind" (text_value "channel") (key "channelId" (text_value id) end))) end)))

abbrev plex_value : String → Value
plex_value title = dict (
    key "title" (text_value title) (
      key "origin" (origin_value "plex") (
        key "locator"
          (dict (
            key "kind" (text_value "plex-media")
              (key "serverId" (text_value "srv-1") (key "ratingKey" (text_value "42") end))))
          end)))

abbrev document_of : Value.Values → Value
document_of rows = dict (key "entries" (arr rows) (key "version" (Value.int false 1) end))

abbrev main_origin : String → Origin
main_origin provider = record {
  profile = codes "home";
  provider = codes provider;
  source_alias = codes "main";
  subprofile = none;
}

abbrev news : Entry
news = record { locator = channel (codes "news"); origin = main_origin "m3u"; title = codes "News" }

abbrev film : Entry
film = record {
  locator = plex_media (codes "42") (codes "srv-1");
  origin = main_origin "plex";
  title = codes "Film";
}

abbrev saved_value : Value
saved_value = document_of (cons (channel_value "news" "News") nil)

abbrev saved : Document
saved = record { entries = news ∷ [] }

abbrev shared_value : Value
shared_value = document_of (cons (plex_value "Film") (cons (channel_value "news" "News") nil))

abbrev shared : Document
shared = record { entries = film ∷ news ∷ [] }

-- Everything that a run of the module computes with.
program : Unit {0}
unfolding validate_document validate_rows list_value shape at text text_ok pattern_text
    provider_pattern identifier pms rating_key numbered_channel optional_text parse_origin
    parse_locator parse_entry plex_locator has_kind is_vportal_value channel_locator provider_length
    kind_guard is_text entry_json origin_json locator_json option_json identity dumps text_eq elem
    starts_with contains split strip encodable utf16_units utf8_length is_digit is_lower_alnum
    is_letter is_alnum items of_items get is_one same_keys canonical_size canonical_text
program = tt

saved_read : validate_document saved_value ≡ ok saved
unfolding program
saved_read = refl

shared_read : validate_document shared_value ≡ ok shared
unfolding program
shared_read = refl

twice_refused :
    validate_document
      (document_of (cons (channel_value "news" "News") (cons (channel_value "news" "Novosti") nil)))
    ≡ err duplicate_entry
unfolding program
twice_refused = refl

saved_size : canonical_size saved ≡ 174
unfolding program
saved_size = refl

saved-IsValid : IsValid saved
saved-IsValid = validate_document-IsValid saved_value saved saved_read

shared-IsValid : IsValid shared
shared-IsValid = validate_document-IsValid shared_value shared shared_read

abbrev incoming : List Document
incoming = shared ∷ []

-- The merge of the shared document into the saved one.
abbrev merged : Plan
merged = record {
  document = record { entries = news ∷ film ∷ [] };
  summary = record {
    before = 1;
    after = 2;
    added = 1;
    removed = 0;
    retained = 1;
    moved = 0;
    skipped_duplicates = 1;
    title_changes = 0;
    title_conflicts = 0;
  };
  title_conflicts = [];
  can_commit = true;
}

planning : Unit {0}
unfolding program plan_valid plan_documents start merge_row merge_rows merge_documents
    positions_from rows_by_identity summarize document_value read_documents Dict.lookup Dict.put
    as_value find
planning = tt

merged_planned : plan_valid merge saved incoming ≡ ok merged
unfolding planning
merged_planned = refl

merged_documents :
    plan_documents (some saved_value) (arr (cons shared_value nil)) (text_value "merge") ≡ ok merged
unfolding planning
merged_documents = refl

validate_document-IsValid_example : IsValid shared
validate_document-IsValid_example = validate_document-IsValid shared_value shared shared_read

validate_document_idempotent_example : validate_document (document_value shared) ≡ ok shared
validate_document_idempotent_example = validate_document_idempotent shared_value shared shared_read

identity_iff_example :
    (identity news ≡ identity film) ↔ ((news.locator ≡ film.locator) × (news.origin ≡ film.origin))
identity_iff_example = identity_iff news film

plan-can_commit_iff_example :
    (merged.can_commit ≡ true) ↔ All (Verbatim merged.document.entries) (all_rows incoming)
plan-can_commit_iff_example =
    plan-can_commit_iff merge saved incoming merged saved-IsValid (shared-IsValid, tt)
      merged_planned

plan-Present_example : All (Present merged.document.entries) (all_rows incoming)
plan-Present_example =
    plan-Present merge saved incoming merged saved-IsValid (shared-IsValid, tt) merged_planned

merge_prefix_example : (extra : List Entry) × (merged.document.entries ≡ saved.entries ++ extra)
merge_prefix_example =
    merge_prefix saved incoming merged saved-IsValid (shared-IsValid, tt) merged_planned

plan-sources_example :
    (find (identity film) (first_rows merge saved) ≡ some film) ⊎ Occurs film (all_rows incoming)
unfolding planning
plan-sources_example =
    plan-sources merge saved incoming merged saved-IsValid (shared-IsValid, tt) merged_planned
      (identity film) film refl

plan_valid_total_example :
    ((plan : Plan) × (plan_valid merge saved incoming ≡ ok plan))
    ⊎ (plan_valid merge saved incoming ≡ err document_too_large)
plan_valid_total_example = plan_valid_total merge saved incoming saved-IsValid (shared-IsValid, tt)

merge_again_example :
    (again : Plan) × (plan_valid merge merged.document incoming ≡ ok again)
    × (again.document ≡ merged.document)
    × (again.can_commit ≡ true)
    × (again.summary.skipped_duplicates ≡ length (all_rows incoming))
merge_again_example =
    merge_again saved incoming merged saved-IsValid (shared-IsValid, tt) merged_planned refl

replace_by_one_example :
    (plan : Plan) × (plan_valid replace saved (shared ∷ []) ≡ ok plan)
    × (plan.document ≡ shared)
    × (plan.can_commit ≡ true)
replace_by_one_example = replace_by_one saved shared saved-IsValid shared-IsValid

plan-IsBalanced_example : IsBalanced saved.entries merged.document.entries merged.summary
plan-IsBalanced_example =
    plan-IsBalanced merge saved incoming merged saved-IsValid (shared-IsValid, tt) merged_planned

merge-IsKept_example : IsKept merged.summary
merge-IsKept_example =
    merge-IsKept saved incoming merged saved-IsValid (shared-IsValid, tt) merged_planned

merge_accounts_example :
    merged.summary.added + merged.summary.skipped_duplicates ≡ length (all_rows incoming)
merge_accounts_example =
    merge_accounts saved incoming merged saved-IsValid (shared-IsValid, tt) merged_planned refl

plan_documents_validates_example :
    IsPlanned (some saved_value) (arr (cons shared_value nil)) (text_value "merge") merged
plan_documents_validates_example =
    plan_documents_validates (some saved_value) (arr (cons shared_value nil)) (text_value "merge")
      merged merged_documents

-- A bracket behind an escaped quote stands in the string.
abbrev some_json : List Token
some_json =
    opening true
    ∷ quoted (char b'a' ∷ escape b'"' ∷ char b'[' ∷ [])
    ∷ plain b':'
    ∷ opening false
    ∷ closing false
    ∷ closing true
    ∷ []

some_json_bytes : bytes_of some_json ≡ codes "{\"a\\\"[\":[]}"
some_json_bytes = refl

scan_iff_example : ((t : Scan) × (scan (bytes_of some_json) scan_start ≡ ok t)) ↔ (
    (before after : List Token)
    → some_json ≡ before ++ after
    → opens before ≤ max_depth + closes before)
scan_iff_example = scan_iff some_json ((refl, refl, (refl, refl, tt)), (refl, refl, refl, tt))

abbrev two_kinds : List Text
two_kinds = codes "channel" ∷ codes "plex-media" ∷ []

supports_lem_example :
    (supports shared_value (arr (of_items (map str two_kinds))) ≡ true)
    ↔ IsAdvertised shared_value (arr (of_items (map str two_kinds)))
supports_lem_example = supports_lem shared_value (arr (of_items (map str two_kinds)))
