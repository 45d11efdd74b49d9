-- ===== src/LocalFavorites/Tests.antt =====
-- Two scopes with one reference each, the merge of their documents, and the theorems there.
use ottplay_control_server.Prelude.{
  ◌≡◌, refl, true, false, none, some, List, [], ◌∷◌, ◌++◌, String, ok, All,
}
use ottplay_control_server.Text.{
  Text, codes, text_eq, elem, is_digit, is_letter, is_alnum, is_lower_alnum, encodable, utf8_length,
  starts_with, split,
}
use ottplay_control_server.Json.Value
use ottplay_control_server.Json.Value.{
  Value, Values, Fields, null, bool, int, float, str, arr, dict, nil, cons, field, end, items,
  of_items, get, same_keys,
}
use ottplay_control_server.Json.Fields.{
  matching, bool_of, list_of, is_number, is_text, keys_between,
}
use ottplay_control_server.GlobalFavorites.Kinds.{text_lt}
use ottplay_control_server.GlobalFavorites.Plan.{merge}
use ottplay_control_server.GlobalItems.Page.{is_uuid}
use ottplay_control_server.GlobalRecovery.Replies.{same_texts}
use ottplay_control_server.LocalFavorites.Bounds.{
  Libraries, shape, text, spend, enter, short, finite, visit_plain, visit, bounded,
}
use ottplay_control_server.LocalFavorites.References.{
  Reference, opaque, one_of, uuid, is_server, is_rating_key, path_ok, has_scheme, scheme_rest,
  is_kind, legacy_ok, title_ok, fields_of, reference_of, proven, locator_of_kind, locator,
  located_reference, unresolved_reference, reference, references,
}
use ottplay_control_server.LocalFavorites.Scopes.{
  Scope, key_lt, coverage_ok, chosen_ok, list_at, absent, default_ok, order_texts, same_set,
  names_of, read_key, shuffle_ok, read_lists, channel_lists, scope_document, read_scopes, insert,
  sort, validate_document,
}
use ottplay_control_server.LocalFavorites.Plan.{
  same_item, has_item, as_set, without, retained, Counts, counts, Plan, find, add_key, bundle,
  set_field, without_entries, emptied_lists, emptied, item_of, row_items, list_items,
  list_memberships, occurrences, memberships, meet, take_scope, select, select_all,
  select_documents, validate_all, current_value, plan_documents, only_scope, empty_channels,
  clear_scope,
}
use ottplay_control_server.LocalFavorites.Sorted.{Increasing}
use ottplay_control_server.LocalFavorites.Valid.{validate_document-Increasing}
use ottplay_control_server.LocalFavorites.Merge.{merge-keeps, Covered, plan-Covered}

-- A text of a value, in the order of its keys.
mutual
  show : Value → Text
  show null = codes "null"
  show (bool true) = codes "true"
  show (bool false) = codes "false"
  show (int negative n) = n ∷ []
  show (float x) = codes "0.5"
  show (str s) = 34 ∷ s ++ 34 ∷ []
  show (arr vs) = b'[' ∷ show_items vs
  show (dict fs) = b'{' ∷ show_fields fs

  show_items : Values → Text
  show_items nil = b']' ∷ []
  show_items (cons v vs) = show v ++ b',' ∷ show_items vs

  show_fields : Fields → Text
  show_fields end = b'}' ∷ []
  show_fields (field k v fs) = k ++ b':' ∷ show v ++ b',' ∷ show_fields fs

abbrev lib : Libraries
unfolding show
lib = record { json = show; channel_codec = none }

abbrev text_field : String → String → Fields → Fields
text_field k s fs = field (codes k) (str (codes s)) fs

abbrev reference_value : Value
reference_value = dict (
    text_field "state" "unresolved" (
      text_field "reason" "missing"
        (field (codes "provenance") (dict (text_field "origin" "raw" end)) end)))

abbrev scope_fields : String → List Value → Fields
scope_fields provider media = field (codes "schema") (int false 1) (
    field (codes "scope")
      (dict (
        text_field "profileBindingId" "00000000-0000-4000-8000-000000000001" (
          text_field "sourceBindingId" "00000000-0000-4000-8000-000000000002"
            (text_field "provider" provider end))))
      (field (codes "coverage")
        (dict (
          text_field "channelLists" "complete-for-scope" (
            text_field "mediaFavorites" "complete-for-scope" (
              text_field "remoteAliases" "excluded-preserved"
                (text_field "history" "excluded-preserved" end)))))
        (field (codes "channelLists")
          (dict (
            field (codes "active") null (
              field (codes "order") (arr nil) (
                field (codes "default") (dict (field (codes "present") (bool false) end))
                  (field (codes "lists") (arr nil) end)))))
          (field (codes "mediaFavorites") (arr (of_items media)) end))))

abbrev scope : String → List Value → List Reference → Scope
scope provider values media = record {
  key = record {
    provider = codes provider;
    profile = codes "00000000-0000-4000-8000-000000000001";
    source = codes "00000000-0000-4000-8000-000000000002";
  };
  fields = scope_fields provider values;
  lists = [];
  media = media;
}

abbrev saved : Scope
saved = scope "plex" (reference_value ∷ []) (opaque reference_value ∷ [])

abbrev other : Scope
other = scope "m3u" [] []

program : Unit {0}
unfolding show text_eq elem is_digit is_letter is_alnum is_lower_alnum encodable utf8_length
    starts_with split items of_items get same_keys Value.keys matching bool_of list_of is_number
    is_text keys_between text_lt is_uuid same_texts shape text spend enter short finite visit_plain
    visit bounded one_of uuid is_server is_rating_key path_ok has_scheme scheme_rest is_kind
    legacy_ok title_ok fields_of reference_of proven locator_of_kind locator located_reference
    unresolved_reference reference references key_lt coverage_ok chosen_ok list_at absent default_ok
    order_texts same_set names_of read_key shuffle_ok read_lists channel_lists scope_document
    read_scopes insert sort validate_document same_item has_item as_set without retained counts find
    add_key bundle set_field without_entries emptied_lists emptied item_of row_items list_items
    list_memberships occurrences memberships meet take_scope select select_all select_documents
    validate_all current_value plan_documents only_scope empty_channels clear_scope
program = tt

-- The scopes are sorted by their keys.
valid_run : validate_document lib (bundle (saved ∷ other ∷ [])) ≡ ok (other ∷ saved ∷ [])
unfolding program
valid_run = refl

validate_document-Increasing_example : Increasing (other ∷ saved ∷ [])
validate_document-Increasing_example =
    validate_document-Increasing lib (bundle (saved ∷ other ∷ [])) (other ∷ saved ∷ []) valid_run

abbrev both : Counts
both = record { before = 1; after = 1; added = 0; removed = 0; kept = 1 }

abbrev planned : Plan
planned = record {
  document = other ∷ saved ∷ [];
  summary = record { items = both; skipped_duplicates = 1; memberships = both; unresolved = 0 };
}

abbrev incoming : List Value
unfolding bundle
incoming = bundle (other ∷ []) ∷ bundle (saved ∷ []) ∷ []

plan_run : plan_documents lib merge (some (bundle (saved ∷ []))) incoming ≡ ok planned
unfolding program
plan_run = refl

saved_run : validate_document lib (current_value lib (some (bundle (saved ∷ [])))) ≡ ok (saved ∷ [])
unfolding program
saved_run = refl

found_run : find saved.key (saved ∷ []) ≡ some saved
unfolding program
found_run = refl

merge-keeps_example : find saved.key planned.document ≡ some saved
merge-keeps_example =
    merge-keeps lib (some (bundle (saved ∷ []))) incoming planned plan_run (saved ∷ []) saved_run
      saved.key saved found_run

incoming_run : validate_all lib incoming ≡ ok ((other ∷ []) ∷ (saved ∷ []) ∷ [])
unfolding program
incoming_run = refl

plan-Covered_example : All (All (Covered lib planned)) ((other ∷ []) ∷ (saved ∷ []) ∷ [])
plan-Covered_example =
    plan-Covered lib merge (some (bundle (saved ∷ []))) incoming planned plan_run refl
      ((other ∷ []) ∷ (saved ∷ []) ∷ []) incoming_run

-- Clearing keeps all but the membership.
clear_run : clear_scope lib (dict saved.fields) ≡ ok (scope_fields "plex" [])
unfolding program
clear_run = refl
