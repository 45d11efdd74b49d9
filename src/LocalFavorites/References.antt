-- ===== src/LocalFavorites/References.antt =====
-- `_locator` and `_reference`. What a reference is identified by is kept with it.
use ottplay_control_server.Prelude.{
  Bool, true, false, not, ◌&&◌, ◌||◌, Option, none, some, List, [], ◌∷◌, length, any, all, leb,
  ◌==◌, Result, ok, err, ◌>>=◌, ◌>>◌, guard, need,
}
use ottplay_control_server.Text.{
  Text, codes, text_eq, elem, starts_with, split, is_letter, is_alnum, is_digit,
}
use ottplay_control_server.Dict.{is_some}
use ottplay_control_server.Json.Value.{Value, Fields, int, str, dict, get}
use ottplay_control_server.Json.Fields.{matching}
use ottplay_control_server.GlobalItems.Page.{is_uuid}
use ottplay_control_server.LocalFavorites.Bounds.{
  Code, invalid_document, unsupported_channel_codec, unsupported_locator, invalid_local_path,
  Libraries, shape, text,
}

-- A located reference with its locator, one with a legacy number, with its reason and provenance, or
-- any other unresolved one, which is known by its whole value.
pub data Reference : Type 0 where
  located : Value → Reference
  identified : Text → Value → Reference
  opaque : Value → Reference

-- `value in (…)` for a value that may be no string
unfoldable pub one_of : List Text → Option Value → Result Code Text
one_of ts v = need invalid_document (matching (λ s. elem s ts) v)

-- `_uuid`
unfoldable pub uuid : Option Value → Result Code Text
uuid v = need invalid_document (matching is_uuid v)

-- `[A-Za-z0-9][A-Za-z0-9._-]{0,255}`
unfoldable pub is_server : Text → Bool
is_server [] = false
is_server (c ∷ s) =
    is_alnum c
    && all (λ d. is_alnum d || d == b'.' || d == b'_' || d == b'-') s
    && leb (length s) 255

-- `[1-9][0-9]{0,19}`
unfoldable pub is_rating_key : Text → Bool
is_rating_key [] = false
is_rating_key (c ∷ s) = is_digit c && not (c == b'0') && all is_digit s && leb (length s) 19

-- `[A-Za-z0-9+.-]*:` at the start
unfoldable pub scheme_rest : Text → Bool
scheme_rest [] = false
scheme_rest (c ∷ s) =
    c == b':' || ((is_alnum c || c == b'+' || c == b'.' || c == b'-') && scheme_rest s)

unfoldable pub has_scheme : Text → Bool
has_scheme [] = false
has_scheme (c ∷ s) = is_letter c && scheme_rest s

-- The tests of a relative path; 92 is the backslash.
unfoldable pub path_ok : Text → Bool
path_ok path =
    not (starts_with (codes "/") path)
    && not (any (λ c. c == 92) path)
    && not (has_scheme path)
    && all (λ part. not (elem part (codes "" ∷ codes "." ∷ codes ".." ∷ []))) (split b'/' path)

unfoldable pub is_kind : Option Value → Text → Bool
is_kind (some (str s)) t = text_eq s t
is_kind _ t = false

-- A legacy number of JavaScript's safe range.
unfoldable pub legacy_ok : Option Value → Bool
legacy_ok none = true
legacy_ok (some (int false n)) = leb n 9007199254740991
legacy_ok (some _) = false

unfoldable pub title_ok : Option Value → Result Code (Unit {0})
title_ok none = ok tt
title_ok (some v) = do _ ← text (some v) 512 true; ok tt

unfoldable pub fields_of : Value → Result Code Fields
fields_of (dict fs) = ok fs
fields_of _ = err invalid_document

unfoldable pub reference_of : Bool → Text → Value → Value → Reference
reference_of true reason provenance value = identified reason provenance
reference_of false reason provenance value = opaque value

module _ (lib : Libraries) where
  unfoldable pub proven : Value → Value → Bool
  proven scope value = elim lib.channel_codec [ none ↦ false | some codec ↦ codec scope value ]

  unfoldable pub channel_locator : Value → Value → Result Code (Unit {0})
  channel_locator value scope = do
    fs ← shape value (codes "kind" ∷ codes "itemId" ∷ []) []
    _ ← text (get (codes "itemId") fs) 8192 false
    guard (proven scope value) unsupported_channel_codec

  unfoldable pub plex_locator : Value → Result Code (Unit {0})
  plex_locator value = do
    fs ← shape value (codes "kind" ∷ codes "serverId" ∷ codes "ratingKey" ∷ []) []
    server ← text (get (codes "serverId") fs) 256 false
    guard (is_server server) invalid_document
    _ ← need invalid_document (matching is_rating_key (get (codes "ratingKey") fs))
    ok tt

  unfoldable pub vportal_locator : Value → Result Code (Unit {0})
  vportal_locator value = do
    fs ← shape value (codes "kind" ∷ codes "mediaType" ∷ codes "leafId" ∷ []) []
    _ ← one_of (codes "live" ∷ codes "movie" ∷ codes "episode" ∷ []) (get (codes "mediaType") fs)
    _ ← text (get (codes "leafId") fs) 512 false
    ok tt

  unfoldable pub local_locator : Value → Result Code (Unit {0})
  local_locator value = do
    fs ← shape value (codes "kind" ∷ codes "rootBindingId" ∷ codes "relativePath" ∷ []) []
    _ ← uuid (get (codes "rootBindingId") fs)
    path ← text (get (codes "relativePath") fs) 8192 false
    guard (path_ok path) invalid_local_path

  unfoldable pub locator_of_kind : Option Value → Value → Value → Result Code (Unit {0})
  locator_of_kind kind value scope = elim (is_kind kind (codes "channel")) [
    | true ↦ channel_locator value scope
    | false ↦ elim (is_kind kind (codes "plex-media")) [
      | true ↦ plex_locator value
      | false ↦ elim (is_kind kind (codes "vportal")) [
        | true ↦ vportal_locator value
        | false ↦ elim (is_kind kind (codes "local")) [
          | true ↦ local_locator value
          | false ↦ err unsupported_locator
        ]
      ]
    ]
  ]

  -- `_locator`
  unfoldable pub locator : Value → Value → Result Code (Unit {0})
  locator value scope = do fs ← fields_of value; locator_of_kind (get (codes "kind") fs) value scope

  unfoldable pub located_reference : Value → Value → Result Code Reference
  located_reference value scope = do
    fs ← shape value (codes "state" ∷ codes "locator" ∷ []) (codes "title" ∷ [])
    place ← need invalid_document (get (codes "locator") fs)
    locator place scope
    title_ok (get (codes "title") fs)
    ok (located place)

  unfoldable pub unresolved_reference : Value → Result Code Reference
  unresolved_reference value = do
    fs ← shape value (codes "state" ∷ codes "reason" ∷ codes "provenance" ∷ []) (codes "title" ∷ [])
    reason ←
        one_of
          (codes "missing"
            ∷ codes "ambiguous"
            ∷ codes "legacy-unportable"
            ∷ codes "codec-unavailable"
            ∷ [])
          (get (codes "reason") fs)
    provenance ← need invalid_document (get (codes "provenance") fs)
    ps ← shape provenance (codes "origin" ∷ []) (codes "legacyId" ∷ [])
    _ ← one_of (codes "raw" ∷ codes "canonical" ∷ []) (get (codes "origin") ps)
    guard (legacy_ok (get (codes "legacyId") ps)) invalid_document
    title_ok (get (codes "title") fs)
    ok (reference_of (is_some (get (codes "legacyId") ps)) reason provenance value)

  -- `_reference`
  unfoldable pub reference : Value → Value → Result Code Reference
  reference value scope = do
    fs ← fields_of value
    elim (is_kind (get (codes "state") fs) (codes "located")) [
      | true ↦ located_reference value scope
      | false ↦ do
        guard (is_kind (get (codes "state") fs) (codes "unresolved")) invalid_document
        unresolved_reference value
    ]

  unfoldable pub references : Value → List Value → Result Code (List Reference)
  references scope [] = ok []
  references scope (v ∷ vs) = do r ← reference v scope; rs ← references scope vs; ok (r ∷ rs)
