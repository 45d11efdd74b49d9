-- ===== src/GlobalFavorites/Entry.antt =====
-- `_origin`, `_locator`, `_entry` and `_identity`. A normalized dictionary is a record or a
-- constructor here; `entry_json` and its parts say which dictionary it stands for.
pub mod Normal
pub mod AsValue
pub mod Identity
use ottplay_control_server.Prelude.{
  ℕ, Bool, true, false, not, ◌&&◌, ◌||◌, Option, none, some, List, [], ◌∷◌, ltb, leb, ◌==◌,
  if◌then◌else◌, length, all, any, Result, ok, err, ◌>>=◌, ◌>>◌, guard,
}
use ottplay_control_server.Text.{Text, codes, text_eq, elem, starts_with, split, is_letter}
use ottplay_control_server.Json.Value.{Value, Fields, null, str, dict, get, same_keys}
use ottplay_control_server.Json.Dumps.{Json, object, end, member, dumps}
use ottplay_control_server.Json.Dumps
use ottplay_control_server.GlobalFavorites.Fields.{
  Code, invalid_document, shape, at, text, pattern_text, provider_pattern, identifier, pms,
  rating_key, numbered_channel,
}

pub record Origin : Type 0 where
  pub profile : Text
  pub provider : Text
  pub source_alias : Text
  pub subprofile : Option Text

pub data Locator : Type 0 where
  -- ratingKey, serverId
  plex_media : Text → Text → Locator
  -- relativePath, rootAlias
  local_media : Text → Text → Locator
  -- id, idField
  vportal_media : Text → Text → Locator
  -- group, name
  channel_name : Option Text → Text → Locator
  -- channelId
  channel : Text → Locator

pub record Entry : Type 0 where
  pub locator : Locator
  pub origin : Origin
  pub title : Text

-- `None if value is None else _text(value, 256)`
unfoldable pub optional_text : Value → ℕ → Result Code (Option Text)
optional_text null maximum = ok none
optional_text v maximum = do s ← text v maximum; ok (some s)

-- `type(value) is str and 1 <= len(value) <= 64`
unfoldable pub provider_length : Value → Bool
provider_length (str s) = leb 1 (length s) && leb (length s) 64
provider_length _ = false

abbrev pub origin_keys : List Text
origin_keys = codes "provider" ∷ codes "profile" ∷ codes "subprofile" ∷ codes "sourceAlias" ∷ []

unfoldable pub parse_origin : Value → Result Code Origin
unfolding provider_length
parse_origin value = do
  fs ← shape value origin_keys
  p ← at (codes "provider") fs
  guard (provider_length p) invalid_document
  profile ← at (codes "profile") fs
  profile ← text profile 256
  provider ← pattern_text p provider_pattern
  source_alias ← at (codes "sourceAlias") fs
  source_alias ← text source_alias 256
  subprofile ← at (codes "subprofile") fs
  subprofile ← optional_text subprofile 256
  ok (record {
    profile = profile;
    provider = provider;
    source_alias = source_alias;
    subprofile = subprofile;
  })

-- `value == text` for a value that may be no string or be missing
unfoldable pub is_text : Option Value → Text → Bool
is_text (some (str s)) t = text_eq s t
is_text _ t = false

-- `type(value) is dict and value.get("kind") == kind`
unfoldable pub has_kind : Value → Text → Bool
unfolding is_text
has_kind (dict fs) kind = is_text (get (codes "kind") fs) kind
has_kind _ kind = false

unfoldable pub kind_guard : Fields → Text → Result Code (Unit {0})
unfolding is_text
kind_guard fs kind = do k ← at (codes "kind") fs; guard (is_text (some k) kind) invalid_document

abbrev pub plex_keys : List Text
plex_keys = codes "kind" ∷ codes "serverId" ∷ codes "ratingKey" ∷ []

unfoldable pub plex_locator : Value → Result Code Locator
unfolding kind_guard
plex_locator value = do
  fs ← shape value plex_keys
  kind_guard fs (codes "plex-media")
  key ← at (codes "ratingKey") fs
  key ← pattern_text key rating_key
  server ← at (codes "serverId") fs
  server ← pattern_text server pms
  ok (plex_media key server)

-- `re.match(r"[A-Za-z]:", path)`
unfoldable pub drive_prefix : Text → Bool
drive_prefix (c ∷ d ∷ _) = is_letter c && d == b':'
drive_prefix _ = false

-- The tests of a relative path; 92 is the backslash.
unfoldable pub path_ok : Text → Bool
unfolding drive_prefix
path_ok path =
    not (starts_with (codes "/") path)
    && not (drive_prefix path)
    && not (any (λ c. c == 92) path)
    && all (λ part. not (elem part (codes "" ∷ codes "." ∷ codes ".." ∷ []))) (split b'/' path)

abbrev pub local_keys : List Text
local_keys = codes "kind" ∷ codes "rootAlias" ∷ codes "relativePath" ∷ []

unfoldable pub local_locator : Value → Result Code Locator
unfolding kind_guard path_ok
local_locator value = do
  fs ← shape value local_keys
  kind_guard fs (codes "local-media")
  path ← at (codes "relativePath") fs
  path ← text path 8192
  guard (path_ok path) invalid_document
  root ← at (codes "rootAlias") fs
  root ← text root 256
  ok (local_media path root)

abbrev pub vportal_keys : List Text
vportal_keys = codes "kind" ∷ codes "idField" ∷ codes "id" ∷ []

-- `VPORTAL_ID_FIELDS`
abbrev pub vportal_id_fields : List Text
vportal_id_fields =
    codes "id"
    ∷ codes "fid"
    ∷ codes "stream_id"
    ∷ codes "itemId"
    ∷ codes "media_id"
    ∷ codes "episode_id"
    ∷ []

unfoldable pub vportal_locator : Value → Result Code Locator
unfolding kind_guard
vportal_locator value = do
  fs ← shape value vportal_keys
  kind_guard fs (codes "vportal-media")
  id_field ← at (codes "idField") fs
  id_field ← pattern_text id_field (λ s. elem s vportal_id_fields)
  id ← at (codes "id") fs
  id ← pattern_text id identifier
  ok (vportal_media id id_field)

-- `type(value) is dict and set(value) == {"kind", "idField", "id"} and
-- value["kind"] == "vportal-media"`
unfoldable pub is_vportal_value : Value → Bool
unfolding is_text
is_vportal_value (dict fs) =
    same_keys fs vportal_keys && is_text (get (codes "kind") fs) (codes "vportal-media")
is_vportal_value _ = false

abbrev pub channel_name_keys : List Text
channel_name_keys = codes "kind" ∷ codes "name" ∷ codes "group" ∷ []

unfoldable pub channel_name_locator : Value → Result Code Locator
channel_name_locator value = do
  fs ← shape value channel_name_keys
  group ← at (codes "group") fs
  group ← optional_text group 256
  name ← at (codes "name") fs
  name ← text name 1024
  ok (channel_name group name)

abbrev pub channel_keys : List Text
channel_keys = codes "kind" ∷ codes "channelId" ∷ []

unfoldable pub channel_locator : Value → Result Code Locator
unfolding kind_guard
channel_locator value = do
  fs ← shape value channel_keys
  kind_guard fs (codes "channel")
  id ← at (codes "channelId") fs
  id ← pattern_text id identifier
  guard (not (numbered_channel id)) invalid_document
  ok (channel id)

unfoldable pub parse_locator : Text → Value → Result Code Locator
parse_locator provider value =
    if text_eq provider (codes "plex")
    then plex_locator value
    else if text_eq provider (codes "local")
    then local_locator value
    else if text_eq provider (codes "vportal")
        || (text_eq provider (codes "m3u") && is_vportal_value value)
    then vportal_locator value
    else if has_kind value (codes "channel-name")
    then channel_name_locator value
    else channel_locator value

abbrev pub entry_keys : List Text
entry_keys = codes "title" ∷ codes "origin" ∷ codes "locator" ∷ []

unfoldable pub parse_entry : Value → Result Code Entry
parse_entry value = do
  fs ← shape value entry_keys
  origin ← at (codes "origin") fs
  origin ← parse_origin origin
  locator ← at (codes "locator") fs
  locator ← parse_locator origin.provider locator
  title ← at (codes "title") fs
  title ← text title 1024
  ok (record { locator = locator; origin = origin; title = title })

unfoldable pub option_json : Option Text → Json
option_json none = Dumps.null
option_json (some s) = Dumps.str s

unfoldable pub origin_json : Origin → Json
unfolding option_json
origin_json o = object (
    member (codes "profile") (Dumps.str o.profile) (
      member (codes "provider") (Dumps.str o.provider) (
        member (codes "sourceAlias") (Dumps.str o.source_alias)
          (member (codes "subprofile") (option_json o.subprofile) end))))

-- The dictionary of two keys beside `kind`, all in the order of `sort_keys`.
unfoldable pub locator_json : Locator → Json
unfolding option_json
locator_json (plex_media key server) = object (
    member (codes "kind") (Dumps.str (codes "plex-media")) (
      member (codes "ratingKey") (Dumps.str key)
        (member (codes "serverId") (Dumps.str server) end)))
locator_json (local_media path root) = object (
    member (codes "kind") (Dumps.str (codes "local-media")) (
      member (codes "relativePath") (Dumps.str path)
        (member (codes "rootAlias") (Dumps.str root) end)))
locator_json (vportal_media id id_field) = object (
    member (codes "id") (Dumps.str id) (
      member (codes "idField") (Dumps.str id_field)
        (member (codes "kind") (Dumps.str (codes "vportal-media")) end)))
locator_json (channel_name group name) = object (
    member (codes "group") (option_json group) (
      member (codes "kind") (Dumps.str (codes "channel-name"))
        (member (codes "name") (Dumps.str name) end)))
locator_json (channel id) = object (
    member (codes "channelId") (Dumps.str id)
      (member (codes "kind") (Dumps.str (codes "channel")) end))

unfoldable pub entry_json : Entry → Json
entry_json e = object (
    member (codes "locator") (locator_json e.locator) (
      member (codes "origin") (origin_json e.origin)
        (member (codes "title") (Dumps.str e.title) end)))

-- `_identity`
unfoldable pub identity : Entry → Text
identity e = dumps (
    object (
      member (codes "locator") (locator_json e.locator)
        (member (codes "origin") (origin_json e.origin) end)))
