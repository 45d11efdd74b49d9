-- ===== src/GlobalFavorites/Entry/AsValue.antt =====
-- An accepted entry is its own normal form: validated again, it is accepted unchanged.
use ottplay_control_server.Prelude.{
  ◌≡◌, ◌⊎◌, ℕ, Bool, true, false, Option, none, some, arith, ok, ◌&&◌, ◌||◌, refl, &&-false,
}
use ottplay_control_server.Text.{Text, codes}
use ottplay_control_server.Json.Value
use ottplay_control_server.Json.Value.{Value, Fields, get, same_keys, field}
use ottplay_control_server.Json.Dumps
use ottplay_control_server.Json.Dumps.{Json, Members, object, member}
use ottplay_control_server.GlobalFavorites.Fields.{shape, at, text, pattern_text}
use ottplay_control_server.GlobalFavorites.Entry.{
  Origin, Locator, Entry, plex_media, local_media, vportal_media, channel_name, channel,
  optional_text, plex_locator, local_locator, vportal_locator, channel_name_locator,
  channel_locator, parse_origin, parse_locator, parse_entry, entry_json, option_json, locator_json,
  origin_json, has_kind, is_vportal_value,
}
use ottplay_control_server.GlobalFavorites.Entry.Normal.{
  IsNormal, LocatorOk, OriginOk, ProviderFits, OptionalOk,
}

-- The value that `json.loads` makes of a printed one.
unfoldable mutual
  pub as_value : Json → Value
  as_value Dumps.null = Value.null
  as_value (Dumps.str s) = Value.str s
  as_value (object ms) = Value.dict (as_fields ms)

  pub as_fields : Members → Fields
  as_fields Dumps.end = Value.end
  as_fields (member k v ms) = field k (as_value v) (as_fields ms)

plex-as_value :
    (key server : Text)
    → LocatorOk (plex_media key server)
    → plex_locator (as_value (locator_json (plex_media key server))) ≡ ok (plex_media key server)
unfolding plex_locator as_value locator_json shape same_keys get at pattern_text
plex-as_value key server h = ground arith

local-as_value :
    (path root : Text)
    → LocatorOk (local_media path root)
    → local_locator (as_value (locator_json (local_media path root))) ≡ ok (local_media path root)
unfolding local_locator as_value locator_json shape same_keys get at text
local-as_value path root h = ground arith

vportal-as_value :
    (id id_field : Text)
    → LocatorOk (vportal_media id id_field)
    → vportal_locator (as_value (locator_json (vportal_media id id_field)))
      ≡ ok (vportal_media id id_field)
unfolding vportal_locator as_value locator_json shape same_keys get at pattern_text
vportal-as_value id id_field h = ground arith

name-as_value :
    (group : Option Text) (name : Text)
    → LocatorOk (channel_name group name)
    → channel_name_locator (as_value (locator_json (channel_name group name)))
      ≡ ok (channel_name group name)
unfolding channel_name_locator as_value locator_json shape same_keys get at text optional_text
name-as_value none name h = ground arith
name-as_value (some g) name h = ground arith

channel-as_value :
    (id : Text)
    → LocatorOk (channel id)
    → channel_locator (as_value (locator_json (channel id))) ≡ ok (channel id)
unfolding channel_locator as_value locator_json shape same_keys get at pattern_text
channel-as_value id h = ground arith

or_vportal : {a b : Bool} → (a ≡ true) ⊎ (b ≡ true) → (a || (b && true)) ≡ true
or_vportal {a} {b} h = ground arith

vportal_value :
    (id id_field : Text)
    → is_vportal_value (as_value (locator_json (vportal_media id id_field))) ≡ true
unfolding is_vportal_value as_value locator_json same_keys get
vportal_value id id_field = refl

name_value :
    (group : Option Text) (name : Text)
    → (is_vportal_value (as_value (locator_json (channel_name group name))) ≡ false)
      × (has_kind (as_value (locator_json (channel_name group name))) (codes "channel-name") ≡ true)
unfolding is_vportal_value has_kind as_value locator_json same_keys get
name_value group name = (refl, refl)

channel_value :
    (id : Text)
    → (is_vportal_value (as_value (locator_json (channel id))) ≡ false)
      × (has_kind (as_value (locator_json (channel id))) (codes "channel-name") ≡ false)
unfolding is_vportal_value has_kind as_value locator_json same_keys get
channel_value id = (refl, refl)

locator-as_value :
    (p : Text) (l : Locator)
    → ProviderFits p l
    → LocatorOk l
    → parse_locator p (as_value (locator_json l)) ≡ ok l
unfolding parse_locator
locator-as_value p (plex_media key server) f h = rw f (plex-as_value key server h)
locator-as_value p (local_media path root) f h = rw (f.0, f.1) (local-as_value path root h)
locator-as_value p (vportal_media id id_field) f h =
    simp (f.0, f.1, vportal_value id id_field, or_vportal f.2) (vportal-as_value id id_field h)
locator-as_value p (channel_name group name) f h =
    simp (f.0, f.1, f.2, &&-false, (name_value group name).0, (name_value group name).1)
      (name-as_value group name h)
locator-as_value p (channel id) f h =
    simp (f.0, f.1, f.2, &&-false, (channel_value id).0, (channel_value id).1)
      (channel-as_value id h)

optional-as_value :
    (o : Option Text) (maximum : ℕ)
    → OptionalOk o maximum
    → optional_text (as_value (option_json o)) maximum ≡ ok o
unfolding optional_text text as_value option_json
optional-as_value none maximum h = refl
optional-as_value (some s) maximum h = ground arith

origin-as_value : (o : Origin) → OriginOk o → parse_origin (as_value (origin_json o)) ≡ ok o
unfolding parse_origin as_value origin_json shape same_keys get at pattern_text text
origin-as_value o h = ground (arith, optional-as_value o.subprofile 256)

-- Validating the normal form of an accepted entry gives the entry back.
pub entry-as_value : (e : Entry) → IsNormal e → parse_entry (as_value (entry_json e)) ≡ ok e
unfolding parse_entry as_value entry_json shape same_keys get at text
entry-as_value e n = ground (
  arith,
  origin-as_value e.origin n.origin_ok,
  locator-as_value e.origin.provider e.locator n.provider_fits n.locator_ok,
)
