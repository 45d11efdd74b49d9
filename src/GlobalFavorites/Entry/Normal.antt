-- ===== src/GlobalFavorites/Entry/Normal.antt =====
-- What an accepted entry is: its own normal form, named by its identity.
use ottplay_control_server.Prelude.{
  ◌≡◌, ◌⊎◌, inl, inr, ℕ, true, false, Option, none, some, arith, ok, length, ◌≤◌, Bool-cases,
  if◌then◌else◌,
}
use ottplay_control_server.Text.{Text, codes, text_eq, elem}
use ottplay_control_server.Json.Value.{Value, get}
use ottplay_control_server.GlobalFavorites.Fields.{
  shape, at, text, text_ok, pattern_text, provider_pattern, identifier, pms, rating_key,
  numbered_channel, text-eq-ok,
}
use ottplay_control_server.GlobalFavorites.Entry.{
  Origin, Locator, Entry, plex_media, local_media, vportal_media, channel_name, channel,
  optional_text, plex_locator, local_locator, vportal_locator, channel_name_locator,
  channel_locator, parse_origin, parse_locator, parse_entry, path_ok, vportal_id_fields, has_kind,
  is_vportal_value,
}

abbrev pub OptionalOk : Option Text → ℕ → Type 0
OptionalOk none maximum = Unit
OptionalOk (some s) maximum = text_ok s maximum ≡ true

-- A locator whose fields pass their tests.
abbrev pub LocatorOk : Locator → Type 0
LocatorOk (plex_media key server) = (rating_key key ≡ true) × (pms server ≡ true)
LocatorOk (local_media path root) =
    (text_ok path 8192 ≡ true) × (path_ok path ≡ true) × (text_ok root 256 ≡ true)
LocatorOk (vportal_media id id_field) =
    (identifier id ≡ true) × (elem id_field vportal_id_fields ≡ true)
LocatorOk (channel_name group name) = OptionalOk group 256 × (text_ok name 1024 ≡ true)
LocatorOk (channel id) = (identifier id ≡ true) × (numbered_channel id ≡ false)

plex-LocatorOk :
    (v : Value) (l : Locator)
    → plex_locator v ≡ ok l
    → (key server : Text) × (l ≡ plex_media key server) × LocatorOk (plex_media key server)
unfolding plex_locator shape at pattern_text
plex-LocatorOk (Value.dict fs) l h = ground arith
plex-LocatorOk _ l h = absurd (cc)

local-LocatorOk :
    (v : Value) (l : Locator)
    → local_locator v ≡ ok l
    → (path root : Text) × (l ≡ local_media path root) × LocatorOk (local_media path root)
unfolding local_locator shape at text
local-LocatorOk (Value.dict fs) l h = ground arith
local-LocatorOk _ l h = absurd (cc)

vportal-LocatorOk :
    (v : Value) (l : Locator)
    → vportal_locator v ≡ ok l
    → (id id_field : Text) × (l ≡ vportal_media id id_field) × LocatorOk (vportal_media id id_field)
unfolding vportal_locator shape at pattern_text
vportal-LocatorOk (Value.dict fs) l h = ground arith
vportal-LocatorOk _ l h = absurd (cc)

optional-OptionalOk :
    (v : Value) (maximum : ℕ) (o : Option Text)
    → optional_text v maximum ≡ ok o
    → OptionalOk o maximum
unfolding optional_text text
optional-OptionalOk v maximum none h = tt
optional-OptionalOk v maximum (some s) h = ground arith

name-LocatorOk :
    (v : Value) (l : Locator)
    → channel_name_locator v ≡ ok l
    → (group : Option Text) × (name : Text) × (l ≡ channel_name group name)
      × LocatorOk (channel_name group name)
unfolding channel_name_locator shape at text optional_text
name-LocatorOk (Value.dict fs) l h = ground arith
name-LocatorOk _ l h = absurd (cc)

channel-LocatorOk :
    (v : Value) (l : Locator)
    → channel_locator v ≡ ok l
    → (id : Text) × (l ≡ channel id) × LocatorOk (channel id)
unfolding channel_locator shape at pattern_text
channel-LocatorOk (Value.dict fs) l h = ground arith
channel-LocatorOk _ l h = absurd (cc)

-- The providers under which a locator of each kind is accepted.
abbrev pub ProviderFits : Text → Locator → Type 0
ProviderFits p (plex_media key server) = text_eq p (codes "plex") ≡ true
ProviderFits p (local_media path root) =
    (text_eq p (codes "plex") ≡ false) × (text_eq p (codes "local") ≡ true)
ProviderFits p (vportal_media id id_field) =
    (text_eq p (codes "plex") ≡ false)
    × (text_eq p (codes "local") ≡ false)
    × ((text_eq p (codes "vportal") ≡ true) ⊎ (text_eq p (codes "m3u") ≡ true))
ProviderFits p l =
    (text_eq p (codes "plex") ≡ false)
    × (text_eq p (codes "local") ≡ false)
    × (text_eq p (codes "vportal") ≡ false)

other-IsNormal :
    (p : Text) (v : Value) (l : Locator)
    → (if has_kind v (codes "channel-name") then channel_name_locator v else channel_locator v)
      ≡ ok l
    → text_eq p (codes "plex") ≡ false
    → text_eq p (codes "local") ≡ false
    → text_eq p (codes "vportal") ≡ false
    → ProviderFits p l × LocatorOk l
other-IsNormal p v l h a b c = elim (Bool-cases (has_kind v (codes "channel-name"))) [
  | inl k ↦ let (group, name, e, fine) = name-LocatorOk v l (rw k at h) in rw e ((a, b, c), fine)
  | inr k ↦ let (id, e, fine) = channel-LocatorOk v l (rw k at h) in rw e ((a, b, c), fine)
]

remote-IsNormal :
    (p : Text) (v : Value) (l : Locator)
    → parse_locator p v ≡ ok l
    → text_eq p (codes "plex") ≡ false
    → text_eq p (codes "local") ≡ false
    → ProviderFits p l × LocatorOk l
unfolding parse_locator
remote-IsNormal p v l h a b = elim (Bool-cases (text_eq p (codes "vportal"))) [
  | inl c ↦
      let (id, id_field, e, fine) = vportal-LocatorOk v l (rw (a, b, c) at h) in
      rw e ((a, b, inl c), fine)
  | inr c ↦ elim (Bool-cases (text_eq p (codes "m3u"))) [
    | inl d ↦ elim (Bool-cases (is_vportal_value v)) [
      | inl k ↦
          let (id, id_field, e, fine) = vportal-LocatorOk v l (rw (a, b, c, d, k) at h) in
          rw e ((a, b, inr d), fine)
      | inr k ↦ other-IsNormal p v l (rw (a, b, c, d, k) at h) a b c
    ]
    | inr d ↦ other-IsNormal p v l (rw (a, b, c, d) at h) a b c
  ]
]

-- What the provider and the value of an accepted locator satisfy.
locator-IsNormal :
    (p : Text) (v : Value) (l : Locator) → parse_locator p v ≡ ok l → ProviderFits p l × LocatorOk l
unfolding parse_locator
locator-IsNormal p v l h = elim (Bool-cases (text_eq p (codes "plex"))) [
  | inl a ↦ let (key, server, e, fine) = plex-LocatorOk v l (rw a at h) in rw e (a, fine)
  | inr a ↦ elim (Bool-cases (text_eq p (codes "local"))) [
    | inl b ↦
        let (path, root, e, fine) = local-LocatorOk v l (rw (a, b) at h) in rw e ((a, b), fine)
    | inr b ↦ remote-IsNormal p v l h a b
  ]
]

abbrev pub OriginOk : Origin → Type 0
OriginOk o =
    (text_ok o.profile 256 ≡ true)
    × (provider_pattern o.provider ≡ true)
    × (1 ≤ length o.provider)
    × (length o.provider ≤ 64)
    × (text_ok o.source_alias 256 ≡ true)
    × OptionalOk o.subprofile 256

origin-IsNormal : (v : Value) (o : Origin) → parse_origin v ≡ ok o → OriginOk o
unfolding parse_origin shape at text pattern_text optional_text
origin-IsNormal (Value.dict fs) o h = ground arith
origin-IsNormal _ o h = absurd (cc)

-- An entry that every test of the module accepts.
pub record IsNormal (e : Entry) : Type 0 where
  pub origin_ok : OriginOk e.origin
  pub provider_fits : ProviderFits e.origin.provider e.locator
  pub locator_ok : LocatorOk e.locator
  pub title_ok : text_ok e.title 1024 ≡ true

abbrev found : Option Value → Value
found none = Value.null
found (some v) = v

entry_parts :
    (v : Value) (e : Entry)
    → parse_entry v ≡ ok e
    → (o l t : Value) × (parse_origin o ≡ ok e.origin)
      × (parse_locator e.origin.provider l ≡ ok e.locator)
      × (text t 1024 ≡ ok e.title)
unfolding parse_entry shape at
entry_parts (Value.dict fs) e h = (
  found (get (codes "origin") fs),
  found (get (codes "locator") fs),
  found (get (codes "title") fs),
  ground arith,
  ground arith,
  ground arith,
)
entry_parts _ e h = absurd (cc)

pub parse_entry-IsNormal : (v : Value) (e : Entry) → parse_entry v ≡ ok e → IsNormal e
parse_entry-IsNormal v e h =
    let (o, l, t, origin, locator, title) = entry_parts v e h in
    let (fits, fine) = locator-IsNormal e.origin.provider l e.locator locator in
    record {
      origin_ok = origin-IsNormal o e.origin origin;
      provider_fits = fits;
      locator_ok = fine;
      title_ok = (text-eq-ok t 1024 e.title title).1;
    }
