-- ===== src/GlobalFavorites/Kinds.antt =====
-- `required_locator_kinds` and `supports`: which locator kinds a document needs of a receiver.
use ottplay_control_server.Prelude.{
  ◌≡◌, Bool, true, false, not, ◌&&◌, ◌||◌, Option, none, some, List, [], ◌∷◌, map, all, leb, ltb,
  ◌==◌, length, arith, if◌then◌else◌, ok, err, Result,
}
use ottplay_control_server.Text.{Text, codes, text_eq, elem, utf16_units}
use ottplay_control_server.Json.Value.{Value, str, arr, items}
use ottplay_control_server.GlobalFavorites.Fields.{Code}
use ottplay_control_server.GlobalFavorites.Entry.{
  Locator, plex_media, local_media, vportal_media, channel_name, channel,
}
use ottplay_control_server.GlobalFavorites.Document.{Document, validate_document}

-- `entry["locator"]["kind"]`
unfoldable pub kind : Locator → Text
kind (plex_media _ _) = codes "plex-media"
kind (local_media _ _) = codes "local-media"
kind (vportal_media _ _) = codes "vportal-media"
kind (channel_name _ _) = codes "channel-name"
kind (channel _) = codes "channel"

-- Python's order of strings, by code points.
unfoldable pub text_lt : Text → Text → Bool
text_lt s [] = false
text_lt [] (d ∷ t) = true
text_lt (c ∷ s) (d ∷ t) = ltb c d || (c == d && text_lt s t)

-- One more element of a sorted list without repetition.
unfoldable pub insert_sorted : Text → List Text → List Text
insert_sorted t [] = t ∷ []
insert_sorted t (x ∷ xs) =
    if text_eq t x then x ∷ xs else if text_lt t x then t ∷ x ∷ xs else x ∷ insert_sorted t xs

-- `sorted({...})`
unfoldable pub sorted_set : List Text → List Text
sorted_set [] = []
sorted_set (t ∷ ts) = insert_sorted t (sorted_set ts)

unfoldable pub required_kinds : Document → List Text
required_kinds d = sorted_set (map (λ e. kind e.locator) d.entries)

-- The loop over the advertised kinds: `none` where one is refused.
unfoldable pub read_kinds : List Value → List Text → Option (List Text)
read_kinds [] seen = some seen
read_kinds (str k ∷ rows) seen =
    let rest = read_kinds rows (k ∷ seen) in
    if leb (length k) 64 && leb (utf16_units k) 64 && not (elem k seen) then rest else none
read_kinds (_ ∷ rows) seen = none

unfoldable pub advertised_kinds : Value → Option (List Text)
advertised_kinds (arr vs) = if leb (length (items vs)) 32 then read_kinds (items vs) [] else none
advertised_kinds _ = none

unfoldable pub supported : Option (List Text) → Document → Bool
supported none d = false
supported (some seen) d = all (λ k. elem k seen) (required_kinds d)

-- A document that does not validate is not supported.
unfoldable pub supports_read : Result Code Document → Value → Bool
unfolding advertised_kinds supported
supports_read (err _) advertised = false
supports_read (ok d) advertised = supported (advertised_kinds advertised) d

unfoldable pub supports : Value → Value → Bool
unfolding supports_read
supports value advertised = supports_read (validate_document value) advertised

pub text_lt_total : (s t : Text) → text_eq s t ≡ false → text_lt s t ≡ false → text_lt t s ≡ true
unfolding text_eq text_lt
text_lt_total [] [] e h = absurd (cc)
text_lt_total [] (d ∷ t) e h = absurd (cc)
text_lt_total (c ∷ s) [] e h = ground arith
text_lt_total (c ∷ s) (d ∷ t) e h = ground (arith, text_lt_total s t)
