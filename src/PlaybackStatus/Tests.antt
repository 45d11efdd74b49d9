-- ===== src/PlaybackStatus/Tests.antt =====
-- A status with a private title, one that is not valid, and the theorems at them.
use ottplay_control_server.Prelude.{◌≡◌, refl, true, false, none, some, [], ◌∷◌, ltb, String}
use ottplay_control_server.Text.{
  codes, text_eq, elem, starts_with, contains, encodable, utf8_length, is_alnum, is_letter,
  is_lower_alnum, is_lower_hex,
}
use ottplay_control_server.Dict
use ottplay_control_server.Dict.{Dict}
use ottplay_control_server.Json.Value.{Value, null, bool, int, str, dict, field, end, get}
use ottplay_control_server.PlayerGroups.Names.{pairs}
use ottplay_control_server.PlayerGroups.Management.{fields_of}
use ottplay_control_server.PlaybackStatus.Labels.{
  Unicode, is_drive, is_rooted, private_label, text_ok, is_label, is_runtime, is_native_id, lower,
  private_key_in, native_live_media_id,
}
use ottplay_control_server.PlaybackStatus.Playback.{
  exact, integer, number, playback_ok, hide, public_playback, validate_playback, IsPublic,
  validate_playback-IsPublic,
}
use ottplay_control_server.PlaybackStatus.Live.{
  checked, outcome, reported, live_status, IsLive, live_status-IsLive,
}

-- ASCII without outer spaces.
abbrev ascii : Unicode
ascii = record { is_other = λ c. ltb c 32; is_control = λ c. ltb c 32; strip = λ s. s }

abbrev text_value : String → Value
text_value s = str (codes s)

abbrev playing : Value → Dict Value
playing title =
    (codes "state", text_value "playing")
    ∷ (codes "kind", text_value "live")
    ∷ (codes "title", title)
    ∷ (codes "provider", text_value "plex")
    ∷ (codes "media_id", text_value "token:0123456789abcdef")
    ∷ (codes "channel_number", int false 5)
    ∷ (codes "position", int false 12)
    ∷ (codes "duration", null)
    ∷ (codes "volume", int false 100)
    ∷ []

abbrev player : Value
player = dict (
    field (codes "runtime") (text_value "tv:1") (
      field (codes "platform") (text_value "webos-native")
        (field (codes "standby") (bool false) end)))

abbrev status : Dict Value → Dict Value
status report = (codes "player", player) ∷ (codes "playback", dict (fields_of report)) ∷ []

abbrev labelled : Dict Value
labelled = Dict.put (codes "media_id") (text_value "channel-5") (playing (text_value "/home/film"))

abbrev shown : Dict Value
shown = Dict.put (codes "media_id") (text_value "channel-5") (playing null)

program : Unit {0}
unfolding text_eq elem starts_with contains encodable utf8_length is_alnum is_letter is_lower_alnum
    is_lower_hex Dict.lookup Dict.put Dict.remove get pairs fields_of is_drive is_rooted
    private_label text_ok is_label is_runtime is_native_id lower private_key_in native_live_media_id
    exact integer number playback_ok hide public_playback validate_playback checked outcome reported
    live_status
program = tt

-- The title is a path, which is not shown.
shown_run : validate_playback ascii labelled (some (bool false)) true ≡ some shown
unfolding program
shown_run = refl

-- The identity of the media names a secret.
secret_run : validate_playback ascii (playing null) (some (bool false)) true ≡ none
unfolding program
secret_run = refl

-- A native identity ends with a fingerprint.
native_run : native_live_media_id (codes "news:0123456789abcdef") ≡ true
unfolding program
native_run = refl

-- The report that is not valid is not shown.
error_run : Dict.lookup (codes "playback") (live_status ascii (status (playing null))) ≡ none
unfolding program
error_run = refl

validate_playback-IsPublic_example : IsPublic ascii labelled shown
validate_playback-IsPublic_example =
    validate_playback-IsPublic ascii labelled shown (some (bool false)) true shown_run

live_status-IsLive_example : IsLive ascii (status labelled) (live_status ascii (status labelled))
live_status-IsLive_example = live_status-IsLive ascii (status labelled)
