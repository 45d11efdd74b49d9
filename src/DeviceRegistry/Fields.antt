-- ===== src/DeviceRegistry/Fields.antt =====
-- The patterns, the exceptions, and the reading of fields of a JSON object.
use ottplay_control_server.Prelude.{ℕ, Bool, ◌&&◌, ◌||◌, leb, ◌==◌, length, all}
use ottplay_control_server.Text.{is_lower_hex, Text, is_alnum}
use ottplay_control_server.PlayerGroups.Names.{Message}

-- The messages of `fail`, an `HTTPError` with its status, and other errors of `api`.
pub data Failure : Type 0 where
  invalid_inventory invalid_receipt unreadable not_saved not_removed : Failure
  needs_administrator bad_alias invalid_aliases alias_taken : Failure
  config_changed profile_changed timed_out incomplete_inventory no_identity : Failure
  store_changed device_changed unconfirmed checkpoint_mismatch not_reconciled : Failure
  unfinished_operation invalid_operation usage invalid_pairings no_pairing : Failure
  not_active no_local_alias not_convertible static_absent bad_device : Failure
  group : Message → Failure
  http_error : ℕ → Failure

-- `pattern.fullmatch` of a class of characters with bounds on the length
abbrev of_class : (ℕ → Bool) → ℕ → ℕ → Text → Bool
of_class p lo hi s = all p s && leb lo (length s) && leb (length s) hi

is_id_char : ℕ → Bool
is_id_char c = is_alnum c || c == b'.' || c == b'_' || c == b':' || c == b'-'

-- `ID`
unfoldable pub is_id : Text → Bool
unfolding is_id_char
is_id s = of_class is_id_char 1 128 s

-- `HEX`
unfoldable pub is_hex : Text → Bool
unfolding is_lower_hex
is_hex s = of_class is_lower_hex 32 32 s

-- `HASH`
unfoldable pub is_hash : Text → Bool
unfolding is_lower_hex
is_hash s = of_class is_lower_hex 64 64 s

is_token_char : ℕ → Bool
is_token_char c = is_alnum c || c == b'_' || c == b'-'

-- `TOKEN`
unfoldable pub is_token : Text → Bool
unfolding is_token_char
is_token s = of_class is_token_char 32 256 s

is_code_char : ℕ → Bool
is_code_char c = (leb b'A' c && leb c b'Z') || (leb b'2' c && leb c b'7')

-- `[A-Z2-7]{8}`
unfoldable pub is_code : Text → Bool
unfolding is_code_char
is_code s = of_class is_code_char 8 8 s
