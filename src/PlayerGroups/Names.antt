-- ===== src/PlayerGroups/Names.antt =====
-- `group_map`, `group_name`, `members` and `check_alias`.
use ottplay_control_server.Prelude.{
  ℕ, Bool, true, false, not, ◌&&◌, ◌||◌, Option, none, some, List, [], ◌∷◌, map, leb, ltb, ◌==◌,
  if◌then◌else◌, length, all, any, Result, ok, err, ◌>>=◌, ◌>>◌, guard,
}
use ottplay_control_server.Text.{Text, codes, text_eq, elem, is_alnum}
use ottplay_control_server.Dict
use ottplay_control_server.Dict.{Dict, keys}
use ottplay_control_server.Json.Value.{Value, Fields, arr, dict, str, items, field, end}

-- The messages of `api.Error`.
pub data Message : Type 0 where
  config_object invalid_groups invalid_members name_taken check_players conflict : Message
  empty_name too_many_names nested_groups too_many_expanded check_devices : Message
  unknown_member usage unknown_group invalid_name group_exists config_changed : Message

-- What the code uses of Python's Unicode tables and of the `api` module: `str.casefold`,
-- `str.strip`, `str.isprintable`, and membership in `api.TOP_LEVEL_COMMANDS`.
pub record Api : Type 0 where
  pub casefold : Text → Text
  pub strip : Text → Text
  pub is_printable : Text → Bool
  pub is_command : Text → Bool

-- The items of a `dict`, in order.
unfoldable pub pairs : Fields → Dict Value
pairs end = []
pairs (field k v fs) = (k, v) ∷ pairs fs

-- `[a-zA-Z0-9а-яА-ЯёЁ_-]`
is_name_char : ℕ → Bool
is_name_char c =
    is_alnum c
    || (leb 0x430 c && leb c 0x44f)
    || (leb 0x410 c && leb c 0x42f)
    || c == 0x451
    || c == 0x401
    || c == b'_'
    || c == b'-'

-- `NAME.fullmatch(name)`
unfoldable pub name_ok : Text → Bool
unfolding is_name_char
name_ok s = all is_name_char s && leb 1 (length s) && leb (length s) 32

-- `len({…}) == len(…)`: no text twice
unfoldable pub distinct : List Text → Bool
distinct [] = true
distinct (t ∷ ts) = not (elem t ts) && distinct ts

module _ (api : Api) where
  -- `a.casefold() == b.casefold()`
  abbrev pub same_name : Text → Text → Bool
  same_name a b = text_eq (api.casefold a) (api.casefold b)

  unfoldable pub groups_ok : Dict Value → Bool
  groups_ok groups =
      leb (length groups) 128
      && all (λ name. name_ok name && not (api.is_command (api.casefold name))) (keys groups)
      && distinct (map api.casefold (keys groups))

  unfoldable pub groups_value : Option Value → Result Message (Dict Value)
  groups_value none = ok []
  groups_value (some (dict fs)) = ok (pairs fs)
  groups_value (some _) = err invalid_groups

  -- `group_map` on the items of a configuration that is an object
  unfoldable pub group_map : Dict Value → Result Message (Dict Value)
  unfolding groups_value
  group_map config = do
    groups ← groups_value (Dict.lookup (codes "groups") config)
    guard (groups_ok groups) invalid_groups
    ok groups

  unfoldable pub first_key : Text → List Text → Option Text
  first_key name [] = none
  first_key name (k ∷ ks) = if same_name k name then some k else first_key name ks

  unfoldable pub group_name : Dict Value → Text → Result Message (Option Text)
  group_name config name = do groups ← group_map config; ok (first_key name (keys groups))

  member_ok : Value → Bool
  member_ok (str s) =
      ltb 0 (length s)
      && text_eq s (api.strip s)
      && leb (length s) 512
      && not (any (λ c. c == b',') s)
      && api.is_printable s
  member_ok _ = false

  text_of : Value → Text
  text_of (str s) = s
  text_of _ = []

  -- `members`: the list of names, as texts
  unfoldable pub members : Value → Result Message (List Text)
  unfolding member_ok text_of
  members (arr vs) = do
    guard (leb 1 (length (items vs)) && leb (length (items vs)) 64 && all member_ok (items vs))
        invalid_members
    ok (map text_of (items vs))
  members _ = err invalid_members

  -- `check_alias`
  unfoldable pub check_alias : Dict Value → Text → Result Message (Unit {0})
  check_alias config name = do
    key ← group_name config name
    elim key [ none ↦ ok tt | some _ ↦ err name_taken ]
