-- ===== src/PlayerGroups/Targets.antt =====
-- `targets`: a selector of players and groups, as the devices that receive the command.
use ottplay_control_server.Prelude.{
  Bool, true, false, not, ◌&&◌, ◌||◌, Option, none, some, List, [], ◌∷◌, ◌++◌, map, leb, ltb, ◌==◌,
  if◌then◌else◌, length, all, any, Result, ok, err, ◌>>=◌, ◌>>◌, guard,
}
use ottplay_control_server.Text.{Text, codes, elem, split}
use ottplay_control_server.Dict
use ottplay_control_server.Dict.{Dict, keys, values, is_some}
use ottplay_control_server.Json.Value.{Value, arr, dict, str, items, get}
use ottplay_control_server.PlayerGroups.Names.{
  Api, Message, check_players, conflict, empty_name, too_many_names, nested_groups,
  too_many_expanded, check_devices, pairs, same_name, group_map, group_name, members,
}

-- `client.config`, the devices of `client.credentials`, and `client.device(name)`.
pub record Client : Type 0 where
  pub config : Dict Value
  pub devices : Value
  pub device : Text → Result Message Value

-- `client.config.get("players", {})`
unfoldable pub aliases_of : Option Value → Result Message (Dict Value)
aliases_of none = ok []
aliases_of (some (dict fs)) = ok (pairs fs)
aliases_of (some _) = err check_players

device_id : Value → Option Text
device_id (dict fs) = elim (get (codes "id") fs) [ some (str s) ↦ some s | _ ↦ none ]
device_id _ = none

-- The `id` of each row, if every row has one that is a string.
unfoldable pub device_ids : List Value → Result Message (List Value)
unfolding device_id
device_ids [] = ok []
device_ids (row ∷ rows) = do
  ids ← device_ids rows
  elim (device_id row) [ none ↦ err check_players | some id ↦ ok (str id ∷ ids) ]

unfoldable pub list_of : Value → Result Message (List Value)
list_of (arr vs) = ok (items vs)
list_of _ = err check_players

module _ (api : Api) where
  is_named : Text → Value → Bool
  is_named name (str s) = same_name api s name
  is_named name _ = false

  -- `is_identity`, over `[*aliases, *aliases.values(), *(row["id"] for row in devices)]`
  unfoldable pub is_identity : Dict Value → List Value → Text → Bool
  unfolding is_named
  is_identity aliases ids name =
      any (λ k. same_name api k name) (keys aliases)
      || any (is_named name) (values aliases)
      || any (is_named name) ids

  -- `group_name(api, config, item) is not None` for some item
  any_group : Dict Value → List Text → Result Message Bool
  any_group config [] = ok false
  any_group config (item ∷ rest) = do
    key ← group_name api config item
    found ← any_group config rest
    ok (elim key [ none ↦ found | some _ ↦ true ])

  unfoldable pub value_at : Text → Dict Value → Value
  value_at k groups = elim (Dict.lookup k groups) [ none ↦ Value.null | some v ↦ v ]

  -- The members of one name: those of the group, or the name itself.
  unfoldable pub expand_name :
      Dict Value → Dict Value → (Text → Bool) → Text → Result Message (List Text)
  unfolding any_group value_at
  expand_name config groups identity name = do
    key ← group_name api config name
    elim key [
      | none ↦ ok (name ∷ [])
      | some k ↦ do
        guard (not (identity name)) conflict
        names ← members api (value_at k groups)
        nested ← any_group config names
        guard (not nested) nested_groups
        ok names
    ]

  unfoldable pub expand :
      Dict Value → Dict Value → (Text → Bool) → List Text → List Text → Result Message (List Text)
  expand config groups identity [] expanded = ok expanded
  expand config groups identity (name ∷ names) expanded = do
    more ← expand_name config groups identity name
    let all_names = expanded ++ more
    guard (leb (length all_names) 64) too_many_expanded
    expand config groups identity names all_names

  unfoldable pub device_text : Value → Result Message Text
  device_text (str []) = err check_devices
  device_text (str d) = ok d
  device_text _ = err check_devices

  -- The last loop: each distinct device once, in the order of its first name.
  unfoldable pub resolve :
      (Text → Result Message Value) → List Text → List Text → Result Message (List (Text × Text))
  unfolding device_text
  resolve device [] seen = ok []
  resolve device (name ∷ names) seen = do
    value ← device name
    d ← device_text value
    rest ← resolve device names (if elem d seen then seen else d ∷ seen)
    ok (if elem d seen then rest else (name, d) ∷ rest)

  unfoldable pub select :
      Client → Text → List Text → Dict Value → List Value → Result Message (List (Text × Text))
  select client selector names aliases ids = do
    guard (all (λ name. ltb 0 (length name)) names) empty_name
    guard (leb (length names) 64) too_many_names
    groups ← group_map api client.config
    expanded ← expand client.config groups (is_identity aliases ids) names []
    resolve client.device expanded []

  -- A group's name that is also a player's is refused; a player's name is left to the caller.
  unfoldable pub single : Option Text → Result Message (Option (List (Text × Text)))
  single none = ok none
  single (some _) = err conflict

  -- `targets` behind its first return
  unfoldable pub expand_selector :
      Client → Text → Option Text → Result Message (Option (List (Text × Text)))
  unfolding list_of
  expand_selector client selector group = do
    aliases ← aliases_of (Dict.lookup (codes "players") client.config)
    rows ← list_of client.devices
    ids ← device_ids rows
    let selected = select client selector (map api.strip (split b',' selector)) aliases ids
    if is_identity aliases ids selector
        then single group
        else (do pairs ← selected; ok (some pairs))

  -- `targets`: `none` where the selector is a single player for the caller to resolve.
  unfoldable pub targets : Client → Text → Result Message (Option (List (Text × Text)))
  targets client selector = do
    group ← group_name api client.config selector
    let one = not (any (λ c. c == b',') selector) && not (is_some group)
    if one then ok none else expand_selector client selector group
