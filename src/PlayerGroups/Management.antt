-- ===== src/PlayerGroups/Management.antt =====
-- `saved_members` and `management`: listing, showing, saving and removing groups.
use ottplay_control_server.Prelude.{
  Bool, true, false, not, ◌&&◌, ◌||◌, Option, none, some, List, [], ◌∷◌, ◌++◌, map, if◌then◌else◌,
  any, keep_if, Result, ok, err, ◌>>=◌, ◌>>◌, guard,
}
use ottplay_control_server.Text.{Text, codes, text_eq, elem, split}
use ottplay_control_server.Dict
use ottplay_control_server.Dict.{Dict, keys, values, is_some}
use ottplay_control_server.Json.Value.{Value, Fields, arr, dict, str, of_items, field, end}
use ottplay_control_server.PlayerGroups.Names.{
  Api, Message, config_object, check_players, conflict, nested_groups, unknown_member, usage,
  unknown_group, invalid_name, group_exists, config_changed, pairs, name_ok, same_name, group_map,
  group_name, members,
}
use ottplay_control_server.PlayerGroups.Targets.{aliases_of, value_at}

-- `[name.strip() for word in words for name in word.split(",")]`
listed_names : Api → List Text → List Text
listed_names api [] = []
listed_names api (word ∷ words) = map api.strip (split b',' word) ++ listed_names api words

-- The aliases, if every value is a string that is not empty.
alias_texts : Dict Value → Result Message (Dict Text)
alias_texts [] = ok []
alias_texts ((k, str (c ∷ v)) ∷ d) = do rest ← alias_texts d; ok ((k, c ∷ v) ∷ rest)
alias_texts ((k, _) ∷ d) = err check_players

saved_aliases : Option Value → Result Message (Dict Text)
unfolding alias_texts
saved_aliases none = ok []
saved_aliases (some (dict fs)) = alias_texts (pairs fs)
saved_aliases (some _) = err check_players

-- `list(dict.fromkeys(…))`: the first occurrence of each text
first_of_each : List Text → List Text → List Text
first_of_each [] seen = []
first_of_each (t ∷ ts) seen =
    let rest = first_of_each ts (if elem t seen then seen else t ∷ seen) in
    if elem t seen then rest else t ∷ rest

-- `next(key for key, value in aliases.items() if value == device)`
label_of : Text → Dict Text → Option Text
label_of device [] = none
label_of device ((k, v) ∷ d) = if text_eq v device then some k else label_of device d

not_nested : Option Text → Result Message (Unit {0})
not_nested none = ok tt
not_nested (some _) = err nested_groups

module _ (api : Api) where
  -- The label and the device of a name that is matched by one alias, or by one device.
  choose : Text → Dict Text → List Text → List Text → Result Message (Text × Text)
  unfolding label_of
  choose name aliases (k ∷ []) ids = elim (Dict.lookup k aliases) [
    | none ↦ err unknown_member
    | some device ↦ ok (k, device)
  ]
  choose name aliases [] (device ∷ []) = elim (label_of device aliases) [
    | none ↦ err unknown_member
    | some k ↦ ok (k, device)
  ]
  choose name aliases _ _ = err unknown_member

  member_of : Text → Dict Text → Result Message (Text × Text)
  unfolding choose first_of_each
  member_of name aliases =
      choose name aliases (keep_if (λ k. same_name api k name) (keys aliases))
        (first_of_each (keep_if (λ v. same_name api v name) (values aliases)) [])

  -- The loop of `saved_members`: each device once.
  unfoldable pub save_names :
      Dict Value → Dict Text → List Text → List Text → Result Message (List Text)
  unfolding member_of not_nested
  save_names config aliases [] seen = ok []
  save_names config aliases (name ∷ names) seen = do
    group ← group_name api config name
    not_nested group
    (label, device) ← member_of name aliases
    _ ← members api (arr (of_items (str label ∷ [])))
    rest ← save_names config aliases names (if elem device seen then seen else device ∷ seen)
    ok (if elem device seen then rest else label ∷ rest)

  unfoldable pub saved_members : Dict Value → List Text → Result Message (List Text)
  unfolding listed_names saved_aliases
  saved_members config words = do
    names ← members api (arr (of_items (map str (listed_names api words))))
    aliases ← saved_aliases (Dict.lookup (codes "players") config)
    save_names config aliases names []

pub data Command : Type 0 where
  list_groups : Command
  show : Text → Command
  remove : Text → Command
  -- `add`, or `set` that may replace a group
  save : Bool → Text → List Text → Command

no_words : List Text → Result Message Command
no_words [] = ok list_groups
no_words _ = err usage

one_word : (Text → Command) → List Text → Result Message Command
one_word make (name ∷ []) = ok (make name)
one_word make _ = err usage

with_members : Bool → List Text → Result Message Command
with_members add (name ∷ w ∷ ws) = ok (save add name (w ∷ ws))
with_members add _ = err usage

-- The operation and its words, behind the help and `--json`.
unfoldable pub command : Api → List Text → Result Message Command
unfolding no_words one_word with_members
command api [] = ok list_groups
command api (op ∷ words) =
    let o = api.casefold op in
    if text_eq o (codes "list")
    then no_words words
    else if text_eq o (codes "show")
    then one_word show words
    else if text_eq o (codes "remove")
    then one_word remove words
    else if text_eq o (codes "add")
    then with_members true words
    else if text_eq o (codes "set")
    then with_members false words
    else err usage

-- `data`, which is printed.
pub data Reply : Type 0 where
  groups_shown : Dict (List Text) → Reply
  group_shown : Text → List Text → Reply
  group_saved : Text → List Text → Reply
  group_removed : Text → Reply

-- A dictionary as a value of the configuration.
unfoldable pub fields_of : Dict Value → Fields
fields_of [] = end
fields_of ((k, v) ∷ d) = field k v (fields_of d)

-- `{**config, "groups": groups}`
abbrev pub with_groups : Dict Value → Dict Value → Dict Value
with_groups config groups = Dict.put (codes "groups") (dict (fields_of groups)) config

pub all_members : Api → Dict Value → Result Message (Dict (List Text))
all_members api [] = ok []
all_members api ((k, v) ∷ d) = do
  names ← members api v
  rest ← all_members api d
  ok ((k, names) ∷ rest)

pub existing : Option Text → Result Message Text
existing none = err unknown_group
existing (some key) = ok key

is_text_of : (Text → Bool) → Value → Bool
is_text_of p (str s) = p s
is_text_of p _ = false

-- The tests of `add` and `set` before the members are resolved, and the key that is written.
unfoldable pub save_key : Api → Dict Value → Bool → Text → Result Message Text
unfolding is_text_of
save_key api config add name = do
  key ← group_name api config name
  guard (name_ok name && not (api.is_command (api.casefold name))) invalid_name
  aliases ← aliases_of (Dict.lookup (codes "players") config)
  let same = same_name api name
  guard (not (any same (keys aliases) || any (is_text_of same) (values aliases))) conflict
  guard (not (add && is_some key)) group_exists
  ok (elim key [ none ↦ name | some k ↦ k ])

-- The second reading of the file, and what is written then.
write_back : Bool → Dict Value → Dict Value → Reply → Result Message (Reply × Option (Dict Value))
write_back unchanged config groups reply = do
  guard unchanged config_changed
  ok (reply, some (with_groups config groups))

-- The groups behind an operation, as far as it changes them.
unfoldable pub run :
    Api → Dict Value → Dict Value → Command → Result Message (Reply × Option (Dict Value))
unfolding all_members existing
run api config groups list_groups = do shown ← all_members api groups; ok (groups_shown shown, none)
run api config groups (show name) = do
  found ← group_name api config name
  key ← existing found
  names ← members api (value_at api key groups)
  ok (group_shown key names, none)
run api config groups (remove name) = do
  found ← group_name api config name
  key ← existing found
  ok (group_removed key, some (Dict.remove key groups))
run api config groups (save add name words) = do
  key ← save_key api config add name
  names ← saved_members api config words
  let changed = Dict.put key (arr (of_items (map str names))) groups
  _ ← group_map api ((codes "groups", dict (fields_of changed)) ∷ [])
  ok (group_saved key names, some changed)

-- What is printed, and what is written if anything is: `unchanged` says whether the second reading of
-- the file gives the same configuration.
unfoldable pub finish :
    Bool → Dict Value → Reply × Option (Dict Value) → Result Message (Reply × Option (Dict Value))
unfolding write_back
finish unchanged config (reply, none) = ok (reply, none)
finish unchanged config (reply, some groups) = write_back unchanged config groups reply

unfoldable pub manage : Api → Bool → Value → Command → Result Message (Reply × Option (Dict Value))
manage api unchanged (dict fs) c = do
  groups ← group_map api (pairs fs)
  done ← run api (pairs fs) groups c
  finish unchanged (pairs fs) done
manage api unchanged _ c = err config_object
