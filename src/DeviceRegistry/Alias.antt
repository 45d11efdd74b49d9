-- ===== src/DeviceRegistry/Alias.antt =====
-- `alias_name`, `alias_key`, and the change of the alias mapping in a configuration.
use ottplay_control_server.Prelude.{
  need, Bool, true, false, not, ◌&&◌, Option, none, some, List, [], ◌∷◌, keep_if, if◌then◌else◌,
  Result, ok, err, ◌>>=◌, ◌>>◌, guard,
}
use ottplay_control_server.Text.{Text, codes, text_eq}
use ottplay_control_server.Dict
use ottplay_control_server.Dict.{Dict, keys}
use ottplay_control_server.Json.Value.{Value, dict, str}
use ottplay_control_server.PlayerGroups.Names.{Api, Message, pairs, same_name, name_ok, check_alias}
use ottplay_control_server.PlayerGroups.Management.{fields_of}
use ottplay_control_server.DeviceRegistry.Fields.{
  Failure, bad_alias, invalid_aliases, alias_taken, group, is_id,
}
use ottplay_control_server.Json.Fields.{matching}

unfoldable pub alias_name : Api → Text → Result Failure Text
alias_name api name = do
  guard (name_ok name && not (api.is_command (api.casefold name))) bad_alias
  ok name

-- The mapping, if every value is an identity.
unfoldable pub alias_items : Dict Value → Result Failure (Dict Text)
alias_items [] = ok []
alias_items ((k, v) ∷ d) = do
  device ← need invalid_aliases (matching is_id (some v))
  rest ← alias_items d
  ok ((k, device) ∷ rest)

-- `config.get("players", {})`, behind its check
unfoldable pub aliases_in : Option Value → Result Failure (Dict Text)
aliases_in none = ok []
aliases_in (some (dict fs)) = alias_items (pairs fs)
aliases_in (some _) = err invalid_aliases

unfoldable pub no_group : Result Message (Unit {0}) → Result Failure (Unit {0})
no_group (ok _) = ok tt
no_group (err e) = err (group e)

same_device : Option Text → Option Text → Bool
same_device none found = true
same_device (some device) none = false
same_device (some device) (some d) = text_eq d device

-- The one key that matches, bound to the device if one is given; or the name.
unfoldable pub one_key : List Text → Dict Text → Text → Option Text → Result Failure Text
unfolding same_device
one_key [] aliases name device = ok name
one_key (k ∷ []) aliases name device = do
  guard (same_device device (Dict.lookup k aliases)) alias_taken
  ok k
one_key _ aliases name device = err alias_taken

unfoldable pub alias_key : Api → Dict Value → Text → Option Text → Result Failure Text
alias_key api config name device = do
  no_group (check_alias api config name)
  aliases ← aliases_in (Dict.lookup (codes "players") config)
  one_key (keep_if (λ k. same_name api k name) (keys aliases)) aliases name device

-- `current.get("players", {})`, as a dictionary of values
unfoldable pub players : Dict Value → Dict Value
players config = elim (Dict.lookup (codes "players") config) [ some (dict fs) ↦ pairs fs | _ ↦ [] ]

abbrev with_players : Dict Value → Dict Value → Dict Value
with_players config d = Dict.put (codes "players") (dict (fields_of d)) config

unfoldable pub has_players : Dict Value → Bool
has_players config = Dict.has (codes "players") config

-- The configuration of `update_alias`: the key is bound to the device, or taken away.
unfoldable pub changed_config : Dict Value → Text → Text → Bool → Dict Value
changed_config config key device true =
    if has_players config then with_players config (Dict.remove key (players config)) else config
changed_config config key device false =
    with_players config (Dict.put key (str device) (players config))
