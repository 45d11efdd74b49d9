-- ===== src/PlayerGroups/Tests.antt =====
-- A configuration with two groups, and the theorems at it.
use ottplay_control_server.Prelude.{
  ◌≡◌, refl, true, none, some, List, [], ◌∷◌, String, ok, map, if◌then◌else◌,
}
use ottplay_control_server.Text.{Text, codes, text_eq, elem, split, is_alnum}
use ottplay_control_server.Dict
use ottplay_control_server.Dict.{Dict}
use ottplay_control_server.Json.Value.{
  Value, Fields, arr, dict, str, field, end, cons, nil, items, of_items, get,
}
use ottplay_control_server.PlayerGroups.Names.{
  Api, pairs, name_ok, distinct, groups_ok, group_map, first_key, group_name, members,
}
use ottplay_control_server.PlayerGroups.Targets.{
  Client, aliases_of, list_of, device_ids, is_identity, expand, expand_name, resolve, device_text,
  select, single, expand_selector, targets,
}
use ottplay_control_server.PlayerGroups.Management.{
  Command, Reply, save, group_saved, fields_of, save_names, saved_members, save_key, run, finish,
  command, manage,
}
use ottplay_control_server.PlayerGroups.Writes.{Written, manage-Written}
use ottplay_control_server.PlayerGroups.Devices.{Dispatch, targets-Dispatch}

-- ASCII names without outer spaces.
abbrev plain : Api
plain = record {
  casefold = λ s. s;
  strip = λ s. s;
  is_printable = λ s. true;
  is_command = λ s. text_eq s (codes "status");
}

abbrev text_value : String → Value
text_value s = str (codes s)

abbrev config : Dict Value
config =
    (
      codes "players",
      dict (field (codes "t1") (text_value "dev-1") (field (codes "t2") (text_value "dev-2") end)),
    )
    ∷ (
      codes "groups",
      dict (field (codes "tt") (arr (cons (text_value "t1") (cons (text_value "t2") nil))) end),
    )
    ∷ []

abbrev client : Client
client = record {
  config = config;
  devices = arr nil;
  device = λ name.
      if text_eq name (codes "t1") then ok (text_value "dev-1") else ok (text_value "dev-2");
}

program : Unit {0}
unfolding pairs name_ok distinct groups_ok group_map first_key group_name members aliases_of list_of
    device_ids is_identity expand expand_name resolve device_text select single expand_selector
    targets text_eq elem split is_alnum items get Dict.lookup
program = tt

abbrev rows : List (Text × Text)
rows = (codes "t2", codes "dev-2") ∷ (codes "t1", codes "dev-1") ∷ []

-- The player comes first, and the group adds the other device once.
targets_run : targets plain client (codes "t2,tt") ≡ ok (some rows)
unfolding program
targets_run = refl

single_player : targets plain client (codes "t1") ≡ ok none
unfolding program
single_player = refl

targets-Dispatch_example : Dispatch plain client (map plain.strip (split b',' (codes "t2,tt"))) rows
targets-Dispatch_example = targets-Dispatch plain client (codes "t2,tt") rows targets_run

managing : Unit {0}
unfolding pairs name_ok distinct groups_ok group_map first_key group_name members aliases_of
    fields_of save_names saved_members save_key run finish command manage text_eq elem split
    is_alnum items of_items Dict.lookup Dict.put Dict.remove
managing = tt

abbrev config_fields : Fields
config_fields =
    field (codes "players")
      (dict (field (codes "t1") (text_value "dev-1") (field (codes "t2") (text_value "dev-2") end)))
      (field (codes "groups") (dict (field (codes "tt") (arr (cons (text_value "t1") nil)) end))
        end)

abbrev saved_config : Dict Value
saved_config =
    (
      codes "players",
      dict (field (codes "t1") (text_value "dev-1") (field (codes "t2") (text_value "dev-2") end)),
    )
    ∷ (
      codes "groups",
      dict (
          field (codes "tt") (arr (cons (text_value "t1") nil))
            (field (codes "oo") (arr (cons (text_value "t2") (cons (text_value "t1") nil))) end)),
    )
    ∷ []

abbrev save_oo : Command
save_oo = save true (codes "oo") (codes "dev-2,t1" ∷ codes "t2" ∷ [])

save_oo_words : command plain (map codes ("add" ∷ "oo" ∷ "dev-2,t1" ∷ "t2" ∷ [])) ≡ ok save_oo
unfolding managing
save_oo_words = refl

abbrev oo_saved : Reply
oo_saved = group_saved (codes "oo") (codes "t2" ∷ codes "t1" ∷ [])

-- A device ID is saved by its alias, and a device once.
save_run : manage plain true (dict config_fields) save_oo ≡ ok (oo_saved, some saved_config)
unfolding managing
save_run = refl

manage-Written_example : (true ≡ true) × Written plain oo_saved (pairs config_fields) saved_config
manage-Written_example =
    manage-Written plain true config_fields save_oo oo_saved saved_config save_run
