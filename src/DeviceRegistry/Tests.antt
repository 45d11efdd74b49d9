-- ===== src/DeviceRegistry/Tests.antt =====
-- A controller with one device, a command that adds another, and the theorems at them.
use ottplay_control_server.Prelude.{
  ℕ, suc, ◌≡◌, ◌≤◌, refl, Bool, true, false, none, some, List, [], ◌∷◌, ok, if◌then◌else◌, String,
}
use ottplay_control_server.Effects.{next, handle}
use ottplay_control_server.Text.{Text, codes, text_eq, elem, is_alnum, is_digit}
use ottplay_control_server.Dict
use ottplay_control_server.Dict.{Dict}
use ottplay_control_server.Json.Value
use ottplay_control_server.Json.Value.{
  Value, Fields, str, bool, int, dict, arr, field, end, cons, nil, get, same_keys, items,
}
use ottplay_control_server.PlayerGroups.Names.{
  Api, pairs, name_ok, group_name, group_map, groups_ok, distinct, check_alias, first_key,
}
use ottplay_control_server.PlayerGroups.Management.{fields_of}
use ottplay_control_server.DeviceRegistry.Fields.{is_id, is_hex, is_hash, is_token, is_code}
use ottplay_control_server.Json.Fields.{
  matching, bool_of, nat_of, list_of, is_number, is_text, keys_between,
}
use ottplay_control_server.DeviceRegistry.Inventory.{
  Row, active, dynamic, state_of, read_row, read_rows, Inventory, inventory, Receipt, receipt,
  expected_state,
}
use ottplay_control_server.DeviceRegistry.Inventory.Valid.{IsInventory, inventory-IsInventory}
use ottplay_control_server.DeviceRegistry.Alias.{
  alias_name, alias_items, aliases_in, no_group, one_key, alias_key, players, has_players,
  changed_config,
}
use ottplay_control_server.DeviceRegistry.Request.{
  Binding, same_binding, Checkpoint, checkpoint_value, read_checkpoint, valid_request,
  alias_allowed,
}
use ottplay_control_server.DeviceRegistry.Request.Saved.{read_checkpoint-value}
use ottplay_control_server.DeviceRegistry.World.{
  Request, read_inventory, read_pairings, read_operation, post, Reply, not_sent, lost, answer,
  Event, sent, config_written, checkpoint_written, checkpoint_removed, done, Client, Host, World,
  call, save_config, save_checkpoint, remove_checkpoint,
}
use ottplay_control_server.DeviceRegistry.Profile.{is_administrator, binding, new_config}
use ottplay_control_server.DeviceRegistry.Session.{
  is_current, text_in, without, is_approve, payload, is_approved, read, object_of, update_alias,
  update_named, confirm, send_failed, sent_receipt, settle, send, resumed, check_name, resume,
}
use ottplay_control_server.DeviceRegistry.Session.Guarded.{mutations, IsGuarded}
use ottplay_control_server.DeviceRegistry.Prepare.{
  option, pending_pairing, one_row, device_of, identity, Operation, switch, remove_word, one_word,
  two_words, prepare_add, prepare_change, prepare_remove, prepare_reconcile, approve_words,
  approve_checked, approve_operation, change_row, change_request,
}
use ottplay_control_server.DeviceRegistry.Dispatch.{
  receipt_printed, prepare_approve, prepare_local, prepare, checkpoint_of, submit, bind_alias,
  operate, resume_words, dispatch,
}
use ottplay_control_server.DeviceRegistry.Dispatch.Recovery.{prepare-recovers}
use ottplay_control_server.DeviceRegistry.Dispatch.Safety.{dispatch-IsGuarded, dispatch-once}

-- ASCII names without outer spaces.
abbrev plain : Api
plain = record {
  casefold = λ s. s;
  strip = λ s. s;
  is_printable = λ s. true;
  is_command = λ s. text_eq s (codes "status");
}

abbrev text_value : String → Value
text_value s = str (codes s)

abbrev number : ℕ → Value
number n = int false n

abbrev generation : String
generation = "0123456789abcdef0123456789abcdef"

abbrev limit_fields : Fields
limit_fields = field (codes "active_devices") (number 64) (
    field (codes "inventory_devices") (number 1088) (
      field (codes "records") (number 1024) (
        field (codes "operations") (number 192) (
          field (codes "ordinary_operations") (number 128) (
            field (codes "reserved_revocations") (number 64)
              (field (codes "revoked_hashes") (number 64) end))))))

abbrev device_value : String → Value
device_value id = dict (
    field (codes "device_id") (text_value id) (
      field (codes "generation") (text_value generation) (
        field (codes "origin") (text_value "dynamic") (
          field (codes "state") (text_value "active")
            (field (codes "diagnostics_enabled") (bool false) end)))))

abbrev inventory_value : Value → Value
inventory_value devices = dict (
    field (codes "version") (number 1) (
      field (codes "store_id") (text_value generation) (
        field (codes "revision") (number 7)
          (field (codes "devices") devices (field (codes "limits") (dict limit_fields) end)))))

abbrev receipt_value : Value
receipt_value = dict (
    field (codes "version") (number 1) (
      field (codes "operation_id") (text_value generation) (
        field (codes "device_id") (text_value "dev-2") (
          field (codes "generation") (text_value generation) (
            field (codes "state") (text_value "active")
              (field (codes "persisted") (bool true) end))))))

abbrev was_posted : List Event → Bool
was_posted [] = false
was_posted (sent (post kind fs) ∷ log) = true
was_posted (sent read_inventory ∷ log) = was_posted log
was_posted (sent read_pairings ∷ log) = was_posted log
was_posted (sent (read_operation id) ∷ log) = was_posted log
was_posted (config_written v ∷ log) = was_posted log
was_posted (checkpoint_written v ∷ log) = was_posted log
was_posted (checkpoint_removed ∷ log) = was_posted log

-- The second device is in the inventory once it was posted.
abbrev reply_to : List Event → Request → Reply
reply_to log read_inventory = answer 200 (
    inventory_value (
      arr (
        cons (device_value "dev-1")
          (if was_posted log then cons (device_value "dev-2") nil else nil))))
reply_to log read_pairings = not_sent
reply_to log (read_operation id) = answer 200 receipt_value
reply_to log (post kind fs) = answer 200 receipt_value

abbrev client_with : Dict Value → Client
client_with config = record {
  server = codes "http://server";
  token = codes generation;
  config = config;
  credentials = dict (field (codes "admin_token") (text_value generation) end);
  credentials_path = codes "/home/credentials";
}

abbrev host_with : (List Event → Request → Reply) → Host
host_with reply = record {
  api = plain;
  sha256 = λ t. t;
  config_path = codes "/home/config";
  now = 1000;
  upper = λ t. t;
  operation_id = codes generation;
  client_of = λ config. ok (client_with config);
  reply = reply;
  write = λ log e. done;
}

abbrev host : Host
host = host_with reply_to

abbrev world : World
world = record {
  config_file = some (dict end);
  checkpoint_file = none;
  client = client_with [];
  log = [];
}

program : Unit {0}
unfolding next handle text_eq elem is_alnum is_digit Dict.lookup Dict.put Dict.remove get same_keys
    items Value.keys pairs name_ok group_map groups_ok distinct group_name check_alias first_key
    fields_of is_id is_hex is_hash is_token is_code matching bool_of nat_of list_of is_number
    is_text keys_between state_of read_row read_rows inventory receipt expected_state alias_name
    alias_items aliases_in no_group one_key alias_key players has_players changed_config
    same_binding checkpoint_value read_checkpoint valid_request alias_allowed call save_config
    save_checkpoint remove_checkpoint is_administrator binding new_config is_current text_in without
    is_approve payload is_approved read object_of update_alias update_named confirm send_failed
    sent_receipt settle send resumed check_name resume option pending_pairing one_row device_of
    identity switch remove_word one_word two_words prepare_add prepare_change prepare_remove
    prepare_reconcile approve_words approve_checked approve_operation change_row change_request
    prepare_approve prepare_local prepare checkpoint_of submit bind_alias operate resume_words
    dispatch
program = tt

abbrev first_row : Row
first_row = record {
  device_id = codes "dev-1";
  generation = codes generation;
  origin = dynamic;
  state = active;
  diagnostics_enabled = false;
  static_fingerprint = none;
}

abbrev current : Inventory
current = record { store_id = codes generation; revision = 7; devices = first_row ∷ [] }

abbrev raw : Value
raw = inventory_value (arr (cons (device_value "dev-1") nil))

current_run : inventory raw ≡ ok current
unfolding program
current_run = refl

inventory-IsInventory_example : IsInventory current
inventory-IsInventory_example = inventory-IsInventory raw current current_run

abbrev words : List Text
words = codes "tv" ∷ codes "dev-2" ∷ codes "--diagnostics" ∷ codes "on" ∷ []

abbrev request : Fields
request = field (codes "version") (number 1) (
    field (codes "operation_id") (text_value generation) (
      field (codes "device_id") (text_value "dev-2")
        (field (codes "diagnostics_enabled") (bool true) end)))

abbrev operation : Operation
operation = record {
  kind = codes "add";
  request = request;
  alias = some (codes "tv");
  remove_alias = false;
}

abbrev bound : Binding
bound = record {
  server = codes "http://server";
  config = codes "/home/config";
  credentials = codes "/home/credentials";
  administrator = codes generation;
  store_id = codes generation;
}

prepare_run : prepare host current (codes "add") words false world ≡ (ok operation, world)
unfolding program
prepare_run = refl

abbrev saved : Checkpoint
saved = record {
  binding = bound;
  kind = codes "add";
  request = request;
  alias = some (codes "tv");
  remove_alias = false;
  created_at = 1000;
}

valid_run : valid_request (codes "add") request ≡ true
unfolding program
valid_run = refl

allowed_run : alias_allowed (codes "add") (some (codes "tv")) false ≡ true
unfolding program
allowed_run = refl

hex_run : is_hex (codes generation) ≡ true
unfolding program
hex_run = refl

other_run : text_eq (codes "add") (codes "alias") ≡ false
unfolding program
other_run = refl

read_checkpoint-value_example : read_checkpoint bound 2000 (checkpoint_value saved) ≡ ok saved
read_checkpoint-value_example = read_checkpoint-value saved 2000 valid_run allowed_run refl

prepare-recovers_example :
    (valid_request (codes "add") request ≡ true)
    × (read_checkpoint bound 2000 (checkpoint_value (checkpoint_of host bound operation))
        ≡ ok (checkpoint_of host bound operation))
prepare-recovers_example =
    prepare-recovers host bound current (codes "add") words false operation world world 2000
      inventory-IsInventory_example hex_run other_run prepare_run refl

start : IsGuarded false world
start = record { in_place = refl; covered = tt }

dispatch-IsGuarded_example : IsGuarded false (dispatch host (codes "add") words false world).1
dispatch-IsGuarded_example = dispatch-IsGuarded host false (codes "add") words false world start

dispatch-once_example :
    mutations (dispatch host (codes "add") words false world).1.log ≤ suc (mutations world.log)
dispatch-once_example = dispatch-once host (codes "add") words false world

abbrev done_receipt : Receipt
done_receipt = record {
  operation_id = codes generation;
  device_id = codes "dev-2";
  generation = codes generation;
  state = active;
}

-- The new device is bound to its name, and no checkpoint is left.
dispatch_run :
    let o = dispatch host (codes "add") words false world in
    (o.0 ≡ ok (receipt_printed done_receipt))
    × (o.1.checkpoint_file ≡ none)
    × (o.1.config_file
        ≡ some (
            dict
              (field (codes "players") (dict (field (codes "tv") (text_value "dev-2") end)) end)))
unfolding program
dispatch_run = (refl, refl, refl)

-- The controller whose reply to a change is lost.
abbrev losing : Host
losing = host_with (λ log r. elim r [ post kind fs ↦ lost | r ↦ reply_to log r ])

abbrev left : World
left = (dispatch losing (codes "add") words false world).1

-- The reply is lost; `resume` with a new process confirms the operation and removes the checkpoint.
resume_run :
    (left.checkpoint_file ≡ some (checkpoint_value saved))
    × (let o = dispatch host (codes "resume") [] false left in
        (o.0 ≡ ok (receipt_printed done_receipt)) × (o.1.checkpoint_file ≡ none))
unfolding program
resume_run = (refl, (refl, refl))
