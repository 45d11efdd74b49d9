-- ===== src/DeviceRegistry/Prepare.antt =====
-- `prepare`: the request of a command.
pub mod Valid
pub mod Approval
use ottplay_control_server.Prelude.{
  need, ℕ, suc, ◌≡◌, refl, Bool, true, false, not, ◌&&◌, ◌||◌, Option, none, some, List, [], ◌∷◌,
  ◌++◌, keep_if, count_if, if◌then◌else◌, ◌==◌, leb, length, map, Result, ok, err, ◌>>=◌, ◌>>◌,
  guard,
}
use ottplay_control_server.Text.{Text, codes, text_eq, elem}
use ottplay_control_server.Dict
use ottplay_control_server.Dict.{Dict, is_some, keys}
use ottplay_control_server.Json.Value
use ottplay_control_server.Json.Value.{
  Value, Fields, str, bool, int, dict, arr, field, end, get, same_keys, items,
}
use ottplay_control_server.PlayerGroups.Names.{Api}
use ottplay_control_server.DeviceRegistry.Fields.{
  Failure, usage, invalid_pairings, no_pairing, no_identity, bad_device, no_local_alias, not_active,
  not_convertible, static_absent, is_id, is_hex, is_code,
}
use ottplay_control_server.Json.Fields.{matching, nat_of, list_of}
use ottplay_control_server.DeviceRegistry.Inventory.{
  Row, State, active, conflict, revoked, is_active, Inventory,
}
use ottplay_control_server.DeviceRegistry.Alias.{alias_name, alias_key, aliases_in, players}

-- `words.count(name)`
count_word : Text → List Text → ℕ
count_word name words = count_if (text_eq name) words

behind : List Text → Option (Text × List Text)
behind [] = none
behind (value ∷ rest) = some (value, rest)

put_back : Text → Option (Text × List Text) → Option (Text × List Text)
put_back w none = none
put_back w (some (value, rest)) = some (value, w ∷ rest)

-- The value behind the option, and the words without both.
take_option : List Text → Text → Option (Text × List Text)
unfolding behind put_back
take_option [] name = none
take_option (w ∷ words) name =
    if text_eq w name then behind words else put_back w (take_option words name)

-- `option`: the words are changed in place.
unfoldable pub option : List Text → Text → Result Failure (Option Text × List Text)
unfolding count_word take_option
option words name =
    if elem name words
    then (do
      guard (count_word name words == 1) usage
      (value, rest) ← need usage (take_option words name)
      ok (some value, rest))
    else ok (none, words)

-- The rows of the pending pairings: identity, device and code.
pub record Pairing : Type 0 where
  pub id : Text
  pub device_id : Text
  pub code : Text

abbrev pairing_keys : List Text
pairing_keys =
    codes "id" ∷ codes "device_id" ∷ codes "code" ∷ codes "address" ∷ codes "expires_in" ∷ []

abbrev address_ok : Text → Bool
address_ok s = leb 1 (length s) && leb (length s) 2048

read_pairing : Value → List Text → Result Failure Pairing
read_pairing (dict fs) seen = do
  guard (same_keys fs pairing_keys) invalid_pairings
  id ← need invalid_pairings (matching is_hex (get (codes "id") fs))
  guard (not (elem id seen)) invalid_pairings
  device ← need invalid_pairings (matching is_id (get (codes "device_id") fs))
  code ← need invalid_pairings (matching is_code (get (codes "code") fs))
  _ ← need invalid_pairings (matching address_ok (get (codes "address") fs))
  expires ← need invalid_pairings (nat_of (get (codes "expires_in") fs))
  guard (leb expires 600) invalid_pairings
  ok (record { id = id; device_id = device; code = code })
read_pairing _ seen = err invalid_pairings

read_pairings : List Value → List Text → Result Failure (List Pairing)
unfolding read_pairing
read_pairings [] seen = ok []
read_pairings (v ∷ vs) seen = do
  row ← read_pairing v seen
  rows ← read_pairings vs (row.id ∷ seen)
  ok (row ∷ rows)

the_one : List Pairing → Result Failure Text
the_one (row ∷ []) = ok row.id
the_one _ = err no_pairing

-- `pending_pairing`
unfoldable pub pending_pairing : ℕ → Value → Text → Text → Result Failure Text
unfolding read_pairings the_one
pending_pairing status (dict fs) device code = do
  vs ← need invalid_pairings (list_of (get (codes "pairings") fs))
  guard (status == 200 && leb (length vs) 64 && same_keys fs (codes "pairings" ∷ []))
      invalid_pairings
  rows ← read_pairings vs []
  the_one (keep_if (λ row. text_eq row.device_id device && text_eq row.code code) rows)
pending_pairing status _ device code = err invalid_pairings

unfoldable pub one_row : List Row → Result Failure Row
one_row (row ∷ []) = ok row
one_row _ = err no_identity

-- `client.config.get("players", {}).get(key, name)`
unfoldable pub device_of : Dict Text → Text → Text → Text
device_of aliases key name = elim (Dict.lookup key aliases) [ none ↦ name | some device ↦ device ]

module _ (api : Api) where
  -- `Session.identity`
  unfoldable pub identity : Dict Value → List Row → Text → Result Failure Row
  identity config rows name = do
    key ← alias_key api config name none
    aliases ← aliases_in (Dict.lookup (codes "players") config)
    one_row (keep_if (λ row. text_eq row.device_id (device_of aliases key name)) rows)

-- An operation: its kind, its request, its alias, and whether the alias goes.
pub record Operation : Type 0 where
  pub kind : Text
  pub request : Fields
  pub alias : Option Text
  pub remove_alias : Bool

-- `--diagnostics on|off`
unfoldable pub switch : Option Text → Result Failure (Option Bool)
switch none = ok none
switch (some word) =
    if text_eq word (codes "on")
    then ok (some true)
    else if text_eq word (codes "off")
    then ok (some false)
    else err usage

-- `tail.remove(word)`
unfoldable pub remove_word : Text → List Text → List Text
remove_word word [] = []
remove_word word (w ∷ words) =
    let rest = remove_word word words in if text_eq w word then words else w ∷ rest

unfoldable pub one_word : List Text → Result Failure Text
one_word (a ∷ []) = ok a
one_word _ = err usage

unfoldable pub two_words : List Text → Result Failure (Text × Text)
two_words (a ∷ b ∷ []) = ok (a, b)
two_words _ = err usage

abbrev is_on : Option Bool → Bool
is_on (some b) = b
is_on none = false

-- The request of every operation, with the fields that follow.
abbrev pub base_request : Text → Text → Fields → Fields
base_request operation device rest =
    field (codes "version") (int false 1)
      (field (codes "operation_id") (str operation) (field (codes "device_id") (str device) rest))

abbrev is_conflict : State → Bool
is_conflict conflict = true
is_conflict _ = false

module _ (api : Api) (config : Dict Value) (rows : List Row) (operation : Text) where
  -- `alias` and `add`
  unfoldable pub prepare_add : Bool → List Text → Bool → Option Bool → Result Failure Operation
  prepare_add alias_only tail convert diagnostics = do
    (name, device) ← two_words tail
    guard (not convert && not (alias_only && is_some diagnostics)) usage
    alias ← alias_name api name
    guard (is_id device) bad_device
    _ ← alias_key api config alias (some device)
    registered ←
        if alias_only
        then (do row ← identity api config rows device; ok (is_active row.state))
        else ok true
    guard registered not_active
    ok (record {
      kind = if alias_only then codes "alias" else codes "add";
      request =
          base_request operation device
            (field (codes "diagnostics_enabled") (bool (is_on diagnostics)) end);
      alias = some alias;
      remove_alias = false;
    })

  -- What the operations on a registered identity have in common.
  unfoldable pub change_row : List Text → Option Bool → Result Failure Row
  change_row tail diagnostics = do
    name ← one_word tail
    guard (not (is_some diagnostics)) usage
    identity api config rows name

  unfoldable pub change_request : Row → Fields → Fields
  change_request row rest =
      base_request operation row.device_id
        (field (codes "expected_generation") (str row.generation) rest)

  -- `revoke` and `rotate`
  unfoldable pub prepare_change : Text → List Text → Bool → Option Bool → Result Failure Operation
  unfolding change_row change_request
  prepare_change kind tail convert diagnostics = do
    guard (not convert) usage
    row ← change_row tail diagnostics
    ok (record {
      kind = kind;
      request = change_request row end;
      alias = none;
      remove_alias = false;
    })

  -- `remove`
  unfoldable pub prepare_remove : List Text → Bool → Option Bool → Result Failure Operation
  unfolding change_row change_request
  prepare_remove tail convert diagnostics = do
    guard (not convert) usage
    row ← change_row tail diagnostics
    name ← one_word tail
    alias ← alias_name api name
    key ← alias_key api config alias none
    guard (Dict.has key (players config)) no_local_alias
    ok (record {
      kind = codes "revoke";
      request = change_request row end;
      alias = some alias;
      remove_alias = true;
    })

  -- `reconcile`, with and without `--convert-to-dynamic`
  unfoldable pub prepare_reconcile : List Text → Bool → Option Bool → Result Failure Operation
  unfolding change_row change_request
  prepare_reconcile tail true diagnostics = do
    row ← change_row tail diagnostics
    guard (is_conflict row.state && not (is_some row.static_fingerprint)) not_convertible
    ok (record {
      kind = codes "add";
      request = change_request row (
          field (codes "convert_to_dynamic") (bool true)
            (field (codes "diagnostics_enabled") (bool row.diagnostics_enabled) end));
      alias = none;
      remove_alias = false;
    })
  prepare_reconcile tail false diagnostics = do
    row ← change_row tail diagnostics
    fingerprint ← need static_absent row.static_fingerprint
    ok (record {
      kind = codes "reconcile";
      request =
          change_request row (field (codes "observed_static_fingerprint") (str fingerprint) end);
      alias = none;
      remove_alias = false;
    })

  abbrev diagnostics_field : Option Bool → Fields
  diagnostics_field none = end
  diagnostics_field (some b) = field (codes "diagnostics_enabled") (bool b) end

  -- `approve`: the name, the device and the code of the words
  unfoldable pub approve_words : Bool → List Text → Result Failure (Text × Text × Text)
  approve_words true (name ∷ device ∷ code ∷ []) = do
    alias ← alias_name api name
    ok (alias, device, code)
  approve_words false (name ∷ code ∷ []) = do
    alias ← alias_name api name
    row ← identity api config rows name
    ok (alias, row.device_id, code)
  approve_words _ _ = err usage

  unfoldable pub approve_checked : Text → Text → Text → Result Failure (Unit {0})
  approve_checked alias device code = do
    guard (is_id device && is_code code) bad_device
    _ ← alias_key api config alias (some device)
    ok tt

  -- The operation, behind the reading of the pending pairings.
  unfoldable pub approve_operation :
      Text → Text → Text → Option Bool → ℕ → Value → Result Failure Operation
  approve_operation alias device code diagnostics status pending = do
    id ← pending_pairing status pending device code
    ok (record {
      kind = codes "approve";
      request = base_request operation device (
          field (codes "id") (str id)
            (field (codes "code") (str code) (diagnostics_field diagnostics)));
      alias = some alias;
      remove_alias = false;
    })
