-- ===== src/DeviceRegistry/Inventory.antt =====
-- `inventory` and `receipt`: the replies of the controller.
pub mod Valid
use ottplay_control_server.Prelude.{
  need-eq-ok, need, ℕ, ◌+◌, ◌≡◌, ◌≤◌, refl, Bool, true, false, not, ◌&&◌, ◌||◌, Option, none, some,
  List, [], ◌∷◌, ◌++◌, map, arith, ltb, leb, ◌==◌, length, all, count_if, if◌then◌else◌, All,
  Result, ok, err, ◌>>=◌, ◌>>◌, guard, guard-eq-ok, >>=-eq-ok, ok-injective, leb→le, Bool-cases,
  inl, inr,
}
use ottplay_control_server.Text.{Text, codes, text_eq, text_eq_iff, elem}
use ottplay_control_server.Text.Members.{Unique}
use ottplay_control_server.Dict.{is_some}
use ottplay_control_server.Json.Value
use ottplay_control_server.Json.Value.{Value, Fields, dict, bool, get, same_keys}
use ottplay_control_server.DeviceRegistry.Fields.{
  Failure, invalid_inventory, invalid_receipt, is_id, is_hex, is_hash,
}
use ottplay_control_server.Json.Fields.{
  matching_lem, matching, bool_of, nat_of, list_of, is_number, is_text, keys_between,
}

pub data Origin : Type 0 where
  static dynamic static_override : Origin

pub data State : Type 0 where
  active revoked conflict : State

pub record Row : Type 0 where
  pub device_id : Text
  pub generation : Text
  pub origin : Origin
  pub state : State
  pub diagnostics_enabled : Bool
  pub static_fingerprint : Option Text

pub record Inventory : Type 0 where
  pub store_id : Text
  pub revision : ℕ
  pub devices : List Row

abbrev pub is_active : State → Bool
is_active active = true
is_active _ = false

abbrev is_static : Origin → Bool
is_static static = true
is_static _ = false

origin_of : Option Value → Option Origin
origin_of v =
    if is_text (codes "static") v
    then some static
    else if is_text (codes "dynamic") v
    then some dynamic
    else if is_text (codes "static_override") v
    then some static_override
    else none

unfoldable pub state_of : Option Value → Option State
state_of v =
    if is_text (codes "active") v
    then some active
    else if is_text (codes "revoked") v
    then some revoked
    else if is_text (codes "conflict") v
    then some conflict
    else none

-- The fingerprint is absent, or matches.
fingerprint_of : Option Value → Result Failure (Option Text)
fingerprint_of none = ok none
fingerprint_of (some v) = do f ← need invalid_inventory (matching is_hash (some v)); ok (some f)

abbrev row_keys : List Text
row_keys =
    codes "device_id"
    ∷ codes "generation"
    ∷ codes "origin"
    ∷ codes "state"
    ∷ codes "diagnostics_enabled"
    ∷ []

read_fields : Fields → List Text → Result Failure Row
unfolding origin_of fingerprint_of
read_fields fs seen = do
  guard (keys_between fs row_keys (codes "static_fingerprint" ∷ [])) invalid_inventory
  device_id ← need invalid_inventory (matching is_id (get (codes "device_id") fs))
  guard (not (elem device_id seen)) invalid_inventory
  generation ← need invalid_inventory (matching is_hex (get (codes "generation") fs))
  origin ← need invalid_inventory (origin_of (get (codes "origin") fs))
  state ← need invalid_inventory (state_of (get (codes "state") fs))
  diagnostics ← need invalid_inventory (bool_of (get (codes "diagnostics_enabled") fs))
  fingerprint ← fingerprint_of (get (codes "static_fingerprint") fs)
  guard (not (is_static origin) || is_some fingerprint) invalid_inventory
  ok (record {
    device_id = device_id;
    generation = generation;
    origin = origin;
    state = state;
    diagnostics_enabled = diagnostics;
    static_fingerprint = fingerprint;
  })

unfoldable pub read_row : Value → List Text → Result Failure Row
unfolding read_fields
read_row (dict fs) seen = read_fields fs seen
read_row _ seen = err invalid_inventory

-- The loop over the devices, with the identities that it has seen.
unfoldable pub read_rows : List Value → List Text → Result Failure (List Row)
read_rows [] seen = ok []
read_rows (v ∷ vs) seen = do
  row ← read_row v seen
  rows ← read_rows vs (row.device_id ∷ seen)
  ok (row ∷ rows)

-- `LIMITS`
limits : List (Text × ℕ)
limits =
    (codes "active_devices", 64)
    ∷ (codes "inventory_devices", 1088)
    ∷ (codes "records", 1024)
    ∷ (codes "operations", 192)
    ∷ (codes "ordinary_operations", 128)
    ∷ (codes "reserved_revocations", 64)
    ∷ (codes "revoked_hashes", 64)
    ∷ []

limits_ok : Option Value → Bool
unfolding limits
limits_ok (some (dict fs)) =
    same_keys fs (map (λ l. l.0) limits) && all (λ l. is_number l.1 (get l.0 fs)) limits
limits_ok _ = false

abbrev inventory_keys : List Text
inventory_keys =
    codes "version" ∷ codes "store_id" ∷ codes "revision" ∷ codes "devices" ∷ codes "limits" ∷ []

unfoldable pub inventory : Value → Result Failure Inventory
unfolding limits_ok
inventory (dict fs) = do
  guard (same_keys fs inventory_keys) invalid_inventory
  guard (is_number 1 (get (codes "version") fs)) invalid_inventory
  store ← need invalid_inventory (matching is_hex (get (codes "store_id") fs))
  revision ← need invalid_inventory (nat_of (get (codes "revision") fs))
  guard (ltb revision 9007199254740991) invalid_inventory
  guard (limits_ok (get (codes "limits") fs)) invalid_inventory
  rows ← need invalid_inventory (list_of (get (codes "devices") fs))
  guard (leb (length rows) 1088) invalid_inventory
  devices ← read_rows rows []
  guard (leb (count_if (λ row. is_active row.state) devices) 64) invalid_inventory
  ok (record { store_id = store; revision = revision; devices = devices })
inventory _ = err invalid_inventory

-- What `receipt` returns: the state is that of the kind of the operation.
pub record Receipt : Type 0 where
  pub operation_id : Text
  pub device_id : Text
  pub generation : Text
  pub state : State

abbrev receipt_keys : Bool → List Text
receipt_keys revoking =
    codes "version"
    ∷ codes "operation_id"
    ∷ codes "device_id"
    ∷ codes "generation"
    ∷ codes "state"
    ∷ codes "persisted"
    ∷ (if revoking then codes "device_stop_confirmed" ∷ [] else [])

is_bool : Bool → Option Value → Bool
is_bool true (some (bool true)) = true
is_bool false (some (bool false)) = true
is_bool _ _ = false

unfoldable pub expected_state : Bool → State
expected_state true = revoked
expected_state false = active

abbrev state_text : State → Text
state_text active = codes "active"
state_text revoked = codes "revoked"
state_text conflict = codes "conflict"

-- `receipt`, for a request with this operation and device; `revoking` is `kind == "revoke"`.
unfoldable pub receipt : Value → Text → Text → Bool → Result Failure Receipt
unfolding is_bool expected_state
receipt (dict fs) operation device revoking = do
  guard (same_keys fs (receipt_keys revoking)) invalid_receipt
  guard (is_number 1 (get (codes "version") fs)) invalid_receipt
  guard (is_text operation (get (codes "operation_id") fs)) invalid_receipt
  guard (is_text device (get (codes "device_id") fs)) invalid_receipt
  generation ← need invalid_receipt (matching is_hex (get (codes "generation") fs))
  guard (is_bool true (get (codes "persisted") fs)) invalid_receipt
  guard (is_text (state_text (expected_state revoking)) (get (codes "state") fs)) invalid_receipt
  guard (not revoking || is_bool false (get (codes "device_stop_confirmed") fs)) invalid_receipt
  ok (record {
    operation_id = operation;
    device_id = device;
    generation = generation;
    state = expected_state revoking;
  })
receipt _ operation device revoking = err invalid_receipt
