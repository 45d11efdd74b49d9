-- ===== src/DeviceRegistry/Request.antt =====
-- `valid_request`, and the checkpoint of an operation.
pub mod Saved
use ottplay_control_server.Prelude.{
  need, ℕ, ◌≡◌, ◌+◌, ◌-◌, refl, Bool, true, false, not, ◌&&◌, ◌||◌, Option, none, some, List, [],
  ◌∷◌, ◌++◌, if◌then◌else◌, ltb, leb, Result, ok, err, ◌>>=◌, ◌>>◌, guard, all,
}
use ottplay_control_server.Text.{Text, codes, text_eq, elem}
use ottplay_control_server.Dict.{is_some}
use ottplay_control_server.Json.Value
use ottplay_control_server.Json.Value.{
  Value, Fields, str, bool, int, null, dict, field, end, get, same_keys,
}
use ottplay_control_server.PlayerGroups.Names.{name_ok}
use ottplay_control_server.DeviceRegistry.Fields.{
  Failure, checkpoint_mismatch, is_id, is_hex, is_hash, is_code,
}
use ottplay_control_server.Json.Fields.{matching, bool_of, nat_of, is_number, is_text, keys_between}

abbrev base_keys : List Text
base_keys = codes "version" ∷ codes "operation_id" ∷ codes "device_id" ∷ []

abbrev matched : (Text → Bool) → Option Value → Bool
matched p v = is_some (matching p v)

-- `name not in request or …`
absent_or : (Option Value → Bool) → Option Value → Bool
absent_or p none = true
absent_or p (some v) = p (some v)

is_true : Option Value → Bool
is_true (some (bool true)) = true
is_true _ = false

abbrev is_bool : Option Value → Bool
is_bool v = is_some (bool_of v)

valid_approve : Fields → Bool
unfolding absent_or
valid_approve fs =
    keys_between fs (base_keys ++ codes "id" ∷ codes "code" ∷ []) (codes "diagnostics_enabled" ∷ [])
    && matched is_hex (get (codes "id") fs)
    && matched is_code (get (codes "code") fs)
    && absent_or is_bool (get (codes "diagnostics_enabled") fs)

valid_add : Fields → Bool
unfolding is_true
valid_add fs =
    let required = base_keys ++ codes "diagnostics_enabled" ∷ [] in
    let extra = codes "expected_generation" ∷ codes "convert_to_dynamic" ∷ [] in
    (same_keys fs required || same_keys fs (required ++ extra))
    && is_bool (get (codes "diagnostics_enabled") fs)
    && (not (all (λ k. elem k (Value.keys fs)) extra)
        || (is_true (get (codes "convert_to_dynamic") fs)
            && matched is_hex (get (codes "expected_generation") fs)))

valid_reconcile : Fields → Bool
valid_reconcile fs =
    same_keys fs
      (base_keys ++ codes "expected_generation" ∷ codes "observed_static_fingerprint" ∷ [])
    && matched is_hex (get (codes "expected_generation") fs)
    && matched is_hash (get (codes "observed_static_fingerprint") fs)

valid_change : Fields → Bool
valid_change fs =
    same_keys fs (base_keys ++ codes "expected_generation" ∷ [])
    && matched is_hex (get (codes "expected_generation") fs)

unfoldable pub valid_request : Text → Fields → Bool
unfolding valid_approve valid_add valid_reconcile valid_change
valid_request kind fs =
    is_number 1 (get (codes "version") fs)
    && matched is_hex (get (codes "operation_id") fs)
    && matched is_id (get (codes "device_id") fs)
    && (if text_eq kind (codes "approve")
        then valid_approve fs
        else if text_eq kind (codes "add")
        then valid_add fs
        else if text_eq kind (codes "reconcile")
        then valid_reconcile fs
        else (text_eq kind (codes "rotate") || text_eq kind (codes "revoke")) && valid_change fs)

-- `binding`: the controller, the files and the administrator that an operation belongs to.
pub record Binding : Type 0 where
  pub server : Text
  pub config : Text
  pub credentials : Text
  pub administrator : Text
  pub store_id : Text

unfoldable pub same_binding : Binding → Binding → Bool
same_binding a b =
    text_eq a.server b.server
    && text_eq a.config b.config
    && text_eq a.credentials b.credentials
    && text_eq a.administrator b.administrator
    && text_eq a.store_id b.store_id

-- `state` in `dispatch`
pub record Checkpoint : Type 0 where
  pub binding : Binding
  pub kind : Text
  pub request : Fields
  pub alias : Option Text
  pub remove_alias : Bool
  pub created_at : ℕ

binding_value : Binding → Value
binding_value b = dict (
    field (codes "server") (str b.server) (
      field (codes "config") (str b.config) (
        field (codes "credentials") (str b.credentials) (
          field (codes "administrator") (str b.administrator)
            (field (codes "store_id") (str b.store_id) end)))))

option_value : Option Text → Value
option_value none = null
option_value (some t) = str t

-- The JSON value that is saved.
unfoldable pub checkpoint_value : Checkpoint → Value
unfolding binding_value option_value
checkpoint_value c = dict (
    field (codes "version") (int false 1) (
      field (codes "binding") (binding_value c.binding) (
        field (codes "kind") (str c.kind) (
          field (codes "request") (dict c.request) (
            field (codes "alias") (option_value c.alias) (
              field (codes "remove_alias") (bool c.remove_alias)
                (field (codes "created_at") (int false c.created_at) end)))))))

binding_keys : List Text
binding_keys =
    codes "server"
    ∷ codes "config"
    ∷ codes "credentials"
    ∷ codes "administrator"
    ∷ codes "store_id"
    ∷ []

-- `state["binding"] == binding(…)`
is_binding : Binding → Option Value → Bool
unfolding binding_keys
is_binding b (some (dict fs)) =
    same_keys fs binding_keys
    && is_text b.server (get (codes "server") fs)
    && is_text b.config (get (codes "config") fs)
    && is_text b.credentials (get (codes "credentials") fs)
    && is_text b.administrator (get (codes "administrator") fs)
    && is_text b.store_id (get (codes "store_id") fs)
is_binding b _ = false

text_of : Option Value → Option Text
text_of (some (str s)) = some s
text_of _ = none

-- An alias is `null` or a text.
alias_of : Option Value → Option (Option Text)
alias_of (some null) = some none
alias_of (some (str s)) = some (some s)
alias_of _ = none

fields_at : Option Value → Option Fields
fields_at (some (dict fs)) = some fs
fields_at _ = none

checkpoint_keys : List Text
checkpoint_keys =
    codes "version"
    ∷ codes "binding"
    ∷ codes "kind"
    ∷ codes "request"
    ∷ codes "alias"
    ∷ codes "remove_alias"
    ∷ codes "created_at"
    ∷ []

-- Which aliases an operation may carry.
unfoldable pub alias_allowed : Text → Option Text → Bool → Bool
alias_allowed kind none remove = not remove
alias_allowed kind (some name) remove =
    (if remove
      then text_eq kind (codes "revoke")
      else text_eq kind (codes "add") || text_eq kind (codes "approve"))
    && name_ok name

-- `0 <= time.time() - created_at < 86400`, with the time in whole seconds
abbrev pub in_window : ℕ → ℕ → Bool
in_window now created_at = leb created_at now && ltb (now - created_at) 86400

read_checkpoint_fields : Binding → ℕ → Fields → Result Failure Checkpoint
unfolding is_binding text_of alias_of fields_at checkpoint_keys
read_checkpoint_fields expected now fs = do
  guard (same_keys fs checkpoint_keys) checkpoint_mismatch
  guard (is_number 1 (get (codes "version") fs)) checkpoint_mismatch
  guard (is_binding expected (get (codes "binding") fs)) checkpoint_mismatch
  created_at ← need checkpoint_mismatch (nat_of (get (codes "created_at") fs))
  guard (in_window now created_at) checkpoint_mismatch
  kind ← need checkpoint_mismatch (text_of (get (codes "kind") fs))
  request ← need checkpoint_mismatch (fields_at (get (codes "request") fs))
  guard (valid_request kind request) checkpoint_mismatch
  remove ← need checkpoint_mismatch (bool_of (get (codes "remove_alias") fs))
  alias ← need checkpoint_mismatch (alias_of (get (codes "alias") fs))
  guard (alias_allowed kind alias remove) checkpoint_mismatch
  ok (record {
    binding = expected;
    kind = kind;
    request = request;
    alias = alias;
    remove_alias = remove;
    created_at = created_at;
  })

-- The tests of `resume` on the checkpoint that it has read.
unfoldable pub read_checkpoint : Binding → ℕ → Value → Result Failure Checkpoint
unfolding read_checkpoint_fields
read_checkpoint expected now (dict fs) = read_checkpoint_fields expected now fs
read_checkpoint expected now _ = err checkpoint_mismatch
