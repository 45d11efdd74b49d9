-- ===== src/DeviceRegistry/Session.antt =====
-- `Session`: reading the inventory, confirming an operation, sending it, and resuming it.
pub mod Frame
pub mod Guarded
pub mod Rules
use ottplay_control_server.Prelude.{
  ℕ, ◌≡◌, refl, Bool, true, false, not, ◌&&◌, ◌||◌, Option, none, some, List, [], ◌∷◌, keep_if,
  if◌then◌else◌, ◌==◌, ltb, Result, ok, err,
}
use ottplay_control_server.Effects.{
  Eff, pure, raise, lift, check, get_state, modify, try_except, ◌>>=◌, ◌>>◌,
}
use ottplay_control_server.Text.{Text, codes, text_eq}
use ottplay_control_server.Dict.{Dict}
use ottplay_control_server.Json.Value
use ottplay_control_server.Json.Value.{Value, Fields, dict, str, field, end, get, same_keys}
use ottplay_control_server.PlayerGroups.Names.{pairs}
use ottplay_control_server.PlayerGroups.Management.{fields_of}
use ottplay_control_server.DeviceRegistry.Fields.{
  Failure, http_error, timed_out, config_changed, profile_changed, incomplete_inventory,
  store_changed, device_changed, unconfirmed, not_reconciled, checkpoint_mismatch,
}
use ottplay_control_server.Json.Fields.{is_text}
use ottplay_control_server.DeviceRegistry.Inventory.{
  Row, State, active, revoked, conflict, Inventory, inventory, Receipt, receipt,
}
use ottplay_control_server.DeviceRegistry.Alias.{alias_name, alias_key, changed_config}
use ottplay_control_server.DeviceRegistry.Request.{
  Binding, same_binding, Checkpoint, read_checkpoint,
}
use ottplay_control_server.DeviceRegistry.Profile.{binding, new_config}
use ottplay_control_server.DeviceRegistry.World.{
  Request, read_inventory, read_operation, post, Client, Host, World, M, call, read_file,
  save_config, remove_checkpoint,
}

abbrev pub same_state : State → State → Bool
same_state active active = true
same_state revoked revoked = true
same_state conflict conflict = true
same_state _ _ = false

-- Exactly one row has the device, and it has the generation and the state of the receipt.
unfoldable pub is_current : List Row → Receipt → Bool
is_current (row ∷ []) r = text_eq row.generation r.generation && same_state row.state r.state
is_current _ r = false

-- `request[key]` of a valid request
unfoldable pub text_in : Text → Fields → Text
text_in k fs = elim (get k fs) [ some (str s) ↦ s | _ ↦ [] ]

-- `payload.pop(key)`
unfoldable pub without : Text → Fields → Fields
without k end = end
without k (field j v fs) = let rest = without k fs in if text_eq j k then rest else field j v rest

unfoldable pub is_approve : Text → Bool
is_approve kind = text_eq kind (codes "approve")

-- `dict(request)`, which an approval sends without its device and version
unfoldable pub payload : Text → Fields → Fields
payload kind fs =
    if is_approve kind then without (codes "version") (without (codes "device_id") fs) else fs

-- `result == {"status": "approved"}`
unfoldable pub is_approved : Value → Bool
is_approved (dict fs) =
    same_keys fs (codes "status" ∷ []) && is_text (codes "approved") (get (codes "status") fs)
is_approved _ = false

abbrev pub status : ℕ → Failure → M (Unit {0})
status code e = check (code == 200) e

module _ (host : Host) where
  -- `Session.read`
  unfoldable pub read : M Inventory
  read = do
    (code, raw) ← call host read_inventory
    status code incomplete_inventory
    lift (inventory raw)

  unfoldable pub object_of : Value → Result Failure (Dict Value)
  object_of (dict fs) = ok (pairs fs)
  object_of _ = err config_changed

  -- `update_alias`
  unfoldable pub update_alias : Binding → Text → Text → Bool → M (Unit {0})
  update_alias expected name device remove = do
    w ← get_state
    file ← read_file w.config_file
    current ← lift (object_of file)
    new ← lift (new_config host expected name device remove current)
    save_config host (dict (fields_of new))
    modify (λ w. record w { client = record w.client { config = new } })

  -- `if state["alias"]: update_alias(…)`
  unfoldable pub update_named : Checkpoint → Receipt → Option Text → M (Unit {0})
  update_named c r none = pure tt
  update_named c r (some []) = pure tt
  update_named c r (some name) = update_alias c.binding name r.device_id c.remove_alias

  -- `Session.confirm`
  unfoldable pub confirm : Checkpoint → Receipt → M Receipt
  confirm c r = do
    current ← read
    w ← get_state
    b ← lift (binding host w.client current.store_id)
    check (same_binding b c.binding) store_changed
    check (is_current (keep_if (λ row. text_eq row.device_id r.device_id) current.devices) r)
        device_changed
    update_named c r c.alias
    pure r

  -- The exceptions of the mutation: a refusal below 500 ends the operation.
  unfoldable pub send_failed : Failure → M (ℕ × Value)
  send_failed (http_error code) =
      if ltb code 500
      then (do remove_checkpoint host; raise (http_error code))
      else raise unconfirmed
  send_failed _ = raise unconfirmed

  -- The receipt of an approval is read separately.
  unfoldable pub sent_receipt : Checkpoint → Value → M Value
  sent_receipt c result =
      if is_approve c.kind
      then (do
        check (is_approved result) unconfirmed
        (code, receipt) ← call host (read_operation (text_in (codes "operation_id") c.request))
        status code unconfirmed
        pure receipt)
      else pure result

  -- The end of `send` and of `resume`.
  unfoldable pub settle : Checkpoint → Value → M Receipt
  settle c raw = do
    r ← lift (
        receipt raw (text_in (codes "operation_id") c.request)
          (text_in (codes "device_id") c.request) (text_eq c.kind (codes "revoke")))
    done ← confirm c r
    remove_checkpoint host
    pure done

  -- `Session.send`
  unfoldable pub send : Checkpoint → M Receipt
  send c = do
    (code, result) ← try_except (call host (post c.kind (payload c.kind c.request))) send_failed
    status code unconfirmed
    raw ← sent_receipt c result
    settle c raw

  -- What `resume` does with the reply to its question about the operation.
  unfoldable pub resumed : Checkpoint → Result Failure (ℕ × Value) → M Receipt
  resumed c (ok (code, raw)) = do status code not_reconciled; settle c raw
  resumed c (err (http_error code)) = if code == 404 then send c else raise (http_error code)
  resumed c (err e) = raise e

  -- `alias_name` on the alias of a checkpoint
  unfoldable pub check_name : Option Text → M (Unit {0})
  check_name none = pure tt
  check_name (some name) = do _ ← lift (alias_name host.api name); pure tt

  -- `Session.resume`
  unfoldable pub resume : Inventory → M Receipt
  resume current = do
    w ← get_state
    file ← read_file w.checkpoint_file
    b ← lift (binding host w.client current.store_id)
    c ← lift (read_checkpoint b host.now file)
    check_name c.alias
    (λ w.
        let o = call host (read_operation (text_in (codes "operation_id") c.request)) w in
        resumed c o.0 o.1)
