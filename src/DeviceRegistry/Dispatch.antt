-- ===== src/DeviceRegistry/Dispatch.antt =====
-- `dispatch`, for the operations that change the registry, under its two locks.

pub mod Recovery
pub mod Rules
pub mod Safety
use ottplay_control_server.Prelude.{
  ℕ, ◌≡◌, refl, Bool, true, false, not, ◌&&◌, ◌||◌, Option, none, some, List, [], ◌∷◌,
  if◌then◌else◌, Result, ok, err,
}
use ottplay_control_server.Effects.{
  Eff, pure, raise, lift, check, get_state, modify, next, ◌>>=◌, ◌>>◌,
}
use ottplay_control_server.Text.{Text, codes, text_eq, elem}
use ottplay_control_server.Dict.{is_some}
use ottplay_control_server.Json.Value.{Value}
use ottplay_control_server.DeviceRegistry.Fields.{
  Failure, usage, unfinished_operation, invalid_operation,
}
use ottplay_control_server.DeviceRegistry.Inventory.{Inventory, Receipt}
use ottplay_control_server.DeviceRegistry.Request.{
  Binding, Checkpoint, checkpoint_value, valid_request,
}
use ottplay_control_server.DeviceRegistry.Profile.{binding}
use ottplay_control_server.DeviceRegistry.World.{Request, Host, World, M, call, save_checkpoint}
use ottplay_control_server.DeviceRegistry.Session.{text_in, read, update_alias, send, resume}
use ottplay_control_server.DeviceRegistry.Prepare.{
  option, switch, remove_word, Operation, prepare_add, prepare_change, prepare_remove,
  prepare_reconcile, approve_words, approve_checked, approve_operation,
}

-- What is printed: a receipt, or an alias that was bound locally.
pub data Printed : Type 0 where
  receipt_printed : Receipt → Printed
  alias_printed : Text → Text → Printed

module _ (host : Host) where
  unfoldable pub prepare_approve : Inventory → List Text → Bool → Bool → Option Bool → M Operation
  prepare_approve current tail explicit convert diagnostics = do
    w ← get_state
    check (not convert) usage
    (alias, device, word) ←
        lift
          (approve_words host.api w.client.config current.devices host.operation_id explicit tail)
    let code = host.upper word
    lift (
        approve_checked host.api w.client.config current.devices host.operation_id alias device
          code)
    (status, pending) ← call host Request.read_pairings
    lift (
        approve_operation host.api w.client.config current.devices host.operation_id alias device
          code diagnostics status pending)

  -- The branches of `prepare` that send nothing.
  unfoldable pub prepare_local :
      World → Inventory → Text → List Text → Bool → Option Bool → Result Failure Operation
  prepare_local w current action tail convert diagnostics =
      let api = host.api in
      let config = w.client.config in
      let rows = current.devices in
      let id = host.operation_id in
      if text_eq action (codes "add")
      then prepare_add api config rows id false tail convert diagnostics
      else if text_eq action (codes "alias")
      then prepare_add api config rows id true tail convert diagnostics
      else if text_eq action (codes "remove")
      then prepare_remove api config rows id tail convert diagnostics
      else if text_eq action (codes "reconcile")
      then prepare_reconcile api config rows id tail convert diagnostics
      else if text_eq action (codes "revoke") || text_eq action (codes "rotate")
      then prepare_change api config rows id action tail convert diagnostics
      else err usage

  -- `prepare`
  unfoldable pub prepare : Inventory → Text → List Text → Bool → M Operation
  prepare current action words explicit = do
    (word, tail) ← lift (option words (codes "--diagnostics"))
    diagnostics ← lift (switch word)
    let convert = elem (codes "--convert-to-dynamic") tail
    let tail = remove_word (codes "--convert-to-dynamic") tail
    w ← get_state
    if text_eq action (codes "approve")
        then prepare_approve current tail explicit convert diagnostics
        else lift (prepare_local w current action tail convert diagnostics)

  -- The checkpoint of an operation.
  unfoldable pub checkpoint_of : Binding → Operation → Checkpoint
  checkpoint_of b o = record {
    binding = b;
    kind = o.kind;
    request = o.request;
    alias = o.alias;
    remove_alias = o.remove_alias;
    created_at = host.now;
  }

  -- The end of `dispatch`: the checkpoint is saved before the operation is sent.
  unfoldable pub submit : Binding → Operation → M Printed
  submit b o = do
    check (valid_request o.kind o.request) invalid_operation
    let c = checkpoint_of b o
    save_checkpoint host (checkpoint_value c)
    r ← send host c
    pure (receipt_printed r)

  unfoldable pub bind_alias : Binding → Operation → Option Text → M Printed
  bind_alias b o none = raise invalid_operation
  bind_alias b o (some alias) = do
    update_alias host b alias (text_in (codes "device_id") o.request) false
    pure (alias_printed alias (text_in (codes "device_id") o.request))

  unfoldable pub operate : Binding → Inventory → Text → List Text → Bool → M Printed
  operate b current action tail explicit = do
    w ← get_state
    check (not (is_some w.checkpoint_file)) unfinished_operation
    o ← prepare current action tail explicit
    if text_eq o.kind (codes "alias") then bind_alias b o o.alias else submit b o

  unfoldable pub resume_words : Inventory → List Text → M Printed
  resume_words current [] = do r ← resume host current; pure (receipt_printed r)
  resume_words current _ = raise usage

  -- `dispatch` from the reading of the inventory on, behind its options
  unfoldable pub dispatch : Text → List Text → Bool → M Printed
  dispatch action tail explicit = do
    current ← read host
    w ← get_state
    b ← lift (binding host w.client current.store_id)
    if text_eq action (codes "resume")
        then resume_words current tail
        else operate b current action tail explicit
