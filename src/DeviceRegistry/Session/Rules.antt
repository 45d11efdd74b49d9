-- ===== src/DeviceRegistry/Session/Rules.antt =====
-- The rules for `send` and `resume`: from a property of the world before any change is sent, over
-- one that holds where a change may be sent, to one that holds at the end.
use ottplay_control_server.Prelude.{
  ℕ, ◌≡◌, refl, true, Option, none, some, ◌==◌, ltb, Result, ok, err,
}
use ottplay_control_server.Effects.{lift, check, next_lem, ◌>>=◌, ◌>>◌}
use ottplay_control_server.Text.{Text, codes}
use ottplay_control_server.Dict.{is_some}
use ottplay_control_server.Json.Value.{Value}
use ottplay_control_server.DeviceRegistry.Fields.{Failure, http_error, not_reconciled}
use ottplay_control_server.DeviceRegistry.Inventory.{Inventory, Receipt}
use ottplay_control_server.DeviceRegistry.Alias.{alias_name}
use ottplay_control_server.DeviceRegistry.Request.{Checkpoint, read_checkpoint}
use ottplay_control_server.DeviceRegistry.Profile.{binding}
use ottplay_control_server.DeviceRegistry.World.{
  Request, read_operation, Host, World, M, call, remove_checkpoint, save_checkpoint, read_file,
}
use ottplay_control_server.DeviceRegistry.Session.{
  settle, send_failed, send, resumed, check_name, resume, text_in,
}
use ottplay_control_server.DeviceRegistry.Session.Frame.{
  Frame, Keeps, next-keeps, next-through, get_state-through, if-through, handle-keeps, bind-Keeps,
  if-Keeps, check-Keeps, call-Keeps, confirm-Keeps, sent_receipt-Keeps,
}

-- `P` holds before a change, `S` where a checkpoint is in place, `Q` at the end.
pub record Rules (P S Q : World → Type 0) (host : Host) : Type 0 where
  pub before : Frame P
  pub between : Frame S
  pub after : Frame Q
  pub weakens : (w : World) → P w → Q w
  pub relaxes : (w : World) → S w → P w
  pub opens : (w : World) → P w → is_some w.checkpoint_file ≡ true → S w
  pub removes : Keeps Q (remove_checkpoint host)
  pub posts : (r : Request) (w : World) → S w → Q (call host r w).1
  pub saves :
      (v : Value) (w : World)
      → P w
      → ((u : Unit {0}) → (save_checkpoint host v w).0 ≡ ok u → S (save_checkpoint host v w).1)
        × P (save_checkpoint host v w).1

read_file-some :
    (f : Option Value) (w : World) (v : Value) → (read_file f w).0 ≡ ok v → is_some f ≡ true
read_file-some none w v h = absurd (cc)
read_file-some (some x) w v h = refl

read_file-state : (f : Option Value) (w : World) → (read_file f w).1 ≡ w
read_file-state none w = refl
read_file-state (some x) w = refl

module _ (P S Q : World → Type 0) (host : Host) (rules : Rules P S Q host) where
  open rules use {before, between, after, weakens, relaxes, opens, removes, posts}

  settle-Keeps : (c : Checkpoint) (raw : Value) → Keeps Q (settle host c raw)
  unfolding settle
  settle-Keeps c raw =
      bind-Keeps Q _ _ (λ w p. p)
        λ r.
          bind-Keeps Q _ _ (confirm-Keeps Q after host c r)
            λ done. bind-Keeps Q _ _ removes λ _ w p. p

  send_failed-Keeps : (e : Failure) → Keeps Q (send_failed host e)
  unfolding send_failed
  send_failed-Keeps (http_error code) =
      if-Keeps Q (ltb code 500) _ _ (bind-Keeps Q _ _ removes λ _ w p. p) (λ w p. p)
  send_failed-Keeps _ = λ w p. p

  pub send_rule : (c : Checkpoint) (w : World) → S w → Q (send host c w).1
  unfolding send
  send_rule c w p = next-keeps Q _ _ (handle-keeps Q _ _ (posts _ w p) send_failed-Keeps) λ a.
      bind-Keeps Q _ _ (check-Keeps Q _ _)
        λ _. bind-Keeps Q _ _ (sent_receipt-Keeps Q after host c _) λ raw. settle-Keeps c raw

  done : (w : World) → S w → Q w
  done w p = weakens w (relaxes w p)

  resumed_rule :
      (c : Checkpoint) (o : Result Failure (ℕ × Value)) (w : World) → S w → Q (resumed host c o w).1
  unfolding resumed
  resumed_rule c (ok (code, raw)) w p =
      next-keeps Q _ (check (code == 200) not_reconciled w) (check-Keeps Q _ _ w (done w p))
        (λ _. settle-Keeps c raw)
  resumed_rule c (err (http_error code)) w p =
      if-through Q (code == 404) _ _ w (send_rule c w p) (done w p)
  resumed_rule c (err e) w p = done w p

  check_name-Keeps : (name : Option Text) → Keeps S (check_name host name)
  unfolding check_name
  check_name-Keeps none w p = p
  check_name-Keeps (some name) w p =
      next-keeps S _ (lift (alias_name host.api name) w) p (λ _ v q. q)

  resume_from : Inventory → World → Value → M Receipt
  resume_from current a file = do
    b ← lift (binding host a.client current.store_id)
    c ← lift (read_checkpoint b host.now file)
    check_name host c.alias
    (λ w.
        let o = call host (read_operation (text_in (codes "operation_id") c.request)) w in
        resumed host c o.0 o.1)

  resume_from_rule :
      (current : Inventory) (a : World) (file : Value) (w : World)
      → S w
      → Q (resume_from current a file w).1
  unfolding resume_from
  resume_from_rule current a file w p =
      next-through Q S _ (lift (binding host a.client current.store_id) w) done p λ b w p.
        next-through Q S _ (lift (read_checkpoint b host.now file) w) done p λ c w p.
          next-through Q S _ (check_name host c.alias w) done (check_name-Keeps c.alias w p)
            λ _ w p. resumed_rule c _ _ (call-Keeps S between host (read_operation _) refl w p)

  pub resume_rule : (current : Inventory) (w : World) → P w → Q (resume host current w).1
  unfolding resume resume_from
  resume_rule current w p = get_state-through Q _ w (
      next_lem (λ o. Q o.1) (resume_from current w) (read_file w.checkpoint_file w)
        (λ v e.
          rw (read_file-state w.checkpoint_file w)
            (resume_from_rule current w v w (opens w p (read_file-some w.checkpoint_file w v e))))
        (λ e _. rw (read_file-state w.checkpoint_file w) (weakens w p)))
