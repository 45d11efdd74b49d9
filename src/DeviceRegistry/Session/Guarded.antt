-- ===== src/DeviceRegistry/Session/Guarded.antt =====
-- When a change of the registry is sent, and how often.
use ottplay_control_server.Prelude.{ℕ, suc, ◌≡◌, Bool, true, false, List, [], ◌∷◌, if◌then◌else◌}
use ottplay_control_server.Dict.{is_some}
use ottplay_control_server.DeviceRegistry.World.{
  Event, sent, config_written, checkpoint_written, checkpoint_removed, World,
}
use ottplay_control_server.DeviceRegistry.Session.Frame.{is_mutation}

-- Whether a checkpoint is in place behind these events, newest first; `before` says it of the start.
abbrev pub pending : Bool → List Event → Bool
pending before [] = before
pending before (checkpoint_written v ∷ log) = true
pending before (checkpoint_removed ∷ log) = false
pending before (config_written v ∷ log) = pending before log
pending before (sent r ∷ log) = pending before log

-- Every change of the registry was sent while a checkpoint was in place.
abbrev pub Covered : Bool → List Event → Type 0
Covered before [] = Unit
Covered before (sent r ∷ log) =
    ((is_mutation r ≡ true) → pending before log ≡ true) × Covered before log
Covered before (checkpoint_written v ∷ log) = Covered before log
Covered before (checkpoint_removed ∷ log) = Covered before log
Covered before (config_written v ∷ log) = Covered before log

-- The changes of the registry that were sent.
abbrev pub mutations : List Event → ℕ
mutations [] = 0
mutations (sent r ∷ log) = if is_mutation r then suc (mutations log) else mutations log
mutations (checkpoint_written v ∷ log) = mutations log
mutations (checkpoint_removed ∷ log) = mutations log
mutations (config_written v ∷ log) = mutations log

pub record IsGuarded (before : Bool) (w : World) : Type 0 where
  pub in_place : pending before w.log ≡ is_some w.checkpoint_file
  pub covered : Covered before w.log
