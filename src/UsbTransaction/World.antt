-- ===== src/UsbTransaction/World.antt =====
-- The manager's lock, its container, and the commands that run there.
use ottplay_control_server.Prelude.{
  ℕ, zero, suc, ◌-◌, Bool, ◌&&◌, Option, none, some, List, ◌∷◌, ◌++◌, length, all, ltb, ◌==◌,
  Result, ok, err,
}
use ottplay_control_server.Effects.{
  Eff, pure, raise, check, get_state, modify, try_finally, ◌>>=◌, ◌>>◌,
}
use ottplay_control_server.Text.{is_lower_hex, Bytes, Text, codes}

-- The messages of `TransactionError`, and the manager's errors.
pub data Failure : Type 0 where
  container_unavailable identity_unavailable operation_failed : Failure
  path_required not_a_regular_file oversized_data invalid_arguments not_staged : Failure
  manager_busy lock_required manager_failed : Failure

-- What `_aux` runs in the container: the exclusive creation of a file, the copy of data into it,
-- `cat` and `rm -f`.
pub data Command : Type 0 where
  reserve show discard : Text → Command
  stage : Text → Bytes → Command

-- What `_device_adb` sends: the probe of a path, a pull with its limit, or other arguments.
pub data Adb : Type 0 where
  probe : Text → Adb
  pull_file : Text → Text → ℕ → Adb
  arguments : List Text → Adb

-- How a command in a container ended: with status 0, with another status, or without one, after a
-- time limit or an error of the host, when it may or may not have run.
pub data Ending : Type 0 where
  done failed lost : Ending

-- A command in a container, with how it ended; an ADB command for a device.
pub data Event : Type 0 where
  executed : Text → Command → Ending → Event
  sent : Text → Adb → Event

-- `runner` raised, as it does after the time limit, or the process ended with a status and its output.
pub data Outcome : Type 0 where
  not_run : Outcome
  exited : ℕ → Bytes → Outcome

-- The container of `_inspect`: whether it runs, and its identity.
pub record Container : Type 0 where
  pub running : Bool
  pub id : Text

-- The manager and the host, which may depend on all events before, newest first: whether `flock`
-- succeeds in time, whether `target`, `read_state`, `_reconcile` and `connect` return, the container,
-- the processes, the replies of `_device_adb`, and the next UUID.
pub record Manager : Type 0 where
  pub lock : List Event → Bool
  pub prepare : List Event → Text → Bool
  pub inspect : List Event → Option Container
  pub execute : List Event → Text → Command → Outcome
  pub adb : List Event → Text → Text → Adb → Option Bytes
  pub uuid : List Event → Text

pub record World : Type 0 where
  pub lock_depth : ℕ
  pub log : List Event

abbrev pub M : Type 0 → Type 0
M A = Eff World Failure A

abbrev pub noted : Event → World → World
noted e w = record w { log = e ∷ w.log }

abbrev pub set_depth : ℕ → M (Unit {0})
set_depth n = modify (λ w. record w { lock_depth = n })

-- `self._lock_depth -= 1`
abbrev pub leave : M (Unit {0})
leave = modify (λ w. record w { lock_depth = w.lock_depth - 1 })

-- `_require_lock`
unfoldable pub require_lock : M (Unit {0})
require_lock = do w ← get_state; check (ltb 0 w.lock_depth) lock_required

-- `[0-9a-f]{64}`
unfoldable pub is_identity : Text → Bool
unfolding is_lower_hex
is_identity s = all is_lower_hex s && length s == 64

module _ (manager : Manager) where
  unfoldable pub locked_at : {A : Type 0} → ℕ → M A → M A
  locked_at (suc n) m = do set_depth (suc (suc n)); try_finally m leave
  locked_at zero m = do
    w ← get_state
    check (manager.lock w.log) manager_busy
    set_depth 1
    try_finally m (set_depth 0)

  -- `with self.locked():`
  unfoldable pub locked : {A : Type 0} → M A → M A
  locked m w = locked_at w.lock_depth m w

  -- `_operate`
  unfoldable pub operate : {A : Type 0} → Text → M A → M A
  operate alias action =
      locked (do w ← get_state; check (manager.prepare w.log alias) manager_failed; action)

  unfoldable pub found : Option Container → M Text
  found none = raise container_unavailable
  found (some c) = do
    check c.running container_unavailable
    check (is_identity c.id) identity_unavailable
    pure c.id

  -- `_container`
  unfoldable pub container : M Text
  container = do require_lock; w ← get_state; found (manager.inspect w.log)

  abbrev pub ended : Text → Command → World → Outcome → Result Failure Bytes × World
  ended c command w not_run = (err operation_failed, noted (executed c command lost) w)
  ended c command w (exited zero out) = (ok out, noted (executed c command done) w)
  ended c command w (exited (suc n) out) =
      (err operation_failed, noted (executed c command failed) w)

  -- `_aux`
  unfoldable pub aux : Text → Command → M Bytes
  aux c command = do require_lock; (λ w. ended c command w (manager.execute w.log c command))

  abbrev pub replied : Text → Adb → World → Option Bytes → Result Failure Bytes × World
  replied alias command w none = (err manager_failed, noted (sent alias command) w)
  replied alias command w (some out) = (ok out, noted (sent alias command) w)

  -- `self.manager._device_adb(…, container_id=container)`
  unfoldable pub device_adb : Text → Text → Adb → M Bytes
  device_adb alias c command = do
    require_lock
    (λ w. replied alias command w (manager.adb w.log alias c command))

  -- `_reserve_temporary`
  unfoldable pub reserve_temporary : Text → Text → M Text
  reserve_temporary c suffix = do
    w ← get_state
    let temporary = codes "/tmp/ott-transaction-" ++ manager.uuid w.log ++ suffix
    _ ← aux c (reserve temporary)
    pure temporary
