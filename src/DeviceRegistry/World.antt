-- ===== src/DeviceRegistry/World.antt =====
-- The files, the client and the requests that a session works with.
use ottplay_control_server.Prelude.{ℕ, Option, none, some, List, ◌∷◌, Result, ok, err}
use ottplay_control_server.Effects.{Eff, pure, raise}
use ottplay_control_server.Text.{Text}
use ottplay_control_server.Dict.{Dict}
use ottplay_control_server.Json.Value.{Value, Fields}
use ottplay_control_server.PlayerGroups.Names.{Api}
use ottplay_control_server.DeviceRegistry.Fields.{
  Failure, timed_out, http_error, unreadable, not_saved, not_removed,
}

-- A request to the controller: a `post` names its endpoint and carries the operation.
pub data Request : Type 0 where
  read_inventory read_pairings : Request
  read_operation : Text → Request
  post : Text → Fields → Request

-- Nothing was sent since no time was left; an answer in time with its status; an `HTTPError`; an
-- answer that was late or could not be read.
pub data Reply : Type 0 where
  not_sent lost : Reply
  answer : ℕ → Value → Reply
  refused : ℕ → Reply

pub data Event : Type 0 where
  sent : Request → Event
  checkpoint_written config_written : Value → Event
  checkpoint_removed : Event

-- What a write or a removal did: nothing, all of it, or all but the last `fsync`, which raises too.
pub data Write : Type 0 where
  kept done unsynced : Write

-- `api.Client`: what the code reads of it, with the resolved path of its credentials.
pub record Client : Type 0 where
  pub server : Text
  pub token : Text
  pub config : Dict Value
  pub credentials : Value
  pub credentials_path : Text

-- What is not part of the module: Python's functions, the clock, the next random identity, the
-- constructor of a client. The replies and the outcomes of writes may depend on all that
-- happened before, newest first.
pub record Host : Type 0 where
  pub api : Api
  pub sha256 : Text → Text
  pub config_path : Text
  pub now : ℕ
  pub upper : Text → Text
  pub operation_id : Text
  pub client_of : Dict Value → Result Failure Client
  pub reply : List Event → Request → Reply
  pub write : List Event → Event → Write

pub record World : Type 0 where
  pub config_file : Option Value
  pub checkpoint_file : Option Value
  pub client : Client
  pub log : List Event

abbrev pub M : Type 0 → Type 0
M A = Eff World Failure A

abbrev pub noted : Event → World → World
noted e w = record w { log = e ∷ w.log }

abbrev pub read_file : Option Value → M Value
read_file none = raise unreadable
read_file (some v) = pure v

module _ (host : Host) where
  abbrev pub answered : Request → World → Reply → Result Failure (ℕ × Value) × World
  answered r w not_sent = (err timed_out, w)
  answered r w lost = (err timed_out, noted (sent r) w)
  answered r w (answer code v) = (ok (code, v), noted (sent r) w)
  answered r w (refused code) = (err (http_error code), noted (sent r) w)

  -- `Session.call`
  unfoldable pub call : Request → M (ℕ × Value)
  call r w = answered r w (host.reply w.log r)

  abbrev pub stored : Event → (World → World) → World → Write → Result Failure (Unit {0}) × World
  stored e change w kept = (err not_saved, w)
  stored e change w done = (ok tt, noted e (change w))
  stored e change w unsynced = (err not_saved, noted e (change w))

  -- `save_private`: of the configuration, and of a checkpoint
  unfoldable pub save_config : Value → M (Unit {0})
  save_config v w =
      stored (config_written v) (λ w. record w { config_file = some v }) w
        (host.write w.log (config_written v))

  unfoldable pub save_checkpoint : Value → M (Unit {0})
  save_checkpoint v w =
      stored (checkpoint_written v) (λ w. record w { checkpoint_file = some v }) w
        (host.write w.log (checkpoint_written v))

  abbrev pub gone : World → Write → Result Failure (Unit {0}) × World
  gone w kept = (err not_removed, w)
  gone w done = (ok tt, noted checkpoint_removed (record w { checkpoint_file = none }))
  gone w unsynced =
      (err not_removed, noted checkpoint_removed (record w { checkpoint_file = none }))

  abbrev pub removing : World → Option Value → Result Failure (Unit {0}) × World
  removing w none = (err not_removed, w)
  removing w (some v) = gone w (host.write w.log checkpoint_removed)

  -- `remove_checkpoint`: an absent file cannot be removed.
  unfoldable pub remove_checkpoint : M (Unit {0})
  remove_checkpoint w = removing w w.checkpoint_file
