-- ===== src/DeviceRegistry/Profile.antt =====
-- `binding`, and the configuration that `update_alias` makes.
use ottplay_control_server.Prelude.{
  Bool, true, false, ◌&&◌, Option, none, some, Result, ok, ◌>>=◌, ◌>>◌, guard,
}
use ottplay_control_server.Text.{Text, codes}
use ottplay_control_server.Dict.{Dict}
use ottplay_control_server.Json.Value.{Value, dict, get}
use ottplay_control_server.DeviceRegistry.Fields.{
  Failure, needs_administrator, profile_changed, is_token,
}
use ottplay_control_server.Json.Fields.{is_text}
use ottplay_control_server.DeviceRegistry.Alias.{alias_key, changed_config}
use ottplay_control_server.DeviceRegistry.Request.{Binding, same_binding}
use ottplay_control_server.DeviceRegistry.World.{Client, Host}

is_absent : Option Value → Bool
is_absent none = true
is_absent (some Value.null) = true
is_absent (some _) = false

-- The token of the client is the administrator's.
unfoldable pub is_administrator : Text → Value → Bool
unfolding is_absent
is_administrator token (dict fs) =
    is_absent (get (codes "operator_token") fs)
    && is_text token (get (codes "admin_token") fs)
    && is_token token
is_administrator token _ = false

module _ (host : Host) where
  -- `binding`
  unfoldable pub binding : Client → Text → Result Failure Binding
  binding c store_id = do
    guard (is_administrator c.token c.credentials) needs_administrator
    ok (record {
      server = c.server;
      config = host.config_path;
      credentials = c.credentials_path;
      administrator = host.sha256 c.token;
      store_id = store_id;
    })

  -- The configuration with the alias changed, if it is still of this controller.
  unfoldable pub new_config :
      Binding → Text → Text → Bool → Dict Value → Result Failure (Dict Value)
  new_config expected name device remove current = do
    c ← host.client_of current
    b ← binding c expected.store_id
    guard (same_binding b expected) profile_changed
    key ← alias_key host.api current name (some device)
    ok (changed_config current key device remove)
