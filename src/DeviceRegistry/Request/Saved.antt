-- ===== src/DeviceRegistry/Request/Saved.antt =====
-- A checkpoint that was saved is accepted when the operation is resumed.
use ottplay_control_server.Prelude.{ℕ, ◌≡◌, refl, true, Option, none, some, ok}
use ottplay_control_server.Text.{Text, text_eq, text_eq_iff, elem}
use ottplay_control_server.Json.Value
use ottplay_control_server.Json.Value.{Value, Fields, get, same_keys}
use ottplay_control_server.Json.Fields.{bool_of, nat_of, is_number, is_text}
use ottplay_control_server.DeviceRegistry.Request.{
  Checkpoint, checkpoint_value, read_checkpoint, valid_request, alias_allowed, alias_of,
  option_value, in_window,
}

text_eq_refl : (s : Text) → text_eq s s ≡ true
text_eq_refl s = (text_eq_iff s s).1 refl

alias-option_value : (a : Option Text) → alias_of (some (option_value a)) ≡ some a
unfolding alias_of option_value
alias-option_value none = refl
alias-option_value (some t) = refl

-- Within a day, `resume` reads back exactly the checkpoint that was saved, if its request is valid
-- and its alias is allowed.
pub read_checkpoint-value :
    (c : Checkpoint) (now : ℕ)
    → valid_request c.kind c.request ≡ true
    → alias_allowed c.kind c.alias c.remove_alias ≡ true
    → in_window now c.created_at ≡ true
    → read_checkpoint c.binding now (checkpoint_value c) ≡ ok c
unfolding read_checkpoint checkpoint_value is_text text_eq is_number nat_of bool_of get same_keys
    Value.keys elem
read_checkpoint-value c now valid allowed fresh = rw (
  text_eq_refl c.binding.server,
  text_eq_refl c.binding.config,
  text_eq_refl c.binding.credentials,
  text_eq_refl c.binding.administrator,
  text_eq_refl c.binding.store_id,
  fresh,
  valid,
  alias-option_value c.alias,
  allowed,
)
