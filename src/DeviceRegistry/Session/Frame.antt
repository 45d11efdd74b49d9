-- ===== src/DeviceRegistry/Session/Frame.antt =====
-- What every operation of a session keeps: the rules are proved once for all properties that do not
-- depend on reads, on the configuration and on the client.
use ottplay_control_server.Prelude.{
  ◌≡◌, refl, Bool, true, false, Option, none, some, [], ◌∷◌, if◌then◌else◌, ◌==◌, Result, ok, err,
}
use ottplay_control_server.Effects.{check, get_state, next, handle, ◌>>=◌}
use ottplay_control_server.Text.{Text}
use ottplay_control_server.Json.Value.{Value}
use ottplay_control_server.DeviceRegistry.Fields.{Failure}
use ottplay_control_server.DeviceRegistry.Inventory.{Receipt}
use ottplay_control_server.DeviceRegistry.Request.{Binding, Checkpoint}
use ottplay_control_server.DeviceRegistry.World.{
  Request, read_inventory, read_pairings, read_operation, post, Reply, not_sent, lost, answer,
  refused, sent, config_written, Write, kept, done, unsynced, Client, Host, World, M, noted,
  answered, call, stored, read_file, save_config,
}
use ottplay_control_server.DeviceRegistry.Session.{
  read, update_alias, update_named, confirm, is_approve, sent_receipt,
}

-- A request that changes the registry.
abbrev pub is_mutation : Request → Bool
is_mutation (post _ _) = true
is_mutation read_inventory = false
is_mutation read_pairings = false
is_mutation (read_operation _) = false

-- A property that reads and writes of the configuration keep.
pub record Frame (P : World → Type 0) : Type 0 where
  pub sends : (r : Request) (w : World) → is_mutation r ≡ false → P w → P (noted (sent r) w)
  pub configures :
      (v : Value) (w : World)
      → P w
      → P (noted (config_written v) (record w { config_file = some v }))
  pub connects : (c : Client) (w : World) → P w → P (record w { client = c })

abbrev pub Keeps : (World → Type 0) → {A : Type 0} → M A → Type 0
Keeps P m = (w : World) → P w → P (m w).1

module _ (P : World → Type 0) where
  pub next-keeps :
      {A B : Type 0} (f : A → M B) (o : Result Failure A × World)
      → P o.1
      → ((a : A) → Keeps P (f a))
      → P (next f o).1
  unfolding next
  next-keeps f (ok a, w) p k = k a w p
  next-keeps f (err e, w) p k = p

  -- A step that keeps another property, which is enough at an exception.
  pub next-through :
      (T : World → Type 0) {A B : Type 0} (f : A → M B) (o : Result Failure A × World)
      → ((w : World) → T w → P w)
      → T o.1
      → ((a : A) (w : World) → T w → P (f a w).1)
      → P (next f o).1
  unfolding next
  next-through T f (ok a, w) weak p k = k a w p
  next-through T f (err e, w) weak p k = weak w p

  pub get_state-through :
      {B : Type 0} (f : World → M B) (w : World) → P (f w w).1 → P (next f (get_state w)).1
  unfolding next
  get_state-through f w h = h

  pub if-through :
      {B : Type 0} (b : Bool) (m k : M B) (w : World)
      → P (m w).1
      → P (k w).1
      → P ((if b then m else k) w).1
  if-through true m k w h j = h
  if-through false m k w h j = j

  pub handle-keeps :
      {A : Type 0} (f : Failure → M A) (o : Result Failure A × World)
      → P o.1
      → ((e : Failure) → Keeps P (f e))
      → P (handle f o).1
  unfolding handle
  handle-keeps f (ok a, w) p k = p
  handle-keeps f (err e, w) p k = k e w p

  pub bind-Keeps :
      {A B : Type 0} (m : M A) (f : A → M B)
      → Keeps P m
      → ((a : A) → Keeps P (f a))
      → Keeps P (m >>= f)
  bind-Keeps m f h k w p = next-keeps f (m w) (h w p) k

  pub if-Keeps :
      {A : Type 0} (b : Bool) (m k : M A) → Keeps P m → Keeps P k → Keeps P (if b then m else k)
  if-Keeps true m k h j = h
  if-Keeps false m k h j = j

  pub check-Keeps : (b : Bool) (e : Failure) → Keeps P (check b e)
  check-Keeps true e w p = p
  check-Keeps false e w p = p

  pub read_file-Keeps : (v : Option Value) → Keeps P (read_file v)
  read_file-Keeps none w p = p
  read_file-Keeps (some v) w p = p

  pub get_state-Keeps : Keeps P get_state
  get_state-Keeps w p = p

  module _ (frame : Frame P) (host : Host) where
    answered-keeps :
        (r : Request) (w : World) (a : Reply)
        → is_mutation r ≡ false
        → P w
        → P (answered host r w a).1
    answered-keeps r w not_sent m p = p
    answered-keeps r w lost m p = frame.sends r w m p
    answered-keeps r w (answer code v) m p = frame.sends r w m p
    answered-keeps r w (refused code) m p = frame.sends r w m p

    pub call-Keeps : (r : Request) → is_mutation r ≡ false → Keeps P (call host r)
    unfolding call
    call-Keeps r m w p = answered-keeps r w (host.reply w.log r) m p

    stored-keeps :
        (v : Value) (w : World) (o : Write)
        → P w
        → P (stored host (config_written v) (λ w. record w { config_file = some v }) w o).1
    stored-keeps v w kept p = p
    stored-keeps v w done p = frame.configures v w p
    stored-keeps v w unsynced p = frame.configures v w p

    save_config-Keeps : (v : Value) → Keeps P (save_config host v)
    unfolding save_config
    save_config-Keeps v w p = stored-keeps v w (host.write w.log (config_written v)) p

    pub read-Keeps : Keeps P (read host)
    unfolding read
    read-Keeps =
        bind-Keeps _ _ (call-Keeps read_inventory refl)
          λ a. bind-Keeps _ _ (check-Keeps (a.0 == 200) _) λ _ w p. p

    pub update_alias-Keeps :
        (b : Binding) (name device : Text) (remove : Bool)
        → Keeps P (update_alias host b name device remove)
    unfolding update_alias
    update_alias-Keeps b name device remove = bind-Keeps _ _ get_state-Keeps λ w.
        bind-Keeps _ _ (read_file-Keeps w.config_file) λ file.
          bind-Keeps _ _ (λ w p. p)
            λ current.
              bind-Keeps _ _ (λ w p. p)
                λ new. bind-Keeps _ _ (save_config-Keeps _) λ _ w p. frame.connects _ w p

    update_named-Keeps :
        (c : Checkpoint) (r : Receipt) (name : Option Text) → Keeps P (update_named host c r name)
    unfolding update_named
    update_named-Keeps c r none w p = p
    update_named-Keeps c r (some []) w p = p
    update_named-Keeps c r (some (x ∷ s)) w p =
        update_alias-Keeps c.binding (x ∷ s) r.device_id c.remove_alias w p

    pub confirm-Keeps : (c : Checkpoint) (r : Receipt) → Keeps P (confirm host c r)
    unfolding confirm
    confirm-Keeps c r = bind-Keeps _ _ read-Keeps λ current. bind-Keeps _ _ get_state-Keeps λ w.
        bind-Keeps _ _ (λ w p. p)
          λ b. bind-Keeps _ _ (check-Keeps _ _) λ _.
            bind-Keeps _ _ (check-Keeps _ _)
              λ _. bind-Keeps _ _ (update_named-Keeps c r c.alias) λ _ w p. p

    pub sent_receipt-Keeps :
        (c : Checkpoint) (result : Value) → Keeps P (sent_receipt host c result)
    unfolding sent_receipt
    sent_receipt-Keeps c result =
        if-Keeps (is_approve c.kind) _ _
          (bind-Keeps _ _ (check-Keeps _ _) λ _.
            bind-Keeps _ _ (call-Keeps (read_operation _) refl)
              λ a. bind-Keeps _ _ (check-Keeps _ _) λ _ w p. p)
          (λ w p. p)
