-- ===== src/DeviceRegistry/Dispatch/Rules.antt =====
-- The rules for a whole command.
use ottplay_control_server.Prelude.{refl, Bool, false, not, Option, none, some, List, [], ◌∷◌}
use ottplay_control_server.Effects.{lift, check, next_lem}
use ottplay_control_server.Text.{Text, codes, text_eq}
use ottplay_control_server.Dict.{is_some}
use ottplay_control_server.DeviceRegistry.Fields.{invalid_operation}
use ottplay_control_server.DeviceRegistry.Inventory.{Inventory}
use ottplay_control_server.DeviceRegistry.Request.{Binding, checkpoint_value, valid_request}
use ottplay_control_server.DeviceRegistry.Profile.{binding}
use ottplay_control_server.DeviceRegistry.World.{Request, Host, World, save_checkpoint}
use ottplay_control_server.DeviceRegistry.Session.{read}
use ottplay_control_server.DeviceRegistry.Session.Frame.{
  Frame, Keeps, next-keeps, next-through, get_state-through, if-through, bind-Keeps, if-Keeps,
  check-Keeps, get_state-Keeps, call-Keeps, read-Keeps, update_alias-Keeps,
}
use ottplay_control_server.DeviceRegistry.Session.Rules.{Rules, send_rule, resume_rule}
use ottplay_control_server.DeviceRegistry.Prepare.{Operation}
use ottplay_control_server.DeviceRegistry.Dispatch.{
  prepare_approve, prepare, checkpoint_of, submit, bind_alias, operate, resume_words, dispatch,
}

module _ (P : World → Type 0) (frame : Frame P) (host : Host) where
  prepare_approve-Keeps :
      (current : Inventory) (tail : List Text) (explicit convert : Bool) (d : Option Bool)
      → Keeps P (prepare_approve host current tail explicit convert d)
  unfolding prepare_approve
  prepare_approve-Keeps current tail explicit convert d = bind-Keeps P _ _ (get_state-Keeps P) λ w.
      bind-Keeps P _ _ (check-Keeps P _ _) λ _.
        bind-Keeps P _ _ (λ w p. p)
          λ a.
            bind-Keeps P _ _ (λ w p. p)
              λ _. bind-Keeps P _ _ (call-Keeps P frame host Request.read_pairings refl) λ b w p. p

  prepare-Keeps :
      (current : Inventory) (action : Text) (words : List Text) (explicit : Bool)
      → Keeps P (prepare host current action words explicit)
  unfolding prepare
  prepare-Keeps current action words explicit =
      bind-Keeps P _ _ (λ w p. p)
        λ a.
          bind-Keeps P _ _ (λ w p. p)
            λ d.
              bind-Keeps P _ _ (get_state-Keeps P)
                λ w. if-Keeps P _ _ _ (prepare_approve-Keeps current _ explicit _ d) (λ w p. p)

  bind_alias-Keeps :
      (b : Binding) (o : Operation) (alias : Option Text) → Keeps P (bind_alias host b o alias)
  unfolding bind_alias
  bind_alias-Keeps b o none = λ w p. p
  bind_alias-Keeps b o (some name) =
      bind-Keeps P _ _ (update_alias-Keeps P frame host b name _ false) λ _ w p. p

module _ (P S Q : World → Type 0) (host : Host) (rules : Rules P S Q host) where
  open rules use {before, weakens, saves}

  submit_rule : (b : Binding) (o : Operation) (w : World) → P w → Q (submit host b o w).1
  unfolding submit
  submit_rule b o w p =
      next-through Q P _ (check (valid_request o.kind o.request) invalid_operation w) weakens
        (check-Keeps P _ _ w p)
        λ _ w p.
          next_lem (λ o. Q o.1) _
            (save_checkpoint host (checkpoint_value (checkpoint_of host b o)) w)
            (λ u e.
              next-keeps Q _ _ (send_rule P S Q host rules _ _ ((saves _ w p).0 u e)) λ r w q. q)
            (λ e _. weakens _ (saves _ w p).1)

  operate_rule :
      (b : Binding) (current : Inventory) (action : Text) (tail : List Text) (explicit : Bool)
      (w : World)
      → P w
      → Q (operate host b current action tail explicit w).1
  unfolding operate
  operate_rule b current action tail explicit w p = get_state-through Q _ w (
      next-through Q P _ (check (not (is_some w.checkpoint_file)) _ w) weakens
        (check-Keeps P _ _ w p)
        λ _ w p.
          next-through Q P _ (prepare host current action tail explicit w) weakens
            (prepare-Keeps P before host current action tail explicit w p)
            λ o w p.
              if-through Q (text_eq o.kind (codes "alias")) _ _ w
                (weakens _ (bind_alias-Keeps P before host b o o.alias w p)) (submit_rule b o w p))

  resume_words_rule :
      (current : Inventory) (tail : List Text) (w : World)
      → P w
      → Q (resume_words host current tail w).1
  unfolding resume_words
  resume_words_rule current [] w p =
      next-keeps Q _ _ (resume_rule P S Q host rules current w p) λ r w q. q
  resume_words_rule current (x ∷ tail) w p = weakens w p

  pub dispatch_rule :
      (action : Text) (tail : List Text) (explicit : Bool) (w : World)
      → P w
      → Q (dispatch host action tail explicit w).1
  unfolding dispatch
  dispatch_rule action tail explicit w p =
      next-through Q P _ (read host w) weakens (read-Keeps P before host w p) λ current w p.
        get_state-through Q _ w (
          next-through Q P _ (lift (binding host w.client current.store_id) w) weakens p λ b w p.
            if-through Q (text_eq action (codes "resume")) _ _ w
              (resume_words_rule current tail w p)
              (operate_rule b current action tail explicit w p))
