-- ===== src/DeviceRegistry/Dispatch/Recovery.antt =====
-- What `prepare` makes is saved and read back.
use ottplay_control_server.Prelude.{
  ℕ, ◌≡◌, refl, ap, ◌⊎◌, inl, inr, Bool, true, false, ◌||◌, Option, List, if◌then◌else◌, ok,
}
use ottplay_control_server.Effects.{get_state, next-eq-ok}
use ottplay_control_server.Text.{Text, codes, text_eq}
use ottplay_control_server.DeviceRegistry.Fields.{is_hex}
use ottplay_control_server.DeviceRegistry.Inventory.{Inventory}
use ottplay_control_server.DeviceRegistry.Inventory.Valid.{IsInventory}
use ottplay_control_server.DeviceRegistry.Request.{
  Binding, checkpoint_value, read_checkpoint, valid_request, in_window,
}
use ottplay_control_server.DeviceRegistry.Request.Saved.{read_checkpoint-value}
use ottplay_control_server.DeviceRegistry.World.{Host, World}
use ottplay_control_server.DeviceRegistry.Prepare.{Operation}
use ottplay_control_server.DeviceRegistry.Prepare.Valid.{
  IsReady, prepare_add-IsReady, prepare_change-IsReady, prepare_remove-IsReady,
  prepare_reconcile-IsReady,
}
use ottplay_control_server.DeviceRegistry.Prepare.Approval.{
  approve_words-name_ok, approve_operation-IsReady,
}
use ottplay_control_server.DeviceRegistry.Dispatch.{
  prepare_approve, prepare_local, prepare, checkpoint_of,
}

-- A branch that returns.
branch {ℓ} :
    {A : Type ℓ} (b : Bool) (m k : A) {x : A}
    → (if b then m else k) ≡ x
    → ((b ≡ true) × (m ≡ x)) ⊎ ((b ≡ false) × (k ≡ x))
branch true m k h = inl (refl, h)
branch false m k h = inr (refl, h)

branch_run :
    {S R : Type 0} (b : Bool) (m k : S → R) (s : S) {x : R}
    → (if b then m else k) s ≡ x
    → ((b ≡ true) × (m s ≡ x)) ⊎ ((b ≡ false) × (k s ≡ x))
branch_run true m k s h = inl (refl, h)
branch_run false m k s h = inr (refl, h)

module _ (host : Host) (current : Inventory) (valid : IsInventory current)
    (fresh : is_hex host.operation_id ≡ true) where
  prepare_local-IsReady :
      (w : World) (action : Text) (tail : List Text) (convert : Bool) (d : Option Bool)
      (o : Operation)
      → prepare_local host w current action tail convert d ≡ ok o
      → text_eq action (codes "alias") ≡ false
      → IsReady o
  unfolding prepare_local
  prepare_local-IsReady w action tail convert d o h other =
      let api = host.api in
      let config = w.client.config in
      elim (branch (text_eq action (codes "add")) _ _ h) [
        | inl (_, k) ↦
            prepare_add-IsReady api config current.devices host.operation_id valid.rows fresh tail
              convert d o k
        | inr (_, k) ↦ elim (branch (text_eq action (codes "alias")) _ _ k) [
          | inl (same, _) ↦ absurd (cc (same, other))
          | inr (_, k) ↦ elim (branch (text_eq action (codes "remove")) _ _ k) [
            | inl (_, k) ↦
                prepare_remove-IsReady api config current.devices host.operation_id valid.rows fresh
                  tail convert d o k
            | inr (_, k) ↦ elim (branch (text_eq action (codes "reconcile")) _ _ k) [
              | inl (_, k) ↦
                  prepare_reconcile-IsReady api config current.devices host.operation_id valid.rows
                    fresh tail convert d o k
              | inr (_, k) ↦
                  elim (branch (text_eq action (codes "revoke") || text_eq action (codes "rotate"))
                    _ _ k) [
                      | inl (changing, k) ↦
                          prepare_change-IsReady api config current.devices host.operation_id
                            valid.rows fresh action tail convert d o changing k
                      | inr (_, k) ↦ absurd (cc k)
                    ]
            ]
          ]
        ]
      ]

  prepare_approve-IsReady :
      (tail : List Text) (explicit convert : Bool) (d : Option Bool) (o : Operation) (w v : World)
      → prepare_approve host current tail explicit convert d w ≡ (ok o, v)
      → IsReady o
  unfolding prepare_approve
  prepare_approve-IsReady tail explicit convert d o w v h =
      let (w₁, _, _, h₁) = next-eq-ok _ (get_state w) h in
      let (_, s₂, _, h₂) = next-eq-ok _ _ h₁ in
      let ((alias, device, word), s₃, a, h₃) = next-eq-ok _ _ h₂ in
      let (u, s₄, b, h₄) = next-eq-ok _ _ h₃ in
      let ((status, pending), s₅, _, h₅) = next-eq-ok _ _ h₄ in
      approve_operation-IsReady host.api w₁.client.config current.devices host.operation_id
        valid.rows fresh alias device (host.upper word) d status pending o
        (approve_words-name_ok host.api w₁.client.config current.devices host.operation_id
          valid.rows fresh explicit tail alias device word (ap (λ x. x.0) a))
        (ap (λ x. x.0) b) (ap (λ x. x.0) h₅)

  prepare-IsReady :
      (action : Text) (words : List Text) (explicit : Bool) (o : Operation) (w v : World)
      → prepare host current action words explicit w ≡ (ok o, v)
      → text_eq action (codes "alias") ≡ false
      → IsReady o
  unfolding prepare
  prepare-IsReady action words explicit o w v h other =
      let ((word, tail), s₁, _, h₁) = next-eq-ok _ _ h in
      let (d, s₂, _, h₂) = next-eq-ok _ _ h₁ in
      let (w₁, s₃, _, h₃) = next-eq-ok _ _ h₂ in
      elim (branch_run (text_eq action (codes "approve")) _ _ s₃ h₃) [
        | inl (_, k) ↦ prepare_approve-IsReady _ explicit _ d o s₃ v k
        | inr (_, k) ↦ prepare_local-IsReady w₁ action _ _ d o (ap (λ x. x.0) k) other
      ]

-- A command other than `alias` that is prepared, on a valid inventory and with an operation identity
-- of 32 hexadecimal digits, has a valid request; and within a day `resume` reads back exactly the
-- checkpoint that is saved of it.
pub prepare-recovers :
    (host : Host) (b : Binding) (current : Inventory) (action : Text) (words : List Text)
    (explicit : Bool) (o : Operation) (w v : World) (now : ℕ)
    → IsInventory current
    → is_hex host.operation_id ≡ true
    → text_eq action (codes "alias") ≡ false
    → prepare host current action words explicit w ≡ (ok o, v)
    → in_window now host.now ≡ true
    → (valid_request o.kind o.request ≡ true)
      × (read_checkpoint b now (checkpoint_value (checkpoint_of host b o))
          ≡ ok (checkpoint_of host b o))
unfolding checkpoint_of
prepare-recovers host b current action words explicit o w v now valid fresh other h near =
    let (request, alias) =
      prepare-IsReady host current valid fresh action words explicit o w v h other in
    (request, read_checkpoint-value (checkpoint_of host b o) now request alias near)
