-- ===== src/DeviceRegistry/Prepare/Valid.antt =====
-- The operations that `prepare` makes are valid.
use ottplay_control_server.Prelude.{
  need-eq-ok, need, ◌≡◌, refl, sym, inl, inr, Bool, true, false, not, ◌&&◌, ◌||◌, Option, none,
  some, List, [], ◌∷◌, All, All-keep_if, Bool-cases, ok, guard, guard-eq-ok, >>=-eq-ok,
  ok-injective, arith,
}
use ottplay_control_server.Text.{Text, codes, text_eq, text_eq_iff, elem}
use ottplay_control_server.Dict
use ottplay_control_server.Dict.{Dict, is_some}
use ottplay_control_server.Json.Value
use ottplay_control_server.Json.Value.{Value, Fields, str, bool, field, end, get, same_keys}
use ottplay_control_server.PlayerGroups.Names.{Api, name_ok}
use ottplay_control_server.DeviceRegistry.Fields.{
  usage, no_local_alias, not_convertible, static_absent, bad_device, is_id, is_hex, is_hash,
}
use ottplay_control_server.Json.Fields.{matching-some, bool_of, is_number}
use ottplay_control_server.DeviceRegistry.Inventory.{Row}
use ottplay_control_server.DeviceRegistry.Inventory.Valid.{RowOk}
use ottplay_control_server.DeviceRegistry.Alias.{alias_name, alias_key, aliases_in, players}
use ottplay_control_server.DeviceRegistry.Request.{valid_request, alias_allowed}
use ottplay_control_server.DeviceRegistry.Prepare.{
  Operation, one_row, one_word, two_words, identity, change_row, change_request, prepare_add,
  prepare_change, prepare_remove, prepare_reconcile, is_on, is_conflict, base_request,
}

-- What a checkpoint and the controller expect of an operation.
abbrev pub IsReady : Operation → Type 0
IsReady o =
    (valid_request o.kind o.request ≡ true) × (alias_allowed o.kind o.alias o.remove_alias ≡ true)

one_row-RowOk : (rows : List Row) (row : Row) → one_row rows ≡ ok row → All RowOk rows → RowOk row
unfolding one_row
one_row-RowOk (x ∷ []) row h p = rw (sym (ok-injective h)) p.0
one_row-RowOk [] row h p = absurd (cc)
one_row-RowOk (x ∷ y ∷ rows) row h p = absurd (cc)

pub alias_name-name_ok :
    (api : Api) (name alias : Text) → alias_name api name ≡ ok alias → name_ok alias ≡ true
unfolding alias_name
alias_name-name_ok api name alias h = ground arith

module _ (api : Api) (config : Dict Value) (rows : List Row) (operation : Text)
    (oks : All RowOk rows) (fresh : is_hex operation ≡ true) where
  identity-RowOk : (name : Text) (row : Row) → identity api config rows name ≡ ok row → RowOk row
  unfolding identity
  identity-RowOk name row h =
      let (key, _, h₁) = >>=-eq-ok (alias_key api config name none) _ h in
      let (aliases, _, h₂) = >>=-eq-ok (aliases_in (Dict.lookup (codes "players") config)) _ h₁ in
      one_row-RowOk _ row h₂ (All-keep_if _ RowOk rows oks)

  change_row-RowOk :
      (tail : List Text) (d : Option Bool) (row : Row)
      → change_row api config rows operation tail d ≡ ok row
      → RowOk row
  unfolding change_row
  change_row-RowOk tail d row h =
      let (name, _, h₁) = >>=-eq-ok (one_word tail) _ h in
      let (_, _, h₂) = >>=-eq-ok (guard (not (is_some d)) usage) _ h₁ in identity-RowOk name row h₂

  revoke_ready :
      (row : Row)
      → RowOk row
      → valid_request (codes "revoke") (change_request api config rows operation row end) ≡ true
  unfolding valid_request change_request text_eq get same_keys Value.keys elem is_number
  revoke_ready row r = rw (
    matching-some is_hex operation fresh,
    matching-some is_id row.device_id r.identity,
    matching-some is_hex row.generation r.generation,
  )

  rotate_ready :
      (row : Row)
      → RowOk row
      → valid_request (codes "rotate") (change_request api config rows operation row end) ≡ true
  unfolding valid_request change_request text_eq get same_keys Value.keys elem is_number
  rotate_ready row r = rw (
    matching-some is_hex operation fresh,
    matching-some is_id row.device_id r.identity,
    matching-some is_hex row.generation r.generation,
  )

  -- `revoke` and `rotate`
  pub prepare_change-IsReady :
      (kind : Text) (tail : List Text) (convert : Bool) (d : Option Bool) (o : Operation)
      → (text_eq kind (codes "revoke") || text_eq kind (codes "rotate")) ≡ true
      → prepare_change api config rows operation kind tail convert d ≡ ok o
      → IsReady o
  unfolding prepare_change alias_allowed
  prepare_change-IsReady kind tail convert d o k h =
      let (_, _, h₁) = >>=-eq-ok (guard (not convert) usage) _ h in
      let (row, e, h₂) = >>=-eq-ok (change_row api config rows operation tail d) _ h₁ in
      let r = change_row-RowOk tail d row e in
      rw (sym (ok-injective h₂)) (elim (Bool-cases (text_eq kind (codes "revoke"))) [
        | inl revoking ↦
            (rw ((text_eq_iff kind (codes "revoke")).0 revoking) (revoke_ready row r), refl)
        | inr rotating ↦
            (rw ((text_eq_iff kind (codes "rotate")).0 (ground arith)) (rotate_ready row r), refl)
      ])

  pub prepare_remove-IsReady :
      (tail : List Text) (convert : Bool) (d : Option Bool) (o : Operation)
      → prepare_remove api config rows operation tail convert d ≡ ok o
      → IsReady o
  unfolding prepare_remove alias_allowed text_eq
  prepare_remove-IsReady tail convert d o h =
      let (_, _, h₁) = >>=-eq-ok (guard (not convert) usage) _ h in
      let (row, e, h₂) = >>=-eq-ok (change_row api config rows operation tail d) _ h₁ in
      let (name, _, h₃) = >>=-eq-ok (one_word tail) _ h₂ in
      let (alias, a, h₄) = >>=-eq-ok (alias_name api name) _ h₃ in
      let (key, _, h₅) = >>=-eq-ok (alias_key api config alias none) _ h₄ in
      let (_, _, h₆) = >>=-eq-ok (guard (Dict.has key (players config)) no_local_alias) _ h₅ in
      rw (sym (ok-injective h₆))
        (revoke_ready row (change_row-RowOk tail d row e), alias_name-name_ok api name alias a)

  convert_ready :
      (row : Row)
      → RowOk row
      → valid_request (codes "add") (
          change_request api config rows operation row (
            field
              (codes "convert_to_dynamic")
              (bool true)
              (field (codes "diagnostics_enabled") (bool row.diagnostics_enabled) end)))
        ≡ true
  unfolding valid_request change_request text_eq get same_keys Value.keys elem is_number bool_of
  convert_ready row r = rw (
    matching-some is_hex operation fresh,
    matching-some is_id row.device_id r.identity,
    matching-some is_hex row.generation r.generation,
  )

  reconcile_ready :
      (row : Row) (f : Text)
      → RowOk row
      → is_hash f ≡ true
      → valid_request (codes "reconcile") (
          change_request api config rows operation row
            (field (codes "observed_static_fingerprint") (str f) end))
        ≡ true
  unfolding valid_request change_request text_eq get same_keys Value.keys elem is_number
  reconcile_ready row f r h = rw (
    matching-some is_hex operation fresh,
    matching-some is_id row.device_id r.identity,
    matching-some is_hex row.generation r.generation,
    matching-some is_hash f h,
  )

  pub prepare_reconcile-IsReady :
      (tail : List Text) (convert : Bool) (d : Option Bool) (o : Operation)
      → prepare_reconcile api config rows operation tail convert d ≡ ok o
      → IsReady o
  unfolding prepare_reconcile alias_allowed
  prepare_reconcile-IsReady tail true d o h =
      let (row, e, h₁) = >>=-eq-ok (change_row api config rows operation tail d) _ h in
      let (_, _, h₂) =
        >>=-eq-ok
          (guard (is_conflict row.state && not (is_some row.static_fingerprint)) not_convertible) _
          h₁ in
      rw (sym (ok-injective h₂)) (convert_ready row (change_row-RowOk tail d row e), refl)
  prepare_reconcile-IsReady tail false d o h =
      let (row, e, h₁) = >>=-eq-ok (change_row api config rows operation tail d) _ h in
      let (f, k, h₂) = >>=-eq-ok (need static_absent row.static_fingerprint) _ h₁ in
      let r = change_row-RowOk tail d row e in
      rw (sym (ok-injective h₂)) (reconcile_ready row f r (r.hashed f (need-eq-ok _ _ k)), refl)

  add_ready :
      (device : Text) (b : Bool)
      → is_id device ≡ true
      → valid_request
          (codes "add")
          (base_request operation device (field (codes "diagnostics_enabled") (bool b) end))
        ≡ true
  unfolding valid_request text_eq get same_keys Value.keys elem is_number bool_of
  add_ready device b h = rw (matching-some is_hex operation fresh, matching-some is_id device h)

  -- `add`
  pub prepare_add-IsReady :
      (tail : List Text) (convert : Bool) (d : Option Bool) (o : Operation)
      → prepare_add api config rows operation false tail convert d ≡ ok o
      → IsReady o
  unfolding prepare_add alias_allowed text_eq
  prepare_add-IsReady tail convert d o h =
      let ((name, device), _, h₁) = >>=-eq-ok (two_words tail) _ h in
      let (_, _, h₂) = >>=-eq-ok (guard (not convert && not (false && is_some d)) usage) _ h₁ in
      let (alias, a, h₃) = >>=-eq-ok (alias_name api name) _ h₂ in
      let (_, valid, h₄) = >>=-eq-ok (guard (is_id device) bad_device) _ h₃ in
      let (key, _, h₅) = >>=-eq-ok (alias_key api config alias (some device)) _ h₄ in
      rw (sym (ok-injective h₅))
        (add_ready device (is_on d) (guard-eq-ok _ _ valid), alias_name-name_ok api name alias a)
