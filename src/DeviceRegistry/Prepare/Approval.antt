-- ===== src/DeviceRegistry/Prepare/Approval.antt =====
-- The operation that `prepare` makes of an approval is valid.
use ottplay_control_server.Prelude.{
  need-eq-ok, need, ℕ, ◌≡◌, sym, ap, Bool, true, false, not, ◌&&◌, Option, none, some, List, [],
  ◌∷◌, length, leb, ◌==◌, All, All-keep_if, &&-parts, ok, guard, guard-eq-ok, >>=-eq-ok,
  ok-injective,
}
use ottplay_control_server.Text.{Text, codes, text_eq, elem}
use ottplay_control_server.Dict.{Dict}
use ottplay_control_server.Json.Value
use ottplay_control_server.Json.Value.{Value, Fields, str, bool, field, end, get, same_keys}
use ottplay_control_server.PlayerGroups.Names.{Api, name_ok}
use ottplay_control_server.DeviceRegistry.Fields.{
  invalid_pairings, bad_device, is_id, is_hex, is_code,
}
use ottplay_control_server.Json.Fields.{
  matching_lem, matching-some, matching, bool_of, nat_of, list_of, is_number, keys_between,
}
use ottplay_control_server.DeviceRegistry.Inventory.{Row}
use ottplay_control_server.DeviceRegistry.Inventory.Valid.{RowOk}
use ottplay_control_server.DeviceRegistry.Alias.{alias_name}
use ottplay_control_server.DeviceRegistry.Request.{valid_request, alias_allowed}
use ottplay_control_server.DeviceRegistry.Prepare.{
  Operation, identity, base_request, diagnostics_field, approve_words, approve_checked,
  approve_operation, Pairing, read_pairing, read_pairings, the_one, pending_pairing, pairing_keys,
  address_ok,
}
use ottplay_control_server.DeviceRegistry.Prepare.Valid.{IsReady, alias_name-name_ok}

-- The pairings that were read have identities that match.
read_pairing-is_hex :
    (v : Value) (seen : List Text) (row : Pairing)
    → read_pairing v seen ≡ ok row
    → is_hex row.id ≡ true
unfolding read_pairing
read_pairing-is_hex (Value.dict fs) seen row h =
    let (_, _, h₁) = >>=-eq-ok (guard (same_keys fs pairing_keys) invalid_pairings) _ h in
    let (id, i, h₂) =
      >>=-eq-ok (need invalid_pairings (matching is_hex (get (codes "id") fs))) _ h₁ in
    let (_, _, h₃) = >>=-eq-ok (guard (not (elem id seen)) invalid_pairings) _ h₂ in
    let (device, _, h₄) =
      >>=-eq-ok (need invalid_pairings (matching is_id (get (codes "device_id") fs))) _ h₃ in
    let (code, _, h₅) =
      >>=-eq-ok (need invalid_pairings (matching is_code (get (codes "code") fs))) _ h₄ in
    let (_, _, h₆) =
      >>=-eq-ok (need invalid_pairings (matching address_ok (get (codes "address") fs))) _ h₅ in
    let (expires, _, h₇) =
      >>=-eq-ok (need invalid_pairings (nat_of (get (codes "expires_in") fs))) _ h₆ in
    let (_, _, h₈) = >>=-eq-ok (guard (leb expires 600) invalid_pairings) _ h₇ in
    rw (sym (ok-injective h₈)) (matching_lem is_hex _ id (need-eq-ok _ _ i))
read_pairing-is_hex _ seen row h = absurd (cc)

read_pairings-is_hex :
    (vs : List Value) (seen : List Text) (rows : List Pairing)
    → read_pairings vs seen ≡ ok rows
    → All (λ row. is_hex row.id ≡ true) rows
unfolding read_pairings
read_pairings-is_hex [] seen rows h = rw (sym (ok-injective h)) tt
read_pairings-is_hex (v ∷ vs) seen rows h =
    let (row, first, h₁) = >>=-eq-ok (read_pairing v seen) _ h in
    let (more, rest, h₂) = >>=-eq-ok (read_pairings vs (row.id ∷ seen)) _ h₁ in
    rw (sym (ok-injective h₂))
      (read_pairing-is_hex v seen row first, read_pairings-is_hex vs _ more rest)

the_one-is_hex :
    (rows : List Pairing) (id : Text)
    → the_one rows ≡ ok id
    → All (λ row. is_hex row.id ≡ true) rows
    → is_hex id ≡ true
unfolding the_one
the_one-is_hex (row ∷ []) id h p = rw (sym (ok-injective h)) p.0
the_one-is_hex [] id h p = absurd (cc)
the_one-is_hex (x ∷ y ∷ rows) id h p = absurd (cc)

pub pending_pairing-is_hex :
    (status : ℕ) (v : Value) (device code id : Text)
    → pending_pairing status v device code ≡ ok id
    → is_hex id ≡ true
unfolding pending_pairing
pending_pairing-is_hex status (Value.dict fs) device code id h =
    let (vs, _, h₁) = >>=-eq-ok (need invalid_pairings (list_of (get (codes "pairings") fs))) _ h in
    let (_, _, h₂) =
      >>=-eq-ok
        (guard (status == 200 && leb (length vs) 64 && same_keys fs (codes "pairings" ∷ []))
          invalid_pairings)
        _ h₁ in
    let (rows, read, h₃) = >>=-eq-ok (read_pairings vs []) _ h₂ in
    the_one-is_hex _ id h₃
      (All-keep_if _ (λ row. is_hex row.id ≡ true) rows (read_pairings-is_hex vs [] rows read))
pending_pairing-is_hex status _ device code id h = absurd (cc)

module _ (api : Api) (config : Dict Value) (rows : List Row) (operation : Text)
    (oks : All RowOk rows) (fresh : is_hex operation ≡ true) where
  approve_ready :
      (device id code : Text) (d : Option Bool)
      → is_id device ≡ true
      → is_hex id ≡ true
      → is_code code ≡ true
      → valid_request (codes "approve") (
          base_request operation device (
            field
              (codes "id")
              (str id)
              (field (codes "code") (str code) (diagnostics_field api config rows operation d))))
        ≡ true
  unfolding valid_request text_eq get same_keys keys_between Value.keys elem is_number bool_of
  approve_ready device id code none h i c = rw (
    matching-some is_hex operation fresh,
    matching-some is_id device h,
    matching-some is_hex id i,
    matching-some is_code code c,
  )
  approve_ready device id code (some b) h i c = rw (
    matching-some is_hex operation fresh,
    matching-some is_id device h,
    matching-some is_hex id i,
    matching-some is_code code c,
  )

  pub approve_words-name_ok :
      (explicit : Bool) (tail : List Text) (alias device word : Text)
      → approve_words api config rows operation explicit tail ≡ ok (alias, device, word)
      → name_ok alias ≡ true
  unfolding approve_words
  approve_words-name_ok true (name ∷ d ∷ c ∷ []) alias device word h =
      let (a, e, h₁) = >>=-eq-ok (alias_name api name) _ h in
      rw (ap (λ x. x.0) (sym (ok-injective h₁))) (alias_name-name_ok api name a e)
  approve_words-name_ok false (name ∷ c ∷ []) alias device word h =
      let (a, e, h₁) = >>=-eq-ok (alias_name api name) _ h in
      let (row, _, h₂) = >>=-eq-ok (identity api config rows name) _ h₁ in
      rw (ap (λ x. x.0) (sym (ok-injective h₂))) (alias_name-name_ok api name a e)
  approve_words-name_ok _ _ alias device word h = absurd (cc)

  -- `approve`, with the words that were checked and the pending pairings
  pub approve_operation-IsReady :
      (alias device code : Text) (d : Option Bool) (status : ℕ) (pending : Value) (o : Operation)
      → name_ok alias ≡ true
      → approve_checked api config rows operation alias device code ≡ ok tt
      → approve_operation api config rows operation alias device code d status pending ≡ ok o
      → IsReady o
  unfolding approve_checked approve_operation alias_allowed text_eq
  approve_operation-IsReady alias device code d status pending o named checked h =
      let (_, matched, _) = >>=-eq-ok (guard (is_id device && is_code code) bad_device) _ checked in
      let (valid, spelled) = &&-parts _ _ (guard-eq-ok _ _ matched) in
      let (id, i, h₁) = >>=-eq-ok (pending_pairing status pending device code) _ h in
      rw (sym (ok-injective h₁)) (
        approve_ready device id code d valid
            (pending_pairing-is_hex status pending device code id i) spelled,
        named,
      )
