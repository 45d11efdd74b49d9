-- ===== src/DeviceRegistry/Inventory/Valid.antt =====
-- What an accepted inventory promises.
use ottplay_control_server.Prelude.{
  need-eq-ok, need, ◌≡◌, ◌≤◌, refl, sym, ap, ◌∙◌, true, false, not, ◌||◌, Option, none, some, List,
  [], ◌∷◌, map, arith, ltb, leb, length, count_if, All, All-map, ok, guard, guard-eq-ok, >>=-eq-ok,
  ok-injective, leb→le,
}
use ottplay_control_server.Text.{Text, codes, elem, text_eq, text_eq_iff}
use ottplay_control_server.Text.Members.{Unique}
use ottplay_control_server.Dict.{is_some}
use ottplay_control_server.Json.Value.{Value, Fields, dict, get, same_keys}
use ottplay_control_server.DeviceRegistry.Fields.{invalid_inventory, is_id, is_hex, is_hash}
use ottplay_control_server.Json.Fields.{
  matching_lem, matching, bool_of, nat_of, list_of, is_number, keys_between,
}
use ottplay_control_server.DeviceRegistry.Inventory.{
  Row, Inventory, is_static, is_active, origin_of, state_of, fingerprint_of, row_keys, read_fields,
  read_row, read_rows, limits_ok, inventory_keys, inventory,
}

-- A row with its patterns; a static identity has a fingerprint.
pub record RowOk (r : Row) : Type 0 where
  pub identity : is_id r.device_id ≡ true
  pub generation : is_hex r.generation ≡ true
  pub hashed : (f : Text) → r.static_fingerprint ≡ some f → is_hash f ≡ true
  pub fingerprint : (is_static r.origin ≡ true) → is_some r.static_fingerprint ≡ true

abbrev pub ids : List Row → List Text
ids rows = map (λ r. r.device_id) rows

-- An inventory with distinct identities and within the limits.
pub record IsInventory (d : Inventory) : Type 0 where
  pub rows : All RowOk d.devices
  pub unique : Unique (ids d.devices)
  pub few : length d.devices ≤ 1088
  pub active : count_if (λ r. is_active r.state) d.devices ≤ 64
  pub store : is_hex d.store_id ≡ true
  pub bounded : d.revision ≤ 9007199254740990

fingerprint_of-is_hash :
    (v : Option Value) (f : Text) → fingerprint_of v ≡ ok (some f) → is_hash f ≡ true
unfolding fingerprint_of
fingerprint_of-is_hash none f h = absurd (cc)
fingerprint_of-is_hash (some v) f h =
    let (g, m, made) = >>=-eq-ok (need invalid_inventory (matching is_hash (some v))) _ h in
    matching_lem is_hash (some v) f (need-eq-ok _ _ m ∙ ok-injective made)

read_fields-RowOk :
    (fs : Fields) (seen : List Text) (r : Row)
    → read_fields fs seen ≡ ok r
    → RowOk r × (elem r.device_id seen ≡ false)
unfolding read_fields
read_fields-RowOk fs seen r h =
    let (_, _, h₁) =
      >>=-eq-ok
        (guard (keys_between fs row_keys (codes "static_fingerprint" ∷ [])) invalid_inventory) _
        h in
    let (device, d, h₂) =
      >>=-eq-ok (need invalid_inventory (matching is_id (get (codes "device_id") fs))) _ h₁ in
    let (_, fresh, h₃) = >>=-eq-ok (guard (not (elem device seen)) invalid_inventory) _ h₂ in
    let (generation, g, h₄) =
      >>=-eq-ok (need invalid_inventory (matching is_hex (get (codes "generation") fs))) _ h₃ in
    let (origin, _, h₅) =
      >>=-eq-ok (need invalid_inventory (origin_of (get (codes "origin") fs))) _ h₄ in
    let (state, _, h₆) =
      >>=-eq-ok (need invalid_inventory (state_of (get (codes "state") fs))) _ h₅ in
    let (diagnostics, _, h₇) =
      >>=-eq-ok (need invalid_inventory (bool_of (get (codes "diagnostics_enabled") fs))) _ h₆ in
    let (fingerprint, seen_as, h₈) =
      >>=-eq-ok (fingerprint_of (get (codes "static_fingerprint") fs)) _ h₇ in
    let (_, shown, h₉) =
      >>=-eq-ok (guard (not (is_static origin) || is_some fingerprint) invalid_inventory) _ h₈ in
    rw (sym (ok-injective h₉)) (
      record {
        identity = matching_lem is_id _ device (need-eq-ok _ _ d);
        generation = matching_lem is_hex _ generation (need-eq-ok _ _ g);
        hashed = λ f e. fingerprint_of-is_hash _ f (seen_as ∙ ap ok e);
        fingerprint = λ s. ground (arith, guard-eq-ok _ _ shown);
      },
      ground (arith, guard-eq-ok _ _ fresh),
    )

read_row-RowOk :
    (v : Value) (seen : List Text) (r : Row)
    → read_row v seen ≡ ok r
    → RowOk r × (elem r.device_id seen ≡ false)
unfolding read_row
read_row-RowOk (dict fs) seen r h = read_fields-RowOk fs seen r h
read_row-RowOk _ seen r h = absurd (cc)

-- No row has an identity that was seen, which a longer list of those seen keeps.
fresh-cons :
    (k : Text) (seen : List Text) (t : Text)
    → elem t (k ∷ seen) ≡ false
    → (text_eq t k ≡ false) × (elem t seen ≡ false)
unfolding elem
fresh-cons k seen t h = ground arith

not_elem :
    (k : Text) (rows : List Row)
    → All (λ r. text_eq r.device_id k ≡ false) rows
    → elem k (ids rows) ≡ false
unfolding elem
not_elem k [] h = refl
not_elem k (r ∷ rows) h =
    ground (arith, h.0, text_eq_iff r.device_id k, text_eq_iff k r.device_id, not_elem k rows h.1)

read_rows-RowOk :
    (vs : List Value) (seen : List Text) (rows : List Row)
    → read_rows vs seen ≡ ok rows
    → All RowOk rows
      × Unique (ids rows)
      × All (λ r. elem r.device_id seen ≡ false) rows
      × (length rows ≡ length vs)
unfolding read_rows
read_rows-RowOk [] seen rows h = rw (sym (ok-injective h)) (tt, tt, tt, refl)
read_rows-RowOk (v ∷ vs) seen rows h =
    let (r, first, h₁) = >>=-eq-ok (read_row v seen) _ h in
    let (more, rest, h₂) = >>=-eq-ok (read_rows vs (r.device_id ∷ seen)) _ h₁ in
    let (good, fresh) = read_row-RowOk v seen r first in
    let (oks, unique, apart, count) = read_rows-RowOk vs (r.device_id ∷ seen) more rest in
    rw (sym (ok-injective h₂)) (
      (good, oks),
      (
        not_elem r.device_id more
            (All-map _ _ more (λ x e. (fresh-cons r.device_id seen x.device_id e).0) apart),
        unique,
      ),
      (fresh, All-map _ _ more (λ x e. (fresh-cons r.device_id seen x.device_id e).1) apart),
      omega arith,
    )

-- An accepted inventory has at most 1088 rows with distinct identities, of which at most 64 are
-- active; every identity and generation matches its pattern, and a static row has a fingerprint.
pub inventory-IsInventory : (v : Value) (d : Inventory) → inventory v ≡ ok d → IsInventory d
unfolding inventory
inventory-IsInventory (dict fs) d h =
    let (_, _, h₁) = >>=-eq-ok (guard (same_keys fs inventory_keys) invalid_inventory) _ h in
    let (_, _, h₂) =
      >>=-eq-ok (guard (is_number 1 (get (codes "version") fs)) invalid_inventory) _ h₁ in
    let (store, s, h₃) =
      >>=-eq-ok (need invalid_inventory (matching is_hex (get (codes "store_id") fs))) _ h₂ in
    let (revision, _, h₄) =
      >>=-eq-ok (need invalid_inventory (nat_of (get (codes "revision") fs))) _ h₃ in
    let (_, low, h₅) = >>=-eq-ok (guard (ltb revision 9007199254740991) invalid_inventory) _ h₄ in
    let (_, _, h₆) =
      >>=-eq-ok (guard (limits_ok (get (codes "limits") fs)) invalid_inventory) _ h₅ in
    let (vs, _, h₇) =
      >>=-eq-ok (need invalid_inventory (list_of (get (codes "devices") fs))) _ h₆ in
    let (_, few, h₈) = >>=-eq-ok (guard (leb (length vs) 1088) invalid_inventory) _ h₇ in
    let (rows, read, h₉) = >>=-eq-ok (read_rows vs []) _ h₈ in
    let (_, busy, h₁₀) =
      >>=-eq-ok (guard (leb (count_if (λ row. is_active row.state) rows) 64) invalid_inventory) _
        h₉ in
    let (oks, unique, _, count) = read_rows-RowOk vs [] rows read in
    rw (sym (ok-injective h₁₀)) (record {
      rows = oks;
      unique = unique;
      few = omega (arith, leb→le _ _ (guard-eq-ok _ _ few));
      active = leb→le _ _ (guard-eq-ok _ _ busy);
      store = matching_lem is_hex _ store (need-eq-ok _ _ s);
      bounded = ground (arith, guard-eq-ok _ _ low);
    })
inventory-IsInventory _ d h = absurd (cc)
