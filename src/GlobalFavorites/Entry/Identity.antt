-- ===== src/GlobalFavorites/Entry/Identity.antt =====
-- Identities are canonical: they separate entries by origin and locator, and by nothing else.
use ottplay_control_server.Prelude.{◌≡◌, ◌↔◌, Option, arith}
use ottplay_control_server.Text.{Text}
use ottplay_control_server.Json.Dumps.Injective.{dumps-injective}
use ottplay_control_server.GlobalFavorites.Entry.{
  Origin, Locator, Entry, option_json, origin_json, locator_json, identity,
}

option_json-injective : (a b : Option Text) → option_json a ≡ option_json b → a ≡ b
unfolding option_json
option_json-injective a b e = ground arith

origin_json-injective : (a b : Origin) → origin_json a ≡ origin_json b → a ≡ b
unfolding origin_json
origin_json-injective a b e = ground (arith, option_json-injective a.subprofile b.subprofile)

locator_json-injective : (a b : Locator) → locator_json a ≡ locator_json b → a ≡ b
unfolding locator_json
locator_json-injective a b e = ground arith

identity-injective :
    (a b : Entry) → identity a ≡ identity b → (a.locator ≡ b.locator) × (a.origin ≡ b.origin)
unfolding identity
identity-injective a b e =
    let printed = dumps-injective _ _ e in
    (
      locator_json-injective a.locator b.locator (cc printed),
      origin_json-injective a.origin b.origin (cc printed),
    )

identity-eq :
    (a b : Entry) → (a.locator ≡ b.locator) × (a.origin ≡ b.origin) → identity a ≡ identity b
unfolding identity
identity-eq a b e = cc (e.0, e.1)

-- Two entries have one identity exactly when they have the same locator and the same origin,
-- whatever their titles are.
pub identity_iff :
    (a b : Entry) → (identity a ≡ identity b) ↔ ((a.locator ≡ b.locator) × (a.origin ≡ b.origin))
identity_iff a b = (identity-injective a b, identity-eq a b)
