-- ===== src/LocalFavorites/Sorted.antt =====
-- The scopes of a valid document: strictly in order, and found by their keys.
use ottplay_control_server.Prelude.{
  ◌≡◌, refl, ◌∙◌, Bool, true, false, not, ◌&&◌, some, List, [], ◌∷◌, map, any, arith, if◌then◌else◌,
}
use ottplay_control_server.Text.{text_eq_iff}
use ottplay_control_server.GlobalFavorites.Kinds.{text_lt_total}
use ottplay_control_server.LocalFavorites.Bounds.{Libraries}
use ottplay_control_server.LocalFavorites.Scopes.{Key, Scope, same_key, key_lt, insert, sort}
use ottplay_control_server.LocalFavorites.Plan.{find}

pub same_key_eq : (a b : Key) → same_key a b ≡ true → a ≡ b
same_key_eq a b h = ground (
  arith,
  text_eq_iff a.provider b.provider,
  text_eq_iff a.profile b.profile,
  text_eq_iff a.source b.source,
)

pub same_key_refl : (k : Key) → same_key k k ≡ true
same_key_refl k = ground (
  arith,
  text_eq_iff k.provider k.provider,
  text_eq_iff k.profile k.profile,
  text_eq_iff k.source k.source,
)

same_key_sym : (a b : Key) → same_key a b ≡ same_key b a
same_key_sym a b = ground (
  arith,
  text_eq_iff a.provider b.provider,
  text_eq_iff a.profile b.profile,
  text_eq_iff a.source b.source,
  text_eq_iff b.provider a.provider,
  text_eq_iff b.profile a.profile,
  text_eq_iff b.source a.source,
)

key_lt_total : (a b : Key) → same_key a b ≡ false → key_lt a b ≡ false → key_lt b a ≡ true
unfolding key_lt
key_lt_total a b e h = ground (
  arith,
  text_lt_total a.provider b.provider,
  text_lt_total a.profile b.profile,
  text_lt_total a.source b.source,
  text_eq_iff a.provider b.provider,
  text_eq_iff b.provider a.provider,
  text_eq_iff a.profile b.profile,
  text_eq_iff b.profile a.profile,
)

abbrev pub keys_of : List Scope → List Key
keys_of = map (λ s. s.key)

-- No scope has the key.
abbrev pub lacks : Key → List Scope → Bool
lacks k ss = not (any (same_key k) (keys_of ss))

-- No two scopes have one key.
abbrev pub Distinct : List Scope → Type 0
Distinct [] = Unit
Distinct (s ∷ ss) = (lacks s.key ss ≡ true) × Distinct ss

-- Strictly increasing keys.
abbrev pub Increasing : List Scope → Type 0
Increasing [] = Unit
Increasing (s ∷ []) = Unit
Increasing (s ∷ t ∷ ss) = (key_lt s.key t.key ≡ true) × Increasing (t ∷ ss)

module _ (lib : Libraries) where
  lacks-insert :
      (k : Key) (s : Scope) (ss : List Scope)
      → lacks k (insert lib s ss) ≡ (not (same_key k s.key) && lacks k ss)
  unfolding insert
  lacks-insert k s [] = ground arith
  lacks-insert k s (t ∷ ts) = ground (arith, lacks-insert k s ts)

  lacks-sort : (k : Key) (ss : List Scope) → lacks k (sort lib ss) ≡ lacks k ss
  unfolding sort
  lacks-sort k [] = refl
  lacks-sort k (s ∷ ss) = ground (arith, lacks-insert k s (sort lib ss), lacks-sort k ss)

  insert-Increasing :
      (s : Scope) (ss : List Scope)
      → lacks s.key ss ≡ true
      → Increasing ss
      → Increasing (insert lib s ss)
  unfolding insert
  insert-Increasing s [] f h = tt
  insert-Increasing s (t ∷ []) f h =
      ground (arith, key_lt_total t.key s.key, same_key_sym s.key t.key)
  insert-Increasing s (t ∷ u ∷ ss) f h = ground (
    arith,
    key_lt_total t.key s.key,
    key_lt_total u.key s.key,
    same_key_sym s.key t.key,
    same_key_sym s.key u.key,
    insert-Increasing s (u ∷ ss),
  )

  pub sort-Increasing : (ss : List Scope) → Distinct ss → Increasing (sort lib ss)
  unfolding sort
  sort-Increasing [] d = tt
  sort-Increasing (s ∷ ss) d =
      insert-Increasing s (sort lib ss) (lacks-sort s.key ss ∙ d.0) (sort-Increasing ss d.1)

  find-insert :
      (k : Key) (s : Scope) (ss : List Scope)
      → lacks s.key ss ≡ true
      → find k (insert lib s ss) ≡ (if same_key k s.key then some s else find k ss)
  unfolding insert find
  find-insert k s [] f = refl
  find-insert k s (t ∷ ts) f = ground (
    arith,
    find-insert k s ts,
    same_key_eq k s.key,
    same_key_eq k t.key,
    same_key_refl s.key,
    same_key_sym s.key t.key,
  )

  -- Sorting does not change what is found.
  pub find-sort : (k : Key) (ss : List Scope) → Distinct ss → find k (sort lib ss) ≡ find k ss
  unfolding sort find
  find-sort k [] d = refl
  find-sort k (s ∷ ss) d =
      ground (arith, find-insert k s (sort lib ss) (lacks-sort s.key ss ∙ d.0), find-sort k ss d.1)
