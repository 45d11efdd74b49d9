-- ===== src/PlayerGroups/Writes.antt =====
-- What `manage` writes: the configuration with one group changed.
use ottplay_control_server.Prelude.{
  ◌≡◌, ◌≤◌, refl, sym, ◌∙◌, ap, Bool, true, false, not, ◌&&◌, Option, none, some, [], ◌∷◌, map,
  length, all, Result, ok, err, ◌>>=◌, guard, guard-eq-ok, >>=-eq-ok, ok-injective, arith,
}
use ottplay_control_server.Text.{Text, codes, text_eq, text_eq_iff, elem}
use ottplay_control_server.Dict
use ottplay_control_server.Dict.{Dict, keys, lookup-put, lookup-remove}
use ottplay_control_server.Json.Value.{Value, Fields, arr, dict, str, of_items}
use ottplay_control_server.PlayerGroups.Names.{
  Api, Message, pairs, name_ok, distinct, groups_ok, groups_value, invalid_groups, group_map,
  group_name, members,
}
use ottplay_control_server.PlayerGroups.Targets.{value_at}
use ottplay_control_server.PlayerGroups.Management.{
  Command, list_groups, show, remove, save, Reply, groups_shown, group_shown, group_saved,
  group_removed, fields_of, with_groups, run, finish, manage, saved_members, save_key, all_members,
  existing,
}

pairs-fields_of : (d : Dict Value) → pairs (fields_of d) ≡ d
unfolding pairs fields_of
pairs-fields_of [] = refl
pairs-fields_of ((k, v) ∷ d) = ap (λ r. (k, v) ∷ r) (pairs-fields_of d)

length-remove-le : (k : Text) (d : Dict Value) → length (Dict.remove k d) ≤ length d
unfolding Dict.remove
length-remove-le k [] = omega arith
length-remove-le k ((j, v) ∷ d) = ground (arith, length-remove-le k d)

all-keys-remove :
    (p : Text → Bool) (k : Text) (d : Dict Value)
    → all p (keys d) ≡ true
    → all p (keys (Dict.remove k d)) ≡ true
unfolding Dict.remove
all-keys-remove p k [] h = refl
all-keys-remove p k ((j, v) ∷ d) h = ground (arith, all-keys-remove p k d)

elem-keys-remove :
    (f : Text → Text) (x k : Text) (d : Dict Value)
    → elem x (map f (keys d)) ≡ false
    → elem x (map f (keys (Dict.remove k d))) ≡ false
unfolding Dict.remove elem
elem-keys-remove f x k [] h = refl
elem-keys-remove f x k ((j, v) ∷ d) h = ground (arith, elem-keys-remove f x k d)

distinct-remove :
    (f : Text → Text) (k : Text) (d : Dict Value)
    → distinct (map f (keys d)) ≡ true
    → distinct (map f (keys (Dict.remove k d))) ≡ true
unfolding Dict.remove distinct
distinct-remove f k [] h = refl
distinct-remove f k ((j, v) ∷ d) h =
    ground (arith, distinct-remove f k d, elem-keys-remove f (f j) k d)

module _ (api : Api) where
  groups_ok-remove :
      (k : Text) (d : Dict Value) → groups_ok api d ≡ true → groups_ok api (Dict.remove k d) ≡ true
  unfolding groups_ok
  groups_ok-remove k d h = ground (
    arith,
    length-remove-le k d,
    all-keys-remove (λ name. name_ok name && not (api.is_command (api.casefold name))) k d,
    distinct-remove api.casefold k d,
  )

  group_map-groups_ok :
      (config groups : Dict Value) → group_map api config ≡ ok groups → groups_ok api groups ≡ true
  unfolding group_map
  group_map-groups_ok config groups h =
      let (found, _, h₁) = >>=-eq-ok (groups_value api (Dict.lookup (codes "groups") config)) _ h in
      let (_, fine, h₂) = >>=-eq-ok (guard (groups_ok api found) invalid_groups) _ h₁ in
      rw (sym (ok-injective h₂)) (guard-eq-ok _ _ fine)

  group_map_put :
      (config groups : Dict Value)
      → groups_ok api groups ≡ true
      → group_map api (with_groups config groups) ≡ ok groups
  unfolding group_map groups_value text_eq
  group_map_put config groups h =
      rw
        (
          lookup-put (codes "groups") (codes "groups") (dict (fields_of groups)) config,
          pairs-fields_of groups,
          h,
        )
        refl

  put_checked :
      (changed checked : Dict Value)
      → group_map api ((codes "groups", dict (fields_of changed)) ∷ []) ≡ ok checked
      → groups_ok api changed ≡ true
  unfolding group_map groups_value text_eq Dict.lookup Dict.put
  put_checked changed checked h =
      let (_, fine, _) =
        >>=-eq-ok (guard (groups_ok api changed) invalid_groups) _
          (rw (pairs-fields_of changed) at h) in
      guard-eq-ok _ _ fine

-- No group but this one differs.
abbrev pub OthersKept : Text → Dict Value → Dict Value → Type 0
OthersKept key before after =
    (j : Text) → text_eq key j ≡ false → Dict.lookup j after ≡ Dict.lookup j before

-- What a reply says of the groups before and after.
abbrev pub Effect : Reply → Dict Value → Dict Value → Type 0
Effect (group_saved key names) before after =
    (Dict.lookup key after ≡ some (arr (of_items (map str names)))) × OthersKept key before after
Effect (group_removed key) before after =
    (Dict.lookup key after ≡ none) × OthersKept key before after
Effect (groups_shown _) before after = ⊥
Effect (group_shown _ _) before after = ⊥

-- The groups behind a write are valid and as the reply says, and no other entry of the configuration
-- differs.
pub record Written (api : Api) (reply : Reply) (config new : Dict Value) : Type 0 where
  pub before : Dict Value
  pub after : Dict Value
  pub read : group_map api config ≡ ok before
  pub valid : group_map api new ≡ ok after
  pub effect : Effect reply before after
  pub kept :
      (j : Text) → text_eq (codes "groups") j ≡ false → Dict.lookup j new ≡ Dict.lookup j config

lookup_same : (k : Text) (v : Value) (d : Dict Value) → Dict.lookup k (Dict.put k v d) ≡ some v
lookup_same k v d = ground (arith, lookup-put k k v d, text_eq_iff k k)

others-put : (k : Text) (v : Value) (d : Dict Value) → OthersKept k d (Dict.put k v d)
others-put k v d j h = lookup-put k j v d ∙ rw h refl

lookup_removed : (k : Text) (d : Dict Value) → Dict.lookup k (Dict.remove k d) ≡ none
lookup_removed k d = ground (arith, lookup-remove k k d, text_eq_iff k k)

others-remove : (k : Text) (d : Dict Value) → OthersKept k d (Dict.remove k d)
others-remove k d j h = lookup-remove k j d ∙ rw h refl

finish_lem :
    (unchanged : Bool) (config : Dict Value) (done : Reply × Option (Dict Value)) (reply : Reply)
    (new : Dict Value)
    → finish unchanged config done ≡ ok (reply, some new)
    → (after : Dict Value) × (done ≡ (reply, some after))
      × (unchanged ≡ true)
      × (new ≡ with_groups config after)
unfolding finish
finish_lem unchanged config (said, none) reply new h = absurd (cc)
finish_lem true config (said, some after) reply new h = (after, cc, refl, cc)
finish_lem false config (said, some after) reply new h = absurd (cc)

reads_only {ℓ} :
    {A : Type ℓ} (m : Result Message A) (f : A → Reply) (reply : Reply) (after : Dict Value)
    → ◌>>=◌ {Y = Reply × Option (Dict Value)} m (λ a. ok (f a, none)) ≡ ok (reply, some after)
    → ⊥
reads_only (ok a) f reply after h = cc
reads_only (err e) f reply after h = cc

answers :
    (said reply : Reply) (new after : Dict Value)
    → ◌≡◌ {A = Result Message (Reply × Option (Dict Value))}
        (ok (said, some new))
        (ok (reply, some after))
    → (said ≡ reply) × (new ≡ after)
answers said reply new after h = (cc, cc)

module _ (api : Api) (config : Dict Value) where
  run-Effect :
      (groups after : Dict Value) (c : Command) (reply : Reply)
      → groups_ok api groups ≡ true
      → run api config groups c ≡ ok (reply, some after)
      → (groups_ok api after ≡ true) × Effect reply groups after
  unfolding run
  run-Effect groups after list_groups reply g h =
      absurd (reads_only (all_members api groups) groups_shown reply after h)
  run-Effect groups after (show name) reply g h =
      let (found, _, h₁) = >>=-eq-ok (group_name api config name) _ h in
      let (key, _, h₂) = >>=-eq-ok (existing found) _ h₁ in
      absurd (
        reads_only (members api (value_at api key groups)) (λ names. group_shown key names) reply
          after h₂)
  run-Effect groups after (remove name) reply g h =
      let (found, _, h₁) = >>=-eq-ok (group_name api config name) _ h in
      let (key, _, h₂) = >>=-eq-ok (existing found) _ h₁ in
      let (said, new) = answers (group_removed key) reply (Dict.remove key groups) after h₂ in
      rw (sym said, sym new)
        (groups_ok-remove api key groups g, (lookup_removed key groups, others-remove key groups))
  run-Effect groups after (save add name words) reply g h =
      let (key, _, h₁) = >>=-eq-ok (save_key api config add name) _ h in
      let (names, _, h₂) = >>=-eq-ok (saved_members api config words) _ h₁ in
      let changed = Dict.put key (arr (of_items (map str names))) groups in
      let (checked, c, h₃) =
        >>=-eq-ok (group_map api ((codes "groups", dict (fields_of changed)) ∷ [])) _ h₂ in
      let (said, new) = answers (group_saved key names) reply changed after h₃ in
      rw (sym said, sym new)
        (put_checked api changed checked c, (lookup_same key _ groups, others-put key _ groups))

-- A write happens only where the second reading gave the same configuration. It keeps every other
-- entry of the configuration, its groups are valid, and it changes only the group that the reply
-- names: a saved group holds the reply's members, and a removed one is gone.
pub manage-Written :
    (api : Api) (unchanged : Bool) (fs : Fields) (c : Command) (reply : Reply) (new : Dict Value)
    → manage api unchanged (dict fs) c ≡ ok (reply, some new)
    → (unchanged ≡ true) × Written api reply (pairs fs) new
unfolding manage
manage-Written api unchanged fs c reply new h =
    let (groups, g, h₁) = >>=-eq-ok (group_map api (pairs fs)) _ h in
    let (done, r, h₂) = >>=-eq-ok (run api (pairs fs) groups c) _ h₁ in
    let (after, made, same, wrote) = finish_lem unchanged (pairs fs) done reply new h₂ in
    let (fine, effect) =
      run-Effect api (pairs fs) groups after c reply (group_map-groups_ok api (pairs fs) groups g)
        (r ∙ ap ok made) in
    (
      same,
      record {
        before = groups;
        after = after;
        read = g;
        valid = rw wrote (group_map_put api (pairs fs) after fine);
        effect = effect;
        kept = λ j other. rw wrote (lookup-put (codes "groups") j _ (pairs fs) ∙ rw other refl);
      },
    )
