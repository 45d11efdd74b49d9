-- ===== src/PlayerGroups/Devices.antt =====
-- What `targets` dispatches to: every expanded name's device, each of them once.
use ottplay_control_server.Prelude.{
  ◌≡◌, ◌≤◌, sym, ap, subst, ◌∙◌, Bool, true, false, Option, none, some, List, [], ◌∷◌, ◌++◌, map,
  leb, if◌then◌else◌, length, all, ltb, append-nil, All, All-map, Result, ok, err, ◌>>=◌, guard,
  arith, Result-cases, Bool-cases, ok-injective, inl, inr, >>=-eq-ok, leb→le,
}
use ottplay_control_server.Text.{Text, codes, split, elem}
use ottplay_control_server.Text.Members.{Unique, apart_from_cons, elem-move, elem-right, elem_head}
use ottplay_control_server.Dict.{Dict, lookup}
use ottplay_control_server.Json.Value.{Value, str}
use ottplay_control_server.PlayerGroups.Names.{
  Api, Message, empty_name, too_many_names, group_map, group_name,
}
use ottplay_control_server.PlayerGroups.Targets.{
  Client, expand, expand_name, is_identity, expand_selector, single, aliases_of, list_of,
  device_ids, resolve, device_text, select, targets,
}

abbrev pub devices : List (Text × Text) → List Text
devices [] = []
devices ((n, d) ∷ rows) = d ∷ devices rows

module _ (api : Api) (device : Text → Result Message Value) where
  text_value : (v : Value) (d : Text) → device_text api v ≡ ok d → v ≡ str d
  unfolding device_text
  text_value v d h = ground arith

  -- One name of the loop.
  resolve_step :
      (name : Text) (names seen : List Text) (out : List (Text × Text))
      → resolve api device (name ∷ names) seen ≡ ok out
      → (d : Text) × (rest : List (Text × Text)) × (device name ≡ ok (str d))
        × (resolve api device names (if elem d seen then seen else d ∷ seen) ≡ ok rest)
        × (out ≡ (if elem d seen then rest else (name, d) ∷ rest))
  unfolding resolve
  resolve_step name names seen out h = elim (Result-cases (device name)) [
    | inr (c, e) ↦ absurd (cc (h, e))
    | inl (v, e) ↦ elim (Result-cases (device_text api v)) [
      | inr (c, f) ↦ absurd (cc (h, e, f))
      | inl (d, f) ↦
          elim (Result-cases (resolve api device names (if elem d seen then seen else d ∷ seen))) [
            | inr (c, g) ↦ absurd (cc (h, e, f, g))
            | inl (rest, g) ↦ (d, rest, e ∙ ap ok (text_value v d f), g, sym (cc (h, e, f, g)))
          ]
    ]
  ]

  record Resolved (names seen : List Text) (out : List (Text × Text)) : Type 0 where
    pub once : Unique (devices out)
    pub apart : All (λ d. elem d seen ≡ false) (devices out)
    pub covers :
        All
          (λ n. (d : Text) × (device n ≡ ok (str d)) × (elem d (devices out ++ seen) ≡ true))
          names
    pub own : All (λ row. device row.0 ≡ ok (str row.1)) out
    pub short : length out ≤ length names

  resolve-Resolved :
      (names seen : List Text) (out : List (Text × Text))
      → resolve api device names seen ≡ ok out
      → Resolved names seen out
  unfolding resolve
  resolve-Resolved [] seen out h =
      subst (Resolved [] seen) (ok-injective h)
        (record { once = tt; apart = tt; covers = tt; own = tt; short = omega arith })
  resolve-Resolved (name ∷ names) seen out h =
      let (d, rest, found, run, made) = resolve_step name names seen out h in
      elim (Bool-cases (elem d seen)) [
        | inl old ↦
            let r = resolve-Resolved names seen rest (rw old at run) in
            rw (made, old)
              (record {
                once = r.once;
                apart = r.apart;
                covers = ((d, found, elem-right d (devices rest) seen old), r.covers);
                own = r.own;
                short = omega (arith, r.short);
              })
        | inr new ↦
            let r = resolve-Resolved names (d ∷ seen) rest (rw new at run) in
            let (out_d, apart) = apart_from_cons d seen (devices rest) r.apart in
            rw (made, new)
              (record {
                once = (out_d, r.once);
                apart = (new, apart);
                covers = (
                  (d, found, elem_head d (devices rest ++ seen)),
                  All-map _ _ names (λ n c. (c.0, c.1, elem-move c.0 d (devices rest) seen c.2))
                      r.covers,
                );
                own = (found, r.own);
                short = omega (arith, r.short);
              })
      ]

  expand-le :
      (client : Client) (groups : Dict Value) (identity : Text → Bool)
      (names before out : List Text)
      → length before ≤ 64
      → expand api client.config groups identity names before ≡ ok out
      → length out ≤ 64
  unfolding expand
  expand-le client groups identity [] before out few h = ground arith
  expand-le client groups identity (name ∷ names) before out few h =
      elim (Result-cases (expand_name api client.config groups identity name)) [
        | inr (c, e) ↦ absurd (cc (h, e))
        | inl (more, e) ↦ elim (Bool-cases (leb (length (before ++ more)) 64)) [
          | inr over ↦ absurd (ground arith)
          | inl fits ↦
              expand-le client groups identity names (before ++ more) out (leb→le _ _ fits)
                (ground arith)
        ]
      ]

-- What a dispatch list promises, for the names of the selector: at most 64 rows with distinct
-- devices, each the device of its name, and every name of the expansion with its device among them.
pub record Dispatch (api : Api) (client : Client) (names : List Text) (rows : List (Text × Text))
    : Type 0 where
  pub once : Unique (devices rows)
  pub few : length rows ≤ 64
  pub own : All (λ row. client.device row.0 ≡ ok (str row.1)) rows
  pub groups : Dict Value
  pub configured : group_map api client.config ≡ ok groups
  pub identity : Text → Bool
  pub expanded : List Text
  pub expansion : expand api client.config groups identity names [] ≡ ok expanded
  pub covers :
      All
        (λ n. (d : Text) × (client.device n ≡ ok (str d)) × (elem d (devices rows) ≡ true))
        expanded

select-Dispatch :
    (api : Api) (client : Client) (selector : Text) (names : List Text) (aliases : Dict Value)
    (ids : List Value) (rows : List (Text × Text))
    → select api client selector names aliases ids ≡ ok rows
    → Dispatch api client names rows
unfolding select
select-Dispatch api client selector names aliases ids rows h =
    let (_, _, h₁) = >>=-eq-ok (guard (all (λ name. ltb 0 (length name)) names) empty_name) _ h in
    let (_, _, h₂) = >>=-eq-ok (guard (leb (length names) 64) too_many_names) _ h₁ in
    let (groups, g, h₃) = >>=-eq-ok (group_map api client.config) _ h₂ in
    let (expanded, e, h₄) =
      >>=-eq-ok (expand api client.config groups (is_identity api aliases ids) names []) _ h₃ in
    let r = resolve-Resolved api client.device expanded [] rows h₄ in
    let few =
      expand-le api client.device client groups (is_identity api aliases ids) names [] expanded
        (omega arith) e in
    record {
      once = r.once;
      few = omega (arith, r.short);
      own = r.own;
      groups = groups;
      configured = g;
      identity = is_identity api aliases ids;
      expanded = expanded;
      expansion = e;
      covers = All-map _ _ expanded (λ n c. (c.0, c.1, rw append-nil at c.2)) r.covers;
    }

some_rows :
    (r : Result Message (List (Text × Text))) (rows : List (Text × Text))
    → (do pairs ← r; ok (some pairs)) ≡ ok (some rows)
    → r ≡ ok rows
some_rows (ok a) rows h = ground arith
some_rows (err e) rows h = absurd (cc)

module _ (api : Api) {rows : List (Text × Text)} where
  not_none :
      (b : Bool) (r : Result Message (Option (List (Text × Text))))
      → (if b then ok none else r) ≡ ok (some rows)
      → r ≡ ok (some rows)
  not_none b r h = ground arith

  not_single :
      (b : Bool) (group : Option Text) (r : Result Message (Option (List (Text × Text))))
      → (if b then single api group else r) ≡ ok (some rows)
      → r ≡ ok (some rows)
  unfolding single
  not_single b group r h = ground arith

expanded-Dispatch :
    (api : Api) (client : Client) (selector : Text) (group : Option Text)
    (rows : List (Text × Text))
    → expand_selector api client selector group ≡ ok (some rows)
    → Dispatch api client (map api.strip (split b',' selector)) rows
unfolding expand_selector
expanded-Dispatch api client selector group rows h =
    let (aliases, _, h₁) = >>=-eq-ok (aliases_of (lookup (codes "players") client.config)) _ h in
    let (devices, _, h₂) = >>=-eq-ok (list_of client.devices) _ h₁ in
    let (ids, _, h₃) = >>=-eq-ok (device_ids devices) _ h₂ in
    let h₄ = not_single api (is_identity api aliases ids selector) group _ h₃ in
    select-Dispatch api client selector _ aliases ids rows (some_rows _ rows h₄)

-- A selector that is expanded yields at most 64 rows with distinct devices; each row's device is
-- what the client resolves its name to, and every expanded name's device is among them.
pub targets-Dispatch :
    (api : Api) (client : Client) (selector : Text) (rows : List (Text × Text))
    → targets api client selector ≡ ok (some rows)
    → Dispatch api client (map api.strip (split b',' selector)) rows
unfolding targets
targets-Dispatch api client selector rows h =
    let (group, _, h₁) = >>=-eq-ok (group_name api client.config selector) _ h in
    expanded-Dispatch api client selector group rows (not_none api _ _ h₁)
