-- ===== src/LocalFavorites/Valid.antt =====
-- What validation establishes, and that a bundle of valid scopes is read back.
use ottplay_control_server.Prelude.{
  ◌≡◌, refl, sym, ap, ap₂, ◌∙◌, true, not, List, [], ◌∷◌, map, any, ok, guard, guard-eq-ok,
  >>=-eq-ok, ok-injective, arith, All, Bool-cases, inl, inr,
}
use ottplay_control_server.Text.{Text, codes, text_eq}
use ottplay_control_server.Json.Value
use ottplay_control_server.Json.Value.{
  Value, Fields, null, bool, int, float, str, arr, dict, get, items, of_items, items-of_items,
}
use ottplay_control_server.Json.Fields.{is_number, keys_between, list_of}
use ottplay_control_server.LocalFavorites.Bounds.{
  invalid_document, duplicate_scope, Libraries, shape, bounded,
}
use ottplay_control_server.LocalFavorites.References.{references}
use ottplay_control_server.LocalFavorites.Scopes.{
  Key, Scope, same_key, read_key, coverage_ok, channel_lists, list_at, scope_document, read_scopes,
  sort, insert, key_lt, validate_document,
}
use ottplay_control_server.LocalFavorites.Plan.{bundle}
use ottplay_control_server.LocalFavorites.Sorted.{
  lacks, Distinct, Increasing, same_key_eq, same_key_refl, sort-Increasing,
}

-- A dictionary that has a shape is given back.
shape-eq :
    (v : Value) (required optional : List Text) (fs : Fields)
    → shape v required optional ≡ ok fs
    → v ≡ dict fs
unfolding shape
shape-eq (dict fs) required optional gs h =
    let (_, _, h₁) = >>=-eq-ok (guard (keys_between fs required optional) invalid_document) _ h in
    ap dict (ok-injective h₁)
shape-eq null required optional fs h = absurd (cc)
shape-eq (bool _) required optional fs h = absurd (cc)
shape-eq (int _ _) required optional fs h = absurd (cc)
shape-eq (float _) required optional fs h = absurd (cc)
shape-eq (str _) required optional fs h = absurd (cc)
shape-eq (arr _) required optional fs h = absurd (cc)

abbrev fields_in : Value → Fields
fields_in (dict fs) = fs
fields_in _ = Value.end

module _ (lib : Libraries) where
  -- The fields of a scope are read as the scope.
  abbrev pub IsOwn : Scope → Type 0
  IsOwn s = scope_document lib (dict s.fields) ≡ ok s

  scope_document-value : (v : Value) (s : Scope) → scope_document lib v ≡ ok s → v ≡ dict s.fields
  unfolding scope_document
  scope_document-value v s h =
      let (fs, shaped, h₁) = >>=-eq-ok (shape v _ _) _ h in
      let (_, _, h₂) =
        >>=-eq-ok (guard (is_number 1 (get (codes "schema") fs)) invalid_document) _ h₁ in
      let (x, _, h₃) = >>=-eq-ok (read_key (get (codes "scope") fs)) _ h₂ in
      let (_, _, h₄) =
        >>=-eq-ok (guard (coverage_ok (get (codes "coverage") fs)) invalid_document) _ h₃ in
      let (lists, _, h₅) = >>=-eq-ok (channel_lists lib x.0 (get (codes "channelLists") fs)) _ h₄ in
      let (vs, _, h₆) = >>=-eq-ok (list_at (codes "mediaFavorites") fs) _ h₅ in
      let (media, _, h₇) = >>=-eq-ok (references lib x.0 vs) _ h₆ in
      shape-eq v _ _ fs shaped ∙ ap (λ s. dict s.fields) (ok-injective h₇)

  scope_document-IsOwn : (v : Value) (s : Scope) → scope_document lib v ≡ ok s → IsOwn s
  scope_document-IsOwn v s h = rw (scope_document-value v s h) at h

  -- What the loop over the scopes establishes.
  record IsRead (seen : List Key) (ss : List Scope) : Type 0 where
    distinct : Distinct ss
    apart : (k : Key) → any (same_key k) seen ≡ true → lacks k ss ≡ true
    own : All IsOwn ss

  read_scopes-IsRead :
      (vs : List Value) (seen : List Key) (ss : List Scope)
      → read_scopes lib vs seen ≡ ok ss
      → IsRead seen ss
  unfolding read_scopes
  read_scopes-IsRead [] seen ss h =
      rw (sym (ok-injective h)) (record { distinct = tt; apart = λ _ _. refl; own = tt })
  read_scopes-IsRead (v ∷ vs) seen ss h =
      let (s, one, h₁) = >>=-eq-ok (scope_document lib v) _ h in
      let (_, fresh, h₂) =
        >>=-eq-ok (guard (not (any (same_key s.key) seen)) duplicate_scope) _ h₁ in
      let (rest, got, h₃) = >>=-eq-ok (read_scopes lib vs (s.key ∷ seen)) _ h₂ in
      let r = read_scopes-IsRead vs (s.key ∷ seen) rest got in
      let new : not (any (same_key s.key) seen) ≡ true = guard-eq-ok _ _ fresh in
      rw (sym (ok-injective h₃)) (record {
        distinct = (r.apart s.key (ground (arith, same_key_refl s.key)), r.distinct);
        apart = λ k t. apart_from s rest k new t (r.apart k (ground arith));
        own = (scope_document-IsOwn v s one, r.own);
      })
    where
      clash : (k : Key) → not (any (same_key k) seen) ≡ true → any (same_key k) seen ≡ true → ⊥
      clash k a b = ground arith

      apart_from :
          (s : Scope) (rest : List Scope) (k : Key)
          → not (any (same_key s.key) seen) ≡ true
          → any (same_key k) seen ≡ true
          → lacks k rest ≡ true
          → lacks k (s ∷ rest) ≡ true
      apart_from s rest k new t l = elim (Bool-cases (same_key k s.key)) [
        | inl e ↦ absurd (clash s.key new (rw (same_key_eq k s.key e) at t))
        | inr e ↦ ground arith
      ]

  -- Reading the fields of own scopes gives these scopes.
  read_scopes-own :
      (ss : List Scope) (seen : List Key) (zs : List Scope)
      → All IsOwn ss
      → read_scopes lib (map (λ s. dict s.fields) ss) seen ≡ ok zs
      → zs ≡ ss
  unfolding read_scopes
  read_scopes-own [] seen zs own h = sym (ok-injective h)
  read_scopes-own (s ∷ ss) seen zs own h =
      let (t, one, h₁) = >>=-eq-ok (scope_document lib (dict s.fields)) _ h in
      let (_, _, h₂) = >>=-eq-ok (guard (not (any (same_key t.key) seen)) duplicate_scope) _ h₁ in
      let (rest, got, h₃) =
        >>=-eq-ok (read_scopes lib (map (λ s. dict s.fields) ss) (t.key ∷ seen)) _ h₂ in
      let same : t ≡ s = ok-injective (sym one ∙ own.0) in
      sym (ok-injective h₃) ∙ ap₂ (λ x xs. x ∷ xs) same (read_scopes-own ss _ rest own.1 got)

  -- A valid document is sorted from scopes that were read.
  pub record IsSortOf (ss result : List Scope) : Type 0 where
    pub distinct : Distinct ss
    pub own : All IsOwn ss
    pub made : result ≡ sort lib ss

  document_parts :
      (v : Value) (result : List Scope)
      → validate_document lib v ≡ ok result
      → (fs : Fields) × (vs : List Value) × (ss : List Scope) × (v ≡ dict fs)
        × (list_at (codes "scopes") fs ≡ ok vs)
        × (read_scopes lib vs [] ≡ ok ss)
        × (result ≡ sort lib ss)
  unfolding validate_document
  document_parts v result h =
      let (_, _, h₁) = >>=-eq-ok (bounded lib v) _ h in
      let (fs, shaped, h₂) = >>=-eq-ok (shape v _ _) _ h₁ in
      let (_, _, h₃) =
        >>=-eq-ok (guard (is_number 1 (get (codes "version") fs)) invalid_document) _ h₂ in
      let (vs, listed, h₄) = >>=-eq-ok (list_at (codes "scopes") fs) _ h₃ in
      let (ss, got, h₅) = >>=-eq-ok (read_scopes lib vs []) _ h₄ in
      (fs, vs, ss, shape-eq v _ _ fs shaped, listed, got, sym (ok-injective h₅))

  pub validate_document-IsSortOf :
      (v : Value) (result : List Scope)
      → validate_document lib v ≡ ok result
      → (ss : List Scope) × IsSortOf ss result
  validate_document-IsSortOf v result h =
      let (_, vs, ss, _, _, got, made) = document_parts v result h in
      let r = read_scopes-IsRead vs [] ss got in
      (ss, record { distinct = r.distinct; own = r.own; made = made })

  bundle_scopes :
      (ss : List Scope) (fs : Fields) (vs : List Value)
      → bundle ss ≡ dict fs
      → list_at (codes "scopes") fs ≡ ok vs
      → vs ≡ map (λ s. dict s.fields) ss
  unfolding bundle list_at list_of get text_eq
  bundle_scopes ss fs vs e h =
      let same = ap fields_in e in
      let read = ok-injective (rw (sym same) at h) in
      sym read ∙ items-of_items (map (λ s. dict s.fields) ss)

-- An accepted document has its scopes in strictly increasing order of their keys, so no key twice.
pub validate_document-Increasing :
    (lib : Libraries) (v : Value) (result : List Scope)
    → validate_document lib v ≡ ok result
    → Increasing result
validate_document-Increasing lib v result h =
    let (ss, s) = validate_document-IsSortOf lib v result h in
    rw s.made (sort-Increasing lib ss s.distinct)

-- A bundle of own scopes is validated to these scopes, sorted.
pub validate_document-bundle :
    (lib : Libraries) (ss result : List Scope)
    → All (IsOwn lib) ss
    → validate_document lib (bundle ss) ≡ ok result
    → Distinct ss × (result ≡ sort lib ss)
validate_document-bundle lib ss result own h =
    let (fs, vs, zs, same, listed, got, made) = document_parts lib (bundle ss) result h in
    let values = bundle_scopes lib ss fs vs same listed in
    let read : read_scopes lib (map (λ s. dict s.fields) ss) [] ≡ ok zs = rw values at got in
    let e = read_scopes-own lib ss [] zs own read in
    let r = read_scopes-IsRead lib vs [] zs got in (rw e at r.distinct, made ∙ ap (sort lib) e)

All-insert :
    (lib : Libraries) (s : Scope) (ss : List Scope)
    → IsOwn lib s
    → All (IsOwn lib) ss
    → All (IsOwn lib) (insert lib s ss)
unfolding insert
All-insert lib s [] p h = (p, tt)
All-insert lib s (t ∷ ts) p h = elim (Bool-cases (key_lt t.key s.key)) [
  | inl e ↦ rw e (h.0, All-insert lib s ts p h.1)
  | inr e ↦ rw e (p, h)
]

pub All-sort :
    (lib : Libraries) (ss : List Scope) → All (IsOwn lib) ss → All (IsOwn lib) (sort lib ss)
unfolding sort
All-sort lib [] h = tt
All-sort lib (s ∷ ss) h = All-insert lib s (sort lib ss) h.0 (All-sort lib ss h.1)
