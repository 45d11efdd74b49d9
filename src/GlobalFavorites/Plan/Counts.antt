-- ===== src/GlobalFavorites/Plan/Counts.antt =====
-- The dictionaries that `summarize` builds, and the sums that it takes over them.
use ottplay_control_server.Prelude.{
  ℕ, suc, ◌+◌, ◌≡◌, refl, ap, sym, ◌∙◌, Bool, true, false, not, Option, none, some, List, [], ◌∷◌,
  ◌++◌, map, length, count_if, keep_if, keep_or_not, length-keep_if, count_or_not, count_if_cong,
  count_if-eq-zero, All-keep_if, All-map, Option-cases, inl, inr, map-append, All, arith,
  length-map, append-nil, append_assoc,
}
use ottplay_control_server.Text.{Text, text_eq, text_eq_iff, elem}
use ottplay_control_server.Text.Members.{
  Unique, Unique-middle, count_shared, Unique-apart, Unique-left, All-elem, All-both,
}
use ottplay_control_server.Dict
use ottplay_control_server.Dict.{Dict, has, keys, is_some, put-fresh, elem-keys, lookup-put}
use ottplay_control_server.GlobalFavorites.Entry.{Entry, identity}
use ottplay_control_server.GlobalFavorites.Document.Valid.{identities}
use ottplay_control_server.GlobalFavorites.Plan.{
  positions_from, rows_by_identity, moved_position, changed_title, Summary, summarize,
}
use ottplay_control_server.GlobalFavorites.Plan.Find.{find, find-elem, find-extend}

abbrev pub pairs : List Entry → Dict Entry
pairs = map (λ e. (identity e, e))

keys-append : (d c : Dict Entry) → keys (d ++ c) ≡ keys d ++ keys c
keys-append [] c = refl
keys-append ((k, e) ∷ d) c = ap (◌∷◌ k) (keys-append d c)

rows_by_identity-pairs :
    (es : List Entry) (d : Dict Entry)
    → Unique (keys d ++ identities es)
    → rows_by_identity es d ≡ d ++ pairs es
unfolding rows_by_identity
rows_by_identity-pairs [] d u = sym (append-nil d)
rows_by_identity-pairs (e ∷ es) d u =
    let absent : Dict.lookup (identity e) d ≡ none =
      ground
        (arith, elem-keys (identity e) d, Unique-middle (keys d) (identity e) (identities es) u) in
    let shift = append_assoc (keys d) (identity e ∷ []) (identities es) in
    rw (put-fresh (identity e) e d absent) (
      rows_by_identity-pairs es (d ++ (identity e, e) ∷ []) (rw keys-append (rw shift u))
      ∙ append_assoc d ((identity e, e) ∷ []) (pairs es))

-- The dictionary of rows without a repeated identity has exactly those rows.
pub rows_by_identity_lem :
    (es : List Entry) → Unique (identities es) → rows_by_identity es [] ≡ pairs es
rows_by_identity_lem es u = rows_by_identity-pairs es [] u

pub keys-pairs : (es : List Entry) → keys (pairs es) ≡ identities es
keys-pairs [] = refl
keys-pairs (e ∷ es) = ap (◌∷◌ (identity e)) (keys-pairs es)

pub lookup-pairs : (k : Text) (es : List Entry) → Dict.lookup k (pairs es) ≡ find k es
unfolding Dict.lookup find
lookup-pairs k [] = refl
lookup-pairs k (e ∷ es) = ground (arith, lookup-pairs k es)

length-keys : (d : Dict Entry) → length (keys d) ≡ length d
length-keys [] = refl
length-keys ((k, e) ∷ d) = ap suc (length-keys d)

All-has : (d : Dict Entry) (ks : List Text) → All (λ k. has k d ≡ elem k (keys d)) ks
All-has d [] = tt
All-has d (k ∷ ks) = (sym (elem-keys k d), All-has d ks)

-- What two dictionaries share and what only the second has are all of the second.
shared_or_new :
    (c d : Dict Entry)
    → Unique (keys c)
    → Unique (keys d)
    → length (keep_if (λ k. has k d) (keys c)) + count_if (λ k. not (has k c)) (keys d) ≡ length d
shared_or_new c d u w = omega (
  arith,
  length-keep_if (λ k. has k d) (keys c),
  count_if_cong (λ k. has k d) (λ k. elem k (keys d)) (keys c) (All-has d (keys c)),
  count_shared (keys c) (keys d) u w,
  count_if_cong (λ k. has k c) (λ k. elem k (keys c)) (keys d) (All-has c (keys d)),
  count_or_not (λ k. has k c) (keys d),
  length-keys d,
)

keys-rows_by_identity :
    (es : List Entry) → Unique (identities es) → keys (rows_by_identity es []) ≡ identities es
keys-rows_by_identity es u = ap keys (rows_by_identity_lem es u) ∙ keys-pairs es

-- The counts of a summary are consistent.
pub record IsBalanced (original result : List Entry) (s : Summary) : Type 0 where
  pub before : s.before ≡ length original
  pub after : s.after ≡ length result
  pub lost : s.retained + s.removed ≡ s.before
  pub gained : s.retained + s.added ≡ s.after

pub summarize-IsBalanced :
    (original result : List Entry) (skipped conflicts : ℕ)
    → Unique (identities original)
    → Unique (identities result)
    → IsBalanced original result (summarize original result skipped conflicts)
unfolding summarize
summarize-IsBalanced original result skipped conflicts u w =
    let a = rows_by_identity original [] in
    let b = rows_by_identity result [] in
    record {
      before = ap length (rows_by_identity_lem original u) ∙ length-map _ original;
      after = ap length (rows_by_identity_lem result w) ∙ length-map _ result;
      lost = keep_or_not (λ k. has k b) (keys a) ∙ length-keys a;
      gained =
          shared_or_new a b (rw (keys-rows_by_identity original u) u)
            (rw (keys-rows_by_identity result w) w);
    }

-- A longer document keeps every row of the shorter one, in its place and with its title.
pub record IsKept (s : Summary) : Type 0 where
  pub removed : s.removed ≡ 0
  pub moved : s.moved ≡ 0
  pub title_changes : s.title_changes ≡ 0

positions_from-append :
    (i : ℕ) (es fs : List Entry) (d : Dict ℕ)
    → positions_from i (es ++ fs) d ≡ positions_from (i + length es) fs (positions_from i es d)
unfolding positions_from
positions_from-append i [] fs d =
    let e : i ≡ i + 0 = omega arith in ap (λ k. positions_from k fs d) e
positions_from-append i (e ∷ es) fs d =
    let next = Dict.put (identity e) i d in
    let same : suc i + length es ≡ i + suc (length es) = omega arith in
    positions_from-append (suc i) es fs next
    ∙ ap (λ k. positions_from k fs (positions_from (suc i) es next)) same

lookup-positions_from :
    (k : Text) (i : ℕ) (es : List Entry) (d : Dict ℕ)
    → elem k (identities es) ≡ false
    → Dict.lookup k (positions_from i es d) ≡ Dict.lookup k d
unfolding positions_from elem
lookup-positions_from k i [] d h = refl
lookup-positions_from k i (e ∷ es) d h =
    let other : text_eq (identity e) k ≡ false =
      ground (arith, text_eq_iff (identity e) k, text_eq_iff k (identity e)) in
    lookup-positions_from k (suc i) es (Dict.put (identity e) i d) (ground arith)
    ∙ rw (lookup-put, other)

-- An identity of the shorter document that the further rows do not have.
abbrev Kept : List Entry → List Entry → Text → Type 0
Kept original extra k = (elem k (identities original) ≡ true) × (elem k (identities extra) ≡ false)

module _ (original extra : List Entry) where
  found_in :
      (k : Text) → elem k (identities original) ≡ true → (e : Entry) × (find k original ≡ some e)
  found_in k h = elim (Option-cases (find k original)) [
    | inl absent ↦ absurd (ground (arith, find-elem k original))
    | inr present ↦ present
  ]

  not_removed : (k : Text) → Kept original extra k → not (has k (pairs (original ++ extra))) ≡ false
  not_removed k h =
      let (e, here) = found_in k h.0 in rw (lookup-pairs, find-extend k original extra e here)

  same_title :
      (k : Text)
      → Kept original extra k
      → changed_title (Dict.lookup k (pairs original)) (Dict.lookup k (pairs (original ++ extra)))
        ≡ false
  unfolding changed_title
  same_title k h =
      let (e, here) = found_in k h.0 in
      rw (lookup-pairs k original, here)
        (rw (lookup-pairs k (original ++ extra), find-extend k original extra e here)
          (ground (arith, text_eq_iff e.title e.title)))

  unmoved : (o : Option ℕ) → moved_position o o ≡ false
  unfolding moved_position
  unmoved none = refl
  unmoved (some i) = ground arith

  same_position :
      (k : Text)
      → Kept original extra k
      → moved_position
          (Dict.lookup k (positions_from 0 original []))
          (Dict.lookup k (positions_from 0 (original ++ extra) []))
        ≡ false
  same_position k h = rw (positions_from-append 0 original extra []) (
      rw (lookup-positions_from k (0 + length original) extra (positions_from 0 original []) h.1)
        (unmoved (Dict.lookup k (positions_from 0 original []))))

  All-Kept :
      Unique (identities (original ++ extra)) → All (Kept original extra) (identities original)
  All-Kept u =
      All-both _ _ (identities original) (All-elem (identities original))
        (Unique-apart (identities original) (identities extra) (rw map-append at u))

  -- A test that fails at every kept identity counts nothing.
  count-Kept :
      (p q : Text → Bool)
      → ((k : Text) → Kept original extra k → q k ≡ false)
      → All (Kept original extra) (identities original)
      → count_if q (keep_if p (identities original)) ≡ 0
  count-Kept p q fails all = count_if-eq-zero q (keep_if p (identities original)) (
      All-map (Kept original extra) _ (keep_if p (identities original)) fails
        (All-keep_if p (Kept original extra) (identities original) all))

  pub summarize-IsKept :
      (skipped conflicts : ℕ)
      → Unique (identities (original ++ extra))
      → IsKept (summarize original (original ++ extra) skipped conflicts)
  unfolding summarize
  summarize-IsKept skipped conflicts u =
      let all = All-Kept u in
      rw
        (
          rows_by_identity_lem original
              (Unique-left (identities original) (identities extra) (rw map-append at u)),
          rows_by_identity_lem (original ++ extra) u,
          keys-pairs original,
        )
        (record {
          removed =
              count_if-eq-zero _ (identities original)
                (All-map _ _ (identities original) not_removed all);
          moved = count-Kept _ _ same_position all;
          title_changes = count-Kept _ _ same_title all;
        })
