-- ===== src/GlobalFavorites/Plan/Find.antt =====
-- The entry that holds an identity, and where the positions dictionary says that it stands.
use ottplay_control_server.Prelude.{
  ℕ, suc, ◌≡◌, ◌<◌, refl, ap, sym, ◌∙◌, false, Option, none, some, List, [], ◌∷◌, ◌++◌,
  if◌then◌else◌, length, get_elem?, get_elem?-append_left, get_elem?-snoc, get_elem?-some, arith,
  Option-cases, Bool-cases, length-append, append-nil, append_assoc, map-append, inl, inr,
}
use ottplay_control_server.Text.{Text, text_eq, text_eq_iff, elem}
use ottplay_control_server.Text.Members.{Unique, Unique-middle}
use ottplay_control_server.Dict
use ottplay_control_server.Dict.{Dict, is_some, lookup-put}
use ottplay_control_server.GlobalFavorites.Entry.{Entry, identity}
use ottplay_control_server.GlobalFavorites.Entry.Identity.{identity_iff}
use ottplay_control_server.GlobalFavorites.Document.Valid.{identities}
use ottplay_control_server.GlobalFavorites.Plan.{positions_from}

-- The first row with an identity.
unfoldable pub find : Text → List Entry → Option Entry
find k [] = none
find k (e ∷ es) = if text_eq (identity e) k then some e else find k es

pub find-identity : (k : Text) (es : List Entry) (e : Entry) → find k es ≡ some e → identity e ≡ k
unfolding find
find-identity k [] e h = absurd (cc)
find-identity k (x ∷ es) e h = ground (arith, find-identity k es e, text_eq_iff (identity x) k)

abbrev pub or_else : Option Entry → Option Entry → Option Entry
or_else (some e) o = some e
or_else none o = o

pub find-append :
    (k : Text) (es fs : List Entry) → find k (es ++ fs) ≡ or_else (find k es) (find k fs)
unfolding find
find-append k [] fs = refl
find-append k (e ∷ es) fs = ground (arith, find-append k es fs)

-- What is found stays found in a longer list.
pub find-extend :
    (k : Text) (es fs : List Entry) (e : Entry) → find k es ≡ some e → find k (es ++ fs) ≡ some e
find-extend k es fs e h = rw (find-append, h)

pub find-elem : (k : Text) (es : List Entry) → elem k (identities es) ≡ is_some (find k es)
unfolding find elem
find-elem k [] = refl
find-elem k (e ∷ es) =
    ground (arith, find-elem k es, text_eq_iff k (identity e), text_eq_iff (identity e) k)

pub find-none : (k : Text) (es : List Entry) → elem k (identities es) ≡ false → find k es ≡ none
find-none k es h = ground (arith, find-elem k es)

pub find_self : (e : Entry) → find (identity e) (e ∷ []) ≡ some e
unfolding find
find_self e = ground (arith, text_eq_iff (identity e) (identity e))

-- Two entries of one identity and one title are equal.
pub same_entry : (a b : Entry) → identity a ≡ identity b → a.title ≡ b.title → a ≡ b
same_entry a b same_identity same_title =
    let (same_locator, same_origin) = (identity_iff a b).0 same_identity in
    λ i. record { locator = same_locator i; origin = same_origin i; title = same_title i }

abbrev at_position : Option ℕ → List Entry → Option Entry
at_position none es = none
at_position (some i) es = get_elem? es i

-- The positions dictionary leads to the entry of each identity.
pub record Tracks (positions : Dict ℕ) (es : List Entry) : Type 0 where
  pub tracked : (k : Text) → at_position (Dict.lookup k positions) es ≡ find k es
  pub bounded : (k : Text) (i : ℕ) → Dict.lookup k positions ≡ some i → i < length es

-- An identity without a position is new, and one with a position is there.
pub Tracks-none :
    {positions : Dict ℕ} {es : List Entry} (k : Text)
    → Tracks positions es
    → Dict.lookup k positions ≡ none
    → find k es ≡ none
Tracks-none {es = es} k t h = sym (t.tracked k) ∙ ap (λ o. at_position o es) h

pub Tracks-some :
    {positions : Dict ℕ} {es : List Entry} (k : Text) (i : ℕ)
    → Tracks positions es
    → Dict.lookup k positions ≡ some i
    → (e : Entry) × (get_elem? es i ≡ some e) × (find k es ≡ some e)
Tracks-some {positions} {es} k i t h =
    let (e, here) = get_elem?-some es i (t.bounded k i h) in
    (e, here, sym (t.tracked k) ∙ ap (λ o. at_position o es) h ∙ here)

pub find-snoc :
    (k : Text) (es : List Entry) (e : Entry)
    → find k es ≡ none
    → find k (es ++ e ∷ []) ≡ (if text_eq (identity e) k then some e else none)
unfolding find
find-snoc k es e h = rw (find-append, h)

-- The other identities keep their places when a row is appended.
at_position-snoc :
    {positions : Dict ℕ} {es : List Entry} (e : Entry) (j : Text)
    → Tracks positions es
    → text_eq (identity e) j ≡ false
    → at_position (Dict.lookup j positions) (es ++ e ∷ []) ≡ find j (es ++ e ∷ [])
at_position-snoc {positions} {es} e j t other = elim (Option-cases (Dict.lookup j positions)) [
  | inl absent ↦ rw (absent, find-snoc j es e (Tracks-none j t absent), other)
  | inr (i, present) ↦
      let (x, here, there) = Tracks-some j i t present in
      rw (present, get_elem?-append_left es (e ∷ []) i (t.bounded j i present), here)
        (sym (find-extend j es (e ∷ []) x there))
]

tracked-put :
    (positions : Dict ℕ) (es : List Entry) (e : Entry) (j : Text)
    → Tracks positions es
    → find (identity e) es ≡ none
    → at_position (Dict.lookup j (Dict.put (identity e) (length es) positions)) (es ++ e ∷ [])
      ≡ find j (es ++ e ∷ [])
tracked-put positions es e j t fresh = elim (Bool-cases (text_eq (identity e) j)) [
  | inl same ↦
      let absent : find j es ≡ none = rw ((text_eq_iff (identity e) j).0 same) at fresh in
      rw (lookup-put, same, get_elem?-snoc, find-snoc j es e absent, same)
  | inr other ↦ rw (lookup-put, other) (at_position-snoc e j t other)
]

bounded-put :
    (positions : Dict ℕ) (es : List Entry) (e : Entry) (j : Text) (i : ℕ)
    → Tracks positions es
    → Dict.lookup j (Dict.put (identity e) (length es) positions) ≡ some i
    → i < length (es ++ e ∷ [])
bounded-put positions es e j i t h = ground (
  arith,
  lookup-put (identity e) j (length es) positions,
  length-append es (e ∷ []),
  t.bounded j i,
)

-- A new row goes to the end, and its position is noted.
pub Tracks-put :
    (positions : Dict ℕ) (es : List Entry) (e : Entry)
    → Tracks positions es
    → find (identity e) es ≡ none
    → Tracks (Dict.put (identity e) (length es) positions) (es ++ e ∷ [])
Tracks-put positions es e t fresh = record {
  tracked = λ j. tracked-put positions es e j t fresh;
  bounded = λ j i h. bounded-put positions es e j i t h;
}

positions-Tracks :
    (done left : List Entry) (d : Dict ℕ)
    → Tracks d done
    → Unique (identities (done ++ left))
    → Tracks (positions_from (length done) left d) (done ++ left)
unfolding positions_from
positions-Tracks done [] d t u = rw append-nil t
positions-Tracks done (e ∷ left) d t u =
    let next = done ++ e ∷ [] in
    let shift : next ++ left ≡ done ++ e ∷ left = append_assoc done (e ∷ []) left in
    let count : length next ≡ suc (length done) = omega (arith, length-append done (e ∷ [])) in
    let fresh : elem (identity e) (identities done) ≡ false =
      Unique-middle (identities done) (identity e) (identities left) (rw map-append at u) in
    let rest =
      positions-Tracks next left (Dict.put (identity e) (length done) d)
        (Tracks-put d done e t (find-none (identity e) done fresh)) (rw shift u) in
    rw (← shift) (rw (← count) rest)

empty_tracked : (k : Text) → at_position (Dict.lookup k []) [] ≡ find k []
unfolding Dict.lookup find
empty_tracked k = refl

empty_bounded : (k : Text) (i : ℕ) → Dict.lookup k [] ≡ some i → i < 0
unfolding Dict.lookup
empty_bounded k i h = cc

-- The positions of rows without a repeated identity lead to each of them.
pub Tracks-positions_from :
    (es : List Entry) → Unique (identities es) → Tracks (positions_from 0 es []) es
Tracks-positions_from es u =
    positions-Tracks [] es []
      (record { tracked = λ k. empty_tracked k; bounded = λ k i h. empty_bounded k i h }) u
