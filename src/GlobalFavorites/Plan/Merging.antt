-- ===== src/GlobalFavorites/Plan/Merging.antt =====
-- What one row does to the selection, and what the whole merge loop keeps.
use ottplay_control_server.Prelude.{
  ℕ, ◌+◌, ◌≡◌, ◌≢◌, ◌≤◌, ◌<◌, ◌⊎◌, inl, inr, refl, ap, sym, ◌∙◌, true, false, none, some, List, [],
  ◌∷◌, ◌++◌, length, get_elem?, arith, Option-cases, Bool-cases, ok, length-append, map-append,
  append-nil, append_assoc,
}
use ottplay_control_server.Text.{Text, text_eq, text_eq_iff}
use ottplay_control_server.Text.Members.{Unique, Unique-snoc}
use ottplay_control_server.Dict
use ottplay_control_server.Dict.{Dict, has, has-put}
use ottplay_control_server.GlobalFavorites.Entry.{Entry, identity}
use ottplay_control_server.GlobalFavorites.Document.{max_entries}
use ottplay_control_server.GlobalFavorites.Document.Valid.{identities}
use ottplay_control_server.GlobalFavorites.Plan.{Selection, Conflict, meet_row, merge_row}
use ottplay_control_server.GlobalFavorites.Plan.Find.{
  find, find-elem, find-append, find_self, find-identity, same_entry, Tracks, Tracks-none,
  Tracks-some, Tracks-put,
}

-- The three outcomes of a row.
abbrev pub appended : Entry → Selection → Selection
appended row s = record s {
  positions = Dict.put (identity row) (length s.selected) s.positions;
  selected = s.selected ++ row ∷ [];
}

abbrev pub counted : Selection → Selection
counted s = record s { duplicates = s.duplicates + 1 }

-- The row meets an entry with its identity and another title.
pub record Disputes (row : Entry) (s s' : Selection) : Type 0 where
  pub old : Entry
  pub found : find (identity row) s.selected ≡ some old
  pub differs : old.title ≢ row.title
  pub same_selected : s'.selected ≡ s.selected
  pub same_positions : s'.positions ≡ s.positions
  pub same_duplicates : s'.duplicates ≡ s.duplicates
  pub noted : has (identity row) s'.conflicts ≡ true
  pub kept : (k : Text) → has k s.conflicts ≡ true → has k s'.conflicts ≡ true

abbrev pub Outcome : Entry → Selection → Selection → Type 0
Outcome row s s' =
    ((find (identity row) s.selected ≡ none)
      × (length s.selected < max_entries)
      × (s' ≡ appended row s))
    ⊎ (((find (identity row) s.selected ≡ some row) × (s' ≡ counted s)) ⊎ Disputes row s s')

abbrev conflict_at : ℕ → ℕ → ℕ → Conflict
conflict_at p d i = record { existing_index = p; incoming_document = d; incoming_index = i }

append-Outcome :
    (d i : ℕ) (row : Entry) (s s' : Selection)
    → Tracks s.positions s.selected
    → Dict.lookup (identity row) s.positions ≡ none
    → merge_row d i row s ≡ ok s'
    → Outcome row s s'
unfolding merge_row
append-Outcome d i row s s' t absent h =
    inl (Tracks-none (identity row) t absent, ground arith, ground arith)

dispute-Outcome :
    (d i p : ℕ) (row old : Entry) (s s' : Selection)
    → find (identity row) s.selected ≡ some old
    → get_elem? s.selected p ≡ some old
    → text_eq old.title row.title ≡ false
    → meet_row d i row p s ≡ ok s'
    → Disputes row s s'
unfolding meet_row
dispute-Outcome d i p row old s s' found here differs h = record {
  old = old;
  found = found;
  differs = ground (arith, text_eq_iff old.title row.title);
  same_selected = ground arith;
  same_positions = ground arith;
  same_duplicates = ground arith;
  noted = ground (
    arith,
    has-put (identity row) (identity row) (conflict_at p d i) s.conflicts,
    text_eq_iff (identity row) (identity row),
  );
  kept = λ k old. ground (arith, has-put (identity row) k (conflict_at p d i) s.conflicts);
}

count_lem :
    (d i p : ℕ) (row old : Entry) (s s' : Selection)
    → get_elem? s.selected p ≡ some old
    → Dict.lookup (identity row) s.positions ≡ some p
    → text_eq old.title row.title ≡ true
    → merge_row d i row s ≡ ok s'
    → s' ≡ counted s
unfolding merge_row
count_lem d i p row old s s' here present same h = ground arith

pub merge_row-present :
    (d i p : ℕ) (row : Entry) (s : Selection)
    → Dict.lookup (identity row) s.positions ≡ some p
    → merge_row d i row s ≡ meet_row d i row p s
unfolding merge_row
merge_row-present d i p row s present = rw (present, merge_row)

-- Every row is appended, counted as a duplicate, or disputed.
pub merge_row-Outcome :
    (d i : ℕ) (row : Entry) (s s' : Selection)
    → Tracks s.positions s.selected
    → merge_row d i row s ≡ ok s'
    → Outcome row s s'
merge_row-Outcome d i row s s' t h = elim (Option-cases (Dict.lookup (identity row) s.positions)) [
  | inl absent ↦ append-Outcome d i row s s' t absent h
  | inr (p, present) ↦
      let (old, here, found) = Tracks-some (identity row) p t present in
      elim (Bool-cases (text_eq old.title row.title)) [
        | inl same ↦
            let e : old ≡ row =
              same_entry old row (find-identity (identity row) s.selected old found)
                ((text_eq_iff old.title row.title).0 same) in
            inr (inl (rw e at found, count_lem d i p row old s s' here present same h))
        | inr differs ↦ inr (
            inr (
              dispute-Outcome d i p row old s s' found here differs
                (sym (merge_row-present d i p row s present) ∙ h)))
      ]
]

-- What the loop keeps: positions that lead to the rows, no identity twice, and the limit.
pub record IsSelection (s : Selection) : Type 0 where
  pub tracks : Tracks s.positions s.selected
  pub unique : Unique (identities s.selected)
  pub few : length s.selected ≤ max_entries

pub Outcome-IsSelection :
    (row : Entry) (s s' : Selection) → Outcome row s s' → IsSelection s → IsSelection s'
Outcome-IsSelection row s s' (inl (fresh, room, e)) v = rw e (record {
  tracks = Tracks-put s.positions s.selected row v.tracks fresh;
  unique =
      rw map-append
        (Unique-snoc (identities s.selected) (identity row) v.unique (rw find-elem (rw fresh)));
  few = omega (arith, length-append s.selected (row ∷ []));
})
Outcome-IsSelection row s s' (inr (inl (there, e))) v =
    rw e (record { tracks = v.tracks; unique = v.unique; few = v.few })
Outcome-IsSelection row s s' (inr (inr o)) v = record {
  tracks = rw (o.same_selected, o.same_positions) v.tracks;
  unique = rw o.same_selected v.unique;
  few = rw o.same_selected v.few;
}

-- The rows of a later selection begin with those of an earlier one, and no conflict is forgotten.
pub record Extends (s s' : Selection) : Type 0 where
  pub extra : List Entry
  pub longer : s'.selected ≡ s.selected ++ extra
  pub kept : (k : Text) → has k s.conflicts ≡ true → has k s'.conflicts ≡ true

pub Extends-refl : (s : Selection) → Extends s s
Extends-refl s = record { extra = []; longer = sym (append-nil s.selected); kept = λ k h. h }

pub Extends-trans : {a b c : Selection} → Extends a b → Extends b c → Extends a c
Extends-trans {a} {b} {c} x y = record {
  extra = x.extra ++ y.extra;
  longer = y.longer ∙ ap (λ es. es ++ y.extra) x.longer ∙ append_assoc a.selected x.extra y.extra;
  kept = λ k h. y.kept k (x.kept k h);
}

pub Outcome-Extends : (row : Entry) (s s' : Selection) → Outcome row s s' → Extends s s'
Outcome-Extends row s s' (inl (fresh, room, e)) =
    rw e (record { extra = row ∷ []; longer = refl; kept = λ k h. h })
Outcome-Extends row s s' (inr (inl (there, e))) =
    rw e (record { extra = []; longer = sym (append-nil s.selected); kept = λ k h. h })
Outcome-Extends row s s' (inr (inr o)) = record {
  extra = [];
  longer = o.same_selected ∙ sym (append-nil s.selected);
  kept = o.kept;
}

-- An outcome leaves the row's identity in the selection.
pub Outcome-found :
    (row : Entry) (s s' : Selection)
    → Outcome row s s'
    → (e : Entry) × (find (identity row) s'.selected ≡ some e)
Outcome-found row s s' (inl (fresh, room, e)) = (row, rw (e, find-append, fresh) (find_self row))
Outcome-found row s s' (inr (inl (there, e))) = (row, rw e there)
Outcome-found row s s' (inr (inr o)) = (o.old, rw o.same_selected o.found)
