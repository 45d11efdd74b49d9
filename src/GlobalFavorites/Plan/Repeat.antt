-- ===== src/GlobalFavorites/Plan/Repeat.antt =====
-- Plans that must succeed: a merge that was committed and is planned again, and a replacement by
-- one document.
use ottplay_control_server.Prelude.{
  ℕ, suc, ◌+◌, ◌≡◌, ◌≤◌, ◌<◌, inl, inr, refl, ap, sym, ◌∙◌, true, none, some, List, [], ◌∷◌, ◌++◌,
  length, get_elem?, All, arith, ok, Option-cases, length-append, append-nil, append_assoc,
}
use ottplay_control_server.Text.{text_eq_iff}
use ottplay_control_server.Text.Members.{Unique}
use ottplay_control_server.Dict
use ottplay_control_server.GlobalFavorites.Entry.{Entry, identity}
use ottplay_control_server.GlobalFavorites.Document.{Document, max_entries}
use ottplay_control_server.GlobalFavorites.Document.Valid.{IsValid, identities}
use ottplay_control_server.GlobalFavorites.Document.RoundTrip.{validate-document_value, fresh_row}
use ottplay_control_server.GlobalFavorites.Plan.{
  merge, replace, Selection, Plan, start, meet_row, merge_row, merge_rows, merge_documents,
  plan_valid, summarize,
}
use ottplay_control_server.GlobalFavorites.Plan.Find.{
  find, find-none, Tracks, Tracks-none, Tracks-some,
}
use ottplay_control_server.GlobalFavorites.Plan.Merging.{
  IsSelection, Outcome-IsSelection, appended, counted, merge_row-present,
}
use ottplay_control_server.GlobalFavorites.Plan.Steps.{all_rows, Verbatim}
use ottplay_control_server.GlobalFavorites.Plan.Outcome.{
  plan_valid-Planned, plan_ok, plan_of, first_rows-IsSelection,
}
use ottplay_control_server.GlobalFavorites.Plan.Merge.{plan-can_commit_iff}

meet-Verbatim :
    (d i p : ℕ) (row : Entry) (s : Selection)
    → get_elem? s.selected p ≡ some row
    → meet_row d i row p s ≡ ok (counted s)
unfolding meet_row
meet-Verbatim d i p row s here = ground (arith, text_eq_iff row.title row.title)

row-Verbatim :
    (d i : ℕ) (row : Entry) (s : Selection)
    → Tracks s.positions s.selected
    → Verbatim s.selected row
    → merge_row d i row s ≡ ok (counted s)
row-Verbatim d i row s t h = elim (Option-cases (Dict.lookup (identity row) s.positions)) [
  | inl absent ↦ absurd (cc (Tracks-none (identity row) t absent, h))
  | inr (p, present) ↦
      let (old, here, found) = Tracks-some (identity row) p t present in
      let same : old ≡ row = cc (found, h) in
      merge_row-present d i p row s present ∙ meet-Verbatim d i p row s (rw same at here)
]

abbrev counted_by : ℕ → Selection → Selection
counted_by n s = record s { duplicates = s.duplicates + n }

counted-counted_by : (n : ℕ) (s : Selection) → counted_by n (counted s) ≡ counted_by (suc n) s
counted-counted_by n s =
    let e : s.duplicates + 1 + n ≡ s.duplicates + suc n = omega arith in
    ap (λ k. record s { duplicates = k }) e

rows-Verbatim :
    (d i : ℕ) (rows : List Entry) (s : Selection)
    → Tracks s.positions s.selected
    → All (Verbatim s.selected) rows
    → merge_rows d i rows s ≡ ok (counted_by (length rows) s)
unfolding merge_rows
rows-Verbatim d i [] s t h =
    let e : s.duplicates ≡ s.duplicates + 0 = omega arith in
    ap (λ k. ok (record s { duplicates = k })) e
rows-Verbatim d i (row ∷ rows) s t h =
    rw (row-Verbatim d i row s t h.0)
      (rows-Verbatim d (suc i) rows (counted s) t h.1 ∙ ap ok (counted-counted_by (length rows) s))

All-split :
    (es : List Entry) (rows more : List Entry)
    → All (Verbatim es) (rows ++ more)
    → All (Verbatim es) rows × All (Verbatim es) more
All-split es [] more h = (tt, h)
All-split es (row ∷ rows) more h = let (a, b) = All-split es rows more h.1 in ((h.0, a), b)

counted_by-add : (n k : ℕ) (s : Selection) → counted_by k (counted_by n s) ≡ counted_by (n + k) s
counted_by-add n k s =
    let e : s.duplicates + n + k ≡ s.duplicates + (n + k) = omega arith in
    ap (λ j. record s { duplicates = j }) e

documents-Verbatim :
    (d : ℕ) (documents : List Document) (s : Selection)
    → Tracks s.positions s.selected
    → All (Verbatim s.selected) (all_rows documents)
    → merge_documents d documents s ≡ ok (counted_by (length (all_rows documents)) s)
unfolding merge_documents
documents-Verbatim d [] s t h =
    let e : s.duplicates ≡ s.duplicates + 0 = omega arith in
    ap (λ k. ok (record s { duplicates = k })) e
documents-Verbatim d (document ∷ documents) s t h =
    let (here, later) = All-split s.selected document.entries (all_rows documents) h in
    let n = length document.entries in
    rw (rows-Verbatim d 0 document.entries s t here) (
      documents-Verbatim (suc d) documents (counted_by n s) t later
      ∙ ap ok (
          counted_by-add n (length (all_rows documents)) s
          ∙ ap (λ k. counted_by k s) (sym (length-append document.entries (all_rows documents)))))

-- Planning a committed merge again, with its result as the destination, succeeds, changes nothing
-- and counts every incoming row as a duplicate.
pub merge_again :
    (original : Document) (documents : List Document) (plan : Plan)
    → IsValid original
    → All IsValid documents
    → plan_valid merge original documents ≡ ok plan
    → plan.can_commit ≡ true
    → (again : Plan) × (plan_valid merge plan.document documents ≡ ok again)
      × (again.document ≡ plan.document)
      × (again.can_commit ≡ true)
      × (again.summary.skipped_duplicates ≡ length (all_rows documents))
unfolding start summarize
merge_again original documents plan v vs h commit =
    let p = plan_valid-Planned merge original documents plan v vs h in
    let rows = (plan-can_commit_iff merge original documents plan v vs h).0 commit in
    let first = start plan.document.entries in
    let t = (first_rows-IsSelection merge plan.document p.valid).tracks in
    let run = documents-Verbatim 0 documents first t rows in
    (
      plan_of plan.document (counted_by (length (all_rows documents)) first) plan.document,
      plan_ok merge plan.document documents _ plan.document run
          (validate-document_value plan.document p.valid),
      refl,
      refl,
      omega arith,
    )

row_appended :
    (d i : ℕ) (row : Entry) (s : Selection)
    → Tracks s.positions s.selected
    → find (identity row) s.selected ≡ none
    → length s.selected < max_entries
    → merge_row d i row s ≡ ok (appended row s)
unfolding merge_row
row_appended d i row s t fresh room = elim (Option-cases (Dict.lookup (identity row) s.positions)) [
  | inl absent ↦ ground arith
  | inr (p, present) ↦
      let (old, here, found) = Tracks-some (identity row) p t present in absurd (cc (found, fresh))
]

-- The loop over rows with identities that are new to the selection and to one another.
record Appends (d i : ℕ) (rows : List Entry) (s : Selection) : Type 0 where
  final : Selection
  run : merge_rows d i rows s ≡ ok final
  selected : final.selected ≡ s.selected ++ rows
  conflicts : final.conflicts ≡ s.conflicts
  duplicates : final.duplicates ≡ s.duplicates

rows_appended :
    (d i : ℕ) (rows : List Entry) (s : Selection)
    → IsSelection s
    → Unique (identities (s.selected ++ rows))
    → length (s.selected ++ rows) ≤ max_entries
    → Appends d i rows s
unfolding merge_rows
rows_appended d i [] s v u few = record {
  final = s;
  run = refl;
  selected = sym (append-nil s.selected);
  conflicts = refl;
  duplicates = refl;
}
rows_appended d i (row ∷ rows) s v u few =
    let fresh = find-none (identity row) s.selected (fresh_row s.selected row rows u) in
    let room : length s.selected < max_entries =
      omega (arith, length-append s.selected (row ∷ rows)) in
    let now = row_appended d i row s v.tracks fresh room in
    let shift = append_assoc s.selected (row ∷ []) rows in
    let rest =
      rows_appended d (suc i) rows (appended row s)
        (Outcome-IsSelection row s (appended row s) (inl (fresh, room, refl)) v) (rw shift u)
        (rw shift few) in
    record {
      final = rest.final;
      run = rw now rest.run;
      selected = rest.selected ∙ shift;
      conflicts = rest.conflicts;
      duplicates = rest.duplicates;
    }

-- A replacement by one valid document always succeeds: the plan is that document, and it can be
-- committed.
pub replace_by_one :
    (original document : Document)
    → IsValid original
    → IsValid document
    → (plan : Plan) × (plan_valid replace original (document ∷ []) ≡ ok plan)
      × (plan.document ≡ document)
      × (plan.can_commit ≡ true)
unfolding merge_documents start
replace_by_one original document v w =
    let a =
      rows_appended 0 0 document.entries (start []) (first_rows-IsSelection replace original v)
        w.unique w.few in
    let same : record { entries = a.final.selected } ≡ document =
      λ i. record { entries = a.selected i } in
    (
      plan_of original a.final document,
      plan_ok replace original (document ∷ []) a.final document (rw a.run)
          (rw same (validate-document_value document w)),
      refl,
      rw a.conflicts,
    )
