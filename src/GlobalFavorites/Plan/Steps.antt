-- ===== src/GlobalFavorites/Plan/Steps.antt =====
-- The merge loop as a sequence of outcomes, one for each incoming row, and what the sequence gives.
use ottplay_control_server.Prelude.{
  ℕ, suc, ◌+◌, ◌≡◌, ◌⊎◌, inl, inr, refl, subst, ap, sym, ◌∙◌, true, none, some, List, [], ◌∷◌, ◌++◌,
  length, All, arith, ok, Result-cases, Option-cases, ok-injective, length-append,
}
use ottplay_control_server.Text.{Text}
use ottplay_control_server.Dict
use ottplay_control_server.Dict.{has}
use ottplay_control_server.GlobalFavorites.Entry.{Entry, identity}
use ottplay_control_server.GlobalFavorites.Document.{Document}
use ottplay_control_server.GlobalFavorites.Plan.{
  Selection, Conflict, merge_row, merge_rows, merge_documents,
}
use ottplay_control_server.GlobalFavorites.Plan.Find.{
  find, find-extend, find-append, find-snoc, find_self,
}
use ottplay_control_server.GlobalFavorites.Plan.Merging.{
  Outcome, Disputes, IsSelection, Extends, Extends-refl, Extends-trans, Outcome-IsSelection,
  Outcome-Extends, Outcome-found, merge_row-Outcome,
}

-- The rows of all the documents, in the order in which the loop meets them.
abbrev pub all_rows : List Document → List Entry
all_rows [] = []
all_rows (d ∷ ds) = d.entries ++ all_rows ds

pub data Steps : List Entry → Selection → Selection → Type 0 where
  done : {s : Selection} → IsSelection s → Steps [] s s
  step :
      {row : Entry} {rows : List Entry} {s t u : Selection}
      → IsSelection s
      → Outcome row s t
      → Steps rows t u
      → Steps (row ∷ rows) s u

pub Steps-IsSelection : {rows : List Entry} {s u : Selection} → Steps rows s u → IsSelection u
Steps-IsSelection (done v) = v
Steps-IsSelection (step v o r) = Steps-IsSelection r

Steps-append :
    {rows more : List Entry} {s t u : Selection}
    → Steps rows s t
    → Steps more t u
    → Steps (rows ++ more) s u
Steps-append (done v) q = q
Steps-append (step v o r) q = step v o (Steps-append r q)

pub merge_rows-Steps :
    (d i : ℕ) (rows : List Entry) (s u : Selection)
    → IsSelection s
    → merge_rows d i rows s ≡ ok u
    → Steps rows s u
unfolding merge_rows
merge_rows-Steps d i [] s u v h = subst (Steps [] s) (ok-injective h) (done v)
merge_rows-Steps d i (row ∷ rows) s u v h = elim (Result-cases (merge_row d i row s)) [
  | inl (t, e) ↦
      let o = merge_row-Outcome d i row s t v.tracks e in
      step v o (
        merge_rows-Steps d (suc i) rows t u (Outcome-IsSelection row s t o v)
          (rw (e, merge_rows) at h))
  | inr (c, e) ↦ absurd (cc (h, e))
]

pub merge_documents-Steps :
    (d : ℕ) (documents : List Document) (s u : Selection)
    → IsSelection s
    → merge_documents d documents s ≡ ok u
    → Steps (all_rows documents) s u
unfolding merge_documents
merge_documents-Steps d [] s u v h = subst (Steps [] s) (ok-injective h) (done v)
merge_documents-Steps d (document ∷ documents) s u v h =
    elim (Result-cases (merge_rows d 0 document.entries s)) [
      | inl (t, e) ↦
          let rows = merge_rows-Steps d 0 document.entries s t v e in
          Steps-append rows (
            merge_documents-Steps (suc d) documents t u (Steps-IsSelection rows)
              (rw (e, merge_documents) at h))
      | inr (c, e) ↦ absurd (cc (h, e))
    ]

pub Steps-Extends : {rows : List Entry} {s u : Selection} → Steps rows s u → Extends s u
Steps-Extends (done {s = s} v) = Extends-refl s
Steps-Extends (step {row = row} {s = s} {t = t} v o r) =
    Extends-trans (Outcome-Extends row s t o) (Steps-Extends r)

-- Some entry of the rows holds the identity of the row.
abbrev pub Present : List Entry → Entry → Type 0
Present es row = (e : Entry) × (find (identity row) es ≡ some e)

-- The row itself, with its title, is the entry that holds its identity.
abbrev pub Verbatim : List Entry → Entry → Type 0
Verbatim es row = find (identity row) es ≡ some row

found-later :
    (k : Text) {s u : Selection} {e : Entry}
    → Extends s u
    → find k s.selected ≡ some e
    → find k u.selected ≡ some e
found-later k {s} {u} {e} x h = rw x.longer (find-extend k s.selected x.extra e h)

pub Steps-Present :
    {rows : List Entry} {s u : Selection} → Steps rows s u → All (Present u.selected) rows
Steps-Present (done v) = tt
Steps-Present (step {row = row} {s = s} {t = t} v o r) =
    let (e, h) = Outcome-found row s t o in
    ((e, found-later (identity row) (Steps-Extends r) h), Steps-Present r)

no_conflict : (k : Text) → has {V = Conflict} k [] ≡ true → ⊥
unfolding Dict.lookup
no_conflict k h = cc

-- Without a conflict every row stands in the selection as it came, and is appended or counted.
pub Steps-Verbatim :
    {rows : List Entry} {s u : Selection}
    → Steps rows s u
    → u.conflicts ≡ []
    → All (Verbatim u.selected) rows
      × (u.duplicates + length u.selected ≡ s.duplicates + length s.selected + length rows)
Steps-Verbatim (done v) c = (tt, omega arith)
Steps-Verbatim (step {row = row} {s = s} {t = t} v (inl (fresh, room, e)) r) c =
    let (all, count) = Steps-Verbatim r c in
    let there : Verbatim t.selected row = rw (e, find-append, fresh) (find_self row) in
    (
      (found-later (identity row) (Steps-Extends r) there, all),
      omega (
        arith,
        count,
        ap (λ x. x.duplicates) e,
        ap (λ x. length x.selected) e,
        length-append s.selected (row ∷ []),
      ),
    )
Steps-Verbatim (step {row = row} {s = s} {t = t} v (inr (inl (there, e))) r) c =
    let (all, count) = Steps-Verbatim r c in
    (
      (found-later (identity row) (Steps-Extends r) (rw e there), all),
      omega (arith, count, ap (λ x. x.duplicates) e, ap (λ x. length x.selected) e),
    )
Steps-Verbatim (step {row = row} {s = s} {t = t} v (inr (inr o)) r) c =
    absurd (no_conflict (identity row) (rw c at ((Steps-Extends r).kept (identity row) o.noted)))

Disputes-ne-Verbatim :
    {row : Entry} {s t u : Selection} → Disputes row s t → Extends s u → Verbatim u.selected row → ⊥
Disputes-ne-Verbatim {row} o x h =
    let same = found-later (identity row) x o.found in
    let e : o.old ≡ row = cc (same, h) in o.differs (ap (λ x. x.title) e)

-- If every row stands in the result as it came, no conflict is noted.
pub Steps-conflicts :
    {rows : List Entry} {s u : Selection}
    → Steps rows s u
    → All (Verbatim u.selected) rows
    → u.conflicts ≡ s.conflicts
Steps-conflicts (done v) h = refl
Steps-conflicts (step v (inl (fresh, room, e)) r) h =
    Steps-conflicts r h.1 ∙ ap (λ x. x.conflicts) e
Steps-conflicts (step v (inr (inl (there, e))) r) h =
    Steps-conflicts r h.1 ∙ ap (λ x. x.conflicts) e
Steps-conflicts (step {row = row} {s = s} {t = t} v (inr (inr o)) r) h = absurd (
    Disputes-ne-Verbatim o (Extends-trans (Outcome-Extends row s t (inr (inr o))) (Steps-Extends r))
      h.0)

-- `e` is one of the rows.
abbrev pub Occurs : Entry → List Entry → Type 0
Occurs e [] = ⊥
Occurs e (row ∷ rows) = (row ≡ e) ⊎ Occurs e rows

snoc_source :
    (k : Text) (es : List Entry) (row e : Entry)
    → find k es ≡ none
    → find k (es ++ row ∷ []) ≡ some e
    → row ≡ e
snoc_source k es row e absent h = ground (arith, find-snoc k es row absent)

Outcome-sources :
    (row : Entry) (s t : Selection)
    → Outcome row s t
    → (k : Text) (e : Entry) → find k t.selected ≡ some e
    → (find k s.selected ≡ some e) ⊎ (row ≡ e)
Outcome-sources row s t (inl (fresh, room, o)) k e h = elim (Option-cases (find k s.selected)) [
  | inl absent ↦ inr (snoc_source k s.selected row e absent (rw o at h))
  | inr (x, present) ↦
      inl (present ∙ sym (find-extend k s.selected (row ∷ []) x present) ∙ rw o at h)
]
Outcome-sources row s t (inr (inl (there, o))) k e h = inl (rw o at h)
Outcome-sources row s t (inr (inr o)) k e h = inl (rw o.same_selected at h)

-- What the result holds came from the start or from a row, title and all.
pub Steps-sources :
    {rows : List Entry} {s u : Selection}
    → Steps rows s u
    → (k : Text) (e : Entry) → find k u.selected ≡ some e
    → (find k s.selected ≡ some e) ⊎ Occurs e rows
Steps-sources (done v) k e h = inl h
Steps-sources (step {row = row} {s = s} {t = t} v o r) k e h = elim (Steps-sources r k e h) [
  | inr later ↦ inr (inr later)
  | inl here ↦ elim (Outcome-sources row s t o k e here) [
    | inl before ↦ inl before
    | inr now ↦ inr (inl now)
  ]
]
