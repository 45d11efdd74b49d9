-- ===== src/GlobalFavorites/Plan/Outcome.antt =====
-- What a plan holds: the selection that the loop ends with, validated.
use ottplay_control_server.Prelude.{
  ℕ, ◌≡◌, ◌≤◌, inl, inr, refl, ap, sym, ◌∙◌, List, [], ◌∷◌, ◌++◌, map, length, All, All-snoc, arith,
  ok, err, Result-cases, ok-injective, ◌==◌, append-nil, append_assoc,
}
use ottplay_control_server.Text.{Text}
use ottplay_control_server.Text.Members.{Unique}
use ottplay_control_server.Dict
use ottplay_control_server.Dict.{has}
use ottplay_control_server.Json.Value.{items-of_items, get}
use ottplay_control_server.GlobalFavorites.Fields.{Code}
use ottplay_control_server.GlobalFavorites.Entry.{Entry}
use ottplay_control_server.GlobalFavorites.Entry.Normal.{IsNormal}
use ottplay_control_server.GlobalFavorites.Entry.AsValue.{entry-as_value}
use ottplay_control_server.GlobalFavorites.Document.{
  Document, empty_size, validate_rows, validate_document, max_entries,
}
use ottplay_control_server.GlobalFavorites.Document.Valid.{
  IsValid, rows_of, entries_of, identities, row_step, validate_document-IsValid, document_rows,
}
use ottplay_control_server.GlobalFavorites.Document.RoundTrip.{document_value, entry_value}
use ottplay_control_server.GlobalFavorites.Plan.{
  Mode, merge, replace, Selection, Plan, start, first_rows, merge_documents, plan_valid, summarize,
}
use ottplay_control_server.GlobalFavorites.Plan.Find.{Tracks-positions_from}
use ottplay_control_server.GlobalFavorites.Plan.Merging.{Outcome, IsSelection}
use ottplay_control_server.GlobalFavorites.Plan.Steps.{
  Steps, done, step, all_rows, merge_documents-Steps,
}

rows_unchanged :
    (left before : List Entry) (seen : List Text) (size : ℕ) (out : List Entry)
    → All IsNormal left
    → validate_rows (map entry_value left) before seen size ≡ ok out
    → out ≡ before ++ left
unfolding validate_rows
rows_unchanged [] before seen size out n h = sym (ok-injective h) ∙ sym (append-nil before)
rows_unchanged (e ∷ left) before seen size out n h =
    let (f, parsed, fits, fresh, rest) =
      row_step (entry_value e) (map entry_value left) before seen size out h in
    let same : e ≡ f = ok-injective (sym (entry-as_value e n.0) ∙ parsed) in
    rows_unchanged left (before ++ f ∷ []) _ _ out n.1 rest
    ∙ append_assoc before (f ∷ []) left
    ∙ ap (λ x. before ++ x ∷ left) (sym same)

rows_of-document_value :
    (d : Document) → rows_of (entries_of (document_value d)) ≡ map entry_value d.entries
unfolding document_value get
rows_of-document_value d = items-of_items (map entry_value d.entries)

-- Validating rows in normal form can fail, and changes nothing where it succeeds.
pub document_unchanged :
    (d r : Document) → All IsNormal d.entries → validate_document (document_value d) ≡ ok r → r ≡ d
document_unchanged d r n h =
    let (few, read) = document_rows (document_value d) r h in
    let same =
      rows_unchanged d.entries [] [] empty_size r.entries n (rw rows_of-document_value at read) in
    λ i. record { entries = same i }

Outcome-IsNormal :
    (row : Entry) (s t : Selection)
    → Outcome row s t
    → IsNormal row
    → All IsNormal s.selected
    → All IsNormal t.selected
Outcome-IsNormal row s t (inl (fresh, room, o)) n h = rw o (All-snoc IsNormal s.selected row h n)
Outcome-IsNormal row s t (inr (inl (there, o))) n h = rw o h
Outcome-IsNormal row s t (inr (inr o)) n h = rw o.same_selected h

pub Steps-IsNormal :
    {rows : List Entry} {s u : Selection}
    → Steps rows s u
    → All IsNormal rows
    → All IsNormal s.selected
    → All IsNormal u.selected
Steps-IsNormal (done v) n h = h
Steps-IsNormal (step {row = row} {s = s} {t = t} v o r) n h =
    Steps-IsNormal r n.1 (Outcome-IsNormal row s t o n.0 h)

All-append : (es fs : List Entry) → All IsNormal es → All IsNormal fs → All IsNormal (es ++ fs)
All-append [] fs h k = k
All-append (e ∷ es) fs h k = (h.0, All-append es fs h.1 k)

pub all_rows-IsNormal :
    (documents : List Document) → All IsValid documents → All IsNormal (all_rows documents)
all_rows-IsNormal [] v = tt
all_rows-IsNormal (d ∷ ds) v =
    All-append d.entries (all_rows ds) v.0.normal (all_rows-IsNormal ds v.1)

start-IsSelection :
    (rows : List Entry)
    → Unique (identities rows)
    → length rows ≤ max_entries
    → IsSelection (start rows)
unfolding start
start-IsSelection rows u few = record {
  tracks = Tracks-positions_from rows u;
  unique = u;
  few = few;
}

pub first_rows-IsSelection :
    (m : Mode) (original : Document)
    → IsValid original
    → IsSelection (start (first_rows m original))
first_rows-IsSelection merge original v = start-IsSelection original.entries v.unique v.few
first_rows-IsSelection replace original v = start-IsSelection [] tt (omega arith)

pub first_rows-IsNormal :
    (m : Mode) (original : Document)
    → IsValid original
    → All IsNormal (start (first_rows m original)).selected
unfolding start
first_rows-IsNormal merge original v = v.normal
first_rows-IsNormal replace original v = tt

-- How a plan was made: the final selection, one step for each incoming row.
pub record Planned (m : Mode) (original : Document) (documents : List Document) (plan : Plan)
    : Type 0 where
  pub final : Selection
  pub steps : Steps (all_rows documents) (start (first_rows m original)) final
  pub entries : plan.document.entries ≡ final.selected
  pub valid : IsValid plan.document
  pub can_commit : plan.can_commit ≡ (length final.conflicts == 0)
  pub summary :
      plan.summary
      ≡ summarize original.entries plan.document.entries final.duplicates (length final.conflicts)

abbrev pub plan_of : Document → Selection → Document → Plan
plan_of original s r = record {
  document = r;
  summary = summarize original.entries r.entries s.duplicates (length s.conflicts);
  title_conflicts = Dict.values s.conflicts;
  can_commit = length s.conflicts == 0;
}

-- The two ends of planning once the loop is through.
pub plan_ok :
    (m : Mode) (original : Document) (documents : List Document) (s : Selection) (r : Document)
    → merge_documents 0 documents (start (first_rows m original)) ≡ ok s
    → validate_document (document_value (record { entries = s.selected })) ≡ ok r
    → plan_valid m original documents ≡ ok (plan_of original s r)
unfolding plan_valid
plan_ok m original documents s r e f = rw (e, plan_valid) (rw f)

pub plan_err :
    (m : Mode) (original : Document) (documents : List Document) (s : Selection) (c : Code)
    → merge_documents 0 documents (start (first_rows m original)) ≡ ok s
    → validate_document (document_value (record { entries = s.selected })) ≡ err c
    → plan_valid m original documents ≡ err c
unfolding plan_valid
plan_err m original documents s c e f = rw (e, plan_valid) (rw f)

Planned-made :
    (m : Mode) (original : Document) (documents : List Document) (plan : Plan) (s : Selection)
    (r : Document)
    → IsValid original
    → All IsValid documents
    → merge_documents 0 documents (start (first_rows m original)) ≡ ok s
    → validate_document (document_value (record { entries = s.selected })) ≡ ok r
    → plan_valid m original documents ≡ ok plan
    → Planned m original documents plan
Planned-made m original documents plan s r v vs e f h =
    let steps =
      merge_documents-Steps 0 documents (start (first_rows m original)) s
        (first_rows-IsSelection m original v) e in
    let normal =
      Steps-IsNormal steps (all_rows-IsNormal documents vs) (first_rows-IsNormal m original v) in
    let same = document_unchanged (record { entries = s.selected }) r normal f in
    let made : plan ≡ plan_of original s r =
      ok-injective (sym h ∙ plan_ok m original documents s r e f) in
    rw made (record {
      final = s;
      steps = steps;
      entries = ap (λ d. d.entries) same;
      valid = validate_document-IsValid _ r f;
      can_commit = refl;
      summary = refl;
    })

-- Every plan is made so.
pub plan_valid-Planned :
    (m : Mode) (original : Document) (documents : List Document) (plan : Plan)
    → IsValid original
    → All IsValid documents
    → plan_valid m original documents ≡ ok plan
    → Planned m original documents plan
unfolding plan_valid
plan_valid-Planned m original documents plan v vs h =
    elim (Result-cases (merge_documents 0 documents (start (first_rows m original)))) [
      | inr (c, e) ↦ absurd (cc (h, e))
      | inl (s, e) ↦
          elim (Result-cases
            (validate_document (document_value (record { entries = s.selected })))) [
              | inr (c, f) ↦ absurd (cc (plan_err m original documents s c e f, h))
              | inl (r, f) ↦ Planned-made m original documents plan s r v vs e f h
            ]
    ]
