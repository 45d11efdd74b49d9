-- ===== src/GlobalFavorites/Plan/Arguments.antt =====
-- The public entry points: what a successful call has validated.
use ottplay_control_server.Prelude.{
  ℕ, ◌+◌, ◌≡◌, ◌≤◌, subst, sym, ap, ◌&&◌, &&-parts, leb→le, guard-eq-ok, inl, inr, Option, List, [],
  ◌∷◌, length, leb, All, arith, Result, ok, ◌>>=◌, ◌>>◌, guard, Result-cases, >>=-eq-ok,
  ok-injective, length-append,
}
use ottplay_control_server.Json.Value.{Value, str, arr, dict, items, of_items, of_items-items}
use ottplay_control_server.Text.{codes, text_eq_iff}
use ottplay_control_server.GlobalFavorites.Fields.{
  Code, shape, at, document_too_large, invalid_documents,
}
use ottplay_control_server.GlobalFavorites.Document.{
  Document, max_bytes, max_entries, list_value, validate_document, canonical_size,
}
use ottplay_control_server.GlobalFavorites.Document.Valid.{
  IsValid, rows_of, entries_of, validate_document-IsValid, length-validate_document,
}
use ottplay_control_server.GlobalFavorites.Plan.{
  Mode, merge, replace, Plan, read_mode, read_list, read_documents, current_value, plan_valid,
  plan_documents,
}
use ottplay_control_server.GlobalFavorites.Plan.Steps.{all_rows}

-- The bytes of all the documents.
abbrev pub total_size : List Document → ℕ
total_size [] = 0
total_size (d ∷ ds) = canonical_size d + total_size ds

-- The documents are those that the values are validated to, one for each.
abbrev pub Validated : List Value → List Document → Type 0
Validated [] [] = Unit
Validated (v ∷ vs) (d ∷ ds) = (validate_document v ≡ ok d) × Validated vs ds
Validated _ _ = ⊥

record IsRead (values : List Value) (count size : ℕ) (documents : List Document) : Type 0 where
  pub read : Validated values documents
  pub valid : All IsValid documents
  pub few : count + length (all_rows documents) ≤ max_entries
  pub small : size + total_size documents ≤ max_bytes

-- The number of rows that the loop counts for a value.
abbrev row_count : Value → ℕ
row_count v = length (rows_of (entries_of v))

-- The rest of the loop behind one document.
read_rest : Value → List Value → ℕ → ℕ → Result Code (List Document)
read_rest value values count size = do
  document ← validate_document value
  guard (leb (size + canonical_size document) max_bytes) document_too_large
  documents ← read_documents values count (size + canonical_size document)
  ok (document ∷ documents)

read_counted :
    (value : Value) (values : List Value) (count size : ℕ) (out : List Document)
    → read_documents (value ∷ values) count size ≡ ok out
    → (count + row_count value ≤ max_entries)
      × (read_rest value values (count + row_count value) size ≡ ok out)
unfolding read_documents shape at list_value read_rest
read_counted (dict fs) values count size out h = ground arith
read_counted _ values count size out h = absurd (cc)

rest_parts :
    (value : Value) (values : List Value) (count size : ℕ) (out : List Document)
    → read_rest value values count size ≡ ok out
    → (d : Document) × (ds : List Document) × (validate_document value ≡ ok d)
      × (size + canonical_size d ≤ max_bytes)
      × (read_documents values count (size + canonical_size d) ≡ ok ds)
      × (out ≡ d ∷ ds)
unfolding read_rest
rest_parts value values count size out h = elim (Result-cases (validate_document value)) [
  | inr (c, e) ↦ absurd (cc (h, e))
  | inl (d, e) ↦ elim (Result-cases (read_documents values count (size + canonical_size d))) [
    | inr (c, f) ↦ absurd (ground arith)
    | inl (ds, f) ↦ (d, ds, e, ground arith, f, ground arith)
  ]
]

read_documents-IsRead :
    (values : List Value) (count size : ℕ) (out : List Document)
    → count ≤ max_entries
    → size ≤ max_bytes
    → read_documents values count size ≡ ok out
    → IsRead values count size out
unfolding read_documents
read_documents-IsRead [] count size out few small h =
    subst (IsRead [] count size) (ok-injective h)
      (record { read = tt; valid = tt; few = omega arith; small = omega arith })
read_documents-IsRead (value ∷ values) count size out few small h =
    let (room, h') = read_counted value values count size out h in
    let (d, ds, valid, fits, rest, made) =
      rest_parts value values (count + row_count value) size out h' in
    let r = read_documents-IsRead values _ _ ds room fits rest in
    rw made (record {
      read = (valid, r.read);
      valid = (validate_document-IsValid value d valid, r.valid);
      few = omega (
        arith,
        length-validate_document value d valid,
        r.few,
        length-append d.entries (all_rows ds),
      );
      small = omega (arith, r.small);
    })

-- The text of a mode.
abbrev pub mode_value : Mode → Value
mode_value merge = str (codes "merge")
mode_value replace = str (codes "replace")

-- What a plan of these arguments rests on: the mode that is named, the document that the saved value
-- is validated to, and those that the values of the list are validated to.
pub record IsPlanned (current : Option Value) (incoming mode : Value) (plan : Plan) : Type 0 where
  pub chosen : Mode
  pub original : Document
  pub values : List Value
  pub documents : List Document
  pub named : mode ≡ mode_value chosen
  pub listed : incoming ≡ arr (of_items values)
  pub counted : (1 ≤ length values) × (length values ≤ 64)
  pub saved : validate_document (current_value current) ≡ ok original
  pub read : Validated values documents
  pub valid : IsValid original × All IsValid documents
  pub few : length (all_rows documents) ≤ max_entries
  pub small : total_size documents ≤ max_bytes
  pub planned : plan_valid chosen original documents ≡ ok plan

read_mode-eq-ok : (v : Value) (m : Mode) → read_mode v ≡ ok m → v ≡ mode_value m
unfolding read_mode
read_mode-eq-ok (str s) merge h =
    ap str (ground (arith, text_eq_iff s (codes "merge"), text_eq_iff s (codes "replace")))
read_mode-eq-ok (str s) replace h =
    ap str (ground (arith, text_eq_iff s (codes "merge"), text_eq_iff s (codes "replace")))
read_mode-eq-ok _ m h = absurd (cc)

read_list-eq-ok :
    (v : Value) (vs : List Value)
    → read_list v ≡ ok vs
    → (v ≡ arr (of_items vs)) × (1 ≤ length vs) × (length vs ≤ 64)
unfolding read_list
read_list-eq-ok (arr xs) vs h =
    let (_, within, h₁) =
      >>=-eq-ok (guard (leb 1 (length (items xs)) && leb (length (items xs)) 64) invalid_documents)
        _ h in
    let (some_of, few) = &&-parts (leb 1 (length (items xs))) _ (guard-eq-ok _ _ within) in
    let same = ok-injective h₁ in
    subst (λ vs. (arr xs ≡ arr (of_items vs)) × (1 ≤ length vs) × (length vs ≤ 64)) same
      (ap arr (sym (of_items-items xs)), leb→le 1 _ some_of, leb→le _ 64 few)
read_list-eq-ok _ vs h = absurd (cc)

-- A successful call plans, in the mode that is named, with the document that the saved value is
-- validated to and with those that the 1 to 64 values of the list are validated to, one for each; all
-- are valid, and the incoming ones have at most 1000 rows and one MiB of canonical bytes together.
pub plan_documents_validates :
    (current : Option Value) (incoming mode : Value) (plan : Plan)
    → plan_documents current incoming mode ≡ ok plan
    → IsPlanned current incoming mode plan
unfolding plan_documents
plan_documents_validates current incoming mode plan h =
    let (m, moded, h₁) = >>=-eq-ok (read_mode mode) _ h in
    let (values, listed, h₂) = >>=-eq-ok (read_list incoming) _ h₁ in
    let (original, valid, h₃) = >>=-eq-ok (validate_document (current_value current)) _ h₂ in
    let (documents, read, h₄) = >>=-eq-ok (read_documents values 0 0) _ h₃ in
    let r = read_documents-IsRead values 0 0 documents (omega arith) (omega arith) read in
    let (made, low, high) = read_list-eq-ok incoming values listed in
    record {
      chosen = m;
      original = original;
      values = values;
      documents = documents;
      named = read_mode-eq-ok mode m moded;
      listed = made;
      counted = (low, high);
      saved = valid;
      read = r.read;
      valid = (validate_document-IsValid (current_value current) original valid, r.valid);
      few = omega (arith, r.few);
      small = omega (arith, r.small);
      planned = h₄;
    }
