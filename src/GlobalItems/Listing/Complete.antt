-- ===== src/GlobalItems/Listing/Complete.antt =====
-- What a listing promises, whatever the transport delivers.
use ottplay_control_server.Prelude.{
  ℕ, suc, ◌+◌, ◌-◌, ◌≡◌, ◌≤◌, refl, sym, ap, ◌∙◌, false, List, [], ◌∷◌, ◌++◌, map, length, Result,
  ok, err, >>=-eq-ok, ok-injective, arith, map-append, Result-cases, inl, inr,
}
use ottplay_control_server.Text.{Text, text_eq, elem}
use ottplay_control_server.Text.Members.{Unique, Unique-snoc}
use ottplay_control_server.Json.Value.{Value, get, items, of_items}
use ottplay_control_server.GlobalFavorites.Fields.{Code}
use ottplay_control_server.GlobalFavorites.Entry.{Entry, parse_entry, identity}
use ottplay_control_server.GlobalFavorites.Entry.Normal.{parse_entry-IsNormal}
use ottplay_control_server.GlobalFavorites.Document.{
  Document, max_bytes, empty_size, comma, canonical_size, validate_document, validate_rows,
}
use ottplay_control_server.GlobalFavorites.Document.Size.{
  entries_size, entry_size, canonical_size-eq, entries_size-snoc,
}
use ottplay_control_server.GlobalFavorites.Document.Valid.{
  IsAccepted, IsAccepted-snoc, identities, row_step, document_rows, rows_of, entries_of,
}
use ottplay_control_server.GlobalItems.Page.{Row, wrapped}
use ottplay_control_server.GlobalItems.Listing.{lift, Collect, comma_of, read_row, read_rows}

-- The entries are the normal forms of the rows, in order.
abbrev pub Reads : List Row → List Entry → Type 0
Reads [] [] = Unit
Reads (row ∷ rows) (e ∷ es) = (parse_entry row.entry ≡ ok e) × Reads rows es
Reads _ _ = ⊥

abbrev pub row_ids : List Row → List Text
row_ids rows = map (λ row. row.id) rows

-- The invariant of the loop.
pub record IsCollected (s : Collect) (es : List Entry) : Type 0 where
  pub reads : Reads s.rows es
  pub accepted : IsAccepted es
  pub keys : s.identities ≡ identities es
  pub ids : s.ids ≡ row_ids s.rows
  pub apart : Unique s.ids
  pub sized : s.size ≡ empty_size + entries_size es

Reads-snoc :
    (rows : List Row) (es : List Entry) (row : Row) (e : Entry)
    → Reads rows es
    → parse_entry row.entry ≡ ok e
    → Reads (rows ++ row ∷ []) (es ++ e ∷ [])
Reads-snoc [] [] row e h p = (p, tt)
Reads-snoc (r ∷ rows) (x ∷ es) row e h p = (h.0, Reads-snoc rows es row e h.1 p)
Reads-snoc [] (x ∷ es) row e h p = absurd h
Reads-snoc (r ∷ rows) [] row e h p = absurd h

pub length-Reads : (rows : List Row) (es : List Entry) → Reads rows es → length rows ≡ length es
length-Reads [] [] h = refl
length-Reads (r ∷ rows) (x ∷ es) h = ap suc (length-Reads rows es h.1)
length-Reads [] (x ∷ es) h = absurd h
length-Reads (r ∷ rows) [] h = absurd h

comma_of-Reads : (rows : List Row) (es : List Entry) → Reads rows es → comma_of rows ≡ comma es
unfolding comma_of
comma_of-Reads [] [] h = refl
comma_of-Reads (r ∷ rows) (x ∷ es) h = refl
comma_of-Reads [] (x ∷ es) h = absurd h
comma_of-Reads (r ∷ rows) [] h = absurd h

single_rows : (v : Value) → rows_of (entries_of (wrapped (v ∷ []))) ≡ v ∷ []
unfolding get text_eq items of_items
single_rows v = refl

last_round :
    (es : List Entry) (seen : List Text) (size : ℕ) (out : List Entry)
    → validate_rows [] es seen size ≡ ok out
    → es ≡ out
unfolding validate_rows
last_round es seen size out h = ok-injective h

-- A document of one row has that row's entry alone.
single_lem :
    (v : Value) (d : Document) (e : Entry)
    → validate_document (wrapped (v ∷ [])) ≡ ok d
    → parse_entry v ≡ ok e
    → canonical_size d - empty_size ≡ entry_size e
single_lem v d e h p =
    let (_, read) = document_rows (wrapped (v ∷ [])) d h in
    let (x, parsed, _, _, rest) =
      row_step v [] [] [] empty_size d.entries (rw single_rows at read) in
    let same : x ≡ e = ok-injective (sym parsed ∙ p) in
    let made : e ∷ [] ≡ d.entries = ap (λ y. y ∷ []) (sym same) ∙ last_round _ _ _ _ rest in
    omega (arith, canonical_size-eq d, ap entries_size made)

lift-eq-ok {ℓ} : {A : Type ℓ} (r : Result Code A) {a : A} → lift r ≡ ok a → r ≡ ok a
unfolding lift
lift-eq-ok (ok a) h = cc
lift-eq-ok (err c) h = absurd (cc)

-- The state behind one more row.
abbrev more : Row → Entry → ℕ → Collect → Collect
more row e added s = record {
  rows = s.rows ++ row ∷ [];
  ids = s.ids ++ row.id ∷ [];
  identities = s.identities ++ identity e ∷ [];
  size = s.size + (added + comma_of s.rows);
}

more-IsCollected :
    (row : Row) (e : Entry) (s : Collect) (es : List Entry)
    → IsCollected s es
    → parse_entry row.entry ≡ ok e
    → elem row.id s.ids ≡ false
    → elem (identity e) s.identities ≡ false
    → s.size + (entry_size e + comma_of s.rows) ≤ max_bytes
    → IsCollected (more row e (entry_size e) s) (es ++ e ∷ [])
more-IsCollected row e s es c parsed new fresh room = record {
  reads = Reads-snoc s.rows es row e c.reads parsed;
  accepted =
      IsAccepted-snoc es e c.accepted (parse_entry-IsNormal row.entry e parsed) (rw c.keys at fresh)
        (omega (arith, c.sized, comma_of-Reads s.rows es c.reads));
  keys = rw (c.keys, map-append) refl;
  ids = rw (c.ids, map-append) refl;
  apart = Unique-snoc s.ids row.id c.apart new;
  sized = omega (arith, c.sized, entries_size-snoc es e, comma_of-Reads s.rows es c.reads);
}

-- What a round that goes on has established.
pub row_round :
    (row : Row) (s t : Collect)
    → read_row row s ≡ ok t
    → (e : Entry) × (d : Document) × (parse_entry row.entry ≡ ok e)
      × (validate_document (wrapped (row.entry ∷ [])) ≡ ok d)
      × (elem row.id s.ids ≡ false)
      × (elem (identity e) s.identities ≡ false)
      × (s.size + (canonical_size d - empty_size + comma_of s.rows) ≤ max_bytes)
      × (t ≡ more row e (canonical_size d - empty_size) s)
unfolding read_row lift
row_round row s t h = elim (Result-cases (parse_entry row.entry)) [
  | inr (c, p) ↦ absurd (cc (h, p))
  | inl (e, p) ↦ elim (Result-cases (validate_document (wrapped (row.entry ∷ [])))) [
    | inr (c, q) ↦ absurd (ground arith)
    | inl (d, q) ↦ (e, d, p, q, ground arith, ground arith, ground arith, ground arith)
  ]
]

read_row-IsCollected :
    (row : Row) (s t : Collect) (es : List Entry)
    → read_row row s ≡ ok t
    → IsCollected s es
    → (e : Entry) × IsCollected t (es ++ e ∷ [])
read_row-IsCollected row s t es h c =
    let (e, d, parsed, one, new, fresh, room, made) = row_round row s t h in
    let size = single_lem row.entry d e one parsed in
    (e, rw (made, size) (more-IsCollected row e s es c parsed new fresh (rw size at room)))

pub read_rows-IsCollected :
    (rows : List Row) (s t : Collect) (es : List Entry)
    → read_rows rows s ≡ ok t
    → IsCollected s es
    → (fs : List Entry) × IsCollected t fs
unfolding read_rows
read_rows-IsCollected [] s t es h c = (es, rw (ok-injective h) at c)
read_rows-IsCollected (row ∷ rows) s t es h c =
    let (u, first, rest) = >>=-eq-ok (read_row row s) _ h in
    let (e, d) = read_row-IsCollected row s u es first c in
    read_rows-IsCollected rows u t (es ++ e ∷ []) rest d
