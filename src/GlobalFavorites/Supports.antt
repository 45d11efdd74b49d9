-- ===== src/GlobalFavorites/Supports.antt =====
-- What `supports` answers, for a valid document and a list of texts.
use ottplay_control_server.Prelude.{
  ◌↔◌, sym, inl, inr, Option-cases, Result-cases, ◌≡◌, refl, ap, ◌∙◌, Bool, true, false, not, ◌&&◌,
  ◌||◌, none, some, List, [], ◌∷◌, map, all, leb, length, arith, if◌then◌else◌, ok, length-map,
}
use ottplay_control_server.Text.{Text, text_eq, text_eq_iff, elem, utf16_units}
use ottplay_control_server.Json.Value.{
  Value, str, arr, of_items, items-of_items, of_items-items, items,
}
use ottplay_control_server.GlobalFavorites.Entry.{Entry}
use ottplay_control_server.GlobalFavorites.Document.{Document, validate_document}
use ottplay_control_server.GlobalFavorites.Kinds.{
  kind, supports_read, required_kinds, insert_sorted, sorted_set, read_kinds, advertised_kinds,
  supported, supports,
}

abbrev pub short : Text → Bool
short k = leb (length k) 64 && leb (utf16_units k) 64

-- No text twice.
abbrev pub distinct : List Text → Bool
distinct [] = true
distinct (k ∷ ks) = not (elem k ks) && distinct ks

abbrev fresh : List Text → List Text → Bool
fresh ks seen = all (λ k. not (elem k seen)) ks

abbrev backwards : List Text → List Text → List Text
backwards [] seen = seen
backwards (k ∷ ks) seen = backwards ks (k ∷ seen)

fresh-cons :
    (k : Text) (ks seen : List Text) → fresh ks (k ∷ seen) ≡ (not (elem k ks) && fresh ks seen)
unfolding elem
fresh-cons k [] seen = refl
fresh-cons k (j ∷ ks) seen = ground (arith, fresh-cons k ks seen, text_eq_iff k j, text_eq_iff j k)

read_kinds-texts :
    (ks seen : List Text)
    → read_kinds (map str ks) seen
      ≡ (if all short ks && distinct ks && fresh ks seen then some (backwards ks seen) else none)
unfolding read_kinds
read_kinds-texts [] seen = refl
read_kinds-texts (k ∷ ks) seen =
    ground (arith, read_kinds-texts ks (k ∷ seen), fresh-cons k ks seen)

elem-backwards :
    (x : Text) (ks seen : List Text) → elem x (backwards ks seen) ≡ (elem x ks || elem x seen)
unfolding elem
elem-backwards x [] seen = refl
elem-backwards x (k ∷ ks) seen = ground (arith, elem-backwards x ks (k ∷ seen))

same_answer : (p : Text → Bool) (t x : Text) → text_eq t x ≡ true → p t ≡ p x
same_answer p t x h = ap p (ground (arith, text_eq_iff t x))

all-insert_sorted :
    (p : Text → Bool) (t : Text) (xs : List Text) → all p (insert_sorted t xs) ≡ (p t && all p xs)
unfolding insert_sorted
all-insert_sorted p t [] = refl
all-insert_sorted p t (x ∷ xs) =
    ground (arith, all-insert_sorted p t xs, text_eq_iff t x, same_answer p t x)

all-sorted_set : (p : Text → Bool) (ts : List Text) → all p (sorted_set ts) ≡ all p ts
unfolding sorted_set
all-sorted_set p [] = refl
all-sorted_set p (t ∷ ts) =
    ground (arith, all-insert_sorted p t (sorted_set ts), all-sorted_set p ts)

all-kinds :
    (p : Text → Bool) (es : List Entry)
    → all p (map (λ e. kind e.locator) es) ≡ all (λ e. p (kind e.locator)) es
all-kinds p [] = refl
all-kinds p (e ∷ es) = ap (λ b. p (kind e.locator) && b) (all-kinds p es)

all_same : (p q : Text → Bool) → ((t : Text) → p t ≡ q t) → (ts : List Text) → all p ts ≡ all q ts
all_same p q h [] = refl
all_same p q h (t ∷ ts) = ground (arith, h t, all_same p q h ts)

fresh_none : (ks : List Text) → fresh ks [] ≡ true
unfolding elem
fresh_none [] = refl
fresh_none (k ∷ ks) = fresh_none ks

elem_none : (k : Text) → elem k [] ≡ false
unfolding elem
elem_none k = refl

supported-kinds :
    (d : Document) (ks : List Text)
    → supported (some (backwards ks [])) d ≡ all (λ e. elem (kind e.locator) ks) d.entries
unfolding supported required_kinds
supported-kinds d ks =
    all-sorted_set (λ k. elem k (backwards ks [])) (map (λ e. kind e.locator) d.entries)
    ∙ all_same _ (λ k. elem k ks) (λ k. elem-backwards k ks [] ∙ or_elem_none k ks) _
    ∙ all-kinds (λ k. elem k ks) d.entries
  where
    or_elem_none : (k : Text) (xs : List Text) → (elem k xs || elem k []) ≡ elem k xs
    or_elem_none k xs = ground (arith, elem_none k)

texts_lem :
    (value : Value) (d : Document) (ks : List Text)
    → validate_document value ≡ ok d
    → supports value (arr (of_items (map str ks))) ≡ (
        leb (length ks) 32
        && all short ks
        && distinct ks
        && all (λ e. elem (kind e.locator) ks) d.entries)
unfolding supports supports_read advertised_kinds
texts_lem value d ks h =
    rw (h, items-of_items, length-map, read_kinds-texts ks [], fresh_none ks)
      (ground (arith, supported-kinds d ks))

-- A list of kinds that is read holds texts alone.
read_kinds-str :
    (vs : List Value) (seen out : List Text)
    → read_kinds vs seen ≡ some out
    → (ks : List Text) × (vs ≡ map str ks)
unfolding read_kinds
read_kinds-str [] seen out h = ([], refl)
read_kinds-str (str k ∷ vs) seen out h =
    let (ks, e) = read_kinds-str vs (k ∷ seen) out (ground arith) in
    (k ∷ ks, ap (λ ws. str k ∷ ws) e)
read_kinds-str (_ ∷ vs) seen out h = absurd (cc)

advertised_kinds-str :
    (v : Value) (d : Document)
    → supported (advertised_kinds v) d ≡ true
    → (ks : List Text) × (v ≡ arr (of_items (map str ks)))
unfolding advertised_kinds supported
advertised_kinds-str (arr vs) d h = elim (Option-cases (read_kinds (items vs) [])) [
  | inl e ↦ absurd (ground arith)
  | inr (out, e) ↦
      let (ks, same) = read_kinds-str (items vs) [] out e in
      (ks, ap arr (sym (of_items-items vs) ∙ ap of_items same))
]
advertised_kinds-str _ d h = absurd (cc)

-- What an advertised list must be for a document: at most 32 texts, of at most 64 characters and
-- UTF-16 units each, without repetition, and with the kind of every entry among them.
pub record IsAdvertised (value advertised : Value) : Type 0 where
  pub document : Document
  pub kinds : List Text
  pub valid : validate_document value ≡ ok document
  pub listed : advertised ≡ arr (of_items (map str kinds))
  pub fitting :
      (leb (length kinds) 32
        && all short kinds
        && distinct kinds
        && all (λ e. elem (kind e.locator) kinds) document.entries)
      ≡ true

-- Whatever is advertised, `supports` answers `true` exactly when the document is valid and the
-- advertised value is a list of at most 32 texts, of at most 64 characters and UTF-16 units each,
-- without repetition, with the kind of every entry among them.
pub supports_lem :
    (value advertised : Value) → (supports value advertised ≡ true) ↔ IsAdvertised value advertised
unfolding supports supports_read
supports_lem value advertised = (into, back)
  where
    into : supports value advertised ≡ true → IsAdvertised value advertised
    into h = elim (Result-cases (validate_document value)) [
      | inr (c, e) ↦ absurd (cc (rw e at h))
      | inl (d, e) ↦
          let (ks, same) = advertised_kinds-str advertised d (rw e at h) in
          record {
            document = d;
            kinds = ks;
            valid = e;
            listed = same;
            fitting = sym (texts_lem value d ks e) ∙ rw same at h;
          }
    ]

    back : IsAdvertised value advertised → supports value advertised ≡ true
    back p = rw p.listed (texts_lem value p.document p.kinds p.valid ∙ p.fitting)
