-- ===== src/Text/Members.antt =====
-- Lists of texts used as sets: membership, and lists without repetition.
use ottplay_control_server.Prelude.{
  ◌≡◌, refl, sym, true, false, ◌||◌, List, [], ◌∷◌, ◌++◌, arith, ◌+◌, if◌then◌else◌, count_if,
  count_if-eq-zero, append_assoc, All, Bool-cases, inl, inr,
}
use ottplay_control_server.Text.{Text, text_eq, text_eq_iff, elem}

pub elem-append : (t : Text) (xs ys : List Text) → elem t (xs ++ ys) ≡ (elem t xs || elem t ys)
unfolding elem
elem-append t [] ys = refl
elem-append t (x ∷ xs) ys = ground (arith, elem-append t xs ys)

pub elem-cons : (t x : Text) (xs : List Text) → elem t (x ∷ xs) ≡ (text_eq t x || elem t xs)
unfolding elem
elem-cons t x xs = refl

-- No text stands twice.
abbrev pub Unique : List Text → Type 0
Unique [] = Unit
Unique (x ∷ xs) = (elem x xs ≡ false) × Unique xs

pub elem-snoc_ne :
    (x t : Text) (xs : List Text)
    → elem x xs ≡ false
    → elem t (x ∷ xs) ≡ false
    → elem x (xs ++ t ∷ []) ≡ false
unfolding elem
elem-snoc_ne x t xs h k =
    ground (arith, elem-append x xs (t ∷ []), text_eq_iff x t, text_eq_iff t x)

pub Unique-snoc :
    (xs : List Text) (t : Text) → Unique xs → elem t xs ≡ false → Unique (xs ++ t ∷ [])
unfolding elem
Unique-snoc [] t u h = (refl, tt)
Unique-snoc (x ∷ xs) t u h = (elem-snoc_ne x t xs u.0 h, Unique-snoc xs t u.1 (ground arith))

-- In a list without repetition an element does not stand among those before it.
pub Unique-middle :
    (xs : List Text) (t : Text) (ys : List Text) → Unique (xs ++ t ∷ ys) → elem t xs ≡ false
unfolding elem
Unique-middle [] t ys u = refl
Unique-middle (x ∷ xs) t ys u =
    ground (
      arith,
      Unique-middle xs t ys u.1,
      elem-append x xs (t ∷ ys),
      text_eq_iff t x,
      text_eq_iff x t,
    )

count_elem-cons :
    (x : Text) (xs ys : List Text)
    → elem x xs ≡ false
    → Unique ys
    → count_if (λ y. elem y (x ∷ xs)) ys
      ≡ count_if (λ y. elem y xs) ys + (if elem x ys then 1 else 0)
count_elem-cons x xs [] h u = unfold elem in omega arith
count_elem-cons x xs (y ∷ ys) h u = elim (Bool-cases (text_eq y x)) [
  | inl same ↦
      let e : y ≡ x = (text_eq_iff y x).0 same in
      let out : elem y xs ≡ false = rw e h in
      let last : elem x ys ≡ false = rw (← e) u.0 in
      ground (
        arith,
        count_elem-cons x xs ys h u.1,
        elem-cons y x xs,
        elem-cons x y ys,
        text_eq_iff x y,
        out,
        last,
      )
  | inr other ↦ ground (
    arith,
    count_elem-cons x xs ys h u.1,
    elem-cons y x xs,
    elem-cons x y ys,
    text_eq_iff x y,
    text_eq_iff y x,
  )
]

none_there : (ys : List Text) → All (λ y. elem y [] ≡ false) ys
unfolding elem
none_there [] = tt
none_there (y ∷ ys) = (refl, none_there ys)

head_count :
    (x : Text) (xs ys : List Text)
    → count_if (λ z. elem z ys) (x ∷ xs)
      ≡ count_if (λ z. elem z ys) xs + (if elem x ys then 1 else 0)
head_count x xs ys = ground arith

-- Two lists without repetition share as many elements counted from either side.
pub count_shared :
    (xs ys : List Text)
    → Unique xs
    → Unique ys
    → count_if (λ x. elem x ys) xs ≡ count_if (λ y. elem y xs) ys
count_shared [] ys u w = sym (count_if-eq-zero (λ y. elem y []) ys (none_there ys))
count_shared (x ∷ xs) ys u w =
    omega (arith, count_elem-cons x xs ys u.0 w, count_shared xs ys u.1 w, head_count x xs ys)

elem-middle : (x : Text) (ys xs : List Text) → elem x (ys ++ x ∷ xs) ≡ true
elem-middle x ys xs = ground (arith, elem-append x ys (x ∷ xs), elem-cons x x xs, text_eq_iff x x)

All-elem-append : (ys xs : List Text) → All (λ x. elem x (ys ++ xs) ≡ true) xs
All-elem-append ys [] = tt
All-elem-append ys (x ∷ xs) =
    (elem-middle x ys xs, rw append_assoc at (All-elem-append (ys ++ x ∷ []) xs))

-- Every text of a list is one of its elements.
pub All-elem : (xs : List Text) → All (λ x. elem x xs ≡ true) xs
All-elem xs = All-elem-append [] xs

-- The two parts of a list without repetition share nothing.
pub Unique-apart : (xs ys : List Text) → Unique (xs ++ ys) → All (λ x. elem x ys ≡ false) xs
Unique-apart [] ys u = tt
Unique-apart (x ∷ xs) ys u = (ground (arith, elem-append x xs ys), Unique-apart xs ys u.1)

pub All-both :
    (P Q : Text → Type 0) (xs : List Text) → All P xs → All Q xs → All (λ x. P x × Q x) xs
All-both P Q [] h k = tt
All-both P Q (x ∷ xs) h k = ((h.0, k.0), All-both P Q xs h.1 k.1)

pub Unique-left : (xs ys : List Text) → Unique (xs ++ ys) → Unique xs
Unique-left [] ys u = tt
Unique-left (x ∷ xs) ys u = (ground (arith, elem-append x xs ys), Unique-left xs ys u.1)

-- A text that is apart from a list with `d` is apart from the list, and is not `d`.
pub apart_from_cons :
    (d : Text) (seen xs : List Text)
    → All (λ x. elem x (d ∷ seen) ≡ false) xs
    → (elem d xs ≡ false) × All (λ x. elem x seen ≡ false) xs
apart_from_cons d seen [] h = (unfold elem in refl, tt)
apart_from_cons d seen (x ∷ xs) h =
    let (out, rest) = apart_from_cons d seen xs h.1 in
    (
      ground (arith, elem-cons x d seen, elem-cons d x xs, text_eq_iff x d, text_eq_iff d x),
      (ground (arith, elem-cons x d seen), rest),
    )

pub elem-move :
    (x d : Text) (xs ys : List Text) → elem x (xs ++ d ∷ ys) ≡ true → elem x (d ∷ (xs ++ ys)) ≡ true
elem-move x d xs ys h = ground (
  arith,
  elem-append x xs (d ∷ ys),
  elem-append x xs ys,
  elem-cons x d ys,
  elem-cons x d (xs ++ ys),
)

pub elem-right : (x : Text) (xs ys : List Text) → elem x ys ≡ true → elem x (xs ++ ys) ≡ true
elem-right x xs ys h = ground (arith, elem-append x xs ys)

pub elem_head : (x : Text) (xs : List Text) → elem x (x ∷ xs) ≡ true
elem_head x xs = ground (arith, elem-cons x x xs, text_eq_iff x x)
