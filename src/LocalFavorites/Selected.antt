-- ===== src/LocalFavorites/Selected.antt =====
-- What the loops over the incoming scopes do to a selection.
use ottplay_control_server.Prelude.{
  ◌⊎◌, ◌≡◌, ◌≤◌, refl, sym, true, Option, none, some, List, [], ◌∷◌, ◌++◌, any, length, ok,
  >>=-eq-ok, ok-injective, arith, All, Bool-cases, inl, inr, All-snoc,
}
use ottplay_control_server.Text.{text_eq, text_eq_iff}
use ottplay_control_server.Json.Value.{Value, dict}
use ottplay_control_server.GlobalFavorites.Plan.{Mode}
use ottplay_control_server.LocalFavorites.Bounds.{Libraries}
use ottplay_control_server.LocalFavorites.Scopes.{Key, Scope, same_key, validate_document}
use ottplay_control_server.LocalFavorites.Plan.{
  find, add_key, Selection, meet, take_scope, select, select_all, select_documents, validate_all,
  first_scopes,
}
use ottplay_control_server.LocalFavorites.Sorted.{same_key_refl}
use ottplay_control_server.LocalFavorites.Valid.{IsOwn, validate_document-IsSortOf, All-sort}

find-append :
    (k : Key) (xs ys : List Scope) (s : Scope) → find k xs ≡ some s → find k (xs ++ ys) ≡ some s
unfolding find
find-append k [] ys s h = absurd (cc)
find-append k (x ∷ xs) ys s h = ground (arith, find-append k xs ys s)

find-snoc :
    (s : Scope) (xs : List Scope) → find s.key xs ≡ none → find s.key (xs ++ s ∷ []) ≡ some s
unfolding find
find-snoc s [] h = ground (arith, same_key_refl s.key)
find-snoc s (x ∷ xs) h = ground (arith, find-snoc s xs)

length-add_key :
    (k : Key) (ks : List Key) → (length ks ≤ length (add_key k ks)) × (1 ≤ length (add_key k ks))
unfolding add_key
length-add_key k ks = elim (Bool-cases (any (same_key k) ks)) [
  | inl e ↦ rw e (omega arith, some_key ks e)
  | inr e ↦ rw e (omega arith, omega arith)
]
  where
    some_key : (ks : List Key) → any (same_key k) ks ≡ true → 1 ≤ length ks
    some_key [] h = absurd (cc)
    some_key (x ∷ ks) h = omega arith

-- The selection before the incoming documents.
abbrev pub started : Libraries → Mode → List Scope → Selection
started lib mode original = record {
  selected = first_scopes lib mode original;
  conflicts = [];
  duplicates = 0;
}

module _ (lib : Libraries) where
  -- The scope that is selected for a key has the same JSON text, or there is a conflict.
  abbrev pub Covers : Scope → Selection → Type 0
  Covers s x =
      (u : Scope) × (find s.key x.selected ≡ some u)
      × ((lib.json (dict u.fields) ≡ lib.json (dict s.fields)) ⊎ (1 ≤ length x.conflicts))

  -- One selection has at least what the other has.
  pub record Grows (x y : Selection) : Type 0 where
    pub kept : (k : Key) (s : Scope) → find k x.selected ≡ some s → find k y.selected ≡ some s
    pub more : length x.conflicts ≤ length y.conflicts
    pub own : All (IsOwn lib) x.selected → All (IsOwn lib) y.selected

  -- What one more scope does.
  pub record Step (s : Scope) (x y : Selection) : Type 0 where
    pub grows : Grows x y
    pub covers : Covers s y

  meet-Step :
      (old s : Scope) (x : Selection)
      → find s.key x.selected ≡ some old
      → Step s x (meet lib old s x)
  unfolding meet
  meet-Step old s x f =
      elim (Bool-cases (text_eq (lib.json (dict old.fields)) (lib.json (dict s.fields)))) [
        | inl e ↦ rw e (record {
          grows = record { kept = λ _ _ h. h; more = omega arith; own = λ p. p };
          covers = (old, f, inl ((text_eq_iff _ _).0 e));
        })
        | inr e ↦ rw e (record {
          grows = record {
            kept = λ _ _ h. h;
            more = (length-add_key s.key x.conflicts).0;
            own = λ p. p;
          };
          covers = (old, f, inr (length-add_key s.key x.conflicts).1);
        })
      ]

  take_scope-Step :
      (o : Option Scope) (s : Scope) (x : Selection)
      → find s.key x.selected ≡ o
      → IsOwn lib s
      → Step s x (take_scope lib o s x)
  unfolding take_scope
  take_scope-Step none s x e p = record {
    grows = record {
      kept = λ k t h. find-append k x.selected (s ∷ []) t h;
      more = omega arith;
      own = λ q. All-snoc (IsOwn lib) x.selected s q p;
    };
    covers = (s, find-snoc s x.selected e, inl refl);
  }
  take_scope-Step (some old) s x e p = meet-Step old s x e

  select-Step : (s : Scope) (x : Selection) → IsOwn lib s → Step s x (select lib s x)
  unfolding select
  select-Step s x p = take_scope-Step (find s.key x.selected) s x refl p

  grow_trans : (x y z : Selection) → Grows x y → Grows y z → Grows x z
  grow_trans x y z a b = record {
    kept = λ k s h. b.kept k s (a.kept k s h);
    more = omega (arith, a.more, b.more);
    own = λ p. b.own (a.own p);
  }

  grow-Covers : (s : Scope) (x y : Selection) → Grows x y → Covers s x → Covers s y
  grow-Covers s x y g (u, f, inl e) = (u, g.kept s.key u f, inl e)
  grow-Covers s x y g (u, f, inr n) = (u, g.kept s.key u f, inr (omega (arith, g.more)))

  pub record Steps (ss : List Scope) (x y : Selection) : Type 0 where
    pub grows : Grows x y
    pub covers : All (λ s. Covers s y) ss

  select_all-Steps :
      (ss : List Scope) (x : Selection) → All (IsOwn lib) ss → Steps ss x (select_all lib ss x)
  unfolding select_all
  select_all-Steps [] x own = record {
    grows = record { kept = λ _ _ h. h; more = omega arith; own = λ p. p };
    covers = tt;
  }
  select_all-Steps (s ∷ ss) x own =
      let one = select-Step s x own.0 in
      let rest = select_all-Steps ss (select lib s x) own.1 in
      record {
        grows = grow_trans x (select lib s x) _ one.grows rest.grows;
        covers = (grow-Covers s (select lib s x) _ rest.grows one.covers, rest.covers);
      }

  grow_documents :
      (ss : List Scope) (x y : Selection)
      → Grows x y
      → All (λ s. Covers s x) ss
      → All (λ s. Covers s y) ss
  grow_documents [] x y g h = tt
  grow_documents (s ∷ ss) x y g h = (grow-Covers s x y g h.0, grow_documents ss x y g h.1)

  pub record DocumentSteps (ds : List (List Scope)) (x y : Selection) : Type 0 where
    pub grows : Grows x y
    pub covers : All (All (λ s. Covers s y)) ds

  pub select_documents-Steps :
      (ds : List (List Scope)) (x : Selection)
      → All (All (IsOwn lib)) ds
      → DocumentSteps ds x (select_documents lib ds x)
  unfolding select_documents
  select_documents-Steps [] x own = record {
    grows = record { kept = λ _ _ h. h; more = omega arith; own = λ p. p };
    covers = tt;
  }
  select_documents-Steps (d ∷ ds) x own =
      let one = select_all-Steps d x own.0 in
      let rest = select_documents-Steps ds (select_all lib d x) own.1 in
      record {
        grows = grow_trans x (select_all lib d x) _ one.grows rest.grows;
        covers = (grow_documents d (select_all lib d x) _ rest.grows one.covers, rest.covers);
      }

  pub validate_all-IsOwn :
      (vs : List Value) (ds : List (List Scope))
      → validate_all lib vs ≡ ok ds
      → All (All (IsOwn lib)) ds
  unfolding validate_all
  validate_all-IsOwn [] ds h = rw (sym (ok-injective h)) tt
  validate_all-IsOwn (v ∷ vs) ds h =
      let (d, one, h₁) = >>=-eq-ok (validate_document lib v) _ h in
      let (rest, got, h₂) = >>=-eq-ok (validate_all lib vs) _ h₁ in
      let (ss, s) = validate_document-IsSortOf lib v d one in
      rw (sym (ok-injective h₂)) (rw s.made (All-sort lib ss s.own), validate_all-IsOwn vs rest got)
