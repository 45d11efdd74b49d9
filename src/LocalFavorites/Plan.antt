-- ===== src/LocalFavorites/Plan.antt =====
-- `_inventory`, `_counts`, `plan_documents` and `clear_scope`.
use ottplay_control_server.Prelude.{
  ℕ, suc, ◌+◌, ◌-◌, Bool, false, ◌&&◌, Option, none, some, List, [], ◌∷◌, ◌++◌, map, length, any,
  leb, ◌==◌, if◌then◌else◌, Result, ok, err, ◌>>=◌, ◌>>◌, guard,
}
use ottplay_control_server.Text.{Text, codes, text_eq}
use ottplay_control_server.Json.Value.{
  Value, Values, Fields, int, arr, dict, nil, cons, field, end, get, of_items,
}
use ottplay_control_server.GlobalFavorites.Plan.{Mode, merge, replace}
use ottplay_control_server.GlobalRecovery.Replies.{same_texts}
use ottplay_control_server.LocalFavorites.Bounds.{Code, invalid_document, Libraries}
use ottplay_control_server.LocalFavorites.References.{Reference, located, identified, opaque}
use ottplay_control_server.LocalFavorites.Scopes.{Key, Channels, Scope, same_key, validate_document}

-- A tuple of texts and a number: an item, or its membership in a list.
abbrev pub Item : Type 0
Item = List Text × ℕ

unfoldable pub same_item : Item → Item → Bool
same_item a b = same_texts a.0 b.0 && a.1 == b.1

unfoldable pub has_item : Item → List Item → Bool
has_item x = any (same_item x)

-- A set of items, in the order of their first additions.
unfoldable pub as_set : List Item → List Item
as_set [] = []
as_set (x ∷ xs) = let rest = as_set xs in if has_item x rest then rest else x ∷ rest

-- One occurrence less.
unfoldable pub without : Item → List Item → List Item
without x [] = []
without x (y ∷ ys) = if same_item x y then ys else y ∷ without x ys

-- `sum((before & after).values())` of the two multisets
unfoldable pub retained : List Item → List Item → ℕ
retained [] after = 0
retained (x ∷ before) after =
    if has_item x after then suc (retained before (without x after)) else retained before after

pub record Counts : Type 0 where
  pub before : ℕ
  pub after : ℕ
  pub added : ℕ
  pub removed : ℕ
  pub kept : ℕ

-- `_counts`
unfoldable pub counts : List Item → List Item → Counts
counts before after =
    let n = retained before after in
    record {
      before = length before;
      after = length after;
      added = length after - n;
      removed = length before - n;
      kept = n;
    }

pub record Summary : Type 0 where
  pub items : Counts
  pub skipped_duplicates : ℕ
  pub memberships : Counts
  pub unresolved : ℕ

-- The scopes of the plan's document, and its summary.
pub record Plan : Type 0 where
  pub document : List Scope
  pub summary : Summary

-- `selected`, `conflicts` and `duplicates`
pub record Selection : Type 0 where
  pub selected : List Scope
  pub conflicts : List Key
  pub duplicates : ℕ

abbrev pub key_texts : Key → List Text
key_texts k = k.provider ∷ k.profile ∷ k.source ∷ []

-- `selected.get(key)`
unfoldable pub find : Key → List Scope → Option Scope
find k [] = none
find k (s ∷ ss) = if same_key k s.key then some s else find k ss

unfoldable pub add_key : Key → List Key → List Key
add_key k ks = if any (same_key k) ks then ks else k ∷ ks

-- `{"version": 1, "scopes": […]}`
unfoldable pub bundle : List Scope → Value
bundle ss = dict (
    field (codes "version") (int false 1)
      (field (codes "scopes") (arr (of_items (map (λ s. dict s.fields) ss))) end))

-- `value[key] = new` for a key that is there.
unfoldable pub set_field : Text → Value → Fields → Fields
set_field k new end = end
set_field k new (field j v fs) =
    if text_eq j k then field j new fs else field j v (set_field k new fs)

unfoldable pub without_entries : Values → Values
without_entries nil = nil
without_entries (cons (dict fs) vs) =
    cons (dict (set_field (codes "entries") (arr nil) fs)) (without_entries vs)
without_entries (cons v vs) = cons v (without_entries vs)

unfoldable pub emptied_lists : Value → Value
emptied_lists (arr vs) = arr (without_entries vs)
emptied_lists v = v

-- `channelLists`, with every list emptied
unfoldable pub emptied : Value → Value
emptied (dict fs) = elim (get (codes "lists") fs) [
  | none ↦ dict fs
  | some v ↦ dict (set_field (codes "lists") (emptied_lists v) fs)
]
emptied v = v

module _ (lib : Libraries) where
  -- The identity of a reference, with its place.
  unfoldable pub item_of : Key → Text → Text → ℕ → Reference → Item
  item_of k domain name index (located place) = (codes "located" ∷ lib.json place ∷ key_texts k, 0)
  item_of k domain name index (identified reason provenance) =
      (codes "unresolved" ∷ domain ∷ reason ∷ lib.json provenance ∷ key_texts k, 0)
  item_of k domain name index (opaque value) =
      (codes "opaque-occurrence" ∷ domain ∷ name ∷ lib.json value ∷ key_texts k, index)

  -- `enumerate(rows)`, from an index on
  unfoldable pub row_items : Key → Text → Text → ℕ → List Reference → List Item
  row_items k domain name index [] = []
  row_items k domain name index (r ∷ rs) =
      item_of k domain name index r ∷ row_items k domain name (suc index) rs

  abbrev pub member_of : Text → Text → Item → Item
  member_of domain name x = (domain ∷ name ∷ x.0, x.1)

  unfoldable pub list_items : Key → List Channels → List Item
  list_items k [] = []
  list_items k (c ∷ cs) = row_items k (codes "channels") c.name 0 c.entries ++ list_items k cs

  unfoldable pub list_memberships : Key → List Channels → List Item
  list_memberships k [] = []
  list_memberships k (c ∷ cs) =
      map (member_of (codes "channels") c.name) (row_items k (codes "channels") c.name 0 c.entries)
      ++ list_memberships k cs

  -- The occurrences of items that `_inventory` goes through, and their memberships.
  unfoldable pub occurrences : List Scope → List Item
  occurrences [] = []
  occurrences (s ∷ ss) =
      list_items s.key s.lists
      ++ row_items s.key (codes "media") (codes "favorites") 0 s.media
      ++ occurrences ss

  unfoldable pub memberships : List Scope → List Item
  memberships [] = []
  memberships (s ∷ ss) =
      list_memberships s.key s.lists
      ++ map (member_of (codes "media") (codes "favorites"))
          (row_items s.key (codes "media") (codes "favorites") 0 s.media)
      ++ memberships ss

  -- A scope whose key is known: a duplicate, or a conflict.
  unfoldable pub meet : Scope → Scope → Selection → Selection
  meet old s x =
      if text_eq (lib.json (dict old.fields)) (lib.json (dict s.fields))
      then record x { duplicates = x.duplicates + length (as_set (occurrences (s ∷ []))) }
      else record x { conflicts = add_key s.key x.conflicts }

  unfoldable pub take_scope : Option Scope → Scope → Selection → Selection
  take_scope none s x = record x { selected = x.selected ++ s ∷ [] }
  take_scope (some old) s x = meet old s x

  unfoldable pub select : Scope → Selection → Selection
  select s x = take_scope (find s.key x.selected) s x

  -- The loops over the documents and their scopes.
  unfoldable pub select_all : List Scope → Selection → Selection
  select_all [] x = x
  select_all (s ∷ ss) x = select_all ss (select s x)

  unfoldable pub select_documents : List (List Scope) → Selection → Selection
  select_documents [] x = x
  select_documents (d ∷ ds) x = select_documents ds (select_all d x)

  unfoldable pub validate_all : List Value → Result Code (List (List Scope))
  validate_all [] = ok []
  validate_all (v ∷ vs) = do d ← validate_document lib v; ds ← validate_all vs; ok (d ∷ ds)

  unfoldable pub current_value : Option Value → Value
  current_value none = bundle []
  current_value (some v) = v

  abbrev pub first_scopes : Mode → List Scope → List Scope
  first_scopes merge original = original
  first_scopes replace original = []

  -- `plan_documents`, behind the test of its mode
  unfoldable pub plan_documents : Mode → Option Value → List Value → Result Code Plan
  plan_documents mode current incoming = do
    guard (leb 1 (length incoming) && leb (length incoming) 64) invalid_document
    original ← validate_document lib (current_value current)
    documents ← validate_all incoming
    let chosen =
        select_documents documents
          (record { selected = first_scopes mode original; conflicts = []; duplicates = 0 })
    result ← validate_document lib (bundle chosen.selected)
    ok (record {
      document = result;
      summary = record {
        items = counts (as_set (occurrences original)) (as_set (occurrences result));
        skipped_duplicates = chosen.duplicates;
        memberships = counts (memberships original) (memberships result);
        unresolved = length chosen.conflicts;
      };
    })

  unfoldable pub only_scope : List Scope → Result Code Scope
  only_scope (s ∷ _) = ok s
  only_scope [] = err invalid_document

  unfoldable pub empty_channels : Option Value → Fields → Fields
  empty_channels none fs = fs
  empty_channels (some v) fs = set_field (codes "channelLists") (emptied v) fs

  -- `clear_scope`: the dictionary that it returns
  unfoldable pub clear_scope : Value → Result Code Fields
  clear_scope value = do
    scopes ← validate_document lib (
        dict (
          field (codes "version") (int false 1)
            (field (codes "scopes") (arr (cons value nil)) end)))
    s ← only_scope scopes
    ok (
        set_field (codes "mediaFavorites") (arr nil)
          (empty_channels (get (codes "channelLists") s.fields) s.fields))
