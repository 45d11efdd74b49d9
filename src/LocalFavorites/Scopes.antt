-- ===== src/LocalFavorites/Scopes.antt =====
-- `_scope_document`, `validate_scope_document` and `validate_document`.
use ottplay_control_server.Prelude.{
  Bool, true, false, not, ◌&&◌, ◌||◌, Option, none, some, List, [], ◌∷◌, map, length, all, any,
  ◌==◌, if◌then◌else◌, Result, ok, ◌>>=◌, ◌>>◌, guard, need,
}
use ottplay_control_server.Text.{Text, codes, text_eq, elem}
use ottplay_control_server.Json.Value.{Value, Fields, null, str, dict, get, same_keys}
use ottplay_control_server.Json.Fields.{bool_of, list_of, is_number, is_text}
use ottplay_control_server.GlobalFavorites.Kinds.{text_lt}
use ottplay_control_server.LocalFavorites.Bounds.{
  Code, invalid_document, duplicate_scope, Libraries, shape, text, bounded,
}
use ottplay_control_server.LocalFavorites.References.{Reference, one_of, uuid, references}

-- `_scope_key`
pub record Key : Type 0 where
  pub provider : Text
  pub profile : Text
  pub source : Text

-- A list of channels: its name and the references in its `entries`.
pub record Channels : Type 0 where
  pub name : Text
  pub entries : List Reference

-- A valid scope document: its key, its fields, its lists and its media.
pub record Scope : Type 0 where
  pub key : Key
  pub fields : Fields
  pub lists : List Channels
  pub media : List Reference

abbrev pub same_key : Key → Key → Bool
same_key a b =
    text_eq a.provider b.provider && text_eq a.profile b.profile && text_eq a.source b.source

-- Python's order of the tuples.
unfoldable pub key_lt : Key → Key → Bool
key_lt a b =
    text_lt a.provider b.provider
    || (text_eq a.provider b.provider
        && (text_lt a.profile b.profile
            || (text_eq a.profile b.profile && text_lt a.source b.source)))

-- `value["coverage"] == COVERAGE`
unfoldable pub coverage_ok : Option Value → Bool
coverage_ok (some (dict fs)) =
    same_keys fs
      (codes "channelLists" ∷ codes "mediaFavorites" ∷ codes "remoteAliases" ∷ codes "history" ∷ [])
    && is_text (codes "complete-for-scope") (get (codes "channelLists") fs)
    && is_text (codes "complete-for-scope") (get (codes "mediaFavorites") fs)
    && is_text (codes "excluded-preserved") (get (codes "remoteAliases") fs)
    && is_text (codes "excluded-preserved") (get (codes "history") fs)
coverage_ok _ = false

-- `None`, or one of the names
unfoldable pub chosen_ok : List Text → Option Value → Bool
chosen_ok names (some null) = true
chosen_ok names (some (str s)) = elem s names
chosen_ok names _ = false

unfoldable pub list_at : Text → Fields → Result Code (List Value)
list_at k fs = need invalid_document (list_of (get k fs))

unfoldable pub absent : Option Value → Bool
absent none = true
absent (some _) = false

unfoldable pub default_ok : List Text → Option Value → Result Code (Unit {0})
default_ok names v = do
  value ← need invalid_document v
  fs ← shape value (codes "present" ∷ []) (codes "value" ∷ [])
  present ← need invalid_document (bool_of (get (codes "present") fs))
  guard
      (if present
        then chosen_ok names (get (codes "value") fs)
        else absent (get (codes "value") fs))
      invalid_document

-- The loop over `lists["order"]`
unfoldable pub order_texts : List Value → Result Code (List Text)
order_texts [] = ok []
order_texts (v ∷ vs) = do name ← text (some v) 256 false; names ← order_texts vs; ok (name ∷ names)

-- `set(a) == set(b)`
unfoldable pub same_set : List Text → List Text → Bool
same_set a b = all (λ x. elem x b) a && all (λ x. elem x a) b

abbrev pub reserved : List Text
reserved = codes "__proto__" ∷ codes "prototype" ∷ codes "constructor" ∷ []

unfoldable pub names_of : List Channels → List Text
names_of = map (λ c. c.name)

-- The value of `scope`, with the key that is read from it.
unfoldable pub read_key : Option Value → Result Code (Value × Key)
read_key v = do
  scope ← need invalid_document v
  fs ← shape scope (codes "profileBindingId" ∷ codes "sourceBindingId" ∷ codes "provider" ∷ []) []
  profile ← uuid (get (codes "profileBindingId") fs)
  source ← uuid (get (codes "sourceBindingId") fs)
  provider ←
      one_of (codes "m3u" ∷ codes "vportal" ∷ codes "plex" ∷ codes "offline" ∷ [])
        (get (codes "provider") fs)
  ok (scope, record { provider = provider; profile = profile; source = source })

module _ (lib : Libraries) where
  -- `shuffleBefore`, which may be missing
  unfoldable pub shuffle_ok : Value → Option Value → Result Code (Unit {0})
  shuffle_ok scope none = ok tt
  shuffle_ok scope v = do vs ← need invalid_document (list_of v); _ ← references lib scope vs; ok tt

  -- The loop over the lists, with the names before.
  unfoldable pub read_lists : Value → List Value → List Text → Result Code (List Channels)
  read_lists scope [] names = ok []
  read_lists scope (row ∷ rows) names = do
    fs ← shape row (codes "name" ∷ codes "entries" ∷ []) (codes "shuffleBefore" ∷ [])
    name ← text (get (codes "name") fs) 256 false
    guard (not (elem name reserved) && not (elem name names)) invalid_document
    vs ← list_at (codes "entries") fs
    entries ← references lib scope vs
    shuffle_ok scope (get (codes "shuffleBefore") fs)
    rest ← read_lists scope rows (name ∷ names)
    ok (record { name = name; entries = entries } ∷ rest)

  -- The tests on `channelLists`
  unfoldable pub channel_lists : Value → Option Value → Result Code (List Channels)
  channel_lists scope v = do
    value ← need invalid_document v
    fs ← shape value (codes "active" ∷ codes "order" ∷ codes "default" ∷ codes "lists" ∷ []) []
    rows ← list_at (codes "lists") fs
    order ← list_at (codes "order") fs
    lists ← read_lists scope rows []
    order ← order_texts order
    let names = names_of lists
    guard (length order == length names && same_set order names) invalid_document
    guard (chosen_ok names (get (codes "active") fs)) invalid_document
    default_ok names (get (codes "default") fs)
    ok lists

  -- `_scope_document`
  unfoldable pub scope_document : Value → Result Code Scope
  scope_document value = do
    fs ←
        shape value
          (codes "schema"
            ∷ codes "scope"
            ∷ codes "coverage"
            ∷ codes "channelLists"
            ∷ codes "mediaFavorites"
            ∷ [])
          []
    guard (is_number 1 (get (codes "schema") fs)) invalid_document
    (scope, key) ← read_key (get (codes "scope") fs)
    guard (coverage_ok (get (codes "coverage") fs)) invalid_document
    lists ← channel_lists scope (get (codes "channelLists") fs)
    vs ← list_at (codes "mediaFavorites") fs
    media ← references lib scope vs
    ok (record { key = key; fields = fs; lists = lists; media = media })

  unfoldable pub validate_scope_document : Value → Result Code Scope
  validate_scope_document value = do bounded lib value; scope_document value

  -- The loop over the scopes, with the keys before.
  unfoldable pub read_scopes : List Value → List Key → Result Code (List Scope)
  read_scopes [] seen = ok []
  read_scopes (v ∷ vs) seen = do
    s ← scope_document v
    guard (not (any (same_key s.key) seen)) duplicate_scope
    rest ← read_scopes vs (s.key ∷ seen)
    ok (s ∷ rest)

  -- One more scope of a sorted list.
  unfoldable pub insert : Scope → List Scope → List Scope
  insert s [] = s ∷ []
  insert s (t ∷ ts) = if key_lt t.key s.key then t ∷ insert s ts else s ∷ t ∷ ts

  -- `scopes.sort(key=_scope_key)`
  unfoldable pub sort : List Scope → List Scope
  sort [] = []
  sort (s ∷ ss) = insert s (sort ss)

  -- `validate_document`: the scopes of its result, which has version 1.
  unfoldable pub validate_document : Value → Result Code (List Scope)
  validate_document value = do
    bounded lib value
    fs ← shape value (codes "version" ∷ codes "scopes" ∷ []) []
    guard (is_number 1 (get (codes "version") fs)) invalid_document
    vs ← list_at (codes "scopes") fs
    scopes ← read_scopes vs []
    ok (sort scopes)
