-- ===== src/LocalFavorites/Bounds.antt =====
-- The exceptions and the checks on single values, and the traversal of `_bounded`.
use ottplay_control_server.Prelude.{
  ℕ, suc, ◌+◌, ◌-◌, ◌*◌, Bool, true, not, ◌&&◌, ◌||◌, Option, some, List, length, any, leb, ltb,
  ◌==◌, Result, ok, err, ◌>>=◌, ◌>>◌, guard,
}
use ottplay_control_server.Text.{Text, encodable, utf8_length}
use ottplay_control_server.Json.Value
use ottplay_control_server.Json.Value.{
  Value, Values, Fields, null, bool, int, float, str, arr, dict, nil, cons, end, field, items, get,
}
use ottplay_control_server.Json.Fields.{keys_between}
use ottplay_control_server.FavoritesTransfer.Strict.{is_finite}

-- The codes of `DocumentError`.
pub data Code : Type 0 where
  invalid_document document_too_large duplicate_scope : Code
  unsupported_channel_codec unsupported_locator invalid_local_path : Code

-- `_json` on a value whose numbers are finite, and the codec of channels, if there is one: whether
-- it proves a locator in a scope.
pub record Libraries : Type 0 where
  pub json : Value → Text
  pub channel_codec : Option (Value → Value → Bool)

-- `MAX_BYTES`
abbrev pub max_bytes : ℕ
max_bytes = 1024 * 1024

-- `_shape`
unfoldable pub shape : Value → List Text → List Text → Result Code Fields
shape (dict fs) required optional = do
  guard (keys_between fs required optional) invalid_document
  ok fs
shape _ required optional = err invalid_document

-- `_text`
unfoldable pub text : Option Value → ℕ → Bool → Result Code Text
text (some (str s)) limit empty = do
  guard
      ((empty || ltb 0 (length s))
        && leb (length s) limit
        && not (any (λ c. ltb c 32 || c == 127) s)
        && encodable s)
      invalid_document
  ok s
text _ limit empty = err invalid_document

-- `remaining` and `nodes`
pub record Room : Type 0 where
  pub remaining : ℕ
  pub nodes : ℕ

-- `remaining -= size`, and the test that follows
unfoldable pub spend : ℕ → Room → Result Code Room
spend size r = do
  guard (leb size r.remaining) document_too_large
  ok (record r { remaining = r.remaining - size })

-- The first lines of `visit`
unfoldable pub enter : ℕ → Room → Result Code Room
enter depth r = do
  guard (leb depth 16 && leb (suc r.nodes) max_bytes) document_too_large
  ok (record r { nodes = suc r.nodes })

unfoldable pub short : Value → Bool
short (str s) = leb (length s) max_bytes
short _ = true

unfoldable pub finite : Value → Bool
finite (float x) = is_finite x
finite _ = true

module _ (lib : Libraries) where
  -- `visit` on a value that is neither a list nor a dictionary
  unfoldable pub visit_plain : ℕ → Value → Room → Result Code Room
  visit_plain depth v r = do
    r ← enter depth r
    guard (short v) document_too_large
    guard (finite v) invalid_document
    guard (encodable (lib.json v)) invalid_document
    spend (utf8_length (lib.json v)) r

  unfoldable mutual
    pub visit : ℕ → Value → Room → Result Code Room
    visit depth (arr vs) r = do
      r ← enter depth r
      guard (leb (length (items vs)) 65536) document_too_large
      r ← spend (2 + (length (items vs) - 1)) r
      visit_items (suc depth) vs r
    visit depth (dict fs) r = do
      r ← enter depth r
      let n = length (Value.keys fs)
      guard (leb n 64) document_too_large
      r ← spend (2 + n + (n - 1)) r
      visit_fields (suc depth) fs r
    visit depth v r = visit_plain depth v r

    pub visit_items : ℕ → Values → Room → Result Code Room
    visit_items depth nil r = ok r
    visit_items depth (cons v vs) r = do r ← visit depth v r; visit_items depth vs r

    pub visit_fields : ℕ → Fields → Room → Result Code Room
    visit_fields depth end r = ok r
    visit_fields depth (field k v fs) r = do
      r ← visit_plain depth (str k) r
      r ← visit depth v r
      visit_fields depth fs r

  -- `_bounded`
  unfoldable pub bounded : Value → Result Code (Unit {0})
  bounded v = do
    _ ← visit 0 v (record { remaining = max_bytes; nodes = 0 })
    guard (leb (utf8_length (lib.json v)) max_bytes) document_too_large
