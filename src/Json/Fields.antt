-- ===== src/Json/Fields.antt =====
-- Reading single fields of a JSON object: each is absent, or a value that may have another type.
use ottplay_control_server.Prelude.{
  ℕ, ◌≡◌, Bool, true, false, ◌&&◌, ◌||◌, Option, none, some, List, arith, ◌==◌, all,
}
use ottplay_control_server.Text.{Text, text_eq, elem}
use ottplay_control_server.Json.Value
use ottplay_control_server.Json.Value.{Value, Fields, str, bool, int, null, arr, dict, items}

-- `matches(pattern, value)`, with the text
unfoldable pub matching : (Text → Bool) → Option Value → Option Text
matching p (some (str s)) = elim (p s) [ true ↦ some s | false ↦ none ]
matching p _ = none

unfoldable pub bool_of : Option Value → Option Bool
bool_of (some (bool b)) = some b
bool_of _ = none

-- An `int` that is not negative.
unfoldable pub nat_of : Option Value → Option ℕ
nat_of (some (int false n)) = some n
nat_of _ = none

unfoldable pub list_of : Option Value → Option (List Value)
list_of (some (arr vs)) = some (items vs)
list_of _ = none

-- `type(value) is int and value == n`
unfoldable pub is_number : ℕ → Option Value → Bool
is_number n (some (int false m)) = m == n
is_number n _ = false

unfoldable pub is_text : Text → Option Value → Bool
is_text t (some (str s)) = text_eq s t
is_text t _ = false

-- `required <= set(value) <= required | optional`
unfoldable pub keys_between : Fields → List Text → List Text → Bool
keys_between fs required optional =
    all (λ k. elem k (Value.keys fs)) required
    && all (λ k. elem k required || elem k optional) (Value.keys fs)

pub matching_lem :
    (p : Text → Bool) (o : Option Value) (s : Text) → matching p o ≡ some s → p s ≡ true
unfolding matching
matching_lem p (some (str t)) s h = ground arith
matching_lem p none s h = absurd (cc)
matching_lem p (some _) s h = absurd (cc)

pub matching-some : (p : Text → Bool) (s : Text) → p s ≡ true → matching p (some (str s)) ≡ some s
unfolding matching
matching-some p s h = ground arith
