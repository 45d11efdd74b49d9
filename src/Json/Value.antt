-- ===== src/Json/Value.antt =====
-- The Python values that `json.loads` makes. A `dict` keeps its items in order; a `float` is a
-- dyadic rational, an infinity or NaN.
use ottplay_control_server.Prelude.{
  ℕ, ◌*◌, ◌^◌, Bool, false, not, ◌&&◌, Option, none, some, List, [], ◌∷◌, ◌==◌, if◌then◌else◌, all,
  ◌≡◌, arith,
}
use ottplay_control_server.Text.{Text, text_eq, elem}

-- `dyadic negative m up down` is ±m · 2^up / 2^down.
pub data Float : Type 0 where
  dyadic : Bool → ℕ → ℕ → ℕ → Float
  infinite : Bool → Float
  nan : Float

mutual
  pub data Value : Type 0 where
    null : Value
    bool : Bool → Value
    int : Bool → ℕ → Value
    float : Float → Value
    str : Text → Value
    arr : Values → Value
    dict : Fields → Value

  pub data Values : Type 0 where
    nil : Values
    cons : Value → Values → Values

  pub data Fields : Type 0 where
    end : Fields
    field : Text → Value → Fields → Fields

unfoldable pub items : Values → List Value
items nil = []
items (cons v vs) = v ∷ items vs

unfoldable pub of_items : List Value → Values
of_items [] = nil
of_items (v ∷ vs) = cons v (of_items vs)

pub items-of_items : (vs : List Value) → items (of_items vs) ≡ vs
unfolding items of_items
items-of_items [] = ground arith
items-of_items (v ∷ vs) = ground (arith, items-of_items vs)

pub of_items-items : (vs : Values) → of_items (items vs) ≡ vs
unfolding items of_items
of_items-items nil = ground arith
of_items-items (cons v vs) = ground (arith, of_items-items vs)

unfoldable pub keys : Fields → List Text
keys end = []
keys (field k v fs) = k ∷ keys fs

-- `value.get(key)`, where `none` is a missing key.
unfoldable pub get : Text → Fields → Option Value
unfolding text_eq
get k end = none
get k (field j v fs) = if text_eq j k then some v else get k fs

-- `value == 1` for an `int` or a `float`: `int negative n` is ±n.
unfoldable pub is_one : Value → Bool
is_one (int negative n) = not negative && n == 1
is_one (float (dyadic negative m up down)) = not negative && m * 2 ^ up == 2 ^ down
is_one _ = false

-- `set(value) == set(keys)`
unfoldable pub same_keys : Fields → List Text → Bool
unfolding keys elem
same_keys fs ks = all (λ k. elem k (keys fs)) ks && all (λ k. elem k ks) (keys fs)
