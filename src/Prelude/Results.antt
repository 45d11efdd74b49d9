-- ===== src/Prelude/Results.antt =====
-- The outcome of code that may raise, with the error's type as a parameter.
use mathlib.Core.Path.{◌≡◌, refl}
use mathlib.Core.Logic.{◌⊎◌, inl, inr}
use mathlib.Core.Bool.{Bool, true, false}
use mathlib.Core.Option.{Option, none, some}

-- `err` stands for a raised exception.
pub data Result {ℓ} (Raised : Type 0) (Value : Type ℓ) : Type ℓ where
  err : Raised → Result Raised Value
  ok : Value → Result Raised Value

module _ {Raised : Type 0} where
  -- `_require(condition, code)`.
  abbrev pub guard : (condition : Bool) (code : Raised) → Result Raised (Unit {0})
  guard false code = err code
  guard true code = ok tt

  pub guard-eq-ok : (b : Bool) (code : Raised) {u : Unit {0}} → guard b code ≡ ok u → b ≡ true
  guard-eq-ok false code h = cc
  guard-eq-ok true code h = refl

  module _ {ℓ κ} {X : Type ℓ} {Y : Type κ} where
    infixl 5 ◌>>=◌
    -- The statements behind one that may raise.
    abbrev pub ◌>>=◌ : Result Raised X → (X → Result Raised Y) → Result Raised Y
    err code >>= rest = err code
    ok x >>= rest = rest x

    pub >>=-eq-ok :
        (first : Result Raised X) (rest : X → Result Raised Y) {y : Y}
        → (first >>= rest) ≡ ok y
        → (x : X) × (first ≡ ok x) × (rest x ≡ ok y)
    >>=-eq-ok (err code) rest h = cc
    >>=-eq-ok (ok x) rest h = (x, refl, h)

  module _ {ℓ} {X : Type ℓ} where
    infixl 5 ◌>>◌
    abbrev pub ◌>>◌ : Result Raised (Unit {0}) → Result Raised X → Result Raised X
    checked >> rest = checked >>= λ _. rest

    pub Result-cases :
        (r : Result Raised X) → ((x : X) × (r ≡ ok x)) ⊎ ((code : Raised) × (r ≡ err code))
    Result-cases (err code) = inr (code, refl)
    Result-cases (ok x) = inl (x, refl)

    pub ok-injective : {x y : X} → ◌≡◌ {A = Result Raised X} (ok x) (ok y) → x ≡ y
    ok-injective h = cc

-- A value that must be there.
abbrev pub need {ℓ} : {Raised : Type 0} {X : Type ℓ} → Raised → Option X → Result Raised X
need code none = err code
need code (some x) = ok x

pub need-eq-ok {ℓ} :
    {Raised : Type 0} {X : Type ℓ} (code : Raised) (o : Option X) {x : X}
    → need code o ≡ ok x
    → o ≡ some x
need-eq-ok code none h = absurd (cc)
need-eq-ok code (some x) h = cc
