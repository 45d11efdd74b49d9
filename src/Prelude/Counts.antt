-- ===== src/Prelude/Counts.antt =====
-- Counting in lists.
use Prim.Native.Nat.{◌+◌}
use mathlib.Core.Path.{◌≡◌, refl}
use mathlib.Core.Bool.{Bool, false, not}
use mathlib.Core.List.{List, [], ◌∷◌}
use native.Mathlib.Omega.{arith}
use package.ottplay_control_server.Prelude.Lists.{length, count_if, keep_if, All}

module _ {ℓ} {A : Type ℓ} (p : A → Bool) where
  -- What a test keeps and what it does not are all of the list.
  pub keep_or_not : (xs : List A) → length (keep_if p xs) + count_if (λ x. not (p x)) xs ≡ length xs
  keep_or_not [] = omega arith
  keep_or_not (x ∷ xs) = ground (arith, keep_or_not xs)

  pub length-keep_if : (xs : List A) → length (keep_if p xs) ≡ count_if p xs
  length-keep_if [] = refl
  length-keep_if (x ∷ xs) = ground (arith, length-keep_if xs)

  pub count_or_not : (xs : List A) → count_if p xs + count_if (λ x. not (p x)) xs ≡ length xs
  count_or_not [] = omega arith
  count_or_not (x ∷ xs) = ground (arith, count_or_not xs)

  pub count_if-eq-zero : (xs : List A) → All (λ x. p x ≡ false) xs → count_if p xs ≡ 0
  count_if-eq-zero [] h = refl
  count_if-eq-zero (x ∷ xs) h = ground (arith, count_if-eq-zero xs h.1)

  pub All-keep_if : (Q : A → Type ℓ) (xs : List A) → All Q xs → All Q (keep_if p xs)
  All-keep_if Q [] h = tt
  All-keep_if Q (x ∷ xs) h = ground (arith, All-keep_if Q xs h.1)

pub count_if_cong {ℓ} :
    {A : Type ℓ} (p q : A → Bool) (xs : List A)
    → All (λ x. p x ≡ q x) xs
    → count_if p xs ≡ count_if q xs
count_if_cong p q [] h = refl
count_if_cong p q (x ∷ xs) h = ground (arith, count_if_cong p q xs h.1)

pub All-map {ℓ κ μ} :
    {A : Type ℓ} (P : A → Type κ) (Q : A → Type μ) (xs : List A)
    → ((x : A) → P x → Q x)
    → All P xs
    → All Q xs
All-map P Q [] f h = tt
All-map P Q (x ∷ xs) f h = (f x h.0, All-map P Q xs f h.1)
