-- ===== src/Base/Bits.antt =====
-- `bit_or` of a number with its low bits clear and a number that fits those bits: a sum.
use Prim.Native.Nat.{
  ℕ, zero, suc, ◌+◌, ◌*◌, ◌/◌, ◌%◌, ◌^◌, ◌≤◌, ◌<◌, max, bit_or, digits, bit_or-bitwise,
}
use mathlib.Core.Path.{◌≡◌, refl, ap, ap₂, ◌∙◌}
use native.Mathlib.Nat.{pow-suc}
use native.Mathlib.Omega.{arith}
use native.Mathlib.Decide.{dec_lt}

abbrev or_digits : ℕ → ℕ → ℕ → ℕ
or_digits n a b = digits (λ y. y) max n a b

-- The fuel of the definition does not matter once it covers the left number.
or_digits_enough : (n m a b : ℕ) → a ≤ n → a ≤ m → or_digits n a b ≡ or_digits m a b
or_digits_enough zero zero zero b p q = refl
or_digits_enough zero (suc m) zero b p q = refl
or_digits_enough (suc n) zero zero b p q = refl
or_digits_enough (suc n) (suc m) zero b p q = refl
or_digits_enough (suc n) (suc m) (suc a) b p q =
    ap (λ d. d * 2 + max (suc a % 2) (b % 2))
      (or_digits_enough n m (suc a / 2) (b / 2) (omega arith) (omega arith))
or_digits_enough _ _ a b p q = absurd (omega arith)

bit_or-lowest : (a b : ℕ) → bit_or a b ≡ bit_or (a / 2) (b / 2) * 2 + max (a % 2) (b % 2)
bit_or-lowest zero b = omega (arith, bit_or-bitwise 0 b, bit_or-bitwise 0 (b / 2))
bit_or-lowest (suc a) b = omega (
  arith,
  bit_or-bitwise (suc a) b,
  bit_or-bitwise (suc a / 2) (b / 2),
  or_digits_enough a (suc a / 2) (suc a / 2) (b / 2) (omega arith) (omega arith),
)

bit_or-zero_below : (n a : ℕ) → a ≤ n → bit_or a 0 ≡ a
bit_or-zero_below zero a h =
    omega (arith, bit_or-bitwise 0 0, ap (λ k. bit_or k 0) {x = a} {y = 0} (omega arith))
bit_or-zero_below (suc n) a h = elim (dec_lt 0 a) [
  | yes p ↦ omega (arith, bit_or-lowest a 0, bit_or-zero_below n (a / 2) (omega arith))
  | no p ↦ omega (arith, bit_or-bitwise 0 0, ap (λ k. bit_or k 0) {x = a} {y = 0} (omega arith))
]

-- The bits from `k` up and the bits below `k` do not meet.
pub bit_or-split :
    (k h g a b : ℕ)
    → a < 2 ^ k
    → b < 2 ^ k
    → bit_or (h * 2 ^ k + a) (g * 2 ^ k + b) ≡ bit_or h g * 2 ^ k + bit_or a b
bit_or-split zero h g a b p q =
    let left : h * 2 ^ 0 + a ≡ h = omega arith in
    let right : g * 2 ^ 0 + b ≡ g = omega arith in
    let a_zero : a ≡ 0 = omega arith in
    let b_zero : b ≡ 0 = omega arith in
    rw (left, right, a_zero, b_zero) (omega (arith, bit_or-bitwise 0 0))
bit_or-split (suc k) h g a b p q =
    let double : (t : ℕ) → t * 2 ^ suc k ≡ 2 * (t * 2 ^ k) =
      λ t. ap (λ u. t * u) (pow-suc 2 k) ∙ omega arith in
    let half : (t c : ℕ) → (t * 2 ^ suc k + c) / 2 ≡ t * 2 ^ k + c / 2 =
      λ t c. omega (arith, double t) in
    let ih =
      bit_or-split k h g (a / 2) (b / 2) (omega (arith, pow-suc 2 k))
        (omega (arith, pow-suc 2 k)) in
    bit_or-lowest (h * 2 ^ suc k + a) (g * 2 ^ suc k + b)
    ∙ ap₂ (λ t u. bit_or t u * 2 + max ((h * 2 ^ suc k + a) % 2) ((g * 2 ^ suc k + b) % 2))
        (half h a) (half g b)
    ∙ omega (arith, double h, double g, double (bit_or h g), ih, bit_or-lowest a b)

pub bit_or-zero : (a : ℕ) → bit_or a 0 ≡ a
bit_or-zero a = bit_or-zero_below a a (omega arith)

pub zero-bit_or : (a : ℕ) → bit_or 0 a ≡ a
zero-bit_or a = bit_or-bitwise 0 a
