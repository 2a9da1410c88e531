-- ===== src/Common/Bits.antt =====
-- The binary digits of a machine word, and what the native bit operations do to them.
use Prim.Native.Nat.{
  ℕ, zero, suc, ◌+◌, ◌-◌, ◌*◌, ◌/◌, ◌%◌, ◌^◌, ◌≤◌, ◌<◌, min, max, bit_and, bit_or, digits,
  bit_and-bitwise, bit_or-bitwise,
}
use mathlib.Core.Path.{◌≡◌, refl, sym, ap, ◌∙◌}
use native.Mathlib.Nat.{
  pow-suc, one-le-pow, mul-one, mod-lt, div-add-mod, mul-add-mod_self_left, mod-eq_of_lt,
}
use native.Mathlib.Omega.{arith}
use lanrunner.Common.Tests.{ltb, ◌==◌, if◌then◌else◌}

-- Digit `k` of `x`, 0 or 1.
pub bit : ℕ → ℕ → ℕ
bit x zero = x % 2
bit x (suc k) = bit (x / 2) k

pub bit-lt-two : (x k : ℕ) → bit x k < 2
unfolding bit
bit-lt-two x zero = omega arith
bit-lt-two x (suc k) = bit-lt-two (x / 2) k

-- An operation that goes digit by digit, whatever it does to one digit.
module _ (base : ℕ → ℕ) (op : ℕ → ℕ → ℕ)
    (splits : (y : ℕ) → base y ≡ base (y / 2) * 2 + op 0 (y % 2)) where
  enough :
      (fuel more y : ℕ) {x : ℕ}
      → x ≤ more
      → x ≤ fuel
      → digits base op fuel x y ≡ digits base op more x y
  enough zero zero y {x = zero} le1 le2 = refl
  enough zero (suc more) y {x = zero} le1 le2 = refl
  enough (suc fuel) zero y {x = zero} le1 le2 = refl
  enough (suc fuel) (suc more) y {x = zero} le1 le2 = refl
  enough zero more y {x = suc x} le1 le2 = absurd (omega arith)
  enough (suc fuel) zero y {x = suc x} le1 le2 = absurd (omega arith)
  enough (suc fuel) (suc more) y {x = suc x} le1 le2 =
      ap (λ (t : ℕ). t * 2 + op (suc x % 2) (y % 2))
        (enough fuel more (y / 2) (omega arith) (omega arith))

  low_digit :
      (x y : ℕ)
      → digits base op x x y ≡ digits base op (x / 2) (x / 2) (y / 2) * 2 + op (x % 2) (y % 2)
  low_digit zero y = splits y
  low_digit (suc x) y =
      ap (λ (t : ℕ). t * 2 + op (suc x % 2) (y % 2))
        (enough x (suc x / 2) (y / 2) (omega arith) (omega arith))

bit_and_low : (x y : ℕ) → bit_and x y ≡ bit_and (x / 2) (y / 2) * 2 + min (x % 2) (y % 2)
bit_and_low x y =
    bit_and-bitwise x y
    ∙ low_digit (λ t. zero) min (λ t. omega arith) x y
    ∙ ap (λ (t : ℕ). t * 2 + min (x % 2) (y % 2)) (sym (bit_and-bitwise (x / 2) (y / 2)))

bit_or_low : (x y : ℕ) → bit_or x y ≡ bit_or (x / 2) (y / 2) * 2 + max (x % 2) (y % 2)
bit_or_low x y =
    bit_or-bitwise x y
    ∙ low_digit (λ t. t) max (λ t. omega arith) x y
    ∙ ap (λ (t : ℕ). t * 2 + max (x % 2) (y % 2)) (sym (bit_or-bitwise (x / 2) (y / 2)))

bit_or-half : (a b : ℕ) → bit_or a b / 2 ≡ bit_or (a / 2) (b / 2)
bit_or-half a b = omega (arith, bit_or_low a b)

pub bit-bit_or : (a b k : ℕ) → bit (bit_or a b) k ≡ max (bit a k) (bit b k)
unfolding bit
bit-bit_or a b zero = omega (arith, bit_or_low a b)
bit-bit_or a b (suc k) = rw (bit_or-half a b) (bit-bit_or (a / 2) (b / 2) k)

pub bit-zero : (k : ℕ) → bit 0 k ≡ 0
unfolding bit
bit-zero zero = refl
bit-zero (suc k) = bit-zero k

pow-half : (j : ℕ) → 2 ^ suc j / 2 ≡ 2 ^ j
pow-half j = omega (arith, pow-suc 2 j)

pub bit-pow : (j k : ℕ) → bit (2 ^ j) k ≡ (if j == k then 1 else 0)
unfolding bit
bit-pow zero zero = refl
bit-pow zero (suc k) = rw (bit-zero k) (ground arith)
bit-pow (suc j) zero = ground (arith, pow-suc 2 j)
bit-pow (suc j) (suc k) = rw (pow-half j, bit-pow j k) (ground arith)

mul-pow-half : (x s : ℕ) → x * 2 ^ suc s / 2 ≡ x * 2 ^ s
mul-pow-half x s = omega (arith, ap (λ (t : ℕ). x * t) (pow-suc 2 s))

even-mul-pow : (x s : ℕ) → x * 2 ^ suc s % 2 ≡ 0
even-mul-pow x s = omega (arith, ap (λ (t : ℕ). x * t) (pow-suc 2 s))

pub bit-shl : (x s k : ℕ) → bit (x * 2 ^ s) k ≡ (if ltb k s then 0 else bit x (k - s))
unfolding bit
bit-shl x zero k = rw (mul-one x) (ground arith)
bit-shl x (suc s) zero = rw (even-mul-pow x s) (ground arith)
bit-shl x (suc s) (suc k) = rw (mul-pow-half x s, bit-shl x s k) (ground arith)

half-split : (x p q r : ℕ) → x ≡ 2 * p * q + r → x / 2 ≡ p * q + r / 2
half-split x p q r h = omega arith

mod-half : (x p : ℕ) → 0 < p → x % (2 * p) / 2 ≡ x / 2 % p
mod-half x p h =
    let r = x % (2 * p) in
    let bound : r / 2 < p = omega (arith, mod-lt x {m = 2 * p} (omega arith)) in
    rw (half-split x p (x / (2 * p)) r (sym (div-add-mod x (2 * p))))
      (rw (mul-add-mod_self_left p (x / (2 * p)) (r / 2)) (sym (mod-eq_of_lt bound)))

pow-double : (n : ℕ) → 2 ^ suc n ≡ 2 * 2 ^ n
pow-double n = omega (arith, pow-suc 2 n)

mod-pow-half : (x n : ℕ) → x % 2 ^ suc n / 2 ≡ x / 2 % 2 ^ n
mod-pow-half x n = rw (pow-double n) (mod-half x (2 ^ n) (one-le-pow n 2 (omega arith)))

mod-pow-even : (x n : ℕ) → x % 2 ^ suc n % 2 ≡ x % 2
mod-pow-even x n =
    omega (arith, div-add-mod x (2 ^ suc n), ap (λ (t : ℕ). t * (x / 2 ^ suc n)) (pow-double n))

pub bit-mod : (x n k : ℕ) → k < n → bit (x % 2 ^ n) k ≡ bit x k
unfolding bit
bit-mod x zero k h = elim h [ ]
bit-mod x (suc n) zero h = mod-pow-even x n
bit-mod x (suc n) (suc k) h = rw (mod-pow-half x n) (bit-mod (x / 2) n k (omega arith))

no_digits : (fuel x : ℕ) → digits (λ t. zero) min fuel x 0 ≡ 0
no_digits zero x = refl
no_digits (suc fuel) zero = refl
no_digits (suc fuel) (suc x) = omega (arith, no_digits fuel (suc x / 2))

bit_and_none : (x : ℕ) → bit_and x 0 ≡ 0
bit_and_none x = bit_and-bitwise x 0 ∙ no_digits x x

-- `w & (1 << k)` keeps digit `k` in its place.
pub bit_and-pow : (w k : ℕ) → bit_and w (2 ^ k) ≡ bit w k * 2 ^ k
unfolding bit
bit_and-pow w zero = omega (arith, bit_and_low w 1, bit_and_none (w / 2))
bit_and-pow w (suc k) = omega (
  arith,
  bit_and_low w (2 ^ suc k),
  ap (λ (t : ℕ). bit_and (w / 2) t) (pow-half k),
  bit_and-pow (w / 2) k,
  pow-double k,
  ap (λ (t : ℕ). bit (w / 2) k * t) (pow-double k),
)
