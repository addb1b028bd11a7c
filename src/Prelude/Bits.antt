-- ===== src/Prelude/Bits.antt =====
-- The mask `x & 0x3FFF` of the source as a remainder.
use Prim.Native.Nat.{
  ℕ, zero, suc, ◌+◌, ◌-◌, ◌*◌, ◌/◌, ◌%◌, ◌≤◌, min, bit_and, digits, bit_and-bitwise,
}
use mathlib.Core.Path.{◌≡◌, refl, sym, ◌∙◌}
use native.Mathlib.Omega.{arith}

-- The recursion that `bit_and` stands for, on fuel. More of it than the first number changes nothing.
abbrev mask_on : ℕ → ℕ → ℕ → ℕ
mask_on fuel x m = digits (λ _. zero) min fuel x m

mask_on-suc : (fuel x m : ℕ) → x ≤ fuel → mask_on (suc fuel) x m ≡ mask_on fuel x m
mask_on-suc zero zero m h = refl
mask_on-suc (suc k) zero m h = refl
mask_on-suc zero (suc x) m h = absurd (omega arith)
mask_on-suc (suc k) (suc x) m h =
    let rest = mask_on-suc k (suc x / 2) (m / 2) (omega arith) in omega (arith, rest)

mask_on-more : (k x m : ℕ) → mask_on (k + x) x m ≡ bit_and x m
mask_on-more zero x m = let place : 0 + x ≡ x = omega arith in rw place (sym (bit_and-bitwise x m))
mask_on-more (suc k) x m =
    let place : suc k + x ≡ suc (k + x) = omega arith in
    rw place (mask_on-suc (k + x) x m (omega arith) ∙ mask_on-more k x m)

mask_on-enough : (fuel x m : ℕ) → x ≤ fuel → mask_on fuel x m ≡ bit_and x m
mask_on-enough fuel x m h =
    let place : fuel ≡ (fuel - x) + x = omega arith in rw place (mask_on-more (fuel - x) x m)

-- The lowest digit, and the rest.
bit_and-halves : (x m : ℕ) → bit_and x m ≡ bit_and (x / 2) (m / 2) * 2 + min (x % 2) (m % 2)
bit_and-halves zero m =
    let whole = bit_and-bitwise 0 m in
    let rest = bit_and-bitwise 0 (m / 2) in omega (arith, whole, rest)
bit_and-halves (suc x) m =
    let rest = mask_on-enough x (suc x / 2) (m / 2) (omega arith) in
    let whole = bit_and-bitwise (suc x) m in omega (arith, rest, whole)

bit_and-zero : (bound x : ℕ) → x ≤ bound → bit_and x 0 ≡ 0
bit_and-zero bound zero h = refl
bit_and-zero zero (suc x) h = absurd (omega arith)
bit_and-zero (suc bound) (suc x) h =
    let rest = bit_and-zero bound (suc x / 2) (omega arith) in
    let step = bit_and-halves (suc x) 0 in omega (arith, rest, step)

-- A mask that ends in a one keeps the lowest digit.
bit_and-odd : (a m : ℕ) → bit_and a (2 * m + 1) ≡ bit_and (a / 2) m * 2 + a % 2
bit_and-odd a m =
    let half : (2 * m + 1) / 2 ≡ m = omega arith in
    bit_and-halves a (2 * m + 1) ∙ rw half (omega arith)

low_four : (a m : ℕ) → bit_and a (16 * m + 15) ≡ bit_and (a / 16) m * 16 + a % 16
low_four a m =
    let mask : 16 * m + 15 ≡ 2 * (2 * (2 * (2 * m + 1) + 1) + 1) + 1 = omega arith in
    let shift : a / 2 / 2 / 2 / 2 ≡ a / 16 = omega arith in
    rw
      (
        mask,
        bit_and-odd a,
        bit_and-odd (a / 2),
        bit_and-odd (a / 2 / 2),
        bit_and-odd (a / 2 / 2 / 2),
        shift,
      )
      (omega arith)

bit_and-3 : (a : ℕ) → bit_and a 3 ≡ a % 4
bit_and-3 a = omega (
  arith,
  bit_and-halves a 3,
  bit_and-halves (a / 2) 1,
  bit_and-zero (a / 2 / 2) (a / 2 / 2) (omega arith),
)

pub bit_and-0x3FFF : (a : ℕ) → bit_and a 0x3FFF ≡ a % 16384
bit_and-0x3FFF a = omega (
  arith,
  low_four a 0x3FF,
  low_four (a / 16) 0x3F,
  low_four (a / 16 / 16) 3,
  bit_and-3 (a / 16 / 16 / 16),
)
