-- ===== src/Prelude/Bits.antt =====
-- Masks, shifts and disjoint fields of machine words, as arithmetic.
use Prim.Native.Nat.{
  ℕ, zero, suc, ◌+◌, ◌*◌, ◌/◌, ◌%◌, ◌^◌, ◌≤◌, ◌<◌, min, max, digits, bit_and, bit_or,
  bit_and-bitwise, bit_or-bitwise,
}
use mathlib.Core.Path.{◌≡◌, refl, sym, ap, ◌∙◌}
use native.Mathlib.Omega.{arith}
use native.Mathlib.Nat.{pow-suc, div-div-eq-div-mul}

module _ (z : ℕ → ℕ) (f : ℕ → ℕ → ℕ) where
  -- As many rounds as the first number has digits are enough, and more do no harm.
  digits_enough : (n m a b : ℕ) → a ≤ n → a ≤ m → digits z f n a b ≡ digits z f m a b
  digits_enough zero zero a b p q = refl
  digits_enough zero (suc m) zero b p q = refl
  digits_enough zero (suc m) (suc a) b p q = absurd (omega arith)
  digits_enough (suc n) zero zero b p q = refl
  digits_enough (suc n) zero (suc a) b p q = absurd (omega arith)
  digits_enough (suc n) (suc m) zero b p q = refl
  digits_enough (suc n) (suc m) (suc a) b p q =
      omega (arith, digits_enough n m (suc a / 2) (b / 2) (omega arith) (omega arith))

pub zero-bit_or : (b : ℕ) → bit_or 0 b ≡ b
zero-bit_or b = bit_or-bitwise 0 b

zero-bit_and : (b : ℕ) → bit_and 0 b ≡ 0
zero-bit_and b = bit_and-bitwise 0 b

or_halves : (a b : ℕ) → bit_or a b ≡ bit_or (a / 2) (b / 2) * 2 + max (a % 2) (b % 2)
or_halves zero b = omega (arith, zero-bit_or b, zero-bit_or (b / 2))
or_halves (suc a) b = omega (
  arith,
  bit_or-bitwise (suc a) b,
  bit_or-bitwise (suc a / 2) (b / 2),
  digits_enough (λ b. b) max a (suc a / 2) (suc a / 2) (b / 2) (omega arith) (omega arith),
)

and_halves : (a b : ℕ) → bit_and a b ≡ bit_and (a / 2) (b / 2) * 2 + min (a % 2) (b % 2)
and_halves zero b = omega (arith, zero-bit_and b, zero-bit_and (b / 2))
and_halves (suc a) b = omega (
  arith,
  bit_and-bitwise (suc a) b,
  bit_and-bitwise (suc a / 2) (b / 2),
  digits_enough (λ b. zero) min a (suc a / 2) (suc a / 2) (b / 2) (omega arith) (omega arith),
)

zero_right : (n a : ℕ) → a ≤ n → (bit_or a 0 ≡ a) × (bit_and a 0 ≡ 0)
zero_right n zero h = (refl, refl)
zero_right zero (suc a) h = absurd (omega arith)
zero_right (suc n) (suc a) h =
    let ih = zero_right n (suc a / 2) (omega arith) in
    (omega (arith, or_halves (suc a) 0, ih.0), omega (arith, and_halves (suc a) 0, ih.1))

pub bit_or-zero : (a : ℕ) → bit_or a 0 ≡ a
bit_or-zero a = (zero_right a a (omega arith)).0

bit_and-zero : (a : ℕ) → bit_and a 0 ≡ 0
bit_and-zero a = (zero_right a a (omega arith)).1

-- `(q << k) | r`, where `r` has at most `k` digits.
pub bit_or-add : (k q r : ℕ) → r < 2 ^ k → bit_or (q * 2 ^ k) r ≡ q * 2 ^ k + r
bit_or-add zero q r h =
    let none_set : r ≡ 0 = omega arith in
    let same : q * 2 ^ 0 ≡ q = omega arith in rw (none_set, same) (omega (arith, bit_or-zero q))
bit_or-add (suc k) q r h =
    let twice : q * 2 ^ suc k ≡ q * 2 ^ k * 2 =
      omega (arith, ap (λ (t : ℕ). q * t) (pow-suc 2 k)) in
    let half : q * 2 ^ k * 2 / 2 ≡ q * 2 ^ k = omega arith in
    let low : r / 2 < 2 ^ k = omega (arith, pow-suc 2 k) in
    rw twice (
      omega (
        arith,
        or_halves (q * 2 ^ k * 2) r,
        ap (λ (t : ℕ). bit_or t (r / 2)) half,
        bit_or-add k q (r / 2) low,
      ))

pow_twice : (k : ℕ) → 2 ^ suc k ≡ 2 * 2 ^ k
pow_twice k = omega (arith, pow-suc 2 k)

-- `x & (m << k)`, which is a mask of the digits from `k` on.
pub bit_and-shift : (k x m : ℕ) → bit_and x (m * 2 ^ k) ≡ bit_and (x / 2 ^ k) m * 2 ^ k
bit_and-shift zero x m =
    let same : m * 2 ^ 0 ≡ m = omega arith in
    let same' : x / 2 ^ 0 ≡ x = omega arith in rw (same, same') (omega arith)
bit_and-shift (suc k) x m =
    let twice : m * 2 ^ suc k ≡ m * 2 ^ k * 2 =
      omega (arith, ap (λ (t : ℕ). m * t) (pow-suc 2 k)) in
    let half : m * 2 ^ k * 2 / 2 ≡ m * 2 ^ k = omega arith in
    let down : x / 2 ^ suc k ≡ x / 2 / 2 ^ k =
      ap (λ (t : ℕ). x / t) (pow_twice k) ∙ sym (div-div-eq-div-mul x 2 (2 ^ k)) in
    let step = bit_and-shift k (x / 2) m in
    rw (twice, down)
      (omega (
        arith,
        and_halves x (m * 2 ^ k * 2),
        ap (λ (t : ℕ). bit_and (x / 2) t) half,
        step,
        ap (λ (t : ℕ). bit_and (x / 2 / 2 ^ k) m * t) (pow-suc 2 k),
      ))

-- A mask that ends in a one.
bit_and-odd : (x m : ℕ) → bit_and x (m * 2 + 1) ≡ bit_and (x / 2) m * 2 + x % 2
bit_and-odd x m =
    let half : (m * 2 + 1) / 2 ≡ m = omega arith in
    omega (arith, and_halves x (m * 2 + 1), ap (λ (t : ℕ). bit_and (x / 2) t) half)

bit_and-1 : (x : ℕ) → bit_and x 1 ≡ x % 2
bit_and-1 x = omega (arith, bit_and-odd x 0, bit_and-zero (x / 2))

pub bit_and-63 : (x : ℕ) → bit_and x 63 ≡ x % 64
bit_and-63 x = omega (
  arith,
  bit_and-odd x 31,
  bit_and-odd (x / 2) 15,
  bit_and-odd (x / 2 / 2) 7,
  bit_and-odd (x / 2 / 2 / 2) 3,
  bit_and-odd (x / 2 / 2 / 2 / 2) 1,
  bit_and-1 (x / 2 / 2 / 2 / 2 / 2),
)

pub bit_and-255 : (x : ℕ) → bit_and x 255 ≡ x % 256
bit_and-255 x = omega (arith, bit_and-odd x 127, bit_and-odd (x / 2) 63, bit_and-63 (x / 2 / 2))
