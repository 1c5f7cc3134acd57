-- ===== src/Runtime/Base64/Words.antt =====
-- The words that Base64.c packs bytes and characters into, and their fields, as arithmetic.
use Prim.Native.Nat.{bit_and, bit_or}
use native.Mathlib.Nat.{mul-div_cancel, one-le-pow}
use tyr.Prelude.{ℕ, ◌+◌, ◌*◌, ◌/◌, ◌%◌, ◌^◌, ◌<◌, ◌≡◌, ◌∙◌, ap, arith}
use tyr.Prelude.Bits.{zero-bit_or, bit_or-add, bit_and-shift, bit_and-63, bit_and-255}
use tyr.Runtime.{u32_mod}

-- Three bytes, the first one highest.
abbrev pub word_of : (a b c : ℕ) → ℕ
word_of a b c = a * 65536 + b * 256 + c

module _ (k x : ℕ) where
  masked : (m : ℕ) → bit_and x (m * 2 ^ k) / 2 ^ k ≡ bit_and (x / 2 ^ k) m
  masked m =
      ap (λ (t : ℕ). t / 2 ^ k) (bit_and-shift k x m)
      ∙ mul-div_cancel (bit_and (x / 2 ^ k) m) (omega (arith, one-le-pow k 2))

  pub six_bits : bit_and x (63 * 2 ^ k) / 2 ^ k ≡ x / 2 ^ k % 64
  six_bits = masked 63 ∙ bit_and-63 (x / 2 ^ k)

  pub eight_bits : bit_and x (255 * 2 ^ k) / 2 ^ k ≡ x / 2 ^ k % 256
  eight_bits = masked 255 ∙ bit_and-255 (x / 2 ^ k)

-- The three steps of packing bytes.
module _ (a b c : ℕ) (ha : a < 256) (hb : b < 256) (hc : c < 256) where
  pub packed_bytes :
      bit_or
        (bit_or (bit_or 0 (a * 2 ^ (8 * 2) % u32_mod)) (b * 2 ^ (8 * 1) % u32_mod))
        (c * 2 ^ (8 * 0) % u32_mod)
      ≡ word_of a b c
  packed_bytes =
      let first : a * 2 ^ (8 * 2) % u32_mod ≡ a * 65536 = omega arith in
      let second : b * 2 ^ (8 * 1) % u32_mod ≡ b * 256 = omega arith in
      let third : c * 2 ^ (8 * 0) % u32_mod ≡ c = omega arith in
      let joined : a * 65536 + b * 256 ≡ (a * 256 + b) * 2 ^ 8 = omega arith in
      rw (first, second, third, zero-bit_or (a * 65536), bit_or-add 16 a (b * 256) (omega arith))
        (rw (joined, bit_or-add 8 (a * 256 + b) c hc) (omega arith))

-- The steps of packing indices, up to four.
module _ (i j k l : ℕ) (hi : i < 64) (hj : j < 64) (hk : k < 64) (hl : l < 64) where
  pub packed_two :
      bit_or (bit_or 0 (i * 2 ^ (6 * 3) % u32_mod)) (j * 2 ^ (6 * 2) % u32_mod)
      ≡ (i * 64 + j) * 2 ^ 12
  packed_two =
      let first : i * 2 ^ (6 * 3) % u32_mod ≡ i * 262144 = omega arith in
      let second : j * 2 ^ (6 * 2) % u32_mod ≡ j * 4096 = omega arith in
      rw (first, second, zero-bit_or (i * 262144), bit_or-add 18 i (j * 4096) (omega arith))
        (omega arith)

  pub packed_three :
      bit_or
        (bit_or (bit_or 0 (i * 2 ^ (6 * 3) % u32_mod)) (j * 2 ^ (6 * 2) % u32_mod))
        (k * 2 ^ (6 * 1) % u32_mod)
      ≡ (i * 4096 + j * 64 + k) * 2 ^ 6
  packed_three =
      let third : k * 2 ^ (6 * 1) % u32_mod ≡ k * 64 = omega arith in
      rw (packed_two, third, bit_or-add 12 (i * 64 + j) (k * 64) (omega arith)) (omega arith)

  pub packed_four :
      bit_or
        (bit_or
          (bit_or (bit_or 0 (i * 2 ^ (6 * 3) % u32_mod)) (j * 2 ^ (6 * 2) % u32_mod))
          (k * 2 ^ (6 * 1) % u32_mod))
        (l * 2 ^ (6 * 0) % u32_mod)
      ≡ i * 262144 + j * 4096 + k * 64 + l
  packed_four =
      let fourth : l * 2 ^ (6 * 0) % u32_mod ≡ l = omega arith in
      rw (packed_three, fourth, bit_or-add 6 (i * 4096 + j * 64 + k) l hl) (omega arith)
