-- ===== src/Layout.antt =====
-- `llvm::DataLayout`, which LLVM implements: the sizes of types and the byte order of the target.
-- With them, how a number of a type stands in memory.
use tyr.Prelude.{
  ℕ, ◌%◌, ◌≡◌, ◌∙◌, Bool, true, false, not, ◌&&◌, Option, none, some, List, reverse, ◌==◌,
  if◌then◌else◌, length, ◌^◌, ◌<◌,
}
use tyr.Prelude.Bytes.{le_bytes, le_value, length-le_bytes, le_value-le_bytes, length-reverse}
use mathlib.Core.List.{reverse-reverse}
use tyr.Ir.{Ty, int_type, pointer_to, int64}

-- `is_little_endian` is what `isLittleEndian` answers while the code is emitted. The data layout of the
-- target is set by a later pass, so the order in which numbers are stored when the code runs,
-- `stores_little_endian`, is another question. The sizes are taken to be the same in both layouts.
-- `alloc_size` is `getTypeAllocSize`, the distance from one array element to the next;
-- `store_size` is the number of bytes that a load or a store touches.
pub record DataLayout : Type 0 where
  pub is_little_endian : Bool
  pub stores_little_endian : Bool
  pub alloc_size : Ty → ℕ
  pub store_size : Ty → ℕ
  pub size_in_bits : Ty → ℕ

-- What LLVM promises of a 64-bit integer on every target.
pub record IsLayout (dl : DataLayout) : Type 0 where
  pub int64_alloc : dl.alloc_size int64 ≡ 8
  pub int64_store : dl.store_size int64 ≡ 8
  pub int64_bits : dl.size_in_bits int64 ≡ 64

-- The bytes of a number in the target's order.
unfoldable pub encode : Bool → ℕ → ℕ → List ℕ
encode little n v = if little then le_bytes n v else reverse (le_bytes n v)

unfoldable pub decode : Bool → List ℕ → ℕ
decode little bs = if little then le_value bs else le_value (reverse bs)

pub length-encode : (little : Bool) (n v : ℕ) → length (encode little n v) ≡ n
unfolding encode
length-encode true n v = length-le_bytes n v
length-encode false n v = length-reverse (le_bytes n v) ∙ length-le_bytes n v

pub decode-encode : (little : Bool) (n v : ℕ) → v < 256 ^ n → decode little (encode little n v) ≡ v
unfolding encode decode
decode-encode true n v h = le_value-le_bytes n v h
decode-encode false n v h = rw (reverse-reverse (le_bytes n v)) (le_value-le_bytes n v h)

-- `getPointerElementType`, of a pointer type only.
unfoldable pub pointee : Ty → Option Ty
pointee (pointer_to t) = some t
pointee t = none

unfoldable pub is_int : Ty → Bool
is_int (int_type n) = true
is_int t = false

unfoldable pub is_pointer : Ty → Bool
is_pointer (pointer_to t) = true
is_pointer t = false

-- `llvm.bswap` of a number of `n` bytes.
unfoldable pub bswap : ℕ → ℕ → ℕ
bswap n v = le_value (reverse (le_bytes n v))

-- The types whose bytes are swapped: an integer of odd bits stays as it is.
abbrev pub swaps : DataLayout → Ty → Bool
swaps dl t = not dl.is_little_endian && not (is_int t && not (dl.size_in_bits t % 8 == 0))
