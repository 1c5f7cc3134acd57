-- ===== src/Runtime/Base64.antt =====
-- lib/compiler/Runtime/Base64.c. A loop recurs on the rounds that it has left.
pub mod Alphabet
pub mod Bytes
pub mod Decode
pub mod Decoded
pub mod Encode
pub mod Generated
pub mod Loop
pub mod Past
pub mod Rebuilt
pub mod Text
pub mod Words
use Prim.Native.Nat.{bit_and, bit_or}
use tyr.Prelude.{
  ℕ, zero, suc, ◌+◌, ◌-◌, ◌*◌, ◌/◌, ◌%◌, ◌^◌, Bool, true, false, not, ◌&&◌, ◌==◌, ltb, leb,
  if◌then◌else◌, replicate,
}
use tyr.Memory.{Ptr, null, Cmd, pure, ◌>>=◌, ◌>>◌, store_bytes, Allocator, malloc, calloc, free}
use tyr.Gen.{u64_mod}
use tyr.Runtime.{flag, u32_mod, load_byte, store_byte, load_u64, store_u64}

-- The sum is of 32 bits, in which a negative number wraps, and is cut to a byte.
unfoldable pub b64_index_to_char : ℕ → ℕ
b64_index_to_char index =
    (index
      + b'A' * flag (ltb index 26)
      + (b'a' - 26) * flag (leb 26 index && ltb index 52)
      + (u32_mod + b'0' - 52) * flag (leb 52 index && ltb index 62)
      + (u32_mod + b'-' - 62) * flag (index == 62)
      + (b'_' - 63) * flag (index == 63)
      + (u32_mod + b'=' - 64) * flag (index == 64))
    % u32_mod
    % 256

unfoldable pub b64_char_to_index : ℕ → ℕ
b64_char_to_index c =
    if leb b'A' c && leb c b'Z'
    then c - b'A'
    else if leb b'a' c && leb c b'z'
    then c - b'a' + 26
    else if leb b'0' c && leb c b'9'
    then c - b'0' + 52
    else if c == b'-'
    then 62
    else if c == b'_'
    then 63
    else if c == b'='
    then 64
    else 0

-- The loop over `j`: the bytes from `str_iter` on go into a word, highest first, with 0 for those
-- behind the end. Answers the word, and the next `str_iter`.
unfoldable pub pack_bytes : (rounds : ℕ) → Ptr → (serialized_len str_iter packed : ℕ) → Cmd (ℕ × ℕ)
pack_bytes zero p len it packed = pure (packed, it)
pack_bytes (suc j) p len it packed = do
  b ← load_byte p (8 + it)
  pack_bytes j p len ((it + 1) % u64_mod)
      (bit_or packed (flag (ltb it len) * b * 2 ^ (8 * j) % u32_mod))

-- The loop over `k`: six bits of the word to a character, from `limit` on the padding. Answers the
-- next `b64_iter`.
unfoldable pub unpack_chars : (rounds : ℕ) → Ptr → (limit b64_iter packed : ℕ) → Cmd ℕ
unpack_chars zero q limit it packed = pure it
unpack_chars (suc k) q limit it packed = do
  store_byte q (8 + it) (
      b64_index_to_char
        (if leb limit it then 64 else bit_and packed (63 * 2 ^ (k * 6)) / 2 ^ (k * 6)))
  unpack_chars k q limit ((it + 1) % u64_mod) packed

unfoldable pub encode_loop :
    (rounds : ℕ) → (p q : Ptr) → (serialized_len limit str_iter b64_iter : ℕ) → Cmd (Unit {0})
encode_loop zero p q len limit it out = pure tt
encode_loop (suc n) p q len limit it out = do
  r ← pack_bytes 3 p len it 0
  out' ← unpack_chars 4 q limit out r.0
  encode_loop n p q len limit r.1 out'

-- The loop over `j`: four characters into a word. A padding character is counted, and stays the next
-- one. Answers the word, the next `b64_iter` and `num_pad`.
unfoldable pub take_chars : (rounds : ℕ) → Ptr → (b64_iter num_pad packed : ℕ) → Cmd (ℕ × ℕ × ℕ)
take_chars zero q it num_pad packed = pure (packed, it, num_pad)
take_chars (suc j) q it num_pad packed = do
  c ← load_byte q (8 + it)
  let b64_index = b64_char_to_index c
  elim (b64_index == 64) [
    | true ↦ take_chars j q it ((num_pad + 1) % 256) packed
    | false ↦
        take_chars j q ((it + 1) % u64_mod) num_pad
          (bit_or packed (flag (not (b64_index == 64)) * b64_index * 2 ^ (6 * j) % u32_mod))
  ]

-- The loop over `k`: three bytes of the word. Answers the next `decoded_iter`.
unfoldable pub put_bytes : (rounds : ℕ) → Ptr → (decoded_iter packed : ℕ) → Cmd ℕ
put_bytes zero p it packed = pure it
put_bytes (suc k) p it packed = do
  store_byte p (8 + it) (bit_and packed (255 * 2 ^ (8 * k)) / 2 ^ (8 * k))
  put_bytes k p ((it + 1) % u64_mod) packed

-- Answers `num_pad`.
unfoldable pub decode_loop :
    (rounds : ℕ) → (q p : Ptr) → (b64_iter num_pad decoded_iter : ℕ) → Cmd ℕ
decode_loop zero q p it num_pad out = pure num_pad
decode_loop (suc n) q p it num_pad out = do
  r ← take_chars 4 q it num_pad 0
  out' ← put_bytes 3 p out r.0
  decode_loop n q p r.1 r.2 out'

-- The end of `tyr_deserialize_from_base64`: what was decoded is not freed if `d` fails.
unfoldable pub finish_decoding : (Ptr → Cmd Ptr) → Ptr → Cmd Ptr
finish_decoding d decoded = do
  deserialized ← d decoded
  if deserialized == null then pure null else (do free decoded; pure deserialized)

module _ (al : Allocator) (little : Bool) where
  -- Neither the allocation is tested, nor is the serialized buffer freed.
  unfoldable pub encode_object : Ptr → Cmd Ptr
  encode_object serialized = do
    serialized_len ← load_u64 little serialized
    let num_pad = (3 - serialized_len % 3) % 3
    let packed_size = serialized_len / 3 + flag (not (serialized_len % 3 == 0))
    let b64_len = packed_size * 4 % u64_mod
    b64_str ← calloc al ((b64_len + 8) % u64_mod)
    store_u64 little b64_str b64_len
    encode_loop packed_size serialized b64_str serialized_len
        ((b64_len + u64_mod - num_pad) % u64_mod) 0 0
    pure b64_str

  -- `tyr_serialize_to_base64`
  unfoldable pub serialize_to_base64 : (Ptr → Cmd Ptr) → Ptr → Cmd Ptr
  serialize_to_base64 s self = do
    serialized ← s self
    if serialized == null then pure null else encode_object serialized

  unfoldable pub decode_object : (Ptr → Cmd Ptr) → Ptr → ℕ → Cmd Ptr
  decode_object d q b64_len = do
    let str_len = b64_len / 4 * 3
    decoded ← malloc al ((str_len + 8) % u64_mod)
    store_bytes decoded 0 (replicate ((str_len + 8) % u64_mod) 0)
    num_pad ← decode_loop (b64_len / 4) q decoded 0 0 0
    store_u64 little decoded ((str_len + u64_mod - num_pad) % u64_mod)
    finish_decoding d decoded

  -- `tyr_deserialize_from_base64`
  unfoldable pub deserialize_from_base64 : (Ptr → Cmd Ptr) → Ptr → Cmd Ptr
  deserialize_from_base64 d b64_serialized_object = do
    b64_len ← load_u64 little b64_serialized_object
    if not (b64_len % 4 == 0) then pure null else decode_object d b64_serialized_object b64_len
