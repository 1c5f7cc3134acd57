-- ===== src/Runtime/Base64/Text.antt =====
-- `tyr_serialize_to_base64` (Base64.c): the text that it makes.
use tyr.Prelude.{
  ◌≤◌, ℕ, ◌+◌, ◌-◌, ◌*◌, ◌/◌, ◌%◌, ◌<◌, ◌≡◌, ◌≢◌, inl, inr, ap, ◌∙◌, Bool, true, false, not, some,
  List, ◌++◌, arith, ◌==◌, length, All, replicate, length-replicate, split_at, ℕ-cases,
}
use tyr.Prelude.Bytes.{IsByte}
use tyr.Layout.{encode, length-encode}
use tyr.Memory.{Ptr, null, raw, Mem, write, block_at, ok, Cmd, Allocator, calloc}
use tyr.Memory.Laws.{At, At-write_self, At-ne_null, At-write_ne, write-write, calloc-ok}
use tyr.Gen.{u64_mod}
use tyr.Runtime.{flag}
use tyr.Runtime.Cells.{load_u64-ok, store_u64-ok}
use tyr.Runtime.Base64.{encode_object, serialize_to_base64}
use tyr.Runtime.Base64.Alphabet.{base64url, rounds, pad, rounds-pad}
use tyr.Runtime.Base64.Loop.{encode_loop-ok}

-- A length and the text of that many characters.
abbrev pub encoded : Bool → List ℕ → List ℕ
encoded little bs = encode little 8 (4 * rounds bs) ++ base64url bs

groups : (n r d : ℕ) → 3 * r ≡ n + d → d < 3 → n / 3 + flag (not (n % 3 == 0)) ≡ r
groups n r d h k = elim (ℕ-cases (n % 3) 0) [
  | inl e ↦ let t : (n % 3 == 0) ≡ true = ground arith in rw t (omega arith)
  | inr e ↦
      let t : (n % 3 == 0) ≡ false = ground arith in
      let more : 0 < n % 3 = ground arith in rw t (omega arith)
]

module _ (bs : List ℕ) where
  num_pad-pad : (3 - length bs % 3) % 3 ≡ pad bs
  num_pad-pad = omega (arith, rounds-pad bs)

  packed_size-rounds : length bs / 3 + flag (not (length bs % 3 == 0)) ≡ rounds bs
  packed_size-rounds = groups (length bs) (rounds bs) (pad bs) (rounds-pad bs).0 (rounds-pad bs).1

module _ (al : Allocator) (little : Bool) (m : Mem) (p : Ptr) (bs slack : List ℕ)
    (here : At m p (raw (encode little 8 (length bs) ++ (bs ++ slack)))) (hb : All IsByte bs)
    (hs : All IsByte slack) (enough : pad bs ≤ length slack) (bound : 4 * rounds bs + 8 < u64_mod)
    (memory : al.new_address (4 * rounds bs + 8) m ≢ null) where
  abbrev pub text_at : Ptr
  text_at = al.new_address (4 * rounds bs + 8) m

  pub source_apart : p ≢ text_at
  source_apart e = cc (here.found, al.new_unused (4 * rounds bs + 8) m, ap (block_at m) e)

  encode_object-encoded :
      encode_object al little p m ≡ ok text_at (write m text_at (some (raw (encoded little bs))))
  unfolding encode_object
  encode_object-encoded =
      let r : ℕ = rounds bs in
      let q : Ptr = text_at in
      let whole : 4 * r + 8 ≡ 8 + 4 * r = omega arith in
      let (o1, o2, parts, l1, l2) =
        split_at 8 (4 * r) (replicate (4 * r + 8) 0) (length-replicate (4 * r + 8) 0 ∙ whole) in
      let m1 : Mem = write m q (some (raw (o1 ++ o2))) in
      let head : List ℕ = encode little 8 (4 * r) in
      let m2 : Mem = write m1 q (some (raw (head ++ o2))) in
      let size : r * 4 % u64_mod ≡ 4 * r = omega arith in
      let total : (4 * r + 8) % u64_mod ≡ 4 * r + 8 = omega arith in
      let limit : ℕ = (4 * r + u64_mod - pad bs) % u64_mod in
      let last : limit + pad bs ≡ 0 + 4 * r = omega (arith, rounds-pad bs) in
      let loop =
        encode_loop-ok p q (length bs) limit source_apart bs slack 0 0 m2
          (encode little 8 (length bs)) head o2
          (At-write_ne q _ (At-write_ne q _ here source_apart) source_apart)
          (At-write_self m1 q _ memory) hb hs enough l2 (length-encode little 8 (length bs))
          (length-encode little 8 (4 * r)) (omega arith) last (omega (arith, rounds-pad bs))
          (omega arith) in
      let got : calloc al (4 * r + 8) m ≡ ok q m1 =
        calloc-ok al (4 * r + 8) m memory ∙ ap (λ l. ok q (write m q (some (raw l)))) parts in
      rw
        (
          load_u64-ok little (bs ++ slack) (length bs) (omega (arith, rounds-pad bs)) here,
          num_pad-pad bs,
          packed_size-rounds bs,
          size,
          total,
          got,
          store_u64-ok little o2 (4 * r) o1 l1 (At-write_self m q (raw (o1 ++ o2)) memory),
          loop,
        )
        (ap (ok q) (write-write m1 q _ _ ∙ write-write m q _ _))

  -- If `s` answers a buffer whose header is `n`, and `n` bytes follow it and then at least the bytes that
  -- complete the last group of three, and there is memory, then `tyr_serialize_to_base64` answers a new block that holds
  -- the length of the text and the base64url text of RFC 4648 of the `n` bytes, padding included.
  pub serialize_to_base64-encoded :
      (s : Ptr → Cmd Ptr) (self : Ptr) (m0 : Mem)
      → s self m0 ≡ ok p m
      → serialize_to_base64 al little s self m0
        ≡ ok text_at (write m text_at (some (raw (encoded little bs))))
  unfolding serialize_to_base64
  serialize_to_base64-encoded s self m0 made =
      let there : (p == null) ≡ false = ground (arith, At-ne_null here) in
      rw (made, there) encode_object-encoded
