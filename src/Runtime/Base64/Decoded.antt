-- ===== src/Runtime/Base64/Decoded.antt =====
-- `tyr_deserialize_from_base64` (Base64.c): what it hands to the deserializer, and what it refuses.
use tyr.Prelude.{
  ℕ, ◌+◌, ◌-◌, ◌*◌, ◌/◌, ◌%◌, ◌<◌, ◌≡◌, ◌≢◌, sym, ap, ◌∙◌, Bool, true, false, some, List, ◌++◌,
  arith, ◌==◌, length, All, replicate, length-replicate, split_at, append_assoc,
}
use tyr.Prelude.Bytes.{IsByte}
use tyr.Layout.{encode, length-encode}
use tyr.Memory.{Ptr, null, raw, Mem, write, block_at, ok, Cmd, Allocator, store_bytes, fresh_bytes}
use tyr.Memory.Laws.{
  At, At-regrouped, At-write_self, At-write_ne, write-write, malloc-ok, store_whole,
  length-fresh_bytes,
}
use tyr.Gen.{u64_mod}
use tyr.Runtime.Cells.{load_u64-ok, store_u64-ok}
use tyr.Runtime.Base64.{decode_loop, finish_decoding, decode_object, deserialize_from_base64}
use tyr.Runtime.Base64.Alphabet.{base64url, rounds, pad, rounds-pad}
use tyr.Runtime.Base64.Text.{encoded}
use tyr.Runtime.Base64.Bytes.{padded, decode_loop-ok}

-- A buffer of a serializer: the length, the bytes, and zeros up to a group of three.
abbrev pub decoded_buffer : Bool → List ℕ → List ℕ
decoded_buffer little bs = encode little 8 (length bs) ++ padded bs

module _ (al : Allocator) (little : Bool) (m : Mem) (q : Ptr) (bs back : List ℕ)
    (here : At m q (raw (encoded little bs ++ back))) (hb : All IsByte bs)
    (bound : 4 * rounds bs + 8 < u64_mod)
    (memory : al.new_address (3 * rounds bs + 8) m ≢ null) where
  abbrev pub buffer_at : Ptr
  buffer_at = al.new_address (3 * rounds bs + 8) m

  text_apart : q ≢ buffer_at
  text_apart e = cc (here.found, al.new_unused (3 * rounds bs + 8) m, ap (block_at m) e)

  text_here : At m q (raw (encode little 8 (4 * rounds bs) ++ (base64url bs ++ back)))
  text_here = At-regrouped (append_assoc (encode little 8 (4 * rounds bs)) (base64url bs) back) here

  decode_object-buffer :
      (d : Ptr → Cmd Ptr)
      → decode_object al little d q (4 * rounds bs) m
        ≡ finish_decoding d buffer_at (write m buffer_at (some (raw (decoded_buffer little bs))))
  unfolding decode_object
  decode_object-buffer d =
      let r : ℕ = rounds bs in
      let p : Ptr = buffer_at in
      let n : ℕ = 3 * r + 8 in
      let quarter : 4 * r / 4 ≡ r = omega arith in
      let size : (r * 3 + 8) % u64_mod ≡ n = omega arith in
      let whole : n ≡ 8 + 3 * r = omega arith in
      let real : (r * 3 + u64_mod - pad bs) % u64_mod ≡ length bs = omega (arith, rounds-pad bs) in
      let m0 : Mem = write m p (some (raw (fresh_bytes al n))) in
      let b1 : 0 + 4 * r < u64_mod = omega arith in
      let b2 : 0 + 3 * r < u64_mod = omega arith in
      let (o1, o2, parts, l1, l2) =
        split_at 8 (3 * r) (replicate n 0) (length-replicate n 0 ∙ whole) in
      let m1 : Mem = write m0 p (some (raw (o1 ++ o2))) in
      let m2 : Mem = write m1 p (some (raw (o1 ++ padded bs))) in
      let cleared : store_bytes p 0 (replicate n 0) m0 ≡ ok tt m1 =
        store_whole (fresh_bytes al n) (replicate n 0) (At-write_self m p _ memory)
          (length-fresh_bytes al n ∙ sym (length-replicate n 0))
        ∙ ap (λ l. ok tt (write m0 p (some (raw l)))) parts in
      let loop : decode_loop r q p 0 0 0 m1 ≡ ok (pad bs) m2 =
        decode_loop-ok q p text_apart bs 0 0 m1 (encode little 8 (4 * r)) back o1 o2
          (At-write_ne p _ (At-write_ne p _ text_here text_apart) text_apart)
          (At-write_self m0 p _ memory) hb l2 (length-encode little 8 (4 * r)) l1 b1 b2 in
      rw
        (
          quarter,
          size,
          malloc-ok al n m memory,
          cleared,
          loop,
          real,
          store_u64-ok little (padded bs) (length bs) o1 l1
              (At-write_self m1 p (raw (o1 ++ padded bs)) memory),
        )
        (ap (finish_decoding d p)
          (write-write m1 p _ _ ∙ write-write m0 p _ _ ∙ write-write m p _ _))

  -- `tyr_deserialize_from_base64` at the base64url text of bytes, with padding, calls the deserializer
  -- `d` on a new block that holds the number of these bytes, the bytes, and zeros for those that the
  -- last group of three lacks.
  pub deserialize_from_base64-buffer :
      (d : Ptr → Cmd Ptr)
      → deserialize_from_base64 al little d q m
        ≡ finish_decoding d buffer_at (write m buffer_at (some (raw (decoded_buffer little bs))))
  unfolding deserialize_from_base64
  deserialize_from_base64-buffer d =
      let fours : (4 * rounds bs % 4 == 0) ≡ true = ground arith in
      rw (load_u64-ok little (base64url bs ++ back) (4 * rounds bs) (omega arith) text_here, fours)
        (decode_object-buffer d)

-- A text whose length is no multiple of four is refused, and nothing is allocated.
pub deserialize_from_base64-refuses :
    (al : Allocator) (little : Bool) (d : Ptr → Cmd Ptr) (m : Mem) (q : Ptr) (n : ℕ) (text : List ℕ)
    → At m q (raw (encode little 8 n ++ text))
    → n < u64_mod
    → n % 4 ≢ 0
    → deserialize_from_base64 al little d q m ≡ ok null m
unfolding deserialize_from_base64
deserialize_from_base64-refuses al little d m q n text here small odd =
    let no_four : (n % 4 == 0) ≡ false = ground arith in
    rw (load_u64-ok little text n small here, no_four)
