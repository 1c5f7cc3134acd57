-- ===== src/Runtime/Base64/Past.antt =====
-- `tyr_serialize_to_base64` (Base64.c) on a buffer that has no more bytes than its header says.
use tyr.Prelude.{
  ℕ, zero, suc, ◌+◌, ◌-◌, ◌*◌, ◌/◌, ◌%◌, ◌^◌, ◌≤◌, ◌<◌, ◌≡◌, ◌≢◌, inl, inr, refl, ap, ◌∙◌, Bool,
  not, some, List, [], ◌∷◌, ◌++◌, arith, Bool-cases, ◌==◌, leb, if◌then◌else◌, ltb, length,
  length-append, ℕ-cases, replicate,
}
use Prim.Native.Nat.{bit_and, bit_or}
use tyr.Prelude.Bytes.{le_value}
use tyr.Layout.{encode, length-encode}
use tyr.Memory.{Ptr, null, raw, Mem, write, block_at, ok, fault, Allocator, pure, ◌>>◌}
use tyr.Memory.Laws.{At, At-write_ne, calloc-ok, calloc-null, store_bytes-none, block_at-null}
use tyr.Memory.Spares.{Spares, store_bytes-Spares, load_bytes-past, load_bytes-one}
use tyr.Gen.{u64_mod}
use tyr.Runtime.{flag, u32_mod, load_byte, store_byte, store_u64}
use tyr.Runtime.Cells.{load_u64-ok}
use tyr.Runtime.Base64.{b64_index_to_char, pack_bytes, unpack_chars, encode_loop, encode_object}

module _ (p : Ptr) (bs : List ℕ) {m : Mem} (here : At m p (raw bs)) where
  load_byte-past : (i : ℕ) → length bs ≤ i → load_byte p i m ≡ fault
  unfolding load_byte
  load_byte-past i h = rw (load_bytes-past p bs here i 1 (omega arith))

  load_byte-in : (i : ℕ) → i < length bs → (b : ℕ) × (load_byte p i m ≡ ok b m)
  unfolding load_byte
  load_byte-in i h = let (b, e) = load_bytes-one p bs here i h in (le_value (b ∷ []), rw e)

  pack_bytes_step :
      (len j it w b : ℕ)
      → load_byte p (8 + it) m ≡ ok b m
      → it + 1 < u64_mod
      → pack_bytes (suc j) p len it w m
        ≡ pack_bytes j p len (it + 1) (bit_or w (flag (ltb it len) * b * 2 ^ (8 * j) % u32_mod)) m
  unfolding pack_bytes
  pack_bytes_step len j it w b got small =
      let next : (it + 1) % u64_mod ≡ it + 1 = omega arith in rw (got, next)

  pack_bytes-past :
      (len j it w : ℕ)
      → 8 + it ≤ length bs
      → length bs < 8 + it + j
      → length bs < u64_mod
      → pack_bytes j p len it w m ≡ fault
  unfolding pack_bytes
  pack_bytes-past len zero it w h past small = absurd (omega arith)
  pack_bytes-past len (suc j) it w h past small = elim (Bool-cases (ltb (8 + it) (length bs))) [
    | inl e ↦
        let (b, got) = load_byte-in (8 + it) (ground arith) in
        pack_bytes_step len j it w b got (ground arith)
        ∙ pack_bytes-past len j (it + 1) (bit_or w (flag (ltb it len) * b * 2 ^ (8 * j) % u32_mod))
            (ground arith) (omega arith) small
    | inr e ↦ rw (load_byte-past (8 + it) (ground arith))
  ]

  pack_bytes-in :
      (len j it w : ℕ)
      → 8 + it + j ≤ length bs
      → length bs < u64_mod
      → (w' : ℕ) × (i : ℕ) × (pack_bytes j p len it w m ≡ ok (w', i) m) × (i ≡ it + j)
  unfolding pack_bytes
  pack_bytes-in len zero it w h small = (w, it, refl, omega arith)
  pack_bytes-in len (suc j) it w h small =
      let (b, got) = load_byte-in (8 + it) (omega arith) in
      let (w', i, e, last) =
        pack_bytes-in len j (it + 1) (bit_or w (flag (ltb it len) * b * 2 ^ (8 * j) % u32_mod))
          (omega arith) small in
      (w', i, pack_bytes_step len j it w b got (omega arith) ∙ e, omega arith)

module _ (p q : Ptr) (bs : List ℕ) (apart : p ≢ q) where
  unpack_chars-Spares :
      (limit w k it : ℕ) (m : Mem) → At m p (raw bs) → Spares p bs (unpack_chars k q limit it w m)
  unfolding unpack_chars store_byte
  unpack_chars-Spares limit w zero it m here = inr (it, m, refl, here)
  unpack_chars-Spares limit w (suc k) it m here =
      elim (store_bytes-Spares p q bs apart (8 + it)
        (b64_index_to_char (if leb limit it then 64 else bit_and w (63 * 2 ^ (k * 6)) / 2 ^ (k * 6))
            % 256
          ∷ [])
        here) [
          | inl e ↦ inl (rw e)
          | inr (u, m', e, there) ↦
              rw e (unpack_chars-Spares limit w k ((it + 1) % u64_mod) m' there)
        ]

  -- The loop comes to an end by a fault, if it is to read bytes behind the block.
  encode_loop-past :
      (len limit n it out : ℕ) (m : Mem)
      → At m p (raw bs)
      → 8 + it ≤ length bs
      → length bs < 8 + it + 3 * n
      → length bs < u64_mod
      → encode_loop n p q len limit it out m ≡ fault
  unfolding encode_loop
  encode_loop-past len limit zero it out m here h past small = absurd (omega arith)
  encode_loop-past len limit (suc n) it out m here h past small =
      elim (Bool-cases (ltb (length bs) (8 + it + 3))) [
        | inl e ↦ rw (pack_bytes-past p bs here len 3 it 0 h (ground arith) small)
        | inr e ↦
            let (w, i, got, last) = pack_bytes-in p bs here len 3 it 0 (ground arith) small in
            rw got (elim (unpack_chars-Spares limit w 4 out m here) [
              | inl f ↦ rw f
              | inr (out', m', f, there) ↦
                  rw f (
                    encode_loop-past len limit n i out' m' there (ground arith) (ground arith)
                      small)
            ])
      ]

module _ (al : Allocator) (little : Bool) (m : Mem) (p : Ptr) (n : ℕ) (body : List ℕ)
    (here : At m p (raw (encode little 8 n ++ body))) (short : length body < n)
    (small : n < u64_mod) (fits : 8 + length body < u64_mod) where
  whole_length : length (encode little 8 n ++ body) ≡ 8 + length body
  whole_length = omega (arith, length-append (encode little 8 n) body, length-encode little 8 n)

  enough_rounds : n ≤ 3 * (n / 3 + flag (not (n % 3 == 0)))
  enough_rounds = elim (Bool-cases (n % 3 == 0)) [
    | inl e ↦ let none_left : n % 3 ≡ 0 = ground arith in rw e (omega arith)
    | inr e ↦ rw e (omega arith)
  ]

  module _ (q : Ptr) (m1 : Mem) (len limit v : ℕ) (apart : p ≢ q)
      (there : At m1 p (raw (encode little 8 n ++ body))) where
    text_past :
        (store_u64 little q v
            >> (encode_loop (n / 3 + flag (not (n % 3 == 0))) p q len limit 0 0 >> pure q))
          m1
        ≡ fault
    unfolding store_u64
    text_past =
        elim (store_bytes-Spares p q (encode little 8 n ++ body) apart 0 (encode little 8 v)
          there) [
            | inl e ↦ rw e
            | inr (u, m2, e, here') ↦ rw e (
                rw (
                  encode_loop-past p q (encode little 8 n ++ body) apart len limit
                    (n / 3 + flag (not (n % 3 == 0))) 0 0 m2 here' (omega (arith, whole_length))
                    (omega (arith, whole_length, enough_rounds)) (omega (arith, whole_length))))
          ]

  -- A buffer with fewer than `n` bytes behind its header of `n` is read behind its end.
  pub encode_object-past : encode_object al little p m ≡ fault
  unfolding encode_object store_u64
  encode_object-past =
      let b64_len : ℕ = (n / 3 + flag (not (n % 3 == 0))) * 4 % u64_mod in
      let size : ℕ = (b64_len + 8) % u64_mod in
      let q : Ptr = al.new_address size m in
      let apart : p ≢ q = λ e. cc (here.found, al.new_unused size m, ap (block_at m) e) in
      rw (load_u64-ok little body n small here) (elim (ℕ-cases q null) [
        | inl e ↦ rw (
          calloc-null al size m e,
          store_bytes-none m null (block_at-null m) 0 (encode little 8 b64_len),
        )
        | inr ne ↦ rw (calloc-ok al size m ne) (
            text_past q (write m q (some (raw (replicate size 0)))) n
              ((b64_len + u64_mod - (3 - n % 3) % 3) % u64_mod) b64_len apart
              (At-write_ne q _ here apart))
      ])
