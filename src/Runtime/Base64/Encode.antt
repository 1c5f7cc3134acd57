-- ===== src/Runtime/Base64/Encode.antt =====
-- The loops of `tyr_serialize_to_base64` (Base64.c) on a buffer that has bytes to read in every round.
use mathlib.Core.Path.{ap₂}
use tyr.Prelude.{
  ℕ, zero, suc, ◌+◌, ◌*◌, ◌/◌, ◌%◌, ◌^◌, ◌≤◌, ◌<◌, ◌≡◌, refl, sym, ap, ◌∙◌, true, false, some, List,
  [], ◌∷◌, ◌++◌, arith, ltb, leb, if◌then◌else◌, length, length-append, append_assoc,
}
use tyr.Memory.{Ptr, raw, Mem, write, ok}
use tyr.Memory.Laws.{At, At-regrouped, At-write_self, At-ne_null, write-write, write_same}
use tyr.Gen.{u64_mod}
use tyr.Runtime.{flag}
use tyr.Runtime.Cells.{load_byte-ok, store_byte-ok}
use tyr.Runtime.Base64.{b64_index_to_char, pack_bytes, unpack_chars, encode_loop}
use tyr.Runtime.Base64.Alphabet.{
  alphabet, base64url, b64_index_to_char-alphabet, b64_index_to_char-pad,
}
use tyr.Runtime.Base64.Words.{word_of, six_bits, packed_bytes}

-- A byte in front of the end, and 0 behind it.
abbrev pub byte_before : (len it x : ℕ) → ℕ
byte_before len it x = flag (ltb it len) * x

byte_before-lt : (len it x : ℕ) → x < 256 → byte_before len it x < 256
byte_before-lt len it x h = ground arith

module _ (p : Ptr) (len it : ℕ) {m : Mem} (front back : List ℕ) (x y z : ℕ)
    (here : At m p (raw (front ++ (x ∷ y ∷ z ∷ back)))) (hx : x < 256) (hy : y < 256) (hz : z < 256)
    (at_it : length front ≡ 8 + it) (bound : it + 3 < u64_mod) where
  pub pack_bytes-ok :
      pack_bytes 3 p len it 0 m
      ≡ ok
          (
            word_of
                (byte_before len it x)
                (byte_before len (it + 1) y)
                (byte_before len (it + 2) z),
            it + 3,
          )
          m
  unfolding pack_bytes
  pack_bytes-ok =
      let one : (it + 1) % u64_mod ≡ it + 1 = omega arith in
      let two : (it + 1 + 1) % u64_mod ≡ it + 2 = omega arith in
      let three : (it + 2 + 1) % u64_mod ≡ it + 3 = omega arith in
      let shift1 : front ++ (x ∷ y ∷ z ∷ back) ≡ (front ++ x ∷ []) ++ (y ∷ z ∷ back) =
        simp append_assoc in
      let shift2 : front ++ (x ∷ y ∷ z ∷ back) ≡ (front ++ x ∷ y ∷ []) ++ (z ∷ back) =
        simp append_assoc in
      rw (
        load_byte-ok (8 + it) front (y ∷ z ∷ back) at_it x here,
        one,
        load_byte-ok (8 + (it + 1)) (front ++ x ∷ []) (z ∷ back)
            (omega (arith, length-append front (x ∷ []))) y (rw shift1 at here),
        two,
        load_byte-ok (8 + (it + 2)) (front ++ x ∷ y ∷ []) back
            (omega (arith, length-append front (x ∷ y ∷ []))) z (rw shift2 at here),
        three,
        packed_bytes _ _ _ (byte_before-lt len it x hx) (byte_before-lt len (it + 1) y hy)
            (byte_before-lt len (it + 2) z hz),
      )

-- The characters that `rounds` rounds write.
pub chars : (rounds limit it w : ℕ) → List ℕ
chars zero limit it w = []
chars (suc k) limit it w =
    b64_index_to_char (if leb limit it then 64 else w / 2 ^ (k * 6) % 64) ∷ chars k limit (it + 1) w

char-lt : (i : ℕ) → b64_index_to_char i < 256
unfolding b64_index_to_char
char-lt i = omega arith

module _ (q : Ptr) (limit w : ℕ) where
  pub unpack_chars-ok :
      (k it : ℕ) (m : Mem) (front old back : List ℕ)
      → At m q (raw (front ++ (old ++ back)))
      → length old ≡ k
      → length front ≡ 8 + it
      → it + k < u64_mod
      → unpack_chars k q limit it w m
        ≡ ok (it + k) (write m q (some (raw (front ++ (chars k limit it w ++ back)))))
  unfolding unpack_chars chars
  unpack_chars-ok zero it m front [] back here h at_it bound =
      ap₂ ok (omega arith) (sym (write_same q here))
  unpack_chars-ok zero it m front (_ ∷ _) back here h at_it bound = absurd (omega arith)
  unpack_chars-ok (suc k) it m front [] back here h at_it bound = absurd (omega arith)
  unpack_chars-ok (suc k) it m front (o ∷ old) back here h at_it bound =
      let c : ℕ = b64_index_to_char (if leb limit it then 64 else w / 2 ^ (k * 6) % 64) in
      let m' : Mem = write m q (some (raw (front ++ (c ∷ (old ++ back))))) in
      let next : (it + 1) % u64_mod ≡ it + 1 = omega arith in
      let shift : front ++ (c ∷ (old ++ back)) ≡ (front ++ c ∷ []) ++ (old ++ back) =
        simp append_assoc in
      let shift' : (ys : List ℕ) → (front ++ c ∷ []) ++ (ys ++ back) ≡ front ++ (c ∷ (ys ++ back)) =
        λ ys. simp append_assoc in
      let rest =
        unpack_chars-ok k (it + 1) m' (front ++ c ∷ []) old back
          (At-regrouped shift
            (At-write_self m q (raw (front ++ (c ∷ (old ++ back)))) (At-ne_null here)))
          (omega arith) (omega (arith, length-append front (c ∷ []))) (omega arith) in
      rw
        (
          six_bits (k * 6) w,
          store_byte-ok (8 + it) front (old ++ back) at_it o c
              (char-lt (if leb limit it then 64 else w / 2 ^ (k * 6) % 64)) here,
          next,
        )
        (rest
          ∙ ap₂ ok (omega arith) (
              write-write m q _ _
              ∙ ap (λ bs. write m q (some (raw bs))) (shift' (chars k limit (it + 1) w))))

-- The characters of a word that is full, and of one that ends early.
module _ (limit it a b c : ℕ) (ha : a < 256) (hb : b < 256) (hc : c < 256) where
  pub chars_full :
      it + 4 ≤ limit
      → chars 4 limit it (word_of a b c)
        ≡ alphabet (a / 4)
          ∷ alphabet (a % 4 * 16 + b / 16)
          ∷ alphabet (b % 16 * 4 + c / 64)
          ∷ alphabet (c % 64)
          ∷ []
  unfolding chars
  chars_full h =
      let i3 : word_of a b c / 2 ^ (3 * 6) % 64 ≡ a / 4 = omega arith in
      let i2 : word_of a b c / 2 ^ (2 * 6) % 64 ≡ a % 4 * 16 + b / 16 = omega arith in
      let i1 : word_of a b c / 2 ^ (1 * 6) % 64 ≡ b % 16 * 4 + c / 64 = omega arith in
      let i0 : word_of a b c / 2 ^ (0 * 6) % 64 ≡ c % 64 = omega arith in
      let t0 : leb limit it ≡ false = ground arith in
      let t1 : leb limit (it + 1) ≡ false = ground arith in
      let t2 : leb limit (it + 1 + 1) ≡ false = ground arith in
      let t3 : leb limit (it + 1 + 1 + 1) ≡ false = ground arith in
      rw (
        t0,
        t1,
        t2,
        t3,
        i3,
        i2,
        i1,
        i0,
        b64_index_to_char-alphabet (a / 4) (omega arith),
        b64_index_to_char-alphabet (a % 4 * 16 + b / 16) (omega arith),
        b64_index_to_char-alphabet (b % 16 * 4 + c / 64) (omega arith),
        b64_index_to_char-alphabet (c % 64) (omega arith),
      )

pub chars_two :
    (limit it a b : ℕ)
    → a < 256
    → b < 256
    → limit ≡ it + 3
    → chars 4 limit it (word_of a b 0) ≡ base64url (a ∷ b ∷ [])
unfolding base64url chars
chars_two limit it a b ha hb h =
    let i3 : word_of a b 0 / 2 ^ (3 * 6) % 64 ≡ a / 4 = omega arith in
    let i2 : word_of a b 0 / 2 ^ (2 * 6) % 64 ≡ a % 4 * 16 + b / 16 = omega arith in
    let i1 : word_of a b 0 / 2 ^ (1 * 6) % 64 ≡ b % 16 * 4 = omega arith in
    let t0 : leb limit it ≡ false = ground arith in
    let t1 : leb limit (it + 1) ≡ false = ground arith in
    let t2 : leb limit (it + 1 + 1) ≡ false = ground arith in
    let t3 : leb limit (it + 1 + 1 + 1) ≡ true = ground arith in
    rw (
      t0,
      t1,
      t2,
      t3,
      i3,
      i2,
      i1,
      b64_index_to_char-alphabet (a / 4) (omega arith),
      b64_index_to_char-alphabet (a % 4 * 16 + b / 16) (omega arith),
      b64_index_to_char-alphabet (b % 16 * 4) (omega arith),
      b64_index_to_char-pad,
    )

pub chars_one :
    (limit it a : ℕ)
    → a < 256
    → limit ≡ it + 2
    → chars 4 limit it (word_of a 0 0) ≡ base64url (a ∷ [])
unfolding base64url chars
chars_one limit it a ha h =
    let i3 : word_of a 0 0 / 2 ^ (3 * 6) % 64 ≡ a / 4 = omega arith in
    let i2 : word_of a 0 0 / 2 ^ (2 * 6) % 64 ≡ a % 4 * 16 = omega arith in
    let t0 : leb limit it ≡ false = ground arith in
    let t1 : leb limit (it + 1) ≡ false = ground arith in
    let t2 : leb limit (it + 1 + 1) ≡ true = ground arith in
    let t3 : leb limit (it + 1 + 1 + 1) ≡ true = ground arith in
    rw (
      t0,
      t1,
      t2,
      t3,
      i3,
      i2,
      b64_index_to_char-alphabet (a / 4) (omega arith),
      b64_index_to_char-alphabet (a % 4 * 16) (omega arith),
      b64_index_to_char-pad,
    )

module _ (p q : Ptr) (len limit : ℕ) where
  pub encode_loop_done : (it out : ℕ) (m : Mem) → encode_loop 0 p q len limit it out m ≡ ok tt m
  unfolding encode_loop
  encode_loop_done it out m = refl

  pub encode_loop_step :
      (n it out : ℕ) (m : Mem) (front back done old zeros text : List ℕ) (x y z a b c : ℕ)
      → At m p (raw (front ++ (x ∷ y ∷ z ∷ back)))
      → At m q (raw (done ++ (old ++ zeros)))
      → x < 256
      → y < 256
      → z < 256
      → length old ≡ 4
      → length front ≡ 8 + it
      → length done ≡ 8 + out
      → it + 3 < u64_mod
      → out + 4 < u64_mod
      → byte_before len it x ≡ a
      → byte_before len (it + 1) y ≡ b
      → byte_before len (it + 2) z ≡ c
      → chars 4 limit out (word_of a b c) ≡ text
      → encode_loop (suc n) p q len limit it out m
        ≡ encode_loop n p q len limit
            (it + 3)
            (out + 4)
            (write m q (some (raw (done ++ (text ++ zeros)))))
  unfolding encode_loop
  encode_loop_step n it out m front back done old zeros text x y z a b c from to hx hy hz four at_it
        at_out b1 b2 ea eb ec et =
      rw (
        pack_bytes-ok p len it front back x y z from hx hy hz at_it b1,
        ea,
        eb,
        ec,
        unpack_chars-ok q limit (word_of a b c) 4 out m done old zeros to four at_out b2,
        et,
      )
