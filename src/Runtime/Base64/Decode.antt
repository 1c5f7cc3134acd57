-- ===== src/Runtime/Base64/Decode.antt =====
-- The loops of `tyr_deserialize_from_base64` (Base64.c) on base64url text.
use mathlib.Core.Path.{ap₂, subst}
use Prim.Native.Nat.{bit_or}
use tyr.Prelude.{
  ℕ, zero, suc, ◌+◌, ◌*◌, ◌/◌, ◌%◌, ◌^◌, ◌<◌, ◌≡◌, refl, sym, ap, ◌∙◌, Bool, true, false, not, some,
  List, [], ◌∷◌, ◌++◌, arith, ◌==◌, length, length-append, append_assoc,
}
use tyr.Memory.{Ptr, raw, Mem, write, ok, Cmd}
use tyr.Memory.Laws.{At, At-regrouped, At-write_self, At-ne_null, write-write, write_same}
use tyr.Gen.{u64_mod}
use tyr.Runtime.{flag, u32_mod, load_byte}
use tyr.Runtime.Cells.{load_byte-ok, store_byte-ok}
use tyr.Runtime.Base64.{b64_char_to_index, take_chars, put_bytes, decode_loop}
use tyr.Runtime.Base64.Alphabet.{
  alphabet, base64url, b64_char_to_index-alphabet, b64_char_to_index-pad,
}
use tyr.Runtime.Base64.Words.{word_of, eight_bits, packed_two, packed_three, packed_four}

take_chars_done :
    (q : Ptr) (it num_pad w : ℕ) (m : Mem) → take_chars 0 q it num_pad w m ≡ ok (w, it, num_pad) m
unfolding take_chars
take_chars_done q it num_pad w m = refl

module _ (q : Ptr) (j it num_pad w : ℕ) (m : Mem) where
  take_char :
      (c i : ℕ)
      → b64_char_to_index c ≡ i
      → i < 64
      → load_byte q (8 + it) m ≡ ok c m
      → it + 1 < u64_mod
      → take_chars (suc j) q it num_pad w m
        ≡ take_chars j q (it + 1) num_pad (bit_or w (i * 2 ^ (6 * j) % u32_mod)) m
  unfolding take_chars
  take_char c i index h got bound =
      let next : (it + 1) % u64_mod ≡ it + 1 = omega arith in
      let once : 1 * i ≡ i = omega arith in
      let real : (b64_char_to_index c == 64) ≡ false = ground arith in
      rw got (
        subst
          (λ (t : Bool).
            (elim t as (λ x. Cmd (ℕ × ℕ × ℕ)) [
              | true ↦ take_chars j q it ((num_pad + 1) % 256) w
              | false ↦
                  take_chars j q ((it + 1) % u64_mod) num_pad
                    (bit_or w (flag (not t) * b64_char_to_index c * 2 ^ (6 * j) % u32_mod))
            ])
              m
            ≡ take_chars j q (it + 1) num_pad (bit_or w (i * 2 ^ (6 * j) % u32_mod)) m)
          (sym real) (rw (index, next, once)))

  take_pad :
      (c : ℕ)
      → b64_char_to_index c ≡ 64
      → load_byte q (8 + it) m ≡ ok c m
      → take_chars (suc j) q it num_pad w m ≡ take_chars j q it ((num_pad + 1) % 256) w m
  unfolding take_chars
  take_pad c index got =
      let padding : (b64_char_to_index c == 64) ≡ true = ground arith in
      rw got (
        subst
          (λ (t : Bool).
            (elim t as (λ x. Cmd (ℕ × ℕ × ℕ)) [
              | true ↦ take_chars j q it ((num_pad + 1) % 256) w
              | false ↦
                  take_chars j q ((it + 1) % u64_mod) num_pad
                    (bit_or w (flag (not t) * b64_char_to_index c * 2 ^ (6 * j) % u32_mod))
            ])
              m
            ≡ take_chars j q it ((num_pad + 1) % 256) w m)
          (sym padding) refl)

  -- A character of the alphabet.
  take_chars_next :
      (i : ℕ)
      → i < 64
      → load_byte q (8 + it) m ≡ ok (alphabet i) m
      → it + 1 < u64_mod
      → take_chars (suc j) q it num_pad w m
        ≡ take_chars j q (it + 1) num_pad (bit_or w (i * 2 ^ (6 * j) % u32_mod)) m
  take_chars_next i h got bound =
      take_char (alphabet i) i (b64_char_to_index-alphabet i h) h got bound

  -- A padding character stays the next one.
  take_chars_pad :
      load_byte q (8 + it) m ≡ ok b'=' m
      → take_chars (suc j) q it num_pad w m ≡ take_chars j q it ((num_pad + 1) % 256) w m
  take_chars_pad got = take_pad b'=' b64_char_to_index-pad got

-- The bytes that `rounds` rounds write.
pub bytes_of : (rounds w : ℕ) → List ℕ
bytes_of zero w = []
bytes_of (suc k) w = (w / 2 ^ (8 * k) % 256) ∷ bytes_of k w

pub bytes_of-word_of :
    (a b c : ℕ) → a < 256 → b < 256 → c < 256 → bytes_of 3 (word_of a b c) ≡ a ∷ b ∷ c ∷ []
unfolding bytes_of
bytes_of-word_of a b c ha hb hc =
    let first : word_of a b c / 2 ^ (8 * 2) % 256 ≡ a = omega arith in
    let second : word_of a b c / 2 ^ (8 * 1) % 256 ≡ b = omega arith in
    let third : word_of a b c / 2 ^ (8 * 0) % 256 ≡ c = omega arith in rw (first, second, third)

module _ (p : Ptr) (w : ℕ) where
  pub put_bytes-ok :
      (k it : ℕ) (m : Mem) (front old back : List ℕ)
      → At m p (raw (front ++ (old ++ back)))
      → length old ≡ k
      → length front ≡ 8 + it
      → it + k < u64_mod
      → put_bytes k p it w m
        ≡ ok (it + k) (write m p (some (raw (front ++ (bytes_of k w ++ back)))))
  unfolding put_bytes bytes_of
  put_bytes-ok zero it m front [] back here h at_it bound =
      ap₂ ok (omega arith) (sym (write_same p here))
  put_bytes-ok zero it m front (_ ∷ _) back here h at_it bound = absurd (omega arith)
  put_bytes-ok (suc k) it m front [] back here h at_it bound = absurd (omega arith)
  put_bytes-ok (suc k) it m front (o ∷ old) back here h at_it bound =
      let c : ℕ = w / 2 ^ (8 * k) % 256 in
      let m' : Mem = write m p (some (raw (front ++ (c ∷ (old ++ back))))) in
      let next : (it + 1) % u64_mod ≡ it + 1 = omega arith in
      let shift : front ++ (c ∷ (old ++ back)) ≡ (front ++ c ∷ []) ++ (old ++ back) =
        simp append_assoc in
      let shift' : (ys : List ℕ) → (front ++ c ∷ []) ++ (ys ++ back) ≡ front ++ (c ∷ (ys ++ back)) =
        λ ys. simp append_assoc in
      let rest =
        put_bytes-ok k (it + 1) m' (front ++ c ∷ []) old back
          (At-regrouped shift
            (At-write_self m p (raw (front ++ (c ∷ (old ++ back)))) (At-ne_null here)))
          (omega arith) (omega (arith, length-append front (c ∷ []))) (omega arith) in
      rw
        (
          eight_bits (8 * k) w,
          store_byte-ok (8 + it) front (old ++ back) at_it o c (omega arith) here,
          next,
        )
        (rest
          ∙ ap₂ ok (omega arith)
              (write-write m p _ _ ∙ ap (λ bs. write m p (some (raw bs))) (shift' (bytes_of k w))))

-- The next four characters of the text, one by one.
module _ (q : Ptr) (it : ℕ) {m : Mem} (front back : List ℕ) (s t u v : ℕ)
    (here : At m q (raw (front ++ (s ∷ t ∷ u ∷ v ∷ back)))) (at_it : length front ≡ 8 + it) where
  char_0 : load_byte q (8 + it) m ≡ ok s m
  char_0 = load_byte-ok (8 + it) front (t ∷ u ∷ v ∷ back) at_it s here

  char_1 : load_byte q (8 + (it + 1)) m ≡ ok t m
  char_1 =
      load_byte-ok (8 + (it + 1)) (front ++ s ∷ []) (u ∷ v ∷ back)
        (omega (arith, length-append front (s ∷ []))) t (At-regrouped (simp append_assoc) here)

  char_2 : load_byte q (8 + (it + 1 + 1)) m ≡ ok u m
  char_2 =
      load_byte-ok (8 + (it + 1 + 1)) (front ++ s ∷ t ∷ []) (v ∷ back)
        (omega (arith, length-append front (s ∷ t ∷ []))) u (At-regrouped (simp append_assoc) here)

  char_3 : load_byte q (8 + (it + 1 + 1 + 1)) m ≡ ok v m
  char_3 =
      load_byte-ok (8 + (it + 1 + 1 + 1)) (front ++ s ∷ t ∷ u ∷ []) back
        (omega (arith, length-append front (s ∷ t ∷ u ∷ []))) v
        (At-regrouped (simp append_assoc) here)

-- The word of four characters, and of a last group with padding.
module _ (q : Ptr) (it : ℕ) {m : Mem} (front back : List ℕ) (at_it : length front ≡ 8 + it)
    (bound : it + 4 < u64_mod) where
  pub take_chars-full :
      (a b c : ℕ)
      → a < 256
      → b < 256
      → c < 256
      → At m q (raw (front ++ (base64url (a ∷ b ∷ c ∷ []) ++ back)))
      → take_chars 4 q it 0 0 m ≡ ok (word_of a b c, it + 1 + 1 + 1 + 1, 0) m
  unfolding base64url
  take_chars-full a b c ha hb hc here =
      let i : ℕ = a / 4 in
      let j : ℕ = a % 4 * 16 + b / 16 in
      let k : ℕ = b % 16 * 4 + c / 64 in
      let l : ℕ = c % 64 in
      let w : word_of a b c ≡ i * 262144 + j * 4096 + k * 64 + l = omega arith in
      take_chars_next q 3 it 0 0 m i (omega arith) (char_0 q it front back _ _ _ _ here at_it)
        (omega arith)
      ∙ take_chars_next q 2 (it + 1) 0 _ m j (omega arith)
          (char_1 q it front back _ _ _ _ here at_it) (omega arith)
      ∙ take_chars_next q 1 (it + 1 + 1) 0 _ m k (omega arith)
          (char_2 q it front back _ _ _ _ here at_it) (omega arith)
      ∙ take_chars_next q 0 (it + 1 + 1 + 1) 0 _ m l (omega arith)
          (char_3 q it front back _ _ _ _ here at_it) (omega arith)
      ∙ take_chars_done q (it + 1 + 1 + 1 + 1) 0 _ m
      ∙ ap (λ (v : ℕ). ok (v, it + 1 + 1 + 1 + 1, 0) m)
          (packed_four i j k l (omega arith) (omega arith) (omega arith) (omega arith) ∙ sym w)

  pub take_chars-two :
      (a b : ℕ)
      → a < 256
      → b < 256
      → At m q (raw (front ++ (base64url (a ∷ b ∷ []) ++ back)))
      → take_chars 4 q it 0 0 m ≡ ok (word_of a b 0, it + 1 + 1 + 1, 1) m
  unfolding base64url
  take_chars-two a b ha hb here =
      let i : ℕ = a / 4 in
      let j : ℕ = a % 4 * 16 + b / 16 in
      let k : ℕ = b % 16 * 4 in
      let w : word_of a b 0 ≡ (i * 4096 + j * 64 + k) * 2 ^ 6 = omega arith in
      take_chars_next q 3 it 0 0 m i (omega arith) (char_0 q it front back _ _ _ _ here at_it)
        (omega arith)
      ∙ take_chars_next q 2 (it + 1) 0 _ m j (omega arith)
          (char_1 q it front back _ _ _ _ here at_it) (omega arith)
      ∙ take_chars_next q 1 (it + 1 + 1) 0 _ m k (omega arith)
          (char_2 q it front back _ _ _ _ here at_it) (omega arith)
      ∙ take_chars_pad q 0 (it + 1 + 1 + 1) 0 _ m (char_3 q it front back _ _ _ _ here at_it)
      ∙ take_chars_done q (it + 1 + 1 + 1) 1 _ m
      ∙ ap (λ (v : ℕ). ok (v, it + 1 + 1 + 1, 1) m)
          (packed_three i j k 0 (omega arith) (omega arith) (omega arith) (omega arith) ∙ sym w)

  pub take_chars-one :
      (a : ℕ)
      → a < 256
      → At m q (raw (front ++ (base64url (a ∷ []) ++ back)))
      → take_chars 4 q it 0 0 m ≡ ok (word_of a 0 0, it + 1 + 1, 2) m
  unfolding base64url
  take_chars-one a ha here =
      let i : ℕ = a / 4 in
      let j : ℕ = a % 4 * 16 in
      let w : word_of a 0 0 ≡ (i * 64 + j) * 2 ^ 12 = omega arith in
      take_chars_next q 3 it 0 0 m i (omega arith) (char_0 q it front back _ _ _ _ here at_it)
        (omega arith)
      ∙ take_chars_next q 2 (it + 1) 0 _ m j (omega arith)
          (char_1 q it front back _ _ _ _ here at_it) (omega arith)
      ∙ take_chars_pad q 1 (it + 1 + 1) 0 _ m (char_2 q it front back _ _ _ _ here at_it)
      ∙ take_chars_pad q 0 (it + 1 + 1) 1 _ m (char_2 q it front back _ _ _ _ here at_it)
      ∙ take_chars_done q (it + 1 + 1) 2 _ m
      ∙ ap (λ (v : ℕ). ok (v, it + 1 + 1, 2) m)
          (packed_two i j 0 0 (omega arith) (omega arith) (omega arith) (omega arith) ∙ sym w)

module _ (q p : Ptr) where
  pub decode_loop_done :
      (it num_pad out : ℕ) (m : Mem) → decode_loop 0 q p it num_pad out m ≡ ok num_pad m
  unfolding decode_loop
  decode_loop_done it num_pad out m = refl

  -- One round, by the word of its characters.
  pub decode_loop_step :
      (n it out w it' num_pad : ℕ) (m : Mem) (done old back group : List ℕ)
      → take_chars 4 q it 0 0 m ≡ ok (w, it', num_pad) m
      → At m p (raw (done ++ (old ++ back)))
      → length old ≡ 3
      → length done ≡ 8 + out
      → out + 3 < u64_mod
      → bytes_of 3 w ≡ group
      → decode_loop (suc n) q p it 0 out m
        ≡ decode_loop n q p it' num_pad (out + 3) (write m p (some (raw (done ++ (group ++ back)))))
  unfolding decode_loop
  decode_loop_step n it out w it' num_pad m done old back group taken here three at_out bound
        parts =
      rw (taken, put_bytes-ok p w 3 out m done old back here three at_out bound, parts)
