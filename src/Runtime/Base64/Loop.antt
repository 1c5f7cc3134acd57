-- ===== src/Runtime/Base64/Loop.antt =====
-- The loop of `tyr_serialize_to_base64` (Base64.c) over all bytes.
use tyr.Prelude.{
  ℕ, suc, ◌+◌, ◌*◌, ◌/◌, ◌%◌, ◌≤◌, ◌<◌, ◌≡◌, ◌≢◌, sym, ap, ◌∙◌, some, List, [], ◌∷◌, ◌++◌, arith,
  length, length-append, append_assoc, append-nil, All, split_at,
}
use tyr.Prelude.Bytes.{IsByte}
use tyr.Memory.{Ptr, raw, Mem, write, ok}
use tyr.Memory.Laws.{
  At, At-regrouped, At-write_self, At-ne_null, At-write_ne, write-write, write_same,
}
use tyr.Gen.{u64_mod}
use tyr.Runtime.Base64.{encode_loop}
use tyr.Runtime.Base64.Alphabet.{alphabet, base64url, rounds, pad, rounds-pad}
use tyr.Runtime.Base64.Encode.{
  byte_before, encode_loop_done, chars_full, chars_two, chars_one, encode_loop_step,
}

-- The characters of three bytes.
abbrev pub group : (a b c : ℕ) → List ℕ
group a b c =
    alphabet (a / 4)
    ∷ alphabet (a % 4 * 16 + b / 16)
    ∷ alphabet (b % 16 * 4 + c / 64)
    ∷ alphabet (c % 64)
    ∷ []

pub regroup : (xs ys zs : List ℕ) → xs ++ (ys ++ zs) ≡ (xs ++ ys) ++ zs
regroup xs ys zs = simp append_assoc

module _ (p q : Ptr) (len limit : ℕ) (apart : p ≢ q) where
  pub encode_loop-ok :
      (bs slack : List ℕ) (it out : ℕ) (m : Mem) (front done old : List ℕ)
      → At m p (raw (front ++ (bs ++ slack)))
      → At m q (raw (done ++ old))
      → All IsByte bs
      → All IsByte slack
      → pad bs ≤ length slack
      → length old ≡ 4 * rounds bs
      → length front ≡ 8 + it
      → length done ≡ 8 + out
      → len ≡ it + length bs
      → limit + pad bs ≡ out + 4 * rounds bs
      → it + 3 * rounds bs < u64_mod
      → out + 4 * rounds bs < u64_mod
      → encode_loop (rounds bs) p q len limit it out m
        ≡ ok tt (write m q (some (raw (done ++ base64url bs))))
  unfolding base64url
  encode_loop-ok [] slack it out m front done [] from to h hs ls lo li ld le ll b1 b2 =
      encode_loop_done p q len limit it out m ∙ ap (ok tt) (sym (write_same q to))
  encode_loop-ok [] slack it out m front done (_ ∷ _) from to h hs ls lo li ld le ll b1 b2 =
      absurd (omega arith)
  encode_loop-ok (a ∷ []) (y ∷ z ∷ more) it out m front done old from to (ha, _) (hy, (hz, _)) ls lo
        li ld le ll b1 b2 =
      let first : byte_before len it a ≡ a = ground arith in
      let second : byte_before len (it + 1) y ≡ 0 = ground arith in
      let third : byte_before len (it + 2) z ≡ 0 = ground arith in
      encode_loop_step p q len limit 0 it out m front more done old [] (base64url (a ∷ [])) a y z a
        0 0 from (At-regrouped (ap (◌++◌ done) (sym (append-nil old))) to) ha hy hz lo li ld
        (omega arith) (omega arith) first second third (chars_one limit out a ha (omega arith))
      ∙ encode_loop_done p q len limit _ _ _
      ∙ ap (ok tt) (ap (λ bs. write m q (some (raw (done ++ bs)))) (append-nil _))
  encode_loop-ok (a ∷ []) [] it out m front done old from to h hs ls lo li ld le ll b1 b2 =
      absurd (omega arith)
  encode_loop-ok (a ∷ []) (_ ∷ []) it out m front done old from to h hs ls lo li ld le ll b1 b2 =
      absurd (omega arith)
  encode_loop-ok (a ∷ b ∷ []) (z ∷ more) it out m front done old from to (ha, (hb, _)) (hz, _) ls lo
        li ld le ll b1 b2 =
      let first : byte_before len it a ≡ a = ground arith in
      let second : byte_before len (it + 1) b ≡ b = ground arith in
      let third : byte_before len (it + 2) z ≡ 0 = ground arith in
      encode_loop_step p q len limit 0 it out m front more done old [] (base64url (a ∷ b ∷ [])) a b
        z a b 0 from (At-regrouped (ap (◌++◌ done) (sym (append-nil old))) to) ha hb hz lo li ld
        (omega arith) (omega arith) first second third (chars_two limit out a b ha hb (omega arith))
      ∙ encode_loop_done p q len limit _ _ _
      ∙ ap (ok tt) (ap (λ bs. write m q (some (raw (done ++ bs)))) (append-nil _))
  encode_loop-ok (a ∷ b ∷ []) [] it out m front done old from to h hs ls lo li ld le ll b1 b2 =
      absurd (omega arith)
  encode_loop-ok (a ∷ b ∷ c ∷ bs) slack it out m front done old from to (ha, (hb, (hc, h))) hs ls lo
        li ld le ll b1 b2 =
      let (o1, o2, parts, l1, l2) = split_at 4 (4 * rounds bs) old (omega arith) in
      let to' : At m q (raw (done ++ (o1 ++ o2))) = At-regrouped (ap (◌++◌ done) parts) to in
      let all : limit + pad bs ≡ out + 4 * suc (rounds bs) = ll in
      let room : out + 4 ≤ limit = omega (arith, rounds-pad bs) in
      let text : List ℕ = group a b c in
      let m' : Mem = write m q (some (raw (done ++ (text ++ o2)))) in
      let ne : q ≢ p = λ e. apart (sym e) in
      let first : byte_before len it a ≡ a = ground arith in
      let second : byte_before len (it + 1) b ≡ b = ground arith in
      let third : byte_before len (it + 2) c ≡ c = ground arith in
      let step =
        encode_loop_step p q len limit (rounds bs) it out m front (bs ++ slack) done o1 o2 text a b
          c a b c from to' ha hb hc l1 li ld (omega arith) (omega arith) first second third
          (chars_full limit out a b c ha hb hc room) in
      let rest =
        encode_loop-ok bs slack (it + 3) (out + 4) m' (front ++ a ∷ b ∷ c ∷ []) (done ++ text) o2
          (At-regrouped (regroup front (a ∷ b ∷ c ∷ []) (bs ++ slack)) (At-write_ne q _ from apart))
          (At-regrouped (regroup done text o2) (At-write_self m q _ (At-ne_null to))) h hs ls l2
          (omega (arith, length-append front (a ∷ b ∷ c ∷ [])))
          (omega (arith, length-append done text)) (omega arith) (omega arith) (omega arith)
          (omega arith) in
      step
      ∙ rest
      ∙ ap (ok tt) (
          write-write m q _ _
          ∙ ap (λ bs. write m q (some (raw bs))) (sym (regroup done text (base64url bs))))
