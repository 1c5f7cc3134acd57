-- ===== src/Runtime/Base64/Bytes.antt =====
-- The loop of `tyr_deserialize_from_base64` (Base64.c) over a whole text.
use tyr.Prelude.{
  ℕ, ◌+◌, ◌*◌, ◌<◌, ◌≡◌, ◌≢◌, sym, ap, ◌∙◌, some, List, [], ◌∷◌, ◌++◌, arith, length, length-append,
  append-nil, All, split_at, replicate,
}
use tyr.Prelude.Bytes.{IsByte}
use tyr.Memory.{Ptr, raw, Mem, write, ok}
use tyr.Memory.Laws.{
  At, At-regrouped, At-write_self, At-ne_null, At-write_ne, write-write, write_same,
}
use tyr.Gen.{u64_mod}
use tyr.Runtime.Base64.{decode_loop}
use tyr.Runtime.Base64.Alphabet.{base64url, rounds, pad}
use tyr.Runtime.Base64.Words.{word_of}
use tyr.Runtime.Base64.Loop.{group, regroup}
use tyr.Runtime.Base64.Decode.{
  bytes_of-word_of, take_chars-full, take_chars-two, take_chars-one, decode_loop_done,
  decode_loop_step,
}

-- The bytes, and zeros up to the end of the last group.
abbrev pub padded : List ℕ → List ℕ
padded bs = bs ++ replicate (pad bs) 0

module _ (q p : Ptr) (apart : q ≢ p) where
  pub decode_loop-ok :
      (bs : List ℕ) (it out : ℕ) (m : Mem) (front back done old : List ℕ)
      → At m q (raw (front ++ (base64url bs ++ back)))
      → At m p (raw (done ++ old))
      → All IsByte bs
      → length old ≡ 3 * rounds bs
      → length front ≡ 8 + it
      → length done ≡ 8 + out
      → it + 4 * rounds bs < u64_mod
      → out + 3 * rounds bs < u64_mod
      → decode_loop (rounds bs) q p it 0 out m
        ≡ ok (pad bs) (write m p (some (raw (done ++ padded bs))))
  unfolding base64url
  decode_loop-ok [] it out m front back done [] from to h lo li ld b1 b2 =
      decode_loop_done q p it 0 out m ∙ ap (ok 0) (sym (write_same p to))
  decode_loop-ok [] it out m front back done (_ ∷ _) from to h lo li ld b1 b2 = absurd (omega arith)
  decode_loop-ok (a ∷ []) it out m front back done old from to (ha, _) lo li ld b1 b2 =
      decode_loop_step q p 0 it out (word_of a 0 0) _ 2 m done old [] (a ∷ 0 ∷ 0 ∷ [])
        (take_chars-one q it front back li b1 a ha from)
        (At-regrouped (ap (◌++◌ done) (sym (append-nil old))) to) lo ld b2
        (bytes_of-word_of a 0 0 ha (omega arith) (omega arith))
      ∙ decode_loop_done q p _ 2 _ _
  decode_loop-ok (a ∷ b ∷ []) it out m front back done old from to (ha, (hb, _)) lo li ld b1 b2 =
      decode_loop_step q p 0 it out (word_of a b 0) _ 1 m done old [] (a ∷ b ∷ 0 ∷ [])
        (take_chars-two q it front back li b1 a b ha hb from)
        (At-regrouped (ap (◌++◌ done) (sym (append-nil old))) to) lo ld b2
        (bytes_of-word_of a b 0 ha hb (omega arith))
      ∙ decode_loop_done q p _ 1 _ _
  decode_loop-ok (a ∷ b ∷ c ∷ bs) it out m front back done old from to (ha, (hb, (hc, h))) lo li ld
        b1 b2 =
      let (o1, o2, parts, l1, l2) = split_at 3 (3 * rounds bs) old (omega arith) in
      let text : List ℕ = group a b c in
      let m' : Mem = write m p (some (raw (done ++ (a ∷ b ∷ c ∷ o2)))) in
      let index : it + 1 + 1 + 1 + 1 ≡ it + 4 = omega arith in
      let step =
        decode_loop_step q p (rounds bs) it out (word_of a b c) _ 0 m done o1 o2 (a ∷ b ∷ c ∷ [])
          (take_chars-full q it front (base64url bs ++ back) li (omega arith) a b c ha hb hc from)
          (At-regrouped (ap (◌++◌ done) parts) to) l1 ld (omega arith)
          (bytes_of-word_of a b c ha hb hc) in
      let rest =
        decode_loop-ok bs (it + 1 + 1 + 1 + 1) (out + 3) m' (front ++ text) back
          (done ++ a ∷ b ∷ c ∷ []) o2
          (At-regrouped (regroup front text (base64url bs ++ back)) (At-write_ne p _ from apart))
          (At-regrouped (regroup done (a ∷ b ∷ c ∷ []) o2) (At-write_self m p _ (At-ne_null to))) h
          l2 (omega (arith, length-append front text))
          (omega (arith, length-append done (a ∷ b ∷ c ∷ []))) (omega arith) (omega arith) in
      step
      ∙ rest
      ∙ ap (ok (pad bs)) (
          write-write m p _ _
          ∙ ap (λ ys. write m p (some (raw ys))) (sym (regroup done (a ∷ b ∷ c ∷ []) (padded bs))))
