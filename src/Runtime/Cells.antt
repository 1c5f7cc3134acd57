-- ===== src/Runtime/Cells.antt =====
-- Single bytes and 64-bit words in a block, as Runtime reads and writes them.
use tyr.Prelude.{
  ℕ, ◌%◌, ◌<◌, ◌≡◌, refl, sym, ap, ◌∙◌, Bool, some, List, [], ◌∷◌, ◌++◌, arith, length,
}
use tyr.Prelude.Bytes.{le_value}
use tyr.Layout.{encode, length-encode, decode-encode}
use tyr.Memory.{Ptr, raw, Mem, write, ok}
use tyr.Memory.Laws.{At, load_bytes-ok, store_bytes-ok}
use tyr.Gen.{u64_mod}
use tyr.Runtime.{load_byte, store_byte, load_u64, store_u64}

module _ {m : Mem} {p : Ptr} (i : ℕ) (front back : List ℕ) (at_i : length front ≡ i) where
  pub load_byte-ok : (b : ℕ) → At m p (raw (front ++ (b ∷ back))) → load_byte p i m ≡ ok b m
  unfolding load_byte le_value
  load_byte-ok b here =
      rw (← at_i, load_bytes-ok front (b ∷ []) back here) (ap (λ (v : ℕ). ok v m) (omega arith))

  pub store_byte-ok :
      (old v : ℕ)
      → v < 256
      → At m p (raw (front ++ (old ∷ back)))
      → store_byte p i v m ≡ ok tt (write m p (some (raw (front ++ (v ∷ back)))))
  unfolding store_byte
  store_byte-ok old v small here =
      let same : v % 256 ≡ v = omega arith in
      rw (← at_i, same) (store_bytes-ok front (v ∷ []) back (old ∷ []) here refl)

module _ (little : Bool) {m : Mem} {p : Ptr} (back : List ℕ) (v : ℕ) where
  pub load_u64-ok :
      v < u64_mod → At m p (raw (encode little 8 v ++ back)) → load_u64 little p m ≡ ok v m
  unfolding load_u64
  load_u64-ok small here =
      rw (rw (length-encode little 8 v) at (load_bytes-ok [] (encode little 8 v) back here))
        (rw (decode-encode little 8 v (omega arith)))

  pub store_u64-ok :
      (old : List ℕ)
      → length old ≡ 8
      → At m p (raw (old ++ back))
      → store_u64 little p v m ≡ ok tt (write m p (some (raw (encode little 8 v ++ back))))
  unfolding store_u64
  store_u64-ok old eight here =
      store_bytes-ok [] (encode little 8 v) back old here (eight ∙ sym (length-encode little 8 v))
