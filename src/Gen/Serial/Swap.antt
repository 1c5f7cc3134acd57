-- ===== src/Gen/Serial/Swap.antt =====
-- The loop of `swapArrayBytes` over the elements of an array.
use tyr.Prelude.{
  ℕ, zero, suc, ◌+◌, ◌*◌, ◌%◌, ◌<◌, ◌≡◌, ◌≢◌, refl, sym, ap, ◌∙◌, inl, inr, true, false, some, List,
  [], ◌∷◌, ◌++◌, map, arith, ◌==◌, length, All, Bool-cases, append_assoc, append-nil, length-append,
}
use tyr.Ir.{Ty}
use tyr.Layout.{DataLayout, length-encode, swaps}
use tyr.Memory.{Ptr, raw, Mem, write, ok}
use tyr.Memory.Laws.{At, At-ne_null, At-write_self, write-write, write_same}
use tyr.Gen.{u64_mod, swap_bytes}
use tyr.Gen.Serial.{swap_element, swap_loop, swap_array}
use tyr.Gen.Serial.Values.{IsElements, wire_elements, length-map}
use tyr.Gen.Serial.Words.{
  IsWord, Fits, word, words, Loops, swap_bytes_kept, swap_array_kept, swap_array_loop, load_num-ok,
  store_num-ok, map-swap_bytes-swap_bytes, map-swap_bytes-Fits,
}

module _ {dl : DataLayout} {t : Ty} (w : IsWord dl t) where
  -- One round, on the element behind `front`.
  swap_element-ok :
      {m : Mem} {p : Ptr} (base k x : ℕ) (front back : List ℕ)
      → Fits dl t x
      → base + dl.alloc_size t * k ≡ length front
      → At m p (raw (front ++ (word dl t x ++ back)))
      → swap_element dl t p base k m
        ≡ ok tt (write m p (some (raw (front ++ (word dl t (swap_bytes dl t x) ++ back)))))
  unfolding swap_element
  swap_element-ok base k x front back h e here =
      rw (e, load_num-ok dl t front back x h here)
        (store_num-ok dl t front (word dl t x) back (swap_bytes dl t x) here
          (length-encode dl.stores_little_endian (dl.store_size t) x))

  swap_step :
      {m : Mem} {p : Ptr} (base k x : ℕ) (front rest back : List ℕ)
      → Fits dl t x
      → base + dl.alloc_size t * k ≡ length front
      → At m p (raw (front ++ ((word dl t x ++ rest) ++ back)))
      → swap_element dl t p base k m
        ≡ ok tt
            (write m p (some (raw ((front ++ word dl t (swap_bytes dl t x)) ++ (rest ++ back)))))
  swap_step base k x front rest back h e here = rw (append_assoc front) (
      swap_element-ok base k x front (rest ++ back) h e
        (rw (append_assoc (word dl t x) rest back) at here))

  swap_loop-ok :
      (fuel : ℕ) {m : Mem} {p : Ptr} (base k count x : ℕ) (rest front back : List ℕ)
      → All (Fits dl t) (x ∷ rest)
      → base + dl.alloc_size t * k ≡ length front
      → k + suc (length rest) ≡ count
      → count < u64_mod
      → length rest < fuel
      → At m p (raw (front ++ (words dl t (x ∷ rest) ++ back)))
      → swap_loop dl t p base fuel k count m
        ≡ ok tt (
            write m p
              (some (raw (front ++ (words dl t (map (swap_bytes dl t) (x ∷ rest)) ++ back)))))
  unfolding swap_loop
  swap_loop-ok zero base k count x rest front back h e n lt f here = absurd (omega arith)
  swap_loop-ok (suc fuel) base k count x [] front back h e n lt f here =
      let last : ((1 + k) % u64_mod == count) ≡ true = ground arith in
      rw (swap_step base k x front [] back h.0 e here, last) (simp (append_assoc, append-nil))
  swap_loop-ok (suc fuel) {m} {p} base k count x (y ∷ ys) front back h e n lt f here =
      let more : ((1 + k) % u64_mod == count) ≡ false = ground arith in
      let next : (1 + k) % u64_mod ≡ 1 + k = omega arith in
      rw (swap_step base k x front (words dl t (y ∷ ys)) back h.0 e here, more, next)
        (swap_loop-ok fuel base (1 + k) count y ys (front ++ word dl t (swap_bytes dl t x)) back h.1
            (omega (
              arith,
              length-append front (word dl t (swap_bytes dl t x)),
              length-encode dl.stores_little_endian (dl.store_size t) (swap_bytes dl t x),
              w.dense,
            ))
            (omega arith) lt (omega arith) (At-write_self m p _ (At-ne_null here))
          ∙ rw write-write (simp append_assoc))

  map_kept : swaps dl t ≡ false → (xs : List ℕ) → map (swap_bytes dl t) xs ≡ xs
  map_kept s [] = refl
  map_kept s (x ∷ xs) = rw (swap_bytes_kept dl t s x, map_kept s xs)

  swap_array_looped :
      {m : Mem} {p : Ptr} (xs front back : List ℕ)
      → swaps dl t ≡ true
      → All (Fits dl t) xs
      → Loops dl t xs
      → length xs < u64_mod
      → At m p (raw (front ++ (words dl t xs ++ back)))
      → swap_loop dl t p (length front) u64_mod 0 (length xs) m
        ≡ ok tt (write m p (some (raw (front ++ (words dl t (map (swap_bytes dl t) xs) ++ back)))))
  swap_array_looped [] front back s h (inl kept) lt here = cc
  swap_array_looped [] front back s h (inr ne) lt here = absurd (ne refl)
  swap_array_looped (x ∷ xs) front back s h loops lt here =
      swap_loop-ok u64_mod (length front) 0 (suc (length xs)) x xs front back h (omega arith)
        (omega arith) lt (omega arith) here

  -- `swapArrayBytes` swaps each element of the array and writes nothing else.
  pub swap_array-ok :
      {m : Mem} {p : Ptr} (xs front back : List ℕ)
      → All (Fits dl t) xs
      → Loops dl t xs
      → length xs < u64_mod
      → At m p (raw (front ++ (words dl t xs ++ back)))
      → swap_array dl t p (length front) (length xs) m
        ≡ ok tt (write m p (some (raw (front ++ (words dl t (map (swap_bytes dl t) xs) ++ back)))))
  swap_array-ok {m} {p} xs front back h loops lt here = elim (Bool-cases (swaps dl t)) [
    | inr s ↦
        rw (swap_array_kept dl t p (length front) (length xs) m s, map_kept s xs)
          (ap (ok tt) (sym (write_same p here)))
    | inl s ↦
        rw (swap_array_loop dl t p (length front) (length xs) m s)
          (swap_array_looped xs front back s h loops lt here)
  ]

map-ne_nil : (g : ℕ → ℕ) (xs : List ℕ) → xs ≢ [] → map g xs ≢ []
map-ne_nil g [] h e = h refl
map-ne_nil g (x ∷ xs) h e = cc

-- Swapping the elements of a buffer gives those of the array.
pub unswap :
    (dl : DataLayout) (t : Ty) {m : Mem} {p : Ptr} (xs : List ℕ)
    → IsWord dl t
    → IsElements dl t xs
    → At m p (raw (wire_elements dl t xs))
    → swap_array dl t p 0 (length xs) m ≡ ok tt (write m p (some (raw (words dl t xs))))
unswap dl t {m} {p} xs w e here =
    rw (append-nil, map-swap_bytes-swap_bytes w xs e.fit, length-map) at
      (swap_array-ok w {m = m} {p = p} (map (swap_bytes dl t) xs) [] []
        (map-swap_bytes-Fits w xs e.fit) loops (rw (length-map dl t xs) e.few) (rw append-nil here))
  where
    loops : Loops dl t (map (swap_bytes dl t) xs)
    loops = elim e.loops [ inl k ↦ inl k | inr ne ↦ inr (map-ne_nil _ xs ne) ]
