-- ===== src/Gen/Serial/Words.antt =====
-- Numbers in a buffer, and the loop of `swapArrayBytes` over the elements of an array.
use mathlib.Core.List.{reverse-reverse}
use tyr.Prelude.{
  ◌%◌, ℕ, ◌*◌, ◌/◌, ◌^◌, ◌<◌, ◌≡◌, ◌≢◌, refl, sym, ◌∙◌, ◌⊎◌, inl, inr, true, false, some, List, [],
  ◌∷◌, ◌++◌, map, reverse, arith, length, All, All-append, Bool-cases, length-append,
}
use tyr.Prelude.Bytes.{
  IsByte, le_bytes, length-le_bytes, le_value-le_bytes, le_bytes-le_value, le_bytes-IsByte,
  le_value-lt, length-reverse, reverse-IsByte,
}
use tyr.Ir.{Ty, int64}
use tyr.Layout.{DataLayout, IsLayout, encode, length-encode, decode-encode, bswap, swaps}
use tyr.Memory.{Ptr, raw, Mem, write, ok}
use tyr.Memory.Laws.{At, load_bytes-ok, store_bytes-ok}
use tyr.Gen.{u64_mod, swap_bytes, load_num, store_num}
use tyr.Gen.Serial.{swap_loop, swap_array}

-- A type with no padding, whose bytes are all swapped if any are, and are then of an even number, as
-- `llvm.bswap` wants it.
pub record IsWord (dl : DataLayout) (t : Ty) : Type 0 where
  pub dense : dl.store_size t ≡ dl.alloc_size t
  pub swapped : swaps dl t ≡ true → dl.size_in_bits t / 8 ≡ dl.store_size t
  pub even_bytes : swaps dl t ≡ true → dl.size_in_bits t / 8 % 2 ≡ 0

pub bswap-lt : (n v : ℕ) → bswap n v < 256 ^ n
unfolding bswap
bswap-lt n v =
    rw (length-reverse, length-le_bytes) at
      (le_value-lt (reverse (le_bytes n v)) (reverse-IsByte _ (le_bytes-IsByte n v)))

-- The bytes of a swapped number are those of the number, in the other order.
pub le_bytes-bswap : (n v : ℕ) → le_bytes n (bswap n v) ≡ reverse (le_bytes n v)
unfolding bswap
le_bytes-bswap n v =
    rw (length-reverse, length-le_bytes) at
      (le_bytes-le_value (reverse (le_bytes n v)) (reverse-IsByte _ (le_bytes-IsByte n v)))

pub bswap-bswap : (n v : ℕ) → v < 256 ^ n → bswap n (bswap n v) ≡ v
unfolding bswap
bswap-bswap n v h =
    rw (le_bytes-bswap n v, reverse-reverse (le_bytes n v)) (le_value-le_bytes n v h)

module _ (dl : DataLayout) (t : Ty) where
  abbrev pub Fits : ℕ → Type 0
  Fits v = v < 256 ^ dl.store_size t

  -- Where there is a loop, it wants an element.
  abbrev pub Loops : List ℕ → Type 0
  Loops xs = (swaps dl t ≡ false) ⊎ (xs ≢ [])

  -- The bytes of one number of this type, and of an array of them, in memory.
  abbrev pub word : ℕ → List ℕ
  word v = encode dl.stores_little_endian (dl.store_size t) v

  abbrev pub words : List ℕ → List ℕ
  words [] = []
  words (x ∷ xs) = word x ++ words xs

  pub length-words : (xs : List ℕ) → length (words xs) ≡ dl.store_size t * length xs
  length-words [] = omega arith
  length-words (x ∷ xs) =
      length-append (word x) (words xs)
      ∙ omega (arith, length-encode dl.stores_little_endian (dl.store_size t) x, length-words xs)

  pub word-IsByte : (v : ℕ) → All IsByte (word v)
  unfolding encode
  word-IsByte v = elim (Bool-cases dl.stores_little_endian) [
    | inl e ↦ rw e (le_bytes-IsByte (dl.store_size t) v)
    | inr e ↦
        rw e (reverse-IsByte (le_bytes (dl.store_size t) v) (le_bytes-IsByte (dl.store_size t) v))
  ]

  pub words-IsByte : (xs : List ℕ) → All IsByte (words xs)
  words-IsByte [] = tt
  words-IsByte (x ∷ xs) = All-append IsByte (word x) (words xs) (word-IsByte x) (words-IsByte xs)

  pub swap_bytes_kept : swaps dl t ≡ false → (v : ℕ) → swap_bytes dl t v ≡ v
  unfolding swap_bytes
  swap_bytes_kept h v = ground arith

  swap_bytes_swapped :
      swaps dl t ≡ true → (v : ℕ) → swap_bytes dl t v ≡ bswap (dl.size_in_bits t / 8) v
  unfolding swap_bytes
  swap_bytes_swapped h v = ground arith

  pub swap_array_kept :
      (p : Ptr) (i n : ℕ) (m : Mem) → swaps dl t ≡ false → swap_array dl t p i n m ≡ ok tt m
  unfolding swap_array
  swap_array_kept p i n m h = ground arith

  pub swap_array_loop :
      (p : Ptr) (i n : ℕ) (m : Mem)
      → swaps dl t ≡ true
      → swap_array dl t p i n m ≡ swap_loop dl t p i u64_mod 0 n m
  unfolding swap_array
  swap_array_loop p i n m h = ground arith

module _ {dl : DataLayout} {t : Ty} (w : IsWord dl t) where
  pub swap_bytes-Fits : (v : ℕ) → Fits dl t v → Fits dl t (swap_bytes dl t v)
  swap_bytes-Fits v h = elim (Bool-cases (swaps dl t)) [
    | inl s ↦ rw (swap_bytes_swapped dl t s v, w.swapped s) (bswap-lt (dl.store_size t) v)
    | inr s ↦ rw (swap_bytes_kept dl t s v) h
  ]

  pub swap_bytes-swap_bytes : (v : ℕ) → Fits dl t v → swap_bytes dl t (swap_bytes dl t v) ≡ v
  swap_bytes-swap_bytes v h = elim (Bool-cases (swaps dl t)) [
    | inl s ↦
        rw (swap_bytes_swapped dl t s v, swap_bytes_swapped dl t s _, w.swapped s)
          (bswap-bswap (dl.store_size t) v h)
    | inr s ↦ rw (swap_bytes_kept dl t s v, swap_bytes_kept dl t s v)
  ]

  pub map-swap_bytes-swap_bytes :
      (xs : List ℕ) → All (Fits dl t) xs → map (swap_bytes dl t) (map (swap_bytes dl t) xs) ≡ xs
  map-swap_bytes-swap_bytes [] h = refl
  map-swap_bytes-swap_bytes (x ∷ xs) (hx, h) =
      rw (swap_bytes-swap_bytes x hx, map-swap_bytes-swap_bytes xs h)

  pub map-swap_bytes-Fits :
      (xs : List ℕ) → All (Fits dl t) xs → All (Fits dl t) (map (swap_bytes dl t) xs)
  map-swap_bytes-Fits [] h = tt
  map-swap_bytes-Fits (x ∷ xs) (hx, h) = (swap_bytes-Fits x hx, map-swap_bytes-Fits xs h)

pub load_num-ok :
    (dl : DataLayout) (t : Ty) {m : Mem} {p : Ptr} (front back : List ℕ) (v : ℕ)
    → Fits dl t v
    → At m p (raw (front ++ (word dl t v ++ back)))
    → load_num dl t p (length front) m ≡ ok v m
unfolding load_num
load_num-ok dl t front back v h here =
    let got = load_bytes-ok front (word dl t v) back here in
    rw (rw (length-encode dl.stores_little_endian (dl.store_size t) v) at got)
      (rw (decode-encode dl.stores_little_endian (dl.store_size t) v h))

pub store_num-ok :
    (dl : DataLayout) (t : Ty) {m : Mem} {p : Ptr} (front old back : List ℕ) (v : ℕ)
    → At m p (raw (front ++ (old ++ back)))
    → length old ≡ dl.store_size t
    → store_num dl t p (length front) v m
      ≡ ok tt (write m p (some (raw (front ++ (word dl t v ++ back)))))
unfolding store_num
store_num-ok dl t front old back v here h =
    store_bytes-ok front (word dl t v) back old here
      (h ∙ sym (length-encode dl.stores_little_endian (dl.store_size t) v))

pub int64-IsWord : {dl : DataLayout} → IsLayout dl → IsWord dl int64
int64-IsWord {dl} lay = record {
  dense = lay.int64_store ∙ sym lay.int64_alloc;
  swapped = λ s. rw (lay.int64_bits, lay.int64_store);
  even_bytes = λ s. rw lay.int64_bits;
}
