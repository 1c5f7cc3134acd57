-- ===== src/Memory/Laws.antt =====
-- What each instruction does on memory that fits it.
use tyr.Prelude.{
  ℕ, zero, suc, ◌<◌, ◌≡◌, ◌≢◌, ◌⊎◌, inl, inr, refl, sym, ap, ◌∙◌, Option, none, some, List, [], ◌∷◌,
  ◌++◌, arith, ◌==◌, lt→ltb, Bool-cases, length, get_elem?, set, replicate, append-nil,
  slice-append, splice-append,
}
use tyr.Memory.{
  Ptr, null, Block, cells, raw, Mem, look, write, block_at, ok, fault, load_cell, store_cell,
  store_bytes_in, load_bytes, store_bytes, memcpy, Allocator, fresh_bytes, malloc, calloc,
  malloc_struct, resize,
}

look-write_self : (m : Mem) (p : Ptr) (b : Option Block) → look (write m p b) p ≡ b
unfolding write
look-write_self [] zero b = refl
look-write_self [] (suc p) b = look-write_self [] p b
look-write_self (c ∷ m) zero b = refl
look-write_self (c ∷ m) (suc p) b = look-write_self m p b

look-write_ne : (m : Mem) (p q : Ptr) (b : Option Block) → q ≢ p → look (write m p b) q ≡ look m q
unfolding write
look-write_ne [] zero zero b ne = absurd (ne refl)
look-write_ne [] zero (suc q) b ne = refl
look-write_ne [] (suc p) zero b ne = refl
look-write_ne [] (suc p) (suc q) b ne = look-write_ne [] p q b (λ e. ne (ap suc e))
look-write_ne (c ∷ m) zero zero b ne = absurd (ne refl)
look-write_ne (c ∷ m) zero (suc q) b ne = refl
look-write_ne (c ∷ m) (suc p) zero b ne = refl
look-write_ne (c ∷ m) (suc p) (suc q) b ne = look-write_ne m p q b (λ e. ne (ap suc e))

pub write-write : (m : Mem) (p : Ptr) (b c : Option Block) → write (write m p b) p c ≡ write m p c
unfolding write
write-write [] zero b c = refl
write-write [] (suc p) b c = ap (◌∷◌ none) (write-write [] p b c)
write-write (d ∷ m) zero b c = refl
write-write (d ∷ m) (suc p) b c = ap (◌∷◌ d) (write-write m p b c)

write-look : (m : Mem) (p : Ptr) (b : Block) → look m p ≡ some b → write m p (some b) ≡ m
unfolding write
write-look [] p b h = cc h
write-look (c ∷ m) zero b h = ap (λ k. k ∷ m) (sym h)
write-look (c ∷ m) (suc p) b h = ap (◌∷◌ c) (write-look m p b h)

module _ (m : Mem) where
  pub block_at-null : block_at m null ≡ none
  unfolding block_at
  block_at-null = refl

  pub ne-null_of_block : (p : Ptr) {b : Block} → block_at m p ≡ some b → p ≢ null
  unfolding block_at
  ne-null_of_block p h = ground arith

  block_at-look : (p : Ptr) → p ≢ null → block_at m p ≡ look m p
  unfolding block_at
  block_at-look p h = ground arith

pub block_at-write_self :
    (m : Mem) (p : Ptr) (b : Option Block) → p ≢ null → block_at (write m p b) p ≡ b
block_at-write_self m p b h = block_at-look (write m p b) p h ∙ look-write_self m p b

pub block_at-write_ne :
    (m : Mem) (p q : Ptr) (b : Option Block) → q ≢ p → block_at (write m p b) q ≡ block_at m q
unfolding block_at
block_at-write_ne m p q b h = elim (Bool-cases (q == null)) [
  | inl e ↦ rw e
  | inr e ↦ rw e (look-write_ne m p q b h)
]

-- `p` is the address of a live block with this content.
pub record At (m : Mem) (p : Ptr) (b : Block) : Type 0 where
  pub found : block_at m p ≡ some b

module _ {m : Mem} {p : Ptr} where
  pub At-ne_null : {b : Block} → At m p b → p ≢ null
  At-ne_null h = ne-null_of_block m p h.found

  pub At-write_ne :
      {b : Block} (q : Ptr) (c : Option Block) → At m p b → p ≢ q → At (write m q c) p b
  At-write_ne q c h ne = record { found = block_at-write_ne m q p c ne ∙ h.found }

-- The same bytes, put together in another way.
pub At-regrouped :
    {m : Mem} {p : Ptr} {bs cs : List ℕ} → bs ≡ cs → At m p (raw bs) → At m p (raw cs)
At-regrouped e h = record { found = h.found ∙ ap (λ ds. some (raw ds)) e }

pub write_same : {m : Mem} {b : Block} (p : Ptr) → At m p b → write m p (some b) ≡ m
write_same {m} {b} p here =
    write-look m p b (sym (block_at-look m p (ne-null_of_block m p here.found)) ∙ here.found)

module _ (m : Mem) (p : Ptr) where
  pub At-write_self : (b : Block) → p ≢ null → At (write m p (some b)) p b
  At-write_self b ne = record { found = block_at-write_self m p (some b) ne }

module _ {m : Mem} {p : Ptr} {cs : List ℕ} (here : At m p (cells cs)) where
  pub load_cell-ok : (i : ℕ) {v : ℕ} → get_elem? cs i ≡ some v → load_cell p i m ≡ ok v m
  unfolding load_cell
  load_cell-ok i h = rw (here.found, h)

  pub store_cell-ok :
      (i v : ℕ) → i < length cs → store_cell p i v m ≡ ok tt (write m p (some (cells (set cs i v))))
  unfolding store_cell
  store_cell-ok i v h = rw (here.found, lt→ltb i (length cs) h)

module _ (m : Mem) (p : Ptr) (gone : block_at m p ≡ none) where
  pub load_cell-none : (i : ℕ) → load_cell p i m ≡ fault
  unfolding load_cell
  load_cell-none i = rw gone

  pub store_cell-none : (i v : ℕ) → store_cell p i v m ≡ fault
  unfolding store_cell
  store_cell-none i v = rw gone

  pub store_bytes-none : (i : ℕ) (bs : List ℕ) → store_bytes p i bs m ≡ fault
  unfolding store_bytes
  store_bytes-none i bs = rw gone

module _ {m : Mem} {p : Ptr} (xs ys zs : List ℕ) where
  pub load_bytes-ok :
      At m p (raw (xs ++ (ys ++ zs))) → load_bytes p (length xs) (length ys) m ≡ ok ys m
  unfolding load_bytes
  load_bytes-ok here = rw (here.found, slice-append xs ys zs)

  pub store_bytes-ok :
      (old : List ℕ)
      → At m p (raw (xs ++ (old ++ zs)))
      → length old ≡ length ys
      → store_bytes p (length xs) ys m ≡ ok tt (write m p (some (raw (xs ++ (ys ++ zs)))))
  unfolding store_bytes
  store_bytes-ok old here h = rw (here.found, splice-append xs ys old zs h, store_bytes_in)

pub load_whole :
    {m : Mem} {p : Ptr} {ys : List ℕ} → At m p (raw ys) → load_bytes p 0 (length ys) m ≡ ok ys m
load_whole {ys} here = load_bytes-ok [] ys [] (rw append-nil here)

-- The memory from an address on is these bytes, if there are any.
abbrev pub Backs : Mem → Ptr → List ℕ → Type 0
Backs m p bs = (bs ≡ []) ⊎ At m p (raw bs)

-- A copy of all of a block into the middle of another.
pub memcpy-ok :
    {m : Mem} (p q : Ptr) (xs old zs ys : List ℕ)
    → At m p (raw (xs ++ (old ++ zs)))
    → Backs m q ys
    → length old ≡ length ys
    → memcpy p (length xs) q 0 (length ys) m ≡ ok tt (write m p (some (raw (xs ++ (ys ++ zs)))))
unfolding memcpy
memcpy-ok p q xs [] zs [] to from h = ap (ok tt) (sym (write_same p to))
memcpy-ok p q xs (_ ∷ _) zs [] to from h = absurd (omega arith)
memcpy-ok p q xs old zs (y ∷ ys) to (inl none_left) h = cc
memcpy-ok p q xs old zs (y ∷ ys) to (inr from) h =
    rw (load_whole from) (store_bytes-ok xs (y ∷ ys) zs old to h)

pub store_whole :
    {m : Mem} {p : Ptr} (old ys : List ℕ)
    → At m p (raw old)
    → length old ≡ length ys
    → store_bytes p 0 ys m ≡ ok tt (write m p (some (raw ys)))
store_whole {m} {p} old ys here h =
    rw append-nil at (store_bytes-ok {m = m} {p = p} [] ys [] old (rw append-nil here) h)

-- A copy from the middle of a block over all of another.
pub memcpy_whole :
    {m : Mem} (p q : Ptr) (xs ys zs old : List ℕ)
    → At m p (raw old)
    → At m q (raw (xs ++ (ys ++ zs)))
    → length old ≡ length ys
    → memcpy p 0 q (length xs) (length ys) m ≡ ok tt (write m p (some (raw ys)))
unfolding memcpy
memcpy_whole p q xs [] zs [] to from h = ap (ok tt) (sym (write_same p to))
memcpy_whole p q xs [] zs (_ ∷ _) to from h = absurd (omega arith)
memcpy_whole {m} p q xs (y ∷ ys) zs old to from h =
    rw (load_bytes-ok xs (y ∷ ys) zs from) (store_whole old (y ∷ ys) to h)

module _ (al : Allocator) where
  pub length-fresh_bytes : (n : ℕ) → length (fresh_bytes al n) ≡ n
  unfolding fresh_bytes
  length-fresh_bytes zero = refl
  length-fresh_bytes (suc n) = ap suc (length-fresh_bytes n)

  pub length-resize : (bs : List ℕ) (n : ℕ) → length (resize al bs n) ≡ n
  unfolding resize
  length-resize bs zero = refl
  length-resize [] (suc n) = length-fresh_bytes (suc n)
  length-resize (b ∷ bs) (suc n) = ap suc (length-resize bs n)

  -- `malloc` answers NULL and changes nothing, or gives a new block of garbage.
  pub malloc-null : (n : ℕ) (m : Mem) → al.new_address n m ≡ null → malloc al n m ≡ ok null m
  unfolding malloc
  malloc-null n m h = rw h

  pub malloc-ok :
      (n : ℕ) (m : Mem)
      → al.new_address n m ≢ null
      → malloc al n m
        ≡ ok (al.new_address n m) (write m (al.new_address n m) (some (raw (fresh_bytes al n))))
  unfolding malloc
  malloc-ok n m h = ground arith

  pub calloc-null : (n : ℕ) (m : Mem) → al.new_address n m ≡ null → calloc al n m ≡ ok null m
  unfolding calloc
  calloc-null n m h = rw h

  pub calloc-ok :
      (n : ℕ) (m : Mem)
      → al.new_address n m ≢ null
      → calloc al n m
        ≡ ok (al.new_address n m) (write m (al.new_address n m) (some (raw (replicate n 0))))
  unfolding calloc
  calloc-ok n m h = ground arith

  pub malloc_struct-ok :
      (n k : ℕ) (m : Mem)
      → al.new_address n m ≢ null
      → malloc_struct al n k m
        ≡ ok (al.new_address n m) (write m (al.new_address n m) (some (cells (fresh_bytes al k))))
  unfolding malloc_struct
  malloc_struct-ok n k m h = ground arith

  pub malloc_struct-null :
      (n k : ℕ) (m : Mem) → al.new_address n m ≡ null → malloc_struct al n k m ≡ ok null m
  unfolding malloc_struct
  malloc_struct-null n k m h = rw h
