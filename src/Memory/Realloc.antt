-- ===== src/Memory/Realloc.antt =====
-- What `realloc` and `free` do (Memory): the block moves or stays, or there is no memory for it.
use tyr.Prelude.{ℕ, ◌≡◌, ◌≢◌, inl, inr, refl, sym, ap, ◌∙◌, false, none, some, List, arith, ◌==◌}
use tyr.Memory.{
  Ptr, null, Block, raw, Mem, write, block_at, ok, Allocator, malloc, realloc, resize, free,
}
use tyr.Memory.Laws.{At, At-ne_null, At-write_ne}

pub free-null : (m : Mem) → free null m ≡ ok tt m
unfolding free
free-null m = refl

pub free-ok : (m : Mem) (p : Ptr) {b : Block} → At m p b → free p m ≡ ok tt (write m p none)
unfolding free
free-ok m p here =
    let ne : (p == null) ≡ false = ground (arith, At-ne_null here) in rw (ne, here.found)

module _ (al : Allocator) where
  pub realloc-null : (n : ℕ) (m : Mem) → realloc al null n m ≡ malloc al n m
  unfolding realloc
  realloc-null n m = refl

  module _ (m : Mem) (p n : ℕ) {bs : List ℕ} (here : At m p (raw bs)) where
    taken : (p == null) ≡ false
    taken = ground (arith, At-ne_null here)

    pub realloc-moved :
        al.moved_address p n m ≢ null
        → realloc al p n m
          ≡ ok
              (al.moved_address p n m)
              (write (write m p none) (al.moved_address p n m) (some (raw (resize al bs n))))
    unfolding realloc
    realloc-moved ne =
        let some_place : (al.moved_address p n m == null) ≡ false = ground arith in
        rw (taken, here.found, some_place)

    -- Without memory for `n ≢ 0` bytes, all stays as it is.
    pub realloc-fails : al.moved_address p n m ≡ null → n ≢ 0 → realloc al p n m ≡ ok null m
    unfolding realloc
    realloc-fails e ne =
        let positive : (n == 0) ≡ false = ground arith in rw (taken, here.found, e, positive)

    -- A block that is not the old one is not the new one.
    pub moved-ne : (q : Ptr) {b : Block} → At m q b → q ≢ p → al.moved_address p n m ≢ q
    moved-ne q there ne e = elim (al.moved_unused p n m) [
      | inl same ↦ ne (sym e ∙ same)
      | inr unused ↦ cc (there.found, unused, ap (block_at m) e)
    ]

    pub At-moved :
        (q : Ptr) {b : Block} (content : List ℕ)
        → At m q b
        → q ≢ p
        → At (write (write m p none) (al.moved_address p n m) (some (raw content))) q b
    At-moved q content there ne =
        At-write_ne (al.moved_address p n m) _ (At-write_ne p none there ne)
          (λ e. moved-ne q there ne (sym e))
