-- ===== src/Gen/Update/Count.antt =====
-- The setters of a count and of a plain value (LLVMIRGenPass.cpp, `getSetter`).
use tyr.Prelude.{
  ℕ, zero, suc, ◌*◌, ◌%◌, ◌<◌, ◌≡◌, ◌≢◌, refl, sym, ap, ◌∙◌, Bool, true, false, none, some, List,
  [], ◌∷◌, arith, ◌==◌, length, get_elem?, set, get_elem?-lt, get_elem?-set_self, get_elem?-set_ne,
  length-set,
}
use tyr.Ir.{Ty, Field, pointer_to}
use tyr.Memory.{Ptr, null, cells, raw, Mem, write, block_at, Run, ok, resize, load_cell}
use tyr.Memory.Laws.{
  At, At-ne_null, At-write_self, At-write_ne, load_cell-ok, store_cell-ok, write-write, write_same,
}
use tyr.Memory.Realloc.{realloc-moved, realloc-fails, At-moved}
use tyr.Gen.{Target, u64_mod, deref, get_field_alloc_size}
use tyr.Gen.Sizes.{null_check_one, null_check-null, alloc_size_repeated}
use tyr.Gen.Update.{setter}

-- Writing a cell again, with what it had, undoes the write.
set-set_back :
    (cs : List ℕ) (i old new : ℕ) → get_elem? cs i ≡ some old → set (set cs i new) i old ≡ cs
set-set_back [] i old new e = refl
set-set_back (x ∷ xs) zero old new e = ap (λ k. k ∷ xs) (cc e)
set-set_back (x ∷ xs) (suc i) old new e = ap (◌∷◌ x) (set-set_back xs i old new e)

-- The setter of a count has answered true.
pub record IsResized (c r : ℕ) (self array : Ptr) (new : ℕ) (bs : List ℕ) (run : Run Bool)
    : Type 0 where
  pub mem : Mem
  pub now : List ℕ
  pub runs : run ≡ ok true mem
  pub self_at : At mem self (cells now)
  pub count : get_elem? now c ≡ some new
  pub pointer : get_elem? now r ≡ some array
  pub elements : At mem array (raw bs)

module _ (tg : Target) (fs : List Field) (m : Mem) (self : Ptr) (cs : List ℕ)
    (self_at : At m self (cells cs)) where
  -- `set_<struct>_<field>` of a plain value writes the value into the field's cell, and nothing else.
  pub setter-value :
      (f : Field) (v n : ℕ)
      → f.is_struct ≡ false
      → f.is_repeated ≡ false
      → f.is_count ≡ false
      → f.offset < length cs
      → setter tg fs f self v n m ≡ ok true (write m self (some (cells (set cs f.offset v))))
  unfolding setter
  setter-value f v n plain single value room =
      rw (null_check_one self (At-ne_null self_at))
        (simp (plain, single, value) (rw (store_cell-ok self_at f.offset v room)))

  -- A count field `c`, its repeated field `r`, and the array that `r` has.
  pub record Counts (c r : Field) (t : Ty) (array n : ℕ) (old : List ℕ) : Type 0 where
    pub plain : c.is_struct ≡ false
    pub single : c.is_repeated ≡ false
    pub count : c.is_count ≡ true
    pub counts : deref fs c.counts_for ≡ some r
    pub counted : deref fs r.count_field ≡ some c
    pub repeated : r.is_repeated ≡ true
    pub points : r.type ≡ pointer_to t
    pub apart : c.offset ≢ r.offset
    pub count_at : get_elem? cs c.offset ≡ some n
    pub array_at : get_elem? cs r.offset ≡ some array
    pub elements_at : At m array (raw old)

  module _ (c r : Field) (t : Ty) (array n : ℕ) (old : List ℕ)
      (has : Counts c r t array n old) where
    module _ (new k : ℕ) (positive : new ≢ 0) where
      abbrev size : ℕ
      size = tg.layout.alloc_size t * new % u64_mod

      abbrev counted : Mem
      counted = write m self (some (cells (set cs c.offset new)))

      room : c.offset < length cs
      room = get_elem?-lt cs c.offset has.count_at

      counted_at : At counted self (cells (set cs c.offset new))
      counted_at = At-write_self m self _ (At-ne_null self_at)

      array_ne : array ≢ self
      array_ne e = cc (has.elements_at.found, self_at.found, ap (block_at m) e)

      elements_now : At counted array (raw old)
      elements_now = At-write_ne self _ has.elements_at array_ne

      size_now : get_field_alloc_size tg.layout fs r self counted ≡ ok size counted
      size_now =
          alloc_size_repeated tg.layout fs r self counted c t new has.repeated has.points
            has.counted counted_at (get_elem?-set_self cs c.offset new room)

      array_now : load_cell self r.offset counted ≡ ok array counted
      array_now =
          load_cell-ok counted_at r.offset
            (get_elem?-set_ne cs c.offset r.offset new has.apart ∙ has.array_at)

      nonzero : (new == 0) ≡ false
      nonzero = ground arith

      -- If `realloc` has no memory, the answer is false, and the count and the array are what they
      -- were.
      pub setter-restores :
          size ≢ 0
          → tg.alloc.moved_address array size counted ≡ null
          → setter tg fs c self new k m ≡ ok false m
      unfolding setter
      setter-restores ne e =
          let back : write counted self (some (cells (set (set cs c.offset new) c.offset n))) ≡ m =
            write-write m self _ _
            ∙ ap (λ b. write m self (some (cells b))) (set-set_back cs c.offset n new has.count_at)
            ∙ write_same self self_at in
          rw (null_check_one self (At-ne_null self_at)) (
            simp (has.plain, has.single, has.count, nonzero)
              (rw (
                load_cell-ok self_at c.offset has.count_at,
                store_cell-ok self_at c.offset new room,
                has.counts,
                array_now,
                size_now,
                realloc-fails tg.alloc counted array size elements_now e ne,
                store_cell-ok counted_at c.offset n (rw length-set room),
                back,
                null_check-null,
              )))

      -- With memory the answer is true, and the array has moved to a block of the new size, which is
      -- computed in 64 bits and starts with the old bytes; the struct has its address and the count.
      pub setter-IsResized :
          tg.alloc.moved_address array size counted ≢ null
          → IsResized c.offset r.offset self
              (tg.alloc.moved_address array size counted)
              new
              (resize tg.alloc old size)
              (setter tg fs c self new k m)
      unfolding setter
      setter-IsResized ne =
          let q : Ptr = tg.alloc.moved_address array size counted in
          let c1 : List ℕ = set cs c.offset new in
          let c2 : List ℕ = set c1 c.offset n in
          let c3 : List ℕ = set c2 r.offset q in
          let m2 : Mem =
            write (write counted array none) q (some (raw (resize tg.alloc old size))) in
          let at_2 : At m2 self (cells c1) =
            At-moved tg.alloc counted array size elements_now self (resize tg.alloc old size)
              counted_at (λ e. array_ne (sym e)) in
          let at_q : At m2 q (raw (resize tg.alloc old size)) = At-write_self _ q _ ne in
          let q_ne : q ≢ self = λ e. cc (at_q.found, at_2.found, ap (block_at m2) e) in
          let at_3 : At (write m2 self (some (cells c2))) self (cells c2) =
            At-write_self m2 self _ (At-ne_null self_at) in
          let at_4 : At (write m2 self (some (cells c3))) self (cells c3) =
            At-write_self m2 self _ (At-ne_null self_at) in
          let room_r : r.offset < length cs = get_elem?-lt cs r.offset has.array_at in
          let l2 : length c2 ≡ length cs = length-set c1 c.offset n ∙ length-set cs c.offset new in
          let l3 : length c3 ≡ length cs = length-set c2 r.offset q ∙ l2 in
          record {
            mem = write m2 self (some (cells (set c3 c.offset new)));
            now = set c3 c.offset new;
            runs = rw (null_check_one self (At-ne_null self_at)) (
                simp (has.plain, has.single, has.count, nonzero)
                  (rw (
                    load_cell-ok self_at c.offset has.count_at,
                    store_cell-ok self_at c.offset new room,
                    has.counts,
                    array_now,
                    size_now,
                    realloc-moved tg.alloc counted array size elements_now ne,
                    store_cell-ok at_2 c.offset n (rw length-set room),
                    null_check_one q ne,
                    store_cell-ok at_3 r.offset q (rw l2 room_r),
                    write-write m2 self,
                    store_cell-ok at_4 c.offset new (rw l3 room),
                    write-write m2 self,
                  )));
            self_at = At-write_self m2 self _ (At-ne_null self_at);
            count = get_elem?-set_self c3 c.offset new (rw l3 room);
            pointer =
                get_elem?-set_ne c3 c.offset r.offset new has.apart
                ∙ get_elem?-set_self c2 r.offset q (rw l2 room_r);
            elements = At-write_ne self _ at_q q_ne;
          }
