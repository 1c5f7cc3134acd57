-- ===== src/Gen/Update/Repeated.antt =====
-- The setter of a repeated field (LLVMIRGenPass.cpp, `getSetter`): the array afterwards, by each of
-- the ways through the code.
use tyr.Prelude.{
  ℕ, ◌*◌, ◌<◌, ◌≡◌, ◌≢◌, sym, ap, ◌∙◌, inr, ◌⊎◌, Bool, true, false, none, some, List, [], arith,
  length, get_elem?, set, length-set, get_elem?-set_self, get_elem?-set_ne, append-nil,
}
use tyr.Ir.{Ty, Field}
use tyr.Memory.{Ptr, null, cells, raw, Mem, write, block_at, Run, ok, fresh_bytes, resize}
use tyr.Memory.Laws.{
  At, At-ne_null, At-write_ne, At-write_self, store_cell-ok, memcpy-ok, malloc-ok, malloc-null,
  length-fresh_bytes, length-resize,
}
use tyr.Memory.Realloc.{realloc-moved, realloc-fails, At-moved}
use tyr.Gen.{Target, u64_mod, get_field_alloc_size}
use tyr.Gen.Sizes.{null_check_one, null_check-null, alloc_size_repeated}
use tyr.Gen.Serial.Words.{words, length-words}
use tyr.Gen.Serial.Values.{IsArray}
use tyr.Gen.Access.Items.{HasArray}
use tyr.Gen.Update.{fill_array, set_new, set_resized, set_repeated, setter}

-- The setter has answered true: the field has the new elements, in block `array`, and the struct's
-- other cells are as they were.
pub record IsStored (tg : Target) (fs : List Field) (f c : Field) (t : Ty) (self : Ptr)
    (cs ys : List ℕ) (array : Ptr) (r : Run Bool) : Type 0 where
  pub mem : Mem
  pub runs : r ≡ ok true mem
  pub has : HasArray tg.layout fs mem self f c t array ys
  pub others : (o : ℕ) → o ≢ f.offset → o ≢ c.offset → get_elem? has.cs o ≡ get_elem? cs o

module _ (tg : Target) (fs : List Field) (f c : Field) (t : Ty) (is : IsArray tg.layout fs f c t)
    (self source : Ptr) (ys : List ℕ) (small : tg.layout.alloc_size t * length ys < u64_mod) where
  abbrev size : ℕ
  size = tg.layout.alloc_size t * length ys

  module _ (m : Mem) (cs : List ℕ) (self_at : At m self (cells cs)) (room_f : f.offset < length cs)
      (room_c : c.offset < length cs) where
    abbrev counted_cells : List ℕ
    counted_cells = set cs c.offset (length ys)

    -- The memory with the new count.
    abbrev counted : Mem
    counted = write m self (some (cells counted_cells))

    counted_at : At counted self (cells counted_cells)
    counted_at = At-write_self m self _ (At-ne_null self_at)

    counted_size : get_field_alloc_size tg.layout fs f self counted ≡ ok size counted
    counted_size =
        alloc_size_repeated tg.layout fs f self counted c t (length ys) is.repeated is.points
          is.counted counted_at (get_elem?-set_self cs c.offset (length ys) room_c)
        ∙ ap (λ k. ok k counted) (omega arith)

    raw-ne_self : (p : Ptr) {bs : List ℕ} → At m p (raw bs) → p ≢ self
    raw-ne_self p there e = cc (there.found, self_at.found, ap (block_at m) e)

    pub fill_array-IsStored :
        (array : Ptr) (old : List ℕ)
        → At m array (raw old)
        → length old ≡ size
        → At m source (raw (words tg.layout t ys))
        → IsStored tg fs f c t self cs ys array
            (fill_array tg fs f c self array source (length ys) m)
    unfolding fill_array
    fill_array-IsStored array old there l from =
        let ws : List ℕ = words tg.layout t ys in
        let bytes : length ws ≡ tg.layout.alloc_size t * length ys =
          length-words tg.layout t ys ∙ ap (λ k. k * length ys) is.is_word.dense in
        let ne = raw-ne_self array there in
        let copied : Mem = write counted array (some (raw ws)) in
        let now : List ℕ = set counted_cells f.offset array in
        let copy =
          memcpy-ok {m = counted} array source [] old [] ws
            (rw append-nil (At-write_ne self _ there ne))
            (inr (At-write_ne self _ from (raw-ne_self source from))) (l ∙ sym bytes) in
        let self_there : At copied self (cells counted_cells) =
          At-write_ne array _ counted_at (λ e. ne (sym e)) in
        record {
          mem = write copied self (some (cells now));
          runs = rw (
            store_cell-ok self_at c.offset (length ys) room_c,
            counted_size,
            rw (bytes, append-nil) at copy,
            store_cell-ok self_there f.offset array (rw length-set room_f),
          );
          has = record {
            cs = now;
            self_at = At-write_self copied self _ (At-ne_null self_at);
            is = is;
            count_at =
                get_elem?-set_ne counted_cells f.offset c.offset array (λ e. is.apart (sym e))
                ∙ get_elem?-set_self cs c.offset (length ys) room_c;
            array_at = get_elem?-set_self counted_cells f.offset array (rw length-set room_f);
            elements_at = At-write_ne self _ (At-write_self counted array _ (At-ne_null there)) ne;
            small = small;
          };
          others = λ o ne_f ne_c.
              get_elem?-set_ne counted_cells f.offset o array (λ e. ne_f (sym e))
              ∙ get_elem?-set_ne cs c.offset o (length ys) (λ e. ne_c (sym e));
        }

    counted-IsStored :
        (array : Ptr) (r : Run Bool)
        → IsStored tg fs f c t self counted_cells ys array r
        → IsStored tg fs f c t self cs ys array r
    counted-IsStored array r s = record {
      mem = s.mem;
      runs = s.runs;
      has = s.has;
      others = λ o ne_f ne_c.
          s.others o ne_f ne_c ∙ get_elem?-set_ne cs c.offset o (length ys) (λ e. ne_c (sym e));
    }

module _ (tg : Target) (fs : List Field) (f c : Field) (t : Ty) (is : IsArray tg.layout fs f c t)
    (self source : Ptr) (ys : List ℕ) (small : tg.layout.alloc_size t * length ys < u64_mod)
    (m : Mem) (cs : List ℕ) (self_at : At m self (cells cs)) (room_f : f.offset < length cs)
    (room_c : c.offset < length cs) (from : At m source (raw (words tg.layout t ys))) where
  abbrev pub bytes : ℕ
  bytes = tg.layout.alloc_size t * length ys

  abbrev pub now : Mem
  now = counted tg fs f c t is self source ys small m cs self_at room_f room_c

  source-now : At now source (raw (words tg.layout t ys))
  source-now =
      At-write_ne self _ from
        (raw-ne_self tg fs f c t is self source ys small m cs self_at room_f room_c source from)

  here_now : At now self (cells (set cs c.offset (length ys)))
  here_now = At-write_self m self _ (At-ne_null self_at)

  size_now : get_field_alloc_size tg.layout fs f self now ≡ ok bytes now
  size_now = counted_size tg fs f c t is self source ys small m cs self_at room_f room_c

  lift :
      (array : Ptr) (r : Run Bool)
      → IsStored tg fs f c t self (set cs c.offset (length ys)) ys array r
      → IsStored tg fs f c t self cs ys array r
  lift = counted-IsStored tg fs f c t is self source ys small m cs self_at room_f room_c

  fill_now :
      (m' : Mem) (array : Ptr) (old : List ℕ)
      → At m' self (cells (set cs c.offset (length ys)))
      → At m' array (raw old)
      → length old ≡ bytes
      → At m' source (raw (words tg.layout t ys))
      → IsStored tg fs f c t self cs ys array
          (fill_array tg fs f c self array source (length ys) m')
  fill_now m' array old there at_array l at_source = lift array _ (
      fill_array-IsStored tg fs f c t is self source ys small m' (set cs c.offset (length ys)) there
        (rw length-set room_f) (rw length-set room_c) array old at_array l at_source)

  -- A field that is NULL gets a new block.
  pub set_new-IsStored :
      tg.alloc.new_address bytes now ≢ null
      → IsStored tg fs f c t self cs ys
          (tg.alloc.new_address bytes now)
          (set_new tg fs f c self source (length ys) m)
  unfolding set_new
  set_new-IsStored ne =
      let p : Ptr = tg.alloc.new_address bytes now in
      let unused : block_at now p ≡ none = tg.alloc.new_unused bytes now in
      let m' : Mem = write now p (some (raw (fresh_bytes tg.alloc bytes))) in
      let s =
        fill_now m' p (fresh_bytes tg.alloc bytes)
          (At-write_ne p _ here_now (λ e. cc (here_now.found, unused, ap (block_at now) e)))
          (At-write_self now p _ ne) (length-fresh_bytes tg.alloc bytes)
          (At-write_ne p _ source-now (λ e. cc (source-now.found, unused, ap (block_at now) e))) in
      record {
        mem = s.mem;
        runs =
            rw
              (
                store_cell-ok self_at c.offset (length ys) room_c,
                size_now,
                malloc-ok tg.alloc bytes now ne,
                null_check_one p ne,
              )
              s.runs;
        has = s.has;
        others = s.others;
      }

  pub set_new-fails :
      tg.alloc.new_address bytes now ≡ null
      → set_new tg fs f c self source (length ys) m ≡ ok false now
  unfolding set_new
  set_new-fails e = rw (
    store_cell-ok self_at c.offset (length ys) room_c,
    size_now,
    malloc-null tg.alloc bytes now e,
    null_check-null,
  )

  module _ (array : Ptr) (old : List ℕ) (old_at : At m array (raw old)) where
    old_now : At now array (raw old)
    old_now =
        At-write_ne self _ old_at
          (raw-ne_self tg fs f c t is self source ys small m cs self_at room_f room_c array old_at)

    -- An array of another size is moved; the source is another block.
    pub set_resized-IsStored :
        source ≢ array
        → tg.alloc.moved_address array bytes now ≢ null
        → IsStored tg fs f c t self cs ys
            (tg.alloc.moved_address array bytes now)
            (set_resized tg fs f c self source (length ys) array m)
    unfolding set_resized
    set_resized-IsStored apart ne =
        let q : Ptr = tg.alloc.moved_address array bytes now in
        let m' : Mem = write (write now array none) q (some (raw (resize tg.alloc old bytes))) in
        let s =
          fill_now m' q (resize tg.alloc old bytes)
            (At-moved tg.alloc now array bytes old_now self (resize tg.alloc old bytes) here_now
              (λ e. cc (here_now.found, old_now.found, ap (block_at now) e)))
            (At-write_self _ q _ ne) (length-resize tg.alloc old bytes)
            (At-moved tg.alloc now array bytes old_now source (resize tg.alloc old bytes) source-now
              apart) in
        record {
          mem = s.mem;
          runs =
              rw
                (
                  store_cell-ok self_at c.offset (length ys) room_c,
                  size_now,
                  realloc-moved tg.alloc now array bytes old_now ne,
                  null_check_one q ne,
                )
                s.runs;
          has = s.has;
          others = s.others;
        }

    pub set_resized-fails :
        tg.alloc.moved_address array bytes now ≡ null
        → bytes ≢ 0
        → set_resized tg fs f c self source (length ys) array m ≡ ok false now
    unfolding set_resized
    set_resized-fails e ne = rw (
      store_cell-ok self_at c.offset (length ys) room_c,
      size_now,
      realloc-fails tg.alloc now array bytes old_now e ne,
      null_check-null,
    )

  -- The field and its count before the call: NULL, or an array of `n` elements.
  abbrev pub Was : Ptr → ℕ → Type 0
  Was array n =
      (array ≡ null)
      ⊎ ((old : List ℕ) × At m array (raw old) × (length old ≡ tg.layout.alloc_size t * n))

  pub to_repeated :
      setter tg fs f self source (length ys) m ≡ set_repeated tg fs f self source (length ys) m
  unfolding setter
  to_repeated = rw (null_check_one self (At-ne_null self_at)) (simp (is.no_struct, is.repeated))
