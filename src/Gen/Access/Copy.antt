-- ===== src/Gen/Access/Copy.antt =====
-- The getter of an immutable repeated field (LLVMIRGenPass.cpp, `getGetter`), which hands out a copy.
use tyr.Prelude.{
  ℕ, ◌*◌, ◌≡◌, ◌≢◌, sym, ap, ◌∙◌, inr, true, false, some, none, List, [], ◌∷◌, arith, length,
  append-nil,
}
use tyr.Ir.{Ty, Field}
use tyr.Memory.{Ptr, null, cells, raw, Mem, write, block_at, ok, fresh_bytes}
use tyr.Memory.Laws.{
  At, At-ne_null, At-write_ne, At-write_self, write-write, load_cell-ok, store_cell-ok, malloc-ok,
  malloc-null, memcpy-ok, length-fresh_bytes,
}
use tyr.Gen.{Target, get_field_alloc_size}
use tyr.Gen.Sizes.{null_check_one, null_check-null, null_check_two, alloc_size_repeated}
use tyr.Gen.Serial.Words.{words, length-words}
use tyr.Gen.Access.{getter}
use tyr.Gen.Access.Items.{HasArray}

module _ (tg : Target) (fs : List Field) (m : Mem) (self out : Ptr) (f c : Field) (t : Ty) (p : Ptr)
    (xs : List ℕ) (has : HasArray tg.layout fs m self f c t p xs) (immutable : f.is_mutable ≡ false)
    (old : ℕ) (there : At m out (cells (old ∷ []))) where
  abbrev size : ℕ
  size = tg.layout.alloc_size t * length xs

  size_now : get_field_alloc_size tg.layout fs f self m ≡ ok size m
  size_now =
      alloc_size_repeated tg.layout fs f self m c t (length xs) has.is.repeated has.is.points
        has.is.counted has.self_at has.count_at
      ∙ ap (λ k. ok k m) (omega (arith, has.small))

  -- `get_<struct>_<field>` of an immutable repeated field answers false and changes nothing if there
  -- is no memory. Otherwise it puts the elements into a new block, and its address into the caller's
  -- variable; the struct and its own array stay as they are.
  pub getter-words :
      (tg.alloc.new_address size m ≡ null → getter tg fs f self out m ≡ ok false m)
      × (tg.alloc.new_address size m ≢ null
          → getter tg fs f self out m
            ≡ ok true (
                write
                  (write m (tg.alloc.new_address size m) (some (raw (words tg.layout t xs))))
                  out
                  (some (cells (tg.alloc.new_address size m ∷ [])))))
  unfolding getter
  getter-words =
      let q : Ptr = tg.alloc.new_address size m in
      let unused : block_at m q ≡ none = tg.alloc.new_unused size m in
      let ws : List ℕ = words tg.layout t xs in
      let bytes : length ws ≡ size =
        length-words tg.layout t xs ∙ ap (λ k. k * length xs) has.is.is_word.dense in
      let fresh : List ℕ = fresh_bytes tg.alloc size in
      let m1 : Mem = write m q (some (raw fresh)) in
      (
        λ e.
            rw
              (
                null_check_two self out (At-ne_null has.self_at),
                load_cell-ok has.self_at f.offset has.array_at,
              )
              (simp (has.is.no_struct, has.is.repeated, immutable)
                (rw (size_now, malloc-null tg.alloc size m e, null_check-null))),
        λ ne.
            let apart : out ≢ q = λ e. cc (there.found, unused, ap (block_at m) e) in
            let p_apart : p ≢ q = λ e. cc (has.elements_at.found, unused, ap (block_at m) e) in
            let copy =
              memcpy-ok {m = m1} q p [] fresh [] ws (rw append-nil (At-write_self m q _ ne))
                (inr (At-write_ne q _ has.elements_at p_apart))
                (length-fresh_bytes tg.alloc size ∙ sym bytes) in
            rw
              (
                null_check_two self out (At-ne_null has.self_at),
                load_cell-ok has.self_at f.offset has.array_at,
              )
              (simp (has.is.no_struct, has.is.repeated, immutable)
                (rw (
                  size_now,
                  malloc-ok tg.alloc size m ne,
                  null_check_one q ne,
                  rw (bytes, append-nil) at copy,
                  write-write m q (some (raw fresh)) (some (raw ws)),
                  store_cell-ok (At-write_ne q (some (raw ws)) there apart) 0 q (omega arith),
                ))),
      )
