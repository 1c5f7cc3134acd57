-- ===== src/Gen/Serial/ReadValue.antt =====
-- `getDeserializer` of a field (LLVMIRGenPass.cpp): its ways for a number and for an array.
use tyr.Prelude.{
  ℕ, ◌+◌, ◌*◌, ◌%◌, ◌<◌, ◌≡◌, ◌≢◌, sym, ap, ◌∙◌, none, some, List, ◌++◌, arith, length, set,
  length-append, append_assoc, length-set, get_elem?-set_self,
}
use tyr.Ir.{Ty, int64, Field}
use tyr.Layout.{IsLayout, pointee}
use tyr.Memory.{Ptr, null, Block, cells, raw, Mem, write, block_at, ok, malloc, fresh_bytes}
use tyr.Memory.Laws.{
  At, At-ne_null, At-write_ne, At-write_self, write-write, store_cell-ok, memcpy_whole,
  length-fresh_bytes, malloc-ok,
}
use tyr.Gen.{Target, u64_mod, swap_bytes, load_num}
use tyr.Gen.Sizes.{null_check_one, alloc_size_single, alloc_size_repeated}
use tyr.Gen.Serial.{read_scalar, read_elements, read_repeated}
use tyr.Gen.Serial.Words.{
  int64-IsWord, Fits, words, length-words, load_num-ok, swap_bytes-Fits, swap_bytes-swap_bytes,
}
use tyr.Gen.Serial.Swap.{unswap}
use tyr.Gen.Serial.Values.{
  scalar, array, IsScalar, IsArray, IsElements, wire, wire_count, wire_elements, length-map,
  length-wire_count,
}

module _ (tg : Target) (fs : List Field) (lay : IsLayout tg.layout)
    (never_null : (n : ℕ) (m : Mem) → tg.alloc.new_address n m ≢ null) (m : Mem) (self buf : Ptr)
    (cs : List ℕ) (self_at : At m self (cells cs)) (front back : List ℕ) where
  pub read_scalar-ok :
      (f : Field) (v : ℕ)
      → IsScalar tg.layout f
      → Fits tg.layout f.type v
      → f.offset < length cs
      → At m buf (raw (front ++ (wire tg.layout f.type (scalar v) ++ back)))
      → read_scalar tg fs f self buf (length front) m
        ≡ ok (tg.layout.store_size f.type) (write m self (some (cells (set cs f.offset v))))
  unfolding read_scalar
  read_scalar-ok f v is fit room here = rw (
    load_num-ok tg.layout f.type front back (swap_bytes tg.layout f.type v)
        (swap_bytes-Fits is.is_word v fit) here,
    alloc_size_single tg.layout fs f self m is.single,
    swap_bytes-swap_bytes is.is_word v fit,
    store_cell-ok self_at f.offset v room,
    is.is_word.dense,
  )

  module _ (f c : Field) (t : Ty) (xs : List ℕ) where
    -- The memory with the count in place, and then with the new array in `p`.
    abbrev pub counted : Mem
    counted = write m self (some (cells (set cs c.offset (length xs))))

    abbrev pub with_array : Ptr → List ℕ → Mem
    with_array p bs = write counted p (some (raw bs))

    abbrev count_front : List ℕ
    count_front = front ++ wire_count tg.layout (length xs)

    pub counted_self : At counted self (cells (set cs c.offset (length xs)))
    counted_self = At-write_self m self _ (At-ne_null self_at)

    read_elements-ok :
        (p : Ptr) (old : List ℕ)
        → IsArray tg.layout fs f c t
        → IsElements tg.layout t xs
        → f.offset < length cs
        → p ≢ null
        → p ≢ self
        → length old ≡ tg.layout.alloc_size t * length xs
        → At (with_array p old) buf (raw (count_front ++ (wire_elements tg.layout t xs ++ back)))
        → read_elements tg fs f self p buf
            (length front)
            (length xs)
            8
            (tg.layout.alloc_size t * length xs)
            (with_array p old)
          ≡ ok (8 + tg.layout.alloc_size t * length xs) (
              write
                (with_array p (words tg.layout t xs))
                self
                (some (cells (set (set cs c.offset (length xs)) f.offset p))))
    unfolding read_elements pointee
    read_elements-ok p old is e room ne ne_self l here =
        let size : length (wire_elements tg.layout t xs) ≡ tg.layout.alloc_size t * length xs =
          rw (length-words, length-map, is.is_word.dense) in
        let place : length count_front ≡ length front + 8 =
          length-append front _ ∙ rw (length-wire_count lay (length xs)) in
        let copy =
          memcpy_whole p buf count_front (wire_elements tg.layout t xs) back old
            (At-write_self counted p _ ne) here (l ∙ sym size) in
        let small : (8 + tg.layout.alloc_size t * length xs) % u64_mod
            ≡ 8 + tg.layout.alloc_size t * length xs =
          omega (arith, e.small) in
        let there : At (with_array p (words tg.layout t xs)) self
            (cells (set cs c.offset (length xs))) =
          At-write_ne p (some (raw (words tg.layout t xs))) counted_self (λ e. ne_self (sym e)) in
        rw (
          null_check_one p ne,
          ← place,
          ← size,
          copy,
          write-write counted p,
          is.points,
          unswap tg.layout t xs is.is_word e (At-write_self counted p _ ne),
          write-write counted p,
          store_cell-ok there f.offset p (rw length-set room),
          size,
          small,
        )

    pub new_array : Ptr
    new_array = tg.alloc.new_address (tg.layout.alloc_size t * length xs) counted

    new_array-unused : block_at counted new_array ≡ none
    unfolding new_array
    new_array-unused = tg.alloc.new_unused (tg.layout.alloc_size t * length xs) counted

    pub new_array-ne_null : new_array ≢ null
    unfolding new_array
    new_array-ne_null = never_null (tg.layout.alloc_size t * length xs) counted

    pub new_array-ne : (q : Ptr) {b : Block} → At counted q b → new_array ≢ q
    new_array-ne q here e = cc (here.found, new_array-unused, ap (block_at counted) e)

    new_array-malloc :
        malloc tg.alloc (tg.layout.alloc_size t * length xs) counted
        ≡ ok new_array
            (with_array new_array (fresh_bytes tg.alloc (tg.layout.alloc_size t * length xs)))
    unfolding new_array
    new_array-malloc =
        malloc-ok tg.alloc (tg.layout.alloc_size t * length xs) counted new_array-ne_null

    count-Fits : IsElements tg.layout t xs → Fits tg.layout int64 (length xs)
    count-Fits e = rw lay.int64_store e.few

    buf_counted : {bs : List ℕ} → At m buf (raw bs) → At counted buf (raw bs)
    buf_counted here =
        At-write_ne self _ here (λ e. cc (here.found, self_at.found, ap (block_at m) e))

    pub read_repeated-ok :
        IsArray tg.layout fs f c t
        → IsElements tg.layout t xs
        → f.offset < length cs
        → c.offset < length cs
        → At m buf (raw (front ++ (wire tg.layout t (array xs) ++ back)))
        → read_repeated tg fs f self buf (length front) m
          ≡ ok (8 + tg.layout.alloc_size t * length xs) (
              write
                (with_array new_array (words tg.layout t xs))
                self
                (some (cells (set (set cs c.offset (length xs)) f.offset new_array))))
    unfolding read_repeated
    read_repeated-ok is e room_f room_c here =
        let n : ℕ = length xs in
        let size : tg.layout.alloc_size t * n % u64_mod ≡ tg.layout.alloc_size t * n =
          omega (arith, e.small) in
        let place : front ++ (wire tg.layout t (array xs) ++ back)
            ≡ front ++ (wire_count tg.layout n ++ (wire_elements tg.layout t xs ++ back)) =
          simp append_assoc in
        let place' : front ++ (wire tg.layout t (array xs) ++ back)
            ≡ count_front ++ (wire_elements tg.layout t xs ++ back) =
          simp append_assoc in
        let header : load_num tg.layout c.type buf (length front) m
            ≡ ok (swap_bytes tg.layout int64 n) m =
          rw is.count_type (
            load_num-ok tg.layout int64 front (wire_elements tg.layout t xs ++ back)
              (swap_bytes tg.layout int64 n) (swap_bytes-Fits (int64-IsWord lay) n (count-Fits e))
              (rw place at here)) in
        let count : swap_bytes tg.layout c.type (swap_bytes tg.layout int64 n) ≡ n =
          rw is.count_type (swap_bytes-swap_bytes (int64-IsWord lay) n (count-Fits e)) in
        let eight : tg.layout.alloc_size c.type ≡ 8 = rw is.count_type lay.int64_alloc in
        let array_size =
          alloc_size_repeated tg.layout fs f self counted c t n is.repeated is.points is.counted
            counted_self (get_elem?-set_self cs c.offset n room_c) in
        rw
          (
            is.counted,
            header,
            count,
            store_cell-ok self_at c.offset n room_c,
            alloc_size_single tg.layout fs c self counted is.count_single,
            eight,
            array_size,
            size,
            new_array-malloc,
          )
          (read_elements-ok new_array (fresh_bytes tg.alloc (tg.layout.alloc_size t * n)) is e
            room_f new_array-ne_null (new_array-ne self counted_self)
            (length-fresh_bytes tg.alloc (tg.layout.alloc_size t * n))
            (At-write_ne new_array _ (buf_counted (rw place' at here))
              (λ q. new_array-ne buf (buf_counted here) (sym q))))
