-- ===== src/Gen/Serial/Write.antt =====
-- What the serializer of a field writes.
use mathlib.Core.Path.{ap₂}
use tyr.Prelude.{
  ℕ, ◌+◌, ◌*◌, ◌%◌, ◌<◌, ◌≡◌, ◌≢◌, sym, ap, ◌∙◌, inl, inr, none, some, List, ◌++◌, arith, length,
  get_elem?, length-append, append_assoc, split_at,
}
use tyr.Ir.{Ty, int64, Field}
use tyr.Layout.{IsLayout, pointee}
use tyr.Memory.{Ptr, null, cells, raw, Mem, write, block_at, ok, memcpy}
use tyr.Memory.Laws.{
  At, Backs, At-ne_null, At-write_ne, At-write_self, write-write, load_cell-ok, memcpy-ok,
}
use tyr.Gen.{Target, u64_mod, swap_bytes, store_num}
use tyr.Gen.Sizes.{null_check_two, alloc_size_single, alloc_size_repeated}
use tyr.Gen.Serial.{swap_array, write_scalar, write_repeated, serialize_field}
use tyr.Gen.Serial.Words.{IsWord, words, length-words, store_num-ok}
use tyr.Gen.Serial.Swap.{swap_array-ok}
use tyr.Gen.Serial.Values.{
  Value, scalar, array, IsScalar, IsArray, IsElements, Holds, holds_scalar, holds_array, wire,
  wire_count, wire_elements, length-wire_count, length-wire_scalar, length-wire_array,
}

-- A struct with the cells `cs`, and a buffer that is new to the memory `m`.
module _ (tg : Target) (fs : List Field) (lay : IsLayout tg.layout) (m : Mem) (self buf : Ptr)
    (cs : List ℕ) (self_at : At m self (cells cs)) (unused : block_at m buf ≡ none)
    (buf_ne_null : buf ≢ null) where
  abbrev filled : List ℕ → Mem
  filled bs = write m buf (some (raw bs))

  self-ne-buf : self ≢ buf
  self-ne-buf e = cc (self_at.found, unused, ap (block_at m) e)

  self-filled : (bs : List ℕ) → At (filled bs) self (cells cs)
  self-filled bs = At-write_ne buf _ self_at self-ne-buf

  buf-filled : (bs : List ℕ) → At (filled bs) buf (raw bs)
  buf-filled bs = At-write_self m buf (raw bs) buf_ne_null

  Backs-filled : (p : Ptr) {ys : List ℕ} (bs : List ℕ) → Backs m p ys → Backs (filled bs) p ys
  Backs-filled p bs (inl e) = inl e
  Backs-filled p bs (inr here) =
      inr (At-write_ne buf _ here (λ e. cc (here.found, unused, ap (block_at m) e)))

  write_scalar-ok :
      (f : Field) (v : ℕ) (front old back : List ℕ)
      → IsScalar tg.layout f
      → length old ≡ tg.layout.store_size f.type
      → write_scalar tg fs f self v buf (length front) (filled (front ++ (old ++ back)))
        ≡ ok
            (tg.layout.store_size f.type)
            (filled (front ++ (wire tg.layout f.type (scalar v) ++ back)))
  unfolding write_scalar
  write_scalar-ok f v front old back is h = rw (
    alloc_size_single tg.layout fs f self (filled (front ++ (old ++ back))) is.single,
    store_num-ok tg.layout f.type front old back (swap_bytes tg.layout f.type v) (buf-filled _) h,
    write-write m buf,
    is.is_word.dense,
  )

  module _ (f c : Field) (t : Ty) (xs : List ℕ) (p : Ptr) (front old8 olds back : List ℕ) where
    abbrev counted_front : List ℕ
    counted_front = front ++ wire_count tg.layout (length xs)

    store_count :
        c.type ≡ int64
        → length old8 ≡ 8
        → store_num tg.layout c.type buf
            (length front)
            (swap_bytes tg.layout c.type (length xs))
            (filled (front ++ (old8 ++ (olds ++ back))))
          ≡ ok tt (filled (counted_front ++ (olds ++ back)))
    store_count ct h = rw (
      ct,
      store_num-ok tg.layout int64 front old8 (olds ++ back)
          (swap_bytes tg.layout int64 (length xs)) (buf-filled _) (h ∙ sym lay.int64_store),
      write-write m buf,
      append_assoc front,
    )

    length-counted_front : length counted_front ≡ length front + 8
    length-counted_front = length-append front _ ∙ omega (arith, length-wire_count lay (length xs))

    copy_elements :
        Backs m p (words tg.layout t xs)
        → length olds ≡ length (words tg.layout t xs)
        → memcpy buf
            (length counted_front)
            p
            0
            (length (words tg.layout t xs))
            (filled (counted_front ++ (olds ++ back)))
          ≡ ok tt (filled (counted_front ++ (words tg.layout t xs ++ back)))
    copy_elements b h =
        memcpy-ok buf p counted_front olds back (words tg.layout t xs) (buf-filled _)
          (Backs-filled p _ b) h
        ∙ ap (ok tt) (write-write m buf _ _)

    swap_elements :
        IsWord tg.layout t
        → IsElements tg.layout t xs
        → swap_array tg.layout t buf
            (length counted_front)
            (length xs)
            (filled (counted_front ++ (words tg.layout t xs ++ back)))
          ≡ ok tt (filled (counted_front ++ (wire_elements tg.layout t xs ++ back)))
    swap_elements w e =
        swap_array-ok w xs counted_front back e.fit e.loops e.few (buf-filled _)
        ∙ ap (ok tt) (write-write m buf _ _)

    write_repeated-ok :
        IsArray tg.layout fs f c t
        → IsElements tg.layout t xs
        → get_elem? cs c.offset ≡ some (length xs)
        → Backs m p (words tg.layout t xs)
        → length old8 ≡ 8
        → length olds ≡ length (words tg.layout t xs)
        → write_repeated tg fs f self p buf
            (length front)
            (filled (front ++ (old8 ++ (olds ++ back))))
          ≡ ok
              (8 + tg.layout.alloc_size t * length xs)
              (filled (front ++ (wire tg.layout t (array xs) ++ back)))
    unfolding write_repeated pointee
    write_repeated-ok is e n b h8 h =
        let small : tg.layout.alloc_size t * length xs < u64_mod = omega (arith, e.small) in
        let size : tg.layout.alloc_size t * length xs % u64_mod ≡ length (words tg.layout t xs) =
          rw (length-words tg.layout t xs, is.is_word.dense) (omega arith) in
        rw
          (
            is.counted,
            load_cell-ok (self-filled (front ++ (old8 ++ (olds ++ back)))) c.offset n,
            store_count is.count_type h8,
            alloc_size_single tg.layout fs c self (filled (counted_front ++ (olds ++ back)))
                is.count_single,
            is.count_type,
            lay.int64_alloc,
            alloc_size_repeated tg.layout fs f self (filled (counted_front ++ (olds ++ back))) c t
                (length xs) is.repeated is.points is.counted
                (self-filled (counted_front ++ (olds ++ back))) n,
            size,
            ← length-counted_front,
            copy_elements b h,
            is.points,
            swap_elements is.is_word e,
          )
          (ap₂ ok total (ap filled regrouped))
      where
        total :
            (8 + length (words tg.layout t xs)) % u64_mod ≡ 8 + tg.layout.alloc_size t * length xs
        total = rw (length-words tg.layout t xs, is.is_word.dense) (omega (arith, e.small))

        regrouped :
            counted_front ++ (wire_elements tg.layout t xs ++ back)
            ≡ front ++ (wire tg.layout t (array xs) ++ back)
        regrouped = simp append_assoc

  serialize_array-ok :
      (f c : Field) (t : Ty) (xs : List ℕ) (p : Ptr) (front old8 olds back : List ℕ)
      → IsArray tg.layout fs f c t
      → IsElements tg.layout t xs
      → get_elem? cs c.offset ≡ some (length xs)
      → get_elem? cs f.offset ≡ some p
      → Backs m p (words tg.layout t xs)
      → length old8 ≡ 8
      → length olds ≡ tg.layout.alloc_size t * length xs
      → serialize_field tg fs f self buf (length front) (filled (front ++ ((old8 ++ olds) ++ back)))
        ≡ ok
            (8 + tg.layout.alloc_size t * length xs)
            (filled (front ++ (wire tg.layout t (array xs) ++ back)))
  unfolding serialize_field
  serialize_array-ok f c t xs p front old8 olds back is e n here b h8 hs =
      rw
        (
          append_assoc old8,
          null_check_two self buf (At-ne_null self_at),
          load_cell-ok (self-filled (front ++ (old8 ++ (olds ++ back)))) f.offset here,
        )
        (simp (is.no_struct, is.repeated)
          (write_repeated-ok f c t xs p front old8 olds back is e n b h8
            (hs ∙ rw (length-words, is.is_word.dense))))

  -- `__serialize_<struct>_<field>` puts the bytes of the field's value in place of `old`, and
  -- returns their number.
  pub serialize_field-ok :
      (f : Field) (t : Ty) (v : Value) (front old back : List ℕ)
      → Holds tg.layout fs m cs f t v
      → length old ≡ length (wire tg.layout t v)
      → serialize_field tg fs f self buf (length front) (filled (front ++ (old ++ back)))
        ≡ ok (length (wire tg.layout t v)) (filled (front ++ (wire tg.layout t v ++ back)))
  unfolding serialize_field
  serialize_field-ok f t v front old back (holds_scalar is tt_eq fit here) h =
      rw
        (
          null_check_two self buf (At-ne_null self_at),
          load_cell-ok (self-filled (front ++ (old ++ back))) f.offset here,
        )
        (simp (is.no_struct, is.single)
          (rw (← tt_eq, length-wire_scalar lay f.type)
            (write_scalar-ok f _ front old back is (rw tt_eq (h ∙ length-wire_scalar lay t _)))))
  serialize_field-ok f t v front old back (holds_array {xs} c p is e n here b) h =
      let (old8, olds, parts, h8, hs) =
        split_at 8 (tg.layout.alloc_size t * length xs) old
          (h ∙ length-wire_array lay t xs is.is_word) in
      rw (parts, length-wire_array lay t xs is.is_word)
        (serialize_array-ok f c t xs p front old8 olds back is e n here b h8 hs)
