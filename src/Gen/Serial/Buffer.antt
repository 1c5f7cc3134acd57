-- ===== src/Gen/Serial/Buffer.antt =====
-- `serialize_<struct>`: the buffer that it makes.
use mathlib.Core.Path.{ap₂}
use tyr.Prelude.{
  ℕ, ◌+◌, ◌%◌, ◌<◌, ◌≡◌, ◌≢◌, refl, sym, ap, ◌∙◌, none, some, List, [], ◌∷◌, ◌++◌, arith, length,
  length-append, append_assoc, append-nil, split_at,
}
use tyr.Ir.{int64, Field}
use tyr.Layout.{IsLayout}
use tyr.Memory.{Ptr, null, cells, raw, Mem, write, block_at, ok, fresh_bytes}
use tyr.Memory.Laws.{
  At, At-ne_null, At-write_self, write-write, length-fresh_bytes, malloc-ok, malloc-null,
}
use tyr.Gen.{Target, u64_mod, swap_bytes}
use tyr.Gen.Sizes.{null_check_one, null_check-null}
use tyr.Gen.Serial.{sum_sizes, serialize_fields, write_object, serialize}
use tyr.Gen.Serial.Words.{store_num-ok}
use tyr.Gen.Serial.Values.{
  Item, wire, wire_count, wires, HoldsAll, done, skip, next, length-wire_count,
}
use tyr.Gen.Serial.Write.{serialize_field-ok}
use tyr.Gen.Serial.Sums.{counts, arrays, length-wires, sum_sizes-ok}

module _ (tg : Target) (fs : List Field) (lay : IsLayout tg.layout) (m : Mem) (self buf : Ptr)
    (cs : List ℕ) (self_at : At m self (cells cs)) (unused : block_at m buf ≡ none)
    (buf_ne_null : buf ≢ null) where
  abbrev filled : List ℕ → Mem
  filled bs = write m buf (some (raw bs))

  -- The loop of the serializer puts the bytes of all values behind `front`.
  serialize_fields-ok :
      {rest : List Field} {items : List Item} (front old back : List ℕ)
      → HoldsAll tg.layout fs m cs rest items
      → length old ≡ length (wires tg.layout items)
      → length front + length (wires tg.layout items) < u64_mod
      → serialize_fields tg fs rest self buf (length front) (filled (front ++ (old ++ back)))
        ≡ ok
            (length front + length (wires tg.layout items))
            (filled (front ++ (wires tg.layout items ++ back)))
  unfolding serialize_fields
  serialize_fields-ok front [] back done h lt =
      ap (λ k. ok k (filled (front ++ back))) (omega arith)
  serialize_fields-ok front (_ ∷ _) back done h lt = absurd (omega arith)
  serialize_fields-ok front old back (skip c r t more) h lt =
      let same : (length front + 0) % u64_mod ≡ length front = omega arith in
      simp (c, same) (serialize_fields-ok front old back more h lt)
  serialize_fields-ok front old back (next {f} {rest} {items} t v c h1 more) h lt =
      let w : List ℕ = wire tg.layout t v in
      let ws : List ℕ = wires tg.layout items in
      let whole : length (w ++ ws) ≡ length w + length ws = length-append w ws in
      let (o1, o2, parts, l1, l2) = split_at (length w) (length ws) old (h ∙ whole) in
      let index : (length front + length w) % u64_mod ≡ length (front ++ w) =
        omega (arith, length-append front w) in
      let wrote =
        serialize_field-ok tg fs lay m self buf cs self_at unused buf_ne_null f t v front o1
          (o2 ++ back) h1 l1 in
      rw (parts, append_assoc o1)
        (simp (c.no_count, c.named)
          (rw (wrote, index, ← append_assoc front w (o2 ++ back))
            (serialize_fields-ok (front ++ w) o2 back more l2 (omega (arith, length-append front w))
              ∙ ap₂ ok (omega (arith, length-append front w)) (ap filled (simp append_assoc)))))

  write_object-ok :
      {items : List Item} (total : ℕ) (old : List ℕ)
      → HoldsAll tg.layout fs m cs fs items
      → total ≡ 8 + length (wires tg.layout items)
      → total < u64_mod
      → length old ≡ total
      → write_object tg fs self buf total (filled old)
        ≡ ok buf (filled (wire_count tg.layout total ++ wires tg.layout items))
  unfolding write_object
  write_object-ok {items} total old h e lt l =
      let (o1, o2, parts, l1, l2) = split_at 8 (length (wires tg.layout items)) old (l ∙ e) in
      let front : List ℕ = wire_count tg.layout total in
      let eight : length front ≡ 8 = length-wire_count lay total in
      let header =
        store_num-ok tg.layout int64 {m = filled (o1 ++ o2)} {p = buf} [] o1 o2
          (swap_bytes tg.layout int64 total) (At-write_self m buf _ buf_ne_null)
          (l1 ∙ sym lay.int64_store) in
      let loop = serialize_fields-ok front o2 [] h l2 (omega arith) in
      rw (
        parts,
        null_check_one buf buf_ne_null,
        header,
        write-write m buf,
        rw eight at (simp append-nil at loop),
      )

-- The bytes that `serialize_<struct>` writes: the number of them all in eight bytes, and each value.
abbrev pub serialized : Target → List Item → List ℕ
serialized tg items =
    wire_count tg.layout (8 + length (wires tg.layout items)) ++ wires tg.layout items

-- `serialize_<struct>` makes a new block with these bytes, or answers NULL if there is no memory.
module _ (tg : Target) (fs : List Field) (lay : IsLayout tg.layout) (m : Mem) (self : Ptr)
    (cs : List ℕ) (self_at : At m self (cells cs)) (items : List Item)
    (holds : HoldsAll tg.layout fs m cs fs items) (paired : counts fs ≡ arrays items)
    (bound : 8 + length (wires tg.layout items) < u64_mod) where
  sizes : sum_sizes tg fs fs self 8 m ≡ ok (8 + length (wires tg.layout items)) m
  sizes =
      sum_sizes-ok tg 8 lay self_at holds (omega (arith, length-wires lay holds))
      ∙ ap (λ k. ok k m) (omega (arith, length-wires lay holds))

  pub serialize-ok :
      tg.alloc.new_address (8 + length (wires tg.layout items)) m ≢ null
      → serialize tg fs self m
        ≡ ok (tg.alloc.new_address (8 + length (wires tg.layout items)) m) (
            write m
              (tg.alloc.new_address (8 + length (wires tg.layout items)) m)
              (some (raw (serialized tg items))))
  unfolding serialize
  serialize-ok ne =
      let total : ℕ = 8 + length (wires tg.layout items) in
      rw (null_check_one self (At-ne_null self_at), sizes, malloc-ok tg.alloc total m ne)
        (write_object-ok tg fs lay m self (tg.alloc.new_address total m) cs self_at
          (tg.alloc.new_unused total m) ne total (fresh_bytes tg.alloc total) holds refl bound
          (length-fresh_bytes tg.alloc total))

  pub serialize-null :
      tg.alloc.new_address (8 + length (wires tg.layout items)) m ≡ null
      → serialize tg fs self m ≡ ok null m
  unfolding serialize write_object
  serialize-null e =
      let total : ℕ = 8 + length (wires tg.layout items) in
      rw (
        null_check_one self (At-ne_null self_at),
        sizes,
        malloc-null tg.alloc total m e,
        null_check-null,
      )
