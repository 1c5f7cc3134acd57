-- ===== src/Gen/Serial/Sums.antt =====
-- The size that `serialize_<struct>` allocates (LLVMIRGenPass.cpp), as a sum over the struct's values.
use tyr.Prelude.{
  ℕ, ◌+◌, ◌*◌, ◌%◌, ◌<◌, ◌≡◌, refl, ap, ◌∙◌, Bool, true, false, List, [], ◌∷◌, arith, length,
  length-append,
}
use tyr.Ir.{Ty, Field}
use tyr.Layout.{DataLayout, IsLayout}
use tyr.Memory.{Ptr, cells, Mem, ok}
use tyr.Memory.Laws.{At}
use tyr.Gen.{Target, u64_mod, get_field_alloc_size}
use tyr.Gen.Sizes.{alloc_size_single, alloc_size_repeated}
use tyr.Gen.Serial.{sum_sizes}
use tyr.Gen.Serial.Values.{
  Value, scalar, array, Holds, holds_scalar, holds_array, Item, wire, wires, HoldsAll, done, skip,
  next, length-wire_scalar, length-wire_array,
}

abbrev pub one_if : Bool → ℕ
one_if true = 1
one_if false = 0

abbrev pub counts : List Field → ℕ
counts [] = 0
counts (f ∷ rest) = one_if f.is_count + counts rest

abbrev pub is_array : Value → ℕ
is_array (scalar v) = 0
is_array (array xs) = 1

abbrev pub arrays : List Item → ℕ
arrays [] = 0
arrays (x ∷ items) = is_array x.value + arrays items

module _ (dl : DataLayout) where
  -- `getFieldAllocSize` of a field that holds this value.
  abbrev pub value_size : Ty → Value → ℕ
  value_size t (scalar v) = dl.alloc_size t
  value_size t (array xs) = dl.alloc_size t * length xs

  abbrev pub values_size : List Item → ℕ
  values_size [] = 0
  values_size (x ∷ items) = value_size x.type x.value + values_size items

module _ {dl : DataLayout} (lay : IsLayout dl) {fs : List Field} {m : Mem} {cs : List ℕ} where
  length-wire :
      {f : Field} {t : Ty} {v : Value}
      → Holds dl fs m cs f t v
      → length (wire dl t v) ≡ value_size dl t v + 8 * is_array v
  length-wire (holds_scalar {t} {v} is e fit here) =
      length-wire_scalar lay t v ∙ rw (← e) (omega (arith, is.is_word.dense))
  length-wire (holds_array {t} {xs} c p is e n here b) =
      length-wire_array lay t xs is.is_word ∙ omega arith

  pub length-wires :
      {rest : List Field} {items : List Item}
      → HoldsAll dl fs m cs rest items
      → length (wires dl items) ≡ values_size dl items + 8 * arrays items
  length-wires done = refl
  length-wires (skip c r t h) = length-wires h
  length-wires (next {items} t v c h rest) =
      length-append (wire dl t v) (wires dl items) ∙ omega (arith, length-wire h, length-wires rest)

  alloc_size-Holds :
      {self : Ptr} (f : Field) (t : Ty) (v : Value)
      → At m self (cells cs)
      → Holds dl fs m cs f t v
      → value_size dl t v < u64_mod
      → get_field_alloc_size dl fs f self m ≡ ok (value_size dl t v) m
  alloc_size-Holds {self} f t v here (holds_scalar is e fit at) lt =
      rw (alloc_size_single dl fs f self m is.single, e)
  alloc_size-Holds {self} f t v here (holds_array {xs} c p is e n at b) lt =
      alloc_size_repeated dl fs f self m c t (length xs) is.repeated is.points is.counted here n
      ∙ ap (λ k. ok k m) (omega arith)

pub sum_sizes-ok :
    (tg : Target) {fs : List Field} {m : Mem} {cs : List ℕ} {self : Ptr} {rest : List Field}
    {items : List Item} (acc : ℕ)
    → IsLayout tg.layout
    → At m self (cells cs)
    → HoldsAll tg.layout fs m cs rest items
    → acc + (8 * counts rest + values_size tg.layout items) < u64_mod
    → sum_sizes tg fs rest self acc m ≡ ok (acc + (8 * counts rest + values_size tg.layout items)) m
unfolding sum_sizes
sum_sizes-ok tg {m} acc lay here done lt = ap (λ k. ok k m) (omega arith)
sum_sizes-ok tg {fs} {m} {self} acc lay here (skip {f} {rest} {items} c r t h) lt =
    let one : one_if f.is_count ≡ 1 = rw c in
    let wrap : (acc + 8) % u64_mod ≡ acc + 8 = omega arith in
    rw (alloc_size_single tg.layout fs f self m r, t, lay.int64_alloc, wrap)
      (sum_sizes-ok tg (acc + 8) lay here h (omega arith) ∙ ap (λ k. ok k m) (omega arith))
sum_sizes-ok tg {fs} {m} {self} acc lay here (next {f} {rest} {items} t v c h more) lt =
    let zero_more : one_if f.is_count ≡ 0 = rw c.no_count in
    let size : ℕ = value_size tg.layout t v in
    let wrap : (acc + size) % u64_mod ≡ acc + size = omega arith in
    rw (alloc_size-Holds lay f t v here h (omega arith), wrap)
      (sum_sizes-ok tg (acc + size) lay here more (omega arith) ∙ ap (λ k. ok k m) (omega arith))
