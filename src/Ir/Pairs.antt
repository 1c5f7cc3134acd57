-- ===== src/Ir/Pairs.antt =====
-- The numbers of count fields and of repeated fields of a struct (IR.cpp).
use tyr.Prelude.{
  ℕ, ◌+◌, ◌%◌, ◌^◌, ◌≡◌, refl, sym, ◌∙◌, List, [], ◌∷◌, ◌++◌, arith, Rearranged, Inserted, here,
  there, empty, put,
}
use tyr.Ir.{Field, Struct}
use tyr.Ir.Build.{
  Sorter, get_field_size, set_offsets, add_field, add_repeated_field, finalize_fields,
}
use tyr.Ir.Links.{Built, created, packed, field_added, repeated_added, finalized}
use tyr.Layout.{DataLayout}
use tyr.Memory.{Mem}
use tyr.Gen.Serial.Values.{Item, holds_scalar, holds_array, HoldsAll, done, skip, next}
use tyr.Gen.Serial.Sums.{one_if, counts, arrays}

abbrev pub repeats : List Field → ℕ
repeats [] = 0
repeats (f ∷ fs) = one_if f.is_repeated + repeats fs

counts-append : (fs gs : List Field) → counts (fs ++ gs) ≡ counts fs + counts gs
counts-append [] gs = omega arith
counts-append (f ∷ fs) gs = omega (arith, counts-append fs gs)

repeats-append : (fs gs : List Field) → repeats (fs ++ gs) ≡ repeats fs + repeats gs
repeats-append [] gs = omega arith
repeats-append (f ∷ fs) gs = omega (arith, repeats-append fs gs)

counts-Inserted :
    {f : Field} {fs gs : List Field}
    → Inserted f fs gs
    → (counts gs ≡ one_if f.is_count + counts fs) × (repeats gs ≡ one_if f.is_repeated + repeats fs)
counts-Inserted here = (refl, refl)
counts-Inserted (there i) = let e = counts-Inserted i in (omega (arith, e.0), omega (arith, e.1))

counts-Rearranged :
    {fs gs : List Field} → Rearranged fs gs → (counts gs ≡ counts fs) × (repeats gs ≡ repeats fs)
counts-Rearranged empty = (refl, refl)
counts-Rearranged (put r i) =
    let e = counts-Rearranged r in
    let h = counts-Inserted i in (omega (arith, e.0, h.0), omega (arith, e.1, h.1))

counts-set_offsets :
    (k : ℕ) (fs : List Field)
    → (counts (set_offsets k fs) ≡ counts fs) × (repeats (set_offsets k fs) ≡ repeats fs)
counts-set_offsets k [] = (refl, refl)
counts-set_offsets k (f ∷ fs) =
    let e = counts-set_offsets ((k + 1) % 2 ^ 32) fs in (omega (arith, e.0), omega (arith, e.1))

-- Whatever operations have made a struct, it has as many count fields as repeated fields.
pub Built-counts :
    {so : Sorter} {dl : DataLayout} {s : Struct}
    → Built so dl s
    → counts s.fields ≡ repeats s.fields
unfolding add_field add_repeated_field finalize_fields
Built-counts (created n) = refl
Built-counts (packed b h) = Built-counts h
Built-counts (field_added {s} n t mutable h) =
    omega (arith, Built-counts h, counts-append s.fields _, repeats-append s.fields _)
Built-counts (repeated_added {s} n t mutable h) =
    omega (arith, Built-counts h, counts-append s.fields _, repeats-append s.fields _)
Built-counts {so} {dl} (finalized {s} h) =
    let sorted : List Field = so.sort (get_field_size dl) s.fields in
    let p = counts-Rearranged (so.sort_permutes (get_field_size dl) s.fields) in
    let o = counts-set_offsets 0 sorted in o.0 ∙ p.0 ∙ Built-counts h ∙ sym p.1 ∙ sym o.1

module _ {dl : DataLayout} {fs : List Field} {m : Mem} {cs : List ℕ} where
  -- The arrays among a struct's values are those of its repeated fields.
  pub arrays-repeats :
      {rest : List Field} {items : List Item}
      → HoldsAll dl fs m cs rest items
      → arrays items ≡ repeats rest
  arrays-repeats done = refl
  arrays-repeats (skip c r t h) = rw r (omega (arith, arrays-repeats h))
  arrays-repeats (next t v c (holds_scalar is e fit at) h) =
      rw is.single (omega (arith, arrays-repeats h))
  arrays-repeats (next t v c (holds_array c' p is e n at b) h) =
      rw is.repeated (omega (arith, arrays-repeats h))
