-- ===== src/Gen/Serial/ReadAll.antt =====
-- The loop of `deserialize_<struct>` (LLVMIRGenPass.cpp, `getDeserializer`) over the bytes of a struct.
use mathlib.Core.Path.{subst}
use tyr.Prelude.{
  ℕ, ◌+◌, ◌%◌, ◌<◌, ◌≡◌, ◌≢◌, refl, sym, ap, ◌∙◌, none, List, ◌∷◌, ◌++◌, arith, length, All,
  length-append, append_assoc,
}
use tyr.Ir.{Field}
use tyr.Layout.{DataLayout, IsLayout}
use tyr.Memory.{Ptr, null, Block, cells, raw, Mem, write, block_at, Run, ok}
use tyr.Memory.Laws.{At, At-ne_null, At-write_ne}
use tyr.Gen.{Target, u64_mod}
use tyr.Gen.Serial.{deserialize_field, deserialize_fields}
use tyr.Gen.Serial.Values.{Item, wire, wires, IsCalled, HoldsAll, done, skip, next}
use tyr.Gen.Serial.Frames.{
  slots, all_slots, TypedAll, typed_done, typed_skip, typed_next, Kept, Kept-trans, Kept-freed,
  Holds-Kept,
}
use tyr.Gen.Serial.Read.{deserialize_field-HasRead}

-- The outcome of the loop over the fields: `n` is the index behind the last, every value is in
-- place, and no other block or cell has changed.
pub record HasReadAll (dl : DataLayout) (fs : List Field) (self : Ptr) (m : Mem) (cs : List ℕ)
    (rest : List Field) (items : List Item) (n : ℕ) (r : Run ℕ) : Type 0 where
  pub mem : Mem
  pub now : List ℕ
  pub runs : r ≡ ok n mem
  pub self_at : At mem self (cells now)
  pub holds : HoldsAll dl fs mem now rest items
  pub kept : Kept self (all_slots fs items) m mem cs now
  pub own :
      (q : Ptr) (b : Block) → At m q b → q ≢ self → HoldsAll dl fs (write mem q none) now rest items

module _ (tg : Target) (fs : List Field) (lay : IsLayout tg.layout)
    (never_null : (n : ℕ) (m : Mem) → tg.alloc.new_address n m ≢ null) (self buf : Ptr)
    (base : ℕ) where
  fields-next :
      (f : Field) (rest : List Field) (i size k : ℕ) (m m1 m2 : Mem)
      → IsCalled fs f
      → deserialize_field tg fs f self buf (base + i) m ≡ ok size m1
      → (i + size) % u64_mod ≡ i + size
      → deserialize_fields tg fs rest self buf base (i + size) m1 ≡ ok k m2
      → deserialize_fields tg fs (f ∷ rest) self buf base i m ≡ ok k m2
  unfolding deserialize_fields
  fields-next f rest i size k m m1 m2 c one wrap more = simp (c.no_count, c.named, one, wrap) more

  pub deserialize_fields-HasReadAll :
      {n : ℕ} {rest : List Field} {items : List Item} (m : Mem) (cs : List ℕ) (i : ℕ)
      (front back : List ℕ)
      → TypedAll tg.layout fs n rest items
      → n ≡ length cs
      → At m self (cells cs)
      → At m buf (raw (front ++ (wires tg.layout items ++ back)))
      → base + i ≡ length front
      → i + length (wires tg.layout items) < u64_mod
      → HasReadAll tg.layout fs self m cs rest items
          (i + length (wires tg.layout items))
          (deserialize_fields tg fs rest self buf base i m)
  unfolding deserialize_fields
  deserialize_fields-HasReadAll m cs i front back typed_done e here b pos lt = record {
    mem = m;
    now = cs;
    runs = ap (λ k. ok k m) (omega arith);
    self_at = here;
    holds = done;
    kept = record { blocks = λ q b h ne. h; others = λ o av. refl; size = refl };
    own = λ q b h ne. done;
  }
  deserialize_fields-HasReadAll m cs i front back (typed_skip {items} c r t more) e here b pos lt =
      let same : (i + 0) % u64_mod ≡ i = omega arith in
      let ih = deserialize_fields-HasReadAll m cs i front back more e here b pos lt in
      record {
        mem = ih.mem;
        now = ih.now;
        runs = simp (c, same) ih.runs;
        self_at = ih.self_at;
        holds = skip c r t ih.holds;
        kept = ih.kept;
        own = λ q b h ne. skip c r t (ih.own q b h ne);
      }
  deserialize_fields-HasReadAll m cs i front back
        (typed_next {f} {rest} {items} t v c ty room apart more) e here b pos lt =
      let w : List ℕ = wire tg.layout t v in
      let ws : List ℕ = wires tg.layout items in
      let regroup : front ++ ((w ++ ws) ++ back) ≡ front ++ (w ++ (ws ++ back)) =
        simp append_assoc in
      let regroup' : front ++ ((w ++ ws) ++ back) ≡ (front ++ w) ++ (ws ++ back) =
        simp append_assoc in
      let whole : length (w ++ ws) ≡ length w + length ws = length-append w ws in
      let first =
        deserialize_field-HasRead tg fs lay never_null m self buf cs here front (ws ++ back) f t v
          ty (subst (λ k. All (λ o. o < k) (slots fs f)) e room) (rw regroup at b) in
      let wrap : (i + length w) % u64_mod ≡ i + length w = omega arith in
      let ih =
        deserialize_fields-HasReadAll first.mem first.now (i + length w) (front ++ w) back more
          (e ∙ sym first.kept.size) first.self_at
          (first.kept.blocks buf _ (rw regroup' at b)
            (λ q. cc (here.found, b.found, ap (block_at m) q)))
          (omega (arith, length-append front w)) (omega arith) in
      record {
        mem = ih.mem;
        now = ih.now;
        runs =
            fields-next f rest i (length w) _ m first.mem ih.mem c
              (ap (λ k. deserialize_field tg fs f self buf k m) pos ∙ first.runs) wrap ih.runs
            ∙ ap (λ k. ok k ih.mem) (omega arith);
        self_at = ih.self_at;
        holds =
            next t v c (Holds-Kept (all_slots fs items) ih.kept first.self_at apart first.holds)
              ih.holds;
        kept = Kept-trans (slots fs f) (all_slots fs items) first.kept ih.kept;
        own = λ q b' h ne.
            next t v c
              (Holds-Kept (all_slots fs items)
                (Kept-freed (all_slots fs items) q (At-ne_null h) ih.kept)
                (At-write_ne q none first.self_at (λ x. ne (sym x))) apart (first.own q b' h ne))
              (ih.own q b' (first.kept.blocks q b' h ne) ne);
      }
