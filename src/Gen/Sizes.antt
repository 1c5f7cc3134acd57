-- ===== src/Gen/Sizes.antt =====
-- `insertNullCheck` at a pointer that is not null, and `getFieldAllocSize`.
use tyr.Prelude.{ℕ, ◌*◌, ◌%◌, ◌≡◌, ◌≢◌, refl, true, false, some, List, [], ◌∷◌, arith, get_elem?}
use tyr.Ir.{Ty, Field, pointer_to}
use tyr.Layout.{DataLayout, pointee}
use tyr.Memory.{Ptr, null, cells, Mem, ok}
use tyr.Memory.Laws.{At, load_cell-ok}
use tyr.Gen.{u64_mod, null_check, deref, get_field_alloc_size}

pub null_check_one : (p : Ptr) → p ≢ null → null_check p [] ≡ true
unfolding null_check
null_check_one p h = ground arith

pub null_check-null : null_check null [] ≡ false
unfolding null_check
null_check-null = refl

pub null_check_two : (p q : Ptr) → p ≢ null → null_check p (q ∷ []) ≡ true
unfolding null_check
null_check_two p q h = ground arith

module _ (dl : DataLayout) (fs : List Field) (f : Field) (self : Ptr) (m : Mem) where
  pub alloc_size_single :
      f.is_repeated ≡ false → get_field_alloc_size dl fs f self m ≡ ok (dl.alloc_size f.type) m
  unfolding get_field_alloc_size
  alloc_size_single h = rw h

  pub alloc_size_repeated :
      (c : Field) (t : Ty) (n : ℕ) {cs : List ℕ}
      → f.is_repeated ≡ true
      → f.type ≡ pointer_to t
      → deref fs f.count_field ≡ some c
      → At m self (cells cs)
      → get_elem? cs c.offset ≡ some n
      → get_field_alloc_size dl fs f self m ≡ ok (dl.alloc_size t * n % u64_mod) m
  unfolding get_field_alloc_size pointee
  alloc_size_repeated c t n rep points counted here e =
      rw (rep, points, counted, load_cell-ok here c.offset e)
