-- ===== src/Gen/Object/Destroy.antt =====
-- The destructor (LLVMIRGenPass.cpp, `getDestructor`) of a struct that owns its arrays.
use tyr.Prelude.{ℕ, ◌≡◌, ◌≢◌, refl, ap, true, false, none, some, List, [], ◌∷◌, get_elem?, All}
use tyr.Ir.{Field}
use tyr.Layout.{is_pointer}
use tyr.Memory.{Ptr, null, cells, raw, Mem, write, block_at, ok}
use tyr.Memory.Laws.{At, At-write_ne, load_cell-ok}
use tyr.Memory.Realloc.{free-null, free-ok}
use tyr.Gen.Object.{destroy_field, destroy_fields, destroy}

-- The fields' arrays, in order: a live block for each pointer that is not NULL, and no block twice.
pub data Owns (m : Mem) (cs : List ℕ) : List Field → List Ptr → Type 0 where
  owns_none : Owns m cs [] []
  owns_value :
      {f : Field} {fs : List Field} {ps : List Ptr}
      → is_pointer f.type ≡ false
      → Owns m cs fs ps
      → Owns m cs (f ∷ fs) ps
  owns_null :
      {f : Field} {fs : List Field} {ps : List Ptr}
      → is_pointer f.type ≡ true
      → get_elem? cs f.offset ≡ some null
      → Owns m cs fs ps
      → Owns m cs (f ∷ fs) ps
  owns_array :
      {f : Field} {fs : List Field} {ps : List Ptr} (p : Ptr) (bs : List ℕ)
      → is_pointer f.type ≡ true
      → get_elem? cs f.offset ≡ some p
      → At m p (raw bs)
      → All (λ q. q ≢ p) ps
      → Owns m cs fs ps
      → Owns m cs (f ∷ fs) (p ∷ ps)

-- A block that is not among the owned ones may go.
Owns-write :
    {m : Mem} {cs : List ℕ} {fs : List Field} {ps : List Ptr} (p : Ptr)
    → All (λ q. q ≢ p) ps
    → Owns m cs fs ps
    → Owns (write m p none) cs fs ps
Owns-write p apart owns_none = owns_none
Owns-write p apart (owns_value t o) = owns_value t (Owns-write p apart o)
Owns-write p apart (owns_null t e o) = owns_null t e (Owns-write p apart o)
Owns-write p apart (owns_array q bs t e here ne o) =
    owns_array q bs t e (At-write_ne p none here apart.0) ne (Owns-write p apart.1 o)

-- The memory without these blocks.
abbrev pub without : List Ptr → Mem → Mem
without [] m = m
without (p ∷ ps) m = without ps (write m p none)

destroy_fields-without :
    (fs : List Field) {ps : List Ptr} {cs : List ℕ} (m : Mem) (self : Ptr)
    → At m self (cells cs)
    → Owns m cs fs ps
    → (destroy_fields fs self m ≡ ok tt (without ps m)) × At (without ps m) self (cells cs)
unfolding destroy_fields destroy_field
destroy_fields-without [] m self here owns_none = (refl, here)
destroy_fields-without (f ∷ fs) m self here (owns_value t o) =
    let r = destroy_fields-without fs m self here o in (rw t r.0, r.1)
destroy_fields-without (f ∷ fs) m self here (owns_null t e o) =
    let r = destroy_fields-without fs m self here o in
    (rw (t, load_cell-ok here f.offset e, free-null) r.0, r.1)
destroy_fields-without (f ∷ fs) m self here (owns_array p bs t e block ne o) =
    let apart : self ≢ p = λ q. cc (here.found, block.found, ap (block_at m) q) in
    let r =
      destroy_fields-without fs (write m p none) self (At-write_ne p none here apart)
        (Owns-write p ne o) in
    (rw (t, load_cell-ok here f.offset e, free-ok m p block) r.0, r.1)

-- `destroy_<struct>` frees each array of the struct once, and then the struct, and nothing else.
pub destroy-without :
    (fs : List Field) (ps : List Ptr) (cs : List ℕ) (m : Mem) (self : Ptr)
    → At m self (cells cs)
    → Owns m cs fs ps
    → destroy fs self m ≡ ok tt (write (without ps m) self none)
unfolding destroy
destroy-without fs ps cs m self here owns =
    let r = destroy_fields-without fs m self here owns in rw (r.0, free-ok (without ps m) self r.1)
