-- ===== src/Gen/Object/Create.antt =====
-- The constructor (LLVMIRGenPass.cpp, `getConstructor`), of a struct whose pointers are all mutable.
use tyr.Prelude.{
  ℕ, suc, ◌≡◌, ◌≢◌, refl, sym, ap, true, false, some, List, [], ◌∷◌, ◌++◌, arith, length,
  length-append, append_assoc, set,
}
use tyr.Ir.{Ty, Field}
use tyr.Ir.Final.{Indexed}
use tyr.Layout.{is_pointer}
use tyr.Memory.{Ptr, null, cells, Mem, write, ok, fresh_bytes, store_cell}
use tyr.Memory.Laws.{
  At, At-ne_null, At-write_self, write-write, write_same, store_cell-ok, malloc_struct-null,
  malloc_struct-ok, length-fresh_bytes,
}
use tyr.Gen.{Target}
use tyr.Gen.Sizes.{null_check_one, null_check-null}
use tyr.Gen.Object.{init_field, init_fields, create}

-- The arguments fit the fields: one for each that is immutable, which is no pointer.
pub data Takes : List Field → List ℕ → Type 0 where
  takes_none : Takes [] []
  takes_mutable :
      {f : Field} {fs : List Field} {args : List ℕ}
      → f.is_mutable ≡ true
      → Takes fs args
      → Takes (f ∷ fs) args
  takes_value :
      {f : Field} {fs : List Field} {a : ℕ} {args : List ℕ}
      → f.is_mutable ≡ false
      → is_pointer f.type ≡ false
      → Takes fs args
      → Takes (f ∷ fs) (a ∷ args)

-- The cells of a new struct: 0 (NULL, for a pointer) in a mutable field, the argument in another.
abbrev pub initial : {fs : List Field} {args : List ℕ} → Takes fs args → List ℕ
initial takes_none = []
initial (takes_mutable m t) = 0 ∷ initial t
initial (takes_value {a} m p t) = a ∷ initial t

set-append :
    (front : List ℕ) (old v : ℕ) (back : List ℕ)
    → set (front ++ (old ∷ back)) (length front) v ≡ front ++ (v ∷ back)
set-append [] old v back = refl
set-append (x ∷ front) old v back = ap (◌∷◌ x) (set-append front old v back)

-- A store into the first cell behind `front`.
store-append :
    (m : Mem) (self : Ptr) (front : List ℕ) (old v : ℕ) (back : List ℕ) (o : ℕ)
    → At m self (cells (front ++ (old ∷ back)))
    → o ≡ length front
    → store_cell self o v m ≡ ok tt (write m self (some (cells ((front ++ (v ∷ [])) ++ back))))
store-append m self front old v back o here e = rw (
  e,
  store_cell-ok here (length front) v (omega (arith, length-append front (old ∷ back))),
  set-append front old v back,
  append_assoc front (v ∷ []) back,
)

one_more : (front : List ℕ) (v : ℕ) → length (front ++ (v ∷ [])) ≡ suc (length front)
one_more front v = omega (arith, length-append front (v ∷ []))

module _ (tg : Target) (all : List Field) (self : Ptr) where
  init_fields-initial :
      (fs : List Field) {args : List ℕ} (m : Mem) (front old : List ℕ) (t : Takes fs args)
      → At m self (cells (front ++ old))
      → length old ≡ length fs
      → Indexed (length front) fs
      → init_fields tg all fs self args m
        ≡ ok true (write m self (some (cells (front ++ initial t))))
  unfolding init_fields init_field
  init_fields-initial [] m front [] takes_none here l i = ap (ok true) (sym (write_same self here))
  init_fields-initial [] m front (_ ∷ _) t here l i = absurd (omega arith)
  init_fields-initial (f ∷ fs) m front [] t here l i = absurd (omega arith)
  init_fields-initial (f ∷ fs) m front (x ∷ old) (takes_mutable mut t) here l (e, i) =
      rw (mut, store-append m self front x 0 old f.offset here e)
        (rw (write-write m self, append_assoc front (0 ∷ []) (initial t)) at
          (init_fields-initial fs (write m self (some (cells ((front ++ (0 ∷ [])) ++ old))))
            (front ++ (0 ∷ [])) old t (At-write_self m self _ (At-ne_null here)) (omega arith)
            (rw (one_more front 0) i)))
  init_fields-initial (f ∷ fs) m front (x ∷ old) (takes_value {a} {args} mut p t) here l (e, i) =
      rw (mut, p, store-append m self front x a old f.offset here e)
        (rw (write-write m self, append_assoc front (a ∷ []) (initial t)) at
          (init_fields-initial fs (write m self (some (cells ((front ++ (a ∷ [])) ++ old))))
            (front ++ (a ∷ [])) old t (At-write_self m self _ (At-ne_null here)) (omega arith)
            (rw (one_more front a) i)))

-- Of a struct whose immutable fields are no pointers: `create_<struct>` answers NULL without memory.
-- Otherwise it makes a new struct with 0 in each mutable field and the arguments in order in the
-- others.
pub create-initial :
    (tg : Target) (fs : List Field) (t : Ty) (args : List ℕ) (m : Mem) (takes : Takes fs args)
    → Indexed 0 fs
    → (tg.alloc.new_address (tg.layout.alloc_size t) m ≡ null → create tg fs t args m ≡ ok null m)
      × (tg.alloc.new_address (tg.layout.alloc_size t) m ≢ null
          → create tg fs t args m
            ≡ ok (tg.alloc.new_address (tg.layout.alloc_size t) m) (
                write m
                  (tg.alloc.new_address (tg.layout.alloc_size t) m)
                  (some (cells (initial takes)))))
unfolding create
create-initial tg fs t args m takes i =
    let size : ℕ = tg.layout.alloc_size t in
    let self : Ptr = tg.alloc.new_address size m in
    (
      λ e. rw (malloc_struct-null tg.alloc size (length fs) m e, null_check-null),
      λ ne.
          let fresh : List ℕ = fresh_bytes tg.alloc (length fs) in
          let m0 : Mem = write m self (some (cells fresh)) in
          rw (
            malloc_struct-ok tg.alloc size (length fs) m ne,
            null_check_one self ne,
            init_fields-initial tg fs self fs m0 [] fresh takes (At-write_self m self _ ne)
                (length-fresh_bytes tg.alloc (length fs)) i,
            write-write m self,
          ),
    )
