-- ===== src/Tests.antt =====
-- A target, an allocator, an order of sorting and a struct to try the theorems on.
pub mod Serial
pub mod Accessors
pub mod Base64
pub mod Files
pub mod Structs
pub mod Parsing
pub mod Visits
pub mod Compiling
use tyr.Prelude.{
  codes, ℕ, zero, suc, ◌+◌, ◌/◌, ◌≤◌, ◌<◌, ◌≡◌, ◌≢◌, refl, ◌⊎◌, inl, inr, Bool, true, false, Option,
  none, some, List, [], ◌∷◌, ◌++◌, arith, leb, leb→le, ◌==◌, if◌then◌else◌, length, All, Bool-cases,
  Inserted, here, there, Rearranged, empty, put, All-Inserted,
}
use tyr.Ir.{
  Name, Ty, int_type, float_type, double_type, struct_type, pointer_to, int64, Field, Struct,
}
use tyr.Ir.Build.{
  Sorter, Ascending, make_struct, add_field, add_repeated_field, plain_field, count_of,
  repeated_field, at_offset, finalize_fields,
}
use tyr.Ir.Links.{Built, created, field_added, repeated_added}
use tyr.Layout.{DataLayout, IsLayout}
use tyr.Memory.{Ptr, null, Block, cells, raw, Mem, look, block_at, fault, Allocator}
use tyr.Memory.Laws.{block_at-null}
use tyr.Gen.{Target}

-- A function that splits a text at its spaces.
abbrev pub split_spaces : Name → List Name
split_spaces [] = [] ∷ []
split_spaces (c ∷ s) =
    let rest = split_spaces s in
    if c == 32 then [] ∷ rest else elim rest [ [] ↦ (c ∷ []) ∷ [] | l ∷ ls ↦ (c ∷ l) ∷ ls ]

-- A 64-bit target of either byte order.
abbrev sizes : Ty → ℕ
sizes (int_type n) = (n + 7) / 8
sizes float_type = 4
sizes double_type = 8
sizes (struct_type n) = 16
sizes (pointer_to t) = 8

abbrev bits : Ty → ℕ
bits (int_type n) = n
bits float_type = 32
bits double_type = 64
bits (struct_type n) = 128
bits (pointer_to t) = 64

abbrev pub layout_of : Bool → DataLayout
layout_of b = record {
  is_little_endian = b;
  stores_little_endian = b;
  alloc_size = sizes;
  store_size = sizes;
  size_in_bits = bits;
}

pub layout_of-IsLayout : (b : Bool) → IsLayout (layout_of b)
layout_of-IsLayout b = record { int64_alloc = refl; int64_store = refl; int64_bits = refl }

look-past : (m : Mem) (p : Ptr) → length m ≤ p → look m p ≡ none
look-past [] p h = refl
look-past (b ∷ m) zero h = absurd (omega arith)
look-past (b ∷ m) (suc p) h = look-past m p (omega arith)

pub past-unused : (m : Mem) → block_at m (suc (length m)) ≡ none
unfolding block_at
past-unused m =
    let ne : (suc (length m) == null) ≡ false = ground arith in
    rw ne (look-past m (suc (length m)) (omega arith))

-- Memory without end: each new block lies behind all others.
abbrev pub ample : Allocator
ample = record {
  new_address = λ n m. suc (length m);
  moved_address = λ p n m. suc (length m);
  frees_at_zero = false;
  garbage = λ i. 170;
  new_unused = λ n m. past-unused m;
  moved_unused = λ p n m. inr (past-unused m);
}

-- No memory at all.
abbrev pub exhausted : Allocator
exhausted = record {
  new_address = λ n m. null;
  moved_address = λ p n m. null;
  frees_at_zero = false;
  garbage = λ i. 170;
  new_unused = λ n m. block_at-null m;
  moved_unused = λ p n m. inr (block_at-null m);
}

abbrev pub target_of : Bool → Allocator → Target
target_of b al = record {
  layout = layout_of b;
  alloc = al;
  serialize = λ n p m. fault;
  deserialize = λ n p i m. fault;
}

module _ (key : Field → ℕ) where
  abbrev insert : Field → List Field → List Field
  insert f [] = f ∷ []
  insert f (g ∷ gs) = let rest = insert f gs in if leb (key f) (key g) then f ∷ g ∷ gs else g ∷ rest

  abbrev insertion_sort : List Field → List Field
  insertion_sort [] = []
  insertion_sort (f ∷ fs) = insert f (insertion_sort fs)

  insert-Inserted : (f : Field) (fs : List Field) → Inserted f fs (insert f fs)
  insert-Inserted f [] = here
  insert-Inserted f (g ∷ gs) = elim (Bool-cases (leb (key f) (key g))) [
    | inl e ↦ rw e here
    | inr e ↦ rw e (there (insert-Inserted f gs))
  ]

  pub insertion_sort-Rearranged : (fs : List Field) → Rearranged fs (insertion_sort fs)
  insertion_sort-Rearranged [] = empty
  insertion_sort-Rearranged (f ∷ fs) =
      put (insertion_sort-Rearranged fs) (insert-Inserted f (insertion_sort fs))

  All-below :
      (a b : ℕ) (fs : List Field) → a ≤ b → All (λ g. b ≤ key g) fs → All (λ g. a ≤ key g) fs
  All-below a b [] le h = tt
  All-below a b (f ∷ fs) le h = (omega (arith, h.0), All-below a b fs le h.1)

  insert-Ascending : (f : Field) (fs : List Field) → Ascending key fs → Ascending key (insert f fs)
  insert-Ascending f [] h = (tt, tt)
  insert-Ascending f (g ∷ gs) h = elim (Bool-cases (leb (key f) (key g))) [
    | inl e ↦
        let le = leb→le (key f) (key g) e in rw e ((le, All-below (key f) (key g) gs le h.0), h)
    | inr e ↦
        let le : key g ≤ key f = ground arith in
        rw e (
          All-Inserted (λ k. key g ≤ key k) (insert-Inserted f gs) le h.0,
          insert-Ascending f gs h.1,
        )
  ]

  pub insertion_sort-Ascending : (fs : List Field) → Ascending key (insertion_sort fs)
  insertion_sort-Ascending [] = tt
  insertion_sort-Ascending (f ∷ fs) =
      insert-Ascending f (insertion_sort fs) (insertion_sort-Ascending fs)

abbrev pub sorter : Sorter
sorter = record {
  sort = insertion_sort;
  sort_permutes = insertion_sort-Rearranged;
  sort_orders = insertion_sort-Ascending;
}

-- struct p { mutable repeated uint32 xs; uint16 n }, before it is final.
abbrev pub p_name : Name
p_name = 112 ∷ []

abbrev pub xs_name : Name
xs_name = codes "xs"

abbrev pub n_name : Name
n_name = 110 ∷ []

abbrev pub point : Struct
point =
    add_field n_name (int_type 16) false
      (add_repeated_field xs_name (pointer_to (int_type 32)) true (make_struct p_name))

pub point-Built : (so : Sorter) (dl : DataLayout) → Built so dl point
point-Built so dl =
    field_added n_name (int_type 16) false
      (repeated_added xs_name (pointer_to (int_type 32)) true (created p_name))

-- Its fields when it is final: `n`, which is smaller, then `xs_count` and `xs`.
abbrev pub n_field : Field
n_field = at_offset 0 (plain_field 2 n_name (int_type 16) false)

abbrev pub count_field : Field
count_field = at_offset 1 (count_of 0 xs_name true)

abbrev pub xs_field : Field
xs_field = at_offset 2 (repeated_field 0 xs_name (pointer_to (int_type 32)) true)

abbrev pub point_fields : List Field
point_fields = n_field ∷ count_field ∷ xs_field ∷ []

point-final : (finalize_fields sorter (layout_of true) point).fields ≡ point_fields
unfolding finalize_fields add_field add_repeated_field
point-final = refl

-- In memory: `n` is 7 and `xs` is 5, 6; the struct in block 1, the array in block 2, a caller's
-- variable in block 3, and another array in block 4.
abbrev pub five_six : List ℕ
five_six = 5 ∷ 0 ∷ 0 ∷ 0 ∷ 6 ∷ 0 ∷ 0 ∷ 0 ∷ []

abbrev pub memory : Mem
memory =
    none
    ∷ some (cells (7 ∷ 2 ∷ 2 ∷ []))
    ∷ some (raw five_six)
    ∷ some (cells (0 ∷ []))
    ∷ some (raw (9 ∷ 0 ∷ 0 ∷ 0 ∷ []))
    ∷ []
