-- ===== src/Gen.antt =====
-- lib/compiler/CodeGen/LLVMIRGen: what LLVMIRGenPass has in hand when it emits code, and the pieces
-- that its functions share. The model of a function `getX` of the pass is the function that it
-- emits: a call of the builder is the instruction that it emits, a test on a field is made when the
-- code is generated, and a test on a value when it runs.
pub mod Access
pub mod Object
pub mod Serial
pub mod Sizes
pub mod Update
use tyr.Prelude.{
  ℕ, ◌*◌, ◌%◌, ◌^◌, ◌/◌, Bool, true, false, not, ◌&&◌, ◌||◌, Option, none, some, List, [], ◌∷◌,
  reverse, ◌==◌, if◌then◌else◌,
}
use mathlib.Core.List.{foldl}
use tyr.Ir.{Name, Ty, int_type, float_type, double_type, struct_type, pointer_to, Field, FieldPtr}
use tyr.Module.{same_name}
use tyr.Layout.{DataLayout, encode, decode, pointee, is_int, bswap}
use tyr.Memory.{
  Ptr, null, Mem, Run, ok, fault, Cmd, pure, ◌>>=◌, ◌>>◌, require, load_cell, store_cell,
  load_bytes, store_bytes, memcpy, Allocator, malloc, realloc,
}

-- The target's layout, the functions behind the builtin names, and the functions
-- `serialize_<name>` and `deserialize_<name>` of the LLVM module. The latter reads at a byte of a
-- block.
pub record Target : Type 0 where
  pub layout : DataLayout
  pub alloc : Allocator
  pub serialize : Name → Ptr → Cmd Ptr
  pub deserialize : Name → Ptr → ℕ → Cmd Ptr

abbrev pub u64_mod : ℕ
u64_mod = 2 ^ 64

abbrev pub not_null : Ptr → Bool
not_null p = not (p == null)

-- `insertNullCheck`: the branch to the block for success is taken if this is true.
unfoldable pub null_check : Ptr → List Ptr → Bool
null_check p ps = foldl (λ found q. found || not_null q) (not_null p) ps

-- The field that a `Field *` leads to.
unfoldable pub field_of : List Field → FieldPtr → Option Field
field_of [] p = none
field_of (f ∷ fs) p = let rest = field_of fs p in if f.id == p then some f else rest

unfoldable pub deref : List Field → Option FieldPtr → Option Field
unfolding field_of
deref fs none = none
deref fs (some p) = field_of fs p

-- `Module::getFunction` of the name of a field's serializer or deserializer: the one that was emitted
-- first, as LLVM renames a later function of the same name. Count fields have none. Functions of other
-- structs are taken to have other names.
unfoldable pub field_named : List Field → Name → Option Field
unfolding same_name
field_named [] n = none
field_named (f ∷ fs) n =
    let rest = field_named fs n in if not f.is_count && same_name f.name n then some f else rest

-- `Type::getStructName`, of a struct type only.
unfoldable pub struct_name : Ty → Option Name
struct_name (struct_type n) = some n
struct_name t = none

module _ (dl : DataLayout) where
  -- `swapBytes`, at run time. `llvm.bswap` is one of an even number of bytes: for another, which the
  -- results exclude, the module is broken.
  unfoldable pub swap_bytes : Ty → ℕ → ℕ
  swap_bytes t v =
      if dl.is_little_endian
      then v
      else if is_int t && not (dl.size_in_bits t % 8 == 0)
      then v
      else bswap (dl.size_in_bits t / 8) v

  -- A load and a store of a number of type `t` at byte `i`.
  unfoldable pub load_num : Ty → Ptr → ℕ → Cmd ℕ
  load_num t p i = do
    bs ← load_bytes p i (dl.store_size t)
    pure (decode dl.stores_little_endian bs)

  unfoldable pub store_num : Ty → Ptr → ℕ → ℕ → Cmd (Unit {0})
  store_num t p i v = store_bytes p i (encode dl.stores_little_endian (dl.store_size t) v)

-- `getFieldAllocSize`: of a repeated field, its count times the size of an element, in 64 bits.
unfoldable pub get_field_alloc_size : DataLayout → List Field → Field → Ptr → Cmd ℕ
get_field_alloc_size dl fs f self =
    if f.is_repeated
    then (do
      t ← require (pointee f.type)
      c ← require (deref fs f.count_field)
      n ← load_cell self c.offset
      pure (dl.alloc_size t * n % u64_mod))
    else pure (dl.alloc_size f.type)
