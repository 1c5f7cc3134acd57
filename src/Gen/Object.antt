-- ===== src/Gen/Object.antt =====
-- `getConstructor` and `getDestructor` of LLVMIRGenPass.cpp, with `initField` and `destroyField`.
pub mod Destroy
pub mod Create
use tyr.Prelude.{ℕ, Bool, true, false, Option, none, some, List, [], ◌∷◌, if◌then◌else◌, length}
use mathlib.Core.List.{head?}
use tyr.Ir.{Ty, Field}
use tyr.Layout.{is_pointer}
use tyr.Memory.{
  Ptr, null, Run, fault, Cmd, pure, ◌>>=◌, ◌>>◌, require, load_cell, store_cell, memcpy, malloc,
  malloc_struct, free,
}
use tyr.Gen.{Target, null_check, get_field_alloc_size}

-- The arguments behind the first.
abbrev pub drop_one : List ℕ → List ℕ
drop_one [] = []
drop_one (a ∷ args) = args

module _ (tg : Target) (fs : List Field) where
  -- A copy of the array, or of the struct's first bytes, that the constructor was given.
  init_pointer : Field → (self arg : Ptr) → Cmd Bool
  init_pointer f self arg = do
    size ← get_field_alloc_size tg.layout fs f self
    copy ← malloc tg.alloc size
    if null_check copy []
        then (do memcpy copy 0 arg 0 size; store_cell self f.offset copy; pure true)
        else pure false

  init_immutable : Field → Ptr → ℕ → Cmd Bool
  unfolding init_pointer
  init_immutable f self arg =
      if is_pointer f.type
      then init_pointer f self arg
      else (do store_cell self f.offset arg; pure true)

  -- `initField`; the argument is there unless the field is mutable.
  init_field : Field → (self : Ptr) → Option ℕ → Cmd Bool
  unfolding init_immutable
  init_field f self arg =
      if f.is_mutable
      then (do store_cell self f.offset 0; pure true)
      else (do a ← require arg; init_immutable f self a)

  -- The fields in order, each immutable one with the next argument. `false` is an early return.
  unfoldable pub init_fields : List Field → (self : Ptr) → List ℕ → Cmd Bool
  unfolding init_field
  init_fields [] self args = pure true
  init_fields (f ∷ rest) self args = do
    done ← init_field f self (head? args)
    if done
        then init_fields rest self (if f.is_mutable then args else drop_one args)
        else pure false

  -- `create_<struct>`
  unfoldable pub create : Ty → (args : List ℕ) → Cmd Ptr
  create t args = do
    self ← malloc_struct tg.alloc (tg.layout.alloc_size t) (length fs)
    if null_check self []
        then (do done ← init_fields fs self args; pure (if done then self else null))
        else pure null

-- `destroyField`
destroy_field : Field → (self : Ptr) → Cmd (Unit {0})
destroy_field f self =
    if is_pointer f.type then (do p ← load_cell self f.offset; free p) else pure tt

unfoldable pub destroy_fields : List Field → (self : Ptr) → Cmd (Unit {0})
unfolding destroy_field
destroy_fields [] self = pure tt
destroy_fields (f ∷ rest) self = destroy_field f self >> destroy_fields rest self

-- `destroy_<struct>`
unfoldable pub destroy : List Field → (self : Ptr) → Cmd (Unit {0})
destroy fs self = destroy_fields fs self >> free self
