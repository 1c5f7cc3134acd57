-- ===== src/Ir.antt =====
-- lib/compiler/IR/IR.hpp and IR.cpp: fields and structs. A `Field *` is the number under which its
-- struct made the field, so that it goes on naming the field when the fields are sorted.
pub mod Build
pub mod Links
pub mod Final
pub mod Apart
pub mod Pairs
use tyr.Prelude.{
  ℕ, zero, suc, ◌+◌, Bool, true, false, ◌&&◌, Option, none, some, List, [], ◌∷◌, ◌++◌, ◌==◌,
  if◌then◌else◌, length,
}

-- A name is the list of its character codes.
abbrev pub Name : Type 0
Name = List ℕ

-- The types of LLVM that `Module::parseType` makes. `struct_type` is the type `Struct::getType` of
-- the struct of that name.
pub data Ty : Type 0 where
  int_type : ℕ → Ty
  float_type double_type : Ty
  struct_type : Name → Ty
  pointer_to : Ty → Ty

abbrev pub int64 : Ty
int64 = int_type 64

abbrev pub FieldPtr : Type 0
FieldPtr = ℕ

-- `struct Field`. `parentType` is the struct that a function of the model is given.
pub record Field : Type 0 where
  pub id : FieldPtr
  pub name : Name
  pub type : Ty
  pub is_mutable : Bool
  pub is_struct : Bool
  pub is_repeated : Bool
  pub is_count : Bool
  pub count_field : Option FieldPtr
  pub counts_for : Option FieldPtr
  pub offset : ℕ

-- `class Struct`; `type` is `m_type_`, the element types once the fields are final. `made` is the
-- number of fields made so far.
pub record Struct : Type 0 where
  pub name : Name
  pub packed : Bool
  pub type : Option (List Ty)
  pub fields : List Field
  pub made : ℕ
