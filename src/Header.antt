-- ===== src/Header.antt =====
-- The functions of a struct by name: those that LLVMIRGenPass.cpp emits, in the order of
-- `runOnField` and `runOnStruct`, and those that the header of CCodegenPass.cpp declares.
pub mod Declared
pub mod Text
pub mod File
pub mod Declarations
pub mod Parameters
pub mod Printed
use tyr.Prelude.{
  codes, ℕ, Bool, true, false, not, ◌&&◌, Option, none, some, List, [], ◌∷◌, ◌++◌, if◌then◌else◌,
}
use tyr.Ir.{Name, Ty, Field, Struct}
use tyr.Ir.Build.{count_suffix}

abbrev pub get_prefix : Name
get_prefix = codes "get_"

abbrev pub set_prefix : Name
set_prefix = codes "set_"

abbrev pub create_prefix : Name
create_prefix = codes "create_"

abbrev pub destroy_prefix : Name
destroy_prefix = codes "destroy_"

abbrev pub serialize_prefix : Name
serialize_prefix = codes "serialize_"

abbrev pub deserialize_prefix : Name
deserialize_prefix = codes "deserialize_"

abbrev pub serialize_field_prefix : Name
serialize_field_prefix = codes "__serialize_"

abbrev pub deserialize_field_prefix : Name
deserialize_field_prefix = codes "__deserialize_"

abbrev pub item_suffix : Name
item_suffix = codes "_item"

-- "_"
abbrev pub underscore : Name
underscore = 95 ∷ []

-- A name of one field of a struct.
abbrev pub field_function : (prefix struct field suffix : Name) → Name
field_function prefix struct field suffix = prefix ++ (struct ++ (underscore ++ (field ++ suffix)))

abbrev pub when : Bool → List Name → List Name
when true names = names
when false names = []

-- `runOnField`: each of its functions emits one, or nothing for a field that it passes over. `s` is the
-- name of the field's `parentType`, which LLVM makes of the struct's name when the fields are final:
-- it differs if a type of that name is there already. A struct's own functions have the struct's name.
unfoldable pub run_on_field : (s : Name) → Field → List Name
run_on_field s f =
    (field_function get_prefix s f.name [] ∷ [])
    ++ (when f.is_repeated (field_function get_prefix s f.name item_suffix ∷ [])
        ++ (when f.is_mutable (field_function set_prefix s f.name [] ∷ [])
            ++ (when f.is_repeated (field_function set_prefix s f.name item_suffix ∷ [])
                ++ when (not f.is_count) (
                    field_function serialize_field_prefix s f.name []
                    ∷ field_function deserialize_field_prefix s f.name []
                    ∷ []))))

-- `runOnStruct`
unfoldable pub run_on_struct : Name → List Name
run_on_struct s =
    (create_prefix ++ s)
    ∷ (serialize_prefix ++ s)
    ∷ (deserialize_prefix ++ s)
    ∷ (destroy_prefix ++ s)
    ∷ []

-- The fields, and then the struct, as `Module::visit` visits them.
unfoldable pub visit_fields : Name → List Field → List Name
unfolding run_on_field
visit_fields s [] = []
visit_fields s (f ∷ fs) = run_on_field s f ++ visit_fields s fs

-- The `parentType` of a field is null until the fields are final: the fields that have one are those
-- with an element of the struct's type, since `addField` adds behind them.
unfoldable pub have_parents : List Ty → List Field → Bool
have_parents ts [] = true
have_parents [] (f ∷ fs) = false
have_parents (t ∷ ts) (f ∷ fs) = have_parents ts fs

-- No field is a struct: the accessors of one ask a pointer for the name of its struct.
unfoldable pub no_structs : List Field → Bool
no_structs [] = true
no_structs (f ∷ fs) = not f.is_struct && no_structs fs

-- The functions for a struct whose type has the name `type_name`, or undefined behaviour.
unfoldable pub emitted : (type_name : Name) → Struct → Option (List Name)
unfolding visit_fields run_on_struct have_parents no_structs
emitted type_name s = elim s.type [
  | none ↦ none
  | some ts ↦
      if have_parents ts s.fields && no_structs s.fields
      then some (visit_fields type_name s.fields ++ run_on_struct s.name)
      else none
]

-- What `CCodegenPass::runOnModule` writes for one field, and for a struct.
unfoldable pub field_header : Name → Field → List Name
field_header s f = when (not f.is_count) (
    (field_function get_prefix s f.name [] ∷ [])
    ++ (when f.is_mutable (field_function set_prefix s f.name [] ∷ [])
        ++ when f.is_repeated (
            (field_function get_prefix s f.name item_suffix ∷ [])
            ++ (when f.is_mutable (field_function set_prefix s f.name item_suffix ∷ [])
                ++ (field_function get_prefix s f.name count_suffix ∷ [])))))

unfoldable pub fields_header : Name → List Field → List Name
unfolding field_header
fields_header s [] = []
fields_header s (f ∷ fs) = field_header s f ++ fields_header s fs

unfoldable pub declared : Struct → List Name
unfolding fields_header
declared s =
    fields_header s.name s.fields
    ++ ((create_prefix ++ s.name)
        ∷ (destroy_prefix ++ s.name)
        ∷ (serialize_prefix ++ s.name)
        ∷ (deserialize_prefix ++ s.name)
        ∷ [])

-- The constructor's parameters, by the names of their fields: those of `getConstructor`, and those in
-- the header.
unfoldable pub emitted_parameters : List Field → List Name
emitted_parameters [] = []
emitted_parameters (f ∷ fs) = when (not f.is_mutable) (f.name ∷ []) ++ emitted_parameters fs

unfoldable pub declared_parameters : List Field → List Name
declared_parameters [] = []
declared_parameters (f ∷ fs) =
    when (not f.is_count && not f.is_mutable)
      (when f.is_repeated ((f.name ++ count_suffix) ∷ []) ++ (f.name ∷ []))
    ++ declared_parameters fs
