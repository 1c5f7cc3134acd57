-- ===== src/Header/Text.antt =====
-- The text for the fields and the structs in the header that `CCodegenPass::runOnModule` writes, in
-- lib/compiler/CodeGen/BindingCodeGen/CCodegenPass.cpp.
use tyr.Prelude.{ℕ, not, ◌&&◌, List, [], ◌∷◌, ◌++◌, ◌==◌, leb, if◌then◌else◌, codes}
use tyr.Ir.{Name, Ty, int_type, float_type, double_type, struct_type, pointer_to, Field, Struct}

abbrev pub int_text : ℕ → Name
int_text bits =
    if bits == 1
    then codes "bool "
    else if leb bits 8
    then codes "uint8_t "
    else if leb bits 16
    then codes "uint16_t "
    else if leb bits 32
    then codes "uint32_t "
    else if leb bits 64
    then codes "uint64_t "
    else []

-- `operator<<` on a type
unfoldable pub type_text : Ty → Name
type_text (int_type bits) = int_text bits
type_text float_type = codes "float "
type_text double_type = codes "double "
type_text (struct_type n) = []
type_text (pointer_to (struct_type n)) = n ++ codes "_t *"
type_text (pointer_to (int_type bits)) = type_text (int_type bits) ++ codes "*"
type_text (pointer_to float_type) = type_text float_type ++ codes "*"
type_text (pointer_to double_type) = type_text double_type ++ codes "*"
type_text (pointer_to (pointer_to t)) = type_text (pointer_to t) ++ codes "*"

-- `getPointerElementType`
abbrev pub element_of : Ty → Ty
element_of (pointer_to t) = t
element_of (int_type bits) = int_type bits
element_of float_type = float_type
element_of double_type = double_type
element_of (struct_type n) = struct_type n

-- What `out << a << b << ...` writes.
abbrev pub streamed : List Name → Name
streamed [] = []
streamed (x ∷ xs) = x ++ streamed xs

-- `PtrName`
abbrev pub ptr_name : Name → Name
ptr_name s = s ++ codes "_t *"

abbrev getter_text : Name → Field → Name
getter_text s f = streamed (
    codes "bool get_"
    ∷ s
    ∷ codes "_"
    ∷ f.name
    ∷ codes "("
    ∷ ptr_name s
    ∷ codes "struct_ptr, "
    ∷ type_text (pointer_to f.type)
    ∷ f.name
    ∷ codes ");\n"
    ∷ [])

abbrev repeated_setter_text : Name → Field → Name
repeated_setter_text s f = streamed (
    codes "bool set_"
    ∷ s
    ∷ codes "_"
    ∷ f.name
    ∷ codes "("
    ∷ ptr_name s
    ∷ codes "struct_ptr, "
    ∷ type_text f.type
    ∷ f.name
    ∷ codes ", uint64_t "
    ∷ f.name
    ∷ codes "_count);\n"
    ∷ [])

abbrev setter_text : Name → Field → Name
setter_text s f = streamed (
    codes "bool set_"
    ∷ s
    ∷ codes "_"
    ∷ f.name
    ∷ codes "("
    ∷ ptr_name s
    ∷ codes "struct_ptr, "
    ∷ type_text f.type
    ∷ f.name
    ∷ codes ");\n"
    ∷ [])

abbrev item_getter_text : Name → Field → Name
item_getter_text s f = streamed (
    codes "bool get_"
    ∷ s
    ∷ codes "_"
    ∷ f.name
    ∷ codes "_item("
    ∷ ptr_name s
    ∷ codes "struct_ptr, uint64_t idx, "
    ∷ type_text f.type
    ∷ f.name
    ∷ codes "_item);\n"
    ∷ [])

abbrev item_setter_text : Name → Field → Name
item_setter_text s f = streamed (
    codes "bool set_"
    ∷ s
    ∷ codes "_"
    ∷ f.name
    ∷ codes "_item("
    ∷ ptr_name s
    ∷ codes "struct_ptr, uint64_t idx, "
    ∷ type_text (element_of f.type)
    ∷ f.name
    ∷ codes "_item);\n"
    ∷ [])

abbrev count_getter_text : Name → Field → Name
count_getter_text s f = streamed (
    codes "bool get_"
    ∷ s
    ∷ codes "_"
    ∷ f.name
    ∷ codes "_count("
    ∷ ptr_name s
    ∷ codes "struct_ptr, uint64_t *count);\n"
    ∷ [])

-- What is streamed for one field.
unfoldable pub field_text : Name → Field → Name
unfolding type_text
field_text s f =
    if f.is_count
    then []
    else streamed (
        getter_text s f
        ∷ (if f.is_mutable
            then (if f.is_repeated then repeated_setter_text s f else setter_text s f)
            else [])
        ∷ (if f.is_repeated
            then streamed (
                item_getter_text s f
                ∷ (if f.is_mutable then item_setter_text s f else [])
                ∷ count_getter_text s f
                ∷ [])
            else [])
        ∷ [])

unfoldable pub fields_text : Name → List Field → Name
unfolding field_text
fields_text s [] = []
fields_text s (f ∷ fs) = field_text s f ++ fields_text s fs

-- `ConstructorFields`
unfoldable pub constructor_fields : List Field → List Field
constructor_fields [] = []
constructor_fields (f ∷ fs) =
    let rest = constructor_fields fs in
    if not f.is_count && not f.is_mutable then f ∷ rest else rest

abbrev pub parameter_text : Field → Name
parameter_text f = streamed (
    (if f.is_repeated then streamed (codes "uint64_t " ∷ f.name ∷ codes "_count, " ∷ []) else [])
    ∷ type_text f.type
    ∷ f.name
    ∷ [])

-- All but the last with a comma.
unfoldable pub parameters_text : List Field → Name
unfolding type_text
parameters_text [] = []
parameters_text (f ∷ []) = parameter_text f
parameters_text (f ∷ g ∷ fs) =
    streamed (parameter_text f ∷ codes ", " ∷ parameters_text (g ∷ fs) ∷ [])

abbrev pub constructor_text : Struct → Name
constructor_text s = streamed (
    ptr_name s.name
    ∷ codes " create_"
    ∷ s.name
    ∷ codes "("
    ∷ parameters_text (constructor_fields s.fields)
    ∷ codes ");\n"
    ∷ [])

-- What is streamed behind the constructor.
abbrev pub rest_text : Name → Name
rest_text s = streamed (
    codes "void destroy_"
    ∷ s
    ∷ codes "("
    ∷ ptr_name s
    ∷ codes "struct_ptr);\n"
    ∷ codes "typedef void *"
    ∷ s
    ∷ codes "_ptr;\n"
    ∷ codes "uint8_t *serialize_"
    ∷ s
    ∷ codes "("
    ∷ s
    ∷ codes "_ptr struct_ptr);\n"
    ∷ s
    ∷ codes "_ptr deserialize_"
    ∷ s
    ∷ codes "(uint8_t *serialized_struct);\n\n"
    ∷ [])

-- What is streamed for a struct.
unfoldable pub struct_text : Struct → Name
unfolding fields_text constructor_fields parameters_text
struct_text s = streamed (fields_text s.name s.fields ∷ constructor_text s ∷ rest_text s.name ∷ [])
