-- ===== src/Header/Printed.antt =====
-- The header of CCodegenPass.cpp as a list of declarations.
use tyr.Prelude.{List, [], ◌∷◌, ◌++◌, codes}
use tyr.Ir.{Name, Struct}
use tyr.Header.{create_prefix, destroy_prefix, serialize_prefix, deserialize_prefix}
use tyr.Header.Text.{ptr_name}
use tyr.Header.Declarations.{Declaration, fields_declarations}
use tyr.Header.Parameters.{constructor_parameters}

abbrev pub creator : Struct → Declaration
creator s = record {
  result = ptr_name s.name ++ codes " ";
  name = create_prefix ++ s.name;
  parameters = constructor_parameters s.fields;
}

abbrev pub destroyer : Struct → Declaration
destroyer s = record {
  result = codes "void ";
  name = destroy_prefix ++ s.name;
  parameters = (ptr_name s.name, codes "struct_ptr") ∷ [];
}

abbrev pub serializer : Struct → Declaration
serializer s = record {
  result = codes "uint8_t *";
  name = serialize_prefix ++ s.name;
  parameters = (s.name ++ codes "_ptr ", codes "struct_ptr") ∷ [];
}

abbrev pub deserializer : Struct → Declaration
deserializer s = record {
  result = s.name ++ codes "_ptr ";
  name = deserialize_prefix ++ s.name;
  parameters = (codes "uint8_t *", codes "serialized_struct") ∷ [];
}

-- The declarations before and behind the type of pointers to the struct.
abbrev pub before_pointer : Struct → List Declaration
before_pointer s = fields_declarations s.name s.fields ++ (creator s ∷ destroyer s ∷ [])

abbrev pub behind_pointer : Struct → List Declaration
behind_pointer s = serializer s ∷ deserializer s ∷ []

abbrev pub pointer_typedef : Name → Name
pointer_typedef s = codes "typedef void *" ++ (s ++ codes "_ptr;\n")
