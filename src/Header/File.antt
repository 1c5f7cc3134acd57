-- ===== src/Header/File.antt =====
-- The whole text of the header that `CCodegenPass::runOnModule` writes, in
-- lib/compiler/CodeGen/BindingCodeGen/CCodegenPass.cpp.
use tyr.Prelude.{ℕ, ◌-◌, ◌&&◌, List, [], ◌∷◌, ◌++◌, leb, if◌then◌else◌, codes}
use tyr.Ir.{Name, Struct}
use tyr.Module.Link.{is_file_enabled, is_b64_enabled}
use tyr.Header.Text.{streamed, struct_text}

-- `upper`
unfoldable pub upper : Name → Name
upper [] = []
upper (c ∷ s) = (if leb 97 c && leb c 122 then c - 32 else c) ∷ upper s

-- Of the structs in the order of the module's iterators.
unfoldable pub typedefs_text : List Struct → Name
typedefs_text [] = []
typedefs_text (s ∷ ss) =
    streamed (
      codes "typedef struct " ∷ s.name ∷ codes " " ∷ s.name ∷ codes "_t;\n" ∷ typedefs_text ss ∷ [])

-- In the same order.
unfoldable pub structs_text : List Struct → Name
unfolding struct_text
structs_text [] = []
structs_text (s ∷ ss) = struct_text s ++ structs_text ss

abbrev pub banner : Name
banner = streamed (
    codes "/*\n  "
    ∷ codes "====================================================================="
    ∷ codes "=====\n"
    ∷ codes "  ============= Autogenerated by the tyr compiler, DO NOT EDIT "
    ∷ codes "=============\n  "
    ∷ codes "====================================================================="
    ∷ codes "=====\n*/\n\n"
    ∷ [])

-- What is written before the structs.
abbrev pub front_text : (name : Name) → (options : ℕ) → Name
front_text name options = streamed (
    codes "#ifndef TYR_AUTOGENERATED_MODULE_"
    ∷ upper name
    ∷ codes "_H\n"
    ∷ codes "#define TYR_AUTOGENERATED_MODULE_"
    ∷ upper name
    ∷ codes "_H\n"
    ∷ banner
    ∷ codes "#ifdef __cplusplus\nextern \"C\" {\n#endif // __cplusplus\n\n"
    ∷ codes "#include <stdbool.h>\n#include <stdint.h>\n"
    ∷ (if is_file_enabled options then codes "#include <tyr/rt/FileHelper.h>\n" else [])
    ∷ (if is_b64_enabled options then codes "#include <tyr/rt/Base64.h>\n" else [])
    ∷ codes "\n"
    ∷ [])

abbrev pub back_text : (name : Name) → Name
back_text name = streamed (
    codes "#ifdef __cplusplus\n}\n#endif // __cplusplus\n\n"
    ∷ codes "#endif // TYR_AUTOGENERATED_MODULE_"
    ∷ upper name
    ∷ codes "_H\n"
    ∷ [])

-- What `runOnModule` writes.
unfoldable pub header_text : (name : Name) → (options : ℕ) → List Struct → Name
unfolding is_file_enabled is_b64_enabled upper typedefs_text structs_text
header_text name options ss = streamed (
    front_text name options
    ∷ typedefs_text ss
    ∷ codes "\n\n"
    ∷ structs_text ss
    ∷ back_text name
    ∷ [])
