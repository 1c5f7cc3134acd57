-- ===== src/Bindings.antt =====
-- The passes of lib/compiler/CodeGen/BindingCodeGen: the C header of CCodegenPass.cpp and the build script of
-- RustCodegenPass.cpp. Neither tests whether its file can be opened; if it cannot, LLVM's stream ends
-- the process at the end of the pass, which is not modelled.
pub mod Visits
use tyr.Prelude.{ℕ, Bool, true, false, not, List, [], ◌∷◌, ◌++◌, if◌then◌else◌, codes}
use tyr.Ir.{Name, Struct}
use tyr.Passes.{Pass}
use tyr.Header.Text.{streamed}
use tyr.Header.File.{banner, header_text}
use tyr.Llvm.{Files, with_file, World, Llvm}
use tyr.Output.{module_pass, output_file, object_extension, bitcode_extension}

-- ".h"
abbrev pub header_extension : Name
header_extension = codes ".h"

abbrev pub script_front : Name
script_front =
    banner
    ++ codes "extern crate bindgen;\nextern crate cc;\n\nuse std::env;\nuse std::path::PathBuf;\n\n"

-- One of the two functions of the script, up to its last brace: `compiled` names the method that takes
-- the file at `path`.
abbrev pub script_function : (suffix compiled path header install_path name : Name) → Name
script_function suffix compiled path header install_path name = streamed (
    codes "#[allow(dead_code)]\n"
    ∷ codes "pub fn "
    ∷ codes "build_bindings"
    ∷ suffix
    ∷ codes "() {\n"
    ∷ codes "    println!(\"cargo:rustc-link-lib="
    ∷ name
    ∷ codes "\");\n"
    ∷ codes "    cc::Build::new()\n        ."
    ∷ compiled
    ∷ codes "(\""
    ∷ path
    ∷ codes "\")\n        .compile(\""
    ∷ name
    ∷ codes "\");\n\n"
    ∷ codes "    let bindings = bindgen::Builder::default()\n        .header(\""
    ∷ header
    ∷ codes "\")\n"
    ∷ codes "        .clang_arg(\"-I"
    ∷ install_path
    ∷ codes "/include\")\n"
    ∷ codes "        .generate()\n        .expect(\"Unable to generate bindings\");\n\n"
    ∷ codes "    let out_path = PathBuf::from(env::var(\"OUT_DIR\").unwrap());\n"
    ∷ codes "    bindings\n        .write_to_file(out_path.join(\""
    ∷ name
    ∷ codes "_bindings.rs"
    ∷ codes "\"))\n        .expect(\"Couldn't write bindings!\");\n}"
    ∷ [])

module _ {M T F : Type 0} (llvm : Llvm M T F) where
  -- A file that is written whole.
  abbrev pub written_file : (name text : Name) → Files → Files
  written_file name text fs = if llvm.may_write name then with_file name text fs else fs

  abbrev pub with_header : List Struct → (output_dir : Name) → (options : ℕ) → M → Files → Files
  with_header ss output_dir options m =
      written_file (output_file llvm output_dir header_extension m)
        (header_text (llvm.name_of m) options ss)

  -- `CCodegenPass::runOnModule`
  unfoldable pub c_codegen_pass : List Struct → (output_dir : Name) → (options : ℕ) → Pass (World M)
  unfolding header_text
  c_codegen_pass ss output_dir options = module_pass λ w. (
    true,
    record { parent = w.parent; files = with_header ss output_dir options w.parent w.files },
  )

  -- The text of the build script.
  unfoldable pub script_text : (install_path output_dir : Name) → M → Name
  script_text install_path output_dir m =
      let name = llvm.name_of m in
      let header = output_file llvm output_dir header_extension m in
      script_front
      ++ (script_function (codes "_object") (codes "object")
            (output_file llvm output_dir object_extension m) header install_path name
          ++ (codes "\n\n"
              ++ script_function (codes "_llvm") (codes "file")
                  (output_file llvm output_dir bitcode_extension m) header install_path name))

  abbrev pub with_script : (install_path output_dir : Name) → M → Files → Files
  with_script install_path output_dir m =
      written_file
        (llvm.make_absolute (
          llvm.append_path output_dir (codes "build_" ++ (llvm.name_of m ++ codes "_bindings.rs"))))
        (script_text install_path output_dir m)

  -- `RustCodegenPass::runOnModule`, which runs the pass for the header first.
  unfoldable pub rust_codegen_pass :
      (install_path : Name) → List Struct → (output_dir : Name) → (options : ℕ) → Pass (World M)
  unfolding c_codegen_pass script_text
  rust_codegen_pass install_path ss output_dir options = module_pass λ w.
      let r = (c_codegen_pass ss output_dir options).run_on_module w in
      if not r.0 then (false, r.1) else (
        true,
        record {
          parent = r.1.parent;
          files = with_script install_path output_dir r.1.parent r.1.files;
        },
      )
