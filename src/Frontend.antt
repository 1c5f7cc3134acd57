-- ===== src/Frontend.antt =====
-- lib/tools/tyrc/Frontend.cpp: `main`, from the parsed options on. The pass that emits LLVM code is a parameter
-- here, as a function of the module that it runs on.
pub mod Compiled
use tyr.Prelude.{
  codes, ℕ, Bool, true, false, Option, none, some, List, [], ◌∷◌, ◌++◌, ◌==◌, if◌then◌else◌,
}
use tyr.Ir.{Name, Struct}
use tyr.Ir.Build.{Sorter}
use tyr.Module.{Module, Builtin, set_builtin_name, Attempt, good, bad, crash}
use tyr.Module.Link.{
  malloc_key, realloc_key, free_key, declare_builtins, finalize_builtins, link_runtime_modules,
}
use tyr.Parser.{Parser, contains, Outcome, parsed, failed, crashed, parse_file}
use tyr.Passes.{Pass, run_passes}
use tyr.Llvm.{Files, World, Llvm}
use tyr.Bindings.{c_codegen_pass, rust_codegen_pass}
use tyr.Output.{object_codegen_pass, llvm_codegen_pass}

-- The options of the command line; `bind_c` and `bind_rust` are the bits of `BindLang`.
pub record Options : Type 0 where
  pub file_name : Name
  pub output_dir : Name
  pub module_name : Name
  pub bind_c : Bool
  pub bind_rust : Bool
  pub runtime_opts : ℕ
  pub malloc_name : Name
  pub realloc_name : Name
  pub free_name : Name
  pub target : Name
  pub cpu : Name
  pub features : Name
  pub emit_llvm : Bool

-- What `main` returns, 0 and the constants of the file; `undefined` is undefined behaviour.
pub data Exit : Type 0 where
  success invalid_filename could_not_open_file parsing_failed : Exit
  codegen_failed rt_linking_failed undefined : Exit

-- The pass that is a parameter, of the module that it runs on, and the constant TYR_INSTALL_PATH.
pub record Setup (M : Type 0) : Type 0 where
  pub llvm_ir_gen_pass : Module → Pass (World M)
  pub install_path : Name

abbrev pub extension : Name
extension = codes ".tyr"

-- The lines of a text, as `std::getline` reads them until the end of the file.
unfoldable pub lines : List ℕ → List Name
lines [] = []
lines (c ∷ text) =
    let rest = lines text in
    if c == 10 then [] ∷ rest else elim rest [ [] ↦ (c ∷ []) ∷ [] | l ∷ ls ↦ (c ∷ l) ∷ ls ]

-- The names of the builtins that `main` sets.
abbrev pub builtins_of : Options → List Builtin
builtins_of o =
    set_builtin_name
      (set_builtin_name (set_builtin_name [] malloc_key o.malloc_name) realloc_key o.realloc_name)
      free_key o.free_name

-- The module before the file is parsed.
unfoldable pub initial_module : Options → Module
initial_module o =
    finalize_builtins
      (record { structs = []; builtins = builtins_of o; builtins_finalized = false })

abbrev pub initial_parser : Options → Parser
initial_parser o = record { current = none; target = initial_module o }

module _ {M T F : Type 0} (llvm : Llvm M T F) where
  abbrev module_name_of : Options → Name
  module_name_of o = elim o.module_name [ [] ↦ llvm.stem o.file_name | c ∷ s ↦ c ∷ s ]

  -- The LLVM module that `main` parses into.
  unfoldable pub initial_parent : Options → M
  initial_parent o =
      llvm.set_source_file_name o.file_name
        (declare_builtins llvm (initial_module o).builtins (llvm.new_module (module_name_of o)))

  abbrev pub linked : (bitcode_dir : Name) → Options → Files → Attempt M
  linked bitcode_dir o fs =
      link_runtime_modules llvm fs bitcode_dir o.runtime_opts
        (llvm.set_target_triple o.target (initial_parent o))

  abbrev pub parse_text : Sorter → Options → List ℕ → Outcome
  parse_text so o text =
      parse_file so (llvm.data_layout_of (initial_parent o)) llvm.split_spaces (lines text)
        (initial_parser o)

  abbrev pub output_pass : Options → Pass (World M)
  output_pass o =
      if o.emit_llvm
      then llvm_codegen_pass llvm o.cpu o.features o.output_dir
      else object_codegen_pass llvm o.cpu o.features o.output_dir

  -- The structs of a module in the order of its iterators, for `visit` and for the bindings.
  abbrev pub ordered : Module → List Struct
  ordered m = llvm.string_map_order m.structs

  module _ (setup : Setup M) where
    -- The passes for the bindings.
    abbrev pub binding_passes : Options → Module → List (Pass (World M))
    binding_passes o m =
        (if o.bind_c then c_codegen_pass llvm (ordered m) o.output_dir o.runtime_opts ∷ [] else [])
        ++ (if o.bind_rust
            then rust_codegen_pass llvm setup.install_path (ordered m) o.output_dir o.runtime_opts
              ∷ []
            else [])

    -- The passes as `main` registers them.
    unfoldable pub registered : Options → Module → List (Pass (World M))
    registered o m = setup.llvm_ir_gen_pass m ∷ output_pass o ∷ binding_passes o m

    -- Behind the linking.
    unfoldable pub generate : Options → Files → Module → Attempt M → Exit × Files
    unfolding run_passes registered
    generate o fs m crash = (undefined, fs)
    generate o fs m bad = (rt_linking_failed, fs)
    generate o fs m (good parent) =
        let r =
          run_passes (registered o m) (ordered m) true (record { parent = parent; files = fs }) in
        (if r.0 then success else codegen_failed, r.1.files)

    module _ (so : Sorter) (bitcode_dir : Name) where
      -- Behind the parser.
      unfoldable pub compile : Options → Files → Outcome → Exit × Files
      unfolding generate link_runtime_modules initial_parent
      compile o fs crashed = (undefined, fs)
      compile o fs (failed lineno) = (parsing_failed, fs)
      compile o fs (parsed p) = generate o fs p.target (linked bitcode_dir o fs)

      -- `main`
      unfoldable pub main : Options → Files → Exit × Files
      unfolding compile lines initial_module contains parse_file
      main o fs =
          if contains o.file_name extension
          then elim (fs o.file_name) [
            | none ↦ (could_not_open_file, fs)
            | some text ↦ compile o fs (parse_text so o text)
          ]
          else (invalid_filename, fs)
