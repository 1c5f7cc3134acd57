-- ===== src/Frontend/Compiled.antt =====
-- What `main` of lib/tools/tyrc/Frontend.cpp has done when it returns 0.
use tyr.Prelude.{ℕ, ◌≡◌, Bool, true, some, List, if◌then◌else◌}
use tyr.Ir.{Name}
use tyr.Ir.Build.{Sorter}
use tyr.Module.{Module, good, lookup_builtin}
use tyr.Module.Link.{malloc_key, realloc_key, free_key}
use tyr.Parser.{Parser, contains, parsed}
use tyr.Parser.Structs.{AllBuilt}
use tyr.Passes.{visit}
use tyr.Passes.Answers.{conj, run_pass_calls}
use tyr.Llvm.{Files, World, Llvm}
use tyr.Bindings.{with_header, with_script}
use tyr.Output.{output_file, object_extension, bitcode_extension, emit_object}
use tyr.Output.Written.{IsWritten, bitcode}
use tyr.Frontend.{
  Options, Exit, success, Setup, extension, initial_parent, registered, ordered, output_pass,
  linked, parse_text,
}

answer : Bool → Exit
answer b = if b then success else Exit.codegen_failed

-- The builtins have the names that the options give.
abbrev pub HasNames : Options → Module → Type 0
HasNames o m =
    (lookup_builtin m.builtins malloc_key ≡ o.malloc_name)
    × (lookup_builtin m.builtins realloc_key ≡ o.realloc_name)
    × (lookup_builtin m.builtins free_key ≡ o.free_name)

module _ {M T F : Type 0} (llvm : Llvm M T F) (o : Options) where
  -- What the output pass makes of a module, and where it writes it.
  abbrev pub output : T → M → M × List ℕ
  output t m = if o.emit_llvm then bitcode llvm t m else emit_object llvm t o.cpu o.features m

  abbrev pub output_name : M → Name
  output_name m =
      output_file llvm o.output_dir (if o.emit_llvm then bitcode_extension else object_extension) m

  module _ (setup : Setup M) (fs : Files) where
    abbrev pub start : M → World M
    start parent = record { parent = parent; files = fs }

    -- After the pass that emits LLVM code, and after the one that writes it.
    abbrev pub after_ir_gen : Module → M → World M
    after_ir_gen m parent = (visit (setup.llvm_ir_gen_pass m) (ordered llvm m) (start parent)).1

    abbrev pub after_output : Module → M → World M
    after_output m parent = (visit (output_pass llvm o) (ordered llvm m) (after_ir_gen m parent)).1

    -- The files with the bindings that the options ask for.
    abbrev pub bound : Module → M → Files → Files
    bound m parent files =
        let headed =
          if o.bind_c
          then with_header llvm (ordered llvm m) o.output_dir o.runtime_opts parent files
          else files in
        if o.bind_rust
        then with_script llvm setup.install_path o.output_dir parent
            (with_header llvm (ordered llvm m) o.output_dir o.runtime_opts parent headed)
        else headed

    -- What the passes have done to the structs of a module and to the LLVM module.
    pub record IsGenerated (m : Module) (parent : M) (files : Files) : Type 0 where
      pub answers :
          conj (run_pass_calls (ordered llvm m) (registered llvm setup o m) (start parent)).0 ≡ true
      pub output_written :
          IsWritten llvm o.cpu o.features output output_name
            (after_ir_gen m parent)
            (after_output m parent)
      pub finished :
          files
          ≡ (run_pass_calls (ordered llvm m) (registered llvm setup o m) (start parent)).1.files
      pub bindings_written :
          files ≡ bound m (after_output m parent).parent (after_output m parent).files

    module _ (so : Sorter) (bitcode_dir : Name) where
      pub record IsCompiled (files : Files) : Type 0 where
        pub named : contains o.file_name extension ≡ true
        pub text : List ℕ
        pub opened : fs o.file_name ≡ some text
        pub final : Parser
        pub read : parse_text llvm so o text ≡ parsed final
        pub made : AllBuilt so (llvm.data_layout_of (initial_parent llvm o)) final.target.structs
        pub names : HasNames o final.target
        pub parent : M
        pub runtime_linked : linked llvm bitcode_dir o fs ≡ good parent
        pub generated : IsGenerated final.target parent files
