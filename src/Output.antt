-- ===== src/Output.antt =====
-- The passes of lib/compiler/CodeGen/ObjectCodegenPass and lib/compiler/CodeGen/LLVMCodegenPass, which write a module
-- to a file, and lib/compiler/llvm/Passes/UnifyFnAttrs.cpp. The builtins are final when they run, so
-- that `getModule` hands out the LLVM module.
pub mod Written
use tyr.Prelude.{
  codes, Bool, true, false, Option, none, some, [], ◌∷◌, ◌++◌, not, ◌||◌, if◌then◌else◌, ℕ, List,
}
use tyr.Ir.{Name, Field, Struct}
use tyr.Passes.{Pass}
use tyr.Llvm.{with_file, World, Llvm}

abbrev pub target_cpu : Name
target_cpu = codes "target-cpu"

abbrev pub target_features : Name
target_features = codes "target-features"

-- ".o" and ".bc"
abbrev pub object_extension : Name
object_extension = codes ".o"

abbrev pub bitcode_extension : Name
bitcode_extension = codes ".bc"

-- A pass that overrides `runOnModule` alone.
abbrev pub module_pass : {S : Type 0} → (S → Bool × S) → Pass S
module_pass run = record {
  run_on_field = λ f s. (true, s);
  run_on_struct = λ x s. (true, s);
  run_on_module = run;
}

module _ {M T F : Type 0} (llvm : Llvm M T F) where
  -- `UnifyFnAttrs::runOnModule`
  unfoldable pub unify_fn_attrs : (cpu features : Name) → M → M
  unify_fn_attrs cpu features m =
      llvm.each_function
        (λ f. llvm.add_fn_attr target_features features (
          llvm.remove_fn_attr target_features
            (llvm.add_fn_attr target_cpu cpu (llvm.remove_fn_attr target_cpu f))))
        m

  abbrev pub output_file : (output_dir extension : Name) → M → Name
  output_file output_dir extension m =
      llvm.make_absolute (llvm.append_path output_dir (llvm.name_of m ++ extension))

  abbrev pub emit_object : T → (cpu features : Name) → M → M × List ℕ
  emit_object t cpu features m = llvm.emit t (llvm.optimize t false (unify_fn_attrs cpu features m))

  -- `ObjectCodegenPass::runOnModule`, from the target machine on.
  unfoldable pub write_object_file : (cpu features output_dir : Name) → T → World M → Bool × World M
  unfolding unify_fn_attrs
  write_object_file cpu features output_dir t w =
      let parent = llvm.set_data_layout t w.parent in
      let filename = output_file output_dir object_extension parent in
      let out = emit_object t cpu features parent in
      if not (llvm.may_write filename)
      then (false, record { parent = parent; files = w.files })
      else if llvm.cannot_emit t
      then (false, record { parent = parent; files = with_file filename [] w.files })
      else (
        not (llvm.is_broken out.0),
        record { parent = out.0; files = with_file filename out.1 w.files },
      )

  -- `LLVMCodegenPass::runOnModule`, from the target machine on.
  unfoldable pub write_bitcode_file : (output_dir : Name) → T → World M → Bool × World M
  write_bitcode_file output_dir t w =
      let parent = llvm.set_data_layout t w.parent in
      let filename = output_file output_dir bitcode_extension parent in
      let optimized = llvm.optimize t true parent in
      if llvm.is_broken optimized || not (llvm.may_write filename)
      then (false, record { parent = optimized; files = w.files })
      else (
        true,
        record {
          parent = optimized;
          files = with_file filename (llvm.bitcode_of optimized) w.files;
        },
      )

  abbrev on_target :
      (cpu features : Name) → (T → World M → Bool × World M) → World M → Bool × World M
  on_target cpu features write w =
      let triple = llvm.target_triple_of w.parent in
      if llvm.has_target triple
      then write (llvm.target_machine triple cpu features) w
      else (false, w)

  -- `createObjectCodegenPass`
  unfoldable pub object_codegen_pass : (cpu features output_dir : Name) → Pass (World M)
  unfolding write_object_file
  object_codegen_pass cpu features output_dir =
      module_pass (on_target cpu features (write_object_file cpu features output_dir))

  -- `createLLVMCodegenPass`
  unfoldable pub llvm_codegen_pass : (cpu features output_dir : Name) → Pass (World M)
  unfolding write_bitcode_file
  llvm_codegen_pass cpu features output_dir =
      module_pass (on_target cpu features (write_bitcode_file output_dir))
