-- ===== src/Module/Link.antt =====
-- The runtime's bitcode files and the functions behind the builtins, of lib/compiler/CodeGen/Module.cpp.
use Prim.Native.Nat.{bit_and}
use tyr.Prelude.{
  codes, ℕ, ◌/◌, Bool, true, Option, none, some, List, [], ◌∷◌, ◌++◌, ◌==◌, if◌then◌else◌,
}
use tyr.Ir.{Name, Ty, int_type, pointer_to, int64}
use tyr.Module.{Module, Builtin, lookup_builtin, set_builtin_name, Attempt, good, bad, crash}
use tyr.Llvm.{Files, Llvm}

abbrev pub file_helper_file : Name
file_helper_file = codes "tyr-rt-file.bc"

abbrev pub base64_file : Name
base64_file = codes "tyr-rt-base64.bc"

abbrev pub malloc_key : Name
malloc_key = codes "malloc"

abbrev pub realloc_key : Name
realloc_key = codes "realloc"

abbrev pub free_key : Name
free_key = codes "free"

abbrev int8_ptr : Ty
int8_ptr = pointer_to (int_type 8)

-- `rt::isFileEnabled` and `rt::isB64Enabled`
unfoldable pub is_file_enabled : ℕ → Bool
is_file_enabled options = bit_and options 1 == 1

unfoldable pub is_b64_enabled : ℕ → Bool
is_b64_enabled options = bit_and options 2 / 2 == 1

module _ {M T F : Type 0} (llvm : Llvm M T F) where
  -- `finalizeBuiltins`: the declarations in the LLVM module, and the module.
  unfoldable pub declare_builtins : List Builtin → M → M
  declare_builtins bs parent =
      llvm.get_or_insert_function (lookup_builtin bs free_key) none (int8_ptr ∷ []) (
        llvm.get_or_insert_function (lookup_builtin bs realloc_key) (some int8_ptr)
          (int8_ptr ∷ int64 ∷ [])
          (llvm.get_or_insert_function (lookup_builtin bs malloc_key) (some int8_ptr) (int64 ∷ [])
            parent))

  -- `getModuleFromFile`; a null pointer is `none`.
  unfoldable pub get_module_from_file : Files → (filename triple : Name) → Option M
  get_module_from_file files filename triple = elim (files filename) [
    | none ↦ none
    | some bs ↦ elim (llvm.parse_bitcode bs) [
      | none ↦ none
      | some outside ↦ some (llvm.set_target_triple triple outside)
    ]
  ]

  -- The loop over the outside modules; `linkInModule` works through the pointer that it is given.
  unfoldable pub link_modules : List (Option M) → M → Attempt M
  link_modules [] parent = good parent
  link_modules (none ∷ oms) parent = crash
  link_modules (some outside ∷ oms) parent =
      let r = llvm.link_in_module outside parent in
      let rest = link_modules oms r.1 in if r.0 then bad else rest

  abbrev pub outside_module : Files → (directory filename : Name) → M → Option M
  outside_module files directory filename parent =
      get_module_from_file files (llvm.make_absolute (llvm.append_path directory filename))
        (llvm.target_triple_of parent)

  abbrev pub outside_modules : Files → (directory : Name) → (options : ℕ) → M → List (Option M)
  outside_modules files directory options parent =
      (if is_file_enabled options
        then outside_module files directory file_helper_file parent ∷ []
        else [])
      ++ (if is_b64_enabled options
          then outside_module files directory base64_file parent ∷ []
          else [])

  -- `linkRuntimeModules`
  unfoldable pub link_runtime_modules : Files → (directory : Name) → (options : ℕ) → M → Attempt M
  unfolding link_modules get_module_from_file is_file_enabled is_b64_enabled
  link_runtime_modules files directory options parent =
      link_modules (outside_modules files directory options parent) parent

-- What `finalizeBuiltins` makes of the module itself.
abbrev pub finalize_builtins : Module → Module
finalize_builtins m = record {
  structs = m.structs;
  builtins = m.builtins;
  builtins_finalized = true;
}

-- `setDefaultBuiltins`, but for the declarations.
unfoldable set_default_builtins : Module → Module
unfolding set_builtin_name
set_default_builtins m = finalize_builtins (record {
  structs = m.structs;
  builtins =
      set_builtin_name
        (set_builtin_name (set_builtin_name m.builtins malloc_key malloc_key) realloc_key
          realloc_key)
        free_key free_key;
  builtins_finalized = m.builtins_finalized;
})
