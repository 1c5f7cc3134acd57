-- ===== src/Llvm.antt =====
-- What lib/compiler/CodeGen and lib/tools/tyrc call of LLVM and of the machine: parameters, with the state that
-- they work on.
use tyr.Prelude.{ℕ, Bool, Option, some, List, if◌then◌else◌}
use tyr.Ir.{Name, Ty, Struct}
use tyr.Layout.{DataLayout}
use tyr.Module.{same_name}

-- The contents of files by name.
abbrev pub Files : Type 0
Files = Name → Option (List ℕ)

abbrev pub with_file : Name → List ℕ → Files → Files
with_file name bs fs = λ n. if same_name name n then some bs else fs n

-- The LLVM module of a `Module`, `m_parent_`, and the files around it.
pub record World (M : Type 0) : Type 0 where
  pub parent : M
  pub files : Files

-- LLVM, over modules, target machines and functions.
pub record Llvm (M T F : Type 0) : Type 0 where
  -- `StringRef::split` at spaces.
  pub split_spaces : Name → List Name
  -- The order in which the iterator of a `StringMap` hands out structs; `Module` has its newest first.
  pub string_map_order : List Struct → List Struct
  pub stem : Name → Name
  pub append_path : Name → Name → Name
  pub make_absolute : Name → Name
  -- Whether `raw_fd_ostream` opens a file.
  pub may_write : Name → Bool
  pub new_module : Name → M
  pub name_of : M → Name
  pub target_triple_of : M → Name
  pub data_layout_of : M → DataLayout
  pub set_source_file_name : Name → M → M
  pub set_target_triple : Name → M → M
  -- A target machine's layout, for the module.
  pub set_data_layout : T → M → M
  -- `getOrInsertFunction`; no result is void.
  pub get_or_insert_function : (name : Name) (result : Option Ty) (args : List Ty) → M → M
  -- A change of each function.
  pub each_function : (F → F) → M → M
  pub remove_fn_attr : Name → F → F
  pub add_fn_attr : (key value : Name) → F → F
  pub parse_bitcode : List ℕ → Option M
  -- `linkInModule`, which answers whether it failed.
  pub link_in_module : (outside parent : M) → Bool × M
  -- Whether `lookupTarget` finds the target of a triple.
  pub has_target : (triple : Name) → Bool
  -- `createTargetMachine` of a target that is found. It is taken to be no null pointer, which it is only
  -- for a target without a machine: `InitializeAllTargets` gives one to each that LLVM was built with.
  pub target_machine : (triple cpu features : Name) → T
  -- `populateModulePassManager` at levels 2, with or without the preparation for link time.
  pub optimize : T → (prepare_for_lto : Bool) → M → M
  -- `addPassesToEmitFile`, which answers whether it failed.
  pub cannot_emit : T → Bool
  pub emit : T → M → M × List ℕ
  -- `verifyModule`, which answers whether the module is broken.
  pub is_broken : M → Bool
  pub bitcode_of : M → List ℕ
