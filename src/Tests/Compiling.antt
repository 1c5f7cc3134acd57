-- ===== src/Tests/Compiling.antt =====
-- A run of the compiler, over modules that are lists of characters with a name and a triple.
use tyr.Prelude.{◌≡◌, codes, ℕ, refl, true, false, none, some, List, [], ◌∷◌, ◌++◌, if◌then◌else◌}
use tyr.Ir.{Name}
use tyr.Module.{crash, same_name}
use tyr.Module.Link.{link_runtime_modules, file_helper_file, base64_file}
use tyr.Passes.{Pass}
use tyr.Llvm.{Files, World, Llvm}
use tyr.Output.{module_pass}
use tyr.Frontend.{Options, Setup}
use tyr.Tests.{split_spaces, layout_of}

-- A module: its name, its triple and its code.
record Image : Type 0 where
  pub name : Name
  pub triple : Name
  pub code : List ℕ

abbrev with_code : List ℕ → Image → Image
with_code bs m = record { name = m.name; triple = m.triple; code = m.code ++ bs }

abbrev toy : Llvm Image ℕ Name
toy = record {
  split_spaces = split_spaces;
  string_map_order = λ ss. ss;
  stem = λ n. n;
  append_path = λ d n. d ++ (47 ∷ n);
  make_absolute = λ n. 47 ∷ n;
  may_write = λ n. true;
  new_module = λ n. record { name = n; triple = []; code = [] };
  name_of = λ m. m.name;
  target_triple_of = λ m. m.triple;
  data_layout_of = λ m. layout_of true;
  set_source_file_name = λ n m. m;
  set_target_triple = λ t m. record { name = m.name; triple = t; code = m.code };
  set_data_layout = λ t m. m;
  get_or_insert_function = λ n r args m. with_code n m;
  each_function = λ f m. record { name = m.name; triple = m.triple; code = f m.code };
  remove_fn_attr = λ k f. f;
  add_fn_attr = λ k v f. f ++ v;
  parse_bitcode = λ bs. some (record { name = []; triple = []; code = bs });
  link_in_module = λ outside m. (false, with_code outside.code m);
  has_target = λ t. true;
  target_machine = λ t c f. 0;
  optimize = λ t b m. m;
  cannot_emit = λ t. false;
  emit = λ t m. (m, m.code);
  is_broken = λ m. false;
  bitcode_of = λ m. m.code;
}

abbrev run_and : List ℕ → Pass (World Image)
run_and bs = module_pass λ w. (true, record { parent = with_code bs w.parent; files = w.files })

abbrev setup : Setup Image
setup = record { llvm_ir_gen_pass = λ m. run_and (1 ∷ 2 ∷ []); install_path = codes "/usr/local" }

abbrev source_name : Name
source_name = codes "p.tyr"

abbrev source_text : List ℕ
source_text = codes "struct p\nint16 n\n}\n"

-- The file and the two files of the runtime.
abbrev disk : Files
disk n =
    if same_name n source_name
    then some source_text
    else if same_name n (47 ∷ 114 ∷ 47 ∷ file_helper_file)
    then some (7 ∷ [])
    else if same_name n (47 ∷ 114 ∷ 47 ∷ base64_file)
    then some (8 ∷ [])
    else none

abbrev options : Options
options = record {
  file_name = source_name;
  output_dir = 111 ∷ [];
  module_name = [];
  bind_c = true;
  bind_rust = true;
  runtime_opts = 3;
  malloc_name = 109 ∷ [];
  realloc_name = 114 ∷ [];
  free_name = 102 ∷ [];
  target = 120 ∷ [];
  cpu = 99 ∷ [];
  features = [];
  emit_llvm = false;
}

-- A file of the runtime that is missing reaches `linkInModule` as a null pointer.
link_runtime_modules_lem :
    link_runtime_modules toy (λ n. none) [] 1 (toy.new_module (codes "m")) ≡ crash
unfolding link_runtime_modules
link_runtime_modules_lem = refl
