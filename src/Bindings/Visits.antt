-- ===== src/Bindings/Visits.antt =====
-- What the passes for the bindings do to a module.
use tyr.Prelude.{ℕ, ◌≡◌, true, List}
use tyr.Ir.{Name, Struct}
use tyr.Passes.{visit}
use tyr.Llvm.{World, Llvm}
use tyr.Output.Written.{visit-module_pass}
use tyr.Bindings.{with_header, c_codegen_pass, with_script, rust_codegen_pass}

module _ {M T F : Type 0} (llvm : Llvm M T F) (ss : List Struct) (output_dir : Name) (options : ℕ)
    (xs : List Struct) (w : World M) where
  pub visit-c_codegen_pass : visit (c_codegen_pass llvm ss output_dir options) xs w ≡ (
    true,
    record { parent = w.parent; files = with_header llvm ss output_dir options w.parent w.files },
  )
  unfolding c_codegen_pass
  visit-c_codegen_pass = visit-module_pass _ xs w

  pub visit-rust_codegen_pass :
      (install_path : Name)
      → visit (rust_codegen_pass llvm install_path ss output_dir options) xs w ≡ (
        true,
        record {
          parent = w.parent;
          files =
              with_script llvm install_path output_dir w.parent
                (with_header llvm ss output_dir options w.parent w.files);
        },
      )
  unfolding rust_codegen_pass
  visit-rust_codegen_pass install_path = visit-module_pass _ xs w
