-- ===== src/Passes.antt =====
-- `Module::visit` (lib/compiler/CodeGen/Module.cpp) and lib/compiler/CodeGen/PassManager.cpp. A pass is
-- what its virtual functions do to some state, each with its answer.
pub mod Answers
use tyr.Prelude.{Bool, true, ◌&&◌, List, [], ◌∷◌}
use tyr.Ir.{Field, Struct}

-- `ir::Pass`
pub record Pass (S : Type 0) : Type 0 where
  pub run_on_field : Field → S → Bool × S
  pub run_on_struct : Struct → S → Bool × S
  pub run_on_module : S → Bool × S

module _ {S : Type 0} where
  -- The loop over the fields of a struct; `retval` is the answer so far.
  unfoldable pub visit_struct_fields : Pass S → List Field → Bool → S → Bool × S
  visit_struct_fields p [] retval s = (retval, s)
  visit_struct_fields p (f ∷ fs) retval s =
      let r = p.run_on_field f s in visit_struct_fields p fs (retval && r.0) r.1

  unfoldable pub visit_structs : Pass S → List Struct → Bool → S → Bool × S
  unfolding visit_struct_fields
  visit_structs p [] retval s = (retval, s)
  visit_structs p (x ∷ xs) retval s =
      let r = visit_struct_fields p x.fields retval s in
      let q = p.run_on_struct x r.1 in visit_structs p xs (r.0 && q.0) q.1

  -- `Module::visit` of the structs in the order of the module's iterators
  unfoldable pub visit : Pass S → List Struct → S → Bool × S
  unfolding visit_structs
  visit p xs s =
      let r = visit_structs p xs true s in let q = p.run_on_module r.1 in (r.0 && q.0, q.1)

  -- `PassManager::runOnModule`
  unfoldable pub run_passes : List (Pass S) → List Struct → Bool → S → Bool × S
  unfolding visit
  run_passes [] xs retval s = (retval, s)
  run_passes (p ∷ ps) xs retval s = let r = visit p xs s in run_passes ps xs (retval && r.0) r.1
