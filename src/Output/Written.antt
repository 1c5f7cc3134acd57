-- ===== src/Output/Written.antt =====
-- What the passes that write a module have done when they answer true.
use tyr.Prelude.{ℕ, ◌≡◌, refl, inl, inr, Bool, true, false, not, List, [], ◌∷◌, Bool-cases}
use tyr.Ir.{Name, Field, Struct}
use tyr.Passes.{visit_struct_fields, visit_structs, visit}
use tyr.Llvm.{with_file, World, Llvm}
use tyr.Output.{
  module_pass, on_target, output_file, object_extension, bitcode_extension, emit_object,
  write_object_file, write_bitcode_file, object_codegen_pass, llvm_codegen_pass,
}

module _ {S : Type 0} (run : S → Bool × S) where
  fields-module_pass :
      (fs : List Field) (s : S) → visit_struct_fields (module_pass run) fs true s ≡ (true, s)
  unfolding visit_struct_fields
  fields-module_pass [] s = refl
  fields-module_pass (f ∷ fs) s = fields-module_pass fs s

  structs-module_pass :
      (xs : List Struct) (s : S) → visit_structs (module_pass run) xs true s ≡ (true, s)
  unfolding visit_structs
  structs-module_pass [] s = refl
  structs-module_pass (x ∷ xs) s = rw (fields-module_pass x.fields s) (structs-module_pass xs s)

  pub visit-module_pass : (xs : List Struct) (s : S) → visit (module_pass run) xs s ≡ run s
  unfolding visit
  visit-module_pass xs s = rw (structs-module_pass xs s) refl

not-true : (b : Bool) → not b ≡ true → b ≡ false
not-true true h = cc h
not-true false h = refl

-- A module and the text that it has in the file.
module _ {M T F : Type 0} (llvm : Llvm M T F) where
  -- The target of the module's triple is found, and `t` is its machine; the module is what `output` makes of it, and not broken; and the file
  -- holds its text.
  abbrev pub IsWritten :
      (cpu features : Name) → (T → M → M × List ℕ) → (M → Name) → (w w' : World M) → Type 0
  IsWritten cpu features output filename w w' =
      (t : T) × (llvm.has_target (llvm.target_triple_of w.parent) ≡ true)
      × (t ≡ llvm.target_machine (llvm.target_triple_of w.parent) cpu features)
      × (w'.parent ≡ (output t (llvm.set_data_layout t w.parent)).0)
      × (llvm.is_broken w'.parent ≡ false)
      × (w'.files
          ≡ with_file (filename (llvm.set_data_layout t w.parent))
              (output t (llvm.set_data_layout t w.parent)).1 w.files)

  abbrev pub bitcode : T → M → M × List ℕ
  bitcode t m = (llvm.optimize t true m, llvm.bitcode_of (llvm.optimize t true m))

  module _ (cpu features output_dir : Name) (xs : List Struct) (w : World M) where
    -- What is promised of a run of the pass.
    abbrev Promised : (T → M → M × List ℕ) → (extension : Name) → Bool × World M → Type 0
    Promised output extension r =
        r.0 ≡ true → IsWritten cpu features output (output_file llvm output_dir extension) w r.1

    on_target-cases :
        (P : Bool × World M → Type 0) (write : T → World M → Bool × World M)
        → P (false, w)
        → ((t : T)
            → llvm.has_target (llvm.target_triple_of w.parent) ≡ true
            → t ≡ llvm.target_machine (llvm.target_triple_of w.parent) cpu features
            → P (write t w))
        → P (on_target llvm cpu features write w)
    on_target-cases P write missing found =
        elim (Bool-cases (llvm.has_target (llvm.target_triple_of w.parent))) [
          | inr e ↦ rw (on_target, e) missing
          | inl e ↦ rw (on_target, e) (found _ e refl)
        ]

    write_object_file-Promised :
        (t : T)
        → llvm.has_target (llvm.target_triple_of w.parent) ≡ true
        → t ≡ llvm.target_machine (llvm.target_triple_of w.parent) cpu features
        → Promised
            (λ t. emit_object llvm t cpu features)
            object_extension
            (write_object_file llvm cpu features output_dir t w)
    unfolding write_object_file
    write_object_file-Promised t found machine =
        let parent = llvm.set_data_layout t w.parent in
        let filename = output_file llvm output_dir object_extension parent in
        elim (Bool-cases (llvm.may_write filename)) [
          | inr e ↦ rw e λ h. cc h
          | inl e ↦ elim (Bool-cases (llvm.cannot_emit t)) [
            | inl e' ↦ rw (e, e') λ h. cc h
            | inr e' ↦ rw (e, e') λ h. (t, found, machine, refl, not-true _ h, refl)
          ]
        ]

    write_bitcode_file-Promised :
        (t : T)
        → llvm.has_target (llvm.target_triple_of w.parent) ≡ true
        → t ≡ llvm.target_machine (llvm.target_triple_of w.parent) cpu features
        → Promised bitcode bitcode_extension (write_bitcode_file llvm output_dir t w)
    unfolding write_bitcode_file
    write_bitcode_file-Promised t found machine =
        let parent = llvm.set_data_layout t w.parent in
        let filename = output_file llvm output_dir bitcode_extension parent in
        elim (Bool-cases (llvm.is_broken (llvm.optimize t true parent))) [
          | inl e ↦ rw e λ h. cc h
          | inr e ↦ elim (Bool-cases (llvm.may_write filename)) [
            | inr e' ↦ rw (e, e') λ h. cc h
            | inl e' ↦ rw (e, e') λ h. (t, found, machine, refl, e, refl)
          ]
        ]

    pub object_codegen_pass-IsWritten :
        (visit (object_codegen_pass llvm cpu features output_dir) xs w).0 ≡ true
        → IsWritten cpu features
            (λ t. emit_object llvm t cpu features)
            (output_file llvm output_dir object_extension)
            w
            (visit (object_codegen_pass llvm cpu features output_dir) xs w).1
    unfolding object_codegen_pass
    object_codegen_pass-IsWritten =
        let run = on_target llvm cpu features (write_object_file llvm cpu features output_dir) in
        rw (visit-module_pass run xs w) (
          on_target-cases (Promised (λ t. emit_object llvm t cpu features) object_extension)
            (write_object_file llvm cpu features output_dir) (λ h. cc h) write_object_file-Promised)

    pub llvm_codegen_pass-IsWritten :
        (visit (llvm_codegen_pass llvm cpu features output_dir) xs w).0 ≡ true
        → IsWritten cpu features bitcode
            (output_file llvm output_dir bitcode_extension)
            w
            (visit (llvm_codegen_pass llvm cpu features output_dir) xs w).1
    unfolding llvm_codegen_pass
    llvm_codegen_pass-IsWritten =
        let run = on_target llvm cpu features (write_bitcode_file llvm output_dir) in
        rw (visit-module_pass run xs w) (
          on_target-cases (Promised bitcode bitcode_extension) (write_bitcode_file llvm output_dir)
            (λ h. cc h) write_bitcode_file-Promised)
