-- ===== src/Passes/Answers.antt =====
-- What `Module::visit` and `PassManager::runOnModule` call, and what they answer.
use mathlib.Core.Path.{ap₂}
use tyr.Prelude.{◌≡◌, refl, sym, ap, ◌∙◌, Bool, true, false, ◌&&◌, List, [], ◌∷◌, ◌++◌, map}
use tyr.Ir.{Field, Struct}
use tyr.Passes.{Pass, visit_struct_fields, visit_structs, visit, run_passes}

-- A call of one of a pass's functions.
pub data Call : Type 0 where
  on_field : Field → Call
  on_struct : Struct → Call
  on_module : Call

abbrev pub conj : List Bool → Bool
conj [] = true
conj (b ∷ bs) = b && conj bs

&&-assoc : (a b c : Bool) → ((a && b) && c) ≡ (a && (b && c))
&&-assoc true b c = refl
&&-assoc false b c = refl

&&-true : (a : Bool) → (a && true) ≡ a
&&-true true = refl
&&-true false = refl

module _ {S : Type 0} (p : Pass S) where
  abbrev pub call : Call → S → Bool × S
  call (on_field f) s = p.run_on_field f s
  call (on_struct x) s = p.run_on_struct x s
  call on_module s = p.run_on_module s

  -- The calls in order, whatever they answer, with their answers.
  abbrev pub run_calls : List Call → S → List Bool × S
  run_calls [] s = ([], s)
  run_calls (c ∷ cs) s =
      ((call c s).0 ∷ (run_calls cs (call c s).1).0, (run_calls cs (call c s).1).1)

-- Each struct's fields in order and then the struct, and the module last.
abbrev pub struct_calls : List Struct → List Call
struct_calls [] = on_module ∷ []
struct_calls (x ∷ xs) = map on_field x.fields ++ (on_struct x ∷ struct_calls xs)

module _ {S : Type 0} (p : Pass S) where
  -- What is left of a visit after the fields.
  fields-run_calls :
      (fs : List Field) (rest : List Call) (b : Bool) (s : S)
      → ((b && conj (run_calls p (map on_field fs ++ rest) s).0) ≡ (
          (visit_struct_fields p fs b s).0
          && conj (run_calls p rest (visit_struct_fields p fs b s).1).0))
        × ((run_calls p (map on_field fs ++ rest) s).1
            ≡ (run_calls p rest (visit_struct_fields p fs b s).1).1)
  unfolding visit_struct_fields
  fields-run_calls [] rest b s = (refl, refl)
  fields-run_calls (f ∷ fs) rest b s =
      let r = p.run_on_field f s in
      let ih = fields-run_calls fs rest (b && r.0) r.1 in (sym (&&-assoc b r.0 _) ∙ ih.0, ih.1)

  structs-run_calls :
      (xs : List Struct) (b : Bool) (s : S)
      → ((b && conj (run_calls p (struct_calls xs) s).0)
          ≡ ((visit_structs p xs b s).0 && (p.run_on_module (visit_structs p xs b s).1).0))
        × ((run_calls p (struct_calls xs) s).1 ≡ (p.run_on_module (visit_structs p xs b s).1).1)
  unfolding visit_structs
  structs-run_calls [] b s = (ap (◌&&◌ b) (&&-true (p.run_on_module s).0), refl)
  structs-run_calls (x ∷ xs) b s =
      let r = visit_struct_fields p x.fields b s in
      let q = p.run_on_struct x r.1 in
      let first = fields-run_calls x.fields (on_struct x ∷ struct_calls xs) b s in
      let ih = structs-run_calls xs (r.0 && q.0) q.1 in
      (first.0 ∙ sym (&&-assoc r.0 q.0 _) ∙ ih.0, first.1 ∙ ih.1)

  -- `Module::visit` makes all calls in order, whether or not earlier ones have failed, and answers
  -- true exactly if all of them do.
  pub visit-run_calls :
      (xs : List Struct) (s : S)
      → visit p xs s
        ≡ (conj (run_calls p (struct_calls xs) s).0, (run_calls p (struct_calls xs) s).1)
  unfolding visit
  visit-run_calls xs s =
      let h = structs-run_calls xs true s in ap₂ (λ a b. (a, b)) (sym h.0) (sym h.1)

conj-append : (us bs : List Bool) → conj (us ++ bs) ≡ (conj us && conj bs)
conj-append [] bs = refl
conj-append (a ∷ us) bs = ap (◌&&◌ a) (conj-append us bs) ∙ sym (&&-assoc a (conj us) (conj bs))

module _ {S : Type 0} (xs : List Struct) where
  -- The calls that all passes make, one pass behind the other, with their answers.
  abbrev pub run_pass_calls : List (Pass S) → S → List Bool × S
  run_pass_calls [] s = ([], s)
  run_pass_calls (p ∷ ps) s =
      let r = run_calls p (struct_calls xs) s in
      (r.0 ++ (run_pass_calls ps r.1).0, (run_pass_calls ps r.1).1)

  pub passes-run_calls :
      (ps : List (Pass S)) (b : Bool) (s : S)
      → run_passes ps xs b s ≡ ((b && conj (run_pass_calls ps s).0), (run_pass_calls ps s).1)
  unfolding run_passes
  passes-run_calls [] b s = ap (λ a. (a, s)) (sym (&&-true b))
  passes-run_calls (p ∷ ps) b s =
      let r = run_calls p (struct_calls xs) s in
      ap (λ (v : Bool × S). run_passes ps xs (b && v.0) v.1) (visit-run_calls p xs s)
      ∙ passes-run_calls ps (b && conj r.0) r.1
      ∙ ap (λ a. (a, (run_pass_calls ps r.1).1))
          (&&-assoc b (conj r.0) _ ∙ ap (◌&&◌ b) (sym (conj-append r.0 _)))

  -- `PassManager::runOnModule` runs every pass over the whole module, in the order in which they were
  -- registered and whether or not earlier ones have failed. It calls a pass for the fields of each
  -- struct and then for that struct, one struct after the other, and for the module at the end. It
  -- answers true exactly if every call of every pass does.
  pub run_passes-run_pass_calls :
      (ps : List (Pass S)) (s : S)
      → run_passes ps xs true s ≡ (conj (run_pass_calls ps s).0, (run_pass_calls ps s).1)
  run_passes-run_pass_calls ps s = passes-run_calls ps true s
