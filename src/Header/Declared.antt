-- ===== src/Header/Declared.antt =====
-- The header of CCodegenPass.cpp against the functions of LLVMIRGenPass.cpp.
use mathlib.Core.Path.{subst}
use tyr.Prelude.{
  ℕ, ◌+◌, ◌%◌, ◌^◌, map, some, ◌≡◌, refl, ap, ◌∙◌, Bool, true, false, not, List, [], ◌∷◌, ◌++◌, All,
  Among, first, later, All-append, All-map, Among-append_left, Among-append_right, Bool-cases, inl,
  inr, append-nil,
}
use tyr.Ir.{Name, Field, Struct}
use tyr.Ir.Build.{Sorter, count_suffix, get_field_size, set_offsets, finalize_fields}
use tyr.Ir.Links.{CountOf, uncounted, counted, Built, Built-IsLinked}
use tyr.Ir.Apart.{Among-All}
use tyr.Layout.{DataLayout}
use tyr.Header.{
  get_prefix, set_prefix, item_suffix, field_function, underscore, when, run_on_field,
  run_on_struct, visit_fields, have_parents, no_structs, emitted, field_header, fields_header,
  declared, emitted_parameters, declared_parameters,
}

-- A function of a field that is emitted is one of the struct's.
Among-visit_fields :
    {n : Name} {f : Field} {fs : List Field} (s : Name)
    → Among f fs
    → Among n (run_on_field s f)
    → Among n (visit_fields s fs)
unfolding visit_fields
Among-visit_fields s first m = Among-append_left _ m
Among-visit_fields s (later {x} k) m =
    Among-append_right (run_on_field s x) (Among-visit_fields s k m)

All-when :
    (P : Name → Type 0) (b : Bool) (ns : List Name) → (b ≡ true → All P ns) → All P (when b ns)
All-when P true ns h = h refl
All-when P false ns h = tt

module _ (s : Name) (f : Field) where
  getter-emitted : Among (field_function get_prefix s f.name []) (run_on_field s f)
  unfolding run_on_field
  getter-emitted = first

  item_getter-emitted :
      f.is_repeated ≡ true
      → Among (field_function get_prefix s f.name item_suffix) (run_on_field s f)
  unfolding run_on_field
  item_getter-emitted e = rw e (later first)

  setter-emitted :
      f.is_mutable ≡ true → Among (field_function set_prefix s f.name []) (run_on_field s f)
  unfolding run_on_field
  setter-emitted e = later (Among-append_right (when f.is_repeated _) (rw e first))

  item_setter-emitted :
      f.is_repeated ≡ true
      → Among (field_function set_prefix s f.name item_suffix) (run_on_field s f)
  unfolding run_on_field
  item_setter-emitted e = later (
      Among-append_right (when f.is_repeated _)
        (Among-append_right (when f.is_mutable _) (rw e first)))

-- Every function that the header declares for a field is emitted.
field_header-emitted :
    (s : Name) (fs : List Field) (f : Field)
    → Among f fs
    → CountOf fs f
    → All (λ n. Among n (visit_fields s fs)) (field_header s f)
unfolding field_header
field_header-emitted s fs f m count =
    let P : Name → Type 0 = λ n. Among n (visit_fields s fs) in
    All-when P (not f.is_count) _ λ _. (
      Among-visit_fields s m (getter-emitted s f),
      All-append P (when f.is_mutable _) _
          (All-when P f.is_mutable _ λ mut. (Among-visit_fields s m (setter-emitted s f mut), tt))
          (All-when P f.is_repeated _ λ rep. (
            Among-visit_fields s m (item_getter-emitted s f rep),
            All-append P (when f.is_mutable _) _
                (All-when P f.is_mutable _
                  λ mut. (Among-visit_fields s m (item_setter-emitted s f rep), tt))
                (counter count rep, tt),
          )),
    )
  where
    counter :
        CountOf fs f
        → f.is_repeated ≡ true
        → Among (field_function get_prefix s f.name count_suffix) (visit_fields s fs)
    counter (uncounted r e) rep = cc (r, rep)
    counter (counted c m' a b d e g h i j named) rep =
        subst (λ k. Among (get_prefix ++ (s ++ (underscore ++ k))) (visit_fields s fs))
          (append-nil c.name ∙ named) (Among-visit_fields s m' (getter-emitted s c))

fields_header-emitted :
    (s : Name) (all fs : List Field)
    → All (λ f. Among f all) fs
    → All (CountOf all) fs
    → All (λ n. Among n (visit_fields s all)) (fields_header s fs)
unfolding fields_header
fields_header-emitted s all [] inside count = tt
fields_header-emitted s all (f ∷ fs) inside count =
    All-append (λ n. Among n (visit_fields s all)) (field_header s f) (fields_header s fs)
      (field_header-emitted s all f inside.0 count.0)
      (fields_header-emitted s all fs inside.1 count.1)

have_parents-set_offsets :
    (k : ℕ) (fs : List Field) → have_parents (map (λ f. f.type) fs) (set_offsets k fs) ≡ true
unfolding have_parents
have_parents-set_offsets k [] = refl
have_parents-set_offsets k (f ∷ fs) = have_parents-set_offsets ((k + 1) % 2 ^ 32) fs

-- The functions of a struct whose fields have just been made final.
pub emitted-finalize_fields :
    (so : Sorter) (dl : DataLayout) (type_name : Name) (s : Struct)
    → no_structs (finalize_fields so dl s).fields ≡ true
    → emitted type_name (finalize_fields so dl s)
      ≡ some (visit_fields type_name (finalize_fields so dl s).fields ++ run_on_struct s.name)
unfolding emitted finalize_fields
emitted-finalize_fields so dl type_name s h =
    rw (have_parents-set_offsets 0 (so.sort (get_field_size dl) s.fields), h)

-- Every function that the header declares for a struct, one that the operations of `Struct` have
-- made, is among those of its fields and its own, if its type has its name.
pub declared-emitted :
    {so : Sorter} {dl : DataLayout} (s : Struct)
    → Built so dl s
    → All (λ n. Among n (visit_fields s.name s.fields ++ run_on_struct s.name)) (declared s)
unfolding declared run_on_struct
declared-emitted s built =
    let all : List Name = visit_fields s.name s.fields in
    All-append (λ n. Among n (all ++ run_on_struct s.name)) (fields_header s.name s.fields) _
      (All-map (fields_header s.name s.fields) (λ n m. Among-append_left _ m)
        (fields_header-emitted s.name s.fields s.fields (Among-All s.fields)
          (Built-IsLinked built).count))
      (
        Among-append_right all first,
        (
          Among-append_right all (later (later (later first))),
          (
            Among-append_right all (later first),
            (Among-append_right all (later (later first)), tt),
          ),
        ),
      )

-- Each repeated field stands right behind its count.
pub data Adjacent : List Field → Type 0 where
  adjacent_none : Adjacent []
  adjacent_value :
      {f : Field} {fs : List Field}
      → f.is_count ≡ false
      → f.is_repeated ≡ false
      → Adjacent fs
      → Adjacent (f ∷ fs)
  adjacent_array :
      {c f : Field} {fs : List Field}
      → c.is_count ≡ true
      → f.is_count ≡ false
      → f.is_repeated ≡ true
      → c.is_mutable ≡ f.is_mutable
      → c.name ≡ f.name ++ count_suffix
      → Adjacent fs
      → Adjacent (c ∷ f ∷ fs)

-- If the order of the fields has left each repeated field behind its count, the constructor's
-- parameters in the header are those of the constructor, in the same order.
pub parameters-Adjacent :
    (fs : List Field) → Adjacent fs → declared_parameters fs ≡ emitted_parameters fs
unfolding declared_parameters emitted_parameters
parameters-Adjacent [] adjacent_none = refl
parameters-Adjacent (f ∷ fs) (adjacent_value c r a) =
    let ih = parameters-Adjacent fs a in
    elim (Bool-cases f.is_mutable) [
      | inl m ↦ simp (c, r, m) ih
      | inr m ↦ simp (c, r, m) (ap (◌∷◌ f.name) ih)
    ]
parameters-Adjacent (c ∷ f ∷ fs) (adjacent_array is no_count r same named a) =
    let ih = parameters-Adjacent fs a in
    elim (Bool-cases f.is_mutable) [
      | inl m ↦ simp (is, no_count, r, same, m) ih
      | inr m ↦
          simp (is, no_count, r, same, m, named)
            (ap (λ k. (f.name ++ count_suffix) ∷ f.name ∷ k) ih)
    ]
