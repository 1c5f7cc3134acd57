-- ===== src/Header/Parameters.antt =====
-- The parameters of the constructor in the header of CCodegenPass.cpp.
use tyr.Prelude.{
  ◌≡◌, refl, ap, not, ◌&&◌, List, [], ◌∷◌, ◌++◌, map, if◌then◌else◌, codes, append_assoc,
  append-nil, Bool-cases, inl, inr,
}
use tyr.Ir.{Name, Field}
use tyr.Header.{declared_parameters}
use tyr.Header.Text.{type_text, constructor_fields, parameters_text}
use tyr.Header.Declarations.{count_parameter, join_parameters}

-- The parameters of the constructor: all that are neither mutable nor counts, a count before each
-- array.
abbrev pub constructor_parameters : List Field → List (Name × Name)
constructor_parameters [] = []
constructor_parameters (f ∷ fs) =
    (if not f.is_count && not f.is_mutable
      then count_parameter f ++ ((type_text f.type, f.name) ∷ [])
      else [])
    ++ constructor_parameters fs

abbrev pub parameters_of : List Field → List (Name × Name)
parameters_of [] = []
parameters_of (f ∷ fs) = count_parameter f ++ ((type_text f.type, f.name) ∷ parameters_of fs)

pub parameters_of-constructor_fields :
    (fs : List Field) → parameters_of (constructor_fields fs) ≡ constructor_parameters fs
unfolding constructor_fields
parameters_of-constructor_fields [] = refl
parameters_of-constructor_fields (f ∷ fs) =
    let ih = parameters_of-constructor_fields fs in
    elim (Bool-cases (not f.is_count && not f.is_mutable)) [
      | inl u ↦
          rw (u, append_assoc (count_parameter f))
            (ap (λ ps. count_parameter f ++ ((type_text f.type, f.name) ∷ ps)) ih)
      | inr u ↦ rw u ih
    ]

join_parameters-more :
    (p : Name × Name) (g : Field) (fs : List Field)
    → join_parameters (p ∷ parameters_of (g ∷ fs))
      ≡ p.0 ++ (p.1 ++ (codes ", " ++ join_parameters (parameters_of (g ∷ fs))))
join_parameters-more p g fs = elim (Bool-cases g.is_repeated) [
  | inl r ↦ rw r refl
  | inr r ↦ rw r refl
]

pub parameters_text-join :
    (fs : List Field) → parameters_text fs ≡ join_parameters (parameters_of fs)
unfolding parameters_text
parameters_text-join [] = refl
parameters_text-join (f ∷ []) = elim (Bool-cases f.is_repeated) [
  | inl r ↦ simp (r, append_assoc, append-nil)
  | inr r ↦ simp (r, append-nil)
]
parameters_text-join (f ∷ g ∷ fs) =
    let ih = parameters_text-join (g ∷ fs) in
    let more = join_parameters-more (type_text f.type, f.name) g fs in
    elim (Bool-cases f.is_repeated) [
      | inl r ↦ simp (r, more, ih, append_assoc, append-nil)
      | inr r ↦ simp (r, more, ih, append_assoc, append-nil)
    ]

pub names-constructor_parameters :
    (fs : List Field) → map (λ p. p.1) (constructor_parameters fs) ≡ declared_parameters fs
unfolding declared_parameters
names-constructor_parameters [] = refl
names-constructor_parameters (f ∷ fs) = elim (Bool-cases (not f.is_count && not f.is_mutable)) [
  | inl u ↦ elim (Bool-cases f.is_repeated) [
    | inl r ↦ rw (u, r, names-constructor_parameters fs) refl
    | inr r ↦ rw (u, r, names-constructor_parameters fs) refl
  ]
  | inr u ↦ rw u (names-constructor_parameters fs)
]
