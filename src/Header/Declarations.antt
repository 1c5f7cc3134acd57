-- ===== src/Header/Declarations.antt =====
-- The declarations of one field in the header of CCodegenPass.cpp.
use tyr.Prelude.{
  ◌≡◌, refl, sym, ap, ◌∙◌, Bool, true, false, not, List, [], ◌∷◌, ◌++◌, map, if◌then◌else◌, codes,
  append_assoc, append-nil, Bool-cases, inl, inr,
}
use tyr.Ir.{Name, Field, pointer_to}
use tyr.Ir.Build.{count_suffix}
use tyr.Header.{get_prefix, set_prefix, item_suffix, field_function, field_header, fields_header}
use tyr.Header.Text.{type_text, element_of, ptr_name, field_text, fields_text}

-- A declaration in C: the types stand before the names.
pub record Declaration : Type 0 where
  pub result : Name
  pub name : Name
  pub parameters : List (Name × Name)

abbrev pub join_parameters : List (Name × Name) → Name
join_parameters [] = []
join_parameters (p ∷ []) = p.0 ++ p.1
join_parameters (p ∷ q ∷ ps) = p.0 ++ (p.1 ++ (codes ", " ++ join_parameters (q ∷ ps)))

abbrev pub print : Declaration → Name
print d = d.result ++ (d.name ++ (codes "(" ++ (join_parameters d.parameters ++ codes ");\n")))

abbrev pub print_all : List Declaration → Name
print_all [] = []
print_all (d ∷ ds) = print d ++ print_all ds

abbrev pub also : Bool → List Declaration → List Declaration
also true ds = ds
also false ds = []

-- A declaration of one field: its first parameter is the struct.
abbrev pub on_struct : Name → (function : Name) → List (Name × Name) → Declaration
on_struct s function ps = record {
  result = codes "bool ";
  name = function;
  parameters = (ptr_name s, codes "struct_ptr") ∷ ps;
}

abbrev pub count_parameter : Field → List (Name × Name)
count_parameter f = if f.is_repeated then (codes "uint64_t ", f.name ++ codes "_count") ∷ [] else []

abbrev index_parameter : Name × Name
index_parameter = (codes "uint64_t ", codes "idx")

abbrev pub field_declarations : Name → Field → List Declaration
field_declarations s f = also (not f.is_count) (
    on_struct s (field_function get_prefix s f.name [])
      ((type_text (pointer_to f.type), f.name) ∷ [])
    ∷ (also f.is_mutable (
          on_struct s (field_function set_prefix s f.name [])
            ((type_text f.type, f.name) ∷ count_parameter f)
          ∷ [])
        ++ also f.is_repeated (
            on_struct s (field_function get_prefix s f.name item_suffix)
              (index_parameter ∷ (type_text f.type, f.name ++ item_suffix) ∷ [])
            ∷ (also f.is_mutable (
                  on_struct s (field_function set_prefix s f.name item_suffix)
                    (index_parameter ∷ (type_text (element_of f.type), f.name ++ item_suffix) ∷ [])
                  ∷ [])
                ++ (on_struct s (field_function get_prefix s f.name count_suffix)
                      ((codes "uint64_t *", codes "count") ∷ [])
                    ∷ [])))))

field_text-print_all : (s : Name) (f : Field) → field_text s f ≡ print_all (field_declarations s f)
unfolding field_text
field_text-print_all s f = elim (Bool-cases f.is_count) [
  | inl c ↦ rw c refl
  | inr c ↦ elim (Bool-cases f.is_mutable) [
    | inl m ↦ elim (Bool-cases f.is_repeated) [
      | inl r ↦ simp (c, m, r, append_assoc, append-nil)
      | inr r ↦ simp (c, m, r, append_assoc, append-nil)
    ]
    | inr m ↦ elim (Bool-cases f.is_repeated) [
      | inl r ↦ simp (c, m, r, append_assoc, append-nil)
      | inr r ↦ simp (c, m, r, append_assoc, append-nil)
    ]
  ]
]

names-field_declarations :
    (s : Name) (f : Field) → map (λ d. d.name) (field_declarations s f) ≡ field_header s f
unfolding field_header
names-field_declarations s f = elim (Bool-cases f.is_count) [
  | inl c ↦ rw c refl
  | inr c ↦ elim (Bool-cases f.is_mutable) [
    | inl m ↦ elim (Bool-cases f.is_repeated) [
      | inl r ↦ rw (c, m, r) refl
      | inr r ↦ rw (c, m, r) refl
    ]
    | inr m ↦ elim (Bool-cases f.is_repeated) [
      | inl r ↦ rw (c, m, r) refl
      | inr r ↦ rw (c, m, r) refl
    ]
  ]
]

abbrev pub fields_declarations : Name → List Field → List Declaration
fields_declarations s [] = []
fields_declarations s (f ∷ fs) = field_declarations s f ++ fields_declarations s fs

pub print_all-append :
    (ds es : List Declaration) → print_all (ds ++ es) ≡ print_all ds ++ print_all es
print_all-append [] es = refl
print_all-append (d ∷ ds) es =
    ap (◌++◌ (print d)) (print_all-append ds es) ∙ sym (append_assoc (print d) (print_all ds) _)

pub fields_text-print_all :
    (s : Name) (fs : List Field) → fields_text s fs ≡ print_all (fields_declarations s fs)
unfolding fields_text
fields_text-print_all s [] = refl
fields_text-print_all s (f ∷ fs) = rw (
  print_all-append (field_declarations s f) (fields_declarations s fs),
  field_text-print_all s f,
  fields_text-print_all s fs,
)

pub map-append :
    {A B : Type 0} (g : A → B) (xs ys : List A) → map g (xs ++ ys) ≡ map g xs ++ map g ys
map-append g [] ys = refl
map-append g (x ∷ xs) ys = ap (◌∷◌ (g x)) (map-append g xs ys)

pub names-fields_declarations :
    (s : Name) (fs : List Field) → map (λ d. d.name) (fields_declarations s fs) ≡ fields_header s fs
unfolding fields_header
names-fields_declarations s [] = refl
names-fields_declarations s (f ∷ fs) = rw (
  map-append (λ (d : Declaration). d.name) (field_declarations s f) (fields_declarations s fs),
  names-field_declarations s f,
  names-fields_declarations s fs,
)
