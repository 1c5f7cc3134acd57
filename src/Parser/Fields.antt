-- ===== src/Parser/Fields.antt =====
-- The lines with fields (`parseLine` and `addField` of Parser.cpp).
use mathlib.Core.Path.{subst}
use tyr.Prelude.{
  sym, ◌||◌, get_elem?, ◌≡◌, refl, ap, ◌∙◌, Bool, true, false, none, some, List, [], ◌∷◌, ◌++◌, All,
}
use tyr.Ir.{Name, Ty, Struct}
use tyr.Ir.Build.{Sorter, add_field, add_repeated_field}
use tyr.Layout.{DataLayout}
use tyr.Module.{
  Module, same_name, find_struct, get_or_create_struct, Attempt, good, crash, parse_type,
}
use tyr.Module.Table.{find_struct-get_or_create_struct, find_struct-update_struct}
use tyr.Parser.{
  Parser, add_parsed, add_typed, parse_field, type_at, last_token, parse_line, struct_token,
  brace_token, mutable_token, repeated_token,
}

-- A line of doc/Syntax.md: "[mutable] [repeated] <type> <name>".
abbrev pub qualifier : Bool → Name → List Name
qualifier true token = token ∷ []
qualifier false token = []

abbrev pub field_line : (mutable repeated : Bool) → (type name : Name) → List Name
field_line mutable repeated type name =
    qualifier mutable mutable_token ++ (qualifier repeated repeated_token ++ (type ∷ name ∷ []))

-- A name is none of some words.
abbrev pub IsNone : List Name → Name → Type 0
IsNone ks n = All (λ k. same_name n k ≡ false) ks

-- The struct with the field that the line describes.
abbrev pub with_field : (mutable repeated : Bool) → Ty → Name → Struct → Struct
with_field mutable true t name s = add_repeated_field name t mutable s
with_field mutable false t name s = add_field name t mutable s

-- The parser goes on with a struct `n` in hand, which is `s`.
abbrev pub GoesOn : Name → Struct → Attempt Parser → Type 0
GoesOn n s r =
    (q : Parser) × (r ≡ good q) × (q.current ≡ some n) × (find_struct q.target.structs n ≡ some s)

add_parsed-found :
    (m : Module) (n : Name) (mutable repeated : Bool) (t : Ty) (name : Name) (s : Struct)
    → find_struct m.structs n ≡ some s
    → find_struct (add_parsed m n mutable repeated t name).structs n
      ≡ some (with_field mutable repeated t name s)
unfolding add_parsed add_field add_repeated_field
add_parsed-found m n mutable true t name s found =
    find_struct-update_struct (get_or_create_struct m.structs n) n
      (add_repeated_field name t mutable) (λ s. refl) s
      ((find_struct-get_or_create_struct m.structs n).0 ∙ rw found)
add_parsed-found m n mutable false t name s found =
    find_struct-update_struct (get_or_create_struct m.structs n) n (add_field name t mutable)
      (λ s. refl) s ((find_struct-get_or_create_struct m.structs n).0 ∙ rw found)

-- A parser with a struct in hand.
abbrev pub in_hand : Name → Module → Parser
in_hand n m = record { current = some n; target = m }

module _ (so : Sorter) (dl : DataLayout) where
  add_typed-GoesOn :
      (m : Module) (n : Name) (s : Struct) (mutable repeated : Bool) (type name : Name) (t : Ty)
      → find_struct m.structs n ≡ some s
      → parse_type m.structs type repeated ≡ good t
      → GoesOn n
          (with_field mutable repeated t name s)
          (add_typed so dl (in_hand n m) mutable repeated type name)
  unfolding add_typed
  add_typed-GoesOn m n s mutable repeated type name t found typed = (
    in_hand n (add_parsed m n mutable repeated t name),
    rw (add_typed, typed),
    refl,
    add_parsed-found m n mutable repeated t name s found,
  )

  -- The rest of `parseLine` once `IsMut` and `IsRepeated` are known.
  qualified : Parser → (mutable repeated : Bool) → (t u : Name) → List Name → Attempt Parser
  qualified p mutable repeated t u us =
      elim (get_elem? (t ∷ u ∷ us) (type_at so dl mutable repeated)) [
        | none ↦ crash
        | some type ↦ add_typed so dl p mutable repeated type (last_token so dl u us)
      ]

  parse_field-qualified :
      (p : Parser) (t u : Name) (us : List Name)
      → parse_field so dl p (t ∷ u ∷ us)
        ≡ qualified p
            (same_name t mutable_token || same_name u mutable_token)
            (same_name t repeated_token || same_name u repeated_token)
            t
            u
            us
  unfolding parse_field qualified
  parse_field-qualified p t u us = refl

  qualifiers :
      (mutable repeated : Bool) (type name : Name) (p : Parser)
      → IsNone (struct_token ∷ brace_token ∷ mutable_token ∷ repeated_token ∷ []) type
      → IsNone (mutable_token ∷ repeated_token ∷ []) name
      → parse_line so dl p (field_line mutable repeated type name)
        ≡ add_typed so dl p mutable repeated type name
  unfolding parse_line qualified same_name
  qualifiers true true type name p (a, (b, (c, (d, e)))) (g, (h, k)) =
      parse_field-qualified p mutable_token repeated_token (type ∷ name ∷ [])
  qualifiers true false type name p (a, (b, (c, (d, e)))) (g, (h, k)) =
      parse_field-qualified p mutable_token type (name ∷ [])
      ∙ ap (λ r. qualified p true r mutable_token type (name ∷ [])) d
  qualifiers false true type name p (a, (b, (c, (d, e)))) (g, (h, k)) =
      parse_field-qualified p repeated_token type (name ∷ [])
      ∙ ap (λ r. qualified p r true repeated_token type (name ∷ [])) c
  qualifiers false false type name p (a, (b', (c, (d, e)))) (g, (h, k)) =
      rw (a, b')
        (let b : Bool = same_name type repeated_token || same_name name repeated_token in
          parse_field-qualified p type name []
          ∙ ap (λ r. qualified p (r || same_name name mutable_token) b type name []) c
          ∙ ap (λ r. qualified p r b type name []) g
          ∙ ap (λ r. qualified p false (r || same_name name repeated_token) type name []) d
          ∙ ap (λ r. qualified p false r type name []) h)

  -- With a struct in hand that the module has, a line "[mutable] [repeated] <type> <name>", its type one
  -- that the module can parse, adds a field of that name and type to the struct: a repeated one if the
  -- line says so, and mutable if it says so. The type is none of the words that begin a line or qualify
  -- a field, and the name none of those that qualify one.
  pub parse_line-field_line :
      (m : Module) (n : Name) (s : Struct) (mutable repeated : Bool) (type name : Name) (t : Ty)
      → find_struct m.structs n ≡ some s
      → parse_type m.structs type repeated ≡ good t
      → IsNone (struct_token ∷ brace_token ∷ mutable_token ∷ repeated_token ∷ []) type
      → IsNone (mutable_token ∷ repeated_token ∷ []) name
      → GoesOn n
          (with_field mutable repeated t name s)
          (parse_line so dl (in_hand n m) (field_line mutable repeated type name))
  parse_line-field_line m n s mutable repeated type name t found typed plain named =
      subst (GoesOn n (with_field mutable repeated t name s))
        (sym (qualifiers mutable repeated type name (in_hand n m) plain named))
        (add_typed-GoesOn m n s mutable repeated type name t found typed)
