-- ===== src/Parser.antt =====
-- lib/compiler/Parser/Parser.cpp: lines of a .tyr file, and what they make of a module.
pub mod Structs
pub mod Lines
pub mod Fields
use tyr.Prelude.{
  codes, ℕ, ◌+◌, ◌%◌, ◌^◌, Bool, true, false, not, ◌&&◌, ◌||◌, Option, none, some, List, [], ◌∷◌,
  reverse, ◌==◌, if◌then◌else◌, get_elem?, length, leb,
}
use tyr.Ir.{Name, Ty, Struct}
use tyr.Ir.Build.{Sorter, set_is_packed, add_field, add_repeated_field, finalize_fields}
use tyr.Layout.{DataLayout}
use tyr.Module.{
  same_name, Module, update_struct, get_or_create_struct, has_module, Attempt, good, bad, crash,
  parse_type, find_struct,
}

-- `class Parser`: `m_current_struct_`, by its name, and `m_module_`.
pub record Parser : Type 0 where
  pub current : Option Name
  pub target : Module

abbrev pub with_structs : Module → List Struct → Module
with_structs m ss = record {
  structs = ss;
  builtins = m.builtins;
  builtins_finalized = m.builtins_finalized;
}

abbrev pub struct_token : Name
struct_token = codes "struct"

abbrev pub packed_token : Name
packed_token = codes "packed"

abbrev pub mutable_token : Name
mutable_token = codes "mutable"

abbrev pub repeated_token : Name
repeated_token = codes "repeated"

abbrev pub brace_token : Name
brace_token = 125 ∷ []

abbrev pub is_token : Option Name → Name → Bool
is_token none t = false
is_token (some s) t = same_name s t

-- `addField`, the helper of the parser.
unfoldable pub add_parsed : Module → Name → (mutable repeated : Bool) → Ty → Name → Module
add_parsed m struct mutable repeated t name = with_structs m (
    update_struct (get_or_create_struct m.structs struct) struct
      (if repeated then add_repeated_field name t mutable else add_field name t mutable))

unfoldable pub begin_struct : Parser → Name → Bool → Parser
begin_struct p n b = record {
  current = some n;
  target =
      with_structs p.target
        (update_struct (get_or_create_struct p.target.structs n) n (set_is_packed b));
}

module _ (so : Sorter) (dl : DataLayout) where
  -- A line that begins with "struct".
  unfoldable pub parse_struct : Parser → List Name → Attempt Parser
  unfolding begin_struct
  parse_struct p tokens = elim p.current [
    | some n ↦ bad
    | none ↦ elim (get_elem? tokens 1) [
      | none ↦ crash
      | some name ↦
          good
            (begin_struct p name (length tokens == 3 && is_token (get_elem? tokens 2) packed_token))
    ]
  ]

  -- A line that begins with "}". Sorting two fields or more reads the data layout of what
  -- `getModule` answers, which may be null.
  unfoldable pub parse_end : Parser → Attempt Parser
  parse_end p = elim p.current [
    | none ↦ crash
    | some n ↦ elim (find_struct p.target.structs n) [
      | none ↦ crash
      | some s ↦
          if has_module p.target || leb (length s.fields) 1
          then good (record {
            current = none;
            target =
                with_structs p.target (update_struct p.target.structs n (finalize_fields so dl));
          })
          else crash
    ]
  ]

  -- The field of a struct, with the type's token and the last one.
  unfoldable pub add_typed :
      Parser → (mutable repeated : Bool) → (type name : Name) → Attempt Parser
  add_typed p mutable repeated type name = elim p.current [
    | none ↦ crash
    | some n ↦ elim (parse_type p.target.structs type repeated) [
      | bad ↦ bad
      | crash ↦ crash
      | good t ↦
          good
            (record { current = p.current; target = add_parsed p.target n mutable repeated t name })
    ]
  ]

  abbrev pub type_at : (mutable repeated : Bool) → ℕ
  type_at true true = 2
  type_at true false = 1
  type_at false true = 1
  type_at false false = 0

  abbrev pub last_token : Name → List Name → Name
  last_token t [] = t
  last_token t (u ∷ us) = last_token u us

  -- A line with a field: at least one of the tests reads the second token.
  unfoldable pub parse_field : Parser → List Name → Attempt Parser
  unfolding add_typed
  parse_field p [] = crash
  parse_field p (t ∷ []) = crash
  parse_field p (t ∷ u ∷ us) =
      let mutable = same_name t mutable_token || same_name u mutable_token in
      let repeated = same_name t repeated_token || same_name u repeated_token in
      elim (get_elem? (t ∷ u ∷ us) (type_at mutable repeated)) [
        | none ↦ crash
        | some type ↦ add_typed p mutable repeated type (last_token u us)
      ]

  -- `parseLine`
  unfoldable pub parse_line : Parser → List Name → Attempt Parser
  unfolding parse_struct parse_end parse_field
  parse_line p tokens =
      if is_token (get_elem? tokens 0) struct_token
      then parse_struct p tokens
      else if is_token (get_elem? tokens 0) brace_token
      then parse_end p
      else parse_field p tokens

unfoldable pub ltrim : Name → Name
ltrim [] = []
ltrim (c ∷ s) = let rest = ltrim s in if c == 32 then rest else c ∷ s

unfoldable pub starts_with : Name → Name → Bool
starts_with s [] = true
starts_with [] (p ∷ ps) = false
starts_with (c ∷ s) (p ∷ ps) = (c == p) && starts_with s ps

unfoldable pub contains : Name → Name → Bool
unfolding starts_with
contains [] p = starts_with [] p
contains (c ∷ s) p = starts_with (c ∷ s) p || contains s p

abbrev pub ends_with : Name → Name → Bool
ends_with s p = starts_with (reverse s) (reverse p)

abbrev pub line_mark : Name
line_mark = codes "//"

abbrev pub open_mark : Name
open_mark = codes "/*"

abbrev pub close_mark : Name
close_mark = codes "*/"

-- What the tests of `parseFile` make of a line, in their order.
pub data Line : Type 0 where
  ignored comment_opened comment_closed misplaced : Line
  code : Name → Line

unfoldable pub trimmed_line : Name → Line
unfolding starts_with contains
trimmed_line [] = ignored
trimmed_line (c ∷ cs) =
    let s = c ∷ cs in
    if starts_with s line_mark
    then ignored
    else if starts_with s open_mark
    then comment_opened
    else if starts_with s close_mark || ends_with s close_mark
    then comment_closed
    else if contains s line_mark || contains s open_mark || contains s close_mark
    then misplaced
    else code s

unfoldable pub read_line : Name → Line
unfolding ltrim trimmed_line
read_line l = trimmed_line (ltrim l)

-- The answer of `parseFile`; a failure names a line in its message.
pub data Outcome : Type 0 where
  parsed : Parser → Outcome
  failed : ℕ → Outcome
  crashed : Outcome

-- `split` is `StringRef::split` at each space, which keeps empty tokens.
module _ (so : Sorter) (dl : DataLayout) (split : Name → List Name) where
  abbrev attempt : ℕ → Attempt Parser → (Parser → Outcome) → Outcome
  attempt lineno (good p) go_on = go_on p
  attempt lineno bad go_on = failed lineno
  attempt lineno crash go_on = crashed

  -- `parseFile`, from a line of the file on: the parser, `insideComment` and `lineno`.
  unfoldable pub parse_lines : List Name → Parser → Bool → ℕ → Outcome
  unfolding read_line parse_line
  parse_lines [] p inside lineno = parsed p
  parse_lines (l ∷ ls) p inside lineno = elim (read_line l) [
    | ignored ↦ parse_lines ls p inside lineno
    | comment_opened ↦ parse_lines ls p true lineno
    | comment_closed ↦ parse_lines ls p false lineno
    | misplaced ↦ failed lineno
    | code text ↦
        attempt lineno (if inside then good p else parse_line so dl p (split text))
          (λ q. parse_lines ls q inside ((lineno + 1) % 2 ^ 64))
  ]

  -- `parseFile`
  unfoldable pub parse_file : List Name → Parser → Outcome
  unfolding parse_lines
  parse_file ls p = parse_lines ls p false 0
