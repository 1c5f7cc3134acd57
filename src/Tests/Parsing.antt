-- ===== src/Tests/Parsing.antt =====
-- Witnesses: the parser and the module's tables.
use tyr.Prelude.{codes, ◌≡◌, refl, true, false, none, some, List, [], ◌∷◌, ◌++◌, arith}
use tyr.Ir.{Name, int_type, pointer_to}
use tyr.Ir.Build.{make_struct}
use tyr.Module.{
  same_name, find_struct, get_or_create_struct, set_builtin_name, lookup_builtin, int_name,
  uint_name, starts_with_lower, parse_type, int_n_type, repeat_type,
}
use tyr.Module.Types.{digit_text, parse_type-digit_text, parse_type-int_prefix}
use tyr.Module.Table.{find_struct-get_or_create_struct, lookup_builtin-set_builtin_name}
use tyr.Parser.{
  Parser, parse_line, parse_lines, struct_token, packed_token, mutable_token, repeated_token,
}
use tyr.Parser.Lines.{
  drop_ignored, parse_lines-drop_ignored, parse_line-mutable_repeated, parse_line-packed, Begins,
}
use tyr.Parser.Fields.{field_line, with_field, GoesOn, in_hand, parse_line-field_line}
use tyr.Tests.{split_spaces, layout_of, sorter, p_name, n_name}

abbrev fresh_parser : Parser
fresh_parser = record {
  current = none;
  target = record { structs = make_struct n_name ∷ []; builtins = []; builtins_finalized = true };
}

-- The text "struct p", " // x", "int16 n" and "}".
abbrev file : List Name
file =
    (115 ∷ 116 ∷ 114 ∷ 117 ∷ 99 ∷ 116 ∷ 32 ∷ 112 ∷ [])
    ∷ (32 ∷ 47 ∷ 47 ∷ 32 ∷ 120 ∷ [])
    ∷ (105 ∷ 110 ∷ 116 ∷ 49 ∷ 54 ∷ 32 ∷ 110 ∷ [])
    ∷ (125 ∷ [])
    ∷ []

parse_lines-drop_ignored_example :
    parse_lines sorter (layout_of true) split_spaces (drop_ignored file) fresh_parser false 0
    ≡ parse_lines sorter (layout_of true) split_spaces file fresh_parser false 0
parse_lines-drop_ignored_example =
    parse_lines-drop_ignored sorter (layout_of true) split_spaces file fresh_parser false 0

parse_line-mutable_repeated_example :
    parse_line sorter (layout_of true) fresh_parser (mutable_token ∷ repeated_token ∷ p_name ∷ [])
    ≡ parse_line sorter (layout_of true) fresh_parser (repeated_token ∷ mutable_token ∷ p_name ∷ [])
parse_line-mutable_repeated_example =
    parse_line-mutable_repeated sorter (layout_of true) fresh_parser (p_name ∷ [])

-- The line "mutable repeated int16 n" in the struct n.
parse_line-field_line_example :
    GoesOn n_name (with_field true true (pointer_to (int_type 16)) n_name (make_struct n_name)) (
      parse_line sorter
        (layout_of true)
        (in_hand n_name fresh_parser.target)
        (field_line true true (codes "int16") n_name))
unfolding find_struct parse_type same_name
parse_line-field_line_example =
    parse_line-field_line sorter (layout_of true) fresh_parser.target n_name (make_struct n_name)
      true true (codes "int16") n_name (pointer_to (int_type 16)) refl refl
      (refl, (refl, (refl, (refl, tt)))) (refl, (refl, tt))

parse_line-packed_example :
    Begins p_name true
      (parse_line sorter (layout_of true) fresh_parser (struct_token ∷ p_name ∷ packed_token ∷ []))
    × Begins p_name false (
        parse_line sorter
          (layout_of true)
          fresh_parser
          (struct_token ∷ p_name ∷ packed_token ∷ (123 ∷ []) ∷ []))
parse_line-packed_example = parse_line-packed sorter (layout_of true) fresh_parser p_name refl

parse_type-digit_text_example :
    (parse_type [] (int_name ++ digit_text (1 ∷ 6 ∷ [])) false ≡ repeat_type false (int_n_type 16))
    × (parse_type [] (uint_name ++ digit_text (1 ∷ 6 ∷ [])) false
        ≡ repeat_type false (int_n_type 16))
parse_type-digit_text_example =
    parse_type-digit_text [] 1 (6 ∷ []) (omega arith, (omega arith, tt)) (omega arith)

parse_type-int_prefix_example :
    parse_type (make_struct (int_name ++ p_name) ∷ []) (int_name ++ p_name) true
    ≡ parse_type [] (int_name ++ p_name) true
unfolding starts_with_lower
parse_type-int_prefix_example =
    parse_type-int_prefix (make_struct (int_name ++ p_name) ∷ []) [] (int_name ++ p_name) true refl

find_struct-get_or_create_struct_example :
    (find_struct (get_or_create_struct [] p_name) p_name
      ≡ some (elim (find_struct [] p_name) [ none ↦ make_struct p_name | some s ↦ s ]))
    × (get_or_create_struct (get_or_create_struct [] p_name) p_name
        ≡ get_or_create_struct [] p_name)
find_struct-get_or_create_struct_example = find_struct-get_or_create_struct [] p_name

lookup_builtin-set_builtin_name_example :
    (lookup_builtin (set_builtin_name [] p_name n_name) p_name ≡ n_name)
    × ((other : Name)
        → same_name p_name other ≡ false
        → lookup_builtin (set_builtin_name [] p_name n_name) other ≡ lookup_builtin [] other)
lookup_builtin-set_builtin_name_example = lookup_builtin-set_builtin_name [] p_name n_name
