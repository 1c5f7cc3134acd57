-- ===== src/Tests/Structs.antt =====
-- Witnesses: the structs of IR.cpp and the header.
use tyr.Prelude.{◌≡◌, refl, true, false, arith, length, codes}
use tyr.Ir.{Struct, int_type}
use tyr.Ir.Build.{make_struct, finalize_fields, add_field, add_repeated_field}
use tyr.Ir.Links.{IsLinked, finalized, Built-IsLinked}
use tyr.Ir.Final.{IsFinal, finalize_fields-IsFinal}
use tyr.Ir.Apart.{finalize_fields-Separate}
use tyr.Ir.Pairs.{repeats, Built-counts}
use tyr.Gen.Serial.Frames.{Separate}
use tyr.Gen.Serial.Sums.{counts}
use tyr.Header.{emitted_parameters, declared_parameters}
use tyr.Header.Declared.{adjacent_none, adjacent_value, adjacent_array, parameters-Adjacent}
use tyr.Header.Text.{struct_text}
use tyr.Tests.{layout_of, sorter, point, point-Built, point_fields, n_field, count_field, xs_field}

abbrev final_point : Struct
final_point = finalize_fields sorter (layout_of true) point

Built-IsLinked_example : IsLinked final_point
Built-IsLinked_example = Built-IsLinked (finalized (point-Built sorter (layout_of true)))

finalize_fields-IsFinal_example : IsFinal (layout_of true) point final_point
unfolding add_field add_repeated_field
finalize_fields-IsFinal_example =
    finalize_fields-IsFinal sorter (layout_of true) point (omega arith)

finalize_fields-Separate_example :
    Separate final_point.fields (length final_point.fields) final_point.fields
unfolding add_field add_repeated_field
finalize_fields-Separate_example =
    finalize_fields-Separate sorter (layout_of true) point (point-Built sorter (layout_of true))
      (omega arith)

Built-counts_example : counts final_point.fields ≡ repeats final_point.fields
Built-counts_example = Built-counts (finalized (point-Built sorter (layout_of true)))

-- What the header has for a struct with one number, an immutable one.
struct_text_lem :
    struct_text (add_field (codes "n") (int_type 12) false (make_struct (codes "p")))
    ≡ codes
        "bool get_p_n(p_t *struct_ptr, uint16_t *n);\np_t * create_p(uint16_t n);\nvoid destroy_p(p_t *struct_ptr);\ntypedef void *p_ptr;\nuint8_t *serialize_p(p_ptr struct_ptr);\np_ptr deserialize_p(uint8_t *serialized_struct);\n\n"
unfolding struct_text add_field
struct_text_lem = refl

parameters-Adjacent_example : declared_parameters point_fields ≡ emitted_parameters point_fields
parameters-Adjacent_example = parameters-Adjacent point_fields (
    adjacent_value {f = n_field} refl refl
      (adjacent_array {c = count_field} {f = xs_field} refl refl refl refl refl adjacent_none))
