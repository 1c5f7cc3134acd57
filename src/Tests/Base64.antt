-- ===== src/Tests/Base64.antt =====
-- Witnesses and runs: Base64.c on short buffers, and on a small struct.
use tyr.Prelude.{ℕ, ◌*◌, ◌+◌, ◌≡◌, refl, true, none, some, List, [], ◌∷◌, ◌++◌, arith}
use tyr.Prelude.Bytes.{le_bytes}
use tyr.Ir.{struct_type}
use tyr.Ir.Build.{finalize_fields, add_field, add_repeated_field}
use tyr.Layout.{encode}
use tyr.Memory.{null, raw, Mem, write, block_at, ok, fault, Ptr, Cmd}
use tyr.Memory.Laws.{At}
use tyr.Gen.Serial.{serialize, deserialize}
use tyr.Gen.Serial.Values.{wires}
use tyr.Runtime.Base64.{serialize_to_base64, deserialize_from_base64}
use tyr.Runtime.Base64.Alphabet.{base64url, rounds}
use tyr.Runtime.Base64.Text.{encoded, serialize_to_base64-encoded}
use tyr.Runtime.Base64.Decoded.{deserialize_from_base64-refuses}
use tyr.Runtime.Base64.Generated.{serialize_to_base64-fault}
use tyr.Runtime.Base64.Rebuilt.{
  IsDecoded, IsLeaked, deserialize_from_base64-IsDecoded, deserialize_from_base64-IsLeaked,
}
use tyr.Tests.{
  layout_of, layout_of-IsLayout, ample, target_of, sorter, point, point-Built, point_fields, memory,
  p_name,
}
use tyr.Tests.Serial.{point_items, self-At, array-At, point-HoldsAll, never, point-TypedAll}

-- "Ma" is "TWE=".
short_text : base64url (77 ∷ 97 ∷ []) ≡ b'T' ∷ b'W' ∷ b'E' ∷ b'=' ∷ []
unfolding base64url
short_text = refl

-- A serializer whose buffer is there already: two bytes behind a header of 2, and one more.
abbrev two_bytes : Mem
two_bytes = none ∷ some (raw (encode true 8 2 ++ (77 ∷ 97 ∷ []) ++ 0 ∷ [])) ∷ []

abbrev first_block : Ptr → Cmd Ptr
first_block self m = ok 1 m

two_bytes-At : At two_bytes 1 (raw (encode true 8 2 ++ ((77 ∷ 97 ∷ []) ++ 0 ∷ [])))
unfolding block_at encode le_bytes
two_bytes-At = record { found = refl }

serialize_to_base64-encoded_example :
    serialize_to_base64 ample true first_block 5 two_bytes
    ≡ ok 3 (write two_bytes 3 (some (raw (encoded true (77 ∷ 97 ∷ [])))))
serialize_to_base64-encoded_example =
    serialize_to_base64-encoded ample true two_bytes 1 (77 ∷ 97 ∷ []) (0 ∷ []) two_bytes-At
      (omega arith, (omega arith, tt)) (omega arith, tt) (omega arith) (omega arith) (omega arith)
      first_block 5 two_bytes refl

serialize_to_base64-fault_example :
    serialize_to_base64 ample true
      (serialize (target_of true ample) (finalize_fields sorter (layout_of true) point).fields)
      1
      memory
    ≡ fault
unfolding finalize_fields add_field add_repeated_field encode le_bytes
serialize_to_base64-fault_example =
    serialize_to_base64-fault sorter (target_of true ample) point memory 1 (7 ∷ 2 ∷ 2 ∷ [])
      point_items (point-Built sorter (layout_of true)) (layout_of-IsLayout true) refl self-At
      (point-HoldsAll true memory array-At) (omega arith) (omega arith)

abbrev behind : List ℕ
behind = 1 ∷ 2 ∷ 3 ∷ 4 ∷ 5 ∷ 6 ∷ 7 ∷ 8 ∷ []

abbrev point_text : Mem
point_text =
    none ∷ some (raw (encoded true (wires (layout_of true) point_items ++ behind) ++ [])) ∷ []

point_text-At :
    At point_text 1 (raw (encoded true (wires (layout_of true) point_items ++ behind) ++ []))
unfolding block_at
point_text-At = record { found = refl }

deserialize_from_base64-IsDecoded_example :
    IsDecoded
      (layout_of true)
      point_fields
      point_text
      point_items
      (ample.new_address (3 * rounds (wires (layout_of true) point_items ++ behind) + 8) point_text)
      (deserialize_from_base64 ample true
        (λ p. deserialize (target_of true ample) point_fields (struct_type p_name) p 0)
        1
        point_text)
unfolding encode le_bytes
deserialize_from_base64-IsDecoded_example =
    deserialize_from_base64-IsDecoded (target_of true ample) point_fields (layout_of-IsLayout true)
      refl never point_text 1 behind [] point_items (point-TypedAll true) refl (omega arith)
      (omega arith) (omega arith) point_text-At refl (struct_type p_name)

abbrev odd_text : Mem
odd_text = none ∷ some (raw (encode true 8 3 ++ b'T' ∷ b'W' ∷ b'E' ∷ [])) ∷ []

odd_text-At : At odd_text 1 (raw (encode true 8 3 ++ b'T' ∷ b'W' ∷ b'E' ∷ []))
unfolding block_at
odd_text-At = record { found = refl }

deserialize_from_base64-refuses_example :
    deserialize_from_base64 ample true first_block 1 odd_text ≡ ok null odd_text
deserialize_from_base64-refuses_example =
    deserialize_from_base64-refuses ample true first_block odd_text 1 3 (b'T' ∷ b'W' ∷ b'E' ∷ [])
      odd_text-At (omega arith) (omega arith)

-- Seven bytes too few behind the values.
abbrev short_point_text : Mem
short_point_text =
    none ∷ some (raw (encoded true (wires (layout_of true) point_items ++ 1 ∷ []) ++ [])) ∷ []

short_point_text-At :
    At short_point_text 1 (raw (encoded true (wires (layout_of true) point_items ++ 1 ∷ []) ++ []))
unfolding block_at
short_point_text-At = record { found = refl }

deserialize_from_base64-IsLeaked_example : IsLeaked short_point_text (
    deserialize_from_base64 ample true
      (λ p. deserialize (target_of true ample) point_fields (struct_type p_name) p 0)
      1
      short_point_text)
unfolding encode le_bytes
deserialize_from_base64-IsLeaked_example =
    deserialize_from_base64-IsLeaked (target_of true ample) point_fields (layout_of-IsLayout true)
      refl never short_point_text 1 (1 ∷ []) [] point_items (point-TypedAll true) refl
      (omega arith, tt) (omega arith) (omega arith) short_point_text-At (omega arith)
      (struct_type p_name)
