-- ===== src/Tests/Serial.antt =====
-- Witnesses: the serializers on a small struct.
use tyr.Prelude.{
  ℕ, suc, ◌≡◌, ◌≢◌, refl, inr, Bool, true, false, none, some, List, [], ◌∷◌, ◌++◌, arith, length,
}
use tyr.Prelude.Bytes.{le_bytes}
use tyr.Layout.{encode}
use tyr.Ir.{int_type, struct_type}
use tyr.Ir.Build.{add_field, add_repeated_field, finalize_fields}
use tyr.Layout.{encode, is_int, is_pointer}
use tyr.Memory.{null, cells, raw, Mem, write, block_at, ok, ◌>>=◌}
use tyr.Memory.Laws.{At}
use tyr.Gen.{field_named, deref, field_of}
use tyr.Gen.Serial.{serialize, deserialize}
use tyr.Gen.Serial.Words.{words}
use tyr.Gen.Serial.Values.{
  scalar, array, IsCalled, IsScalar, IsArray, IsElements, holds_scalar, holds_array, Item, item,
  HoldsAll, done, skip, next, wire_count, wires,
}
use tyr.Gen.Serial.Frames.{typed_scalar, typed_array, TypedAll, typed_done, typed_skip, typed_next}
use tyr.Gen.Serial.RoundTrip.{IsRebuilt, IsRejected, deserialize-IsRejected}
use tyr.Gen.Serial.Portable.{IsWhole, ordered_items, serialize-ordered}
use tyr.Gen.Serial.Built.{finalize_fields-deserialize-serialize}
use tyr.Tests.{
  layout_of, layout_of-IsLayout, ample, target_of, sorter, point, point-Built, n_field, count_field,
  xs_field, point_fields, memory, p_name,
}

abbrev pub point_items : List Item
point_items =
    item n_field (int_type 16) (scalar 7) ∷ item xs_field (int_type 32) (array (5 ∷ 6 ∷ [])) ∷ []

n-IsScalar : (b : Bool) → IsScalar (layout_of b) n_field
unfolding is_pointer
n-IsScalar b = record {
  no_struct = refl;
  single = refl;
  no_pointer = refl;
  is_word = record { dense = refl; swapped = λ e. refl; even_bytes = λ e. refl };
}

pub xs-IsArray : (b : Bool) → IsArray (layout_of b) point_fields xs_field count_field (int_type 32)
unfolding deref field_of
xs-IsArray b = record {
  no_struct = refl;
  repeated = refl;
  points = refl;
  counted = refl;
  count_type = refl;
  count_single = refl;
  apart = λ e. absurd (omega arith);
  is_word = record { dense = refl; swapped = λ e. refl; even_bytes = λ e. refl };
}

elements : (b : Bool) → IsElements (layout_of b) (int_type 32) (5 ∷ 6 ∷ [])
elements b = record {
  fit = (omega arith, (omega arith, tt));
  loops = inr (λ e. cc e);
  few = omega arith;
  small = omega arith;
}

pub self-At : At memory 1 (cells (7 ∷ 2 ∷ 2 ∷ []))
unfolding block_at
self-At = record { found = refl }

-- The same memory on a big-endian target.
abbrev be_memory : Mem
be_memory =
    none ∷ some (cells (7 ∷ 2 ∷ 2 ∷ [])) ∷ some (raw (0 ∷ 0 ∷ 0 ∷ 5 ∷ 0 ∷ 0 ∷ 0 ∷ 6 ∷ [])) ∷ []

be_self-At : At be_memory 1 (cells (7 ∷ 2 ∷ 2 ∷ []))
unfolding block_at
be_self-At = record { found = refl }

pub array-At : At memory 2 (raw (words (layout_of true) (int_type 32) (5 ∷ 6 ∷ [])))
unfolding block_at encode le_bytes
array-At = record { found = refl }

be_array-At : At be_memory 2 (raw (words (layout_of false) (int_type 32) (5 ∷ 6 ∷ [])))
unfolding block_at encode le_bytes
be_array-At = record { found = refl }

n-IsCalled : IsCalled point_fields n_field
unfolding field_named
n-IsCalled = record { no_count = refl; named = refl }

xs-IsCalled : IsCalled point_fields xs_field
unfolding field_named
xs-IsCalled = record { no_count = refl; named = refl }

pub point-HoldsAll :
    (b : Bool) (m : Mem)
    → At m 2 (raw (words (layout_of b) (int_type 32) (5 ∷ 6 ∷ [])))
    → HoldsAll (layout_of b) point_fields m (7 ∷ 2 ∷ 2 ∷ []) point_fields point_items
point-HoldsAll b m here =
    next (int_type 16) (scalar 7) n-IsCalled (holds_scalar (n-IsScalar b) refl (omega arith) refl) (
      skip refl refl refl (
        next (int_type 32) (array (5 ∷ 6 ∷ [])) xs-IsCalled
          (holds_array count_field 2 (xs-IsArray b) (elements b) refl refl (inr here)) done))

pub never : (n : ℕ) (m : Mem) → suc (length m) ≢ null
never n m e = absurd (omega arith)

finalize_fields-deserialize-serialize_example :
    IsRebuilt
      (layout_of true)
      (finalize_fields sorter (layout_of true) point).fields
      memory
      point_items
      ((serialize (target_of true ample) (finalize_fields sorter (layout_of true) point).fields 1
          >>= λ p.
              deserialize
                (target_of true ample)
                (finalize_fields sorter (layout_of true) point).fields
                (struct_type p_name)
                p
                0)
        memory)
unfolding finalize_fields add_field add_repeated_field encode le_bytes
finalize_fields-deserialize-serialize_example =
    finalize_fields-deserialize-serialize sorter (target_of true ample) point memory 1
      (7 ∷ 2 ∷ 2 ∷ []) point_items (struct_type p_name) (point-Built sorter (layout_of true))
      (omega arith) (layout_of-IsLayout true) never self-At (point-HoldsAll true memory array-At)
      (omega arith)

n-IsWhole : IsWhole (layout_of false) (int_type 16)
unfolding is_int
n-IsWhole = record { even = refl; full = refl; even_bytes = λ e. refl }

xs-IsWhole : IsWhole (layout_of false) (int_type 32)
unfolding is_int
xs-IsWhole = record { even = refl; full = refl; even_bytes = λ e. refl }

serialize-ordered_example :
    serialize (target_of false ample) point_fields 1 be_memory
    ≡ ok 4 (
        write be_memory 4 (
          some (
            raw (encode true 8 26 ++ ordered_items true (layout_of false).store_size point_items))))
unfolding le_bytes encode
serialize-ordered_example =
    serialize-ordered (target_of false ample) point_fields be_memory 1 (7 ∷ 2 ∷ 2 ∷ []) point_items
      (layout_of-IsLayout false) be_self-At (point-HoldsAll false be_memory be_array-At) refl
      (n-IsWhole, (xs-IsWhole, tt)) (omega arith) (omega arith)

abbrev mislabelled : Mem
mislabelled =
    none
    ∷ some (raw ((wire_count (layout_of false) 99 ++ wires (layout_of false) point_items) ++ []))
    ∷ []

mislabelled-At :
    At mislabelled 1
      (raw ((wire_count (layout_of false) 99 ++ wires (layout_of false) point_items) ++ []))
unfolding block_at
mislabelled-At = record { found = refl }

pub point-TypedAll : (b : Bool) → TypedAll (layout_of b) point_fields 3 point_fields point_items
unfolding deref field_of
point-TypedAll b =
    typed_next (int_type 16) (scalar 7) n-IsCalled (typed_scalar (n-IsScalar b) refl (omega arith))
      (omega arith, tt) (((λ e. absurd (omega arith)), ((λ e. absurd (omega arith)), tt)), tt)
      (typed_skip refl refl refl (
        typed_next (int_type 32) (array (5 ∷ 6 ∷ [])) xs-IsCalled
          (typed_array count_field (xs-IsArray b) (elements b)) (omega arith, (omega arith, tt))
          (tt, (tt, tt)) typed_done))

deserialize-IsRejected_example :
    IsRejected mislabelled
      (deserialize (target_of false ample) point_fields (struct_type p_name) 1 0 mislabelled)
unfolding encode le_bytes
deserialize-IsRejected_example =
    deserialize-IsRejected (target_of false ample) point_fields (layout_of-IsLayout false) never
      mislabelled 1 [] [] point_items (point-TypedAll false) refl (omega arith) (struct_type p_name)
      99 (omega arith) (omega arith) mislabelled-At
