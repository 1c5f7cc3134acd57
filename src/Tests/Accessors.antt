-- ===== src/Tests/Accessors.antt =====
-- Witnesses: the accessors, the constructor and the destructor on a small struct.
use tyr.Prelude.{ℕ, ◌≡◌, ◌≢◌, refl, inr, true, false, none, some, List, [], ◌∷◌, arith, All}
use tyr.Prelude.Bytes.{le_bytes}
use tyr.Ir.{pointer_to, int_type, struct_type, Field}
use tyr.Ir.Build.{at_offset, plain_field, count_of, repeated_field}
use tyr.Layout.{encode, is_pointer}
use tyr.Memory.{null, cells, raw, write, block_at, ok, fault, resize, ◌>>=◌}
use tyr.Memory.Laws.{At}
use tyr.Gen.{null_check, deref, field_of}
use tyr.Gen.Serial.Words.{words}
use tyr.Gen.Access.{getter, item_getter, item_setter}
use tyr.Gen.Access.Guards.{null_check-All, getter-null}
use tyr.Gen.Access.Copy.{getter-words}
use tyr.Gen.Access.Items.{HasArray, items_past, item_getter-get_elem?, item_setter-set}
use tyr.Gen.Update.{setter}
use tyr.Gen.Update.Repeated.{IsStored}
use tyr.Gen.Update.Setter.{place, setter-IsStored, setter-fails}
use tyr.Gen.Update.Value.{getter-setter}
use tyr.Gen.Update.Count.{Counts, IsResized, setter-restores, setter-IsResized}
use tyr.Gen.Object.{create, destroy}
use tyr.Gen.Object.Create.{takes_none, takes_mutable, takes_value, create-initial}
use tyr.Gen.Object.Destroy.{owns_none, owns_value, owns_array, destroy-without}
use tyr.Tests.{
  layout_of, ample, exhausted, target_of, n_field, count_field, xs_field, point_fields, five_six,
  memory, p_name, xs_name,
}
use tyr.Tests.Serial.{xs-IsArray}

abbrev cs : List ℕ
cs = 7 ∷ 2 ∷ 2 ∷ []

self-At : At memory 1 (cells cs)
unfolding block_at
self-At = record { found = refl }

array-At : At memory 2 (raw (words (layout_of true) (int_type 32) (5 ∷ 6 ∷ [])))
unfolding block_at encode le_bytes
array-At = record { found = refl }

raw-At : At memory 2 (raw five_six)
unfolding block_at
raw-At = record { found = refl }

out-At : At memory 3 (cells (0 ∷ []))
unfolding block_at
out-At = record { found = refl }

source-At : At memory 4 (raw (words (layout_of true) (int_type 32) (9 ∷ [])))
unfolding block_at encode le_bytes
source-At = record { found = refl }

point-HasArray :
    HasArray
      (layout_of true)
      point_fields
      memory
      1
      xs_field
      count_field
      (int_type 32)
      2
      (5 ∷ 6 ∷ [])
point-HasArray = record {
  cs = cs;
  self_at = self-At;
  is = xs-IsArray true;
  count_at = refl;
  array_at = refl;
  elements_at = array-At;
  small = omega arith;
}

null_check-All_example :
    (null_check 0 (3 ∷ []) ≡ false → All (λ q. q ≡ null) (0 ∷ 3 ∷ []))
    × (All (λ q. q ≡ null) (0 ∷ 3 ∷ []) → null_check 0 (3 ∷ []) ≡ false)
null_check-All_example = null_check-All 0 (3 ∷ [])

-- A mutable value, in the place of `n`.
abbrev m_field : Field
m_field = at_offset 0 (plain_field 2 p_name (int_type 16) true)

getter-setter_example :
    (setter (target_of true ample) (m_field ∷ []) m_field 1 9 0 >>= λ done.
    getter (target_of true ample) (m_field ∷ []) m_field 1 3)
      memory
    ≡ ok true (write (write memory 1 (some (cells (9 ∷ 2 ∷ 2 ∷ [])))) 3 (some (cells (9 ∷ []))))
getter-setter_example =
    getter-setter (target_of true ample) (m_field ∷ []) m_field memory 1 3 cs 0 9 0 refl refl refl
      refl (omega arith) self-At out-At (omega arith)

getter-null_example :
    (getter (target_of true ample) point_fields n_field null null memory ≡ ok false memory)
    × (3 ≢ null → getter (target_of true ample) point_fields n_field null 3 memory ≡ fault)
getter-null_example = getter-null (target_of true ample) point_fields n_field memory 3

items_past_example :
    ((out : ℕ)
      → item_getter (target_of true ample) point_fields xs_field 1 2 out memory ≡ ok false memory)
    × ((v : ℕ)
        → item_setter (target_of true ample) point_fields xs_field 1 2 v memory ≡ ok false memory)
items_past_example =
    items_past (target_of true ample) point_fields memory 1 xs_field count_field (int_type 32) 2
      (5 ∷ 6 ∷ []) point-HasArray 2 (omega arith)

item_getter-get_elem?_example :
    item_getter (target_of true ample) point_fields xs_field 1 1 3 memory
    ≡ ok true (write memory 3 (some (cells (6 ∷ []))))
item_getter-get_elem?_example =
    item_getter-get_elem? (target_of true ample) point_fields memory 1 xs_field count_field
      (int_type 32) 2 (5 ∷ 6 ∷ []) point-HasArray 1 6 refl 3 0 (omega arith) out-At

item_setter-set_example :
    item_setter (target_of true ample) point_fields xs_field 1 1 8 memory
    ≡ ok true (write memory 2 (some (raw (words (layout_of true) (int_type 32) (5 ∷ 8 ∷ [])))))
item_setter-set_example =
    item_setter-set (target_of true ample) point_fields memory 1 xs_field count_field (int_type 32)
      2 (5 ∷ 6 ∷ []) point-HasArray 1 6 refl 8

setter-IsSet_example :
    IsStored
      (target_of true ample)
      point_fields
      xs_field
      count_field
      (int_type 32)
      1
      cs
      (9 ∷ [])
      (place
        (target_of true ample)
        point_fields
        xs_field
        count_field
        (int_type 32)
        (xs-IsArray true)
        1
        4
        (9 ∷ [])
        (omega arith)
        memory
        cs
        self-At
        source-At
        2
        2
        refl
        refl)
      (setter (target_of true ample) point_fields xs_field 1 4 1 memory)
setter-IsSet_example =
    setter-IsStored (target_of true ample) point_fields xs_field count_field (int_type 32)
      (xs-IsArray true) 1 4 (9 ∷ []) (omega arith) memory cs self-At source-At 2 2 refl refl
      (inr (five_six, raw-At, refl)) (omega arith) (omega arith) (omega arith)

setter-fails_example :
    setter (target_of true exhausted) point_fields xs_field 1 4 1 memory
    ≡ ok false (write memory 1 (some (cells (7 ∷ 1 ∷ 2 ∷ []))))
setter-fails_example =
    setter-fails (target_of true exhausted) point_fields xs_field count_field (int_type 32)
      (xs-IsArray true) 1 4 (9 ∷ []) (omega arith) memory cs self-At source-At 2 2 refl refl
      (inr (omega arith, omega arith, (five_six, raw-At), refl))

point-Counts :
    Counts
      (target_of true ample)
      point_fields
      memory
      1
      cs
      self-At
      count_field
      xs_field
      (int_type 32)
      2
      2
      five_six
unfolding deref field_of
point-Counts = record {
  plain = refl;
  single = refl;
  count = refl;
  counts = refl;
  counted = refl;
  repeated = refl;
  points = refl;
  apart = λ e. absurd (omega arith);
  count_at = refl;
  array_at = refl;
  elements_at = raw-At;
}

exhausted-Counts :
    Counts
      (target_of true exhausted)
      point_fields
      memory
      1
      cs
      self-At
      count_field
      xs_field
      (int_type 32)
      2
      2
      five_six
unfolding deref field_of
exhausted-Counts = record {
  plain = refl;
  single = refl;
  count = refl;
  counts = refl;
  counted = refl;
  repeated = refl;
  points = refl;
  apart = λ e. absurd (omega arith);
  count_at = refl;
  array_at = refl;
  elements_at = raw-At;
}

setter-restores_example :
    setter (target_of true exhausted) point_fields count_field 1 3 0 memory ≡ ok false memory
setter-restores_example =
    setter-restores (target_of true exhausted) point_fields memory 1 cs self-At count_field xs_field
      (int_type 32) 2 2 five_six exhausted-Counts 3 0 (omega arith) (omega arith) refl

setter-IsResized_example :
    IsResized 1 2 1 6 3
      (resize ample five_six 12)
      (setter (target_of true ample) point_fields count_field 1 3 0 memory)
unfolding write
setter-IsResized_example =
    setter-IsResized (target_of true ample) point_fields memory 1 cs self-At count_field xs_field
      (int_type 32) 2 2 five_six point-Counts 3 0 (omega arith) (omega arith)

n_no_pointer : is_pointer n_field.type ≡ false
unfolding is_pointer
n_no_pointer = refl

count_no_pointer : is_pointer count_field.type ≡ false
unfolding is_pointer
count_no_pointer = refl

xs_pointer : is_pointer xs_field.type ≡ true
unfolding is_pointer
xs_pointer = refl

create-initial_example :
    ((ample.new_address 16 [] ≡ null)
      → create (target_of true ample) point_fields (struct_type p_name) (7 ∷ []) [] ≡ ok null [])
    × ((ample.new_address 16 [] ≢ null)
        → create (target_of true ample) point_fields (struct_type p_name) (7 ∷ []) []
          ≡ ok 1 (write [] 1 (some (cells (7 ∷ 0 ∷ 0 ∷ [])))))
create-initial_example =
    create-initial (target_of true ample) point_fields (struct_type p_name) (7 ∷ []) []
      (takes_value refl n_no_pointer (takes_mutable refl (takes_mutable refl takes_none)))
      (refl, (refl, (refl, tt)))

destroy-without_example : destroy point_fields 1 memory ≡ ok tt (write (write memory 2 none) 1 none)
destroy-without_example = destroy-without point_fields (2 ∷ []) cs memory 1 self-At (
    owns_value n_no_pointer
      (owns_value count_no_pointer (owns_array 2 five_six xs_pointer refl raw-At tt owns_none)))

-- The same struct with an immutable array.
abbrev frozen_count : Field
frozen_count = at_offset 1 (count_of 0 xs_name false)

abbrev frozen_field : Field
frozen_field = at_offset 2 (repeated_field 0 xs_name (pointer_to (int_type 32)) false)

abbrev frozen_fields : List Field
frozen_fields = n_field ∷ frozen_count ∷ frozen_field ∷ []

frozen-HasArray :
    HasArray
      (layout_of true)
      frozen_fields
      memory
      1
      frozen_field
      frozen_count
      (int_type 32)
      2
      (5 ∷ 6 ∷ [])
unfolding deref field_of
frozen-HasArray = record {
  cs = cs;
  self_at = self-At;
  is = record {
    no_struct = refl;
    repeated = refl;
    points = refl;
    counted = refl;
    count_type = refl;
    count_single = refl;
    apart = λ e. absurd (omega arith);
    is_word = record { dense = refl; swapped = λ e. refl; even_bytes = λ e. refl };
  };
  count_at = refl;
  array_at = refl;
  elements_at = array-At;
  small = omega arith;
}

getter-words_example :
    (6 ≡ null
      → getter (target_of true ample) frozen_fields frozen_field 1 3 memory ≡ ok false memory)
    × (6 ≢ null
        → getter (target_of true ample) frozen_fields frozen_field 1 3 memory
          ≡ ok true (
              write
                (write memory 6 (some (raw (words (layout_of true) (int_type 32) (5 ∷ 6 ∷ [])))))
                3
                (some (cells (6 ∷ [])))))
getter-words_example =
    getter-words (target_of true ample) frozen_fields memory 1 3 frozen_field frozen_count
      (int_type 32) 2 (5 ∷ 6 ∷ []) frozen-HasArray refl 0 out-At
