-- ===== src/Ir/Build.antt =====
-- lib/compiler/IR/IR.cpp: the operations of `Struct`. `std::sort` is a parameter, as the order in
-- which it leaves elements of the same size is not specified.
use tyr.Prelude.{
  codes, ℕ, suc, ◌+◌, ◌%◌, ◌^◌, ◌≤◌, Bool, true, false, none, some, List, [], ◌∷◌, ◌++◌, map, All,
  Rearranged,
}
use tyr.Ir.{Name, Ty, struct_type, pointer_to, int64, FieldPtr, Field, Struct}
use tyr.Layout.{DataLayout}

-- `Struct::Struct`
abbrev pub make_struct : Name → Struct
make_struct n = record { name = n; packed = false; type = none; fields = []; made = 0 }

-- `Struct::setIsPacked`
abbrev pub set_is_packed : Bool → Struct → Struct
set_is_packed b s = record {
  name = s.name;
  packed = b;
  type = s.type;
  fields = s.fields;
  made = s.made;
}

abbrev is_struct_pointer : Ty → Bool
is_struct_pointer (pointer_to (struct_type n)) = true
is_struct_pointer t = false

abbrev pub plain_field : FieldPtr → Name → Ty → Bool → Field
plain_field i n t m = record {
  id = i;
  name = n;
  type = t;
  is_mutable = m;
  is_struct = is_struct_pointer t;
  is_repeated = false;
  is_count = false;
  count_field = none;
  counts_for = none;
  offset = 0;
}

-- `Struct::addField`
unfoldable pub add_field : Name → Ty → Bool → Struct → Struct
add_field n t m s = record {
  name = s.name;
  packed = s.packed;
  type = s.type;
  fields = s.fields ++ (plain_field s.made n t m ∷ []);
  made = suc s.made;
}

-- The characters of "_count".
abbrev pub count_suffix : Name
count_suffix = codes "_count"

abbrev pub count_of : FieldPtr → Name → Bool → Field
count_of i n m = record {
  id = i;
  name = n ++ count_suffix;
  type = int64;
  is_mutable = m;
  is_struct = false;
  is_repeated = false;
  is_count = true;
  count_field = none;
  counts_for = some (suc i);
  offset = 0;
}

abbrev pub repeated_field : FieldPtr → Name → Ty → Bool → Field
repeated_field i n t m = record {
  id = suc i;
  name = n;
  type = t;
  is_mutable = m;
  is_struct = false;
  is_repeated = true;
  is_count = false;
  count_field = some i;
  counts_for = none;
  offset = 0;
}

-- `Struct::addRepeatedField`: the count field, and then the repeated field, each with the other's
-- pointer.
unfoldable pub add_repeated_field : Name → Ty → Bool → Struct → Struct
add_repeated_field n t m s = record {
  name = s.name;
  packed = s.packed;
  type = s.type;
  fields = s.fields ++ (count_of s.made n m ∷ repeated_field s.made n t m ∷ []);
  made = suc (suc s.made);
}

-- `getFieldSize`
abbrev pub get_field_size : DataLayout → Field → ℕ
get_field_size dl f = dl.alloc_size f.type

abbrev pub Ascending : (Field → ℕ) → List Field → Type 0
Ascending key [] = Unit
Ascending key (f ∷ fs) = All (λ g. key f ≤ key g) fs × Ascending key fs

-- `std::sort` with a comparison of keys: some order of the elements with ascending keys.
pub record Sorter : Type 0 where
  pub sort : (Field → ℕ) → List Field → List Field
  pub sort_permutes : (key : Field → ℕ) (fs : List Field) → Rearranged fs (sort key fs)
  pub sort_orders : (key : Field → ℕ) (fs : List Field) → Ascending key (sort key fs)

abbrev pub at_offset : ℕ → Field → Field
at_offset k f = record {
  id = f.id;
  name = f.name;
  type = f.type;
  is_mutable = f.is_mutable;
  is_struct = f.is_struct;
  is_repeated = f.is_repeated;
  is_count = f.is_count;
  count_field = f.count_field;
  counts_for = f.counts_for;
  offset = k;
}

-- The loop that gives each field its offset, a `uint32_t`.
abbrev pub set_offsets : ℕ → List Field → List Field
set_offsets k [] = []
set_offsets k (f ∷ fs) = at_offset k f ∷ set_offsets ((k + 1) % 2 ^ 32) fs

-- `Struct::finalizeFields`
unfoldable pub finalize_fields : Sorter → DataLayout → Struct → Struct
finalize_fields so dl s =
    let sorted = so.sort (get_field_size dl) s.fields in
    record {
      name = s.name;
      packed = s.packed;
      type = some (map (λ f. f.type) sorted);
      fields = set_offsets 0 sorted;
      made = s.made;
    }
