-- ===== src/Tests/Files.antt =====
-- Witnesses: FileHelper.c on a small struct.
use tyr.Prelude.{ℕ, ◌+◌, ◌≤◌, ◌≡◌, refl, true, false, some, [], ◌∷◌, arith}
use tyr.Prelude.Bytes.{le_bytes}
use tyr.Ir.{Name, struct_type}
use tyr.Ir.Build.{finalize_fields, add_field, add_repeated_field}
use tyr.Layout.{encode}
use tyr.Memory.{free}
use tyr.Gen.Serial.{serialize, deserialize}
use tyr.Runtime.Stdio.{Disk, Stdio, done, ◌>>◌}
use tyr.Runtime.FileHelper.{serialize_to_file, deserialize_from_file}
use tyr.Runtime.FileHelper.RoundTrip.{
  IsLoaded, deserialize_from_file-serialize_to_file, serialize_to_file-empties,
}
use tyr.Tests.{
  layout_of, layout_of-IsLayout, ample, exhausted, target_of, sorter, point, point-Built, memory,
  p_name,
}
use tyr.Tests.Serial.{point_items, self-At, array-At, point-HoldsAll, never}

le_refl : (n : ℕ) → n ≤ n
le_refl n = omega arith

abbrev willing : Stdio
willing = record {
  may_write = λ n. true;
  may_read = λ n. true;
  libc_free = free;
  accepts = λ n. n;
  accepts_at_most = le_refl;
}

abbrev file_name : Name
file_name = b'p' ∷ b'.' ∷ b'b' ∷ []

-- A disk on which the file has three bytes.
abbrev used_disk : Disk
used_disk = record { files = λ n. some (1 ∷ 2 ∷ 3 ∷ []); open_streams = 0 }

deserialize_from_file-serialize_to_file_example :
    IsLoaded
      (layout_of true)
      (finalize_fields sorter (layout_of true) point).fields
      memory
      used_disk
      point_items
      ((serialize_to_file willing ample true file_name
            (serialize
              (target_of true ample)
              (finalize_fields sorter (layout_of true) point).fields)
            1
          >> deserialize_from_file willing ample true file_name (λ p.
            deserialize
              (target_of true ample)
              (finalize_fields sorter (layout_of true) point).fields
              (struct_type p_name)
              p
              0))
        memory used_disk)
unfolding finalize_fields add_field add_repeated_field encode le_bytes
deserialize_from_file-serialize_to_file_example =
    deserialize_from_file-serialize_to_file willing sorter (target_of true ample) point file_name
      memory used_disk 1 (7 ∷ 2 ∷ 2 ∷ []) point_items (struct_type p_name)
      (point-Built sorter (layout_of true)) (omega arith) (layout_of-IsLayout true) refl (λ a. refl)
      never refl refl (λ n. refl) self-At (point-HoldsAll true memory array-At) (omega arith)

serialize_to_file-empties_example :
    (d' : Disk) × (serialize_to_file willing exhausted true file_name
        (serialize
          (target_of true exhausted)
          (finalize_fields sorter (layout_of true) point).fields)
        1
        memory
        used_disk
      ≡ done false memory d')
    × (d'.files file_name ≡ some [])
    × (d'.open_streams ≡ 0 + 1)
unfolding finalize_fields add_field add_repeated_field encode le_bytes
serialize_to_file-empties_example =
    serialize_to_file-empties willing sorter (target_of true exhausted) point file_name memory
      used_disk 1 (7 ∷ 2 ∷ 2 ∷ []) point_items (point-Built sorter (layout_of true))
      (layout_of-IsLayout true) refl self-At (point-HoldsAll true memory array-At) (omega arith)
      refl
