-- ===== src/Ir/Final.antt =====
-- `Struct::finalizeFields` (IR.cpp): the order, the offsets and the type that it makes.
use tyr.Prelude.{
  ℕ, suc, ◌+◌, ◌%◌, ◌^◌, ◌≤◌, ◌≡◌, refl, sym, ap, ◌∙◌, some, List, [], ◌∷◌, map, arith, length, All,
  Rearranged, Inserted, here, there, empty, put,
}
use tyr.Ir.{Field, Struct}
use tyr.Ir.Build.{Sorter, Ascending, get_field_size, set_offsets, finalize_fields}
use tyr.Layout.{DataLayout}

-- The offsets are the positions, from `k` on.
abbrev pub Indexed : ℕ → List Field → Type 0
Indexed k [] = Unit
Indexed k (f ∷ fs) = (f.offset ≡ k) × Indexed (suc k) fs

pub set_offsets-Indexed :
    (k : ℕ) (fs : List Field) → k + length fs ≤ 2 ^ 32 → Indexed k (set_offsets k fs)
set_offsets-Indexed k [] h = tt
set_offsets-Indexed k (f ∷ []) h = (refl, tt)
set_offsets-Indexed k (f ∷ g ∷ fs) h =
    let next : (k + 1) % 2 ^ 32 ≡ suc k = omega arith in
    (refl, rw next (set_offsets-Indexed (suc k) (g ∷ fs) (omega arith)))

length-set_offsets : (k : ℕ) (fs : List Field) → length (set_offsets k fs) ≡ length fs
length-set_offsets k [] = refl
length-set_offsets k (f ∷ fs) = ap suc (length-set_offsets ((k + 1) % 2 ^ 32) fs)

types-set_offsets :
    (k : ℕ) (fs : List Field) → map (λ f. f.type) (set_offsets k fs) ≡ map (λ f. f.type) fs
types-set_offsets k [] = refl
types-set_offsets k (f ∷ fs) = ap (◌∷◌ f.type) (types-set_offsets ((k + 1) % 2 ^ 32) fs)

All-set_offsets_size :
    (P : ℕ → Type 0) (dl : DataLayout) (k : ℕ) (fs : List Field)
    → All (λ f. P (get_field_size dl f)) fs
    → All (λ f. P (get_field_size dl f)) (set_offsets k fs)
All-set_offsets_size P dl k [] h = tt
All-set_offsets_size P dl k (f ∷ fs) h = (h.0, All-set_offsets_size P dl ((k + 1) % 2 ^ 32) fs h.1)

Ascending-set_offsets :
    (dl : DataLayout) (k : ℕ) (fs : List Field)
    → Ascending (get_field_size dl) fs
    → Ascending (get_field_size dl) (set_offsets k fs)
Ascending-set_offsets dl k [] h = tt
Ascending-set_offsets dl k (f ∷ fs) h = (
  All-set_offsets_size (λ n. get_field_size dl f ≤ n) dl _ fs h.0,
  Ascending-set_offsets dl ((k + 1) % 2 ^ 32) fs h.1,
)

length-Inserted : {f : Field} {fs gs : List Field} → Inserted f fs gs → length gs ≡ suc (length fs)
length-Inserted here = refl
length-Inserted (there i) = ap suc (length-Inserted i)

length-Rearranged : {fs gs : List Field} → Rearranged fs gs → length gs ≡ length fs
length-Rearranged empty = refl
length-Rearranged (put r i) = length-Inserted i ∙ ap suc (length-Rearranged r)

-- The fields of a final struct.
pub record IsFinal (dl : DataLayout) (before after : Struct) : Type 0 where
  pub same_number : length after.fields ≡ length before.fields
  pub indexed : Indexed 0 after.fields
  pub ascending : Ascending (get_field_size dl) after.fields
  pub typed : after.type ≡ some (map (λ f. f.type) after.fields)

-- With at most `2 ^ 32` fields, `finalizeFields` leaves as many fields as there were, in ascending
-- order of size, with their positions as offsets, and gives the struct the fields' types in order.
pub finalize_fields-IsFinal :
    (so : Sorter) (dl : DataLayout) (s : Struct)
    → length s.fields ≤ 2 ^ 32
    → IsFinal dl s (finalize_fields so dl s)
unfolding finalize_fields
finalize_fields-IsFinal so dl s h =
    let sorted : List Field = so.sort (get_field_size dl) s.fields in
    let same : length sorted ≡ length s.fields =
      length-Rearranged (so.sort_permutes (get_field_size dl) s.fields) in
    record {
      same_number = length-set_offsets 0 sorted ∙ same;
      indexed = set_offsets-Indexed 0 sorted (omega arith);
      ascending = Ascending-set_offsets dl 0 sorted (so.sort_orders (get_field_size dl) s.fields);
      typed = ap some (sym (types-set_offsets 0 sorted));
    }
