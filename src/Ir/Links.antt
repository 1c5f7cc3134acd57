-- ===== src/Ir/Links.antt =====
-- The pointers between repeated fields and their counts (IR.hpp, `Field`), through all operations of
-- `Struct`.
use tyr.Prelude.{
  ℕ, suc, ◌<◌, ◌≡◌, ◌≢◌, refl, sym, Bool, true, false, none, some, List, [], ◌∷◌, ◌++◌, arith, All,
  Among, first, later, Inserted, here, there, Rearranged, empty, put, Among-append_left,
  Among-append_right, Among-Rearranged, All-append, All-Inserted, All-Rearranged, All-map,
}
use tyr.Ir.{Name, Ty, int64, Field, Struct}
use tyr.Ir.Build.{
  make_struct, count_suffix, set_is_packed, plain_field, add_field, count_of, repeated_field,
  add_repeated_field, at_offset, set_offsets, Sorter, finalize_fields, get_field_size,
}
use tyr.Layout.{DataLayout}

-- A field has a count exactly if it is repeated: a field that is marked to count for it.
pub data CountOf (fs : List Field) (f : Field) : Type 0 where
  uncounted : f.is_repeated ≡ false → f.count_field ≡ none → CountOf fs f
  counted :
      (c : Field)
      → Among c fs
      → f.is_repeated ≡ true
      → f.is_count ≡ false
      → f.is_struct ≡ false
      → f.count_field ≡ some c.id
      → c.is_count ≡ true
      → c.is_repeated ≡ false
      → c.type ≡ int64
      → c.counts_for ≡ some f.id
      → c.name ≡ f.name ++ count_suffix
      → CountOf fs f

-- No two fields have the same pointer.
abbrev pub Distinct : List Field → Type 0
Distinct [] = Unit
Distinct (f ∷ fs) = All (λ g. f.id ≢ g.id) fs × Distinct fs

pub record IsLinked (s : Struct) : Type 0 where
  pub distinct : Distinct s.fields
  pub fresh : All (λ f. f.id < s.made) s.fields
  pub count : All (CountOf s.fields) s.fields

CountOf-mono :
    {fs gs : List Field}
    → ((c : Field) → Among c fs → Among c gs)
    → (f : Field) → CountOf fs f
    → CountOf gs f
CountOf-mono sub f (uncounted r e) = uncounted r e
CountOf-mono sub f (counted c m a b d e g h i j n) = counted c (sub c m) a b d e g h i j n

Distinct-append :
    (fs gs : List Field)
    → Distinct fs
    → Distinct gs
    → All (λ f. All (λ g. f.id ≢ g.id) gs) fs
    → Distinct (fs ++ gs)
Distinct-append [] gs d e h = e
Distinct-append (f ∷ fs) gs d e h =
    (All-append (λ g. f.id ≢ g.id) fs gs d.0 h.0, Distinct-append fs gs d.1 e h.1)

Distinct-Inserted :
    {f : Field} {fs gs : List Field}
    → Inserted f fs gs
    → All (λ g. f.id ≢ g.id) fs
    → Distinct fs
    → Distinct gs
Distinct-Inserted here h d = (h, d)
Distinct-Inserted {f} (there {y} i) h d =
    (All-Inserted (λ g. y.id ≢ g.id) i (λ e. h.0 (sym e)) d.0, Distinct-Inserted i h.1 d.1)

pub Distinct-Rearranged : {fs gs : List Field} → Rearranged fs gs → Distinct fs → Distinct gs
Distinct-Rearranged empty d = d
Distinct-Rearranged (put {x} r i) d =
    Distinct-Inserted i (All-Rearranged (λ g. x.id ≢ g.id) r d.0) (Distinct-Rearranged r d.1)

pub make_struct-IsLinked : (n : Name) → IsLinked (make_struct n)
make_struct-IsLinked n = record { distinct = tt; fresh = tt; count = tt }

module _ (n : Name) (t : Ty) (mutable : Bool) (s : Struct) (linked : IsLinked s) where
  add_field-IsLinked : IsLinked (add_field n t mutable s)
  unfolding add_field
  add_field-IsLinked =
      let new : List Field = plain_field s.made n t mutable ∷ [] in
      record {
        distinct =
            Distinct-append s.fields _ linked.distinct (tt, tt)
              (All-map s.fields (λ f lt. ((λ e. absurd (omega arith)), tt)) linked.fresh);
        fresh =
            All-append (λ f. f.id < suc s.made) s.fields _
              (All-map s.fields (λ f lt. omega arith) linked.fresh) (omega arith, tt);
        count =
            All-append (CountOf (s.fields ++ new)) s.fields _
              (All-map s.fields (CountOf-mono (λ c m. Among-append_left new m)) linked.count)
              (uncounted refl refl, tt);
      }

  add_repeated_field-IsLinked : IsLinked (add_repeated_field n t mutable s)
  unfolding add_repeated_field
  add_repeated_field-IsLinked =
      let c : Field = count_of s.made n mutable in
      let r : Field = repeated_field s.made n t mutable in
      let new : List Field = c ∷ r ∷ [] in
      record {
        distinct =
            Distinct-append s.fields _ linked.distinct (((λ e. absurd (omega arith)), tt), (tt, tt))
              (All-map s.fields
                (λ f lt. ((λ e. absurd (omega arith)), ((λ e. absurd (omega arith)), tt)))
                linked.fresh);
        fresh =
            All-append (λ f. f.id < suc (suc s.made)) s.fields _
              (All-map s.fields (λ f lt. omega arith) linked.fresh)
              (omega arith, (omega arith, tt));
        count =
            All-append (CountOf (s.fields ++ new)) s.fields _
              (All-map s.fields (CountOf-mono (λ c m. Among-append_left new m)) linked.count)
              (
                uncounted refl refl,
                (
                  counted c (Among-append_right s.fields first) refl refl refl refl refl refl refl
                      refl refl,
                  tt,
                ),
              );
      }

Among-set_offsets :
    {c : Field} {fs : List Field} (k : ℕ)
    → Among c fs
    → (j : ℕ) × Among (at_offset j c) (set_offsets k fs)
Among-set_offsets k first = (k, first)
Among-set_offsets k (later m) = let (j, m') = Among-set_offsets _ m in (j, later m')

module _ (P : Field → Type 0) where
  pub All-set_offsets :
      (fs : List Field) (k : ℕ)
      → ((f : Field) (j : ℕ) → P f → P (at_offset j f))
      → All P fs
      → All P (set_offsets k fs)
  All-set_offsets [] k keep h = h
  All-set_offsets (f ∷ fs) k keep h = (keep f k h.0, All-set_offsets fs _ keep h.1)

Distinct-set_offsets : (fs : List Field) (k : ℕ) → Distinct fs → Distinct (set_offsets k fs)
Distinct-set_offsets [] k d = d
Distinct-set_offsets (f ∷ fs) k d =
    (All-set_offsets (λ g. f.id ≢ g.id) fs _ (λ g j h. h) d.0, Distinct-set_offsets fs _ d.1)

CountOf-set_offsets :
    (fs : List Field) (k j : ℕ) (f : Field)
    → CountOf fs f
    → CountOf (set_offsets k fs) (at_offset j f)
CountOf-set_offsets fs k j f (uncounted r e) = uncounted r e
CountOf-set_offsets fs k j f (counted c m a b d e g h i l n) =
    let (o, m') = Among-set_offsets k m in counted (at_offset o c) m' a b d e g h i l n

module _ (so : Sorter) (dl : DataLayout) (s : Struct) (linked : IsLinked s) where
  finalize_fields-IsLinked : IsLinked (finalize_fields so dl s)
  unfolding finalize_fields
  finalize_fields-IsLinked =
      let sorted : List Field = so.sort (get_field_size dl) s.fields in
      let order : Rearranged s.fields sorted = so.sort_permutes (get_field_size dl) s.fields in
      record {
        distinct = Distinct-set_offsets sorted 0 (Distinct-Rearranged order linked.distinct);
        fresh =
            All-set_offsets (λ f. f.id < s.made) sorted 0 (λ f j h. h)
              (All-Rearranged (λ f. f.id < s.made) order linked.fresh);
        count = placed sorted sorted 0 0 (
            All-map sorted (CountOf-mono (λ c m. Among-Rearranged order m))
              (All-Rearranged (CountOf s.fields) order linked.count));
      }
    where
      placed :
          (gs fs : List Field) (j k : ℕ)
          → All (CountOf gs) fs
          → All (CountOf (set_offsets j gs)) (set_offsets k fs)
      placed gs [] j k h = h
      placed gs (f ∷ fs) j k h = (CountOf-set_offsets gs j k f h.0, placed gs fs j _ h.1)

-- What the operations make of a new struct, in any order.
pub data Built (so : Sorter) (dl : DataLayout) : Struct → Type 0 where
  created : (n : Name) → Built so dl (make_struct n)
  packed : {s : Struct} (b : Bool) → Built so dl s → Built so dl (set_is_packed b s)
  field_added :
      {s : Struct} (n : Name) (t : Ty) (mutable : Bool)
      → Built so dl s
      → Built so dl (add_field n t mutable s)
  repeated_added :
      {s : Struct} (n : Name) (t : Ty) (mutable : Bool)
      → Built so dl s
      → Built so dl (add_repeated_field n t mutable s)
  finalized : {s : Struct} → Built so dl s → Built so dl (finalize_fields so dl s)

-- Whatever operations have made a struct, no two of its fields have the same pointer, and each
-- repeated field, and no other, has the pointer of a count field of the struct that points back.
pub Built-IsLinked : {so : Sorter} {dl : DataLayout} {s : Struct} → Built so dl s → IsLinked s
Built-IsLinked (created n) = make_struct-IsLinked n
Built-IsLinked (packed b h) =
    let l = Built-IsLinked h in record { distinct = l.distinct; fresh = l.fresh; count = l.count }
Built-IsLinked (field_added {s} n t mutable h) = add_field-IsLinked n t mutable s (Built-IsLinked h)
Built-IsLinked (repeated_added {s} n t mutable h) =
    add_repeated_field-IsLinked n t mutable s (Built-IsLinked h)
Built-IsLinked {so} {dl} (finalized {s} h) = finalize_fields-IsLinked so dl s (Built-IsLinked h)
