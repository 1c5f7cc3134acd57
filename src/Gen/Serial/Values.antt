-- ===== src/Gen/Serial/Values.antt =====
-- What a struct holds, apart from where it lies: the abstract values of its fields, their bytes in
-- a serialized buffer, and the predicate that relates them to the memory.
use tyr.Prelude.{
  ℕ, suc, ◌+◌, ◌*◌, ◌<◌, ◌≡◌, ◌≢◌, refl, ap, ◌∙◌, true, false, none, some, List, [], ◌∷◌, ◌++◌, map,
  length, All, get_elem?, length-append, All-append,
}
use tyr.Prelude.Bytes.{IsByte}
use tyr.Ir.{Ty, int64, pointer_to, Field}
use tyr.Layout.{DataLayout, IsLayout, pointee, is_pointer, length-encode}
use tyr.Memory.{Ptr, Mem}
use tyr.Memory.Laws.{Backs}
use tyr.Gen.{u64_mod, deref, field_named, swap_bytes}
use tyr.Gen.Serial.Words.{IsWord, Fits, word, words, Loops, length-words, word-IsByte, words-IsByte}

-- A number, or the elements of an array.
pub data Value : Type 0 where
  scalar : ℕ → Value
  array : List ℕ → Value

-- The type of a repeated field's elements.
abbrev pub element : Field → Ty
element f = elim (pointee f.type) [ none ↦ f.type | some t ↦ t ]

module _ (dl : DataLayout) where
  -- The bytes of an array's elements in a buffer.
  abbrev pub wire_elements : Ty → List ℕ → List ℕ
  wire_elements t xs = words dl t (map (swap_bytes dl t) xs)

  abbrev pub wire_count : ℕ → List ℕ
  wire_count n = word dl int64 (swap_bytes dl int64 n)

  -- The bytes of one field.
  abbrev pub wire : Ty → Value → List ℕ
  wire t (scalar v) = word dl t (swap_bytes dl t v)
  wire t (array xs) = wire_count (length xs) ++ wire_elements t xs

  -- Of a field that is no array, and of a repeated field with its count field.
  pub record IsScalar (f : Field) : Type 0 where
    pub no_struct : f.is_struct ≡ false
    pub single : f.is_repeated ≡ false
    pub no_pointer : is_pointer f.type ≡ false
    pub is_word : IsWord dl f.type

  pub record IsArray (fs : List Field) (f c : Field) (t : Ty) : Type 0 where
    pub no_struct : f.is_struct ≡ false
    pub repeated : f.is_repeated ≡ true
    pub points : f.type ≡ pointer_to t
    pub counted : deref fs f.count_field ≡ some c
    pub count_type : c.type ≡ int64
    pub count_single : c.is_repeated ≡ false
    pub apart : c.offset ≢ f.offset
    pub is_word : IsWord dl t

  -- The elements of an array whose serialized size does not wrap.
  pub record IsElements (t : Ty) (xs : List ℕ) : Type 0 where
    pub fit : All (Fits dl t) xs
    pub loops : Loops dl t xs
    pub few : length xs < u64_mod
    pub small : 8 + dl.alloc_size t * length xs < u64_mod

-- With these cells of its struct and this memory, a field has this value. The type stands for the
-- field's own, or for that of its elements.
pub data Holds (dl : DataLayout) (fs : List Field) (m : Mem) (cs : List ℕ)
    : Field → Ty → Value → Type 0 where
  holds_scalar :
      {f : Field} {t : Ty} {v : ℕ}
      → IsScalar dl f
      → f.type ≡ t
      → Fits dl t v
      → get_elem? cs f.offset ≡ some v
      → Holds dl fs m cs f t (scalar v)
  holds_array :
      {f : Field} {t : Ty} {xs : List ℕ} (c : Field) (p : Ptr)
      → IsArray dl fs f c t
      → IsElements dl t xs
      → get_elem? cs c.offset ≡ some (length xs)
      → get_elem? cs f.offset ≡ some p
      → Backs m p (words dl t xs)
      → Holds dl fs m cs f t (array xs)

-- A field that the loops serialize, with its value and the type of that.
pub record Item : Type 0 where
  pub field : Field
  pub type : Ty
  pub value : Value

abbrev pub item : Field → Ty → Value → Item
item f t v = record { field = f; type = t; value = v }

-- The bytes of a struct's values, behind the header.
abbrev pub wires : DataLayout → List Item → List ℕ
wires dl [] = []
wires dl (x ∷ xs) = wire dl x.type x.value ++ wires dl xs

-- A field that is no count field, and whose functions are found under its name.
pub record IsCalled (fs : List Field) (f : Field) : Type 0 where
  pub no_count : f.is_count ≡ false
  pub named : field_named fs f.name ≡ some f

-- The items are the fields that are no count fields, in order, each with what it holds.
pub data HoldsAll (dl : DataLayout) (fs : List Field) (m : Mem) (cs : List ℕ)
    : List Field → List Item → Type 0 where
  done : HoldsAll dl fs m cs [] []
  skip :
      {f : Field} {rest : List Field} {items : List Item}
      → f.is_count ≡ true
      → f.is_repeated ≡ false
      → f.type ≡ int64
      → HoldsAll dl fs m cs rest items
      → HoldsAll dl fs m cs (f ∷ rest) items
  next :
      {f : Field} {rest : List Field} {items : List Item} (t : Ty) (v : Value)
      → IsCalled fs f
      → Holds dl fs m cs f t v
      → HoldsAll dl fs m cs rest items
      → HoldsAll dl fs m cs (f ∷ rest) (item f t v ∷ items)

pub length-map :
    (dl : DataLayout) (t : Ty) (xs : List ℕ) → length (map (swap_bytes dl t) xs) ≡ length xs
length-map dl t [] = refl
length-map dl t (x ∷ xs) = ap suc (length-map dl t xs)

module _ {dl : DataLayout} (lay : IsLayout dl) where
  pub length-wire_count : (n : ℕ) → length (wire_count dl n) ≡ 8
  length-wire_count n =
      length-encode dl.stores_little_endian (dl.store_size int64) (swap_bytes dl int64 n)
      ∙ lay.int64_store

  pub length-wire_scalar : (t : Ty) (v : ℕ) → length (wire dl t (scalar v)) ≡ dl.store_size t
  length-wire_scalar t v =
      length-encode dl.stores_little_endian (dl.store_size t) (swap_bytes dl t v)

  pub length-wire_array :
      (t : Ty) (xs : List ℕ)
      → IsWord dl t
      → length (wire dl t (array xs)) ≡ 8 + dl.alloc_size t * length xs
  length-wire_array t xs w =
      length-append (wire_count dl (length xs)) _
      ∙ rw (length-wire_count (length xs), length-words, length-map, w.dense)

module _ (dl : DataLayout) where
  wire-IsByte : (t : Ty) (v : Value) → All IsByte (wire dl t v)
  wire-IsByte t (scalar v) = word-IsByte dl t (swap_bytes dl t v)
  wire-IsByte t (array xs) =
      All-append IsByte (wire_count dl (length xs)) (wire_elements dl t xs)
        (word-IsByte dl int64 (swap_bytes dl int64 (length xs)))
        (words-IsByte dl t (map (swap_bytes dl t) xs))

  pub wires-IsByte : (items : List Item) → All IsByte (wires dl items)
  wires-IsByte [] = tt
  wires-IsByte (x ∷ items) =
      All-append IsByte (wire dl x.type x.value) (wires dl items) (wire-IsByte x.type x.value)
        (wires-IsByte items)
