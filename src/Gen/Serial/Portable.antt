-- ===== src/Gen/Serial/Portable.antt =====
-- The wire format of a serialized struct (LLVMIRGenPass.cpp, `getSerializer`), and the part that
-- `swapBytes` has in it.
use mathlib.Core.List.{reverse-reverse}
use tyr.Prelude.{
  ℕ, ◌+◌, ◌/◌, ◌%◌, ◌<◌, ◌≡◌, ◌≢◌, refl, ap, ◌∙◌, Bool, false, not, if◌then◌else◌, ◌&&◌, some, List,
  [], ◌∷◌, ◌++◌, ◌==◌, length, All, Bool-cases, inl, inr,
}
use tyr.Ir.{Ty, int64, Field}
use tyr.Layout.{DataLayout, IsLayout, encode, is_int}
use tyr.Memory.{Ptr, null, cells, raw, Mem, write, ok}
use tyr.Memory.Laws.{At}
use tyr.Gen.{Target, u64_mod, swap_bytes}
use tyr.Gen.Serial.{serialize}
use tyr.Gen.Serial.Words.{word, le_bytes-bswap}
use tyr.Gen.Serial.Values.{
  Value, scalar, array, Item, wire, wire_count, wire_elements, wires, HoldsAll,
}
use tyr.Gen.Serial.Sums.{counts, arrays}
use tyr.Gen.Serial.Buffer.{serialize-ok}

-- The wire format, apart from any target: numbers in one byte order, and arrays behind their counts.
module _ (little : Bool) (size : Ty → ℕ) where
  abbrev pub ordered_elements : Ty → List ℕ → List ℕ
  ordered_elements t [] = []
  ordered_elements t (x ∷ xs) = encode little (size t) x ++ ordered_elements t xs

  abbrev pub ordered_value : Ty → Value → List ℕ
  ordered_value t (scalar v) = encode little (size t) v
  ordered_value t (array xs) = encode little 8 (length xs) ++ ordered_elements t xs

  abbrev pub ordered_items : List Item → List ℕ
  ordered_items [] = []
  ordered_items (x ∷ items) = ordered_value x.type x.value ++ ordered_items items

-- A type of whole bytes, as many as are stored, and of an even number of them if they are swapped.
pub record IsWhole (dl : DataLayout) (t : Ty) : Type 0 where
  pub even : (is_int t && not (dl.size_in_bits t % 8 == 0)) ≡ false
  pub full : dl.size_in_bits t / 8 ≡ dl.store_size t
  pub even_bytes : dl.is_little_endian ≡ false → dl.size_in_bits t / 8 % 2 ≡ 0

int64-IsWhole : {dl : DataLayout} → IsLayout dl → IsWhole dl int64
unfolding is_int
int64-IsWhole lay = record {
  even = rw lay.int64_bits;
  full = rw (lay.int64_bits, lay.int64_store);
  even_bytes = λ e. rw lay.int64_bits;
}

-- The order of the bytes of what is written.
abbrev pub wire_order : DataLayout → Bool
wire_order dl = if dl.is_little_endian then dl.stores_little_endian else not dl.stores_little_endian

module _ {dl : DataLayout} where
  word-encode :
      (t : Ty) (v : ℕ)
      → IsWhole dl t
      → word dl t (swap_bytes dl t v) ≡ encode (wire_order dl) (dl.store_size t) v
  unfolding swap_bytes encode
  word-encode t v w = elim (Bool-cases dl.is_little_endian) [
    | inl e ↦ elim (Bool-cases dl.stores_little_endian) [
      | inl e' ↦ rw (e, e')
      | inr e' ↦ rw (e, e')
    ]
    | inr e ↦ elim (Bool-cases dl.stores_little_endian) [
      | inl e' ↦ rw (e, e', w.even, w.full, le_bytes-bswap)
      | inr e' ↦ rw (e, e', w.even, w.full, le_bytes-bswap, reverse-reverse)
    ]
  ]

  elements-ordered :
      (t : Ty) (xs : List ℕ)
      → IsWhole dl t
      → wire_elements dl t xs ≡ ordered_elements (wire_order dl) dl.store_size t xs
  elements-ordered t [] w = refl
  elements-ordered t (x ∷ xs) w = rw (word-encode t x w, elements-ordered t xs w)

  pub count-encode : IsLayout dl → (n : ℕ) → wire_count dl n ≡ encode (wire_order dl) 8 n
  count-encode lay n =
      word-encode int64 n (int64-IsWhole lay) ∙ ap (λ k. encode (wire_order dl) k n) lay.int64_store

  wire-ordered :
      (t : Ty) (v : Value)
      → IsLayout dl
      → IsWhole dl t
      → wire dl t v ≡ ordered_value (wire_order dl) dl.store_size t v
  wire-ordered t (scalar v) lay w = word-encode t v w
  wire-ordered t (array xs) lay w = rw (count-encode lay (length xs), elements-ordered t xs w)

  pub wires-ordered :
      (items : List Item)
      → IsLayout dl
      → All (λ x. IsWhole dl x.type) items
      → wires dl items ≡ ordered_items (wire_order dl) dl.store_size items
  wires-ordered [] lay w = refl
  wires-ordered (x ∷ items) lay (w, ws) =
      rw (wire-ordered x.type x.value lay w, wires-ordered items lay ws)

-- `serialize_<struct>` writes the total size in eight bytes and then the values in the wire format. All
-- numbers are in little-endian order if the layout that `isLittleEndian` was asked of has the byte
-- order of the machine, and in big-endian order if it has not. Numbers are of whole bytes, as many as
-- are stored, and of an even number if they are swapped; the fields are numbers and arrays with names of their own, an array that is swapped is
-- not empty, and there is memory.
pub serialize-ordered :
    (tg : Target) (fs : List Field) (m : Mem) (self : Ptr) (cs : List ℕ) (items : List Item)
    → IsLayout tg.layout
    → At m self (cells cs)
    → HoldsAll tg.layout fs m cs fs items
    → counts fs ≡ arrays items
    → All (λ x. IsWhole tg.layout x.type) items
    → 8 + length (ordered_items (wire_order tg.layout) tg.layout.store_size items) < u64_mod
    → tg.alloc.new_address
        (8 + length (ordered_items (wire_order tg.layout) tg.layout.store_size items))
        m
      ≢ null
    → serialize tg fs self m
      ≡ ok
          (tg.alloc.new_address
            (8 + length (ordered_items (wire_order tg.layout) tg.layout.store_size items))
            m)
          (write m
            (tg.alloc.new_address
              (8 + length (ordered_items (wire_order tg.layout) tg.layout.store_size items))
              m)
            (some (
              raw (
                encode
                  (wire_order tg.layout)
                  8
                  (8 + length (ordered_items (wire_order tg.layout) tg.layout.store_size items))
                ++ ordered_items (wire_order tg.layout) tg.layout.store_size items))))
serialize-ordered tg fs m self cs items lay here holds paired whole bound ne =
    let e = wires-ordered items lay whole in
    rw (e, count-encode lay) at
      (serialize-ok tg fs lay m self cs here items holds paired (rw e bound) (rw e ne))
