-- ===== src/Gen/Access/Items.antt =====
-- `getItemGetter` and `getItemSetter` of LLVMIRGenPass.cpp: one element of a repeated field.
use tyr.Prelude.{
  ℕ, zero, suc, ◌*◌, ◌%◌, ◌≤◌, ◌<◌, ◌≡◌, refl, ◌∙◌, true, false, some, List, [], ◌∷◌, ◌++◌, arith,
  ltb, lt→ltb, length, get_elem?, set, length-append, append_assoc, get_elem?-lt,
}
use tyr.Ir.{Ty, Field}
use tyr.Layout.{DataLayout, pointee, length-encode}
use tyr.Memory.{Ptr, cells, raw, Mem, write, ok}
use tyr.Memory.Laws.{At, At-ne_null, load_cell-ok, store_cell-ok}
use tyr.Gen.{Target, u64_mod}
use tyr.Gen.Sizes.{null_check_two, null_check_one}
use tyr.Gen.Serial.Words.{Fits, word, words, load_num-ok, store_num-ok}
use tyr.Gen.Serial.Values.{IsArray}
use tyr.Gen.Access.{item_getter, item_setter}

-- The bytes of an array around its element `i`.
record IsSplit (dl : DataLayout) (t : Ty) (xs : List ℕ) (i : ℕ) (x : ℕ) : Type 0 where
  front : List ℕ
  back : List ℕ
  at : length front ≡ dl.store_size t * i
  bytes : words dl t xs ≡ front ++ (word dl t x ++ back)
  bytes_set : (v : ℕ) → words dl t (set xs i v) ≡ front ++ (word dl t v ++ back)

split :
    (dl : DataLayout) (t : Ty) (xs : List ℕ) (i x : ℕ)
    → get_elem? xs i ≡ some x
    → IsSplit dl t xs i x
split dl t [] i x e = cc
split dl t (y ∷ xs) zero x e =
    let same : y ≡ x = cc in
    record {
      front = [];
      back = words dl t xs;
      at = omega arith;
      bytes = rw same;
      bytes_set = λ v. refl;
    }
split dl t (y ∷ xs) (suc i) x e =
    let s = split dl t xs i x e in
    record {
      front = word dl t y ++ s.front;
      back = s.back;
      at =
          length-append (word dl t y) s.front
          ∙ omega (arith, s.at, length-encode dl.stores_little_endian (dl.store_size t) y);
      bytes = rw (s.bytes, append_assoc (word dl t y));
      bytes_set = λ v. rw (s.bytes_set v, append_assoc (word dl t y));
    }

-- The struct `self` has in field `f` an array of these elements, in block `p`.
pub record HasArray (dl : DataLayout) (fs : List Field) (m : Mem) (self : Ptr) (f c : Field)
    (t : Ty) (p : Ptr) (xs : List ℕ) : Type 0 where
  pub cs : List ℕ
  pub self_at : At m self (cells cs)
  pub is : IsArray dl fs f c t
  pub count_at : get_elem? cs c.offset ≡ some (length xs)
  pub array_at : get_elem? cs f.offset ≡ some p
  pub elements_at : At m p (raw (words dl t xs))
  pub small : dl.alloc_size t * length xs < u64_mod

module _ (tg : Target) (fs : List Field) (m : Mem) (self : Ptr) (f c : Field) (t : Ty) (p : Ptr)
    (xs : List ℕ) (has : HasArray tg.layout fs m self f c t p xs) where
  -- An index past the count is refused, for reading and for writing, and nothing changes.
  pub items_past :
      (i : ℕ)
      → length xs ≤ i
      → ((out : Ptr) → item_getter tg fs f self i out m ≡ ok false m)
        × ((v : ℕ) → item_setter tg fs f self i v m ≡ ok false m)
  unfolding item_getter item_setter
  items_past i h =
      let past : ltb i (length xs) ≡ false = ground arith in
      (
        λ out. rw (
          null_check_two self out (At-ne_null has.self_at),
          load_cell-ok has.self_at f.offset has.array_at,
          has.is.counted,
          load_cell-ok has.self_at c.offset has.count_at,
          past,
        ),
        λ v. rw (
          null_check_one self (At-ne_null has.self_at),
          load_cell-ok has.self_at f.offset has.array_at,
          has.is.counted,
          load_cell-ok has.self_at c.offset has.count_at,
          past,
        ),
      )

  module _ (i x : ℕ) (e : get_elem? xs i ≡ some x) where
    inside : ltb i (length xs) ≡ true
    inside = lt→ltb i (length xs) (get_elem?-lt xs i e)

    offset :
        (s : IsSplit tg.layout t xs i x) → tg.layout.alloc_size t * i % u64_mod ≡ length s.front
    offset s = let lt = get_elem?-lt xs i e in grind (arith, s.at, has.is.is_word.dense, has.small)

    -- `get_<struct>_<field>_item` below the count puts the element into the caller's variable, and
    -- changes nothing else.
    pub item_getter-get_elem? :
        (out : Ptr) (old : ℕ)
        → Fits tg.layout t x
        → At m out (cells (old ∷ []))
        → item_getter tg fs f self i out m ≡ ok true (write m out (some (cells (x ∷ []))))
    unfolding item_getter pointee
    item_getter-get_elem? out old fits there =
        let s = split tg.layout t xs i x e in
        rw (
          null_check_two self out (At-ne_null has.self_at),
          load_cell-ok has.self_at f.offset has.array_at,
          has.is.counted,
          load_cell-ok has.self_at c.offset has.count_at,
          inside,
          has.is.points,
          offset s,
          load_num-ok tg.layout t s.front s.back x fits (rw s.bytes at has.elements_at),
          store_cell-ok there 0 x (omega arith),
        )

    -- `set_<struct>_<field>_item` below the count makes the array's bytes those of the array with
    -- this one element replaced, and changes nothing else.
    pub item_setter-set :
        (v : ℕ)
        → item_setter tg fs f self i v m
          ≡ ok true (write m p (some (raw (words tg.layout t (set xs i v)))))
    unfolding item_setter pointee
    item_setter-set v =
        let s = split tg.layout t xs i x e in
        rw (
          null_check_one self (At-ne_null has.self_at),
          load_cell-ok has.self_at f.offset has.array_at,
          has.is.counted,
          load_cell-ok has.self_at c.offset has.count_at,
          inside,
          has.is.points,
          offset s,
          store_num-ok tg.layout t s.front (word tg.layout t x) s.back v
              (rw s.bytes at has.elements_at)
              (length-encode tg.layout.stores_little_endian (tg.layout.store_size t) x),
          s.bytes_set v,
        )
