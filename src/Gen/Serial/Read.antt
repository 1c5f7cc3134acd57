-- ===== src/Gen/Serial/Read.antt =====
-- What the deserializer of a field reads (LLVMIRGenPass.cpp, `getDeserializer`).
use tyr.Prelude.{
  ℕ, ◌+◌, ◌*◌, ◌<◌, ◌≡◌, ◌≢◌, sym, ap, ◌∙◌, inr, true, none, some, List, [], ◌∷◌, ◌++◌, length, All,
  set, length-set, get_elem?-set_self, get_elem?-set_ne,
}
use tyr.Ir.{Ty, Field}
use tyr.Layout.{DataLayout, IsLayout, is_pointer}
use tyr.Memory.{Ptr, null, Block, cells, raw, Mem, write, Run, ok}
use tyr.Memory.Laws.{At, At-ne_null, At-write_ne, At-write_self}
use tyr.Gen.{Target, deref}
use tyr.Gen.Sizes.{null_check_two}
use tyr.Gen.Serial.{deserialize_field}
use tyr.Gen.Serial.Words.{Fits, words}
use tyr.Gen.Serial.Values.{
  Value, scalar, array, IsScalar, IsArray, IsElements, Holds, holds_scalar, holds_array, wire,
  length-wire_scalar, length-wire_array,
}
use tyr.Gen.Serial.Frames.{Avoids, slots, Typed, typed_scalar, typed_array, Kept}
use tyr.Gen.Serial.ReadValue.{
  counted, with_array, counted_self, new_array, new_array-ne, new_array-ne_null, read_scalar-ok,
  read_repeated-ok,
}

-- The outcome of reading a field: `n` bytes taken, the value in place, all else kept.
pub record HasRead (dl : DataLayout) (fs : List Field) (self : Ptr) (m : Mem) (cs : List ℕ)
    (f : Field) (t : Ty) (v : Value) (r : Run ℕ) : Type 0 where
  pub mem : Mem
  pub now : List ℕ
  pub runs : r ≡ ok (length (wire dl t v)) mem
  pub self_at : At mem self (cells now)
  pub holds : Holds dl fs mem now f t v
  pub kept : Kept self (slots fs f) m mem cs now
  pub own : (q : Ptr) (b : Block) → At m q b → q ≢ self → Holds dl fs (write mem q none) now f t v

module _ (tg : Target) (fs : List Field) (lay : IsLayout tg.layout)
    (never_null : (n : ℕ) (m : Mem) → tg.alloc.new_address n m ≢ null) (m : Mem) (self buf : Ptr)
    (cs : List ℕ) (self_at : At m self (cells cs)) (front back : List ℕ) where
  abbrev new_place : (f c : Field) → Ty → List ℕ → Ptr
  new_place f c t xs = new_array tg fs lay never_null m self buf cs self_at front back f c t xs

  abbrev counted_now : (f c : Field) → Ty → List ℕ → Mem
  counted_now f c t xs = counted tg fs lay never_null m self buf cs self_at front back f c t xs

  abbrev array_now : (f c : Field) → Ty → List ℕ → Ptr → List ℕ → Mem
  array_now f c t xs = with_array tg fs lay never_null m self buf cs self_at front back f c t xs

  deserialize_scalar :
      (f : Field) (v : ℕ)
      → IsScalar tg.layout f
      → Fits tg.layout f.type v
      → f.offset < length cs
      → At m buf (raw (front ++ (wire tg.layout f.type (scalar v) ++ back)))
      → deserialize_field tg fs f self buf (length front) m
        ≡ ok (tg.layout.store_size f.type) (write m self (some (cells (set cs f.offset v))))
  unfolding deserialize_field
  deserialize_scalar f v is fit room here = rw (null_check_two self buf (At-ne_null self_at)) (
      simp (is.no_struct, is.no_pointer)
        (read_scalar-ok tg fs lay never_null m self buf cs self_at front back f v is fit room here))

  deserialize_array :
      (f c : Field) (t : Ty) (xs : List ℕ)
      → IsArray tg.layout fs f c t
      → IsElements tg.layout t xs
      → f.offset < length cs
      → c.offset < length cs
      → At m buf (raw (front ++ (wire tg.layout t (array xs) ++ back)))
      → deserialize_field tg fs f self buf (length front) m
        ≡ ok (8 + tg.layout.alloc_size t * length xs) (
            write
              (array_now f c t xs (new_place f c t xs) (words tg.layout t xs))
              self
              (some (cells (set (set cs c.offset (length xs)) f.offset (new_place f c t xs)))))
  unfolding deserialize_field is_pointer
  deserialize_array f c t xs is e room_f room_c here =
      let pointer : is_pointer f.type ≡ true = rw is.points in
      rw (null_check_two self buf (At-ne_null self_at)) (
        simp (is.no_struct, pointer)
          (read_repeated-ok tg fs lay never_null m self buf cs self_at front back f c t xs is e
            room_f room_c here))

  room_of_count :
      (f c : Field)
      → All (λ o. o < length cs) (slots fs f)
      → deref fs f.count_field ≡ some c
      → c.offset < length cs
  room_of_count f c room e =
      let both : All (λ o. o < length cs) (f.offset ∷ c.offset ∷ []) = rw e at room in both.1.0

  -- The memory behind the deserializer of an array.
  abbrev final : (f c : Field) → Ty → List ℕ → Mem
  final f c t xs =
      write (array_now f c t xs (new_place f c t xs) (words tg.layout t xs)) self
        (some (cells (set (set cs c.offset (length xs)) f.offset (new_place f c t xs))))

  final-Kept :
      (f c : Field) (t : Ty) (xs : List ℕ)
      → deref fs f.count_field ≡ some c
      → Kept self
          (slots fs f)
          m
          (final f c t xs)
          cs
          (set (set cs c.offset (length xs)) f.offset (new_place f c t xs))
  final-Kept f c t xs e = record {
    blocks = λ q b here ne.
        let there : At (counted_now f c t xs) q b = At-write_ne self _ here ne in
        At-write_ne self _
          (At-write_ne (new_place f c t xs) _ there (λ x.
            new_array-ne tg fs lay never_null m self buf cs self_at front back f c t xs q there
              (sym x)))
          ne;
    others = λ o av.
        let both : Avoids o (f.offset ∷ c.offset ∷ []) = rw e at av in
        get_elem?-set_ne (set cs c.offset (length xs)) f.offset o (new_place f c t xs)
          (λ x. both.0 (sym x))
        ∙ get_elem?-set_ne cs c.offset o (length xs) (λ x. both.1.0 (sym x));
    size =
        length-set (set cs c.offset (length xs)) f.offset (new_place f c t xs)
        ∙ length-set cs c.offset (length xs);
  }

  array_there :
      (f c : Field) (t : Ty) (xs : List ℕ)
      → At (final f c t xs) (new_place f c t xs) (raw (words tg.layout t xs))
  array_there f c t xs =
      At-write_ne self _
        (At-write_self (counted_now f c t xs) (new_place f c t xs) _
          (new_array-ne_null tg fs lay never_null m self buf cs self_at front back f c t xs))
        (new_array-ne tg fs lay never_null m self buf cs self_at front back f c t xs self
          (counted_self tg fs lay never_null m self buf cs self_at front back f c t xs))

  -- In any memory that has the new array, the field holds it.
  array-Holds :
      (f c : Field) (t : Ty) (xs : List ℕ)
      → IsArray tg.layout fs f c t
      → IsElements tg.layout t xs
      → All (λ o. o < length cs) (slots fs f)
      → (m' : Mem) → At m' (new_place f c t xs) (raw (words tg.layout t xs))
      → Holds tg.layout fs m'
          (set (set cs c.offset (length xs)) f.offset (new_place f c t xs))
          f
          t
          (array xs)
  array-Holds f c t xs is e room m' there =
      let room_c = room_of_count f c room is.counted in
      holds_array c (new_place f c t xs) is e
        (get_elem?-set_ne (set cs c.offset (length xs)) f.offset c.offset (new_place f c t xs)
            (λ q. is.apart (sym q))
          ∙ get_elem?-set_self cs c.offset (length xs) room_c)
        (get_elem?-set_self (set cs c.offset (length xs)) f.offset (new_place f c t xs)
          (rw length-set room.0))
        (inr there)

  -- `__deserialize_<struct>_<field>` at the bytes of a value of the field's type.
  pub deserialize_field-HasRead :
      (f : Field) (t : Ty) (v : Value)
      → Typed tg.layout fs f t v
      → All (λ o. o < length cs) (slots fs f)
      → At m buf (raw (front ++ (wire tg.layout t v ++ back)))
      → HasRead tg.layout fs self m cs f t v (deserialize_field tg fs f self buf (length front) m)
  deserialize_field-HasRead f t v (typed_scalar {v = n} is e fit) room here = record {
    mem = write m self (some (cells (set cs f.offset n)));
    now = set cs f.offset n;
    runs =
        deserialize_scalar f n is (rw e fit) room.0 (rw e here)
        ∙ ap (λ k. ok k (write m self (some (cells (set cs f.offset n)))))
            (ap tg.layout.store_size e ∙ sym (length-wire_scalar lay t n));
    self_at = At-write_self m self _ (At-ne_null self_at);
    holds = holds_scalar is e fit (get_elem?-set_self cs f.offset n room.0);
    kept = record {
      blocks = λ q b here' ne. At-write_ne self _ here' ne;
      others = λ o av. get_elem?-set_ne cs f.offset o n (λ e'. av.0 (sym e'));
      size = length-set cs f.offset n;
    };
    own = λ q b here' ne. holds_scalar is e fit (get_elem?-set_self cs f.offset n room.0);
  }
  deserialize_field-HasRead f t v (typed_array {xs} c is e) room here = record {
    mem = final f c t xs;
    now = set (set cs c.offset (length xs)) f.offset (new_place f c t xs);
    runs =
        deserialize_array f c t xs is e room.0 (room_of_count f c room is.counted) here
        ∙ ap (λ k. ok k (final f c t xs)) (sym (length-wire_array lay t xs is.is_word));
    self_at = At-write_self _ self _ (At-ne_null self_at);
    holds = array-Holds f c t xs is e room (final f c t xs) (array_there f c t xs);
    kept = final-Kept f c t xs is.counted;
    own = λ q b here' ne.
        let there : At (counted_now f c t xs) q b = At-write_ne self _ here' ne in
        array-Holds f c t xs is e room (write (final f c t xs) q none) (
          At-write_ne q none (array_there f c t xs)
            (new_array-ne tg fs lay never_null m self buf cs self_at front back f c t xs q there));
  }
