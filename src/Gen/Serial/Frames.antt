-- ===== src/Gen/Serial/Frames.antt =====
-- What the deserializers need to know of a struct's type, and what a field keeps of its value when
-- others are written.
use mathlib.Core.Path.{subst}
use tyr.Prelude.{
  ℕ, ◌<◌, ◌≡◌, ◌≢◌, refl, sym, ap, ◌∙◌, ◌⊎◌, if◌then◌else◌, inl, inr, true, false, Option, none,
  some, List, [], ◌∷◌, ◌++◌, length, All, get_elem?,
}
use tyr.Ir.{Ty, int64, Field}
use tyr.Layout.{DataLayout}
use tyr.Memory.{Ptr, null, Block, cells, Mem, write, block_at}
use tyr.Memory.Laws.{At, At-write_ne, Backs, block_at-write_self, block_at-write_ne}
use tyr.Gen.{deref}
use tyr.Gen.Serial.Words.{Fits}
use tyr.Gen.Serial.Values.{
  Value, scalar, array, IsScalar, IsArray, IsElements, Holds, holds_scalar, holds_array, Item, item,
  IsCalled, HoldsAll, done, skip, next,
}

abbrev pub Avoids : ℕ → List ℕ → Type 0
Avoids o xs = All (λ x. o ≢ x) xs

pub Avoids-append_left : (o : ℕ) (xs ys : List ℕ) → Avoids o (xs ++ ys) → Avoids o xs
Avoids-append_left o [] ys h = tt
Avoids-append_left o (x ∷ xs) ys (h, hs) = (h, Avoids-append_left o xs ys hs)

pub Avoids-append_right : (o : ℕ) (xs ys : List ℕ) → Avoids o (xs ++ ys) → Avoids o ys
Avoids-append_right o [] ys h = h
Avoids-append_right o (x ∷ xs) ys (h, hs) = Avoids-append_right o xs ys hs

abbrev count_slot : Option Field → List ℕ
count_slot none = []
count_slot (some c) = c.offset ∷ []

-- The cells that reading a field writes: its own, and that of its count.
abbrev pub slots : List Field → Field → List ℕ
slots fs f = f.offset ∷ count_slot (deref fs f.count_field)

abbrev pub all_slots : List Field → List Item → List ℕ
all_slots fs [] = []
all_slots fs (x ∷ items) = slots fs x.field ++ all_slots fs items

-- A value of the field's type.
pub data Typed (dl : DataLayout) (fs : List Field) : Field → Ty → Value → Type 0 where
  typed_scalar :
      {f : Field} {t : Ty} {v : ℕ}
      → IsScalar dl f
      → f.type ≡ t
      → Fits dl t v
      → Typed dl fs f t (scalar v)
  typed_array :
      {f : Field} {t : Ty} {xs : List ℕ} (c : Field)
      → IsArray dl fs f c t
      → IsElements dl t xs
      → Typed dl fs f t (array xs)

-- The items are the fields that are no count fields, in order, with values of their types. Each
-- has cells of its own among the `n` of the struct.
pub data TypedAll (dl : DataLayout) (fs : List Field) (n : ℕ)
    : List Field → List Item → Type 0 where
  typed_done : TypedAll dl fs n [] []
  typed_skip :
      {f : Field} {rest : List Field} {items : List Item}
      → f.is_count ≡ true
      → f.is_repeated ≡ false
      → f.type ≡ int64
      → TypedAll dl fs n rest items
      → TypedAll dl fs n (f ∷ rest) items
  typed_next :
      {f : Field} {rest : List Field} {items : List Item} (t : Ty) (v : Value)
      → IsCalled fs f
      → Typed dl fs f t v
      → All (λ o. o < n) (slots fs f)
      → All (λ o. Avoids o (all_slots fs items)) (slots fs f)
      → TypedAll dl fs n rest items
      → TypedAll dl fs n (f ∷ rest) (item f t v ∷ items)

-- From one state of a struct and its memory to another: no block but the struct changes, and of
-- that only the cells of `written`.
pub record Kept (self : Ptr) (written : List ℕ) (m m' : Mem) (cs cs' : List ℕ) : Type 0 where
  pub blocks : (q : Ptr) (b : Block) → At m q b → q ≢ self → At m' q b
  pub others : (o : ℕ) → Avoids o written → get_elem? cs' o ≡ get_elem? cs o
  pub size : length cs' ≡ length cs

module _ {self : Ptr} {m m' : Mem} {cs cs' : List ℕ} where
  pub Kept-trans :
      {m'' : Mem} {cs'' : List ℕ} (xs ys : List ℕ)
      → Kept self xs m m' cs cs'
      → Kept self ys m' m'' cs' cs''
      → Kept self (xs ++ ys) m m'' cs cs''
  Kept-trans xs ys k l = record {
    blocks = λ q b here ne. l.blocks q b (k.blocks q b here ne) ne;
    others = λ o av.
        l.others o (Avoids-append_right o xs ys av) ∙ k.others o (Avoids-append_left o xs ys av);
    size = l.size ∙ k.size;
  }

-- The same, of two memories from which one block is freed.
pub Kept-freed :
    {self : Ptr} {m m' : Mem} {cs cs' : List ℕ} (written : List ℕ) (q : Ptr)
    → q ≢ null
    → Kept self written m m' cs cs'
    → Kept self written (write m q none) (write m' q none) cs cs'
Kept-freed {m} {m'} written q live k = record {
  blocks = λ p b here ne.
      let other : p ≢ q =
        λ e. cc (here.found, ap (block_at (write m q none)) e, block_at-write_self m q none live) in
      At-write_ne q none
        (k.blocks p b (record { found = sym (block_at-write_ne m q p none other) ∙ here.found }) ne)
        other;
  others = k.others;
  size = k.size;
}

Backs-Kept :
    {self : Ptr} {m m' : Mem} {cs cs' written ys : List ℕ} (p : Ptr)
    → Kept self written m m' cs cs'
    → At m self (cells cs)
    → Backs m p ys
    → Backs m' p ys
Backs-Kept p k here (inl e) = inl e
Backs-Kept {m} p k here (inr b) =
    inr (k.blocks p _ b (λ e. cc (here.found, b.found, ap (block_at m) e)))

-- A field's value stays if its cells are not among those written.
pub Holds-Kept :
    {dl : DataLayout} {fs : List Field} {self : Ptr} {m m' : Mem} {cs cs' : List ℕ} {f : Field}
    {t : Ty} {v : Value} (written : List ℕ)
    → Kept self written m m' cs cs'
    → At m self (cells cs)
    → All (λ o. Avoids o written) (slots fs f)
    → Holds dl fs m cs f t v
    → Holds dl fs m' cs' f t v
Holds-Kept {f} written k here av (holds_scalar is e fit at_f) =
    holds_scalar is e fit (k.others f.offset av.0 ∙ at_f)
Holds-Kept {dl} {fs} {f} {t} written k here av (holds_array c p is e n at_f b) =
    let both : All (λ o. Avoids o written) (f.offset ∷ c.offset ∷ []) = rw is.counted at av in
    holds_array c p is e (k.others c.offset both.1.0 ∙ n) (k.others f.offset both.0 ∙ at_f)
      (Backs-Kept p k here b)

-- The cells that the loop over these fields writes.
abbrev pub field_slots : List Field → List Field → List ℕ
field_slots fs [] = []
field_slots fs (f ∷ rest) = (if f.is_count then [] else slots fs f) ++ field_slots fs rest

-- Each field that is no count field has cells of its own among the `n` of the struct.
abbrev pub Separate : List Field → ℕ → List Field → Type 0
Separate fs n [] = Unit
Separate fs n (f ∷ rest) =
    ((f.is_count ≡ true)
      ⊎ (All (λ o. o < n) (slots fs f) × All (λ o. Avoids o (field_slots fs rest)) (slots fs f)))
    × Separate fs n rest

module _ {dl : DataLayout} {fs : List Field} {m : Mem} {cs : List ℕ} where
  Holds-Typed : {f : Field} {t : Ty} {v : Value} → Holds dl fs m cs f t v → Typed dl fs f t v
  Holds-Typed (holds_scalar is e fit at_f) = typed_scalar is e fit
  Holds-Typed (holds_array c p is e n at_f b) = typed_array c is e

  all_slots-field_slots :
      {rest : List Field} {items : List Item}
      → HoldsAll dl fs m cs rest items
      → all_slots fs items ≡ field_slots fs rest
  all_slots-field_slots done = refl
  all_slots-field_slots (skip c r t more) = rw c (all_slots-field_slots more)
  all_slots-field_slots (next {f} t v c h more) =
      simp c.no_count (ap (◌++◌ (slots fs f)) (all_slots-field_slots more))

  -- What a struct holds is typed by its fields.
  pub HoldsAll-TypedAll :
      {n : ℕ} {rest : List Field} {items : List Item}
      → HoldsAll dl fs m cs rest items
      → Separate fs n rest
      → TypedAll dl fs n rest items
  HoldsAll-TypedAll done sep = typed_done
  HoldsAll-TypedAll (skip c r t more) (_, sep) = typed_skip c r t (HoldsAll-TypedAll more sep)
  HoldsAll-TypedAll (next t v c h more) (inl is, sep) = cc
  HoldsAll-TypedAll (next {f} t v c h more) (inr (room, apart), sep) =
      typed_next t v c (Holds-Typed h) room
        (subst (λ written. All (λ o. Avoids o written) (slots fs f))
          (sym (all_slots-field_slots more)) apart)
        (HoldsAll-TypedAll more sep)
