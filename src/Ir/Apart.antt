-- ===== src/Ir/Apart.antt =====
-- The cells that belong to each value of a final struct (IR.cpp), as the generated deserializers
-- use them.
use mathlib.Core.Bool.{true≢false}
use mathlib.Core.Option.{some-injective}
use tyr.Prelude.{
  ℕ, suc, ◌+◌, ◌≤◌, ◌<◌, ◌^◌, ◌≡◌, ◌≢◌, refl, sym, ap, ◌∙◌, ◌⊎◌, inl, inr, true, false, some, List,
  [], ◌∷◌, arith, ◌==◌, length, All, Among, first, later, Bool-cases, All-append, All-Among,
  All-map,
}
use tyr.Ir.{Field, Struct}
use tyr.Ir.Build.{Sorter, finalize_fields}
use tyr.Ir.Links.{CountOf, uncounted, counted, Distinct, Built, finalized, Built-IsLinked}
use tyr.Ir.Final.{Indexed, finalize_fields-IsFinal}
use tyr.Layout.{DataLayout}
use tyr.Gen.{field_of, deref}
use tyr.Gen.Serial.Frames.{Avoids, slots, field_slots, Separate}

-- The pointer of a field of the struct leads to the field.
pub field_of-Among :
    {c : Field} (fs : List Field) → Distinct fs → Among c fs → field_of fs c.id ≡ some c
unfolding field_of
field_of-Among [] d m = elim m [ ]
field_of-Among (f ∷ fs) d first = let same : (f.id == f.id) ≡ true = ground arith in rw same
field_of-Among {c} (f ∷ fs) d (later m) =
    let ne : f.id ≢ c.id = All-Among (λ g. f.id ≢ g.id) d.0 m in
    let other : (f.id == c.id) ≡ false = ground arith in rw other (field_of-Among fs d.1 m)

offset-bounds :
    {f : Field} (k : ℕ) (fs : List Field)
    → Indexed k fs
    → Among f fs
    → (k ≤ f.offset) × (f.offset < k + length fs)
offset-bounds k [] h m = elim m [ ]
offset-bounds k (g ∷ fs) h first = (omega (arith, h.0), omega (arith, h.0))
offset-bounds k (g ∷ fs) h (later m) =
    let b = offset-bounds (suc k) fs h.1 m in (omega (arith, b.0), omega (arith, b.1))

offset-injective :
    {f g : Field} (k : ℕ) (fs : List Field)
    → Indexed k fs
    → Among f fs
    → Among g fs
    → f.offset ≡ g.offset
    → f ≡ g
offset-injective k [] i m m' e = elim m [ ]
offset-injective k (h ∷ fs) i first first e = refl
offset-injective k (h ∷ fs) i first (later m) e =
    absurd (omega (arith, i.0, (offset-bounds (suc k) fs i.1 m).0))
offset-injective k (h ∷ fs) i (later m) first e =
    absurd (omega (arith, i.0, (offset-bounds (suc k) fs i.1 m).0))
offset-injective k (h ∷ fs) i (later m) (later m') e = offset-injective (suc k) fs i.1 m m' e

-- `h` is `f` or its count.
abbrev Owner : Field → Field → Type 0
Owner f h = (h ≡ f) ⊎ ((h.is_count ≡ true) × (h.counts_for ≡ some f.id))

owners-ne :
    (f g h k : Field)
    → f.is_count ≡ false
    → g.is_count ≡ false
    → f.id ≢ g.id
    → Owner f h
    → Owner g k
    → h ≢ k
owners-ne f g h k cf cg ne (inl a) (inl b) e = ne (ap (λ x. x.id) (sym a ∙ e ∙ b))
owners-ne f g h k cf cg ne (inl a) (inr b) e =
    absurd (true≢false (sym b.0 ∙ ap (λ x. x.is_count) (sym e ∙ a) ∙ cf))
owners-ne f g h k cf cg ne (inr a) (inl b) e =
    absurd (true≢false (sym a.0 ∙ ap (λ x. x.is_count) (e ∙ b) ∙ cg))
owners-ne f g h k cf cg ne (inr a) (inr b) e =
    ne (some-injective _ _ (sym a.1 ∙ ap (λ x. x.counts_for) e ∙ b.1))

module _ (fs : List Field) (indexed : Indexed 0 fs) (distinct : Distinct fs) where
  -- What holds of a field's offset and of its count's holds of all its cells.
  slots-All :
      (P : ℕ → Type 0) (f : Field)
      → CountOf fs f
      → Among f fs
      → ((h : Field) → Among h fs → Owner f h → P h.offset)
      → All P (slots fs f)
  unfolding deref
  slots-All P f (uncounted r e) m each = rw e (each f m (inl refl), tt)
  slots-All P f (counted c m' a b d e g h i j n) m each =
      rw (e, field_of-Among fs distinct m') (each f m (inl refl), (each c m' (inr (g, j)), tt))

  -- A cell of `f` is none of the other fields'.
  cell-Avoids :
      (f h : Field) (rest : List Field)
      → f.is_count ≡ false
      → Among h fs
      → Owner f h
      → All (λ g. f.id ≢ g.id) rest
      → All (λ g. Among g fs) rest
      → All (CountOf fs) rest
      → Avoids h.offset (field_slots fs rest)
  cell-Avoids f h [] cf m o ne inside count = tt
  cell-Avoids f h (g ∷ rest) cf m o ne inside count = elim (Bool-cases g.is_count) [
    | inl is ↦ rw is (cell-Avoids f h rest cf m o ne.1 inside.1 count.1)
    | inr is ↦ rw is (
        All-append (λ x. h.offset ≢ x) (slots fs g) (field_slots fs rest)
          (slots-All (λ x. h.offset ≢ x) g count.0 inside.0
            (λ k m' o' e. owners-ne f g h k cf is ne.0 o o' (offset-injective 0 fs indexed m m' e)))
          (cell-Avoids f h rest cf m o ne.1 inside.1 count.1))
  ]

  Separate-rest :
      (rest : List Field)
      → Distinct rest
      → All (λ g. Among g fs) rest
      → All (CountOf fs) rest
      → Separate fs (length fs) rest
  Separate-rest [] d inside count = tt
  Separate-rest (f ∷ rest) d inside count = (
    elim (Bool-cases f.is_count) [
      | inl is ↦ inl is
      | inr is ↦ inr (
        slots-All (λ o. o < length fs) f count.0 inside.0
            (λ h m o. omega (arith, (offset-bounds 0 fs indexed m).1)),
        slots-All (λ o. Avoids o (field_slots fs rest)) f count.0 inside.0
            (λ h m o. cell-Avoids f h rest is m o d.0 inside.1 count.1),
      )
    ],
    Separate-rest rest d.1 inside.1 count.1,
  )

pub Among-All : (fs : List Field) → All (λ g. Among g fs) fs
Among-All [] = tt
Among-All (f ∷ fs) = (first, All-map fs (λ g m. later m) (Among-All fs))

-- In a struct of at most `2 ^ 32` fields that `finalizeFields` has made final, each value has cells
-- of its own: that of the field, and of its count, within the struct.
pub finalize_fields-Separate :
    (so : Sorter) (dl : DataLayout) (s : Struct)
    → Built so dl s
    → length s.fields ≤ 2 ^ 32
    → Separate
        (finalize_fields so dl s).fields
        (length (finalize_fields so dl s).fields)
        (finalize_fields so dl s).fields
finalize_fields-Separate so dl s built h =
    let l = Built-IsLinked (finalized built) in
    let fs : List Field = (finalize_fields so dl s).fields in
    Separate-rest fs (finalize_fields-IsFinal so dl s h).indexed l.distinct fs l.distinct
      (Among-All fs) l.count
