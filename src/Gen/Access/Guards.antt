-- ===== src/Gen/Access/Guards.antt =====
-- What the code of `insertNullCheck` lets through (LLVMIRGenPass.cpp), and the getters behind it.
use tyr.Prelude.{
  ℕ, zero, suc, ◌⊎◌, inl, inr, ◌≡◌, ◌≢◌, refl, sym, ap, ◌∙◌, Bool, true, false, ◌||◌, some, List,
  [], ◌∷◌, arith, All, get_elem?,
}
use mathlib.Core.List.{foldl}
use mathlib.Core.Bool.{true≢false, and-false}
use tyr.Ir.{Field}
use tyr.Memory.{Ptr, null, cells, Mem, write, ok, fault}
use tyr.Memory.Laws.{At, At-ne_null, block_at-null, load_cell-ok, load_cell-none, store_cell-ok}
use tyr.Gen.{Target, not_null, null_check}
use tyr.Gen.Sizes.{null_check_two, null_check-null}
use tyr.Gen.Access.{getter}

foldl-true : (ps : List Ptr) → foldl (λ found q. found || not_null q) true ps ≡ true
foldl-true [] = refl
foldl-true (p ∷ ps) = foldl-true ps

null_check-some : (p : Ptr) (ps : List Ptr) → p ≢ null → null_check p ps ≡ true
unfolding null_check
null_check-some p ps h =
    let passes : not_null p ≡ true = ground arith in
    let rest : List Ptr → Bool → Bool = λ qs b. foldl (λ found q. found || not_null q) b qs in
    ap (rest ps) passes ∙ foldl-true ps

null_check-next : (q : Ptr) (ps : List Ptr) → null_check null (q ∷ ps) ≡ null_check q ps
unfolding null_check
null_check-next q ps = refl

-- The check fails if every pointer is NULL, and only then: one pointer that is not NULL is enough
-- to pass.
pub null_check-All :
    (p : Ptr) (ps : List Ptr)
    → (null_check p ps ≡ false → All (λ q. q ≡ null) (p ∷ ps))
      × (All (λ q. q ≡ null) (p ∷ ps) → null_check p ps ≡ false)
null_check-All (suc p) ps = (
  λ h. absurd (true≢false (sym (null_check-some (suc p) ps (omega arith)) ∙ h)),
  λ h. absurd (omega (arith, h.0)),
)
null_check-All zero [] = (λ h. (refl, tt), λ h. null_check-null)
null_check-All zero (q ∷ ps) =
    let (only, back) = null_check-All q ps in
    (λ h. (refl, only (rw null_check-next at h)), λ h. rw null_check-next (back h.1))

module _ (tg : Target) (fs : List Field) (f : Field) (m : Mem) where
  -- With both pointers NULL, `get_<struct>_<field>` answers false and does nothing. With `self`
  -- NULL and the out-pointer not, it reads through NULL.
  pub getter-null :
      (out : Ptr)
      → (getter tg fs f null null m ≡ ok false m) × (out ≢ null → getter tg fs f null out m ≡ fault)
  unfolding getter
  getter-null out = (
    rw ((null_check-All null (null ∷ [])).1 (refl, (refl, tt))),
    λ ne. rw (
      null_check-next,
      null_check-some out [] ne,
      load_cell-none m null (block_at-null m) f.offset,
    ),
  )

  -- A value that is neither a struct nor an immutable array is handed out as it stands in the
  -- field; nothing but the caller's variable changes.
  pub getter-value :
      (self out : Ptr) (cs : List ℕ) (old v : ℕ)
      → (f.is_mutable ≡ true) ⊎ ((f.is_struct ≡ false) × (f.is_repeated ≡ false))
      → At m self (cells cs)
      → get_elem? cs f.offset ≡ some v
      → At m out (cells (old ∷ []))
      → getter tg fs f self out m ≡ ok true (write m out (some (cells (v ∷ []))))
  unfolding getter
  getter-value self out cs old v (inl mut) here e there =
      rw (null_check_two self out (At-ne_null here), load_cell-ok here f.offset e)
        (simp (mut, and-false) (rw (store_cell-ok there 0 v (omega arith))))
  getter-value self out cs old v (inr (plain, single)) here e there =
      rw (null_check_two self out (At-ne_null here), load_cell-ok here f.offset e)
        (simp (plain, single) (rw (store_cell-ok there 0 v (omega arith))))
