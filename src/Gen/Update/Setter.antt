-- ===== src/Gen/Update/Setter.antt =====
-- The setters as a whole (LLVMIRGenPass.cpp, `getSetter`).
use mathlib.Core.Path.{subst}
use tyr.Prelude.{
  ℕ, ◌*◌, ◌<◌, ◌≡◌, ◌≢◌, sym, ap, ◌∙◌, inl, inr, ◌⊎◌, Bool, true, false, some, List, if◌then◌else◌,
  arith, ◌==◌, length, get_elem?, set, get_elem?-lt, ℕ-cases,
}
use tyr.Ir.{Ty, Field}
use tyr.Memory.{Ptr, null, cells, raw, Mem, write, Run, ok}
use tyr.Memory.Laws.{At, At-ne_null, load_cell-ok}
use tyr.Gen.{Target, u64_mod, not_null}
use tyr.Gen.Serial.Words.{words}
use tyr.Gen.Serial.Values.{IsArray}
use tyr.Gen.Update.{fill_array, set_new, set_resized, set_checked, set_repeated, setter}
use tyr.Gen.Update.Repeated.{
  IsStored, set_new-IsStored, set_new-fails, set_resized-IsStored, set_resized-fails, to_repeated,
  fill_array-IsStored,
}

module _ (tg : Target) (fs : List Field) (f c : Field) (t : Ty) (is : IsArray tg.layout fs f c t)
    (self source : Ptr) (ys : List ℕ) (small : tg.layout.alloc_size t * length ys < u64_mod)
    (m : Mem) (cs : List ℕ) (self_at : At m self (cells cs))
    (from : At m source (raw (words tg.layout t ys))) (loaded n : ℕ)
    (array_at : get_elem? cs f.offset ≡ some loaded)
    (count_at : get_elem? cs c.offset ≡ some n) where
  room_f : f.offset < length cs
  room_f = get_elem?-lt cs f.offset array_at

  room_c : c.offset < length cs
  room_c = get_elem?-lt cs c.offset count_at

  abbrev after_count : Mem
  after_count = write m self (some (cells (set cs c.offset (length ys))))

  abbrev size : ℕ
  size = tg.layout.alloc_size t * length ys

  null-set_new :
      loaded ≡ null
      → set_repeated tg fs f self source (length ys) m ≡ set_new tg fs f c self source (length ys) m
  unfolding set_repeated
  null-set_new e =
      let empty : not_null loaded ≡ false = ground arith in
      rw (is.counted, load_cell-ok self_at f.offset array_at, empty)

  array-set_resized :
      loaded ≢ null
      → n ≢ length ys
      → set_repeated tg fs f self source (length ys) m
        ≡ set_resized tg fs f c self source (length ys) loaded m
  unfolding set_repeated set_checked
  array-set_resized ne other =
      let full : not_null loaded ≡ true = ground arith in
      let differs : (n == length ys) ≡ false = ground arith in
      rw (
        is.counted,
        load_cell-ok self_at f.offset array_at,
        full,
        load_cell-ok self_at c.offset count_at,
        differs,
      )

  array-fill_array :
      loaded ≢ null
      → n ≡ length ys
      → set_repeated tg fs f self source (length ys) m
        ≡ fill_array tg fs f c self loaded source (length ys) m
  unfolding set_repeated set_checked
  array-fill_array ne same =
      let full : not_null loaded ≡ true = ground arith in
      let equal : (n == length ys) ≡ true = ground arith in
      rw (
        is.counted,
        load_cell-ok self_at f.offset array_at,
        full,
        load_cell-ok self_at c.offset count_at,
        equal,
      )

  -- The block of the new array: a new one if there was none, the same if the number is the same, and
  -- the one that `realloc` answers otherwise.
  abbrev pub place : Ptr
  place =
      if loaded == null
      then tg.alloc.new_address size after_count
      else if n == length ys
      then loaded
      else tg.alloc.moved_address loaded size after_count

  abbrev Outcome : Ptr → Run Bool → Type 0
  Outcome p r = IsStored tg fs f c t self cs ys p r

  -- With memory at hand, `set_<struct>_<field>` of a repeated field, from another block than the
  -- array's own, answers true, and the field then holds the new elements under their number: in the
  -- block that malloc answers if it was NULL, in the same block if the number is the same, and in the
  -- block that realloc answers otherwise.
  pub setter-IsStored :
      ((loaded ≡ null)
        ⊎ ((old : List ℕ) × At m loaded (raw old) × (length old ≡ tg.layout.alloc_size t * n)))
      → source ≢ loaded
      → tg.alloc.new_address size after_count ≢ null
      → tg.alloc.moved_address loaded size after_count ≢ null
      → IsStored tg fs f c t self cs ys place (setter tg fs f self source (length ys) m)
  setter-IsStored (inl e) apart new moved =
      let empty : (loaded == null) ≡ true = ground arith in
      rw empty (
        subst (Outcome (tg.alloc.new_address size after_count))
          (sym (
            to_repeated tg fs f c t is self source ys small m cs self_at room_f room_c from
            ∙ null-set_new e))
          (set_new-IsStored tg fs f c t is self source ys small m cs self_at room_f room_c from
            new))
  setter-IsStored (inr (old, old_at, l)) apart new moved =
      let full : (loaded == null) ≡ false = ground (arith, At-ne_null old_at) in
      elim (ℕ-cases n (length ys)) [
        | inl same ↦
            let equal : (n == length ys) ≡ true = ground arith in
            rw (full, equal)
              (subst (Outcome loaded)
                (sym (
                  to_repeated tg fs f c t is self source ys small m cs self_at room_f room_c from
                  ∙ array-fill_array (At-ne_null old_at) same))
                (fill_array-IsStored tg fs f c t is self source ys small m cs self_at room_f room_c
                  loaded old old_at (l ∙ ap (λ k. tg.layout.alloc_size t * k) same) from))
        | inr other ↦
            let differs : (n == length ys) ≡ false = ground arith in
            rw (full, differs)
              (subst (Outcome (tg.alloc.moved_address loaded size after_count))
                (sym (
                  to_repeated tg fs f c t is self source ys small m cs self_at room_f room_c from
                  ∙ array-set_resized (At-ne_null old_at) other))
                (set_resized-IsStored tg fs f c t is self source ys small m cs self_at room_f room_c
                  from loaded old old_at apart moved))
      ]

  -- Without memory `set_<struct>_<field>` of a repeated field answers false, and the array is the
  -- old one, but the count is the new number already.
  pub setter-fails :
      ((loaded ≡ null) × (tg.alloc.new_address size after_count ≡ null))
        ⊎ ((n ≢ length ys)
            × (size ≢ 0)
            × ((old : List ℕ) × At m loaded (raw old))
            × (tg.alloc.moved_address loaded size after_count ≡ null))
      → setter tg fs f self source (length ys) m
        ≡ ok false (write m self (some (cells (set cs c.offset (length ys)))))
  setter-fails (inl (e, none_left)) =
      to_repeated tg fs f c t is self source ys small m cs self_at room_f room_c from
      ∙ null-set_new e
      ∙ set_new-fails tg fs f c t is self source ys small m cs self_at room_f room_c from none_left
  setter-fails (inr (other, positive, (old, old_at), none_left)) =
      to_repeated tg fs f c t is self source ys small m cs self_at room_f room_c from
      ∙ array-set_resized (At-ne_null old_at) other
      ∙ set_resized-fails tg fs f c t is self source ys small m cs self_at room_f room_c from loaded
          old old_at none_left positive
