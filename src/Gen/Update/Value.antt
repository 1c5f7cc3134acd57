-- ===== src/Gen/Update/Value.antt =====
-- The setter of a plain value, and the getter behind it (LLVMIRGenPass.cpp).
use tyr.Prelude.{
  ℕ, ◌<◌, ◌≡◌, ◌≢◌, inl, true, false, some, List, [], ◌∷◌, length, set, get_elem?-set_self,
}
use tyr.Ir.{Field}
use tyr.Memory.{Ptr, cells, Mem, write, ok, ◌>>=◌}
use tyr.Memory.Laws.{At, At-ne_null, At-write_self, At-write_ne}
use tyr.Gen.{Target}
use tyr.Gen.Access.{getter}
use tyr.Gen.Access.Guards.{getter-value}
use tyr.Gen.Update.{setter}
use tyr.Gen.Update.Count.{setter-value}

-- For a mutable field that is no struct, no array and no count, `get_<struct>_<field>` after
-- `set_<struct>_<field>` hands out the value that was set; only the field's cell and the caller's
-- variable have changed.
pub getter-setter :
    (tg : Target) (fs : List Field) (f : Field) (m : Mem) (self out : Ptr) (cs : List ℕ)
    (old v n : ℕ)
    → f.is_mutable ≡ true
    → f.is_struct ≡ false
    → f.is_repeated ≡ false
    → f.is_count ≡ false
    → f.offset < length cs
    → At m self (cells cs)
    → At m out (cells (old ∷ []))
    → out ≢ self
    → (setter tg fs f self v n >>= λ done. getter tg fs f self out) m
      ≡ ok true
          (write (write m self (some (cells (set cs f.offset v)))) out (some (cells (v ∷ []))))
getter-setter tg fs f m self out cs old v n mutable plain single value room here there apart =
    let now : List ℕ = set cs f.offset v in
    let m' : Mem = write m self (some (cells now)) in
    rw (setter-value tg fs m self cs here f v n plain single value room) (
      getter-value tg fs f m' self out now old v (inl mutable)
        (At-write_self m self _ (At-ne_null here)) (get_elem?-set_self cs f.offset v room)
        (At-write_ne self _ there apart))
