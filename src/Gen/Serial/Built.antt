-- ===== src/Gen/Serial/Built.antt =====
-- Serializing and deserializing (LLVMIRGenPass.cpp) the structs that IR.cpp makes.
use tyr.Prelude.{ℕ, ◌+◌, ◌≤◌, ◌<◌, ◌^◌, ◌≢◌, sym, ◌∙◌, List, length}
use tyr.Ir.{Ty, Struct}
use tyr.Ir.Build.{Sorter, finalize_fields}
use tyr.Ir.Links.{Built, finalized}
use tyr.Ir.Apart.{finalize_fields-Separate}
use tyr.Ir.Pairs.{Built-counts, arrays-repeats}
use tyr.Layout.{IsLayout}
use tyr.Memory.{Ptr, null, cells, Mem, ◌>>=◌}
use tyr.Memory.Laws.{At}
use tyr.Gen.{Target, u64_mod}
use tyr.Gen.Serial.{serialize, deserialize}
use tyr.Gen.Serial.Values.{Item, wires, HoldsAll}
use tyr.Gen.Serial.RoundTrip.{IsRebuilt, deserialize-serialize}

-- Of any struct of at most `2 ^ 32` fields that the operations of `Struct` have made and
-- `finalizeFields` has made final, its fields numbers and arrays with names of their own: if there is
-- memory, `serialize_<struct>` and then `deserialize_<struct>` on its buffer make a new struct that holds
-- the same values, and leave every block that was there before unchanged; the new struct keeps its
-- values when any of those is freed. Elements and swapped numbers are of as many bytes as are stored,
-- of an even number if they are swapped, and an array is not empty if its elements are swapped. The values' bytes are less than `2 ^ 64 - 8`.
pub finalize_fields-deserialize-serialize :
    (so : Sorter) (tg : Target) (s : Struct) (m : Mem) (self : Ptr) (cs : List ℕ)
    (items : List Item) (t : Ty)
    → Built so tg.layout s
    → length s.fields ≤ 2 ^ 32
    → IsLayout tg.layout
    → ((n : ℕ) (m : Mem) → tg.alloc.new_address n m ≢ null)
    → At m self (cells cs)
    → HoldsAll tg.layout
        (finalize_fields so tg.layout s).fields
        m
        cs
        (finalize_fields so tg.layout s).fields
        items
    → 8 + length (wires tg.layout items) < u64_mod
    → IsRebuilt tg.layout (finalize_fields so tg.layout s).fields m items (
        (serialize tg (finalize_fields so tg.layout s).fields self >>= λ p.
        deserialize tg (finalize_fields so tg.layout s).fields t p 0)
          m)
finalize_fields-deserialize-serialize so tg s m self cs items t built few lay memory here holds
      bound =
    deserialize-serialize tg (finalize_fields so tg.layout s).fields lay memory m self cs here items
      holds (finalize_fields-Separate so tg.layout s built few)
      (Built-counts (finalized built) ∙ sym (arrays-repeats holds)) bound t
