-- ===== src/Runtime/Base64/Generated.antt =====
-- Base64.c with the serializers that LLVMIRGenPass.cpp emits.
use tyr.Prelude.{
  not, if◌then◌else◌, Bool, ℕ, ◌+◌, ◌<◌, ◌≡◌, ◌≢◌, sym, ap, ◌∙◌, true, some, List, ◌++◌, arith,
  length, ◌==◌, false,
}
use tyr.Ir.{Struct}
use tyr.Ir.Build.{Sorter, finalize_fields}
use tyr.Ir.Links.{Built, finalized}
use tyr.Ir.Pairs.{Built-counts, arrays-repeats}
use tyr.Layout.{IsLayout, encode}
use tyr.Memory.{Ptr, null, raw, cells, Mem, write, fault}
use tyr.Memory.Laws.{At, At-regrouped, At-write_self}
use tyr.Gen.{Target, u64_mod}
use tyr.Gen.Serial.{serialize}
use tyr.Gen.Serial.Values.{Item, wires, wire_count, HoldsAll}
use tyr.Gen.Serial.Buffer.{serialized, serialize-ok}
use tyr.Gen.Serial.Portable.{count-encode}
use tyr.Runtime.Base64.{serialize_to_base64}
use tyr.Runtime.Base64.Past.{encode_object-past}

-- The header of a serialized struct, as a host of little-endian numbers reads it.
pub header-encode :
    (tg : Target) (n : ℕ)
    → IsLayout tg.layout
    → tg.layout.is_little_endian ≡ true
    → wire_count tg.layout n ≡ encode tg.layout.stores_little_endian 8 n
header-encode tg n lay default =
    count-encode lay n
    ∙ ap
        (λ (b : Bool).
          encode (if b then tg.layout.stores_little_endian else not tg.layout.stores_little_endian)
            8 n)
        default

-- Of any struct of at most `2 ^ 32` fields that the operations of `Struct` have made and
-- `finalizeFields` has made final, its fields numbers and arrays with names of their own: if the code is
-- emitted under a little-endian layout, as the default is, and there is memory for the buffer of its
-- serializer, `tyr_serialize_to_base64` reads behind the end of that buffer, since the
-- header counts itself, and the reading starts behind the header.
pub serialize_to_base64-fault :
    (so : Sorter) (tg : Target) (s : Struct) (m : Mem) (self : Ptr) (cs : List ℕ)
    (items : List Item)
    → Built so tg.layout s
    → IsLayout tg.layout
    → tg.layout.is_little_endian ≡ true
    → At m self (cells cs)
    → HoldsAll tg.layout
        (finalize_fields so tg.layout s).fields
        m
        cs
        (finalize_fields so tg.layout s).fields
        items
    → 8 + length (wires tg.layout items) < u64_mod
    → tg.alloc.new_address (8 + length (wires tg.layout items)) m ≢ null
    → serialize_to_base64 tg.alloc tg.layout.stores_little_endian
        (serialize tg (finalize_fields so tg.layout s).fields)
        self
        m
      ≡ fault
unfolding serialize_to_base64
serialize_to_base64-fault so tg s m self cs items built lay default here holds bound memory =
    let n : ℕ = 8 + length (wires tg.layout items) in
    let p : Ptr = tg.alloc.new_address n m in
    let there : (p == null) ≡ false = ground arith in
    let made =
      serialize-ok tg (finalize_fields so tg.layout s).fields lay m self cs here items holds
        (Built-counts (finalized built) ∙ sym (arrays-repeats holds)) bound memory in
    rw (made, there)
      (encode_object-past tg.alloc tg.layout.stores_little_endian
        (write m p (some (raw (serialized tg items)))) p n (wires tg.layout items)
        (At-regrouped (ap (λ h. h ++ wires tg.layout items) (header-encode tg n lay default))
          (At-write_self m p (raw (serialized tg items)) memory))
        (omega arith) bound bound)
