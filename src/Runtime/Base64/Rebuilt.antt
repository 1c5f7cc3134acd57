-- ===== src/Runtime/Base64/Rebuilt.antt =====
-- `tyr_deserialize_from_base64` (Base64.c) with the deserializers that LLVMIRGenPass.cpp emits.
use tyr.Prelude.{
  ℕ, ◌+◌, ◌*◌, ◌<◌, ◌≡◌, ◌≢◌, sym, ap, ◌∙◌, true, false, none, some, List, [], ◌++◌, arith, ◌==◌,
  length, All, All-append, replicate, append_assoc, length-append,
}
use tyr.Prelude.Bytes.{IsByte}
use tyr.Ir.{Ty, Field}
use tyr.Layout.{DataLayout, IsLayout}
use tyr.Memory.{Ptr, null, Block, cells, raw, Mem, write, block_at, Run, ok}
use tyr.Memory.Laws.{
  At, At-regrouped, At-write_self, At-write_ne, At-ne_null, block_at-write_ne, block_at-write_self,
}
use tyr.Memory.Realloc.{free-ok}
use tyr.Gen.{Target, u64_mod}
use tyr.Gen.Serial.{deserialize}
use tyr.Gen.Serial.Values.{Item, wires, wire_count, HoldsAll, wires-IsByte}
use tyr.Gen.Serial.Frames.{TypedAll}
use tyr.Gen.Serial.Sums.{counts, arrays}
use tyr.Gen.Serial.Buffer.{serialized}
use tyr.Gen.Serial.RoundTrip.{deserialize-IsRebuilt, deserialize-IsRejected}
use tyr.Runtime.Base64.{finish_decoding, deserialize_from_base64}
use tyr.Runtime.Base64.Alphabet.{rounds, pad, rounds-pad}
use tyr.Runtime.Base64.Text.{encoded}
use tyr.Runtime.Base64.Decoded.{decoded_buffer, deserialize_from_base64-buffer}
use tyr.Runtime.Base64.Generated.{header-encode}

-- The answer is a new struct that holds these values, every block of the old memory is still there, and
-- the block `buffer`, which was not, is not there either.
pub record IsDecoded (dl : DataLayout) (fs : List Field) (m : Mem) (items : List Item)
    (buffer : Ptr) (r : Run Ptr) : Type 0 where
  pub self : Ptr
  pub mem : Mem
  pub now : List ℕ
  pub runs : r ≡ ok self mem
  pub is_new : block_at m self ≡ none
  pub self_at : At mem self (cells now)
  pub holds : HoldsAll dl fs mem now fs items
  pub kept : (q : Ptr) (b : Block) → At m q b → At mem q b
  pub buffer_new : block_at m buffer ≡ none
  pub freed : block_at mem buffer ≡ none

-- The answer is NULL; a struct and the decoded bytes stay behind without an owner.
pub record IsLeaked (m : Mem) (r : Run Ptr) : Type 0 where
  pub mem : Mem
  pub runs : r ≡ ok null mem
  pub buffer : Ptr
  pub decoded : List ℕ
  pub buffer_new : block_at m buffer ≡ none
  pub buffer_left : At mem buffer (raw decoded)
  pub self : Ptr
  pub now : List ℕ
  pub self_new : block_at m self ≡ none
  pub self_left : At mem self (cells now)
  pub kept : (q : Ptr) (b : Block) → At m q b → At mem q b

module _ (tg : Target) (fs : List Field) (lay : IsLayout tg.layout)
    (default : tg.layout.is_little_endian ≡ true)
    (never_null : (n : ℕ) (m : Mem) → tg.alloc.new_address n m ≢ null) (m : Mem) (q : Ptr)
    (extra back : List ℕ) (items : List Item) (typed : TypedAll tg.layout fs (length fs) fs items)
    (paired : counts fs ≡ arrays items) (bytes : All IsByte extra)
    (bound : 4 * rounds (wires tg.layout items ++ extra) + 8 < u64_mod)
    (small : 8 + length (wires tg.layout items) < u64_mod)
    (here : At m q
      (raw (encoded tg.layout.stores_little_endian (wires tg.layout items ++ extra) ++ back))) where
  decoded_counted :
      decoded_buffer tg.layout.stores_little_endian (wires tg.layout items ++ extra)
      ≡ []
        ++ ((wire_count tg.layout (length (wires tg.layout items ++ extra))
              ++ wires tg.layout items)
            ++ (extra ++ replicate (pad (wires tg.layout items ++ extra)) 0))
  decoded_counted =
      rw (header-encode tg (length (wires tg.layout items ++ extra)) lay default)
        (simp append_assoc)

  total_length :
      length (wires tg.layout items ++ extra) ≡ length (wires tg.layout items) + length extra
  total_length = length-append (wires tg.layout items) extra

  content-IsByte : All IsByte (wires tg.layout items ++ extra)
  content-IsByte =
      All-append IsByte (wires tg.layout items) extra (wires-IsByte tg.layout items) bytes

  -- If the text carries all bytes of a struct's values and another number of bytes than eight behind them,
  -- the deserializer refuses what `tyr_deserialize_from_base64` has decoded, and NULL is the answer: then
  -- neither the decoded bytes nor the new struct are freed. Every block that was there before is
  -- unchanged. The code is emitted under a little-endian layout, as the default is; the fields are
  -- numbers and arrays with names of their own; there is memory; the text and the values are of less
  -- than `2 ^ 64 - 8` bytes.
  pub deserialize_from_base64-IsLeaked :
      length extra ≢ 8
      → (t : Ty)
      → IsLeaked m (
          deserialize_from_base64 tg.alloc tg.layout.stores_little_endian
            (λ p. deserialize tg fs t p 0)
            q
            m)
  unfolding finish_decoding
  deserialize_from_base64-IsLeaked other t =
      let bs : List ℕ = wires tg.layout items ++ extra in
      let memory = never_null (3 * rounds bs + 8) m in
      let p : Ptr = tg.alloc.new_address (3 * rounds bs + 8) m in
      let unused : block_at m p ≡ none = tg.alloc.new_unused (3 * rounds bs + 8) m in
      let m1 : Mem = write m p (some (raw (decoded_buffer tg.layout.stores_little_endian bs))) in
      let there : At m1 p (raw (decoded_buffer tg.layout.stores_little_endian bs)) =
        At-write_self m p (raw (decoded_buffer tg.layout.stores_little_endian bs)) memory in
      let r =
        deserialize-IsRejected tg fs lay never_null m1 p [] (extra ++ replicate (pad bs) 0) items
          typed paired small t (length bs) (omega (arith, rounds-pad bs))
          (λ e. other (omega (arith, total_length))) (At-regrouped decoded_counted there) in
      let apart : r.self ≢ p = λ e. cc (r.is_new, there.found, ap (block_at m1) e) in
      record {
        mem = r.mem;
        runs =
            deserialize_from_base64-buffer tg.alloc tg.layout.stores_little_endian m q bs back here
              content-IsByte bound memory (λ p. deserialize tg fs t p 0)
            ∙ rw r.runs;
        buffer = p;
        decoded = decoded_buffer tg.layout.stores_little_endian bs;
        buffer_new = unused;
        buffer_left = r.kept p _ there;
        self = r.self;
        now = r.now;
        self_new = sym (block_at-write_ne m p r.self _ apart) ∙ r.is_new;
        self_left = r.leaked;
        kept = λ a b h.
            let other : a ≢ p = λ e. cc (h.found, unused, ap (block_at m) e) in
            r.kept a b (At-write_ne p _ h other);
      }

  decoded_serialized :
      length extra ≡ 8
      → decoded_buffer tg.layout.stores_little_endian (wires tg.layout items ++ extra)
        ≡ []
          ++ (serialized tg items ++ (extra ++ replicate (pad (wires tg.layout items ++ extra)) 0))
  decoded_serialized eight =
      let total : length (wires tg.layout items ++ extra) ≡ 8 + length (wires tg.layout items) =
        omega (arith, total_length) in
      decoded_counted ∙ rw total

  -- `tyr_deserialize_from_base64` with `deserialize_<struct>`, at the base64url text of the bytes of a
  -- struct's values and any eight bytes behind them, answers a new struct that holds the values, leaves
  -- every block that was there before unchanged, and frees the block that it has decoded into. The
  -- code is emitted under a little-endian layout, as the default is; the fields are numbers and arrays
  -- with names of their own; there is memory; the text and the values are of less than `2 ^ 64 - 8`
  -- bytes.
  pub deserialize_from_base64-IsDecoded :
      length extra ≡ 8
      → (t : Ty)
      → IsDecoded tg.layout fs m items
          (tg.alloc.new_address (3 * rounds (wires tg.layout items ++ extra) + 8) m)
          (deserialize_from_base64 tg.alloc tg.layout.stores_little_endian
            (λ p. deserialize tg fs t p 0)
            q
            m)
  unfolding finish_decoding
  deserialize_from_base64-IsDecoded eight t =
      let bs : List ℕ = wires tg.layout items ++ extra in
      let memory = never_null (3 * rounds bs + 8) m in
      let p : Ptr = tg.alloc.new_address (3 * rounds bs + 8) m in
      let unused : block_at m p ≡ none = tg.alloc.new_unused (3 * rounds bs + 8) m in
      let m1 : Mem = write m p (some (raw (decoded_buffer tg.layout.stores_little_endian bs))) in
      let there : At m1 p (raw (decoded_buffer tg.layout.stores_little_endian bs)) =
        At-write_self m p (raw (decoded_buffer tg.layout.stores_little_endian bs)) memory in
      let r =
        deserialize-IsRebuilt tg fs lay never_null m1 p [] (extra ++ replicate (pad bs) 0) items
          typed paired small t (At-regrouped (decoded_serialized eight) there) in
      let real : (r.self == null) ≡ false = ground (arith, At-ne_null r.self_at) in
      let apart : r.self ≢ p = λ e. cc (r.is_new, there.found, ap (block_at m1) e) in
      record {
        self = r.self;
        mem = write r.mem p none;
        now = r.now;
        runs =
            deserialize_from_base64-buffer tg.alloc tg.layout.stores_little_endian m q bs back here
              content-IsByte bound memory (λ p. deserialize tg fs t p 0)
            ∙ rw (r.runs, real, free-ok r.mem p (r.kept p _ there));
        is_new = sym (block_at-write_ne m p r.self _ apart) ∙ r.is_new;
        self_at = At-write_ne p none r.self_at apart;
        holds = r.own p _ there;
        kept = λ a b h.
            let other : a ≢ p = λ e. cc (h.found, unused, ap (block_at m) e) in
            At-write_ne p none (r.kept a b (At-write_ne p _ h other)) other;
        buffer_new = unused;
        freed = block_at-write_self r.mem p none memory;
      }
