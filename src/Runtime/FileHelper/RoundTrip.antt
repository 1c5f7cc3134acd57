-- ===== src/Runtime/FileHelper/RoundTrip.antt =====
-- FileHelper.c with the serializers and deserializers that LLVMIRGenPass.cpp emits.
use tyr.Prelude.{
  ℕ, ◌+◌, ◌-◌, ◌≤◌, ◌<◌, ◌^◌, ◌≡◌, ◌≢◌, refl, sym, ap, ◌∙◌, true, false, none, some, List, [], ◌++◌,
  arith, ◌==◌, length, length-append, append-nil, ℕ-cases, inl, inr,
}
use tyr.Ir.{Name, Ty, Field, Struct}
use tyr.Ir.Build.{Sorter, finalize_fields}
use tyr.Ir.Links.{Built, finalized}
use tyr.Ir.Apart.{finalize_fields-Separate}
use tyr.Ir.Pairs.{Built-counts, arrays-repeats}
use tyr.Module.Table.{same_name_self}
use tyr.Layout.{DataLayout, IsLayout, encode}
use tyr.Memory.{free, Ptr, null, Block, cells, raw, Mem, write, block_at}
use tyr.Memory.Laws.{At, At-regrouped, At-write_self, At-write_ne, At-ne_null, block_at-write_ne}
use tyr.Memory.Realloc.{free-ok}
use tyr.Gen.{Target, u64_mod}
use tyr.Gen.Serial.{serialize, deserialize}
use tyr.Gen.Serial.Values.{Item, wires, wire_count, HoldsAll, length-wire_count}
use tyr.Gen.Serial.Frames.{TypedAll, HoldsAll-TypedAll}
use tyr.Gen.Serial.Sums.{counts, arrays}
use tyr.Gen.Serial.Buffer.{serialized, serialize-ok, serialize-null}
use tyr.Gen.Serial.RoundTrip.{deserialize-IsRebuilt}
use tyr.Runtime.Base64.Generated.{header-encode}
use tyr.Runtime.Stdio.{Disk, Stdio, Result, done, ◌>>◌, fclose, fopen_write, with_file}
use tyr.Runtime.FileHelper.{
  serialize_to_file, write_to_stream, finish_reading, deserialize_from_file,
}
use tyr.Runtime.FileHelper.Filed.{serialize_to_file-IsStored, deserialize_from_file-copy}

-- The answer is a new struct that holds these values; every block of the old memory is still there,
-- and as many streams are open as before.
pub record IsLoaded (dl : DataLayout) (fs : List Field) (m : Mem) (d : Disk) (items : List Item)
    (r : Result Ptr) : Type 0 where
  pub self : Ptr
  pub mem : Mem
  pub disk : Disk
  pub now : List ℕ
  pub runs : r ≡ done self mem disk
  pub is_new : block_at m self ≡ none
  pub self_at : At mem self (cells now)
  pub holds : HoldsAll dl fs mem now fs items
  pub kept : (q : Ptr) (b : Block) → At m q b → At mem q b
  pub closed : disk.open_streams ≡ d.open_streams

module _ (io : Stdio) (tg : Target) (fs : List Field) (lay : IsLayout tg.layout)
    (default : tg.layout.is_little_endian ≡ true) (libc : (a : Ptr) → io.libc_free a ≡ free a)
    (never_null : (n : ℕ) (m : Mem) → tg.alloc.new_address n m ≢ null) (name : Name)
    (may : io.may_read name ≡ true) (items : List Item)
    (typed : TypedAll tg.layout fs (length fs) fs items) (paired : counts fs ≡ arrays items)
    (bound : 8 + length (wires tg.layout items) < u64_mod) where
  length-serialized : length (serialized tg items) ≡ 8 + length (wires tg.layout items)
  length-serialized =
      length-append (wire_count tg.layout (8 + length (wires tg.layout items)))
        (wires tg.layout items)
      ∙ ap (λ (k : ℕ). k + length (wires tg.layout items))
          (length-wire_count lay (8 + length (wires tg.layout items)))

  serialized-sized :
      serialized tg items
      ≡ encode tg.layout.stores_little_endian 8 (length (serialized tg items))
        ++ wires tg.layout items
  serialized-sized =
      ap (λ h. h ++ wires tg.layout items)
        (header-encode tg (8 + length (wires tg.layout items)) lay default
          ∙ ap (encode tg.layout.stores_little_endian 8) (sym length-serialized))

  deserialize_from_file-IsLoaded :
      (t : Ty) (m : Mem) (d : Disk)
      → d.files name ≡ some (serialized tg items)
      → IsLoaded tg.layout fs m d items (
          deserialize_from_file io tg.alloc tg.layout.stores_little_endian name
            (λ p. deserialize tg fs t p 0)
            m
            d)
  unfolding finish_reading fclose
  deserialize_from_file-IsLoaded t m d found =
      let bs : List ℕ = serialized tg items in
      let p : Ptr = tg.alloc.new_address (length bs) m in
      let memory = never_null (length bs) m in
      let unused : block_at m p ≡ none = tg.alloc.new_unused (length bs) m in
      let m1 : Mem = write m p (some (raw bs)) in
      let there : At m1 p (raw bs) = At-write_self m p (raw bs) memory in
      let r =
        deserialize-IsRebuilt tg fs lay never_null m1 p [] [] items typed paired bound t
          (At-regrouped (sym (append-nil bs)) there) in
      let real : (r.self == null) ≡ false = ground (arith, At-ne_null r.self_at) in
      let apart : r.self ≢ p = λ e. cc (r.is_new, there.found, ap (block_at m1) e) in
      record {
        self = r.self;
        mem = write r.mem p none;
        disk = record d { open_streams = d.open_streams + 1 - 1 };
        now = r.now;
        runs =
            deserialize_from_file-copy io tg.alloc tg.layout.stores_little_endian name bs
              (wires tg.layout items) serialized-sized (omega (arith, length-serialized))
              (λ p. deserialize tg fs t p 0) m r.mem d r.self found may memory r.runs
            ∙ rw (real, libc p, free-ok r.mem p (r.kept p _ there));
        is_new = sym (block_at-write_ne m p r.self _ apart) ∙ r.is_new;
        self_at = At-write_ne p none r.self_at apart;
        holds = r.own p _ there;
        kept = λ a b h.
            let other : a ≢ p = λ e. cc (h.found, unused, ap (block_at m) e) in
            At-write_ne p none (r.kept a b (At-write_ne p _ h other)) other;
        closed = omega arith;
      }

-- Of any struct of at most `2 ^ 32` fields that the operations of `Struct` have made and
-- `finalizeFields` has made final, its fields numbers and arrays with names of their own: if the code is
-- emitted under a little-endian layout, as the default is, the builtins are those of libc, so that its
-- `free` frees what the generated code has allocated, there is memory, the file may be written and read,
-- and `fwrite` writes all that it gets, then `tyr_serialize_to_file` and
-- `tyr_deserialize_from_file` behind it make a new struct that holds the same values. They leave every
-- block that was there before unchanged, and as many streams open. The values' bytes are less than
-- `2 ^ 64 - 8`.
pub deserialize_from_file-serialize_to_file :
    (io : Stdio) (so : Sorter) (tg : Target) (s : Struct) (name : Name) (m : Mem) (d : Disk)
    (self : Ptr) (cs : List ℕ) (items : List Item) (t : Ty)
    → Built so tg.layout s
    → length s.fields ≤ 2 ^ 32
    → IsLayout tg.layout
    → tg.layout.is_little_endian ≡ true
    → ((a : Ptr) → io.libc_free a ≡ free a)
    → ((n : ℕ) (m : Mem) → tg.alloc.new_address n m ≢ null)
    → io.may_write name ≡ true
    → io.may_read name ≡ true
    → ((n : ℕ) → io.accepts n ≡ n)
    → At m self (cells cs)
    → HoldsAll tg.layout
        (finalize_fields so tg.layout s).fields
        m
        cs
        (finalize_fields so tg.layout s).fields
        items
    → 8 + length (wires tg.layout items) < u64_mod
    → IsLoaded tg.layout (finalize_fields so tg.layout s).fields m d items (
        (serialize_to_file io tg.alloc tg.layout.stores_little_endian name
              (serialize tg (finalize_fields so tg.layout s).fields)
              self
            >> deserialize_from_file io tg.alloc tg.layout.stores_little_endian name
                (λ p. deserialize tg (finalize_fields so tg.layout s).fields t p 0))
          m d)
deserialize_from_file-serialize_to_file io so tg s name m d self cs items t built few lay default
      libc memory may_write may_read all here holds bound =
    let fs : List Field = (finalize_fields so tg.layout s).fields in
    let paired : counts fs ≡ arrays items =
      Built-counts (finalized built) ∙ sym (arrays-repeats holds) in
    let typed = HoldsAll-TypedAll holds (finalize_fields-Separate so tg.layout s built few) in
    let n : ℕ = 8 + length (wires tg.layout items) in
    let p : Ptr = tg.alloc.new_address n m in
    let bs : List ℕ = serialized tg items in
    let unused : block_at m p ≡ none = tg.alloc.new_unused n m in
    let m1 : Mem = write m p (some (raw bs)) in
    let size =
      length-serialized io tg fs lay default libc memory name may_read items typed paired bound in
    let stored =
      serialize_to_file-IsStored io tg.alloc tg.layout.stores_little_endian name bs
        (wires tg.layout items)
        (serialized-sized io tg fs lay default libc memory name may_read items typed paired bound)
        (omega (arith, size)) (serialize tg fs) self p m m1 d
        (serialize-ok tg fs lay m self cs here items holds paired bound (memory n m))
        (At-write_self m p (raw bs) (memory n m)) may_write (all (length bs)) libc in
    let loaded =
      deserialize_from_file-IsLoaded io tg fs lay default libc memory name may_read items typed
        paired bound t (write m1 p none) stored.disk stored.content in
    let same : (a : Ptr) (b : Block) → At m a b → At (write m1 p none) a b = λ a b h.
      let other : a ≢ p = λ e. cc (h.found, unused, ap (block_at m) e) in
      At-write_ne p none (At-write_ne p _ h other) other in
    record {
      self = loaded.self;
      mem = loaded.mem;
      disk = loaded.disk;
      now = loaded.now;
      runs = rw stored.runs loaded.runs;
      is_new = elim (ℕ-cases loaded.self p) [
        | inl e ↦ ap (block_at m) e ∙ unused
        | inr ne ↦
            sym (block_at-write_ne m p loaded.self (some (raw bs)) ne)
            ∙ sym (block_at-write_ne m1 p loaded.self none ne)
            ∙ loaded.is_new
      ];
      self_at = loaded.self_at;
      holds = loaded.holds;
      kept = λ a b h. loaded.kept a b (same a b h);
      closed = loaded.closed ∙ stored.closed;
    }

-- A failure to serialize costs the file: of the same structs, if there is no memory for the buffer of
-- the serializer, `tyr_serialize_to_file` answers false, and then the file that it was to write is
-- empty, whatever was in it, and one more stream is open.
pub serialize_to_file-empties :
    (io : Stdio) (so : Sorter) (tg : Target) (s : Struct) (name : Name) (m : Mem) (d : Disk)
    (self : Ptr) (cs : List ℕ) (items : List Item)
    → Built so tg.layout s
    → IsLayout tg.layout
    → io.may_write name ≡ true
    → At m self (cells cs)
    → HoldsAll tg.layout
        (finalize_fields so tg.layout s).fields
        m
        cs
        (finalize_fields so tg.layout s).fields
        items
    → 8 + length (wires tg.layout items) < u64_mod
    → tg.alloc.new_address (8 + length (wires tg.layout items)) m ≡ null
    → (d' : Disk) × (serialize_to_file io tg.alloc tg.layout.stores_little_endian name
          (serialize tg (finalize_fields so tg.layout s).fields)
          self
          m
          d
        ≡ done false m d')
      × (d'.files name ≡ some [])
      × (d'.open_streams ≡ d.open_streams + 1)
unfolding serialize_to_file write_to_stream fopen_write
serialize_to_file-empties io so tg s name m d self cs items built lay may here holds bound
      none_left =
    let failed =
      serialize-null tg (finalize_fields so tg.layout s).fields lay m self cs here items holds
        (Built-counts (finalized built) ∙ sym (arrays-repeats holds)) bound none_left in
    (with_file d name [] (d.open_streams + 1), rw (may, failed), rw (same_name_self name), refl)
