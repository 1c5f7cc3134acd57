-- ===== src/Gen/Serial/RoundTrip.antt =====
-- `deserialize_<struct>` (LLVMIRGenPass.cpp, `getDeserializer`) on the bytes of a struct, and on what
-- `serialize_<struct>` made.
use tyr.Prelude.{
  ℕ, ◌+◌, ◌<◌, ◌≡◌, ◌≢◌, sym, ap, ◌∙◌, true, false, none, some, List, [], ◌++◌, arith, ◌==◌,
  if◌then◌else◌, length, length-append, append_assoc, append-nil,
}
use tyr.Ir.{Ty, int64, Field}
use tyr.Layout.{DataLayout, IsLayout}
use tyr.Memory.{Ptr, null, Block, cells, raw, Mem, write, block_at, Run, ok, ◌>>=◌, fresh_bytes}
use tyr.Memory.Laws.{
  At, At-ne_null, At-write_ne, At-write_self, length-fresh_bytes, malloc_struct-ok,
  block_at-write_ne,
}
use tyr.Gen.{Target, u64_mod, swap_bytes, load_num}
use tyr.Gen.Sizes.{null_check_one}
use tyr.Gen.Serial.{sum_sizes, deserialize_fields, read_object, serialize, deserialize}
use tyr.Gen.Serial.Words.{Fits, load_num-ok, swap_bytes-Fits, swap_bytes-swap_bytes, int64-IsWord}
use tyr.Gen.Serial.Values.{Item, wire_count, wires, HoldsAll, length-wire_count}
use tyr.Gen.Serial.Frames.{TypedAll, Separate, HoldsAll-TypedAll}
use tyr.Gen.Serial.Sums.{counts, arrays, length-wires, sum_sizes-ok}
use tyr.Gen.Serial.ReadAll.{deserialize_fields-HasReadAll}
use tyr.Gen.Serial.Buffer.{serialized, serialize-ok}

-- The deserializer has read these values into a new struct, and has compared the header's `n` with
-- the `total`.
record IsReading (dl : DataLayout) (fs : List Field) (m : Mem) (items : List Item) (n total : ℕ)
    (r : Run Ptr) : Type 0 where
  self : Ptr
  mem : Mem
  now : List ℕ
  runs : r ≡ ok (if n == total then self else null) mem
  ne_null : self ≢ null
  is_new : block_at m self ≡ none
  self_at : At mem self (cells now)
  holds : HoldsAll dl fs mem now fs items
  kept : (q : Ptr) (b : Block) → At m q b → At mem q b
  own : (q : Ptr) (b : Block) → At m q b → HoldsAll dl fs (write mem q none) now fs items

-- The answer is NULL, and the struct that was read stays behind without an owner.
pub record IsRejected (m : Mem) (r : Run Ptr) : Type 0 where
  pub self : Ptr
  pub mem : Mem
  pub now : List ℕ
  pub runs : r ≡ ok null mem
  pub is_new : block_at m self ≡ none
  pub leaked : At mem self (cells now)
  pub kept : (q : Ptr) (b : Block) → At m q b → At mem q b

-- The outcome is a new struct that holds these values, and every block of the old memory is still
-- there. The values need none of those: any may be freed.
pub record IsRebuilt (dl : DataLayout) (fs : List Field) (m : Mem) (items : List Item) (r : Run Ptr)
    : Type 0 where
  pub self : Ptr
  pub mem : Mem
  pub now : List ℕ
  pub runs : r ≡ ok self mem
  pub is_new : block_at m self ≡ none
  pub self_at : At mem self (cells now)
  pub holds : HoldsAll dl fs mem now fs items
  pub kept : (q : Ptr) (b : Block) → At m q b → At mem q b
  pub own : (q : Ptr) (b : Block) → At m q b → HoldsAll dl fs (write mem q none) now fs items

module _ (tg : Target) (fs : List Field) (lay : IsLayout tg.layout)
    (never_null : (n : ℕ) (m : Mem) → tg.alloc.new_address n m ≢ null) (m : Mem) (buf : Ptr)
    (front back : List ℕ) (items : List Item) (typed : TypedAll tg.layout fs (length fs) fs items)
    (paired : counts fs ≡ arrays items) (bound : 8 + length (wires tg.layout items) < u64_mod) where
  total : ℕ
  total = 8 + length (wires tg.layout items)

  read_object-ok :
      (n : ℕ) (m' : Mem) {m'' : Mem} {now : List ℕ} (self : Ptr)
      → self ≢ null
      → deserialize_fields tg fs fs self buf (length front) 8 m' ≡ ok total m''
      → At m'' self (cells now)
      → HoldsAll tg.layout fs m'' now fs items
      → read_object tg fs self buf (length front) n m' ≡ ok (if n == total then self else null) m''
  unfolding read_object total
  read_object-ok n m' {m''} self ne loop here holds =
      let sizes : sum_sizes tg fs fs self 8 m'' ≡ ok total m'' =
        sum_sizes-ok tg 8 lay here holds (omega (arith, length-wires lay holds))
        ∙ ap (λ k. ok k m'') (omega (arith, length-wires lay holds)) in
      rw (null_check_one self ne, loop, sizes)

  deserialize-IsReading :
      (t : Ty) (n : ℕ)
      → n < u64_mod
      → At m buf (raw (front ++ ((wire_count tg.layout n ++ wires tg.layout items) ++ back)))
      → IsReading tg.layout fs m items n total (deserialize tg fs t buf (length front) m)
  unfolding deserialize total
  deserialize-IsReading t n small here =
      let self : Ptr = tg.alloc.new_address (tg.layout.alloc_size t) m in
      let blank : List ℕ = fresh_bytes tg.alloc (length fs) in
      let m0 : Mem = write m self (some (cells blank)) in
      let ne : self ≢ null = never_null _ m in
      let unused : block_at m self ≡ none = tg.alloc.new_unused (tg.layout.alloc_size t) m in
      let apart : (q : Ptr) (b : Block) → At m q b → q ≢ self =
        λ q b h e. cc (h.found, unused, ap (block_at m) e) in
      let head : List ℕ = wire_count tg.layout n in
      let ws : List ℕ = wires tg.layout items in
      let fits : Fits tg.layout int64 n = rw lay.int64_store small in
      let eight : length head ≡ 8 = length-wire_count lay n in
      let regroup : front ++ ((head ++ ws) ++ back) ≡ (front ++ head) ++ (ws ++ back) =
        simp append_assoc in
      let regroup' : front ++ ((head ++ ws) ++ back) ≡ front ++ (head ++ (ws ++ back)) =
        simp append_assoc in
      let all =
        deserialize_fields-HasReadAll tg fs lay never_null self buf (length front) m0 blank 8
          (front ++ head) back typed (sym (length-fresh_bytes tg.alloc (length fs)))
          (At-write_self m self _ ne) (At-write_ne self _ (rw regroup at here) (apart buf _ here))
          (omega (arith, length-append front head)) bound in
      let header : load_num tg.layout int64 buf (length front) m
          ≡ ok (swap_bytes tg.layout int64 n) m =
        load_num-ok tg.layout int64 front (ws ++ back) (swap_bytes tg.layout int64 n)
          (swap_bytes-Fits (int64-IsWord lay) n fits) (rw regroup' at here) in
      record {
        self = self;
        mem = all.mem;
        now = all.now;
        runs =
            rw
              (
                header,
                null_check_one buf (At-ne_null here),
                malloc_struct-ok tg.alloc (tg.layout.alloc_size t) (length fs) m ne,
                swap_bytes-swap_bytes (int64-IsWord lay) n fits,
              )
              (read_object-ok n m0 self ne all.runs all.self_at all.holds);
        ne_null = ne;
        is_new = unused;
        self_at = all.self_at;
        holds = all.holds;
        kept = λ q b h. all.kept.blocks q b (At-write_ne self _ h (apart q b h)) (apart q b h);
        own = λ q b h. all.own q b (At-write_ne self _ h (apart q b h)) (apart q b h);
      }

  -- `deserialize_<struct>` at the bytes of a struct's values makes a struct that holds them.
  pub deserialize-IsRebuilt :
      (t : Ty)
      → At m buf (raw (front ++ (serialized tg items ++ back)))
      → IsRebuilt tg.layout fs m items (deserialize tg fs t buf (length front) m)
  unfolding total
  deserialize-IsRebuilt t here =
      let r = deserialize-IsReading t total bound here in
      let same : (total == total) ≡ true = ground arith in
      record {
        self = r.self;
        mem = r.mem;
        now = r.now;
        runs = rw same at r.runs;
        is_new = r.is_new;
        self_at = r.self_at;
        holds = r.holds;
        kept = r.kept;
        own = r.own;
      }

  -- Whatever the bytes of the values, a header with another size than theirs makes
  -- `deserialize_<struct>` answer NULL; the new struct that it has filled by then stays allocated.
  pub deserialize-IsRejected :
      (t : Ty) (n : ℕ)
      → n < u64_mod
      → n ≢ 8 + length (wires tg.layout items)
      → At m buf (raw (front ++ ((wire_count tg.layout n ++ wires tg.layout items) ++ back)))
      → IsRejected m (deserialize tg fs t buf (length front) m)
  unfolding total
  deserialize-IsRejected t n small ne here =
      let r = deserialize-IsReading t n small here in
      let other : (n == total) ≡ false = ground arith in
      record {
        self = r.self;
        mem = r.mem;
        now = r.now;
        runs = rw other at r.runs;
        is_new = r.is_new;
        leaked = r.self_at;
        kept = r.kept;
      }

-- A struct through a buffer and back.
module _ (tg : Target) (fs : List Field) (lay : IsLayout tg.layout)
    (never_null : (n : ℕ) (m : Mem) → tg.alloc.new_address n m ≢ null) (m : Mem) (self : Ptr)
    (cs : List ℕ) (self_at : At m self (cells cs)) (items : List Item)
    (holds : HoldsAll tg.layout fs m cs fs items) (separate : Separate fs (length fs) fs)
    (paired : counts fs ≡ arrays items) (bound : 8 + length (wires tg.layout items) < u64_mod) where
  -- `serialize_<struct>` and then `deserialize_<struct>` on its buffer make a new struct that holds
  -- the same values and shares no block with those that were there before, which are unchanged.
  pub deserialize-serialize :
      (t : Ty)
      → IsRebuilt tg.layout fs m items ((serialize tg fs self >>= λ p. deserialize tg fs t p 0) m)
  deserialize-serialize t =
      let n : ℕ = 8 + length (wires tg.layout items) in
      let buf : Ptr = tg.alloc.new_address n m in
      let m1 : Mem = write m buf (some (raw (serialized tg items))) in
      let unused : block_at m buf ≡ none = tg.alloc.new_unused n m in
      let whole : At m1 buf (raw ([] ++ (serialized tg items ++ []))) =
        rw append-nil (At-write_self m buf _ (never_null n m)) in
      let back =
        deserialize-IsRebuilt tg fs lay never_null m1 buf [] [] items
          (HoldsAll-TypedAll holds separate) paired bound t whole in
      record {
        self = back.self;
        mem = back.mem;
        now = back.now;
        runs =
            rw (serialize-ok tg fs lay m self cs self_at items holds paired bound (never_null n m))
              back.runs;
        is_new =
            let ne : back.self ≢ buf = λ e. cc (back.is_new, whole.found, ap (block_at m1) e) in
            rw (block_at-write_ne m buf back.self _ ne) at back.is_new;
        self_at = back.self_at;
        holds = back.holds;
        kept = λ q b h.
            back.kept q b (At-write_ne buf _ h (λ e. cc (h.found, unused, ap (block_at m) e)));
        own = λ q b h.
            back.own q b (At-write_ne buf _ h (λ e. cc (h.found, unused, ap (block_at m) e)));
      }
