-- ===== src/Gen/Serial.antt =====
-- The serializers and deserializers of LLVMIRGenPass.cpp, of a field and of a struct, with
-- `swapArrayBytes`. A pointer into a buffer is a block and a byte of it.
pub mod Values
pub mod Buffer
pub mod Built
pub mod Frames
pub mod Portable
pub mod Read
pub mod ReadAll
pub mod ReadValue
pub mod RoundTrip
pub mod Sums
pub mod Swap
pub mod Words
pub mod Write
use tyr.Prelude.{
  ℕ, zero, suc, ◌+◌, ◌*◌, ◌%◌, Bool, true, false, not, ◌&&◌, Option, none, some, List, [], ◌∷◌,
  ◌==◌, if◌then◌else◌, length,
}
use tyr.Ir.{Ty, int64, Field}
use tyr.Layout.{DataLayout, pointee, is_int, is_pointer, encode, decode}
use tyr.Memory.{
  Ptr, null, Run, fault, Cmd, pure, ◌>>=◌, ◌>>◌, require, load_cell, store_cell, load_bytes,
  store_bytes, memcpy, malloc, malloc_struct, free,
}
use tyr.Gen.{
  Target, u64_mod, null_check, deref, field_named, struct_name, swap_bytes, load_num, store_num,
  get_field_alloc_size,
}

module _ (dl : DataLayout) (t : Ty) (p : Ptr) (base : ℕ) where
  -- One round of the loop of `swapArrayBytes`, on element `k`.
  swap_element : ℕ → Cmd (Unit {0})
  unfolding swap_bytes
  swap_element k = do
    v ← load_num dl t p (base + dl.alloc_size t * k)
    store_num dl t p (base + dl.alloc_size t * k) (swap_bytes dl t v)

  -- The loop tests behind its body. It ends within `2 ^ 64` rounds, or faults at the block's end.
  unfoldable pub swap_loop : ℕ → (k count : ℕ) → Cmd (Unit {0})
  unfolding swap_element
  swap_loop zero k count = λ _. fault
  swap_loop (suc fuel) k count = do
    swap_element k
    elim ((1 + k) % u64_mod == count) [
      | true ↦ pure tt
      | false ↦ swap_loop fuel ((1 + k) % u64_mod) count
    ]

  -- `swapArrayBytes`
  unfoldable pub swap_array : ℕ → Cmd (Unit {0})
  swap_array count =
      if dl.is_little_endian
      then pure tt
      else if is_int t && not (dl.size_in_bits t % 8 == 0)
      then pure tt
      else swap_loop u64_mod 0 count

module _ (tg : Target) (fs : List Field) where
  -- The total size that a struct's header holds: 8, and what each field takes.
  unfoldable pub sum_sizes : List Field → Ptr → ℕ → Cmd ℕ
  sum_sizes [] self acc = pure acc
  sum_sizes (f ∷ rest) self acc = do
    size ← get_field_alloc_size tg.layout fs f self
    sum_sizes rest self ((acc + size) % u64_mod)

  unfoldable pub write_struct : Field → (value buf : Ptr) → ℕ → Cmd ℕ
  write_struct f value buf i = do
    n ← require (struct_name f.type)
    s ← tg.serialize n value
    size ← load_num tg.layout int64 s 0
    memcpy buf i s 0 size
    free s
    pure size

  unfoldable pub write_repeated : Field → (self array buf : Ptr) → ℕ → Cmd ℕ
  write_repeated f self array buf i = do
    c ← require (deref fs f.count_field)
    count ← load_cell self c.offset
    store_num tg.layout c.type buf i (swap_bytes tg.layout c.type count)
    header ← get_field_alloc_size tg.layout fs c self
    size ← get_field_alloc_size tg.layout fs f self
    memcpy buf (i + header) array 0 size
    t ← require (pointee f.type)
    swap_array tg.layout t buf (i + header) count
    pure ((header + size) % u64_mod)

  unfoldable pub write_scalar : Field → Ptr → ℕ → (buf : Ptr) → ℕ → Cmd ℕ
  write_scalar f self value buf i = do
    size ← get_field_alloc_size tg.layout fs f self
    store_num tg.layout f.type buf i (swap_bytes tg.layout f.type value)
    pure size

  -- `__serialize_<struct>_<field>`: writes at byte `i` of the buffer, and returns the bytes taken.
  unfoldable pub serialize_field : Field → (self buf : Ptr) → ℕ → Cmd ℕ
  serialize_field f self buf i =
      if null_check self (buf ∷ [])
      then (do
        value ← load_cell self f.offset
        if f.is_struct
            then write_struct f value buf i
            else if f.is_repeated
            then write_repeated f self value buf i
            else write_scalar f self value buf i)
      else pure 0

  unfoldable pub read_struct : Field → (self buf : Ptr) → ℕ → Cmd ℕ
  read_struct f self buf i = do
    n ← require (struct_name f.type)
    p ← tg.deserialize n buf i
    store_cell self f.offset p
    load_num tg.layout int64 buf i

  unfoldable pub read_elements : Field → (self array buf : Ptr) → (i count header size : ℕ) → Cmd ℕ
  read_elements f self array buf i count header size =
      if null_check array []
      then (do
        memcpy array 0 buf (i + header) size
        t ← require (pointee f.type)
        swap_array tg.layout t array 0 count
        store_cell self f.offset array
        pure ((header + size) % u64_mod))
      else pure 0

  unfoldable pub read_repeated : Field → (self buf : Ptr) → ℕ → Cmd ℕ
  read_repeated f self buf i = do
    c ← require (deref fs f.count_field)
    stored ← load_num tg.layout c.type buf i
    let count = swap_bytes tg.layout c.type stored
    store_cell self c.offset count
    header ← get_field_alloc_size tg.layout fs c self
    size ← get_field_alloc_size tg.layout fs f self
    array ← malloc tg.alloc size
    read_elements f self array buf i count header size

  unfoldable pub read_scalar : Field → (self buf : Ptr) → ℕ → Cmd ℕ
  read_scalar f self buf i = do
    stored ← load_num tg.layout f.type buf i
    size ← get_field_alloc_size tg.layout fs f self
    store_cell self f.offset (swap_bytes tg.layout f.type stored)
    pure size

  -- `__deserialize_<struct>_<field>`: reads at byte `i`, and returns the bytes taken.
  unfoldable pub deserialize_field : Field → (self buf : Ptr) → ℕ → Cmd ℕ
  deserialize_field f self buf i =
      if null_check self (buf ∷ [])
      then (if f.is_struct
          then read_struct f self buf i
          else if is_pointer f.type
          then read_repeated f self buf i
          else read_scalar f self buf i)
      else pure 0

  -- The loops of the struct's functions, which pass over the count fields and find the function of
  -- another field by its name.
  unfoldable pub serialize_fields : List Field → (self buf : Ptr) → ℕ → Cmd ℕ
  serialize_fields [] self buf i = pure i
  serialize_fields (f ∷ rest) self buf i = do
    size ←
        (if f.is_count
          then pure 0
          else (do g ← require (field_named fs f.name); serialize_field g self buf i))
    serialize_fields rest self buf ((i + size) % u64_mod)

  unfoldable pub deserialize_fields : List Field → (self buf : Ptr) → (base i : ℕ) → Cmd ℕ
  deserialize_fields [] self buf base i = pure i
  deserialize_fields (f ∷ rest) self buf base i = do
    size ←
        (if f.is_count
          then pure 0
          else (do g ← require (field_named fs f.name); deserialize_field g self buf (base + i)))
    deserialize_fields rest self buf base ((i + size) % u64_mod)

  unfoldable pub write_object : (self buf : Ptr) → ℕ → Cmd Ptr
  write_object self buf total =
      if null_check buf []
      then (do
        store_num tg.layout int64 buf 0 (swap_bytes tg.layout int64 total)
        serialize_fields fs self buf 8
        pure buf)
      else pure null

  -- `serialize_<struct>`
  unfoldable pub serialize : (self : Ptr) → Cmd Ptr
  serialize self =
      if null_check self []
      then (do
        total ← sum_sizes fs self 8
        buf ← malloc tg.alloc total
        write_object self buf total)
      else pure null

  unfoldable pub read_object : (self buf : Ptr) → (base size : ℕ) → Cmd Ptr
  read_object self buf base size =
      if null_check self []
      then (do
        deserialize_fields fs self buf base 8
        total ← sum_sizes fs self 8
        pure (if size == total then self else null))
      else pure null

  -- `deserialize_<struct>`, of the bytes from byte `base` of the block on. It reads the size before
  -- it looks whether there is a buffer.
  unfoldable pub deserialize : Ty → (buf : Ptr) → ℕ → Cmd Ptr
  deserialize t buf base = do
    stored ← load_num tg.layout int64 buf base
    if null_check buf []
        then (do
          self ← malloc_struct tg.alloc (tg.layout.alloc_size t) (length fs)
          read_object self buf base (swap_bytes tg.layout int64 stored))
        else pure null
