-- ===== src/Gen/Update.antt =====
-- `getSetter` of LLVMIRGenPass.cpp. It emits nothing for a field that is not mutable.
pub mod Count
pub mod Repeated
pub mod Setter
pub mod Value
use tyr.Prelude.{ℕ, Bool, true, false, not, ◌&&◌, List, [], ◌∷◌, ◌==◌, if◌then◌else◌}
use tyr.Ir.{Field}
use tyr.Memory.{
  Ptr, Cmd, pure, ◌>>=◌, ◌>>◌, require, load_cell, store_cell, memcpy, malloc, realloc,
}
use tyr.Gen.{Target, not_null, null_check, deref, get_field_alloc_size}
use tyr.Gen.Access.{copy_struct}

module _ (tg : Target) (fs : List Field) (f : Field) where
  set_struct : (self value : Ptr) → Cmd Bool
  unfolding copy_struct
  set_struct self value = do
    copy ← copy_struct tg fs f value
    store_cell self f.offset copy
    pure true

  -- The block `SizeIsRight`: `array` has room for `n` elements.
  pub fill_array : (c : Field) (self array source : Ptr) → ℕ → Cmd Bool
  fill_array c self array source n = do
    store_cell self c.offset n
    size ← get_field_alloc_size tg.layout fs f self
    memcpy array 0 source 0 size
    store_cell self f.offset array
    pure true

  -- The block `FieldIsNull`.
  pub set_new : (c : Field) (self source : Ptr) → ℕ → Cmd Bool
  unfolding fill_array
  set_new c self source n = do
    store_cell self c.offset n
    size ← get_field_alloc_size tg.layout fs f self
    array ← malloc tg.alloc size
    if null_check array [] then fill_array c self array source n else pure false

  -- The block `SizeIsWrong`.
  pub set_resized : (c : Field) (self source : Ptr) → ℕ → (loaded : Ptr) → Cmd Bool
  unfolding fill_array
  set_resized c self source n loaded = do
    store_cell self c.offset n
    size ← get_field_alloc_size tg.layout fs f self
    array ← realloc tg.alloc loaded size
    if null_check array [] then fill_array c self array source n else pure false

  -- The block `CheckSize`.
  pub set_checked : (c : Field) (self source : Ptr) → ℕ → (loaded : Ptr) → Cmd Bool
  unfolding fill_array set_resized
  set_checked c self source n loaded = do
    count ← load_cell self c.offset
    if count == n then fill_array c self loaded source n else set_resized c self source n loaded

  pub set_repeated : (self source : Ptr) → ℕ → Cmd Bool
  unfolding set_new set_checked
  set_repeated self source n = do
    c ← require (deref fs f.count_field)
    loaded ← load_cell self f.offset
    if not_null loaded then set_checked c self source n loaded else set_new c self source n

  -- The block `NewSizeIsNotZero`.
  resize_to : (self : Ptr) → ℕ → Cmd Bool
  resize_to self n = do
    old ← load_cell self f.offset
    store_cell self f.offset n
    r ← require (deref fs f.counts_for)
    array ← load_cell self r.offset
    size ← get_field_alloc_size tg.layout fs r self
    moved ← realloc tg.alloc array size
    store_cell self f.offset old
    if null_check moved []
        then (do store_cell self r.offset moved; store_cell self f.offset n; pure true)
        else pure false

  set_count : (self : Ptr) → ℕ → Cmd Bool
  unfolding resize_to
  set_count self n = if n == 0 then pure false else resize_to self n

  set_value : (self : Ptr) → (value n : ℕ) → Cmd Bool
  unfolding set_struct set_repeated set_count
  set_value self value n =
      if f.is_struct
      then set_struct self value
      else if f.is_repeated
      then set_repeated self value n
      else if f.is_count
      then set_count self value
      else (do store_cell self f.offset value; pure true)

  -- `set_<struct>_<field>`; `n` is the third argument, which a repeated field has.
  unfoldable pub setter : (self : Ptr) → (value n : ℕ) → Cmd Bool
  unfolding set_value
  setter self value n = if null_check self [] then set_value self value n else pure false
