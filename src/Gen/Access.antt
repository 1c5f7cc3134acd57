-- ===== src/Gen/Access.antt =====
-- `getGetter`, `getItemGetter`, `getSetter` and `getItemSetter` of LLVMIRGenPass.cpp.
pub mod Copy
pub mod Guards
pub mod Items
use tyr.Prelude.{ℕ, ◌*◌, ◌%◌, Bool, true, false, not, ◌&&◌, List, [], ◌∷◌, ltb, ◌==◌, if◌then◌else◌}
use tyr.Ir.{Ty, Field}
use tyr.Layout.{DataLayout, pointee}
use tyr.Memory.{
  Ptr, Cmd, pure, ◌>>=◌, ◌>>◌, require, load_cell, store_cell, memcpy, malloc, realloc,
}
use tyr.Gen.{
  Target, u64_mod, not_null, null_check, deref, struct_name, load_num, store_num,
  get_field_alloc_size,
}

module _ (tg : Target) (fs : List Field) (f : Field) where
  -- A deep copy of a struct: `serialize_<name>` and then `deserialize_<name>`.
  unfoldable pub copy_struct : Ptr → Cmd Ptr
  copy_struct p = do n ← require (struct_name f.type); s ← tg.serialize n p; tg.deserialize n s 0

  -- The copy of an immutable array that its getter hands out.
  get_repeated_copy : (self out : Ptr) → ℕ → Cmd Bool
  get_repeated_copy self out loaded = do
    size ← get_field_alloc_size tg.layout fs f self
    copy ← malloc tg.alloc size
    if null_check copy []
        then (do memcpy copy 0 loaded 0 size; store_cell out 0 copy; pure true)
        else pure false

  get_value : (self out : Ptr) → ℕ → Cmd Bool
  unfolding copy_struct get_repeated_copy
  get_value self out loaded =
      if f.is_struct && not f.is_mutable
      then (do copy ← copy_struct loaded; store_cell out 0 copy; pure true)
      else if f.is_repeated && not f.is_mutable
      then get_repeated_copy self out loaded
      else (do store_cell out 0 loaded; pure true)

  -- `get_<struct>_<field>`
  unfoldable pub getter : (self out : Ptr) → Cmd Bool
  unfolding get_value
  getter self out =
      if null_check self (out ∷ [])
      then (do loaded ← load_cell self f.offset; get_value self out loaded)
      else pure false

  get_item : (idx count : ℕ) (out : Ptr) → ℕ → Cmd Bool
  get_item idx count out loaded =
      if ltb idx count
      then (do
        t ← require (pointee f.type)
        item ← load_num tg.layout t loaded (tg.layout.alloc_size t * idx % u64_mod)
        store_cell out 0 item
        pure true)
      else pure false

  -- `get_<struct>_<field>_item`
  unfoldable pub item_getter : (self : Ptr) → ℕ → (out : Ptr) → Cmd Bool
  unfolding get_item
  item_getter self idx out =
      if null_check self (out ∷ [])
      then (do
        loaded ← load_cell self f.offset
        c ← require (deref fs f.count_field)
        count ← load_cell self c.offset
        get_item idx count out loaded)
      else pure false

  set_item : (idx count value : ℕ) → ℕ → Cmd Bool
  set_item idx count value loaded =
      if ltb idx count
      then (do
        t ← require (pointee f.type)
        store_num tg.layout t loaded (tg.layout.alloc_size t * idx % u64_mod) value
        pure true)
      else pure false

  -- `set_<struct>_<field>_item`
  unfoldable pub item_setter : (self : Ptr) → (idx value : ℕ) → Cmd Bool
  unfolding set_item
  item_setter self idx value =
      if null_check self []
      then (do
        loaded ← load_cell self f.offset
        c ← require (deref fs f.count_field)
        count ← load_cell self c.offset
        set_item idx count value loaded)
      else pure false
