-- ===== src/Runtime.antt =====
-- lib/compiler/Runtime: C helpers that are linked into the generated code on request. They take the
-- generated functions as arguments, and run on the same memory.
pub mod Base64
pub mod Cells
pub mod FileHelper
pub mod Stdio
use tyr.Prelude.{ℕ, ◌%◌, ◌^◌, Bool, true, false, List, [], ◌∷◌}
use tyr.Prelude.Bytes.{le_value}
use tyr.Layout.{encode, decode}
use tyr.Memory.{Ptr, Cmd, pure, ◌>>=◌, load_bytes, store_bytes}

-- A test as the number that C takes it for.
abbrev pub flag : Bool → ℕ
flag true = 1
flag false = 0

abbrev pub u32_mod : ℕ
u32_mod = 2 ^ 32

-- `p[i]` of a `uint8_t *`.
unfoldable pub load_byte : Ptr → ℕ → Cmd ℕ
load_byte p i = do bs ← load_bytes p i 1; pure (le_value bs)

unfoldable pub store_byte : Ptr → ℕ → ℕ → Cmd (Unit {0})
store_byte p i v = store_bytes p i ((v % 256) ∷ [])

-- `*(uint64_t *)p`, in the host's byte order.
unfoldable pub load_u64 : Bool → Ptr → Cmd ℕ
load_u64 little p = do bs ← load_bytes p 0 8; pure (decode little bs)

unfoldable pub store_u64 : Bool → Ptr → ℕ → Cmd (Unit {0})
store_u64 little p v = store_bytes p 0 (encode little 8 v)
