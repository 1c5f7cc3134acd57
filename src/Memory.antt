-- ===== src/Memory.antt =====
-- The memory on which generated code runs, and the instructions that IRBuilder emits into it.
-- An address is the number of a block. A `cells` block is what `CreateStructGEP` addresses by field
-- index, or a variable of the caller, with one number to a cell; a `raw` block is bytes. A fault is
-- undefined behaviour: an access through NULL, to no live block, or outside its block.
pub mod Laws
pub mod Realloc
pub mod Spares
use tyr.Prelude.{
  ℕ, zero, suc, ◌+◌, ◌≡◌, ◌≢◌, ◌⊎◌, Bool, true, false, not, ◌&&◌, Option, none, some, List, [], ◌∷◌,
  ◌==◌, ltb, if◌then◌else◌, length, get_elem?, set, replicate, slice, splice,
}

abbrev pub Ptr : Type 0
Ptr = ℕ

abbrev pub null : Ptr
null = 0

pub data Block : Type 0 where
  cells : List ℕ → Block
  raw : List ℕ → Block

-- The blocks by address; there are finitely many.
abbrev pub Mem : Type 0
Mem = List (Option Block)

abbrev pub look : Mem → Ptr → Option Block
look [] p = none
look (b ∷ m) zero = b
look (b ∷ m) (suc p) = look m p

unfoldable pub write : Mem → Ptr → Option Block → Mem
write [] zero b = b ∷ []
write [] (suc p) b = none ∷ write [] p b
write (c ∷ m) zero b = b ∷ m
write (c ∷ m) (suc p) b = c ∷ write m p b

-- What a pointer leads to: nothing, at NULL.
unfoldable pub block_at : Mem → Ptr → Option Block
block_at m p = if p == null then none else look m p

pub data Run (A : Type 0) : Type 0 where
  ok : A → Mem → Run A
  fault : Run A

abbrev pub Cmd : Type 0 → Type 0
Cmd A = Mem → Run A

abbrev pub pure : {A : Type 0} → A → Cmd A
pure = ok

module _ {A B : Type 0} where
  abbrev pub and_then : Run A → (A → Cmd B) → Run B
  and_then (ok a m) k = k a m
  and_then fault k = fault

  infixl 5 ◌>>=◌ ◌>>◌
  abbrev pub ◌>>=◌ : Cmd A → (A → Cmd B) → Cmd B
  c >>= k = λ m. and_then (c m) k

  abbrev pub ◌>>◌ : Cmd A → Cmd B → Cmd B
  c >> d = c >>= λ _. d

-- A value that the generator takes for granted; there is a fault where it is not there.
abbrev pub require : {A : Type 0} → Option A → Cmd A
require none m = fault
require (some a) m = ok a m

load_cell_in : Option Block → ℕ → Cmd ℕ
load_cell_in (some (cells cs)) i m = require (get_elem? cs i) m
load_cell_in _ i m = fault

-- A load through `CreateStructGEP(p, i)`; a caller's variable is cell 0 of its block.
pub load_cell : Ptr → ℕ → Cmd ℕ
unfolding load_cell_in
load_cell p i m = load_cell_in (block_at m p) i m

store_cell_in : Option Block → Ptr → ℕ → ℕ → Cmd (Unit {0})
store_cell_in (some (cells cs)) p i v m =
    if ltb i (length cs) then ok tt (write m p (some (cells (set cs i v)))) else fault
store_cell_in _ p i v m = fault

pub store_cell : Ptr → ℕ → ℕ → Cmd (Unit {0})
unfolding store_cell_in
store_cell p i v m = store_cell_in (block_at m p) p i v m

load_bytes_in : Option Block → ℕ → ℕ → Cmd (List ℕ)
load_bytes_in (some (raw bs)) i n m = require (slice bs i n) m
load_bytes_in _ i n m = fault

-- The `n` bytes from byte `i` of the block on.
pub load_bytes : Ptr → ℕ → ℕ → Cmd (List ℕ)
unfolding load_bytes_in
load_bytes p i n m = load_bytes_in (block_at m p) i n m

store_bytes_in : Option Block → Ptr → ℕ → List ℕ → Cmd (Unit {0})
store_bytes_in (some (raw bs)) p i new m = elim (splice bs i new) [
  | none ↦ fault
  | some bs' ↦ ok tt (write m p (some (raw bs')))
]
store_bytes_in _ p i new m = fault

pub store_bytes : Ptr → ℕ → List ℕ → Cmd (Unit {0})
unfolding store_bytes_in
store_bytes p i new m = store_bytes_in (block_at m p) p i new m

-- `CreateMemCpy`; with length 0 it does nothing, whatever its pointers.
pub memcpy : (dst : Ptr) → ℕ → (src : Ptr) → ℕ → ℕ → Cmd (Unit {0})
memcpy dst i src j zero = pure tt
memcpy dst i src j (suc n) = do bs ← load_bytes src j (suc n); store_bytes dst i bs

-- The functions that generated code calls by the names of the builtins, and what the documents
-- say of them: an address that is not in use, or NULL. `garbage` is what fresh memory holds.
pub record Allocator : Type 0 where
  pub new_address : ℕ → Mem → Ptr
  pub moved_address : Ptr → ℕ → Mem → Ptr
  pub frees_at_zero : Bool
  pub garbage : ℕ → ℕ
  pub new_unused : (n : ℕ) (m : Mem) → block_at m (new_address n m) ≡ none
  pub moved_unused :
      (p n : ℕ) (m : Mem) → (moved_address p n m ≡ p) ⊎ (block_at m (moved_address p n m) ≡ none)

module _ (al : Allocator) where
  unfoldable pub fresh_bytes : ℕ → List ℕ
  fresh_bytes zero = []
  fresh_bytes (suc n) = al.garbage n ∷ fresh_bytes n

  -- The first `n` of these bytes, and fresh ones behind them.
  unfoldable pub resize : List ℕ → ℕ → List ℕ
  unfolding fresh_bytes
  resize bs zero = []
  resize [] (suc n) = fresh_bytes (suc n)
  resize (b ∷ bs) (suc n) = b ∷ resize bs n

  allocate : ℕ → Block → Cmd Ptr
  allocate n b m =
      let p = al.new_address n m in if p == null then ok null m else ok p (write m p (some b))

  pub malloc : ℕ → Cmd Ptr
  unfolding allocate fresh_bytes
  malloc n = allocate n (raw (fresh_bytes n))

  pub calloc : ℕ → Cmd Ptr
  unfolding allocate
  calloc n = allocate n (raw (replicate n 0))

  -- `malloc` of a struct's size, used through a pointer to a struct of `k` fields.
  pub malloc_struct : ℕ → ℕ → Cmd Ptr
  unfolding allocate fresh_bytes
  malloc_struct n k = allocate n (cells (fresh_bytes k))

  -- The old block stays if there is no memory, but for a `realloc` to size 0 that frees it.
  move : Option Block → Ptr → ℕ → Cmd Ptr
  move (some (raw bs)) p n m =
      let q = al.moved_address p n m in
      if q == null
      then ok null (if n == 0 && al.frees_at_zero then write m p none else m)
      else ok q (write (write m p none) q (some (raw (resize bs n))))
  move _ p n m = fault

  pub realloc : Ptr → ℕ → Cmd Ptr
  unfolding move malloc resize
  realloc p n m = if p == null then malloc n m else move (block_at m p) p n m

abbrev release : Option Block → Ptr → Cmd (Unit {0})
release none p m = fault
release (some _) p m = ok tt (write m p none)

pub free : Ptr → Cmd (Unit {0})
free p m = if p == null then ok tt m else release (block_at m p) p m
