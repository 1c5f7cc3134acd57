-- ===== src/Runtime/Stdio.antt =====
-- The calls of <stdio.h> that lib/compiler/Runtime/FileHelper.c makes, as the C standard has them, over
-- a disk of named files. What is written is on the disk at once.
use tyr.Prelude.{
  ℕ, zero, suc, ◌+◌, ◌-◌, ◌≤◌, Bool, Option, none, some, List, [], ◌∷◌, ◌++◌, if◌then◌else◌, length,
}
use tyr.Ir.{Name}
use tyr.Module.{same_name}
use tyr.Memory.{Ptr, Mem, Run, ok, fault, Cmd}

-- The contents of files by name, and the number of streams that are open.
pub record Disk : Type 0 where
  pub files : Name → Option (List ℕ)
  pub open_streams : ℕ

-- A `FILE *` that is not NULL: a file and a position in it.
pub record Stream : Type 0 where
  pub name : Name
  pub position : ℕ

-- What the environment decides: which files may be opened, and how many of the items `fwrite` gets
-- it writes.
pub record Stdio : Type 0 where
  pub may_write : Name → Bool
  pub may_read : Name → Bool
  pub accepts : ℕ → ℕ
  pub accepts_at_most : (n : ℕ) → accepts n ≤ n
  -- `free` of <stdlib.h>, which need not be the builtin that goes with the generated code's malloc.
  pub libc_free : Ptr → Cmd (Unit {0})

pub data Result (A : Type 0) : Type 0 where
  done : A → Mem → Disk → Result A
  crash : Result A

abbrev pub Io : Type 0 → Type 0
Io A = Mem → Disk → Result A

abbrev pub pure : {A : Type 0} → A → Io A
pure = done

module _ {A B : Type 0} where
  abbrev pub continue : Result A → (A → Io B) → Result B
  continue (done a m d) k = k a m d
  continue crash k = crash

  infixl 5 ◌>>=◌ ◌>>◌
  abbrev pub ◌>>=◌ : Io A → (A → Io B) → Io B
  c >>= k = λ m d. continue (c m d) k

  abbrev pub ◌>>◌ : Io A → Io B → Io B
  c >> k = c >>= λ _. k

abbrev pub with_disk : {A : Type 0} → Run A → Disk → Result A
with_disk (ok a m) d = done a m d
with_disk fault d = crash

-- Code that touches memory only.
abbrev pub in_memory : {A : Type 0} → Cmd A → Io A
in_memory c m d = with_disk (c m) d

module _ {ℓ} {A : Type ℓ} where
  abbrev pub take : ℕ → List A → List A
  take zero xs = []
  take (suc n) [] = []
  take (suc n) (x ∷ xs) = x ∷ take n xs

  abbrev pub drop : ℕ → List A → List A
  drop zero xs = xs
  drop (suc n) [] = []
  drop (suc n) (x ∷ xs) = drop n xs

abbrev pub with_file : Disk → Name → List ℕ → (streams : ℕ) → Disk
with_file d name bs streams = record {
  files = λ n. if same_name name n then some bs else d.files n;
  open_streams = streams;
}

abbrev pub contents : Option (List ℕ) → List ℕ
contents none = []
contents (some bs) = bs

-- `fopen(name, "wb")`: the file is empty from here on.
unfoldable pub fopen_write : Stdio → Name → Io (Option Stream)
fopen_write io name m d =
    if io.may_write name
    then done (some (record { name = name; position = 0 })) m
        (with_file d name [] (d.open_streams + 1))
    else done none m d

open_found : Name → Option (List ℕ) → Io (Option Stream)
open_found name none m d = done none m d
open_found name (some bs) m d =
    done (some (record { name = name; position = 0 })) m
      (record d { open_streams = d.open_streams + 1 })

-- `fopen(name, "rb")`
unfoldable pub fopen_read : Stdio → Name → Io (Option Stream)
unfolding open_found
fopen_read io name m d =
    if io.may_read name then open_found name (d.files name) m d else done none m d

-- `fwrite` of single bytes at the end of the file; answers how many were written.
unfoldable pub fwrite : Stdio → Stream → List ℕ → Io ℕ
fwrite io s bs m d =
    let n = io.accepts (length bs) in
    done n m (with_file d s.name (contents (d.files s.name) ++ take n bs) d.open_streams)

-- `fread` of at most `n` bytes; answers the bytes and the stream behind them.
unfoldable pub fread : Stream → ℕ → Io (List ℕ × Stream)
fread s n m d =
    let bs = take n (drop s.position (contents (d.files s.name))) in
    done (bs, record s { position = s.position + length bs }) m d

-- `fseek(stream, 0, SEEK_SET)`
abbrev pub rewind : Stream → Stream
rewind s = record s { position = 0 }

unfoldable pub fclose : Stream → Io (Unit {0})
fclose s m d = done tt m (record d { open_streams = d.open_streams - 1 })
