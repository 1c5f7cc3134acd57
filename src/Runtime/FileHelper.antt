-- ===== src/Runtime/FileHelper.antt =====
-- lib/compiler/Runtime/FileHelper.c.
pub mod Filed
pub mod RoundTrip
use tyr.Prelude.{
  ℕ, zero, suc, ◌+◌, ◌-◌, ◌^◌, Bool, true, false, not, Option, none, some, List, [], ◌∷◌, ◌++◌,
  ◌==◌, if◌then◌else◌, length,
}
use tyr.Ir.{Name}
use tyr.Memory.{Ptr, null, Run, Cmd, Allocator, load_bytes, store_bytes, malloc}
use tyr.Layout.{decode, encode}
use tyr.Runtime.{load_u64}
use tyr.Runtime.Stdio.{
  Stream, Stdio, Io, pure, ◌>>=◌, ◌>>◌, in_memory, drop, fopen_write, fopen_read, fwrite, fread,
  rewind, fclose,
}

module _ (io : Stdio) (al : Allocator) (little : Bool) where
  -- Behind the opening of the file. A failure returns with the stream open.
  unfoldable pub write_to_stream : Stream → (Ptr → Cmd Ptr) → Ptr → Io Bool
  write_to_stream file s self = do
    serialized ← in_memory (s self)
    if serialized == null then pure false else (do
      serialized_len ← in_memory (load_u64 little serialized)
      bytes ← in_memory (load_bytes serialized 0 serialized_len)
      items_written ← fwrite io file bytes
      if not (items_written == serialized_len)
          then pure false
          else (do in_memory (io.libc_free serialized); fclose file; pure true))

  write_opened : Option Stream → (Ptr → Cmd Ptr) → Ptr → Io Bool
  unfolding write_to_stream
  write_opened none s self = pure false
  write_opened (some file) s self = write_to_stream file s self

  -- `tyr_serialize_to_file`. The file is opened, and so emptied, before the struct is serialized.
  unfoldable pub serialize_to_file : Name → (Ptr → Cmd Ptr) → Ptr → Io Bool
  unfolding write_opened
  serialize_to_file filename s self = do file ← fopen_write io filename; write_opened file s self

  -- The 64-bit variable behind `fread`: its first bytes are those read, the others stay 0.
  abbrev pub read_into_zero : List ℕ → ℕ
  read_into_zero bs = decode little (bs ++ drop (length bs) (encode little 8 0))

  -- `fread` to a pointer; there is no access if nothing is read.
  abbrev pub fill : Ptr → List ℕ → Cmd (Unit {0})
  fill p [] = λ m. Run.ok tt m
  fill p (b ∷ bs) = store_bytes p 0 (b ∷ bs)

  -- The end of `tyr_deserialize_from_file`. On a failure the memory is not freed, nor the file closed.
  unfoldable pub finish_reading : Stream → (serialized_struct deserialized : Ptr) → Io Ptr
  finish_reading file serialized_struct deserialized =
      if deserialized == null
      then pure null
      else (do fclose file; in_memory (io.libc_free serialized_struct); pure deserialized)

  -- Behind the opening of the file. Neither the reads nor the allocation are tested.
  unfoldable pub read_from_stream : Stream → (Ptr → Cmd Ptr) → Io Ptr
  read_from_stream file d = do
    header ← fread file 8
    let serialized_len = read_into_zero header.0
    serialized_struct ← in_memory (malloc al serialized_len)
    body ← fread (rewind header.1) serialized_len
    in_memory (fill serialized_struct body.0)
    deserialized ← in_memory (d serialized_struct)
    finish_reading body.1 serialized_struct deserialized

  read_opened : Option Stream → (Ptr → Cmd Ptr) → Io Ptr
  unfolding read_from_stream
  read_opened none d = pure null
  read_opened (some file) d = read_from_stream file d

  -- `tyr_deserialize_from_file`
  unfoldable pub deserialize_from_file : Name → (Ptr → Cmd Ptr) → Io Ptr
  unfolding read_opened
  deserialize_from_file filename d = do file ← fopen_read io filename; read_opened file d
