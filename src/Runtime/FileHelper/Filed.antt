-- ===== src/Runtime/FileHelper/Filed.antt =====
-- What FileHelper.c puts into a file, and what it takes out.
use tyr.Prelude.{
  ℕ, ◌+◌, ◌-◌, ◌<◌, ◌≡◌, ◌≢◌, refl, sym, ap, ◌∙◌, Bool, true, false, none, some, List, [], ◌∷◌,
  ◌++◌, arith, ◌==◌, length, append-nil,
}
use tyr.Ir.{Name}
use tyr.Module.{same_name}
use tyr.Module.Table.{same_name_self}
use tyr.Layout.{encode, length-encode, decode-encode}
use tyr.Memory.{free, Ptr, null, raw, Mem, write, ok, Cmd, Allocator, fresh_bytes}
use tyr.Memory.Laws.{
  At, At-regrouped, At-ne_null, At-write_self, write_same, load_whole, store_whole, write-write,
  malloc-ok, length-fresh_bytes,
}
use tyr.Memory.Realloc.{free-ok}
use tyr.Gen.{u64_mod}
use tyr.Runtime.Cells.{load_u64-ok}
use tyr.Runtime.Stdio.{
  Disk, Stdio, Result, done, take, drop, with_file, fopen_write, fopen_read, fwrite, fread, fclose,
}
use tyr.Runtime.FileHelper.{
  write_to_stream, serialize_to_file, read_into_zero, fill, finish_reading, read_from_stream,
  deserialize_from_file,
}

-- The answer is true, the file has this content, no other file has changed, and as many streams are
-- open as before.
pub record IsStored (name : Name) (bs : List ℕ) (m : Mem) (d : Disk) (r : Result Bool)
    : Type 0 where
  pub disk : Disk
  pub runs : r ≡ done true m disk
  pub content : disk.files name ≡ some bs
  pub others : (n : Name) → same_name name n ≡ false → disk.files n ≡ d.files n
  pub closed : disk.open_streams ≡ d.open_streams

take_all : (bs : List ℕ) → take (length bs) bs ≡ bs
take_all [] = refl
take_all (b ∷ bs) = ap (◌∷◌ b) (take_all bs)

take-append : (xs ys : List ℕ) → take (length xs) (xs ++ ys) ≡ xs
take-append [] ys = refl
take-append (x ∷ xs) ys = ap (◌∷◌ x) (take-append xs ys)

drop_all : (bs cs : List ℕ) → length bs ≡ length cs → drop (length bs) cs ≡ []
drop_all [] [] h = refl
drop_all [] (c ∷ cs) h = absurd (omega arith)
drop_all (b ∷ bs) [] h = absurd (omega arith)
drop_all (b ∷ bs) (c ∷ cs) h = drop_all bs cs (omega arith)

module _ (io : Stdio) (al : Allocator) (little : Bool) (name : Name) (bs body : List ℕ)
    (sized : bs ≡ encode little 8 (length bs) ++ body) (small : length bs < u64_mod) where
  pub serialize_to_file-IsStored :
      (s : Ptr → Cmd Ptr) (self p : Ptr) (m0 m : Mem) (d : Disk)
      → s self m0 ≡ ok p m
      → At m p (raw bs)
      → io.may_write name ≡ true
      → io.accepts (length bs) ≡ length bs
      → ((a : Ptr) → io.libc_free a ≡ free a)
      → IsStored name bs (write m p none) d (serialize_to_file io al little name s self m0 d)
  unfolding serialize_to_file write_to_stream fopen_write fwrite fclose
  serialize_to_file-IsStored s self p m0 m d made here may all libc =
      let opened : Disk = with_file d name [] (d.open_streams + 1) in
      let real : (p == null) ≡ false = ground (arith, At-ne_null here) in
      let full : (length bs == length bs) ≡ true = ground arith in
      let same = same_name_self name in
      record {
        disk = record (with_file opened name bs opened.open_streams) {
          open_streams = opened.open_streams - 1;
        };
        runs = rw (
          may,
          made,
          real,
          load_u64-ok little body (length bs) small (At-regrouped sized here),
          load_whole here,
          all,
          full,
          libc p,
          free-ok m p here,
          same,
          take_all bs,
        );
        content = rw same;
        others = λ n h. rw h;
        closed = omega arith;
      }

  header_bytes : take 8 bs ≡ encode little 8 (length bs)
  header_bytes =
      ap (take 8) sized
      ∙ ap (λ k. take k (encode little 8 (length bs) ++ body))
          (sym (length-encode little 8 (length bs)))
      ∙ take-append (encode little 8 (length bs)) body

  header_value : read_into_zero io al little (encode little 8 (length bs)) ≡ length bs
  header_value =
      let gone =
        drop_all (encode little 8 (length bs)) (encode little 8 0)
          (length-encode little 8 (length bs) ∙ sym (length-encode little 8 0)) in
      rw (gone, append-nil) (decode-encode little 8 (length bs) (omega arith))

  fill_whole :
      (p : Ptr) (old new : List ℕ) (m : Mem)
      → At m p (raw old)
      → length old ≡ length new
      → fill io al little p new m ≡ ok tt (write m p (some (raw new)))
  fill_whole p [] [] m here h = ap (ok tt) (sym (write_same p here))
  fill_whole p (_ ∷ _) [] m here h = absurd (omega arith)
  fill_whole p old (b ∷ new) m here h = store_whole old (b ∷ new) here h

  module _ (f : Ptr → Cmd Ptr) (m m' : Mem) (d : Disk) (o : Ptr) (found : d.files name ≡ some bs)
      (may : io.may_read name ≡ true) (memory : al.new_address (length bs) m ≢ null)
      (answers : f
          (al.new_address (length bs) m)
          (write m (al.new_address (length bs) m) (some (raw bs)))
        ≡ ok o m') where
    -- The deserializer gets a copy of the file.
    pub deserialize_from_file-copy :
        deserialize_from_file io al little name f m d
        ≡ finish_reading io al little
            (record { name = name; position = 0 + length bs })
            (al.new_address (length bs) m)
            o
            m'
            (record d { open_streams = d.open_streams + 1 })
    unfolding deserialize_from_file read_from_stream fopen_read fread
    deserialize_from_file-copy =
        let p : Ptr = al.new_address (length bs) m in
        let copied =
          fill_whole p (fresh_bytes al (length bs)) bs
            (write m p (some (raw (fresh_bytes al (length bs))))) (At-write_self m p _ memory)
            (length-fresh_bytes al (length bs)) in
        rw (may, found)
          (rw (found, header_bytes, header_value, malloc-ok al (length bs) m memory)
            (rw (found, take_all bs, copied, write-write m p, answers)))
