-- ===== src/Io61/Read.antt =====
-- `io61_fdopen`, `io61_readc` and `io61_read` of pset3/io61.c.
pub mod Cache
pub mod Exact
mod Char
pub mod Tests
use cs61_f16_psets_team_md.Base.{
  ℕ, zero, suc, ◌+◌, ◌-◌, ◌%◌, ◌^◌, Bool, true, false, not, if◌then◌else◌, ltb, ◌==◌, Option, none,
  some, Bytes, List, [], ◌∷◌, ◌++◌, length, take, drop, get_or, replicate, min, is_empty,
}
use cs61_f16_psets_team_md.Io61.System.{
  System, ReadResult, got, failed, Mode, rdonly, IoFile, bufsz, overwrite, is_rdonly,
}

-- malloc leaves `counter` and `cbuf` as they are.
abbrev pub io61_fdopen : {File : Type 0} → File → Mode → ℕ → Bytes → IoFile File
io61_fdopen file mode counter cbuf = record {
  file = file;
  mode = mode;
  counter = counter;
  memory = replicate bufsz 0;
  first = 0;
  last = 0;
  cbuf = cbuf;
  cache_size = 0;
  tag = 0;
  prev_tag = 0;
  end_tag = 0;
  pos_tag = 0;
}

-- What `io61_readc` does with the result of its read.
unfoldable pub readc_refill :
    {File : Type 0} → IoFile File → ReadResult × File → Option ℕ × IoFile File
readc_refill f (got [], file') = (none, record f { file = file'; tag = f.end_tag })
readc_refill f (got (b ∷ bs), file') =
    let memory' = overwrite f.memory 0 (b ∷ bs) in
    (
      some (get_or memory' (f.pos_tag + 1 - f.end_tag - 1) 0),
      record f {
        file = file';
        memory = memory';
        tag = f.end_tag;
        end_tag = f.end_tag + length (b ∷ bs);
        pos_tag = f.pos_tag + 1;
      },
    )
readc_refill f (failed, file') = (none, record f { file = file'; tag = f.end_tag })

-- `none` is EOF.
unfoldable pub io61_readc : {File : Type 0} → System File → IoFile File → Option ℕ × IoFile File
unfolding readc_refill
io61_readc sys f =
    if not (is_rdonly f.mode)
    then (none, f)
    else if ltb f.pos_tag f.end_tag
    then (
      some (get_or f.memory (f.pos_tag + 1 - f.tag - 1) 0),
      record f { pos_tag = f.pos_tag + 1 },
    )
    else readc_refill f (sys.read f.file bufsz)

-- What `io61_read` returns: the bytes that it put into `buf`, or -1.
pub data Returned : Type 0 where
  bytes : Bytes → Returned
  error : Returned

-- The branch of `io61_read` on an empty cache, where `loop` is the loop behind it.
unfoldable pub refill :
    {File : Type 0}
    → IoFile File
    → Bytes
    → ReadResult × File
    → (IoFile File → Option (Returned × IoFile File))
    → Option (Returned × IoFile File)
refill f done (got [], file') loop = some (bytes done, record f { file = file'; tag = f.end_tag })
refill f done (got (b ∷ bs), file') loop = loop (record f {
  file = file';
  cbuf = overwrite f.cbuf 0 (b ∷ bs);
  tag = f.end_tag;
  end_tag = f.end_tag + length (b ∷ bs);
})
refill f done (failed, file') loop =
    some (if is_empty done then error else bytes done, record f { file = file'; tag = f.end_tag })

-- How many bytes a round copies out of the cache, and the bytes.
abbrev pub copy_count : {File : Type 0} → IoFile File → ℕ → Bytes → ℕ
copy_count f sz done =
    let n = sz - length done in if ltb (f.end_tag - f.pos_tag) n then f.end_tag - f.pos_tag else n

abbrev pub copied : {File : Type 0} → IoFile File → ℕ → Bytes → Bytes
copied f sz done = take (copy_count f sz done) (drop (f.pos_tag - f.tag) f.cbuf)

-- The loop of `io61_read`, with the `nread` bytes of `buf` in `done`. Every round copies a byte or
-- reads one, so that `sz` and the bytes ahead in the file bound the rounds.
unfoldable pub io61_read_loop :
    {File : Type 0} → ℕ → System File → IoFile File → ℕ → Bytes → Option (Returned × IoFile File)
unfolding refill
io61_read_loop zero sys f sz done = none
io61_read_loop (suc fuel) sys f sz done =
    let copy =
      io61_read_loop fuel sys (record f { pos_tag = f.pos_tag + copy_count f sz done }) sz
        (done ++ copied f sz done) in
    if length done == sz
    then some (bytes done, f)
    else if ltb f.pos_tag f.end_tag
    then copy
    else refill f done (sys.read f.file bufsz) (λ f'. io61_read_loop fuel sys f' sz done)

abbrev pub io61_read :
    {File : Type 0} → ℕ → System File → IoFile File → ℕ → Option (Returned × IoFile File)
io61_read fuel sys f sz = io61_read_loop fuel sys f sz []
