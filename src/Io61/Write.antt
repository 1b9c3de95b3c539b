-- ===== src/Io61/Write.antt =====
-- `io61_flush`, `io61_writec` and `io61_write` of pset3/io61.c.
mod Pending
mod Tests
use cs61_f16_psets_team_md.Base.{
  ℕ, zero, suc, ◌+◌, ◌-◌, ◌%◌, ◌^◌, Bool, true, false, not, if◌then◌else◌, ltb, ◌==◌, Option, none,
  some, Bytes, [], ◌∷◌, length, take, drop,
}
use cs61_f16_psets_team_md.Io61.System.{
  System, Mode, rdonly, wronly, rdwr, IoFile, bufsz, overwrite, is_rdonly,
}

abbrev pub is_wronly : Mode → Bool
is_wronly wronly = true
is_wronly m = false

-- A call returns a value, stops at an assertion, or runs out of fuel. `none` is -1.
pub data Outcome (A : Type 0) : Type 0 where
  returned : Option ℕ → A → Outcome A
  assertion_failed : Outcome A
  out_of_fuel : Outcome A

-- Subtraction on `size_t`.
abbrev pub sub_size : ℕ → ℕ → ℕ
sub_size a b = (a + 2 ^ 64 - b) % 2 ^ 64

-- How many bytes of `memory` a round of the loop of `io61_flush` writes.
abbrev pub flush_size : {File : Type 0} → IoFile File → ℕ
flush_size f = if f.first == 0 then f.last else sub_size bufsz f.first

-- A round of that loop behind its write, where `loop` is the rest of it.
unfoldable pub flush_round :
    {File : Type 0}
    → IoFile File
    → Option ℕ × File
    → (IoFile File → Outcome (IoFile File))
    → Outcome (IoFile File)
flush_round f (none, file') loop = returned none (record f { file = file' })
flush_round f (some zero, file') loop = loop (record f { file = file'; first = 0 })
flush_round f (some (suc n), file') loop =
    loop (record f {
      file = file';
      first = f.first + suc n;
      cache_size = sub_size f.cache_size (suc n);
    })

-- The loop of `io61_flush` over the bytes of `io61_writec`.
unfoldable pub flush_memory :
    {File : Type 0} → ℕ → System File → IoFile File → Outcome (IoFile File)
unfolding flush_round
flush_memory zero sys f = out_of_fuel
flush_memory (suc fuel) sys f =
    if f.cache_size == 0
    then returned (some 0) f
    else flush_round f (sys.write f.file (take (flush_size f) (drop f.first f.memory)))
        (λ f'. flush_memory fuel sys f')

-- The write of `cbuf` and what follows it. The copy behind the loop of the source is never
-- reached, since `tag` is `end_tag` there.
unfoldable pub flush_cbuf :
    {File : Type 0} → ℕ → System File → IoFile File → Option ℕ × File → Outcome (IoFile File)
unfolding flush_memory
flush_cbuf fuel sys f (none, file') = assertion_failed
flush_cbuf fuel sys f (some n, file') =
    if n == f.end_tag - f.tag
    then flush_memory fuel sys (record f { file = file'; pos_tag = f.end_tag; tag = f.end_tag })
    else assertion_failed

unfoldable pub io61_flush : {File : Type 0} → ℕ → System File → IoFile File → Outcome (IoFile File)
unfolding flush_cbuf
io61_flush fuel sys f =
    if not (is_wronly f.mode)
    then returned (some 0) f
    else flush_cbuf fuel sys f (sys.write f.file (take (f.end_tag - f.tag) f.cbuf))

-- The end of `io61_writec`, where the byte goes into `memory`.
abbrev pub put_byte : {File : Type 0} → IoFile File → ℕ → IoFile File
put_byte f ch = record f {
  memory = overwrite f.memory f.last (ch % 256 ∷ []);
  last = f.last + 1;
  cache_size = f.cache_size + 1;
}

unfoldable pub writec_full :
    {File : Type 0} → IoFile File → ℕ → Option ℕ × File → Option ℕ × IoFile File
writec_full f ch (none, file') = (none, record f { file = file' })
writec_full f ch (some n, file') = (
  some 0,
  put_byte
      (record f {
        file = file';
        first = if f.first + n == bufsz then 0 else f.first + n;
        last = if f.last == bufsz then 0 else f.last;
        cache_size = sub_size f.cache_size n;
      })
      ch,
)

unfoldable pub io61_writec :
    {File : Type 0} → System File → IoFile File → ℕ → Option ℕ × IoFile File
unfolding writec_full
io61_writec sys f ch =
    if not (is_wronly f.mode)
    then (none, f)
    else if sub_size bufsz f.cache_size == 0
    then writec_full f ch (sys.write f.file (take (sub_size bufsz f.first) (drop f.first f.memory)))
    else (some 0, put_byte f ch)

-- The copy of a round of `io61_write`, of `n` of the bytes `buf` that are left.
abbrev pub fill : {File : Type 0} → IoFile File → ℕ → Bytes → IoFile File
fill f n buf =
    let pos = f.pos_tag + n in
    record f {
      cbuf = overwrite f.cbuf (f.pos_tag - f.tag) (take n buf);
      pos_tag = pos;
      end_tag = if ltb f.end_tag pos then pos else f.end_tag;
    }

-- The number of bytes that a round copies.
abbrev pub fill_count : {File : Type 0} → IoFile File → Bytes → ℕ
fill_count f buf =
    let room = bufsz - (f.pos_tag - f.tag) in if ltb room (length buf) then room else length buf

-- The loop of `io61_write` goes on whatever `io61_flush` returns.
unfoldable pub go_on :
    {File : Type 0}
    → Outcome (IoFile File)
    → (IoFile File → Outcome (IoFile File))
    → Outcome (IoFile File)
go_on (returned r f) loop = loop f
go_on assertion_failed loop = assertion_failed
go_on out_of_fuel loop = out_of_fuel

-- A round of the loop of `io61_write` on the bytes `buf` that are left, where `loop` is the rest
-- of it. Its assertion holds, as `fill` moves `end_tag` along.
unfoldable pub write_round :
    {File : Type 0}
    → ℕ
    → System File
    → IoFile File
    → Bytes
    → (IoFile File → Bytes → Outcome (IoFile File))
    → Outcome (IoFile File)
unfolding io61_flush go_on
write_round fuel sys f buf loop =
    let n = if ltb (f.pos_tag - f.tag) bufsz then fill_count f buf else 0 in
    let f1 = if ltb (f.pos_tag - f.tag) bufsz then fill f n buf else f in
    if f1.pos_tag - f1.tag == bufsz
    then go_on (io61_flush fuel sys f1) (λ f2. loop f2 (drop n buf))
    else loop f1 (drop n buf)

-- `sz` is the number to return. Each round takes a byte at least.
unfoldable pub io61_write_loop :
    {File : Type 0} → ℕ → System File → IoFile File → ℕ → Bytes → Outcome (IoFile File)
unfolding write_round
io61_write_loop zero sys f sz buf = out_of_fuel
io61_write_loop (suc fuel) sys f sz [] = returned (some sz) f
io61_write_loop (suc fuel) sys f sz (b ∷ bs) =
    write_round fuel sys f (b ∷ bs) (λ f' left. io61_write_loop fuel sys f' sz left)

abbrev pub io61_write :
    {File : Type 0} → ℕ → System File → IoFile File → Bytes → Outcome (IoFile File)
io61_write fuel sys f buf =
    if is_rdonly f.mode then returned (some 0) f else io61_write_loop fuel sys f (length buf) buf
