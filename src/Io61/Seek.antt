-- ===== src/Io61/Seek.antt =====
-- `io61_seek` of pset3/io61.c.
mod Exact
mod Tests
use cs61_f16_psets_team_md.Base.{
  ℕ, ◌+◌, ◌-◌, ◌%◌, ◌^◌, Bool, true, false, not, ◌||◌, if◌then◌else◌, ltb, ◌==◌, Option, none, some,
}
use cs61_f16_psets_team_md.Io61.System.{System, IoFile, bufsz, is_rdonly}
use cs61_f16_psets_team_md.Io61.Write.{Outcome, returned, assertion_failed, out_of_fuel, io61_flush}

-- The conversion of an offset to `int`, as its residue.
abbrev pub int : ℕ → ℕ
int pos = pos % 2 ^ 32

-- The target of lseek: one byte behind or before `counter` it is rounded down to a block.
abbrev pub seek_target : {File : Type 0} → IoFile File → ℕ → ℕ
seek_target f pos =
    if int pos == int (f.counter + 2 ^ 32 - 1) || int pos == int (f.counter + 1)
    then pos - pos % bufsz
    else pos

-- The last lines of `io61_seek`.
abbrev pub place : {File : Type 0} → IoFile File → ℕ → IoFile File
place f pos = record f { prev_tag = f.pos_tag; pos_tag = pos; counter = int pos }

unfoldable pub seek_moved :
    {File : Type 0} → IoFile File → ℕ → ℕ → Option ℕ × File → Bool × IoFile File
seek_moved f pos target (none, file') = (false, record f { file = file' })
seek_moved f pos target (some r, file') =
    if r == target
    then (true, place (record f { file = file'; tag = target; end_tag = target }) pos)
    else (false, record f { file = file' })

-- `io61_seek` behind its flush. The Boolean is false for -1.
unfoldable pub seek_flushed : {File : Type 0} → System File → IoFile File → ℕ → Bool × IoFile File
unfolding seek_moved
seek_flushed sys f pos =
    if ltb pos f.tag || ltb f.end_tag pos || not (is_rdonly f.mode)
    then (let target = seek_target f pos in seek_moved f pos target (sys.lseek f.file target))
    else (true, place f pos)

-- `io61_seek` goes on whatever `io61_flush` returns. The outcome holds 0, or `none` for -1.
unfoldable pub seek_after :
    {File : Type 0} → System File → ℕ → Outcome (IoFile File) → Outcome (IoFile File)
unfolding seek_flushed
seek_after sys pos (returned r f) =
    let (ok, f') = seek_flushed sys f pos in returned (if ok then some 0 else none) f'
seek_after sys pos assertion_failed = assertion_failed
seek_after sys pos out_of_fuel = out_of_fuel

unfoldable pub io61_seek :
    {File : Type 0} → ℕ → System File → IoFile File → ℕ → Outcome (IoFile File)
unfolding io61_flush seek_after
io61_seek fuel sys f pos =
    seek_after sys pos (if is_rdonly f.mode then returned (some 0) f else io61_flush fuel sys f)
