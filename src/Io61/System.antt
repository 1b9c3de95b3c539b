-- ===== src/Io61/System.antt =====
-- The system calls of pset3/io61.c as an interface, what the source relies on of them, and the
-- struct `io61_file`. Offsets are numbers: no file reaches 2^63 bytes.
use cs61_f16_psets_team_md.Base.{
  Bool, true, false, ℕ, ◌+◌, ◌≤◌, ◌<◌, ◌≡◌, Bytes, Option, some, [], ◌++◌, length, take, drop,
}

-- What read(2) returns: the bytes read, none at the end of the file, or -1.
pub data ReadResult : Type 0 where
  got : Bytes → ReadResult
  failed : ReadResult

-- The system calls on an open file, whose state is a `File`. `write` returns how many bytes it took
-- and `lseek` the new offset; `none` is -1.
pub record System (File : Type 0) : Type 0 where
  pub read : File → ℕ → ReadResult × File
  pub write : File → Bytes → Option ℕ × File
  pub lseek : File → ℕ → Option ℕ × File

-- A regular file without input errors that nobody else writes to: `ahead` has the bytes from the
-- offset on. A read takes a part of them, and nothing at the end only.
pub record IsReadable {File : Type 0} (sys : System File) (contents : Bytes) : Type 0 where
  pub ahead : File → Bytes
  pub chunk : File → ℕ → Bytes
  pub next : File → ℕ → File
  pub moved : File → ℕ → File
  pub read_ok : (f : File) (n : ℕ) → sys.read f n ≡ (got (chunk f n), next f n)
  pub read_ahead : (f : File) (n : ℕ) → chunk f n ++ ahead (next f n) ≡ ahead f
  pub read_short : (f : File) (n : ℕ) → length (chunk f n) ≤ n
  pub read_end : (f : File) (n : ℕ) → 0 < n → chunk f n ≡ [] → ahead f ≡ []
  pub lseek_ok : (f : File) (n : ℕ) → sys.lseek f n ≡ (some n, moved f n)
  pub lseek_ahead : (f : File) (n : ℕ) → ahead (moved f n) ≡ drop n contents

-- A file that takes every byte written, behind those written before.
pub record IsWritable {File : Type 0} (sys : System File) : Type 0 where
  pub output : File → Bytes
  pub put : File → Bytes → File
  pub write_ok : (f : File) (bs : Bytes) → sys.write f bs ≡ (some (length bs), put f bs)
  pub write_output : (f : File) (bs : Bytes) → output (put f bs) ≡ output f ++ bs

abbrev pub bufsz : ℕ
bufsz = 16384

pub data Mode : Type 0 where
  rdonly : Mode
  wronly : Mode
  rdwr : Mode

abbrev pub is_rdonly : Mode → Bool
is_rdonly rdonly = true
is_rdonly m = false

pub record IoFile (File : Type 0) : Type 0 where
  pub file : File
  pub mode : Mode
  pub counter : ℕ
  pub memory : Bytes
  pub first : ℕ
  pub last : ℕ
  pub cbuf : Bytes
  pub cache_size : ℕ
  pub tag : ℕ
  pub prev_tag : ℕ
  pub end_tag : ℕ
  pub pos_tag : ℕ

-- memcpy(&buf[i], bs, length bs), within the bounds of `buf`.
abbrev pub overwrite : Bytes → ℕ → Bytes → Bytes
overwrite buf i bs = take i buf ++ bs ++ drop (i + length bs) buf
