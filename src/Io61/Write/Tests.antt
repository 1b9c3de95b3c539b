-- ===== src/Io61/Write/Tests.antt =====
-- `io61_write` on a file that keeps what it is given, and the order of bytes written in two ways.
use cs61_f16_psets_team_md.Base.{
  ℕ, zero, suc, ◌≡◌, refl, arith, some, none, Bytes, [], ◌∷◌, ◌++◌, length, replicate,
}
use cs61_f16_psets_team_md.Io61.System.{System, failed, IsWritable, wronly, IoFile, bufsz}
use cs61_f16_psets_team_md.Io61.Read.{io61_fdopen}
use cs61_f16_psets_team_md.Io61.Write.{io61_write}
use cs61_f16_psets_team_md.Io61.Write.Pending.{IsPending, Wrote, io61_write-Wrote}

-- The state of the file is what was written to it.
abbrev log : System Bytes
log = record {
  read = λ f n. (failed, f);
  write = λ f bs. (some (length bs), f ++ bs);
  lseek = λ f n. (none, f);
}

abbrev writable : IsWritable log
writable = record {
  output = λ f. f;
  put = λ f bs. f ++ bs;
  write_ok = λ f bs. refl;
  write_output = λ f bs. refl;
}

abbrev opened : Bytes → IoFile Bytes
opened cbuf = io61_fdopen [] wronly 7 cbuf

length-replicate : (n : ℕ) → length {A = ℕ} (replicate n 0) ≡ n
length-replicate zero = refl
length-replicate (suc n) = omega (arith, length-replicate n)

abbrev empty : IoFile Bytes
empty = opened (replicate bufsz 0)

empty-IsPending : IsPending log writable empty
empty-IsPending = record {
  writes = refl;
  no_memory = refl;
  at_end = refl;
  tag_end = omega arith;
  room = omega arith;
  whole = length-replicate bufsz;
}

io61_write-Wrote_example :
    Wrote log writable empty (1 ∷ 2 ∷ 3 ∷ []) 3 (io61_write 5 log empty (1 ∷ 2 ∷ 3 ∷ []))
io61_write-Wrote_example =
    io61_write-Wrote log writable 5 empty (1 ∷ 2 ∷ 3 ∷ []) empty-IsPending (omega arith)
      (omega arith)
