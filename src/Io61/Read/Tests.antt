-- ===== src/Io61/Read/Tests.antt =====
-- A regular file that gives at most two bytes at a time, and `io61_read` on it.
use cs61_f16_psets_team_md.Base.{
  ℕ, zero, suc, ◌+◌, ◌<◌, ◌≡◌, refl, ap, ◌∙◌, arith, some, none, Bytes, [], ◌∷◌, ◌++◌, length, take,
  drop, min, length-take, drop_cong, drop-add,
}
use mathlib.Core.Option
use cs61_f16_psets_team_md.Io61.System.{System, got, IsReadable, rdonly, IoFile}
use cs61_f16_psets_team_md.Io61.Read.{
  io61_fdopen, io61_read, io61_readc, bytes, io61_read_loop, readc_refill,
}
use cs61_f16_psets_team_md.Io61.Read.Cache.{IsCache, Took}
use cs61_f16_psets_team_md.Io61.Read.Char.{Char, io61_readc_lem}
use cs61_f16_psets_team_md.Io61.Read.Exact.{io61_read_lem}

abbrev part : Bytes → ℕ → ℕ → Bytes
part contents o n = take (min n 2) (drop o contents)

-- The state of the file is its offset.
abbrev pub regular : Bytes → System ℕ
regular contents = record {
  read = λ o n. (got (part contents o n), o + length (part contents o n));
  write = λ o bs. (none, o);
  lseek = λ o n. (some n, n);
}

pub take-drop-length : (n : ℕ) (xs : Bytes) → take n xs ++ drop (length (take n xs)) xs ≡ xs
take-drop-length zero xs = refl
take-drop-length (suc n) [] = refl
take-drop-length (suc n) (x ∷ xs) = ap (◌∷◌ x) (take-drop-length n xs)

pub take_end : (n : ℕ) (xs : Bytes) → 0 < n → take (min n 2) xs ≡ [] → xs ≡ []
take_end n [] h e = refl
take_end n (x ∷ xs) h e = absurd (omega (arith, ap length e, length-take (min n 2) (x ∷ xs), h))

abbrev pub readable : (contents : Bytes) → IsReadable (regular contents) contents
readable contents = record {
  ahead = λ o. drop o contents;
  chunk = λ o n. part contents o n;
  next = λ o n. o + length (part contents o n);
  moved = λ o n. n;
  read_ok = λ o n. refl;
  read_ahead = λ o n.
      ap (◌++◌ (part contents o n)) (
        drop_cong {m = o + length (part contents o n)} contents (omega arith)
        ∙ drop-add (length (part contents o n)) o contents)
      ∙ take-drop-length (min n 2) (drop o contents);
  read_short = λ o n. omega (arith, length-take (min n 2) (drop o contents));
  read_end = λ o n h e. take_end n (drop o contents) h e;
  lseek_ok = λ o n. refl;
  lseek_ahead = λ o n. refl;
}

abbrev pub five : Bytes
five = 10 ∷ 20 ∷ 30 ∷ 40 ∷ 50 ∷ []

abbrev pub opened : IoFile ℕ
opened = io61_fdopen 0 rdonly 7 (0 ∷ 0 ∷ 0 ∷ [])

pub opened-IsCache : IsCache five (λ o. drop o five) opened.cbuf opened
opened-IsCache = record {
  tag_pos = omega arith;
  tag_end = omega arith;
  filled = omega arith;
  same = refl;
}

io61_read_lem_example :
    Took five (λ o. drop o five) (10 ∷ 20 ∷ 30 ∷ []) 3 (io61_read 9 (regular five) opened 3)
io61_read_lem_example =
    io61_read_lem (regular five) five (readable five) 9 opened 3 opened-IsCache (omega arith)

opened_memory-IsCache : IsCache five (λ o. drop o five) opened.memory opened
opened_memory-IsCache = record {
  tag_pos = omega arith;
  tag_end = omega arith;
  filled = omega arith;
  same = refl;
}

io61_readc_lem_example :
    Char (regular five) five (readable five) opened (io61_readc (regular five) opened)
io61_readc_lem_example =
    io61_readc_lem (regular five) five (readable five) opened refl opened_memory-IsCache
      (omega arith)

-- The two reads have a buffer each and share the positions: behind a call of `io61_readc`, which
-- returns the first byte, `io61_read` does not return the second one.
mixed :
    ((io61_readc (regular five) opened).0 ≡ some 10)
    × (Option.map (λ r. r.0) (io61_read 3 (regular five) (io61_readc (regular five) opened).1 1)
        ≡ some (bytes (0 ∷ [])))
unfolding io61_readc io61_read_loop readc_refill
mixed = (refl, refl)
