-- ===== src/Io61/Read/Char.antt =====
-- `io61_readc` of pset3/io61.c on a file that is read by it alone.
use cs61_f16_psets_team_md.Base.{
  ℕ, zero, suc, ◌+◌, ◌-◌, ◌≤◌, ◌<◌, ◌≡◌, refl, sym, ap, ◌∙◌, inl, inr, arith, tests, Bool-cases,
  true, ltb, Option, none, some, Bytes, [], ◌∷◌, ◌++◌, length, take, drop, get_or, get_elem?,
  drop-add,
}
use cs61_f16_psets_team_md.Io61.System.{
  System, got, IsReadable, rdonly, IoFile, bufsz, overwrite, is_rdonly,
}
use cs61_f16_psets_team_md.Io61.Read.{readc_refill, io61_readc}
use cs61_f16_psets_team_md.Io61.Read.Cache.{IsCache, refill-IsCache, empty-IsCache, ahead-drop}

get_elem?-drop : (n : ℕ) (xs : Bytes) → get_elem? xs n ≡ get_elem? (drop n xs) 0
get_elem?-drop zero xs = refl
get_elem?-drop (suc n) [] = refl
get_elem?-drop (suc n) (x ∷ xs) = get_elem?-drop n xs

-- A byte within a part of the buffer that is a prefix of `ys`.
get_or-take :
    (i k : ℕ) (xs ys zs : Bytes)
    → i < k
    → k ≤ length xs
    → take k xs ++ zs ≡ ys
    → get_elem? ys i ≡ some (get_or xs i 0)
get_or-take i zero xs ys zs a b e = absurd (omega (arith, a))
get_or-take i (suc k) [] ys zs a b e = absurd (omega (arith, b))
get_or-take zero (suc k) (x ∷ xs) ys zs a b e = ap (λ w. get_elem? w 0) (sym e)
get_or-take (suc i) (suc k) (x ∷ xs) ys zs a b e =
    ap (λ w. get_elem? w (suc i)) (sym e)
    ∙ get_or-take i k xs (take k xs ++ zs) zs (omega (arith, a)) (omega (arith, b)) refl

get_elem?-add : (i n : ℕ) (xs : Bytes) → get_elem? (drop n xs) i ≡ get_elem? xs (i + n)
get_elem?-add i n xs =
    get_elem?-drop i (drop n xs)
    ∙ ap (λ w. get_elem? w 0) (sym (drop-add i n xs))
    ∙ sym (get_elem?-drop (i + n) xs)

-- Where the position stands behind a call that returned the byte.
abbrev pub advance : Option ℕ → ℕ → ℕ
advance none pos = pos
advance (some b) pos = pos + 1

module _ {File : Type 0} (sys : System File) (contents : Bytes) (os : IsReadable sys contents) where
  -- `r` has the byte of the file at `pos_tag`, or none at its end, and the position is behind it.
  pub record Char (f : IoFile File) (r : Option ℕ × IoFile File) : Type 0 where
    pub value : r.0 ≡ get_elem? contents f.pos_tag
    pub moved : r.1.pos_tag ≡ advance r.0 f.pos_tag
    pub kept : IsCache contents os.ahead r.1.memory r.1
    pub within : r.1.pos_tag ≤ r.1.end_tag
    pub reads : r.1.mode ≡ rdonly

  hit_lem :
      (f : IoFile File)
      → IsCache contents os.ahead f.memory f
      → f.pos_tag < f.end_tag
      → f.mode ≡ rdonly
      → Char f (
        some (get_or f.memory (f.pos_tag + 1 - f.tag - 1) 0),
        record f { pos_tag = f.pos_tag + 1 },
      )
  hit_lem f c h m = record {
    value =
        let back : f.pos_tag - f.tag + f.tag ≡ f.pos_tag = omega (arith, c.tag_pos) in
        let i : f.pos_tag + 1 - f.tag - 1 ≡ f.pos_tag - f.tag = omega (arith, c.tag_pos) in
        ap (λ k. some (get_or f.memory k 0)) i
        ∙ sym (
            get_or-take (f.pos_tag - f.tag) (f.end_tag - f.tag) f.memory (drop f.tag contents)
              (os.ahead f.file) (omega (arith, h, c.tag_pos)) c.filled c.same)
        ∙ get_elem?-add (f.pos_tag - f.tag) f.tag contents
        ∙ ap (get_elem? contents) back;
    moved = refl;
    kept = record {
      tag_pos = omega (arith, c.tag_pos);
      tag_end = c.tag_end;
      filled = c.filled;
      same = c.same;
    };
    within = omega (arith, h);
    reads = m;
  }

  -- `io61_readc` behind its read.
  miss_lem :
      (f : IoFile File) (bs : Bytes) (file' : File)
      → IsCache contents os.ahead f.memory f
      → f.pos_tag ≡ f.end_tag
      → f.mode ≡ rdonly
      → bs ++ os.ahead file' ≡ os.ahead f.file
      → (bs ≡ [] → os.ahead f.file ≡ [])
      → Char f (readc_refill f (got bs, file'))
  unfolding readc_refill
  miss_lem f [] file' c p m e end = record {
    value =
        ap (λ w. get_elem? w 0) (sym (end refl) ∙ ahead-drop contents f.memory os.ahead f c)
        ∙ sym (get_elem?-drop f.end_tag contents)
        ∙ ap (get_elem? contents) (sym p);
    moved = refl;
    kept = empty-IsCache contents f.memory os.ahead f file' c (omega (arith, p)) e;
    within = omega (arith, p);
    reads = m;
  }
  miss_lem f (b ∷ bs) file' c p m e end =
      let c' = refill-IsCache contents (b ∷ bs) f.memory os.ahead f file' c (omega (arith, p)) e in
      let i : f.pos_tag + 1 - f.end_tag - 1 ≡ 0 = omega (arith, p) in
      record {
        value =
            ap (λ k. some (get_or (overwrite f.memory 0 (b ∷ bs)) k 0)) i
            ∙ ap (λ w. get_elem? w 0) (e ∙ ahead-drop contents f.memory os.ahead f c)
            ∙ sym (get_elem?-drop f.end_tag contents)
            ∙ ap (get_elem? contents) (sym p);
        moved = refl;
        kept = record {
          tag_pos = omega (arith, p);
          tag_end = c'.tag_end;
          filled = c'.filled;
          same = c'.same;
        };
        within = omega (arith, p);
        reads = m;
      }

  -- On a file without input errors that is read by `io61_readc` alone, the call returns the byte at
  -- the position, or EOF at the end of the file, and its cache is right again.
  pub io61_readc_lem :
      (f : IoFile File)
      → f.mode ≡ rdonly
      → IsCache contents os.ahead f.memory f
      → f.pos_tag ≤ f.end_tag
      → Char f (io61_readc sys f)
  unfolding io61_readc
  io61_readc_lem f m c h =
      let readable : is_rdonly f.mode ≡ true = ap is_rdonly m in
      rw readable (elim (Bool-cases (ltb f.pos_tag f.end_tag)) [
        | inl e ↦ rw e (hit_lem f c (grind (tests, e)) m)
        | inr e ↦
            rw (e, os.read_ok f.file bufsz)
              (miss_lem f (os.chunk f.file bufsz) (os.next f.file bufsz) c (grind (tests, e, h)) m
                (os.read_ahead f.file bufsz) (os.read_end f.file bufsz (omega arith)))
      ])
