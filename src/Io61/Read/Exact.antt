-- ===== src/Io61/Read/Exact.antt =====
-- `io61_read` of pset3/io61.c returns the bytes of the file, however the system cuts its reads.
use cs61_f16_psets_team_md.Base.{
  ℕ, zero, suc, ◌+◌, ◌-◌, ◌≤◌, ◌<◌, ◌≡◌, refl, sym, ap, ◌∙◌, inl, inr, arith, tests, Bool-cases,
  ltb, ◌==◌, Option, some, Bytes, [], ◌∷◌, ◌++◌, length, take, drop, length-append, length-take,
  length-drop, drop_cong, drop-add, drop-all, take_cong, take-add, take-nil, append-nil,
  append_assoc,
}
use cs61_f16_psets_team_md.Io61.System.{System, got, IsReadable, IoFile, bufsz, overwrite}
use cs61_f16_psets_team_md.Io61.Read.{
  Returned, bytes, io61_read_loop, io61_read, refill, copy_count, copied,
}
use cs61_f16_psets_team_md.Io61.Read.Cache.{
  IsCache, copied-take, refill-IsCache, empty-IsCache, Took, ahead-drop,
}

module _ {File : Type 0} (sys : System File) (contents : Bytes) (os : IsReadable sys contents) where
  -- What is to be read from `pos_tag` on.
  abbrev wanted : IoFile File → ℕ → Bytes
  wanted f n = take n (drop f.pos_tag contents)

  copied-wanted :
      (f : IoFile File) (sz : ℕ) (done : Bytes)
      → IsCache contents os.ahead f.cbuf f
      → length done ≤ sz
      → f.pos_tag < f.end_tag
      → let k = copy_count f sz done in
        let d = done ++ copied f sz done in
        (length d ≡ length done + k)
        × (d ++ take (sz - length d) (drop (f.pos_tag + k) contents)
            ≡ done ++ wanted f (sz - length done))
        × (f.pos_tag + k + length (take (sz - length d) (drop (f.pos_tag + k) contents))
            ≡ f.pos_tag + length (wanted f (sz - length done)))
  copied-wanted f sz done c h lt =
      let k = copy_count f sz done in
      let chunk = copied f sz done in
      let d = done ++ chunk in
      let rest = take (sz - length d) (drop (f.pos_tag + k) contents) in
      let within : k + (f.pos_tag - f.tag) ≤ length f.cbuf =
        grind (tests, c.tag_pos, c.filled, lt) in
      let short : k ≤ sz - length done = grind (tests, lt) in
      let size : length chunk ≡ k = omega (
        arith,
        length-take k (drop (f.pos_tag - f.tag) f.cbuf),
        length-drop (f.pos_tag - f.tag) f.cbuf,
        within,
      ) in
      let size_d : length d ≡ length done + k = omega (arith, length-append done chunk, size) in
      let parts : chunk ++ rest ≡ wanted f (sz - length done) =
        ap (λ w. w ++ rest) (copied-take contents os.ahead f sz done c lt)
        ∙ ap (◌++◌ (take k (drop f.pos_tag contents))) (
            take_cong {n = sz - length done - k} (drop (f.pos_tag + k) contents)
              (omega (arith, size_d))
            ∙ ap (take (sz - length done - k)) (
                drop_cong {n = k + f.pos_tag} contents (omega arith)
                ∙ drop-add k f.pos_tag contents))
        ∙ take-add k (sz - length done - k) (drop f.pos_tag contents)
        ∙ take_cong {m = k + (sz - length done - k)} (drop f.pos_tag contents)
            (omega (arith, short)) in
      (
        size_d,
        append_assoc done chunk rest ∙ ap (◌++◌ done) parts,
        omega (arith, ap length parts, length-append chunk rest, size),
      )

  Took-subst :
      (all all' : Bytes) (stop stop' : ℕ) (r : Option (Returned × IoFile File))
      → all ≡ all'
      → stop ≡ stop'
      → Took contents os.ahead all stop r
      → Took contents os.ahead all' stop' r
  Took-subst all all' stop stop' r e e' t = record {
    f' = t.f';
    returns = t.returns ∙ ap (λ w. some (bytes w, t.f')) e;
    kept = t.kept;
    moved = t.moved ∙ e';
  }

  -- Nothing is left to read.
  stop-Took :
      (f : IoFile File) (done want : Bytes)
      → IsCache contents os.ahead f.cbuf f
      → want ≡ []
      → Took contents os.ahead (done ++ want) (f.pos_tag + length want) (some (bytes done, f))
  stop-Took f done want c e = record {
    f' = f;
    returns = ap (λ w. some (bytes w, f)) (sym (append-nil done) ∙ ap (◌++◌ done) (sym e));
    kept = c;
    moved = omega (arith, ap length e);
  }

  refill-Took :
      (f : IoFile File) (done bs : Bytes) (file' : File) (n : ℕ)
      (loop : IoFile File → Option (Returned × IoFile File))
      → IsCache contents os.ahead f.cbuf f
      → f.end_tag ≤ f.pos_tag
      → bs ++ os.ahead file' ≡ os.ahead f.file
      → (bs ≡ [] → os.ahead f.file ≡ [])
      → ((f' : IoFile File)
          → f'.pos_tag ≡ f.pos_tag
          → f'.file ≡ file'
          → 0 < length bs
          → IsCache contents os.ahead f'.cbuf f'
          → Took contents os.ahead
              (done ++ wanted f' n)
              (f'.pos_tag + length (wanted f' n))
              (loop f'))
      → Took contents os.ahead
          (done ++ wanted f n)
          (f.pos_tag + length (wanted f n))
          (refill f done (got bs, file') loop)
  unfolding refill
  refill-Took f done [] file' n loop c h e end ih =
      let none_left : drop f.pos_tag contents ≡ [] =
        drop_cong {n = f.pos_tag - f.end_tag + f.end_tag} contents (omega (arith, h))
        ∙ drop-add (f.pos_tag - f.end_tag) f.end_tag contents
        ∙ ap (drop (f.pos_tag - f.end_tag))
            (sym (ahead-drop contents f.cbuf os.ahead f c) ∙ end refl)
        ∙ drop-all (f.pos_tag - f.end_tag) [] (omega arith) in
      stop-Took (record f { file = file'; tag = f.end_tag }) done (wanted f n)
        (empty-IsCache contents f.cbuf os.ahead f file' c h e) (ap (take n) none_left ∙ take-nil n)
  refill-Took f done (b ∷ bs) file' n loop c h e end ih =
      ih
        (record f {
          file = file';
          cbuf = overwrite f.cbuf 0 (b ∷ bs);
          tag = f.end_tag;
          end_tag = f.end_tag + length (b ∷ bs);
        })
        refl refl (omega arith)
        (let c' = refill-IsCache contents (b ∷ bs) f.cbuf os.ahead f file' c h e in
          record { tag_pos = c'.tag_pos; tag_end = c'.tag_end; filled = c'.filled; same = c'.same })

  copy-IsCache :
      (f : IoFile File) (k : ℕ)
      → IsCache contents os.ahead f.cbuf f
      → IsCache contents os.ahead f.cbuf (record f { pos_tag = f.pos_tag + k })
  copy-IsCache f k c = record {
    tag_pos = omega (arith, c.tag_pos);
    tag_end = c.tag_end;
    filled = c.filled;
    same = c.same;
  }

  io61_read_loop-Took :
      (fuel : ℕ) (f : IoFile File) (sz : ℕ) (done : Bytes)
      → IsCache contents os.ahead f.cbuf f
      → length done ≤ sz
      → sz - length done + length (os.ahead f.file) < fuel
      → Took contents os.ahead
          (done ++ wanted f (sz - length done))
          (f.pos_tag + length (wanted f (sz - length done)))
          (io61_read_loop fuel sys f sz done)
  unfolding io61_read_loop
  io61_read_loop-Took zero f sz done c h e = absurd (omega arith)
  io61_read_loop-Took (suc fuel) f sz done c h e = elim (Bool-cases (length done == sz)) [
    | inl a ↦ rw a (
        stop-Took f done (wanted f (sz - length done)) c
          (take_cong {n = 0} (drop f.pos_tag contents) (grind (tests, a))))
    | inr a ↦ rw a (elim (Bool-cases (ltb f.pos_tag f.end_tag)) [
      | inl b ↦
          let k = copy_count f sz done in
          let f1 : IoFile File = record f { pos_tag = f.pos_tag + k } in
          let lt : f.pos_tag < f.end_tag = grind (tests, b) in
          let (size, all, stop) = copied-wanted f sz done c h lt in
          let some_copied : 0 < k = grind (tests, a, b, h) in
          let few : k ≤ sz - length done = grind (tests, b) in
          let d = done ++ copied f sz done in
          rw b (
            Took-subst _ _ _ _ _ all stop (
              io61_read_loop-Took fuel f1 sz d (copy-IsCache f k c) (omega (arith, size, few, h))
                (omega (arith, size, few, e, some_copied))))
      | inr b ↦
          rw (b, os.read_ok f.file bufsz)
            (let bs = os.chunk f.file bufsz in
              let file' = os.next f.file bufsz in
              let joined = os.read_ahead f.file bufsz in
              refill-Took f done bs file' (sz - length done)
                (λ f'. io61_read_loop fuel sys f' sz done) c (grind (tests, b)) joined
                (os.read_end f.file bufsz (omega arith))
                (λ f' same_pos same_file some_read c'. io61_read_loop-Took fuel f' sz done c' h (
                  omega (
                    arith,
                    e,
                    some_read,
                    ap length joined,
                    length-append bs (os.ahead file'),
                    ap (λ x. length (os.ahead x)) same_file,
                  ))))
    ])
  ]

  -- `io61_read` on a file without input errors, whose cache is right, returns the `sz` bytes at the
  -- position, or all up to the end of the file if these are fewer. It moves the position behind
  -- them, and the cache is right again. `sz` and the bytes ahead in the file bound the rounds.
  pub io61_read_lem :
      (fuel : ℕ) (f : IoFile File) (sz : ℕ)
      → IsCache contents os.ahead f.cbuf f
      → sz + length (os.ahead f.file) < fuel
      → Took contents os.ahead
          (take sz (drop f.pos_tag contents))
          (f.pos_tag + length (take sz (drop f.pos_tag contents)))
          (io61_read fuel sys f sz)
  io61_read_lem fuel f sz c e =
      let all : wanted f (sz - 0) ≡ wanted f sz =
        take_cong {m = sz - 0} (drop f.pos_tag contents) (omega arith) in
      Took-subst (wanted f (sz - 0)) (wanted f sz) (f.pos_tag + length (wanted f (sz - 0)))
        (f.pos_tag + length (wanted f sz)) (io61_read fuel sys f sz) all
        (omega (arith, ap length all))
        (io61_read_loop-Took fuel f sz [] c (omega arith) (omega (arith, e)))
