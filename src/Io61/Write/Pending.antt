-- ===== src/Io61/Write/Pending.antt =====
-- `io61_write` and `io61_flush` of pset3/io61.c keep the bytes in order: those that the system has,
-- then those in the cache.
use cs61_f16_psets_team_md.Base.{
  ℕ, zero, suc, ◌+◌, ◌-◌, ◌≤◌, ◌<◌, ◌≡◌, refl, sym, ap, ◌∙◌, inl, inr, arith, tests, Bool-cases,
  true, false, ltb, ◌==◌, some, Bytes, [], ◌∷◌, ◌++◌, length, take, drop, length-append,
  length-take, length-drop, take_cong, take-append, take-append-drop, append-nil, append_assoc,
}
use cs61_f16_psets_team_md.Io61.System.{
  System, IsWritable, wronly, IoFile, bufsz, overwrite, is_rdonly,
}
use cs61_f16_psets_team_md.Io61.Write.{
  Outcome, returned, flush_memory, flush_cbuf, io61_flush, fill, fill_count, go_on, write_round,
  io61_write_loop, io61_write,
}

module _ {File : Type 0} (sys : System File) (os : IsWritable sys) where
  -- What was written to the file so far: the bytes that the system has, then the cached ones.
  abbrev pub stream : IoFile File → Bytes
  stream f = os.output f.file ++ take (f.end_tag - f.tag) f.cbuf

  -- A file for writing whose cache is not full, without bytes of `io61_writec`.
  pub record IsPending (f : IoFile File) : Type 0 where
    pub writes : f.mode ≡ wronly
    pub no_memory : f.cache_size ≡ 0
    pub at_end : f.pos_tag ≡ f.end_tag
    pub tag_end : f.tag ≤ f.end_tag
    pub room : f.end_tag - f.tag ≤ bufsz
    pub whole : length f.cbuf ≡ bufsz

  -- A call has returned `r`, and `bs` was written.
  pub record Wrote (f : IoFile File) (bs : Bytes) (r : ℕ) (o : Outcome (IoFile File)) : Type 0 where
    pub f' : IoFile File
    pub returns : o ≡ returned (some r) f'
    pub kept : IsPending f'
    pub not_full : f'.end_tag - f'.tag < bufsz
    pub order : stream f' ≡ stream f ++ bs

  -- Behind a flush of a file with an empty `memory` the system has all bytes.
  pub io61_flush-Wrote :
      (fuel : ℕ) (f : IoFile File)
      → IsPending f
      → (w : Wrote f [] 0 (io61_flush (suc fuel) sys f)) × (os.output w.f'.file ≡ stream f)
  unfolding io61_flush flush_cbuf flush_memory
  io61_flush-Wrote fuel f c =
      let bs = take (f.end_tag - f.tag) f.cbuf in
      let size : length bs ≡ f.end_tag - f.tag =
        omega (arith, length-take (f.end_tag - f.tag) f.cbuf, c.whole, c.room) in
      let all : (length bs == f.end_tag - f.tag) ≡ true = grind (tests, size) in
      let f1 : IoFile File = record f {
        file = os.put f.file bs;
        pos_tag = f.end_tag;
        tag = f.end_tag;
      } in
      let none_left : take (f.end_tag - f.end_tag) f.cbuf ≡ [] =
        take_cong {n = 0} f.cbuf (omega arith) in
      let order : stream f1 ≡ stream f =
        ap (◌++◌ (os.output (os.put f.file bs))) none_left
        ∙ append-nil (os.output (os.put f.file bs))
        ∙ os.write_output f.file bs in
      (
        record {
          f' = f1;
          returns = rw (c.writes, os.write_ok f.file bs, all, c.no_memory) refl;
          kept = record {
            writes = c.writes;
            no_memory = c.no_memory;
            at_end = refl;
            tag_end = omega arith;
            room = omega arith;
            whole = c.whole;
          };
          not_full = omega arith;
          order = order ∙ sym (append-nil (stream f));
        },
        os.write_output f.file bs,
      )

  -- A copy of the first `n` bytes of `buf` puts them behind the cached ones.
  fill_lem :
      (f : IoFile File) (n : ℕ) (buf : Bytes)
      → IsPending f
      → n ≤ length buf
      → f.end_tag - f.tag + n ≤ bufsz
      → IsPending (fill f n buf)
        × ((fill f n buf).end_tag ≡ f.end_tag + n)
        × (stream (fill f n buf) ≡ stream f ++ take n buf)
  fill_lem f n buf c short room =
      let k = f.end_tag - f.tag in
      let w = take n buf in
      let size : length w ≡ n = omega (arith, length-take n buf, short) in
      let old = take k f.cbuf in
      let size_old : length old ≡ k = omega (arith, length-take k f.cbuf, c.whole, c.room) in
      let tail = drop (k + length w) f.cbuf in
      let buf_eq : overwrite f.cbuf (f.pos_tag - f.tag) w ≡ (old ++ w) ++ tail =
        ap (λ p. overwrite f.cbuf (p - f.tag) w) c.at_end in
      let end' : (fill f n buf).end_tag ≡ f.end_tag + n = grind (tests, c.at_end) in
      let total : (fill f n buf).end_tag - f.tag ≡ length (old ++ w) =
        omega (arith, end', length-append old w, size, size_old, c.tag_end) in
      let cached : take ((fill f n buf).end_tag - f.tag) (overwrite f.cbuf (f.pos_tag - f.tag) w)
          ≡ old ++ w =
        take_cong (overwrite f.cbuf (f.pos_tag - f.tag) w) total
        ∙ ap (take (length (old ++ w))) buf_eq
        ∙ take-append (old ++ w) tail in
      (
        record {
          writes = c.writes;
          no_memory = c.no_memory;
          at_end = omega (arith, end', c.at_end);
          tag_end = omega (arith, end', c.tag_end);
          room = omega (arith, end', c.tag_end, room);
          whole = omega (
            arith,
            ap length buf_eq,
            length-append (old ++ w) tail,
            length-append old w,
            size,
            size_old,
            length-drop (k + length w) f.cbuf,
            c.whole,
            room,
          );
        },
        end',
        ap (◌++◌ (os.output f.file)) cached ∙ sym (append_assoc (os.output f.file) old w),
      )

  -- A round on the bytes `b ∷ bs` hands on fewer, and the stream has the others.
  pub record Round (f : IoFile File) (buf : Bytes) (n : ℕ) (f' : IoFile File) : Type 0 where
    pub some_taken : 0 < n
    pub at_most : n ≤ length buf
    pub still : IsPending f'
    pub open_room : f'.end_tag - f'.tag < bufsz
    pub taken : stream f' ≡ stream f ++ take n buf

  write_round_lem :
      (fuel : ℕ) (f : IoFile File) (buf : Bytes)
      (loop : IoFile File → Bytes → Outcome (IoFile File))
      → IsPending f
      → f.end_tag - f.tag < bufsz
      → 0 < length buf
      → (f' : IoFile File) × (n : ℕ) × Round f buf n f'
        × (write_round (suc fuel) sys f buf loop ≡ loop f' (drop n buf))
  unfolding write_round go_on
  write_round_lem fuel f buf loop c room more =
      let n = fill_count f buf in
      let has_room : ltb (f.pos_tag - f.tag) bufsz ≡ true = grind (tests, c.at_end, room) in
      let short : n ≤ length buf = grind (tests) in
      let fits : f.end_tag - f.tag + n ≤ bufsz = grind (tests, c.at_end, room) in
      let pos : 0 < n = grind (tests, c.at_end, room, more) in
      let (c1, end1, order1) = fill_lem f n buf c short fits in
      let f1 = fill f n buf in
      rw has_room (elim (Bool-cases (f1.pos_tag - f1.tag == bufsz)) [
        | inl e ↦
            let (w, all) = io61_flush-Wrote fuel f1 c1 in
            rw (e, w.returns)
              (
                w.f',
                n,
                record {
                  some_taken = pos;
                  at_most = short;
                  still = w.kept;
                  open_room = w.not_full;
                  taken = w.order ∙ append-nil (stream f1) ∙ order1;
                },
                refl,
              )
        | inr e ↦ rw e (
          f1,
          n,
          record {
            some_taken = pos;
            at_most = short;
            still = c1;
            open_room = grind (tests, e, c1.at_end, c1.room);
            taken = order1;
          },
          refl,
        )
      ])

  io61_write_loop-Wrote :
      (fuel : ℕ) (f : IoFile File) (sz : ℕ) (buf : Bytes)
      → IsPending f
      → f.end_tag - f.tag < bufsz
      → length buf + 1 < fuel
      → Wrote f buf sz (io61_write_loop fuel sys f sz buf)
  unfolding io61_write_loop
  io61_write_loop-Wrote zero f sz buf c room h = absurd (omega arith)
  io61_write_loop-Wrote (suc fuel) f sz [] c room h = record {
    f' = f;
    returns = refl;
    kept = c;
    not_full = room;
    order = sym (append-nil (stream f));
  }
  io61_write_loop-Wrote (suc zero) f sz (b ∷ bs) c room h = absurd (omega arith)
  io61_write_loop-Wrote (suc (suc fuel)) f sz (b ∷ bs) c room h =
      let loop : IoFile File → Bytes → Outcome (IoFile File) =
        λ f' left. io61_write_loop (suc fuel) sys f' sz left in
      let (f', n, round, e) = write_round_lem fuel f (b ∷ bs) loop c room (omega arith) in
      let left = drop n (b ∷ bs) in
      let w =
        io61_write_loop-Wrote (suc fuel) f' sz left round.still round.open_room
          (omega (arith, h, length-drop n (b ∷ bs), round.some_taken, round.at_most)) in
      record {
        f' = w.f';
        returns = e ∙ w.returns;
        kept = w.kept;
        not_full = w.not_full;
        order =
            w.order
            ∙ ap (λ x. x ++ left) round.taken
            ∙ append_assoc (stream f) (take n (b ∷ bs)) left
            ∙ ap (◌++◌ (stream f)) (take-append-drop n (b ∷ bs));
      }

  -- In a file that is opened for writing only, whose cache has room and ends at the position, into
  -- which `io61_writec` has put nothing, and where write(2) takes all bytes that it is given,
  -- `io61_write` returns the number of its bytes and puts them behind those that were written
  -- before. The cache has room again.
  pub io61_write-Wrote :
      (fuel : ℕ) (f : IoFile File) (buf : Bytes)
      → IsPending f
      → f.end_tag - f.tag < bufsz
      → length buf + 1 < fuel
      → Wrote f buf (length buf) (io61_write fuel sys f buf)
  io61_write-Wrote fuel f buf c room h =
      let writable : is_rdonly f.mode ≡ false = ap is_rdonly c.writes in
      rw writable (io61_write_loop-Wrote fuel f (length buf) buf c room h)
