-- ===== src/Io61/Seek/Exact.antt =====
-- `io61_seek` of pset3/io61.c in a file that is read, and reads behind it.
use cs61_f16_psets_team_md.Base.{
  ℕ, ◌+◌, ◌-◌, ◌≤◌, ◌≡◌, refl, ap, ◌∙◌, subst, none, inl, inr, arith, tests, Bool-cases, true, not,
  ◌||◌, ltb, ◌==◌, if◌then◌else◌, some, Bytes, ◌++◌, length, take, drop, take_cong,
}
use cs61_f16_psets_team_md.Io61.System.{System, IsReadable, rdonly, IoFile, is_rdonly}
use cs61_f16_psets_team_md.Io61.Read.{io61_read}
use cs61_f16_psets_team_md.Io61.Read.Cache.{IsCache, Took}
use cs61_f16_psets_team_md.Io61.Read.Exact.{io61_read_lem}
use cs61_f16_psets_team_md.Io61.Write.{returned, io61_flush}
use cs61_f16_psets_team_md.Io61.Seek.{
  seek_target, place, seek_moved, seek_flushed, seek_after, io61_seek,
}

module _ {File : Type 0} (sys : System File) (contents : Bytes) (os : IsReadable sys contents) where
  seek_target_le : (f : IoFile File) (pos : ℕ) → seek_target f pos ≤ pos
  seek_target_le f pos = grind (tests)

  -- A file that was moved, with a cache that is right and empty.
  moved-IsCache :
      (f : IoFile File) (pos target : ℕ)
      → target ≤ pos
      → IsCache contents os.ahead f.cbuf
          (place (record f { file = os.moved f.file target; tag = target; end_tag = target }) pos)
  moved-IsCache f pos target h = record {
    tag_pos = h;
    tag_end = omega arith;
    filled = omega arith;
    same =
        ap (λ w. w ++ os.ahead (os.moved f.file target))
          (take_cong {m = target - target} {n = 0} f.cbuf (omega arith))
        ∙ os.lseek_ahead f.file target;
  }

  seek_flushed-IsCache :
      (f : IoFile File) (pos : ℕ)
      → f.mode ≡ rdonly
      → IsCache contents os.ahead f.cbuf f
      → (f' : IoFile File) × (seek_flushed sys f pos ≡ (true, f'))
        × IsCache contents os.ahead f'.cbuf f'
        × (f'.pos_tag ≡ pos)
  unfolding seek_flushed seek_moved
  seek_flushed-IsCache f pos m c =
      let target = seek_target f pos in
      let same_target : (target == target) ≡ true = grind (tests) in
      elim (Bool-cases (ltb pos f.tag || ltb f.end_tag pos || not (is_rdonly f.mode))) [
        | inl e ↦
            rw (e, os.lseek_ok f.file target, same_target)
              (
                place (record f { file = os.moved f.file target; tag = target; end_tag = target })
                    pos,
                refl,
                moved-IsCache f pos target (seek_target_le f pos),
                refl,
              )
        | inr e ↦ rw e (
          place f pos,
          refl,
          record {
            tag_pos = grind (tests, e);
            tag_end = c.tag_end;
            filled = c.filled;
            same = c.same;
          },
          refl,
        )
      ]

  -- In a file that is read, and whose cache is right, a seek to any offset succeeds, leaves the
  -- cache right and stands at the offset.
  pub io61_seek-IsCache :
      (fuel : ℕ) (f : IoFile File) (pos : ℕ)
      → f.mode ≡ rdonly
      → IsCache contents os.ahead f.cbuf f
      → (f' : IoFile File) × (io61_seek fuel sys f pos ≡ returned (some 0) f')
        × IsCache contents os.ahead f'.cbuf f'
        × (f'.pos_tag ≡ pos)
  unfolding io61_seek seek_after
  io61_seek-IsCache fuel f pos m c =
      let (f', e, c', p) = seek_flushed-IsCache f pos m c in
      (
        f',
        ap (λ b. seek_after sys pos (if b then returned (some 0) f else io61_flush fuel sys f))
              (ap is_rdonly m)
            ∙ ap (λ r. returned (if r.0 then some 0 else none) r.1) e,
        c',
        p,
      )

  -- In a file that is read, and whose cache is right, a seek to `pos` succeeds, and a read behind
  -- it returns the `sz` bytes of the file from `pos` on, or those up to its end.
  pub io61_read-io61_seek :
      (f : IoFile File) (pos sz : ℕ)
      → f.mode ≡ rdonly
      → IsCache contents os.ahead f.cbuf f
      → (f' : IoFile File) × (io61_seek 0 sys f pos ≡ returned (some 0) f')
        × Took contents os.ahead
            (take sz (drop pos contents))
            (pos + length (take sz (drop pos contents)))
            (io61_read (sz + length (os.ahead f'.file) + 1) sys f' sz)
  io61_read-io61_seek f pos sz m c =
      let (f', e, c', p) = io61_seek-IsCache 0 f pos m c in
      let fuel = sz + length (os.ahead f'.file) + 1 in
      (
        f',
        e,
        subst
            (λ q.
              Took contents os.ahead (take sz (drop q contents))
                (q + length (take sz (drop q contents))) (io61_read fuel sys f' sz))
            p (io61_read_lem sys contents os fuel f' sz c' (omega arith)),
      )
