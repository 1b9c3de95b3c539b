-- ===== src/Io61/Read/Cache.antt =====
-- The bytes that a file has still to give, in its cache and ahead in the file, and how `io61_read`
-- takes them.
use cs61_f16_psets_team_md.Base.{
  ℕ, ◌+◌, ◌-◌, ◌≤◌, ◌<◌, ◌≡◌, sym, ap, ◌∙◌, arith, tests, Option, some, Bytes, ◌++◌, length, take,
  drop, length-append, length-take, drop_cong, drop-add, take-append, drop-append-length,
  take-drop-take, take_cong,
}
use cs61_f16_psets_team_md.Io61.System.{IoFile, overwrite}
use cs61_f16_psets_team_md.Io61.Read.{Returned, bytes, copy_count, copied}

module _ {File : Type 0} where
  -- The part of the buffer that is filled from the file.
  abbrev pub valid : Bytes → IoFile File → Bytes
  valid buf f = take (f.end_tag - f.tag) buf

  -- The cache in `buf` has the bytes of `contents` from `tag` to `end_tag`, and the file's offset
  -- is `end_tag`. A seek can leave `pos_tag` behind `end_tag`.
  pub record IsCache (contents : Bytes) (ahead : File → Bytes) (buf : Bytes) (f : IoFile File)
      : Type 0 where
    pub tag_pos : f.tag ≤ f.pos_tag
    pub tag_end : f.tag ≤ f.end_tag
    pub filled : f.end_tag - f.tag ≤ length buf
    pub same : valid buf f ++ ahead f.file ≡ drop f.tag contents

  -- A copy takes the bytes of the file at `pos_tag`.
  pub copied-take :
      (contents : Bytes) (ahead : File → Bytes) (f : IoFile File) (sz : ℕ) (done : Bytes)
      → IsCache contents ahead f.cbuf f
      → f.pos_tag < f.end_tag
      → copied f sz done ≡ take (copy_count f sz done) (drop f.pos_tag contents)
  copied-take contents ahead f sz done c h =
      let n = copy_count f sz done in
      let i = f.pos_tag - f.tag in
      let v = valid f.cbuf f in
      let size : length v ≡ f.end_tag - f.tag =
        omega (arith, length-take (f.end_tag - f.tag) f.cbuf, c.filled, c.tag_end) in
      let fits : n + i ≤ f.end_tag - f.tag = grind (tests, c.tag_pos, h) in
      let at : drop f.pos_tag contents ≡ drop i (v ++ ahead f.file) =
        drop_cong {n = i + f.tag} contents (omega (arith, c.tag_pos))
        ∙ drop-add i f.tag contents
        ∙ ap (drop i) (sym c.same) in
      take-drop-take n i (f.end_tag - f.tag) f.cbuf fits
      ∙ ap (λ w. take n (drop i w)) (sym (take-append v (ahead f.file)))
      ∙ sym (take-drop-take n i (length v) (v ++ ahead f.file) (omega (arith, size, fits)))
      ∙ ap (take n) (sym at)

  -- Behind the cache stand the bytes ahead in the file.
  pub ahead-drop :
      (contents buf : Bytes) (ahead : File → Bytes) (f : IoFile File)
      → IsCache contents ahead buf f
      → ahead f.file ≡ drop f.end_tag contents
  ahead-drop contents buf ahead f c =
      let v = valid buf f in
      let size : length v ≡ f.end_tag - f.tag =
        omega (arith, length-take (f.end_tag - f.tag) buf, c.filled) in
      sym (drop-append-length v (ahead f.file))
      ∙ drop_cong (v ++ ahead f.file) size
      ∙ ap (drop (f.end_tag - f.tag)) c.same
      ∙ sym (drop-add (f.end_tag - f.tag) f.tag contents)
      ∙ drop_cong {m = f.end_tag - f.tag + f.tag} contents (omega (arith, c.tag_end))

  -- After a read into an empty cache, the buffer has the bytes read.
  pub refill-IsCache :
      (contents bs buf : Bytes) (ahead : File → Bytes) (f : IoFile File) (file' : File)
      → IsCache contents ahead buf f
      → f.end_tag ≤ f.pos_tag
      → bs ++ ahead file' ≡ ahead f.file
      → IsCache contents ahead
          (overwrite buf 0 bs)
          (record f { file = file'; tag = f.end_tag; end_tag = f.end_tag + length bs })
  refill-IsCache contents bs buf ahead f file' c h e =
      let size : f.end_tag + length bs - f.end_tag ≡ length bs = omega arith in
      let rest : drop (0 + length bs) buf ≡ drop (length bs) buf =
        drop_cong {m = 0 + length bs} buf (omega arith) in
      let front : overwrite buf 0 bs ≡ bs ++ drop (length bs) buf = ap (◌++◌ bs) rest in
      record {
        tag_pos = h;
        tag_end = omega arith;
        filled = omega (arith, size, length-append bs (drop (0 + length bs) buf));
        same =
            ap (λ n. take n (overwrite buf 0 bs) ++ ahead file') size
            ∙ ap (λ w. take (length bs) w ++ ahead file') front
            ∙ ap (λ w. w ++ ahead file') (take-append bs (drop (length bs) buf))
            ∙ e
            ∙ ahead-drop contents buf ahead f c;
      }

  -- A read that finds the end of the file empties the cache.
  pub empty-IsCache :
      (contents buf : Bytes) (ahead : File → Bytes) (f : IoFile File) (file' : File)
      → IsCache contents ahead buf f
      → f.end_tag ≤ f.pos_tag
      → ahead file' ≡ ahead f.file
      → IsCache contents ahead buf (record f { file = file'; tag = f.end_tag })
  empty-IsCache contents buf ahead f file' c h e = record {
    tag_pos = h;
    tag_end = omega arith;
    filled = omega arith;
    same =
        ap (λ w. w ++ ahead file') (take_cong {m = f.end_tag - f.end_tag} {n = 0} buf (omega arith))
        ∙ e
        ∙ ahead-drop contents buf ahead f c;
  }

  -- A read has returned `all` and stands at `stop`, with a cache that is right.
  pub record Took (contents : Bytes) (ahead : File → Bytes) (all : Bytes) (stop : ℕ)
      (r : Option (Returned × IoFile File)) : Type 0 where
    pub f' : IoFile File
    pub returns : r ≡ some (bytes all, f')
    pub kept : IsCache contents ahead f'.cbuf f'
    pub moved : f'.pos_tag ≡ stop
