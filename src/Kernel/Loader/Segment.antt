-- ===== src/Kernel/Loader/Segment.antt =====
-- What `program_load_segment` of pset4/k-loader.c leaves in memory.
use cs61_f16_psets_team_md.Base.{
  Option, some, ℕ, zero, suc, ◌+◌, ◌-◌, ◌/◌, ◌%◌, ◌^◌, ◌≤◌, ◌<◌, ◌≡◌, ◌⊎◌, refl, sym, ap, subst,
  ◌∙◌, arith, tests, Bool, true, false, Bool-cases, inl, inr, none, ◌&&◌, if◌then◌else◌, ltb, leb,
}
use cs61_f16_psets_team_md.Kernel.Pages.{page_size, PageTable, process, assign_physical_page}
use cs61_f16_psets_team_md.Kernel.Paging.{Mapped, ok, missing, panic}
use cs61_f16_psets_team_md.Kernel.Memory.{Memory, copy_up, memset}
use cs61_f16_psets_team_md.Kernel.Memory.Copy.{copy_up-moved, memset_lem}
use cs61_f16_psets_team_md.Kernel.Process.{Kernel, set_pagetable, map_memory, adopt}
use cs61_f16_psets_team_md.Kernel.Loader.{
  ElfProgram, Loaded, loaded, fails, panics, segment_mapped, segment_assigned, segment_pages,
  copy_segment, is_writable, after_protect, with_pagetable, protect_segment, and_then,
  program_load_segment,
}

-- The pages that are assigned and mapped change no memory.
data LeavesMemory (k : Kernel) : Loaded → Type 0 where
  success : (k' : Kernel) → k'.memory ≡ k.memory → LeavesMemory k (loaded k')
  failure : (k' : Kernel) → k'.memory ≡ k.memory → LeavesMemory k (fails k')
  stopped : LeavesMemory k panics

segment_pages-LeavesMemory :
    (rounds : ℕ) (k0 k : Kernel) (pid addr : ℕ)
    → k.memory ≡ k0.memory
    → LeavesMemory k0 (segment_pages rounds k pid addr)
unfolding segment_pages segment_assigned segment_mapped
segment_pages-LeavesMemory zero k0 k pid addr same = success k same
segment_pages-LeavesMemory (suc rounds) k0 k pid addr same =
    assigned (assign_physical_page k.pageinfo addr (process (k.processes pid).p_pid))
      (λ k' same'. segment_pages-LeavesMemory rounds k0 k' pid (addr + page_size) same')
  where
    mapped :
        (info : PageTable) (m : Mapped Bool)
        → ((k' : Kernel)
            → k'.memory ≡ k0.memory
            → LeavesMemory k0 (segment_pages rounds k' pid (addr + page_size)))
        → LeavesMemory k0 (
            segment_mapped
              (record k { pageinfo = info })
              m
              (λ k'. segment_pages rounds k' pid (addr + page_size)))
    mapped info (ok t b) ih = ih (record k { pageinfo = info; entries = t.entry }) same
    mapped info (missing t) ih = failure (record k { pageinfo = info; entries = t.entry }) same
    mapped info panic ih = stopped

    assigned :
        (r : PageTable × Bool)
        → ((k' : Kernel)
            → k'.memory ≡ k0.memory
            → LeavesMemory k0 (segment_pages rounds k' pid (addr + page_size)))
        → LeavesMemory k0
            (segment_assigned k pid addr r (λ k'. segment_pages rounds k' pid (addr + page_size)))
    assigned (info, false) ih = failure k same
    assigned (info, true) ih = mapped info _ ih

-- The bytes of the segment from the image, then those that are cleared, and all others.
abbrev pub segment_byte : Memory → ElfProgram → ℕ → ℕ → ℕ
segment_byte m ph src q =
    if leb ph.p_va q && ltb q (ph.p_va + ph.p_filesz)
    then m (q - ph.p_va + src)
    else if leb (ph.p_va + ph.p_filesz) q && ltb q (ph.p_va + ph.p_memsz)
    then 0
    else m q

segment_copied :
    (m : Memory) (ph : ElfProgram) (src q : ℕ)
    → ph.p_filesz ≤ ph.p_memsz
    → ph.p_va + ph.p_memsz < 2 ^ 64
    → (ph.p_va ≤ src) ⊎ (src + ph.p_filesz ≤ ph.p_va)
    → memset
        (copy_up m ph.p_va src (ph.p_va + ph.p_filesz - ph.p_va))
        (ph.p_va + ph.p_filesz)
        0
        ((ph.p_va + ph.p_memsz + 2 ^ 64 - (ph.p_va + ph.p_filesz)) % 2 ^ 64)
        q
      ≡ segment_byte m ph src q
segment_copied m ph src q le low apart =
    let size : ph.p_va + ph.p_filesz - ph.p_va ≡ ph.p_filesz = omega arith in
    let cleared : (ph.p_va + ph.p_memsz + 2 ^ 64 - (ph.p_va + ph.p_filesz)) % 2 ^ 64
        ≡ ph.p_memsz - ph.p_filesz =
      omega (arith, le, low) in
    memset_lem (copy_up m ph.p_va src (ph.p_va + ph.p_filesz - ph.p_va)) (ph.p_va + ph.p_filesz) 0
      ((ph.p_va + ph.p_memsz + 2 ^ 64 - (ph.p_va + ph.p_filesz)) % 2 ^ 64) q
    ∙ ap
        (λ n.
          if leb (ph.p_va + ph.p_filesz) q && ltb q (ph.p_va + ph.p_filesz + n)
          then 0
          else copy_up m ph.p_va src (ph.p_va + ph.p_filesz - ph.p_va) q)
        cleared
    ∙ ap
        (λ n.
          if leb (ph.p_va + ph.p_filesz) q
            && ltb q (ph.p_va + ph.p_filesz + (ph.p_memsz - ph.p_filesz))
          then 0
          else copy_up m ph.p_va src n q)
        size
    ∙ ap
        (λ v.
          if leb (ph.p_va + ph.p_filesz) q
            && ltb q (ph.p_va + ph.p_filesz + (ph.p_memsz - ph.p_filesz))
          then 0
          else v)
        (copy_up-moved m ph.p_va src ph.p_filesz q apart)
    ∙ grind (arith, tests, le)

-- The kernel behind the copy of a segment.
abbrev pub segment_copy : Kernel → ElfProgram → ℕ → Kernel
segment_copy k ph src = copy_segment k ph.p_va src (ph.p_va + ph.p_filesz) (ph.p_va + ph.p_memsz)

-- The map of the first page of a segment that is not writable.
abbrev pub read_only_map : Kernel → ℕ → ElfProgram → ℕ → Option Kernel
read_only_map k pid ph src =
    map_memory (segment_copy k ph src) (k.processes pid).p_pagetable ph.p_va ph.p_pa page_size 5

-- On success every byte of memory is the one that the segment asks for. On failure memory is as it
-- was, and the loop over the pages failed. The kernel stops where that loop stops, where the
-- process's page table or in the end the kernel's does not pass `set_pagetable`, or where the first
-- page cannot be mapped without PTE_W.
pub data SegmentLoaded (k : Kernel) (pages : Loaded) (pid : ℕ) (ph : ElfProgram) (src : ℕ)
    : Loaded → Type 0 where
  copied :
      (k' : Kernel)
      → ((q : ℕ) → k'.memory q ≡ segment_byte k.memory ph src q)
      → SegmentLoaded k pages pid ph src (loaded k')
  refused :
      (k' : Kernel)
      → pages ≡ fails k'
      → k'.memory ≡ k.memory
      → SegmentLoaded k pages pid ph src (fails k')
  crashed : pages ≡ panics → SegmentLoaded k pages pid ph src panics
  unloadable :
      (k1 : Kernel)
      → pages ≡ loaded k1
      → set_pagetable k1 (k1.processes pid).p_pagetable ≡ false
      → SegmentLoaded k pages pid ph src panics
  unprotected :
      (k1 : Kernel)
      → pages ≡ loaded k1
      → is_writable ph ≡ false
      → read_only_map k1 pid ph src ≡ none
      → SegmentLoaded k pages pid ph src panics
  not_restored :
      (k1 : Kernel)
      → pages ≡ loaded k1
      → is_writable ph ≡ true
      → set_pagetable k1 k1.kernel_pagetable ≡ false
      → SegmentLoaded k pages pid ph src panics
  not_restored_protected :
      (k1 k2 : Kernel)
      → pages ≡ loaded k1
      → is_writable ph ≡ false
      → read_only_map k1 pid ph src ≡ some k2
      → set_pagetable k2 k2.kernel_pagetable ≡ false
      → SegmentLoaded k pages pid ph src panics

with_pagetable-SegmentLoaded :
    (k k' : Kernel) (pages : Loaded) (pid : ℕ) (ph : ElfProgram) (src pagetable : ℕ) (rest : Loaded)
    → SegmentLoaded k pages pid ph src rest
    → (set_pagetable k' pagetable ≡ false → SegmentLoaded k pages pid ph src panics)
    → SegmentLoaded k pages pid ph src (with_pagetable k' pagetable rest)
unfolding with_pagetable
with_pagetable-SegmentLoaded k k' pages pid ph src pagetable rest h stops =
    elim (Bool-cases (set_pagetable k' pagetable)) [
      | inl e ↦ subst (λ b. SegmentLoaded k pages pid ph src (if b then rest else panics)) (sym e) h
      | inr e ↦
          subst (λ b. SegmentLoaded k pages pid ph src (if b then rest else panics)) (sym e)
            (stops e)
    ]

-- The map of the first page leaves memory as it is.
after_protect-SegmentLoaded :
    (k k' : Kernel) (pages : Loaded) (pid : ℕ) (ph : ElfProgram) (src : ℕ) (m : Mapped Bool)
    → ((q : ℕ) → k'.memory q ≡ segment_byte k.memory ph src q)
    → (adopt k' m ≡ none → SegmentLoaded k pages pid ph src panics)
    → ((k2 : Kernel)
        → adopt k' m ≡ some k2
        → set_pagetable k2 k2.kernel_pagetable ≡ false
        → SegmentLoaded k pages pid ph src panics)
    → SegmentLoaded k pages pid ph src (after_protect (adopt k' m))
unfolding after_protect adopt
after_protect-SegmentLoaded k k' pages pid ph src (ok t b) h stops unrestored =
    let k2 : Kernel = record k' { entries = t.entry } in
    with_pagetable-SegmentLoaded k k2 pages pid ph src k2.kernel_pagetable (loaded k2) (copied k2 h)
      (unrestored k2 refl)
after_protect-SegmentLoaded k k' pages pid ph src (missing t) h stops unrestored =
    let k2 : Kernel = record k' { entries = t.entry } in
    with_pagetable-SegmentLoaded k k2 pages pid ph src k2.kernel_pagetable (loaded k2) (copied k2 h)
      (unrestored k2 refl)
after_protect-SegmentLoaded k k' pages pid ph src panic h stops unrestored = stops refl

protect_segment-SegmentLoaded :
    (k k1 : Kernel) (pid : ℕ) (ph : ElfProgram) (src : ℕ)
    → ((q : ℕ) → (segment_copy k1 ph src).memory q ≡ segment_byte k.memory ph src q)
    → SegmentLoaded k
        (loaded k1)
        pid
        ph
        src
        (protect_segment (segment_copy k1 ph src) pid ph ph.p_va)
unfolding protect_segment map_memory copy_segment set_pagetable
protect_segment-SegmentLoaded k k1 pid ph src h = elim (Bool-cases (is_writable ph)) [
  | inl e ↦ rw e (
      with_pagetable-SegmentLoaded k (segment_copy k1 ph src) (loaded k1) pid ph src
        k1.kernel_pagetable _ (copied _ h) (not_restored k1 refl e))
  | inr e ↦ rw e (
      after_protect-SegmentLoaded k (segment_copy k1 ph src) (loaded k1) pid ph src _ h
        (unprotected k1 refl e) (λ k2. not_restored_protected k1 k2 refl e))
]

loaded_pages-SegmentLoaded :
    (k : Kernel) (pid : ℕ) (ph : ElfProgram) (src : ℕ) (r : Loaded)
    → ph.p_filesz ≤ ph.p_memsz
    → ph.p_va + ph.p_memsz < 2 ^ 64
    → (ph.p_va ≤ src) ⊎ (src + ph.p_filesz ≤ ph.p_va)
    → LeavesMemory k r
    → SegmentLoaded k r pid ph src (
        and_then r (λ k'. with_pagetable k' (k'.processes pid).p_pagetable (
          protect_segment
            (copy_segment k' ph.p_va src (ph.p_va + ph.p_filesz) (ph.p_va + ph.p_memsz))
            pid
            ph
            ph.p_va)))
unfolding and_then copy_segment
loaded_pages-SegmentLoaded k pid ph src _ le low apart (success k' same) =
    with_pagetable-SegmentLoaded k k' (loaded k') pid ph src (k'.processes pid).p_pagetable _
      (protect_segment-SegmentLoaded k k' pid ph src (λ q.
        segment_copied k'.memory ph src q le low apart ∙ ap (λ m. segment_byte m ph src q) same))
      (unloadable k' refl)
loaded_pages-SegmentLoaded k pid ph src _ le low apart (failure k' same) = refused k' refl same
loaded_pages-SegmentLoaded k pid ph src _ le low apart stopped = crashed refl

-- The loop over the pages of a segment that starts on a page.
abbrev pub pages_of : Kernel → ℕ → ElfProgram → Loaded
pages_of k pid ph = segment_pages ((ph.p_memsz + page_size - 1) / page_size) k pid ph.p_va

-- Where a segment starts on a page and ends below 2^64, is no smaller in memory than in its image,
-- and the image does not overlap it from below, a load that succeeds leaves the bytes of the image
-- at the segment's address, zeros behind them up to its size in memory, and every other byte as it
-- was. It fails only where the loop over its pages does, with no byte changed but for the message
-- on the console, and the kernel stops only where that loop stops, where the page table of the
-- process or of the kernel does not pass `set_pagetable`, or where a segment that is not writable
-- cannot be mapped so.
pub program_load_segment-SegmentLoaded :
    (k : Kernel) (pid : ℕ) (ph : ElfProgram) (src : ℕ)
    → ph.p_va % page_size ≡ 0
    → ph.p_filesz ≤ ph.p_memsz
    → ph.p_va + ph.p_memsz < 2 ^ 64
    → (ph.p_va ≤ src) ⊎ (src + ph.p_filesz ≤ ph.p_va)
    → SegmentLoaded k (pages_of k pid ph) pid ph src (program_load_segment k pid ph src)
unfolding program_load_segment
program_load_segment-SegmentLoaded k pid ph src aligned le low apart =
    let start : ph.p_va ≡ ph.p_va - ph.p_va % page_size = omega (arith, aligned) in
    let end_mem = ph.p_va + ph.p_memsz in
    let size : ph.p_memsz ≡ end_mem - ph.p_va = omega arith in
    subst
      (λ va. SegmentLoaded k (pages_of k pid ph) pid ph src (
        and_then (segment_pages ((end_mem - va + page_size - 1) / page_size) k pid va) (λ k'.
          with_pagetable k' (k'.processes pid).p_pagetable
            (protect_segment (copy_segment k' va src (ph.p_va + ph.p_filesz) end_mem) pid ph va))))
      start
      (subst
        (λ n. SegmentLoaded k (pages_of k pid ph) pid ph src (
          and_then (segment_pages ((n + page_size - 1) / page_size) k pid ph.p_va) (λ k'.
            with_pagetable k' (k'.processes pid).p_pagetable (
              protect_segment (copy_segment k' ph.p_va src (ph.p_va + ph.p_filesz) end_mem) pid ph
                ph.p_va))))
        size
        (loaded_pages-SegmentLoaded k pid ph src (pages_of k pid ph) le low apart (
          segment_pages-LeavesMemory ((ph.p_memsz + page_size - 1) / page_size) k k pid ph.p_va
            refl)))
