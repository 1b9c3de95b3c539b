-- ===== src/Kernel/Loader.antt =====
-- `program_load` of pset4/k-loader.c, called without an allocator. An image is its headers and the
-- address at which the build has put it. The pages of a program are mapped to themselves, so that
-- the stores to them go to the physical addresses.
mod Segment
mod Tests
use cs61_f16_psets_team_md.Base.{
  ℕ, zero, suc, ◌+◌, ◌-◌, ◌*◌, ◌/◌, ◌%◌, ◌^◌, Bool, true, false, not, ◌&&◌, if◌then◌else◌, ◌==◌,
  Option, none, some, List, [], ◌∷◌, get_elem?,
}
use cs61_f16_psets_team_md.Kernel.Pages.{page_size, PageTable, process, assign_physical_page}
use cs61_f16_psets_team_md.Kernel.Paging.{pte_pwu, Mapped, ok, missing, panic, virtual_memory_map}
use cs61_f16_psets_team_md.Kernel.Memory.{copy_up, memset}
use cs61_f16_psets_team_md.Kernel.Process.{Kernel, Proc, set_proc, set_pagetable, map_memory}

-- `elf_program` and `elf_header`, with the fields that the loader reads.
pub record ElfProgram : Type 0 where
  pub p_type : ℕ
  pub p_flags : ℕ
  pub p_offset : ℕ
  pub p_va : ℕ
  pub p_pa : ℕ
  pub p_filesz : ℕ
  pub p_memsz : ℕ

pub record ElfImage : Type 0 where
  pub begin : ℕ
  pub e_magic : ℕ
  pub e_entry : ℕ
  pub programs : List ElfProgram

abbrev pub elf_magic : ℕ
elf_magic = 0x464C457F

-- The results 0 and -1, and a failed assertion.
pub data Loaded : Type 0 where
  loaded : Kernel → Loaded
  fails : Kernel → Loaded
  panics : Loaded

-- A round of the loop over the pages of a segment, where `loop` is the rest.
unfoldable pub segment_mapped : Kernel → Mapped Bool → (Kernel → Loaded) → Loaded
segment_mapped k (ok t done) loop = loop (record k { entries = t.entry })
segment_mapped k (missing t) loop = fails (record k { entries = t.entry })
segment_mapped k panic loop = panics

unfoldable pub segment_assigned : Kernel → ℕ → ℕ → PageTable × Bool → (Kernel → Loaded) → Loaded
unfolding segment_mapped virtual_memory_map
segment_assigned k pid addr (info, false) loop = fails k
segment_assigned k pid addr (info, true) loop =
    segment_mapped (record k { pageinfo = info })
      (virtual_memory_map (record { entry = k.entries; allocator = none })
        (k.processes pid).p_pagetable addr addr page_size pte_pwu)
      loop

unfoldable pub segment_pages : ℕ → Kernel → ℕ → ℕ → Loaded
unfolding segment_assigned assign_physical_page
segment_pages zero k pid addr = loaded k
segment_pages (suc rounds) k pid addr =
    segment_assigned k pid addr
      (assign_physical_page k.pageinfo addr (process (k.processes pid).p_pid))
      (λ k'. segment_pages rounds k' pid (addr + page_size))

-- The copy from the image, and the bytes that are cleared behind it.
unfoldable pub copy_segment : Kernel → ℕ → ℕ → ℕ → ℕ → Kernel
unfolding copy_up memset
copy_segment k va src end_file end_mem = record k {
  memory =
      memset (copy_up k.memory va src (end_file - va)) end_file 0
        ((end_mem + 2 ^ 64 - end_file) % 2 ^ 64);
}

-- ELF_PFLAG_WRITE.
abbrev pub is_writable : ElfProgram → Bool
is_writable ph = (ph.p_flags / 2) % 2 == 1

-- `set_pagetable`: an assertion of it that fails stops the kernel.
unfoldable pub with_pagetable : Kernel → ℕ → Loaded → Loaded
unfolding set_pagetable
with_pagetable k pagetable rest = if set_pagetable k pagetable then rest else panics

unfoldable pub after_protect : Option Kernel → Loaded
unfolding with_pagetable
after_protect none = panics
after_protect (some k) = with_pagetable k k.kernel_pagetable (loaded k)

-- The first page of a segment that is not writable is mapped again, without PTE_W.
unfoldable pub protect_segment : Kernel → ℕ → ElfProgram → ℕ → Loaded
unfolding map_memory with_pagetable after_protect
protect_segment k pid ph va =
    if is_writable ph
    then with_pagetable k k.kernel_pagetable (loaded k)
    else after_protect (map_memory k (k.processes pid).p_pagetable va ph.p_pa page_size 5)

unfoldable pub and_then : Loaded → (Kernel → Loaded) → Loaded
and_then (loaded k) loop = loop k
and_then (fails k) loop = fails k
and_then panics loop = panics

unfoldable pub program_load_segment : Kernel → ℕ → ElfProgram → ℕ → Loaded
unfolding segment_pages copy_segment with_pagetable protect_segment and_then
program_load_segment k pid ph src =
    let va = ph.p_va - ph.p_va % page_size in
    let end_file = ph.p_va + ph.p_filesz in
    let end_mem = ph.p_va + ph.p_memsz in
    and_then (segment_pages ((end_mem - va + page_size - 1) / page_size) k pid va) (λ k'.
      with_pagetable k' (k'.processes pid).p_pagetable
        (protect_segment (copy_segment k' va src end_file end_mem) pid ph va))

-- The loop over the program headers.
unfoldable pub load_segments : Kernel → ℕ → ℕ → List ElfProgram → Loaded
unfolding program_load_segment
load_segments k pid begin [] = loaded k
load_segments k pid begin (ph ∷ phs) =
    if ph.p_type == 1
    then and_then (program_load_segment k pid ph (begin + ph.p_offset))
        (λ k'. load_segments k' pid begin phs)
    else load_segments k pid begin phs

unfoldable pub set_entry_point : ℕ → ℕ → Kernel → Loaded
set_entry_point pid e_entry k =
    let p = k.processes pid in
    loaded (set_proc k pid (record p { p_registers = record p.p_registers { reg_rip = e_entry } }))

unfoldable pub load_image : Kernel → ℕ → Option ElfImage → Loaded
unfolding load_segments set_entry_point
load_image k pid none = panics
load_image k pid (some image) =
    if image.e_magic == elf_magic
    then and_then (load_segments k pid image.begin image.programs)
        (set_entry_point pid image.e_entry)
    else panics

-- `ramimages` is the list of the images.
unfoldable pub program_load : List ElfImage → Kernel → ℕ → ℕ → Loaded
unfolding load_image
program_load ramimages k pid programnumber = load_image k pid (get_elem? ramimages programnumber)
