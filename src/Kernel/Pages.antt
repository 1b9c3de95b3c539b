-- ===== src/Kernel/Pages.antt =====
-- The physical page table `pageinfo` of pset4/kernel.c. The array has `npages` entries;
-- `pageinfo` is a function, so that a read behind the array, of some other global, has a value
-- too. A reference count is a number without the bound of an `int8_t`.
pub mod Alloc
mod Tests
use cs61_f16_psets_team_md.Base.{
  ℕ, zero, suc, ◌+◌, ◌-◌, ◌*◌, ◌/◌, ◌%◌, ◌^◌, Bool, true, false, not, ◌&&◌, ◌||◌, Option, none,
  some, ltb, leb, ◌==◌, if◌then◌else◌,
}

-- The constants of kernel.h, x86-64.h and k-hardware.c.
abbrev pub page_size : ℕ
page_size = 4096

abbrev pub memsize_physical : ℕ
memsize_physical = 0x20_0000

abbrev pub npages : ℕ
npages = 512

abbrev pub kernel_start_addr : ℕ
kernel_start_addr = 0x4_0000

abbrev pub kernel_stack_top : ℕ
kernel_stack_top = 0x8_0000

-- PAGENUMBER and PAGEADDRESS.
abbrev pub page_number : ℕ → ℕ
page_number pa = pa / page_size

abbrev pub page_address : ℕ → ℕ
page_address pn = pn * page_size

-- `(uintptr_t) -1`.
abbrev pub no_page : ℕ
no_page = 2 ^ 64 - 1

-- `int8_t owner`: PO_RESERVED, PO_KERNEL, or the process ID; PO_FREE is the process ID 0.
pub data Owner : Type 0 where
  reserved kernel : Owner
  process : ℕ → Owner

abbrev pub free : Owner
free = process 0

pub record PageInfo : Type 0 where
  pub owner : Owner
  pub refcount : ℕ

abbrev pub PageTable : Type 0
PageTable = ℕ → PageInfo

abbrev pub set_page : PageTable → ℕ → PageInfo → PageTable
set_page info pn p q = if pn == q then p else info q

-- `physical_memory_isreserved`.
unfoldable pub physical_memory_isreserved : ℕ → Bool
physical_memory_isreserved pa = pa == 0 || (leb 0xA_0000 pa && ltb pa 0x10_0000)

-- The owner that `pageinfo_init` gives the page at `addr`; `end` is the end of the kernel's data.
unfoldable pub initial_owner : ℕ → ℕ → Owner
unfolding physical_memory_isreserved
initial_owner end addr =
    if physical_memory_isreserved addr
    then reserved
    else if (leb kernel_start_addr addr && ltb addr end) || addr == kernel_stack_top - page_size
    then kernel
    else free

unfoldable pub is_free : Owner → Bool
is_free (process n) = n == 0
is_free _ = false

-- The loop of `pageinfo_init`, `rounds` pages from page `pn` on.
unfoldable pub pageinfo_init_from : ℕ → ℕ → ℕ → PageTable → PageTable
unfolding initial_owner is_free
pageinfo_init_from end zero pn info = info
pageinfo_init_from end (suc rounds) pn info =
    let owner = initial_owner end (page_address pn) in
    let p : PageInfo = record { owner = owner; refcount = if is_free owner then 0 else 1 } in
    pageinfo_init_from end rounds (pn + 1) (set_page info pn p)

unfoldable pub pageinfo_init : ℕ → PageTable → PageTable
unfolding pageinfo_init_from
pageinfo_init end info = pageinfo_init_from end npages 0 info

-- The loop of `use_any_physical_page` from page `pn` on; `none` if the fuel runs out.
unfoldable pub find_page : ℕ → PageTable → ℕ → Option ℕ
find_page zero info pn = none
find_page (suc fuel) info pn =
    let rest = find_page fuel info (pn + 1) in
    if (info pn).refcount == 0
    then some (page_address pn)
    else if leb npages pn
    then some no_page
    else rest

-- 513 rounds look at every page and at the entry behind the array.
unfoldable pub use_any_physical_page : PageTable → Option ℕ
unfolding find_page
use_any_physical_page info = find_page (npages + 1) info 0

-- The second result is 0 for success; the source returns -1 for `false`.
unfoldable pub assign_physical_page : PageTable → ℕ → Owner → PageTable × Bool
assign_physical_page info addr owner =
    if not (addr % page_size == 0)
      || leb memsize_physical addr
      || not ((info (page_number addr)).refcount == 0)
    then (info, false)
    else (set_page info (page_number addr) (record { owner = owner; refcount = 1 }), true)

-- The two calls that stand together wherever the kernel takes a new page.
unfoldable pub take_page : PageTable → Owner → Option (PageTable × ℕ × Bool)
unfolding use_any_physical_page assign_physical_page
take_page info owner = elim (use_any_physical_page info) [
  | none ↦ none
  | some pa ↦ let (info', done) = assign_physical_page info pa owner in some (info', pa, done)
]
