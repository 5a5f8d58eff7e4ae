-- ===== src/Pmap/Boot.antt =====
-- kern/pmap.c while the kernel boots: i386_detect_memory, boot_alloc and page_init.
use xv6_lab.Base.{
  ℕ, zero, suc, ◌+◌, ◌-◌, ◌*◌, ◌/◌, ◌^◌, Bool, true, Option, none, some, ◌&&◌, not, ltb, leb, ◌==◌,
  if◌then◌else◌, update,
}
use xv6_lab.Machine.Mmu.{u32, pgsize, round_up, kernbase, iophysmem, mpentry_paddr}
use xv6_lab.Machine.Phys.{Phys}

-- The sizes that the CMOS reports, in kilobytes, ext16mem in units of 64.
pub record Cmos : Type 0 where
  pub basemem : ℕ
  pub extmem : ℕ
  pub ext16mem : ℕ

abbrev totalmem : Cmos → ℕ
totalmem c =
    if not (c.ext16mem * 64 == 0)
    then 16 * 1024 + c.ext16mem * 64
    else if not (c.extmem == 0)
    then 1024 + c.extmem
    else c.basemem

-- npages and npages_basemem
unfoldable pub i386_detect_memory : Cmos → ℕ × ℕ
i386_detect_memory c = (totalmem c / (pgsize / 1024), c.basemem / (pgsize / 1024))

-- `nextfree` is the static variable, `none` while it is NULL, and `end` the linker's symbol. The result
-- is the address given out with the new `nextfree`; `none` is the panic.
unfoldable pub boot_alloc : (end npages : ℕ) → Option ℕ → ℕ → Option (ℕ × ℕ)
boot_alloc end npages nextfree n =
    let result = first nextfree in
    let next = round_up (u32 (result + n)) pgsize in
    if ltb (u32 (npages * pgsize)) (u32 (next + 2 ^ 32 - kernbase))
    then none
    else some (result, next)
  where
    first : Option ℕ → ℕ
    first none = round_up end pgsize
    first (some p) = p

-- The pages that page_init keeps off the free list: page 0, those from the I/O hole up to the end of
-- what boot_alloc gave out, and the page of the code that starts the other CPUs.
unfoldable pub reserved : ℕ → ℕ → Bool
reserved kernel_end i =
    if i == 0
    then true
    else if leb (iophysmem / pgsize) i && ltb i kernel_end
    then true
    else i == mpentry_paddr / pgsize

-- One round of the loop.
unfoldable pub init_page : ℕ → ℕ → Phys → Phys
init_page kernel_end i s =
    if reserved kernel_end i
    then record s { pages = update s.pages i (record { link = none; ref = 1 }) }
    else record s {
      pages = update s.pages i (record { link = s.free_list; ref = 0 });
      free_list = some i;
    }

-- `for (i = 0; i < npages; i++)`, as the state after the first `n` rounds
unfoldable pub init_pages : ℕ → ℕ → Phys → Phys
unfolding init_page
init_pages kernel_end zero s = s
init_pages kernel_end (suc n) s = init_page kernel_end n (init_pages kernel_end n s)

-- `kernel_end` is PADDR(boot_alloc(0)) / PGSIZE.
unfoldable pub page_init : ℕ → Phys → Phys
unfolding init_pages
page_init kernel_end s = init_pages kernel_end s.npages s
