-- ===== src/Pmap/MemInit.antt =====
-- kern/pmap.c: mem_init, which sets up physical memory at boot.
use xv6_lab.Base.{ℕ, ◌+◌, ◌-◌, ◌*◌, ◌/◌, ◌^◌, none, some, Option, ltb, bit_or, if◌then◌else◌}
use xv6_lab.Machine.Mmu.{
  u32, pgsize, ptsize, pgnum, pdx, pte_u, pte_w, pte_p, uvpt, upages, uenvs, kstacktop, kstksize,
  kernbase,
}
use xv6_lab.Machine.Phys.{Phys, M, panic, pure, ◌>>=◌, ◌>>◌, get, store, clear_page, page2pa}
use xv6_lab.Pmap.Boot.{Cmos, i386_detect_memory, boot_alloc, page_init}
use xv6_lab.Pmap.Table.{boot_map_region}
use xv6_lab.Pmap.Stacks.{mem_init_mp}

-- PADDR
abbrev pub paddr : ℕ → M ℕ
paddr kva = if ltb kva kernbase then (λ s. panic) else pure (u32 (kva + 2 ^ 32 - kernbase))

-- What boot_alloc answers, `none` for its panic
abbrev pub with_memory : Option (ℕ × ℕ) → (ℕ → ℕ → M (Unit {0})) → M (Unit {0})
with_memory none f = λ s. panic
with_memory (some (address, next)) f = f address next

-- The calls of boot_map_region in mem_init, and mem_init_mp. `envs` and `bootstack` are physical
-- addresses. The first call gives page2pa(pages), which is the address of page 0, and not that of the
-- array.
unfoldable pub map_kernel : (kern_pgdir envs bootstack : ℕ) (stacks : ℕ → ℕ) → M (Unit {0})
map_kernel kern_pgdir envs bootstack stacks = do
  boot_map_region kern_pgdir upages ptsize (page2pa 0) pte_u
  boot_map_region kern_pgdir uenvs ptsize envs pte_u
  boot_map_region kern_pgdir (kstacktop - kstksize) kstksize bootstack pte_w
  boot_map_region kern_pgdir kernbase (0xffff_ffff - kernbase) 0 pte_w
  mem_init_mp kern_pgdir stacks

abbrev pub blank_pages : (npages : ℕ) → Phys → Phys
blank_pages npages s = record s {
  npages = npages;
  pages = λ p. record { link = none; ref = 0 };
  free_list = none;
}

abbrev pub run_page_init : (kernel_end : ℕ) → M (Unit {0})
run_page_init kernel_end s = pure tt (page_init kernel_end s)

-- mem_init on physical memory, less the check functions and the flags of cr0. `end`, `bootstack` and
-- `stacks` are the linker's, the last two as physical addresses. sizeof(struct PageInfo) is 8,
-- sizeof(struct Env) is 124.
unfoldable pub mem_init : Cmos → (end bootstack : ℕ) → (stacks : ℕ → ℕ) → M (Unit {0})
mem_init c end bootstack stacks =
    let npages = (i386_detect_memory c).0 in
    with_memory (boot_alloc end npages none pgsize) λ pgdir n1.
      with_memory (boot_alloc end npages (some n1) (npages * 8)) λ pages n2.
        with_memory (boot_alloc end npages (some n2) (1024 * 124)) λ envs n3. do
          root ← paddr pgdir
          clear_page (pgnum root)
          store (pgnum root, pdx uvpt) (bit_or (bit_or root pte_u) pte_p)
          s ← get
          λ j. pure tt (blank_pages npages j)
          with_memory (boot_alloc end npages (some n3) 0) λ kernel_end n4. do
            last ← paddr kernel_end
            run_page_init (last / pgsize)
            phys_envs ← paddr envs
            map_kernel (pgnum root) phys_envs bootstack stacks
