-- ===== src/Machine/Mmu.antt =====
-- inc/mmu.h, inc/memlayout.h, inc/types.h: the paging macros and the layout of memory. Addresses are
-- 32-bit words. A mask of low bits is a remainder, a shift is a division.
use xv6_lab.Base.{ℕ, ◌+◌, ◌-◌, ◌*◌, ◌/◌, ◌%◌, ◌^◌, Bool, ◌==◌}

abbrev pub u32 : ℕ → ℕ
u32 x = x % 2 ^ 32

abbrev pub pgsize : ℕ
pgsize = 4096

abbrev pub npdentries : ℕ
npdentries = 1024

-- bytes mapped by a page directory entry
abbrev pub ptsize : ℕ
ptsize = pgsize * 1024

-- page number field of an address
abbrev pub pgnum : ℕ → ℕ
pgnum la = la / 2 ^ 12

-- page directory index
abbrev pub pdx : ℕ → ℕ
pdx la = la / 2 ^ 22 % 1024

-- page table index
abbrev pub ptx : ℕ → ℕ
ptx la = la / 2 ^ 12 % 1024

-- offset in page
abbrev pub pgoff : ℕ → ℕ
pgoff la = la % 4096

-- The linear address with these indexes and this offset. The fields do not overlap.
abbrev pub pgaddr : ℕ → ℕ → ℕ → ℕ
pgaddr d t o = d * 2 ^ 22 + t * 2 ^ 12 + o

abbrev pub pte_p : ℕ
pte_p = 0x001

abbrev pub pte_w : ℕ
pte_w = 0x002

abbrev pub pte_u : ℕ
pte_u = 0x004

abbrev pub pte_pwt : ℕ
pte_pwt = 0x008

abbrev pub pte_pcd : ℕ
pte_pcd = 0x010

abbrev pub pte_avail : ℕ
pte_avail = 0xE00

-- PTE_AVAIL | PTE_P | PTE_W | PTE_U
abbrev pub pte_syscall : ℕ
pte_syscall = 0xE07

-- address in page table or page directory entry
abbrev pub pte_addr : ℕ → ℕ
pte_addr pte = pte / 4096 * 4096

-- `pte & PTE_P`, `pte & PTE_W` and `pte & PTE_U`, as tests
abbrev pub present : ℕ → Bool
present pte = pte % 2 == 1

abbrev pub writable : ℕ → Bool
writable pte = pte / 2 % 2 == 1

abbrev pub user : ℕ → Bool
user pte = pte / 4 % 2 == 1

abbrev pub round_down : ℕ → ℕ → ℕ
round_down a n = a - a % n

abbrev pub round_up : ℕ → ℕ → ℕ
round_up a n = round_down (u32 (a + n - 1)) n

abbrev pub kernbase : ℕ
kernbase = 0xF000_0000

abbrev pub iophysmem : ℕ
iophysmem = 0x0A_0000

abbrev pub extphysmem : ℕ
extphysmem = 0x10_0000

abbrev pub kstacktop : ℕ
kstacktop = kernbase

abbrev pub kstksize : ℕ
kstksize = 8 * pgsize

abbrev pub kstkgap : ℕ
kstkgap = 8 * pgsize

abbrev pub mmiolim : ℕ
mmiolim = kstacktop - ptsize

abbrev pub mmiobase : ℕ
mmiobase = mmiolim - ptsize

abbrev pub ulim : ℕ
ulim = mmiobase

abbrev pub uvpt : ℕ
uvpt = ulim - ptsize

abbrev pub upages : ℕ
upages = uvpt - ptsize

abbrev pub uenvs : ℕ
uenvs = upages - ptsize

abbrev pub utop : ℕ
utop = uenvs

abbrev pub uxstacktop : ℕ
uxstacktop = utop

abbrev pub ustacktop : ℕ
ustacktop = utop - 2 * pgsize

abbrev pub utemp : ℕ
utemp = ptsize

abbrev pub pftemp : ℕ
pftemp = utemp + ptsize - pgsize

abbrev pub mpentry_paddr : ℕ
mpentry_paddr = 0x7000
