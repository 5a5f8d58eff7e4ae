-- ===== src/Machine/Phys.antt =====
-- Physical memory and the array `pages` of kern/pmap.c, with the operations of kern/pmap.h.
--
-- A physical page is named by its number. `struct PageInfo *` is the index into `pages`, `NULL` is
-- `none`. The kernel maps physical memory at KERNBASE, so the pointer to a page directory or a page
-- table is the number of the page that holds it, and a `pte_t *` is that number with an index.
use xv6_lab.Base.{ℕ, ◌*◌, ◌^◌, Bool, Option, List, ltb, if◌then◌else◌, update}
use xv6_lab.Machine.Mmu.{u32, pgnum}

-- `struct PageInfo`; `pp_ref` is a uint16_t.
pub record PageInfo : Type 0 where
  pub link : Option ℕ
  pub ref : ℕ

-- `mem p i` is the 32-bit word `i` of physical page `p`. `tlb` lists the addresses that `invlpg` got,
-- the last first.
pub record Phys : Type 0 where
  pub npages : ℕ
  pub pages : ℕ → PageInfo
  pub free_list : Option ℕ
  pub mem : ℕ → ℕ → ℕ
  pub tlb : List ℕ

-- `panic` covers `panic`, `assert` and a NULL pointer that is followed: none of them comes back.
pub data Run (A : Type 0) : Type 0 where
  ok : A → Phys → Run A
  panic : Run A

abbrev pub M : Type 0 → Type 0
M A = Phys → Run A

abbrev pub pure : {A : Type 0} → A → M A
pure = ok

module _ {A B : Type 0} where
  abbrev pub and_then : Run A → (A → M B) → Run B
  and_then (ok a s) k = k a s
  and_then panic k = panic

  infixl 5 ◌>>=◌ ◌>>◌
  abbrev pub ◌>>=◌ : M A → (A → M B) → M B
  m >>= k = λ s. and_then (m s) k

  abbrev pub ◌>>◌ : M A → M B → M B
  m >> n = m >>= λ _. n

-- Reads of the state, and the two kinds of write.
abbrev pub get : M Phys
get s = ok s s

abbrev pub set_page : ℕ → PageInfo → M (Unit {0})
set_page p i s = ok tt (record s { pages = update s.pages p i })

abbrev pub set_free_list : Option ℕ → M (Unit {0})
set_free_list o s = ok tt (record s { free_list = o })

abbrev pub set_mem : (ℕ → ℕ → ℕ) → M (Unit {0})
set_mem mem s = ok tt (record s { mem = mem })

abbrev pub load : ℕ × ℕ → M ℕ
load (p, i) s = ok (s.mem p i) s

abbrev pub store : ℕ × ℕ → ℕ → M (Unit {0})
store (p, i) v s = ok tt (record s { mem = update s.mem p (update (s.mem p) i v) })

abbrev pub check : Bool → M (Unit {0})
check b s = if b then ok tt s else panic

-- `PADDR`, at an address in [KERNBASE, 2^32), and `page2pa`: the pointers are page numbers here.
abbrev pub page2pa : ℕ → ℕ
page2pa p = u32 (p * 2 ^ 12)

-- `KADDR` of the address of a page: the page, or a panic beyond the physical memory
abbrev pub kaddr : ℕ → M ℕ
kaddr pa s = if ltb (pgnum pa) s.npages then ok (pgnum pa) s else panic

abbrev pub pa2page : ℕ → M ℕ
pa2page pa s = if ltb (pgnum pa) s.npages then ok (pgnum pa) s else panic

abbrev pub page2kva : ℕ → M ℕ
page2kva p = kaddr (page2pa p)

-- `memset(page, 0, PGSIZE)`
abbrev pub clear_page : ℕ → M (Unit {0})
clear_page p s = ok tt (record s { mem = update s.mem p (λ _. 0) })
