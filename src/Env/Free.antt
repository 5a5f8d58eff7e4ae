-- ===== src/Env/Free.antt =====
-- kern/env.c: env_free and env_destroy.
use xv6_lab.Base.{ℕ, zero, suc, ◌+◌, Option, not, if◌then◌else◌}
use xv6_lab.Machine.Mmu.{pdx, pgaddr, pte_addr, present, npdentries, utop}
use xv6_lab.Machine.Phys.{M, pure, ◌>>=◌, ◌>>◌, load, store, kaddr, pa2page, page2pa}
use xv6_lab.Pmap.Alloc.{page_decref}
use xv6_lab.Pmap.Table.{page_remove}

module _ (cur : Option ℕ) where
  -- The loop over the entries of the page table at page `pt`, with `n` entries left from `pteno` on
  unfoldable pub unmap_ptes : (n pgdir pdeno pt pteno : ℕ) → M (Unit {0})
  unmap_ptes zero pgdir pdeno pt pteno = pure tt
  unmap_ptes (suc n) pgdir pdeno pt pteno = do
    pte ← load (pt, pteno)
    if present pte then page_remove cur pgdir (pgaddr pdeno pteno 0) else pure tt
    unmap_ptes n pgdir pdeno pt (pteno + 1)

  -- One round of the loop over the page directory
  unfoldable pub free_pde : (pgdir pdeno : ℕ) → M (Unit {0})
  free_pde pgdir pdeno = do
    pde ← load (pgdir, pdeno)
    if not (present pde) then pure tt else (do
      pt ← kaddr (pte_addr pde)
      unmap_ptes npdentries pgdir pdeno pt 0
      store (pgdir, pdeno) 0
      p ← pa2page (pte_addr pde)
      page_decref p)

  unfoldable pub free_pdes : (n pgdir pdeno : ℕ) → M (Unit {0})
  free_pdes zero pgdir pdeno = pure tt
  free_pdes (suc n) pgdir pdeno = do free_pde pgdir pdeno; free_pdes n pgdir (pdeno + 1)

  -- What env_free does to physical memory
  unfoldable pub free_space : (pgdir : ℕ) → M (Unit {0})
  free_space pgdir = do free_pdes (pdx utop) pgdir 0; p ← pa2page (page2pa pgdir); page_decref p
