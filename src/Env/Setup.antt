-- ===== src/Env/Setup.antt =====
-- kern/env.c: env_setup_vm.
use xv6_lab.Base.{ℕ, true, Option, none, some, bit_or, ltb, ◌==◌, if◌then◌else◌, update}
use xv6_lab.Machine.Mmu.{pdx, pte_p, pte_u, npdentries, utop, uvpt}
use xv6_lab.Machine.Phys.{M, pure, ◌>>=◌, ◌>>◌, get, set_page, set_mem, page2pa, page2kva}
use xv6_lab.Pmap.Alloc.{page_alloc, inc16}

-- The page directory after the two loops of env_setup_vm, the one below UTOP and the one from there to
-- the end, and the entry for UVPT.
abbrev pub fresh_pgdir : (p : ℕ) → (ℕ → ℕ) → ℕ → ℕ
fresh_pgdir p kern i =
    if i == pdx uvpt
    then bit_or (bit_or (page2pa p) pte_p) pte_u
    else if ltb i (pdx utop)
    then 0
    else if ltb i npdentries
    then kern i
    else 0

-- What follows page_alloc.
unfoldable pub start_pgdir : (kern_pgdir : ℕ) → Option ℕ → M (Option ℕ)
start_pgdir kern_pgdir none = pure none
start_pgdir kern_pgdir (some p) = do
  pgdir ← page2kva p
  s ← get
  set_page p (record { link = (s.pages p).link; ref = inc16 (s.pages p).ref })
  set_mem (update s.mem pgdir (fresh_pgdir pgdir (s.mem kern_pgdir)))
  pure (some pgdir)

-- env_setup_vm on the physical memory: the page directory, or `none` for -E_NO_MEM
unfoldable pub setup_pgdir : (kern_pgdir : ℕ) → M (Option ℕ)
setup_pgdir kern_pgdir = do p ← page_alloc true; start_pgdir kern_pgdir p
