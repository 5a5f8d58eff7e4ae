-- ===== src/User/Fork.antt =====
-- lib/pgfault.c and lib/fork.c: page faults handled by the program, and fork with copy-on-write.
use xv6_lab.Base.{
  ℕ, zero, suc, ◌+◌, ◌-◌, ◌*◌, ◌/◌, ◌%◌, Bool, bit_and, not, ◌==◌, ◌&&◌, ◌||◌, if◌then◌else◌,
}
use xv6_lab.Machine.Mmu.{
  u32, pgsize, pgnum, pdx, pte_u, pte_w, pte_p, pte_syscall, round_down, present, user, writable,
  pftemp, uxstacktop, ustacktop,
}
use xv6_lab.Syscall.Ret.{Ret, val, err}
use xv6_lab.User.Calls.{
  Outside, U, pure, ◌>>=◌, ◌>>◌, panic, must, call_getenvid, call_page_alloc, call_page_map,
  call_page_unmap, call_exofork, call_env_set_status, call_env_set_pgfault_upcall, uvpd_entry,
  uvpt_entry, copy_page,
}

abbrev pub pte_cow : ℕ
pte_cow = 0x800

abbrev pub pte_share : ℕ
pte_share = 0x400

-- `pte & PTE_COW`, and the same for PTE_SHARE
abbrev pub is_cow : ℕ → Bool
is_cow pte = not (bit_and pte pte_cow == 0)

abbrev pub is_shared : ℕ → Bool
is_shared pte = not (bit_and pte pte_share == 0)

module _ (o : Outside) (e : ℕ) where
  -- pgfault, for the fault address and the error code of its frame. FEC_WR is 2.
  unfoldable pub pgfault : (fault_va fault_err : ℕ) → U (Unit {0})
  pgfault fault_va fault_err = if fault_err / 2 % 2 == 0 then panic else (do
    pte ← uvpt_entry o e (pgnum fault_va)
    if not (is_cow pte) then panic else (do
      let addr = round_down fault_va pgsize
      r ← call_page_map o e 0 addr 0 pftemp (pte_u + pte_p)
      must r
      s ← call_page_alloc o e 0 addr (pte_w + pte_u + pte_p)
      must s
      copy_page o e addr pftemp
      t ← call_page_unmap o e 0 pftemp
      must t))

  -- `handler` is the value of `_pgfault_handler` before, 0 if there is none; the result is its value
  -- after. `upcall` is the address of `_pgfault_upcall` in lib/pfentry.S.
  unfoldable pub set_pgfault_handler : (upcall handler new : ℕ) → U ℕ
  set_pgfault_handler upcall handler new =
      if handler == 0
      then (do
        r ← call_page_alloc o e 0 (uxstacktop - pgsize) (pte_u + pte_w + pte_p)
        must r
        call_env_set_pgfault_upcall o e 0 upcall
        pure new)
      else pure new

  unfoldable pub duppage : (envid pn : ℕ) → U Ret
  duppage envid pn = do
    let addr = u32 (pn * pgsize)
    pte ← uvpt_entry o e pn
    if is_shared pte
        then call_page_map o e 0 addr envid addr pte_syscall >> pure (val 0)
        else if writable pte || is_cow pte
        then (do
          r ← call_page_map o e 0 addr envid addr (pte_cow + pte_u + pte_p)
          must r
          s ← call_page_map o e 0 addr 0 addr (pte_cow + pte_u + pte_p)
          must s
          pure (val 0))
        else call_page_map o e 0 addr envid addr (pte_u + pte_p) >> pure (val 0)

  -- One round of the loop of fork: `uvpt` is read only under a page table.
  unfoldable pub dup_mapped : (envid addr : ℕ) → U (Unit {0})
  dup_mapped envid addr = do
    pde ← uvpd_entry o e (pdx addr)
    if not (present pde) then pure tt else (do
      pte ← uvpt_entry o e (pgnum addr)
      if present pte && user pte then duppage envid (pgnum addr) >> pure tt else pure tt)

  -- The loop, with `n` pages left from `addr` on
  unfoldable pub dup_pages : (n envid addr : ℕ) → U (Unit {0})
  dup_pages zero envid addr = pure tt
  dup_pages (suc n) envid addr = do dup_mapped envid addr; dup_pages n envid (addr + pgsize)

  -- What the parent does once it has the child's id
  unfoldable pub start_child : (upcall envid : ℕ) → U Ret
  start_child upcall envid = do
    dup_pages (ustacktop / pgsize) envid 0
    r ← call_page_alloc o e envid (uxstacktop - pgsize) (pte_p + pte_w + pte_u)
    must r
    s ← call_env_set_pgfault_upcall o e envid upcall
    must s
    t ← call_env_set_status o e envid 2
    must t
    pure (val envid)

  -- What follows sys_exofork: the id is 0 in the child, which then finds `thisenv`.
  abbrev pub forked_as : (upcall : ℕ) → Ret → U Ret
  forked_as upcall (err x) = panic
  forked_as upcall (val envid) =
      if envid == 0 then call_getenvid o e >> pure (val 0) else start_child upcall envid

  -- `own` is the address of pgfault. ENV_RUNNABLE is 2.
  unfoldable pub fork : (upcall handler own : ℕ) → U Ret
  fork upcall handler own = do
    set_pgfault_handler upcall handler own
    r ← call_exofork o e
    forked_as upcall r
