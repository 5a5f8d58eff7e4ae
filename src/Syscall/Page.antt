-- ===== src/Syscall/Page.antt =====
-- kern/syscall.c: sys_page_alloc, sys_page_map and sys_page_unmap.
use xv6_lab.Base.{
  ℕ, ◌-◌, ◌^◌, Bool, true, Option, none, some, bit_and, not, leb, ◌&&◌, ◌||◌, ◌==◌, if◌then◌else◌,
}
use xv6_lab.Machine.Mmu.{pgoff, user, present, writable, pte_syscall, utop}
use xv6_lab.Machine.Phys.{load}
use xv6_lab.Machine.Kernel.{K, pure, ◌>>=◌, ◌>>◌, get, lift, cur_pgdir}
use xv6_lab.Pmap.Alloc.{page_alloc, page_free}
use xv6_lab.Pmap.Table.{page_insert, page_lookup, page_remove}
use xv6_lab.Env.Lookup.{envid2env}
use xv6_lab.Syscall.Ret.{Ret, val, err, with_env, inval, no_mem}

-- `va >= UTOP || PGOFF(va)`
abbrev pub bad_va : ℕ → Bool
bad_va va = leb utop va || not (pgoff va == 0)

-- `(perm & PTE_U) == 0 || (perm & PTE_P) == 0 || (perm & ~PTE_SYSCALL) != 0`
abbrev pub bad_perm : ℕ → Bool
bad_perm perm =
    not (user perm) || (not (present perm) || not (bit_and perm (2 ^ 32 - 1 - pte_syscall) == 0))

-- What follows page_alloc in sys_page_alloc.
unfoldable pub map_new : (pgdir va perm : ℕ) → Option ℕ → K Ret
map_new pgdir va perm none = pure (err inval)
map_new pgdir va perm (some pi) = do
  k ← get
  inserted ← lift (page_insert (cur_pgdir k) pgdir pi va perm)
  if inserted then pure (val 0) else (lift (page_free pi) >> pure (err no_mem))

unfoldable pub sys_page_alloc : (cur envid va perm : ℕ) → K Ret
sys_page_alloc cur envid va perm = do
  k ← get
  with_env (envid2env cur envid true k) λ e.
      if bad_va va || bad_perm perm
      then pure (err inval)
      else (do pi ← lift (page_alloc true); map_new (k.envs e).pgdir va perm pi)

-- What follows page_lookup in sys_page_map.
unfoldable pub map_found : (dst dstva perm : ℕ) → Option (ℕ × (ℕ × ℕ)) → K Ret
map_found dst dstva perm none = pure (err inval)
map_found dst dstva perm (some (pp, pte)) = do
  entry ← lift (load pte)
  k ← get
  if not (writable entry) && writable perm then pure (err inval) else (do
    inserted ← lift (page_insert (cur_pgdir k) dst pp dstva perm)
    pure (if inserted then val 0 else err inval))

unfoldable pub sys_page_map : (cur srcenvid srcva dstenvid dstva perm : ℕ) → K Ret
sys_page_map cur srcenvid srcva dstenvid dstva perm = do
  k ← get
  with_env (envid2env cur srcenvid true k) λ src. with_env (envid2env cur dstenvid true k) λ dst.
      if bad_va srcva || (bad_va dstva || bad_perm perm) then pure (err inval) else (do
        found ← lift (page_lookup (k.envs src).pgdir srcva)
        map_found (k.envs dst).pgdir dstva perm found)

unfoldable pub sys_page_unmap : (cur envid va : ℕ) → K Ret
sys_page_unmap cur envid va = do
  k ← get
  with_env (envid2env cur envid true k) λ e.
      if bad_va va
      then pure (err inval)
      else lift (page_remove (cur_pgdir k) (k.envs e).pgdir va) >> pure (val 0)
