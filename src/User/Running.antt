-- ===== src/User/Running.antt =====
-- lib/syscall.c: a call returns to the program what its handler returns.
use xv6_lab.Base.{
  ℕ, ◌%◌, ◌<◌, ◌≡◌, refl, true, false, arith, ◌&&◌, ◌∙◌, Bool-cases, inl, inr, ◌==◌, update,
}
use xv6_lab.Machine.Mmu.{pdx, present, user, writable, utop}
use xv6_lab.Machine.Phys.{Phys, ok}
use xv6_lab.Machine.Kernel.{Kernel, done, cur_pgdir}
use xv6_lab.Pmap.Table.{page_remove}
use xv6_lab.Pmap.Space.{Mem, translation, uvpt_index, mapped, table, pte_at}
use xv6_lab.Env.Lookup.{envid2env}
use xv6_lab.Syscall.Ret.{val}
use xv6_lab.Syscall.Page.{bad_va, sys_page_map, sys_page_alloc, sys_page_unmap}
use xv6_lab.Syscall.Dispatch.{syscall}
use xv6_lab.User.Calls.{
  Outside, came, call, call_page_map, call_page_alloc, call_page_unmap, copy_page,
}

module _ (o : Outside) (e : ℕ) (k : Kernel) {t : Phys} where
  pub call_page_map-came :
      (srcva dstid dstva perm : ℕ)
      → sys_page_map e 0 srcva dstid dstva perm k ≡ done (val 0) (record k { phys = t })
      → call_page_map o e 0 srcva dstid dstva perm k ≡ came (val 0) (record k { phys = t })
  unfolding call syscall
  call_page_map-came srcva dstid dstva perm h = rw h refl

  pub call_page_alloc-came :
      (va perm : ℕ)
      → sys_page_alloc e 0 va perm k ≡ done (val 0) (record k { phys = t })
      → call_page_alloc o e 0 va perm k ≡ came (val 0) (record k { phys = t })
  unfolding call syscall
  call_page_alloc-came va perm h = rw h refl

  pub call_page_unmap-came :
      (va : ℕ)
      → va < utop
      → va % 4096 ≡ 0
      → page_remove (cur_pgdir k) (k.envs e).pgdir va k.phys ≡ ok tt t
      → call_page_unmap o e 0 va k ≡ came (val 0) (record k { phys = t })
  unfolding call syscall sys_page_unmap envid2env
  call_page_unmap-came va low aligned h =
      let fine : bad_va va ≡ false = ground arith in rw (fine, h) refl

-- Where a page is mapped outside of UVPT, the processor uses the entry of the address space.
translation-pte_at :
    (m : Mem) (pgdir va : ℕ)
    → present (pte_at m pgdir va) ≡ true
    → translation m pgdir va ≡ pte_at m pgdir va
translation-pte_at m pgdir va h = elim (Bool-cases (mapped m pgdir (pdx va))) [
  | inl p ↦
      let there : present (m pgdir (pdx va)) ≡ true = ground arith in
      let other : (pdx va == uvpt_index) ≡ false = ground arith in rw (there, other) refl
  | inr p ↦ absurd (ground arith)
]

pub copy_page-came :
    (o : Outside) (e : ℕ) (k : Kernel) (dst src from to : ℕ)
    → pte_at k.phys.mem (k.envs e).pgdir src ≡ from
    → pte_at k.phys.mem (k.envs e).pgdir dst ≡ to
    → (present from && user from) ≡ true
    → ((present to && user to) && writable to) ≡ true
    → copy_page o e dst src k
      ≡ came tt (record k {
        phys = record (k.phys) { mem = update k.phys.mem (table to) (k.phys.mem (table from)) };
      })
unfolding copy_page
copy_page-came o e k dst src from to p q may may' =
    let there : present (pte_at k.phys.mem (k.envs e).pgdir src) ≡ true = rw p (ground arith) in
    let there' : present (pte_at k.phys.mem (k.envs e).pgdir dst) ≡ true = rw q (ground arith) in
    rw
      (
        translation-pte_at k.phys.mem (k.envs e).pgdir src there ∙ p,
        translation-pte_at k.phys.mem (k.envs e).pgdir dst there' ∙ q,
        may,
        may',
      )
      refl
