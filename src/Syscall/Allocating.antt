-- ===== src/Syscall/Allocating.antt =====
-- kern/syscall.c: what sys_page_alloc does to an address space.
use xv6_lab.Base.{==-refl, ℕ, ◌≡◌, refl, true, false, Option, none, some, List, [], ◌∷◌, arith, ◌∙◌}
use xv6_lab.Machine.Mmu.{pdx, present}
use xv6_lab.Machine.Phys.{Phys, ok}
use xv6_lab.Machine.Kernel.{Kernel, done, cur_pgdir}
use xv6_lab.Pmap.Alloc.{page_alloc}
use xv6_lab.Pmap.Table.{page_insert}
use xv6_lab.Pmap.Space.{off_uvpt, table, pte_at}
use xv6_lab.Pmap.FreeList.{
  IsFreeList, page_alloc_lem, taken, page_free-given, given, given-IsFreeList,
}
use xv6_lab.Pmap.Walk.{IsSpace, HasRoom}
use xv6_lab.Pmap.Remove.{CanDrop}
use xv6_lab.Pmap.Insert.{Inserted}
use xv6_lab.Pmap.Taken.{root-kept, taken-IsSpace, taken-CanInsert}
use xv6_lab.Pmap.Map.{page_insert-Inserted, page_insert-no_mem}
use xv6_lab.Env.Lookup.{envid2env}
use xv6_lab.Syscall.Ret.{val, err, no_mem}
use xv6_lab.Syscall.Page.{bad_va, bad_perm, map_new, sys_page_alloc}

-- What sys_page_alloc checks first: the id names `e` for the caller, and the address and the
-- permissions are acceptable.
pub record IsAllocRequest (cur envid va perm e : ℕ) (k : Kernel) : Type 0 where
  pub named : envid2env cur envid true k ≡ some e
  pub aligned : bad_va va ≡ false
  pub flags : bad_perm perm ≡ false

module _ (cur envid va perm e : ℕ) (k : Kernel)
    (request : IsAllocRequest cur envid va perm e k) where
  alloc-map_new :
      (r : Option ℕ) (t : Phys)
      → page_alloc true k.phys ≡ ok r t
      → sys_page_alloc cur envid va perm k
        ≡ map_new (k.envs e).pgdir va perm r (record k { phys = t })
  unfolding sys_page_alloc
  alloc-map_new r t h = rw (request.named, request.aligned, request.flags, h)

  -- The call returns 0 once page_insert has succeeded.
  pub sys_page_alloc-runs :
      {x : ℕ} {xs : List ℕ} {t : Phys}
      → IsSpace k.phys (k.envs e).pgdir (x ∷ xs)
      → page_insert (cur_pgdir k) (k.envs e).pgdir x va perm (taken true x k.phys) ≡ ok true t
      → sys_page_alloc cur envid va perm k ≡ done (val 0) (record k { phys = t })
  unfolding map_new
  sys_page_alloc-runs {x} {xs} space inserted =
      alloc-map_new _ _ (page_alloc_lem true (x ∷ xs) space.small space.free).0 ∙ rw inserted

  -- For a request that passes the checks of sys_page_alloc, with a free page, a second one if va
  -- has no page table, and a page mapped there before that can lose a reference: sys_page_alloc
  -- returns 0, maps a page from the free list at va with the permissions asked for, and every word
  -- of that page is 0; only physical memory changes.
  pub sys_page_alloc-Inserted :
      {x : ℕ} {xs : List ℕ}
      → IsSpace k.phys (k.envs e).pgdir (x ∷ xs)
      → HasRoom k.phys (k.envs e).pgdir va xs
      → (present (pte_at k.phys.mem (k.envs e).pgdir va) ≡ true
          → CanDrop k.phys
              (k.envs e).pgdir
              (x ∷ xs)
              (table (pte_at k.phys.mem (k.envs e).pgdir va)))
      → (i : ℕ)
      → (t : Phys) × (sys_page_alloc cur envid va perm k ≡ done (val 0) (record k { phys = t }))
        × Inserted (taken true x k.phys) t (k.envs e).pgdir va x perm
        × (t.mem x i ≡ 0)
  unfolding map_new
  sys_page_alloc-Inserted {x} {xs} space room old i =
      let off : off_uvpt va ≡ true = ground (arith, request.aligned) in
      let (t, inserted, after) =
        page_insert-Inserted (cur_pgdir k) perm (taken-CanInsert space va off room old) in
      (t, sys_page_alloc-runs space inserted, after, rw after.frame (rw (==-refl x) refl))

  -- For a request that passes the checks of sys_page_alloc, with exactly one free page and no page
  -- table for va: sys_page_alloc returns -E_NO_MEM and the page is free again.
  pub sys_page_alloc-no_mem :
      {x : ℕ}
      → IsSpace k.phys (k.envs e).pgdir (x ∷ [])
      → present (k.phys.mem (k.envs e).pgdir (pdx va)) ≡ false
      → (t : Phys) × (sys_page_alloc cur envid va perm k
          ≡ done (err no_mem) (record k { phys = t }))
        × IsFreeList t (x ∷ [])
  unfolding map_new
  sys_page_alloc-no_mem {x} space absent =
      let s' : Phys = taken true x k.phys in
      let zero : (s'.pages x).ref ≡ 0 = rw (==-refl x) (space.free.unused x (ground arith)).0 in
      let unlinked : (s'.pages x).link ≡ none = rw (==-refl x) refl in
      let bound = (space.free.unused x (ground arith)).1 in
      let tables = taken-IsSpace space in
      (
        given x s',
        alloc-map_new _ _ (page_alloc_lem true (x ∷ []) space.small space.free).0
            ∙ rw
                (
                  page_insert-no_mem (cur_pgdir k) va x perm tables (rw (root-kept space) absent),
                  page_free-given s' x zero unlinked,
                )
                refl,
        given-IsFreeList s' x tables.free refl bound zero,
      )
