-- ===== src/Syscall/Mapping.antt =====
-- kern/syscall.c: what sys_page_map and sys_page_alloc do to an address space.
use xv6_lab.Base.{
  ℕ, ◌<◌, ◌≡◌, refl, not, true, false, Option, none, some, List, arith, ◌&&◌, ◌∙◌, sym, ◌⊎◌,
}
use xv6_lab.Machine.Mmu.{pdx, ptx, present, writable}
use xv6_lab.Machine.Phys.{Phys, ok}
use xv6_lab.Machine.Kernel.{Kernel, done, cur_pgdir}
use xv6_lab.Pmap.Table.{page_insert, page_lookup}
use xv6_lab.Pmap.Space.{table, pte_at}
use xv6_lab.Pmap.Walk.{IsSpace}
use xv6_lab.Pmap.Remove.{page_lookup-some, page_lookup-none, pte-table}
use xv6_lab.Pmap.Insert.{Inserted}
use xv6_lab.Pmap.Map.{CanInsert, page_insert-Inserted}
use xv6_lab.Env.Lookup.{envid2env}
use xv6_lab.Syscall.Ret.{val, err, inval}
use xv6_lab.Syscall.Page.{bad_va, bad_perm, map_found, sys_page_map}

-- What sys_page_map checks before it looks at the page tables: the ids name `src` and `dst` for the
-- caller, and the addresses and the permissions are acceptable.
pub record IsRequest (cur srcid srcva dstid dstva perm src dst : ℕ) (k : Kernel) : Type 0 where
  pub source : envid2env cur srcid true k ≡ some src
  pub target : envid2env cur dstid true k ≡ some dst
  pub source_va : bad_va srcva ≡ false
  pub target_va : bad_va dstva ≡ false
  pub flags : bad_perm perm ≡ false

map_found-insert :
    (k : Kernel) (d va perm pp : ℕ) (e : ℕ × ℕ) {w : ℕ} {t : Phys}
    → k.phys.mem e.0 e.1 ≡ w
    → (not (writable w) && writable perm) ≡ false
    → page_insert (cur_pgdir k) d pp va perm k.phys ≡ ok true t
    → map_found d va perm (some (pp, e)) k ≡ done (val 0) (record k { phys = t })
unfolding map_found
map_found-insert k d va perm pp (p, i) raw may inserted = rw (raw, may, inserted)

module _ (cur srcid srcva dstid dstva perm src dst : ℕ) (k : Kernel) {xs : List ℕ}
    (request : IsRequest cur srcid srcva dstid dstva perm src dst k)
    (space : IsSpace k.phys (k.envs src).pgdir xs) where
  abbrev source_pte : ℕ
  source_pte = pte_at k.phys.mem (k.envs src).pgdir srcva

  raw :
      present source_pte ≡ true
      → k.phys.mem (table (k.phys.mem (k.envs src).pgdir (pdx srcva))) (ptx srcva) ≡ source_pte
  raw h = sym (pte-table srcva space h).1

  no_escalation :
      (writable source_pte ≡ true) ⊎ (writable perm ≡ false)
      → (not (writable source_pte) && writable perm) ≡ false
  no_escalation may = ground arith

  sys_page_map-looked :
      (r : Option (ℕ × (ℕ × ℕ)))
      → page_lookup (k.envs src).pgdir srcva k.phys ≡ ok r k.phys
      → sys_page_map cur srcid srcva dstid dstva perm k
        ≡ map_found (k.envs dst).pgdir dstva perm r k
  unfolding sys_page_map
  sys_page_map-looked r h =
      rw (request.source, request.target, request.source_va, request.target_va, request.flags, h)

  -- Nothing is mapped at `srcva`: sys_page_map returns -E_INVAL and changes nothing.
  pub sys_page_map-absent :
      present source_pte ≡ false
      → sys_page_map cur srcid srcva dstid dstva perm k ≡ done (err inval) k
  unfolding map_found
  sys_page_map-absent h =
      sys_page_map-looked none (page_lookup-none srcva space (ground (arith, request.source_va)) h)

  -- For a request that passes the checks of sys_page_map on ids, addresses and permissions, with
  -- the source page mapped: sys_page_map returns -E_INVAL and changes nothing if PTE_W is asked
  -- for and the source mapping is read-only.
  pub sys_page_map-escalation :
      present source_pte ≡ true
      → table source_pte < k.phys.npages
      → writable source_pte ≡ false
      → writable perm ≡ true
      → sys_page_map cur srcid srcva dstid dstva perm k ≡ done (err inval) k
  unfolding map_found
  sys_page_map-escalation h bound ro w =
      sys_page_map-looked _ (page_lookup-some srcva space h bound) ∙ rw (raw h, ro, w) refl

  -- The call returns 0 once page_insert has succeeded.
  pub sys_page_map-runs :
      {t : Phys}
      → present source_pte ≡ true
      → table source_pte < k.phys.npages
      → (writable source_pte ≡ true) ⊎ (writable perm ≡ false)
      → page_insert (cur_pgdir k) (k.envs dst).pgdir (table source_pte) dstva perm k.phys
        ≡ ok true t
      → sys_page_map cur srcid srcva dstid dstva perm k ≡ done (val 0) (record k { phys = t })
  sys_page_map-runs h bound may inserted =
      sys_page_map-looked _ (page_lookup-some srcva space h bound)
      ∙ map_found-insert k _ dstva perm _ _ (raw h) (no_escalation may) inserted

  -- For a request that passes the checks of sys_page_map on ids, addresses and permissions, with
  -- the source page mapped, not read-only if PTE_W is asked for, and fit for page_insert in the
  -- target: the call returns 0, the target maps the page with the permissions asked for, and only
  -- physical memory changes.
  pub sys_page_map-Inserted :
      present source_pte ≡ true
      → table source_pte < k.phys.npages
      → (writable source_pte ≡ true) ⊎ (writable perm ≡ false)
      → CanInsert k.phys (k.envs dst).pgdir dstva (table source_pte) xs
      → (t : Phys) × (sys_page_map cur srcid srcva dstid dstva perm k
          ≡ done (val 0) (record k { phys = t }))
        × Inserted k.phys t (k.envs dst).pgdir dstva (table source_pte) perm
  sys_page_map-Inserted h bound may can =
      let (t, inserted, after) = page_insert-Inserted (cur_pgdir k) perm can in
      (t, sys_page_map-runs h bound may inserted, after)
