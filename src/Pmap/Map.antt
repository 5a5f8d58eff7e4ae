-- ===== src/Pmap/Map.antt =====
-- kern/pmap.c: what page_insert promises, and that page_lookup and check_va2pa see it.
use xv6_lab.Base.{
  ℕ, ◌+◌, ◌^◌, ◌<◌, ◌≡◌, true, false, Option, some, List, [], arith, bit_or, has, Bool-cases, inl,
  inr, ap, ◌∙◌, subst,
}
use xv6_lab.Base.Bits.{bit_or_step, bit_or-zero, bit_or-page}
use xv6_lab.Machine.Mmu.{pdx, ptx, present, pte_addr}
use xv6_lab.Machine.Phys.{Phys, ok, page2pa}
use xv6_lab.Pmap.Table.{page_insert, set_entry, page_lookup, check_va2pa}
use xv6_lab.Pmap.Space.{off_uvpt, IsFresh, table, pte_at}
use xv6_lab.Pmap.Walk.{IsSpace, HasRoom, pgdir_walk-Walked, walk-empty}
use xv6_lab.Pmap.Remove.{CanDrop, page_lookup-some, check_va2pa_lem}
use xv6_lab.Pmap.Insert.{Inserted, entry_for, insert-empty, insert-full}

-- What page_insert needs of the page `pp`, with `xs` the free list: `pp` is allocated, is not the
-- page directory or one of its page tables, and its counter does not overflow; a page table is
-- there or can be made; a page that is mapped at `va` already can lose a reference.
pub record CanInsert (s : Phys) (pgdir va pp : ℕ) (xs : List ℕ) : Type 0 where
  pub space : IsSpace s pgdir xs
  pub off : off_uvpt va ≡ true
  pub room : HasRoom s pgdir va xs
  pub out : has pp xs ≡ false
  pub apart : IsFresh s.mem pgdir pp
  pub fits : (s.pages pp).ref + 1 < 2 ^ 16
  pub old :
      present (pte_at s.mem pgdir va) ≡ true → CanDrop s pgdir xs (table (pte_at s.mem pgdir va))

-- With an address space as pmap.c builds it (its own directory at UVPT, apart from which no entry
-- names it and no two entries the same table), a page that is allocated, is none of its tables and
-- whose counter does not overflow, an address outside the 4 MB at UVPT, a page table for it or a
-- free page to make one, and a page mapped there before that can lose a reference: page_insert
-- succeeds, gives the page of va the entry made of the page and the permissions, changes no other
-- translation outside the 4 MB at UVPT and not what the page holds, counts the reference (none if
-- the page was mapped there already) and keeps the structure of the page tables.
pub page_insert-Inserted :
    {s : Phys} {pgdir va pp : ℕ} {xs : List ℕ} (cur : Option ℕ) (perm : ℕ)
    → CanInsert s pgdir va pp xs
    → (t : Phys) × (page_insert cur pgdir pp va perm s ≡ ok true t) × Inserted s t pgdir va pp perm
unfolding page_insert
page_insert-Inserted {s} {pgdir} {va} {pp} {xs} cur perm can =
    let (e, t, ys, walk, walked) = pgdir_walk-Walked va xs can.space can.off can.room in
    rw walk (elim (Bool-cases (present (pte_at s.mem pgdir va))) [
      | inl h ↦ insert-full cur va pp perm walked can.out can.apart can.fits h (can.old h)
      | inr h ↦ insert-empty cur va pp perm walked can.out can.apart can.fits h
    ])

-- Without a page table for `va` and without a free page, page_insert returns -E_NO_MEM and changes
-- nothing.
pub page_insert-no_mem :
    {s : Phys} {pgdir : ℕ} (cur : Option ℕ) (va pp perm : ℕ)
    → IsSpace s pgdir []
    → present (s.mem pgdir (pdx va)) ≡ false
    → page_insert cur pgdir pp va perm s ≡ ok false s
unfolding page_insert set_entry
page_insert-no_mem cur va pp perm space p = rw (walk-empty va space p)

pub entry_for-present : (pp perm : ℕ) → present (entry_for pp perm) ≡ true
entry_for-present pp perm = ground (arith, bit_or_step (bit_or (page2pa pp) perm) 1)

pub entry_for-table : (pp perm : ℕ) → pp < 2 ^ 20 → perm < 4096 → table (entry_for pp perm) ≡ pp
entry_for-table pp perm small flags =
    ground (
      arith,
      bit_or-page (bit_or (page2pa pp) perm) 1,
      bit_or-page (page2pa pp) perm,
      bit_or-zero pp,
    )

-- Under the conditions of page_insert, for a page of physical memory and flags in the low 12 bits:
-- after page_insert, page_lookup finds the page at va and check_va2pa gives its physical address.
pub page_lookup-page_insert :
    {s : Phys} {pgdir va pp : ℕ} {xs : List ℕ} (cur : Option ℕ) (perm : ℕ)
    → CanInsert s pgdir va pp xs
    → pp < s.npages
    → perm < 4096
    → (t : Phys) × (page_insert cur pgdir pp va perm s ≡ ok true t)
      × (page_lookup pgdir va t ≡ ok (some (pp, (table (t.mem pgdir (pdx va)), ptx va))) t)
      × (check_va2pa pgdir va t ≡ ok (some (page2pa pp)) t)
page_lookup-page_insert {s} {pgdir} {va} {pp} cur perm can bound flags =
    let (t, inserted, after) = page_insert-Inserted cur perm can in
    let (zs, space) = after.space in
    let small : pp < 2 ^ 20 = omega (arith, bound, can.space.small) in
    let at : pte_at t.mem pgdir va ≡ entry_for pp perm =
      ground (arith, after.remapped (pdx va) (ptx va)) in
    let there : present (pte_at t.mem pgdir va) ≡ true = rw at (entry_for-present pp perm) in
    let page : table (pte_at t.mem pgdir va) ≡ pp = rw at (entry_for-table pp perm small flags) in
    let inside : table (pte_at t.mem pgdir va) < t.npages = ground (arith, page, after.npages) in
    let addr : pte_addr (pte_at t.mem pgdir va) ≡ page2pa pp = ground (arith, page) in
    (
      t,
      inserted,
      subst (λ p. page_lookup pgdir va t ≡ ok (some (p, (table (t.mem pgdir (pdx va)), ptx va))) t)
          page (page_lookup-some va space there inside),
      check_va2pa_lem va space can.off ∙ ap (λ r. ok r t) (rw (there, addr)),
    )
