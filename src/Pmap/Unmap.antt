-- ===== src/Pmap/Unmap.antt =====
-- kern/pmap.c: page_remove as an update of the map from pages to entries.
use xv6_lab.Base.{
  ℕ, ◌+◌, ◌<◌, ◌≡◌, ◌≢◌, refl, true, Option, List, ◌∷◌, arith, ◌==◌, ◌&&◌, if◌then◌else◌,
}
use xv6_lab.Machine.Mmu.{pdx, ptx, present}
use xv6_lab.Machine.Phys.{Phys, ok}
use xv6_lab.Pmap.Table.{page_remove, is_active}
use xv6_lab.Pmap.Space.{mapped, table, cell, pte_at, cell-store}
use xv6_lab.Pmap.Walk.{IsSpace}
use xv6_lab.Pmap.Remove.{
  CanDrop, dropped_list, removed, page_remove-removed, dropped-IsSpace, IsSpace-store, IsSpace-tlb,
}

-- The address space of `t` is that of `s` but for the page of `va`, whose entry is `w`.
abbrev pub Remapped : (s t : Phys) (pgdir va w : ℕ) → Type 0
Remapped s t pgdir va w =
    (d i : ℕ)
    → d < 1024
    → cell t.mem pgdir d i ≡ (if (pdx va == d) && (ptx va == i) then w else cell s.mem pgdir d i)

-- What page_remove leaves at a mapped page `q`.
pub record Unmapped (cur : Option ℕ) (s t : Phys) (pgdir va q : ℕ) (xs : List ℕ) : Type 0 where
  pub remapped : Remapped s t pgdir va 0
  pub counted : (t.pages q).ref + 1 ≡ (s.pages q).ref
  pub others : (p : ℕ) → p ≢ q → t.pages p ≡ s.pages p
  pub space : IsSpace t pgdir (dropped_list q s xs)
  pub tlb : t.tlb ≡ (if is_active cur pgdir then va ∷ s.tlb else s.tlb)

-- With an address space as pmap.c builds it (its own directory at UVPT, apart from which no entry
-- names it and no two entries the same table), where a page is mapped, outside the 4 MB at UVPT,
-- that is allocated, counted and none of its tables: page_remove clears that entry and no other,
-- takes one reference off the page and changes no other PageInfo, puts the page on the free list
-- if it was the last reference, keeps the structure, and invalidates the address if the address
-- space is in use.
pub page_remove-Unmapped :
    {s : Phys} {pgdir : ℕ} {xs : List ℕ} (cur : Option ℕ) (va : ℕ)
    → IsSpace s pgdir xs
    → present (pte_at s.mem pgdir va) ≡ true
    → CanDrop s pgdir xs (table (pte_at s.mem pgdir va))
    → (t : Phys) × (page_remove cur pgdir va s ≡ ok tt t)
      × Unmapped cur s t pgdir va (table (pte_at s.mem pgdir va)) xs
page_remove-Unmapped {s} {pgdir} {xs} cur va space h drop =
    let q = table (pte_at s.mem pgdir va) in
    let p : mapped s.mem pgdir (pdx va) ≡ true = ground arith in
    (
      removed cur pgdir va q s,
      page_remove-removed cur va space h drop,
      record {
        remapped = λ d i b. cell-store space.tables (pdx va) (ptx va) 0 d i (omega arith) b p;
        counted = ground (arith, drop.counted);
        others = λ r ne. ground arith;
        space =
            IsSpace-tlb _
              (IsSpace-store (pdx va) (ptx va) 0 (omega arith) p (dropped-IsSpace q space drop));
        tlb = refl;
      },
    )
