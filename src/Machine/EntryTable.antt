-- ===== src/Machine/EntryTable.antt =====
-- kern/entrypgdir.c: the page directory and the page table of entry.S.
use xv6_lab.Base.{
  ℕ, ◌+◌, ◌-◌, ◌*◌, ◌/◌, ◌%◌, ◌^◌, ◌<◌, ◌≡◌, Option, none, some, ◌==◌, if◌then◌else◌, arith,
}
use xv6_lab.Machine.Mmu.{pdx, ptx, pgoff, pte_p, pte_w, pte_addr, kernbase, present}

-- Entry `i` < NPTENTRIES of entry_pgtable: physical page `i`, writable. The table lists these
-- values one by one; the `|` of bits that do not overlap is a sum.
unfoldable pub entry_pgtable : ℕ → ℕ
entry_pgtable i = i * 0x1000 + pte_p + pte_w

-- The page directory, where `table` is the physical address of entry_pgtable.
unfoldable pub entry_pgdir : (table : ℕ) → ℕ → ℕ
entry_pgdir table d =
    if d == 0 then table + pte_p else if d == kernbase / 2 ^ 22 then table + pte_p + pte_w else 0

-- The translation of `va` by the hardware: `none` where the page directory or the table has no entry.
abbrev pub translate : (table va : ℕ) → Option ℕ
translate table va =
    let pde = entry_pgdir table (pdx va) in
    if present pde
    then if pte_addr pde == table then some (pte_addr (entry_pgtable (ptx va)) + pgoff va) else none
    else none

-- With its table on a page boundary, the page directory of entry.S maps the first 4 MB and the 4
-- MB from KERNBASE on to the first 4 MB of physical memory, and no other address.
pub entry_pgdir-translate :
    (table va : ℕ)
    → table % 4096 ≡ 0
    → va < 2 ^ 32
    → translate table va ≡ (
        if va / 2 ^ 22 == 0
        then some va
        else if va / 2 ^ 22 == kernbase / 2 ^ 22
        then some (va - kernbase)
        else none)
unfolding entry_pgdir entry_pgtable
entry_pgdir-translate table va h w = ground (arith, h, w)
