-- ===== src/Pmap/Table.antt =====
-- kern/pmap.c: pgdir_walk, boot_map_region, page_insert, page_lookup, page_remove, tlb_invalidate,
-- mmio_map_region and check_va2pa.
use xv6_lab.Base.{
  ℕ, zero, suc, ◌+◌, ◌-◌, ◌/◌, ◌^◌, Bool, true, false, Option, none, some, ◌∷◌, bit_or, leb, ◌==◌,
  if◌then◌else◌,
}
use xv6_lab.Machine.Mmu.{
  u32, pgsize, pdx, ptx, pte_p, pte_w, pte_u, pte_pwt, pte_pcd, pte_addr, present, round_down,
  round_up, mmiolim,
}
use xv6_lab.Machine.Phys.{
  M, ok, panic, pure, ◌>>=◌, ◌>>◌, get, set_page, load, store, page2pa, pa2page, kaddr,
}
use xv6_lab.Pmap.Alloc.{page_alloc, page_decref, inc16}

-- The entry of the page directory `pgdir` for a page table at physical page `p`.
abbrev pub pde_for : ℕ → ℕ
pde_for p = bit_or (bit_or (bit_or (page2pa p) pte_p) pte_w) pte_u

-- `&page_base[PTX(va)]`
abbrev pub entry_in : ℕ → ℕ → M (Option (ℕ × ℕ))
entry_in pde va = do table ← kaddr (pte_addr pde); pure (some (table, ptx va))

-- What pgdir_walk does with the page for a new page table.
unfoldable pub install : ℕ → ℕ → Option ℕ → M (Option (ℕ × ℕ))
install pgdir va none = pure none
install pgdir va (some p) = do
  s ← get
  set_page p (record { link = (s.pages p).link; ref = inc16 (s.pages p).ref })
  store (pgdir, pdx va) (pde_for p)
  entry_in (pde_for p) va

unfoldable pub pgdir_walk : ℕ → ℕ → Bool → M (Option (ℕ × ℕ))
pgdir_walk pgdir va create = do
  pde ← load (pgdir, pdx va)
  if present pde
      then entry_in pde va
      else (if create then (do new ← page_alloc true; install pgdir va new) else pure none)

-- The loop of boot_map_region, with the number of rounds that are left. The code does not test the
-- pointer that pgdir_walk gives: at NULL the write faults.
unfoldable pub boot_map_rounds : ℕ → (pgdir va pa perm : ℕ) → M (Unit {0})
boot_map_rounds zero pgdir va pa perm = pure tt
boot_map_rounds (suc n) pgdir va pa perm = do
  entry ← pgdir_walk pgdir va true
  elim entry [ none ↦ λ _. panic | some e ↦ store e (bit_or (bit_or pa perm) pte_p) ]
  boot_map_rounds n pgdir (u32 (va + pgsize)) (u32 (pa + pgsize)) perm

-- `for (i = 0; i < size; i += PGSIZE)` makes one round for each page that `size` begins.
unfoldable pub boot_map_region : (pgdir va size pa perm : ℕ) → M (Unit {0})
boot_map_region pgdir va size pa perm = boot_map_rounds ((size + 4095) / pgsize) pgdir va pa perm

-- `pte_store` is the second part of the result.
unfoldable pub page_lookup : ℕ → ℕ → M (Option (ℕ × (ℕ × ℕ)))
page_lookup pgdir va = do
  entry ← pgdir_walk pgdir va false
  elim entry [
    | none ↦ pure none
    | some e ↦ do
      pte ← load e
      if present pte then (do res ← pa2page (pte_addr pte); pure (some (res, e))) else pure none
  ]

-- The physical address that the page tables give for `va`; `~0` is `none`.
unfoldable pub check_va2pa : ℕ → ℕ → M (Option ℕ)
check_va2pa pgdir va = do
  pde ← load (pgdir, pdx va)
  if present pde
      then (do
        p ← kaddr (pte_addr pde)
        pte ← load (p, ptx va)
        pure (if present pte then some (pte_addr pte) else none))
      else pure none

-- `!curenv || curenv->env_pgdir == pgdir`
abbrev pub is_active : Option ℕ → ℕ → Bool
is_active none pgdir = true
is_active (some d) pgdir = d == pgdir

module _ (cur : Option ℕ) where
  unfoldable pub tlb_invalidate : ℕ → ℕ → M (Unit {0})
  tlb_invalidate pgdir va s =
      if is_active cur pgdir then ok tt (record s { tlb = va ∷ s.tlb }) else ok tt s

  unfoldable pub page_remove : ℕ → ℕ → M (Unit {0})
  page_remove pgdir va = do
    found ← page_lookup pgdir va
    elim found [
      | none ↦ pure tt
      | some (page, pte) ↦ do page_decref page; tlb_invalidate pgdir va; store pte 0
    ]

  -- What page_insert does with the pointer that pgdir_walk gives. `false` is -E_NO_MEM.
  unfoldable pub set_entry : (pgdir pp va perm : ℕ) → Option (ℕ × ℕ) → M Bool
  set_entry pgdir pp va perm none = pure false
  set_entry pgdir pp va perm (some e) = do
    s ← get
    set_page pp (record { link = (s.pages pp).link; ref = inc16 (s.pages pp).ref })
    old ← load e
    if present old then tlb_invalidate pgdir va >> page_remove pgdir va else pure tt
    store e (bit_or (bit_or (page2pa pp) perm) pte_p)
    pure true

  unfoldable pub page_insert : (pgdir pp va perm : ℕ) → M Bool
  page_insert pgdir pp va perm = do
    entry ← pgdir_walk pgdir va true
    set_entry pgdir pp va perm entry

-- The static variable `base` goes in and comes out, with the base of the reserved region.
unfoldable pub mmio_map_region : (kern_pgdir base pa size : ℕ) → M (ℕ × ℕ)
mmio_map_region kern_pgdir base pa size =
    let top = round_up (u32 (pa + size)) pgsize in
    let pa' = round_down pa pgsize in
    let len = u32 (top + 2 ^ 32 - pa') in
    if leb mmiolim (u32 (base + len)) then (λ _. panic) else do
      boot_map_region kern_pgdir base len pa' (bit_or (bit_or pte_pcd pte_pwt) pte_w)
      pure (u32 (u32 (base + len) + 2 ^ 32 - len), u32 (base + len))
