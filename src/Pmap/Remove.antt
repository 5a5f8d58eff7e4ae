-- ===== src/Pmap/Remove.antt =====
-- kern/pmap.c: page_lookup and page_remove on an address space.
use xv6_lab.Base.{
  ==-refl, ℕ, ◌-◌, ◌^◌, ◌<◌, ◌≡◌, refl, true, false, Option, none, some, List, ◌∷◌, arith, ◌==◌,
  if◌then◌else◌, has, Bool-cases, inl, inr,
}
use xv6_lab.Machine.Mmu.{pdx, ptx, present, pte_addr}
use xv6_lab.Machine.Phys.{Phys, ok, pa2page}
use xv6_lab.Pmap.Alloc.{page_decref}
use xv6_lab.Pmap.Table.{page_lookup, check_va2pa, page_remove, tlb_invalidate, is_active}
use xv6_lab.Pmap.FreeList.{
  IsFreeList, given, with_ref, page_decref-last, page_decref-more, given-IsFreeList,
  with_ref-IsFreeList,
}
use xv6_lab.Pmap.Space.{
  uvpt_index, mapped, off_uvpt, table, pte_at, store_mem, IsFresh, root_kept, IsTables-store,
}
use xv6_lab.Pmap.Walk.{IsSpace, IsFreeList-mem, kaddr_lem, walk-present, walk-absent}

pub pa2page_lem : (s : Phys) (w : ℕ) → table w < s.npages → pa2page (pte_addr w) s ≡ ok (table w) s
pa2page_lem s w h = kaddr_lem s w h

module _ {s : Phys} {pgdir : ℕ} {xs : List ℕ} (va : ℕ) (space : IsSpace s pgdir xs) where
  -- Where nothing is mapped, page_lookup returns NULL.
  pub page_lookup-none :
      off_uvpt va ≡ true
      → present (pte_at s.mem pgdir va) ≡ false
      → page_lookup pgdir va s ≡ ok none s
  unfolding page_lookup
  page_lookup-none off h = elim (Bool-cases (mapped s.mem pgdir (pdx va))) [
    | inl p ↦
        let absent : present (s.mem (table (s.mem pgdir (pdx va))) (ptx va)) ≡ false =
          ground arith in
        rw (walk-present va space false p, absent)
    | inr p ↦ rw (walk-absent s pgdir va (ground arith))
  ]

  pub pte-table :
      present (pte_at s.mem pgdir va) ≡ true
      → (mapped s.mem pgdir (pdx va) ≡ true)
        × (pte_at s.mem pgdir va ≡ s.mem (table (s.mem pgdir (pdx va))) (ptx va))
  pte-table h = elim (Bool-cases (mapped s.mem pgdir (pdx va))) [
    | inl p ↦ (p, rw p refl)
    | inr p ↦ absurd (ground arith)
  ]

  -- The same, as the code reads the page directory
  pub pte-read :
      present (pte_at s.mem pgdir va) ≡ true
      → (present (s.mem pgdir (pdx va)) ≡ true)
        × (pte_at s.mem pgdir va ≡ s.mem (table (s.mem pgdir (pdx va))) (ptx va))
  pte-read h = let (p, e) = pte-table h in (ground arith, e)

  -- Where a page is mapped, page_lookup returns it with the place of its entry.
  pub page_lookup-some :
      present (pte_at s.mem pgdir va) ≡ true
      → table (pte_at s.mem pgdir va) < s.npages
      → page_lookup pgdir va s
        ≡ ok (some (table (pte_at s.mem pgdir va), (table (s.mem pgdir (pdx va)), ptx va))) s
  unfolding page_lookup
  page_lookup-some h bound =
      let (p, e) = pte-table h in
      let w = s.mem (table (s.mem pgdir (pdx va))) (ptx va) in
      let h' : present w ≡ true = ground arith in
      let bound' : table w < s.npages = ground arith in
      rw (walk-present va space false p, e, h', pa2page_lem s w bound')

  -- What check_va2pa computes
  pub check_va2pa_lem :
      off_uvpt va ≡ true
      → check_va2pa pgdir va s
        ≡ ok
            (if present (pte_at s.mem pgdir va)
              then some (pte_addr (pte_at s.mem pgdir va))
              else none)
            s
  unfolding check_va2pa
  check_va2pa_lem off = elim (Bool-cases (mapped s.mem pgdir (pdx va))) [
    | inl p ↦
        let there : present (s.mem pgdir (pdx va)) ≡ true = ground arith in
        let other : (pdx va == uvpt_index) ≡ false = ground arith in
        rw (
          there,
          other,
          kaddr_lem s (s.mem pgdir (pdx va)) (space.tables.inside (pdx va) (omega arith) p),
        )
    | inr p ↦
        let absent : present (s.mem pgdir (pdx va)) ≡ false = ground arith in
        let other : (pdx va == uvpt_index) ≡ false = ground arith in rw (absent, other) refl
  ]

-- A page that an address space maps and whose reference can be dropped: it is allocated, counted, and
-- neither the page directory nor one of its page tables.
pub record CanDrop (s : Phys) (pgdir : ℕ) (xs : List ℕ) (q : ℕ) : Type 0 where
  pub bound : q < s.npages
  pub out : has q xs ≡ false
  pub counted : (0 < (s.pages q).ref) × ((s.pages q).ref < 2 ^ 16)
  pub fresh : IsFresh s.mem pgdir q

-- The state and the free list once a reference to page `q` is gone
abbrev pub dropped : ℕ → Phys → Phys
dropped q s = record s {
  pages =
      if (s.pages q).ref == 1
      then (given q (with_ref q 0 s)).pages
      else (with_ref q ((s.pages q).ref - 1) s).pages;
  free_list = if (s.pages q).ref == 1 then some q else s.free_list;
}

abbrev pub dropped_list : ℕ → Phys → List ℕ → List ℕ
dropped_list q s xs = if (s.pages q).ref == 1 then q ∷ xs else xs

module _ {s : Phys} {pgdir : ℕ} {xs : List ℕ} (q : ℕ) (space : IsSpace s pgdir xs)
    (drop : CanDrop s pgdir xs q) where
  pub page_decref-dropped : page_decref q s ≡ ok tt (dropped q s)
  page_decref-dropped = elim (Bool-cases ((s.pages q).ref == 1)) [
    | inl one ↦ rw one (page_decref-last s q (ground arith) (space.unlinked q drop.bound drop.out))
    | inr more ↦ rw more (page_decref-more s q drop.counted.1 (ground (arith, drop.counted)))
  ]

  dropped-IsFreeList : IsFreeList (dropped q s) (dropped_list q s xs)
  dropped-IsFreeList = elim (Bool-cases ((s.pages q).ref == 1)) [
    | inl one ↦ rw one (
        given-IsFreeList (with_ref q 0 s) q (with_ref-IsFreeList q 0 drop.out space.free) drop.out
          drop.bound (rw (==-refl q)))
    | inr more ↦ rw more (with_ref-IsFreeList q ((s.pages q).ref - 1) drop.out space.free)
  ]

  -- Dropping a reference keeps the structure.
  pub dropped-IsSpace : IsSpace (dropped q s) pgdir (dropped_list q s xs)
  dropped-IsSpace = elim (Bool-cases ((s.pages q).ref == 1)) [
    | inl one ↦ rw one (record {
      small = space.small;
      free = rw one at dropped-IsFreeList;
      unlinked = λ p b o. ground (arith, space.unlinked p);
      tables = space.tables;
      root = ground (arith, space.root, drop.fresh);
      kept = λ d b p. ground (arith, space.kept d b p, drop.fresh.off_tables d b p);
    })
    | inr more ↦ rw more (record {
      small = space.small;
      free = rw more at dropped-IsFreeList;
      unlinked = λ p b o. ground (arith, space.unlinked p);
      tables = space.tables;
      root = space.root;
      kept = space.kept;
    })
  ]

-- A write to an entry of a page table keeps the structure.
pub IsSpace-store :
    {s : Phys} {pgdir : ℕ} {xs : List ℕ} (d t v : ℕ)
    → d < 1024
    → mapped s.mem pgdir d ≡ true
    → IsSpace s pgdir xs
    → IsSpace (record s { mem = store_mem s.mem (table (s.mem pgdir d)) t v }) pgdir xs
IsSpace-store {s} {pgdir} d t v b p space = record {
  small = space.small;
  free = IsFreeList-mem _ space.free;
  unlinked = space.unlinked;
  tables = IsTables-store space.tables d t v b p;
  root = space.root;
  kept = rw (root_kept space.tables d b p) space.kept;
}

-- The free list, the page array and memory do not depend on the TLB.
pub IsSpace-tlb :
    {s : Phys} {pgdir : ℕ} {xs : List ℕ} (l : List ℕ)
    → IsSpace s pgdir xs
    → IsSpace (record s { tlb = l }) pgdir xs
IsSpace-tlb l space = record {
  small = space.small;
  free = record { chain = space.free.chain; nodup = space.free.nodup; unused = space.free.unused };
  unlinked = space.unlinked;
  tables = space.tables;
  root = space.root;
  kept = space.kept;
}

abbrev pub flushed : Option ℕ → (pgdir va : ℕ) → Phys → Phys
flushed cur pgdir va s = record s { tlb = if is_active cur pgdir then va ∷ s.tlb else s.tlb }

pub tlb_invalidate_lem :
    (cur : Option ℕ) (pgdir va : ℕ) (s : Phys)
    → tlb_invalidate cur pgdir va s ≡ ok tt (flushed cur pgdir va s)
unfolding tlb_invalidate
tlb_invalidate_lem cur pgdir va s = elim (Bool-cases (is_active cur pgdir)) [
  | inl h ↦ rw h
  | inr h ↦ rw h
]

-- The state once the page `q` that was mapped at `va` is gone
abbrev pub removed : Option ℕ → (pgdir va q : ℕ) → Phys → Phys
removed cur pgdir va q s = record (flushed cur pgdir va (dropped q s)) {
  mem = store_mem s.mem (table (s.mem pgdir (pdx va))) (ptx va) 0;
}

module _ {s : Phys} {pgdir : ℕ} {xs : List ℕ} (cur : Option ℕ) (va : ℕ)
    (space : IsSpace s pgdir xs) where
  pub page_remove-none :
      off_uvpt va ≡ true
      → present (pte_at s.mem pgdir va) ≡ false
      → page_remove cur pgdir va s ≡ ok tt s
  unfolding page_remove
  page_remove-none off h = rw (page_lookup-none va space off h)

  pub page_remove-removed :
      present (pte_at s.mem pgdir va) ≡ true
      → CanDrop s pgdir xs (table (pte_at s.mem pgdir va))
      → page_remove cur pgdir va s ≡ ok tt (removed cur pgdir va (table (pte_at s.mem pgdir va)) s)
  unfolding page_remove
  page_remove-removed h drop = rw (
    page_lookup-some va space h drop.bound,
    page_decref-dropped _ space drop,
    tlb_invalidate_lem cur pgdir va,
  )
