-- ===== src/Pmap/Insert.antt =====
-- kern/pmap.c: page_insert as an update of the map from pages to entries.
use xv6_lab.Base.{
  ℕ, ◌+◌, ◌^◌, ◌<◌, ◌≡◌, refl, true, false, Option, some, List, arith, ◌==◌, ◌&&◌, bit_or,
  if◌then◌else◌, has, ap, ◌∙◌, fun_ext, sym, subst,
}
use xv6_lab.Machine.Mmu.{pdx, ptx, present, pte_p}
use xv6_lab.Machine.Phys.{Phys, ok, page2pa}
use xv6_lab.Pmap.Alloc.{inc16}
use xv6_lab.Pmap.Table.{set_entry}
use xv6_lab.Pmap.FreeList.{with_ref, with_ref-IsFreeList}
use xv6_lab.Pmap.Space.{mapped, Mem, table, cell, pte_at, store_mem, IsFresh, cell-store}
use xv6_lab.Pmap.Walk.{IsSpace, Walked}
use xv6_lab.Pmap.Unmap.{Remapped}
use xv6_lab.Pmap.Remove.{
  CanDrop, dropped_list, removed, flushed, page_remove-removed, dropped-IsSpace, IsSpace-store,
  IsSpace-tlb, tlb_invalidate_lem,
}

-- The entry that page_insert writes
abbrev pub entry_for : (pp perm : ℕ) → ℕ
entry_for pp perm = bit_or (bit_or (page2pa pp) perm) pte_p

pub with_ref-IsSpace :
    {s : Phys} {pgdir : ℕ} {xs : List ℕ} (p r : ℕ)
    → has p xs ≡ false
    → IsSpace s pgdir xs
    → IsSpace (with_ref p r s) pgdir xs
with_ref-IsSpace p r out space = record {
  small = space.small;
  free = with_ref-IsFreeList p r out space.free;
  unlinked = λ q b o. ground (arith, space.unlinked q);
  tables = space.tables;
  root = space.root;
  kept = space.kept;
}

flushed-CanDrop :
    {s : Phys} {pgdir q : ℕ} {xs : List ℕ} (cur : Option ℕ) (va : ℕ)
    → CanDrop s pgdir xs q
    → CanDrop (flushed cur pgdir va s) pgdir xs q
flushed-CanDrop cur va drop = record {
  bound = drop.bound;
  out = drop.out;
  counted = drop.counted;
  fresh = drop.fresh;
}

-- The place of the entry for `va`
abbrev pub place : Phys → (pgdir va : ℕ) → ℕ × ℕ
place t pgdir va = (table (t.mem pgdir (pdx va)), ptx va)

abbrev pub counted : ℕ → Phys → Phys
counted pp t = with_ref pp ((t.pages pp).ref + 1) t

-- The state at the end of page_insert on `t`, from the state `u` before its last write
abbrev pub written : Phys → (pgdir va pp perm : ℕ) → Phys → Phys
written t pgdir va pp perm u = record u {
  mem = store_mem u.mem (table (t.mem pgdir (pdx va))) (ptx va) (entry_for pp perm);
}

module _ {t : Phys} {pgdir : ℕ} {ys : List ℕ} (cur : Option ℕ) (va pp perm : ℕ)
    (space : IsSpace t pgdir ys) (found : mapped t.mem pgdir (pdx va) ≡ true)
    (out : has pp ys ≡ false) (fits : (t.pages pp).ref + 1 < 2 ^ 16) where
  inc16_lem : inc16 (t.pages pp).ref ≡ (t.pages pp).ref + 1
  inc16_lem = omega (arith, fits)

  counted-IsSpace : IsSpace (counted pp t) pgdir ys
  counted-IsSpace = with_ref-IsSpace pp ((t.pages pp).ref + 1) out space

  pub set_entry-empty :
      present (pte_at t.mem pgdir va) ≡ false
      → set_entry cur pgdir pp va perm (some (place t pgdir va)) t
        ≡ ok true (written t pgdir va pp perm (counted pp t))
  unfolding set_entry
  set_entry-empty h =
      let absent : present (t.mem (table (t.mem pgdir (pdx va))) (ptx va)) ≡ false = ground arith in
      rw (inc16_lem, absent)

  pub set_entry-full :
      present (pte_at t.mem pgdir va) ≡ true
      → CanDrop (counted pp t) pgdir ys (table (pte_at t.mem pgdir va))
      → set_entry cur pgdir pp va perm (some (place t pgdir va)) t
        ≡ ok true (
            written t pgdir va pp perm (
              removed cur pgdir va
                (table (pte_at t.mem pgdir va))
                (flushed cur pgdir va (counted pp t))))
  unfolding set_entry
  set_entry-full h drop =
      let there : present (t.mem (table (t.mem pgdir (pdx va))) (ptx va)) ≡ true = ground arith in
      rw (
        inc16_lem,
        there,
        tlb_invalidate_lem cur pgdir va (counted pp t),
        page_remove-removed cur va (IsSpace-tlb _ counted-IsSpace) h (flushed-CanDrop cur va drop),
      )

store_mem-store_mem :
    (m : Mem) (p i a b : ℕ) → store_mem (store_mem m p i a) p i b ≡ store_mem m p i b
store_mem-store_mem m p i a b = fun_ext λ q. fun_ext λ j. ground arith

-- What page_insert leaves.
pub record Inserted (s t : Phys) (pgdir va pp perm : ℕ) : Type 0 where
  pub remapped : Remapped s t pgdir va (entry_for pp perm)
  pub counted : (t.pages pp).ref ≡ (
      if present (pte_at s.mem pgdir va) && (table (pte_at s.mem pgdir va) == pp)
      then (s.pages pp).ref
      else (s.pages pp).ref + 1)
  pub space : (zs : List ℕ) × IsSpace t pgdir zs
  pub npages : t.npages ≡ s.npages
  pub frame : t.mem pp ≡ s.mem pp

module _ {s t : Phys} {pgdir : ℕ} {xs ys : List ℕ} {e : ℕ × ℕ} (cur : Option ℕ) (va pp perm : ℕ)
    (walked : Walked s t pgdir va xs ys e) (out : has pp xs ≡ false)
    (apart : IsFresh s.mem pgdir pp) (fits : (s.pages pp).ref + 1 < 2 ^ 16) where
  open walked use {found, space, same, pages, fewer}

  fits' : (t.pages pp).ref + 1 < 2 ^ 16
  fits' = ground (arith, pages pp out)

  pte-same : pte_at t.mem pgdir va ≡ pte_at s.mem pgdir va
  pte-same = same (pdx va) (ptx va) (omega arith)

  remap :
      (d i : ℕ)
      → d < 1024
      → cell (store_mem t.mem (table (t.mem pgdir (pdx va))) (ptx va) (entry_for pp perm)) pgdir d i
        ≡ (if (pdx va == d) && (ptx va == i) then entry_for pp perm else cell s.mem pgdir d i)
  remap d i b =
      rw (← same d i b)
        (cell-store space.tables (pdx va) (ptx va) (entry_for pp perm) d i (omega arith) b found)

  kept : (v : ℕ) → store_mem t.mem (table (t.mem pgdir (pdx va))) (ptx va) v pp ≡ t.mem pp
  kept v =
      let f = walked.fresh pp out apart in
      let other : (pp == table (t.mem pgdir (pdx va))) ≡ false =
        ground (arith, f.off_tables (pdx va) (omega arith) found) in
      rw other refl

  pub insert-empty :
      present (pte_at s.mem pgdir va) ≡ false
      → (u : Phys) × (set_entry cur pgdir pp va perm (some e) t ≡ ok true u)
        × Inserted s u pgdir va pp perm
  insert-empty h = (
    written t pgdir va pp perm (counted pp t),
    rw walked.place
        (set_entry-empty cur va pp perm space found (fewer pp out) fits' (rw pte-same h)),
    record {
      remapped = remap;
      counted = rw h (ground (arith, pages pp out));
      space = (
        ys,
        IsSpace-store (pdx va) (ptx va) _ (omega arith) found
            (with_ref-IsSpace pp ((t.pages pp).ref + 1) (fewer pp out) space),
      );
      npages = walked.npages;
      frame = kept (entry_for pp perm) ∙ walked.frame pp out apart;
    },
  )

  -- Where nothing is mapped, page_insert takes no page from the free list but the one for a page table.
  pub insert-onto :
      present (pte_at s.mem pgdir va) ≡ false
      → (u : Phys) × (set_entry cur pgdir pp va perm (some e) t ≡ ok true u)
        × Remapped s u pgdir va (entry_for pp perm)
        × IsSpace u pgdir ys
  insert-onto h = (
    written t pgdir va pp perm (counted pp t),
    rw walked.place
        (set_entry-empty cur va pp perm space found (fewer pp out) fits' (rw pte-same h)),
    remap,
    IsSpace-store (pdx va) (ptx va) _ (omega arith) found
        (with_ref-IsSpace pp ((t.pages pp).ref + 1) (fewer pp out) space),
  )

  counted-CanDrop :
      CanDrop s pgdir xs (table (pte_at s.mem pgdir va))
      → CanDrop (counted pp t) pgdir ys (table (pte_at s.mem pgdir va))
  counted-CanDrop drop =
      let q = table (pte_at s.mem pgdir va) in
      record {
        bound = ground (arith, drop.bound, walked.npages);
        out = fewer q drop.out;
        counted = ground (arith, pages q drop.out, drop.counted, fits');
        fresh = walked.fresh q drop.out drop.fresh;
      }

  pub insert-full :
      present (pte_at s.mem pgdir va) ≡ true
      → CanDrop s pgdir xs (table (pte_at s.mem pgdir va))
      → (u : Phys) × (set_entry cur pgdir pp va perm (some e) t ≡ ok true u)
        × Inserted s u pgdir va pp perm
  insert-full h drop =
      let q = table (pte_at s.mem pgdir va) in
      let drop' : CanDrop (counted pp t) pgdir ys (table (pte_at t.mem pgdir va)) =
        rw pte-same (counted-CanDrop drop) in
      let sp = with_ref-IsSpace pp ((t.pages pp).ref + 1) (fewer pp out) space in
      let sp' =
        dropped-IsSpace _ (IsSpace-tlb (flushed cur pgdir va (counted pp t)).tlb sp)
          (flushed-CanDrop cur va drop') in
      let twice =
        store_mem-store_mem t.mem (table (t.mem pgdir (pdx va))) (ptx va) 0 (entry_for pp perm) in
      let end : Phys =
        removed cur pgdir va (table (pte_at t.mem pgdir va))
          (flushed cur pgdir va (counted pp t)) in
      (
        written t pgdir va pp perm (
            removed cur pgdir va (table (pte_at t.mem pgdir va))
              (flushed cur pgdir va (counted pp t))),
        rw walked.place
            (set_entry-full cur va pp perm space found (fewer pp out) fits' (rw pte-same h) drop'),
        record {
          remapped = λ d i b. ap (λ (m : Mem). cell m pgdir d i) twice ∙ remap d i b;
          counted = ground (arith, pages pp out, pages q drop.out, pte-same, drop.counted);
          space = (
            dropped_list (table (pte_at t.mem pgdir va)) (flushed cur pgdir va (counted pp t)) ys,
            subst
                (λ (m : Mem).
                  IsSpace (record end { mem = m }) pgdir
                    (dropped_list (table (pte_at t.mem pgdir va))
                      (flushed cur pgdir va (counted pp t)) ys))
                (sym twice)
                (IsSpace-tlb end.tlb
                  (IsSpace-store (pdx va) (ptx va) (entry_for pp perm) (omega arith) found sp')),
          );
          npages = walked.npages;
          frame =
              ap (λ (m : Mem). m pp) twice ∙ kept (entry_for pp perm) ∙ walked.frame pp out apart;
        },
      )
