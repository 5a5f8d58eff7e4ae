-- ===== src/Pmap/Held.antt =====
-- kern/pmap.c: what the operations on one page leave of the pages in use.
use xv6_lab.Base.{
  ℕ, suc, ◌+◌, ◌/◌, ◌^◌, ◌≤◌, ◌<◌, ◌≡◌, ◌≢◌, refl, true, false, Option, List, [], arith, ◌==◌, ◌&&◌,
  has, length, inr, ◌∙◌,
}
use xv6_lab.Machine.Mmu.{pdx, ptx, present}
use xv6_lab.Machine.Phys.{Phys, ok}
use xv6_lab.Pmap.Table.{page_insert}
use xv6_lab.Pmap.Space.{mapped, off_uvpt, table, pte_at, store_mem, IsFresh, cell-store, root_kept}
use xv6_lab.Pmap.Walk.{IsSpace, pgdir_walk-Walked}
use xv6_lab.Pmap.Unmap.{Remapped}
use xv6_lab.Pmap.Remove.{IsSpace-store}
use xv6_lab.Pmap.Insert.{entry_for, with_ref-IsSpace, written, counted, set_entry-empty}

-- A page that is allocated and neither the page directory nor a page table
pub record IsPage (s : Phys) (pgdir : ℕ) (xs : List ℕ) (p : ℕ) : Type 0 where
  pub bound : p < s.npages
  pub out : has p xs ≡ false
  pub fresh : IsFresh s.mem pgdir p

-- From `s` to `t` the entry for `va` becomes `w`, and every page keeps what it holds.
pub record Entered (s t : Phys) (pgdir va w : ℕ) (xs ys : List ℕ) : Type 0 where
  pub remapped : Remapped s t pgdir va w
  pub space : IsSpace t pgdir ys
  pub roots : (d : ℕ) → d ≢ pdx va → t.mem pgdir d ≡ s.mem pgdir d
  pub pages : (y : ℕ) → IsPage s pgdir xs y → IsPage t pgdir ys y × (t.mem y ≡ s.mem y)

-- A write to a page table changes no other page.
pub store-IsPage :
    {s : Phys} {pgdir : ℕ} {xs : List ℕ} (d i v y : ℕ)
    → d < 1024
    → mapped s.mem pgdir d ≡ true
    → IsSpace s pgdir xs
    → IsPage s pgdir xs y
    → IsPage (record s { mem = store_mem s.mem (table (s.mem pgdir d)) i v }) pgdir xs y
      × (store_mem s.mem (table (s.mem pgdir d)) i v y ≡ s.mem y)
store-IsPage {s} {pgdir} d i v y b p space page =
    let other : (y == table (s.mem pgdir d)) ≡ false =
      ground (arith, page.fresh.off_tables d b p) in
    (
      record {
        bound = page.bound;
        out = page.out;
        fresh = record {
          off_root = page.fresh.off_root;
          off_tables = rw (root_kept space.tables d b p) page.fresh.off_tables;
        };
      },
      rw other refl,
    )

-- page_insert where nothing is mapped
pub page_insert-Entered :
    {s : Phys} {pgdir p : ℕ} {xs : List ℕ} (cur : Option ℕ) (va perm : ℕ)
    → IsSpace s pgdir xs
    → off_uvpt va ≡ true
    → xs ≢ []
    → IsPage s pgdir xs p
    → (s.pages p).ref + 1 < 2 ^ 16
    → present (pte_at s.mem pgdir va) ≡ false
    → (t : Phys) × (ys : List ℕ) × (page_insert cur pgdir p va perm s ≡ ok true t)
      × Entered s t pgdir va (entry_for p perm) xs ys
      × (length xs ≤ suc (length ys))
      × ((t.pages p).ref ≡ (s.pages p).ref + 1)
      × ((y : ℕ) → has y xs ≡ false → y ≢ p → t.pages y ≡ s.pages y)
unfolding page_insert
page_insert-Entered {s} {pgdir} {p} {xs} cur va perm space off room page fits empty =
    let (e, t, ys, walk, walked) = pgdir_walk-Walked va xs space off (inr room) in
    let pte-same : pte_at t.mem pgdir va ≡ pte_at s.mem pgdir va =
      walked.same (pdx va) (ptx va) (omega arith) in
    let fits' : (t.pages p).ref + 1 < 2 ^ 16 = ground (arith, walked.pages p page.out) in
    let sp = with_ref-IsSpace p ((t.pages p).ref + 1) (walked.fewer p page.out) walked.space in
    (
      written t pgdir va p perm (counted p t),
      ys,
      rw (walk, walked.place)
          (set_entry-empty cur va p perm walked.space walked.found (walked.fewer p page.out) fits'
            (rw pte-same empty)),
      record {
        remapped = λ d i b. rw (← walked.same d i b) (
            cell-store walked.space.tables (pdx va) (ptx va) (entry_for p perm) d i (omega arith) b
              walked.found);
        space = IsSpace-store (pdx va) (ptx va) (entry_for p perm) (omega arith) walked.found sp;
        roots = λ d ne.
            let stays : (pgdir == table (t.mem pgdir (pdx va))) ≡ false =
              root_kept walked.space.tables (pdx va) (omega arith) walked.found in
            rw stays (walked.roots d ne);
        pages = λ y held.
            let kept : IsPage (counted p t) pgdir ys y = record {
              bound = ground (arith, held.bound, walked.npages);
              out = walked.fewer y held.out;
              fresh = walked.fresh y held.out held.fresh;
            } in
            let (after, same) =
              store-IsPage (pdx va) (ptx va) (entry_for p perm) y (omega arith) walked.found sp
                kept in
            (after, same ∙ walked.frame y held.out held.fresh);
      },
      walked.one_less,
      ground (arith, walked.pages p page.out),
      λ y out ne. ground (arith, walked.pages y out),
    )

pub Remapped-here :
    (s t : Phys) (pgdir va w : ℕ) → Remapped s t pgdir va w → pte_at t.mem pgdir va ≡ w
Remapped-here s t pgdir va w maps = maps (pdx va) (ptx va) (omega arith) ∙ ground arith

pub Remapped-there :
    (s t : Phys) (pgdir va w v : ℕ)
    → Remapped s t pgdir va w
    → va < 2 ^ 32
    → v < 2 ^ 32
    → va / 4096 ≢ v / 4096
    → pte_at t.mem pgdir v ≡ pte_at s.mem pgdir v
Remapped-there s t pgdir va w v maps word word' ne =
    let other : ((pdx va == pdx v) && (ptx va == ptx v)) ≡ false = ground arith in
    maps (pdx v) (ptx v) (omega arith) ∙ rw other refl
