-- ===== src/Pmap/Replacing.antt =====
-- kern/pmap.c: page_remove and page_insert where a page is mapped, and what they leave of the pages in use.
use xv6_lab.Base.{
  ℕ, ◌+◌, ◌^◌, ◌<◌, ◌≡◌, ◌≢◌, refl, true, false, not, Option, List, arith, ◌==◌, ◌&&◌, has,
  if◌then◌else◌, ap, ◌∙◌, subst,
}
use xv6_lab.Machine.Mmu.{pdx, ptx, present}
use xv6_lab.Machine.Phys.{Phys, ok}
use xv6_lab.Pmap.Table.{page_insert, page_remove}
use xv6_lab.Pmap.Space.{uvpt_index, mapped, table, cell, pte_at, store_mem, cell-store, root_kept}
use xv6_lab.Pmap.Walk.{IsSpace, walk-present}
use xv6_lab.Pmap.Unmap.{Remapped}
use xv6_lab.Pmap.Remove.{
  CanDrop, pte-table, dropped, dropped_list, removed, flushed, page_remove-removed, dropped-IsSpace,
  IsSpace-store, IsSpace-tlb,
}
use xv6_lab.Pmap.Insert.{entry_for, with_ref-IsSpace, written, counted, set_entry-full}
use xv6_lab.Pmap.Held.{IsPage, Entered, store-IsPage}

module _ {s : Phys} {pgdir q : ℕ} {xs : List ℕ} (cur : Option ℕ) (va : ℕ)
    (space : IsSpace s pgdir xs) (found : mapped s.mem pgdir (pdx va) ≡ true)
    (drop : CanDrop s pgdir xs q) where
  removed-IsSpace : IsSpace (removed cur pgdir va q s) pgdir (dropped_list q s xs)
  removed-IsSpace =
      IsSpace-tlb _
        (IsSpace-store (pdx va) (ptx va) 0 (omega arith) found (dropped-IsSpace q space drop))

  removed-IsPage :
      (y : ℕ)
      → has y (dropped_list q s xs) ≡ false
      → IsPage s pgdir xs y
      → IsPage (removed cur pgdir va q s) pgdir (dropped_list q s xs) y
        × ((removed cur pgdir va q s).mem y ≡ s.mem y)
  removed-IsPage y out page =
      let (after, same) = store-IsPage (pdx va) (ptx va) 0 y (omega arith) found space page in
      (record { bound = after.bound; out = out; fresh = after.fresh }, same)

  root-removed : (removed cur pgdir va q s).mem pgdir ≡ s.mem pgdir
  root-removed = rw (root_kept space.tables (pdx va) (omega arith) found) refl

-- page_remove of a page that is mapped and counted
pub page_remove-Entered :
    {s : Phys} {pgdir : ℕ} {xs : List ℕ} (cur : Option ℕ) (va q : ℕ)
    → IsSpace s pgdir xs
    → present (pte_at s.mem pgdir va) ≡ true
    → table (pte_at s.mem pgdir va) ≡ q
    → CanDrop s pgdir xs q
    → (t : Phys) × (page_remove cur pgdir va s ≡ ok tt t)
      × Remapped s t pgdir va 0
      × IsSpace t pgdir (dropped_list q s xs)
      × ((t.pages q).ref + 1 ≡ (s.pages q).ref)
      × ((y : ℕ) → y ≢ q → t.pages y ≡ s.pages y)
      × ((y : ℕ) → IsPage s pgdir xs y → t.mem y ≡ s.mem y)
page_remove-Entered {s} {pgdir} {xs} cur va q space mapped at drop =
    let found = (pte-table va space mapped).0 in
    (
      removed cur pgdir va q s,
      rw (← at) (page_remove-removed cur va space mapped (rw at drop)),
      λ d i b. cell-store space.tables (pdx va) (ptx va) 0 d i (omega arith) b found,
      removed-IsSpace cur va space found drop,
      ground (arith, drop.counted),
      λ y ne. ground arith,
      λ y page. (store-IsPage (pdx va) (ptx va) 0 y (omega arith) found space page).1,
    )

-- What a write to entry `i` of the page table that `pde` names leaves
abbrev Stored : (s : Phys) (pgdir d i v : ℕ) → List ℕ → (pde : ℕ) → Type 0
Stored s pgdir d i v xs pde =
    IsSpace (record s { mem = store_mem s.mem (table pde) i v }) pgdir xs
    × ((d' i' : ℕ)
        → d' < 1024
        → cell (store_mem s.mem (table pde) i v) pgdir d' i'
          ≡ (if (d == d') && (i == i') then v else cell s.mem pgdir d' i'))
    × ((y : ℕ)
        → IsPage s pgdir xs y
        → IsPage (record s { mem = store_mem s.mem (table pde) i v }) pgdir xs y
          × (store_mem s.mem (table pde) i v y ≡ s.mem y))

store-Stored :
    {s : Phys} {pgdir : ℕ} {xs : List ℕ} (d i v pde : ℕ)
    → s.mem pgdir d ≡ pde
    → d < 1024
    → (not (d == uvpt_index) && present pde) ≡ true
    → IsSpace s pgdir xs
    → Stored s pgdir d i v xs pde
store-Stored {s} {pgdir} {xs} d i v pde at b p space =
    let p' : mapped s.mem pgdir d ≡ true = rw at p in
    subst (λ (w : ℕ). Stored s pgdir d i v xs w) at
      (
        IsSpace-store d i v b p' space,
        λ d' i' b'. cell-store space.tables d i v d' i' b b' p',
        λ y page. store-IsPage d i v y b p' space page,
      )

-- page_insert where a page `q` is mapped that has references left without this one
page_insert-over :
    {s : Phys} {pgdir x q : ℕ} {xs : List ℕ} (cur : Option ℕ) (va perm : ℕ)
    → IsSpace s pgdir xs
    → IsPage s pgdir xs x
    → (s.pages x).ref + 1 < 2 ^ 16
    → present (pte_at s.mem pgdir va) ≡ true
    → table (pte_at s.mem pgdir va) ≡ q
    → CanDrop (counted x s) pgdir xs q
    → dropped_list q (counted x s) xs ≡ xs
    → (t : Phys) × (page_insert cur pgdir x va perm s ≡ ok true t)
      × Entered s t pgdir va (entry_for x perm) xs xs
      × ((y : ℕ) → t.pages y ≡ (dropped q (counted x s)).pages y)
unfolding page_insert
page_insert-over {s} {pgdir} {x} {q} {xs} cur va perm space page fits mapped at drop more =
    let found = (pte-table va space mapped).0 in
    let f : Phys = flushed cur pgdir va (counted x s) in
    let sp : IsSpace f pgdir xs =
      IsSpace-tlb _ (with_ref-IsSpace x ((s.pages x).ref + 1) page.out space) in
    let dropf : CanDrop f pgdir xs q = record {
      bound = drop.bound;
      out = drop.out;
      counted = drop.counted;
      fresh = drop.fresh;
    } in
    let r : Phys = removed cur pgdir va q f in
    let spr : IsSpace r pgdir xs =
      subst (λ (ys : List ℕ). IsSpace r pgdir ys) more (removed-IsSpace cur va sp found dropf) in
    let root : r.mem pgdir (pdx va) ≡ s.mem pgdir (pdx va) =
      ap (λ (g : ℕ → ℕ). g (pdx va)) (root-removed cur va sp found dropf) in
    let (spt, cells, kept) =
      store-Stored (pdx va) (ptx va) (entry_for x perm) (s.mem pgdir (pdx va)) root (omega arith)
        found spr in
    (
      written s pgdir va x perm r,
      rw (walk-present va space true found) (
          set_entry-full cur va x perm space found page.out fits mapped (rw at drop)
          ∙ ap (λ (p : ℕ). ok true (written s pgdir va x perm (removed cur pgdir va p f))) at),
      record {
        remapped = λ d i b.
            cells d i b
            ∙ ground (arith, cell-store space.tables (pdx va) (ptx va) 0 d i (omega arith) b found);
        space = spt;
        roots = λ d ne. rw (root_kept space.tables (pdx va) (omega arith) found) refl;
        pages = λ y pg.
            let pgf : IsPage f pgdir xs y = record {
              bound = pg.bound;
              out = pg.out;
              fresh = pg.fresh;
            } in
            let (pgr, same) = removed-IsPage cur va sp found dropf y (rw more pg.out) pgf in
            let pgr' : IsPage r pgdir xs y =
              subst (λ (ys : List ℕ). IsPage r pgdir ys y) more pgr in
            let (pgt, same') = kept y pgr' in (pgt, same' ∙ same);
      },
      λ y. refl,
    )

-- The page `q` has other references, and goes for page `x`.
pub page_insert-replaces :
    {s : Phys} {pgdir x q : ℕ} {xs : List ℕ} (cur : Option ℕ) (va perm : ℕ)
    → IsSpace s pgdir xs
    → IsPage s pgdir xs x
    → (s.pages x).ref + 1 < 2 ^ 16
    → present (pte_at s.mem pgdir va) ≡ true
    → table (pte_at s.mem pgdir va) ≡ q
    → IsPage s pgdir xs q
    → (1 < (s.pages q).ref) × ((s.pages q).ref < 2 ^ 16)
    → x ≢ q
    → (t : Phys) × (page_insert cur pgdir x va perm s ≡ ok true t)
      × Entered s t pgdir va (entry_for x perm) xs xs
      × ((t.pages x).ref ≡ (s.pages x).ref + 1)
      × ((t.pages q).ref + 1 ≡ (s.pages q).ref)
      × ((y : ℕ) → y ≢ x → y ≢ q → t.pages y ≡ s.pages y)
page_insert-replaces {s} {pgdir} {x} {q} {xs} cur va perm space page fits mapped at held shared ne =
    let drop : CanDrop (counted x s) pgdir xs q = record {
      bound = held.bound;
      out = held.out;
      counted = ground (arith, shared);
      fresh = held.fresh;
    } in
    let more : dropped_list q (counted x s) xs ≡ xs = ground (arith, shared) in
    let (t, run, entered, pages) =
      page_insert-over cur va perm space page fits mapped at drop more in
    (
      t,
      run,
      entered,
      ground (arith, shared, pages x),
      ground (arith, shared, pages q),
      λ y nx nq. ground (arith, shared, pages y),
    )

-- The page is there already, and gets other permissions.
pub page_insert-again :
    {s : Phys} {pgdir q : ℕ} {xs : List ℕ} (cur : Option ℕ) (va perm : ℕ)
    → IsSpace s pgdir xs
    → IsPage s pgdir xs q
    → (0 < (s.pages q).ref) × ((s.pages q).ref + 1 < 2 ^ 16)
    → present (pte_at s.mem pgdir va) ≡ true
    → table (pte_at s.mem pgdir va) ≡ q
    → (t : Phys) × (page_insert cur pgdir q va perm s ≡ ok true t)
      × Entered s t pgdir va (entry_for q perm) xs xs
      × ((t.pages q).ref ≡ (s.pages q).ref)
      × ((y : ℕ) → y ≢ q → t.pages y ≡ s.pages y)
page_insert-again {s} {pgdir} {q} {xs} cur va perm space held counts mapped at =
    let drop : CanDrop (counted q s) pgdir xs q = record {
      bound = held.bound;
      out = held.out;
      counted = ground (arith, counts);
      fresh = held.fresh;
    } in
    let more : dropped_list q (counted q s) xs ≡ xs = ground (arith, counts) in
    let (t, run, entered, pages) =
      page_insert-over cur va perm space held counts.1 mapped at drop more in
    (t, run, entered, ground (arith, counts, pages q), λ y ne. ground (arith, counts, pages y))
