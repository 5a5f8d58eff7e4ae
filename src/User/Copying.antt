-- ===== src/User/Copying.antt =====
-- lib/fork.c, pgfault: what its calls do to physical memory, one after the other.
use xv6_lab.Base.{
  ℕ, ◌+◌, ◌*◌, ◌/◌, ◌^◌, ◌≤◌, ◌<◌, ◌≡◌, ◌≢◌, refl, true, false, Option, List, [], ◌∷◌, arith,
  update, has, length, ap, ◌∙◌, sym, subst,
}
use xv6_lab.Machine.Mmu.{pdx, ptx, present, pftemp, utop}
use xv6_lab.Machine.Phys.{PageInfo, Phys, ok}
use xv6_lab.Pmap.Table.{page_insert, page_remove}
use xv6_lab.Pmap.Space.{table, pte_at}
use xv6_lab.Pmap.Walk.{IsSpace}
use xv6_lab.Pmap.Insert.{entry_for}
use xv6_lab.Pmap.FreeList.{taken}
use xv6_lab.Pmap.Taken.{taken-new, taken-pte}
use xv6_lab.Pmap.Held.{IsPage, Entered, page_insert-Entered, Remapped-here, Remapped-there}
use xv6_lab.Pmap.Written.{overwritten-cell}
use xv6_lab.User.Finishing.{entry_for_lem, Copied, replaced, finished}

cons-of : (ys : List ℕ) → 1 ≤ length ys → (x : ℕ) × (zs : List ℕ) × (ys ≡ x ∷ zs)
cons-of [] h = absurd (omega arith)
cons-of (x ∷ zs) h = (x, zs, refl)

-- What the program needs before the fault: the page at `va` is `q`, in use, and its counter has room;
-- nothing is mapped at PFTEMP; two pages are free.
pub record CanCopy (s : Phys) (pgdir va q : ℕ) (xs : List ℕ) : Type 0 where
  pub space : IsSpace s pgdir xs
  pub room : 2 ≤ length xs
  pub mapped : present (pte_at s.mem pgdir va) ≡ true
  pub at : table (pte_at s.mem pgdir va) ≡ q
  pub page : IsPage s pgdir xs q
  pub counted : (0 < (s.pages q).ref) × ((s.pages q).ref + 1 < 2 ^ 16)
  pub temp : present (pte_at s.mem pgdir pftemp) ≡ false
  pub low : va < utop
  pub apart : va / 4096 ≢ pftemp / 4096

-- The state after the first call
pub record Twice (s t : Phys) (pgdir va q x : ℕ) (xs zs : List ℕ) : Type 0 where
  pub entered : Entered s t pgdir pftemp (entry_for q 5) xs (x ∷ zs)
  pub more : (t.pages q).ref ≡ (s.pages q).ref + 1
  pub others : (y : ℕ) → has y xs ≡ false → y ≢ q → t.pages y ≡ s.pages y
  pub same : pte_at t.mem pgdir va ≡ pte_at s.mem pgdir va

module _ {s : Phys} {pgdir va q : ℕ} {xs : List ℕ} (cur : Option ℕ)
    (can : CanCopy s pgdir va q xs) where
  pub twice :
      (t : Phys) × (x : ℕ) × (zs : List ℕ) × (page_insert cur pgdir q pftemp 5 s ≡ ok true t)
      × Twice s t pgdir va q x xs zs
  twice =
      let (t, ys, run, entered, less, more, others) =
        page_insert-Entered cur pftemp 5 can.space refl (λ h. ground (arith, can.room)) can.page
          can.counted.1 can.temp in
      let (x, zs, free) = cons-of ys (omega (arith, less, can.room)) in
      (
        t,
        x,
        zs,
        run,
        record {
          entered =
              subst (λ (l : List ℕ). Entered s t pgdir pftemp (entry_for q 5) xs l) free entered;
          more = more;
          others = others;
          same =
              Remapped-there s t pgdir pftemp (entry_for q 5) va entered.remapped (omega arith)
                (omega (arith, can.low)) (λ h. can.apart (sym h));
        },
      )

  module _ {t : Phys} {x : ℕ} {zs : List ℕ} (first : Twice s t pgdir va q x xs zs) where
    IsPage-through : IsPage t pgdir (x ∷ zs) q
    IsPage-through = (first.entered.pages q can.page).0

    shared_then : (1 < (t.pages q).ref) × ((t.pages q).ref < 2 ^ 16)
    shared_then = omega (arith, first.more, can.counted)

    -- The states in the middle and at the end, and what the calls in between return
    pub copied :
        (m u : Phys) × (page_insert cur pgdir x va 7 (taken true x t) ≡ ok true m)
        × (pte_at m.mem pgdir va ≡ x * 4096 + 7)
        × (pte_at m.mem pgdir pftemp ≡ q * 4096 + 5)
        × (page_remove cur pgdir pftemp (record m { mem = update m.mem x (m.mem q) }) ≡ ok tt u)
        × Copied s u pgdir va q x xs
    copied =
        let sp = first.entered.space in
        let word : va < 2 ^ 32 = omega (arith, can.low) in
        let at : table (pte_at t.mem pgdir va) ≡ q = ap table first.same ∙ can.at in
        let there : present (pte_at t.mem pgdir va) ≡ true = rw first.same can.mapped in
        let (m, run, entered, one, old, others) =
          replaced cur sp there at IsPage-through shared_then in
        let temp : pte_at t.mem pgdir pftemp ≡ entry_for q 5 =
          Remapped-here s t pgdir pftemp (entry_for q 5) first.entered.remapped in
        let (u, run', maps, ends, less, others', copy, mem) =
          finished cur sp there at IsPage-through shared_then m entered one old temp word
            can.apart in
        let pagex = taken-new sp in
        let small : x < 2 ^ 20 = omega (arith, pagex.bound, sp.small) in
        let small' : q < 2 ^ 20 = omega (arith, can.page.bound, can.space.small) in
        let pagex' = (entered.pages x pagex).0 in
        let here : pte_at m.mem pgdir va ≡ x * 4096 + 7 =
          Remapped-here (taken true x t) m pgdir va (entry_for x 7) entered.remapped
          ∙ (entry_for_lem x small).0 in
        let c : Phys = record m { mem = update m.mem x (m.mem q) } in
        let cells = λ (w : ℕ).
          overwritten-cell entered.space pagex' (m.mem q) (pdx w) (ptx w) (omega arith) in
        let temp_word : pftemp < 2 ^ 32 = omega arith in
        (
          m,
          u,
          run,
          here,
          Remapped-there (taken true x t) m pgdir va (entry_for x 7) pftemp entered.remapped word
                temp_word can.apart
              ∙ (taken-pte sp pftemp ∙ (temp ∙ (entry_for_lem q small').1)),
          run',
          record {
            private =
                Remapped-there c u pgdir pftemp 0 va maps temp_word word (λ h. can.apart (sym h))
                ∙ (cells va ∙ here);
            temporary = Remapped-here c u pgdir pftemp 0 maps;
            elsewhere = λ w b ne ne'.
                Remapped-there c u pgdir pftemp 0 w maps temp_word b (λ h. ne' (sym h))
                ∙ (cells w
                    ∙ (Remapped-there (taken true x t) m pgdir va (entry_for x 7) w entered.remapped
                          word b (λ h. ne (sym h))
                        ∙ (taken-pte sp w
                            ∙ Remapped-there s t pgdir pftemp (entry_for q 5) w
                                first.entered.remapped temp_word b (λ h. ne' (sym h)))));
            copy = copy ∙ (first.entered.pages q can.page).1;
            original = mem q IsPage-through ∙ (first.entered.pages q can.page).1;
            one =
                let nx : x ≢ q = λ h. ground (arith, IsPage-through.out) in
                ap (λ (i : PageInfo). i.ref) (others' x nx) ∙ one;
            less = omega (arith, less, first.more);
            rest = λ y pg ne.
                let (pg', same) = first.entered.pages y pg in
                let nx : y ≢ x = λ h. ground (arith, pg'.out) in
                (nx, others' y ne ∙ (others y nx ne ∙ first.others y pg.out ne), mem y pg' ∙ same);
            space = ends;
          },
        )
