-- ===== src/User/Finishing.antt =====
-- lib/fork.c, pgfault: the last calls, from the state in which the old page is mapped at PFTEMP too.
use xv6_lab.Base.{
  ==-refl, ℕ, ◌+◌, ◌*◌, ◌/◌, ◌^◌, ◌<◌, ◌≡◌, ◌≢◌, true, false, Option, List, ◌∷◌, arith, ◌==◌,
  update, ap, ◌∙◌,
}
use xv6_lab.Base.Bits.{bit_or-Fields, bit_or-zero}
use xv6_lab.Machine.Mmu.{pdx, ptx, present, pftemp}
use xv6_lab.Machine.Phys.{PageInfo, Phys, ok}
use xv6_lab.Pmap.Table.{page_insert, page_remove}
use xv6_lab.Pmap.Space.{table, pte_at}
use xv6_lab.Pmap.Walk.{IsSpace}
use xv6_lab.Pmap.Insert.{entry_for}
use xv6_lab.Pmap.FreeList.{taken}
use xv6_lab.Pmap.Unmap.{Remapped}
use xv6_lab.Pmap.Taken.{taken-IsSpace, taken-new, taken-pte, taken-IsPage}
use xv6_lab.Pmap.Held.{IsPage, Entered, Remapped-there}
use xv6_lab.Pmap.Replacing.{page_insert-replaces, page_remove-Entered}
use xv6_lab.Pmap.Written.{overwritten, overwritten-cell, overwritten-IsSpace, overwritten-IsPage}

-- The entry made of page `p` and flags below 8
pub entry_for_lem :
    (p : ℕ) → p < 2 ^ 20 → (entry_for p 7 ≡ p * 4096 + 7) × (entry_for p 5 ≡ p * 4096 + 5)
entry_for_lem p small = ground (
  arith,
  bit_or-Fields 12 p 0 0 7 (omega arith) (omega arith),
  bit_or-Fields 12 p 0 0 5 (omega arith) (omega arith),
  bit_or-Fields 12 p 0 7 1 (omega arith) (omega arith),
  bit_or-Fields 12 p 0 5 1 (omega arith) (omega arith),
  bit_or-zero p,
)

-- Page `q` was copied to page `x`, which is mapped, writable, at `va`, and loses a reference.
pub record Copied (s t : Phys) (pgdir va q x : ℕ) (xs : List ℕ) : Type 0 where
  pub private : pte_at t.mem pgdir va ≡ x * 4096 + 7
  pub temporary : pte_at t.mem pgdir pftemp ≡ 0
  pub elsewhere :
      (w : ℕ)
      → w < 2 ^ 32
      → w / 4096 ≢ va / 4096
      → w / 4096 ≢ pftemp / 4096
      → pte_at t.mem pgdir w ≡ pte_at s.mem pgdir w
  pub copy : t.mem x ≡ s.mem q
  pub original : t.mem q ≡ s.mem q
  pub one : (t.pages x).ref ≡ 1
  pub less : (t.pages q).ref + 1 ≡ (s.pages q).ref
  pub rest :
      (y : ℕ)
      → IsPage s pgdir xs y
      → y ≢ q
      → (y ≢ x) × (t.pages y ≡ s.pages y) × (t.mem y ≡ s.mem y)
  pub space : (zs : List ℕ) × IsSpace t pgdir zs

-- From the state in which page `q` is mapped at PFTEMP, too: the last three calls of pgfault
module _ {s : Phys} {pgdir va q x : ℕ} {xs : List ℕ} (cur : Option ℕ)
    (space : IsSpace s pgdir (x ∷ xs)) (mapped : present (pte_at s.mem pgdir va) ≡ true)
    (at : table (pte_at s.mem pgdir va) ≡ q) (page : IsPage s pgdir (x ∷ xs) q)
    (shared : (1 < (s.pages q).ref) × ((s.pages q).ref < 2 ^ 16)) where
  pub replaced :
      (t : Phys) × (page_insert cur pgdir x va 7 (taken true x s) ≡ ok true t)
      × Entered (taken true x s) t pgdir va (entry_for x 7) xs xs
      × ((t.pages x).ref ≡ 1)
      × ((t.pages q).ref + 1 ≡ (s.pages q).ref)
      × ((y : ℕ) → y ≢ x → y ≢ q → t.pages y ≡ s.pages y)
  replaced =
      let (page', _, same, ne) = taken-IsPage space q page in
      let u : Phys = taken true x s in
      let zero_ref : (u.pages x).ref ≡ 0 = rw (==-refl x) (space.free.unused x (ground arith)).0 in
      let (t, run, entered, new, old, others) =
        page_insert-replaces cur va 7 (taken-IsSpace space) (taken-new space)
          (omega (arith, zero_ref)) (rw (taken-pte space va) mapped) (rw (taken-pte space va) at)
          page' (rw same shared) ne in
      (
        t,
        run,
        entered,
        omega (arith, new, zero_ref),
        old ∙ ap (λ (i : PageInfo). i.ref) same,
        λ y nx nq. others y nx nq ∙ ground arith,
      )

  -- The copy, and the end of the mapping at PFTEMP
  pub finished :
      (t : Phys)
      → Entered (taken true x s) t pgdir va (entry_for x 7) xs xs
      → ((t.pages x).ref ≡ 1)
      → ((t.pages q).ref + 1 ≡ (s.pages q).ref)
      → pte_at s.mem pgdir pftemp ≡ entry_for q 5
      → va < 2 ^ 32
      → va / 4096 ≢ pftemp / 4096
      → (u : Phys) × (page_remove cur pgdir pftemp (record t { mem = update t.mem x (t.mem q) })
          ≡ ok tt u)
        × Remapped (record t { mem = update t.mem x (t.mem q) }) u pgdir pftemp 0
        × ((zs : List ℕ) × IsSpace u pgdir zs)
        × ((u.pages q).ref + 2 ≡ (s.pages q).ref)
        × ((y : ℕ) → y ≢ q → u.pages y ≡ t.pages y)
        × (u.mem x ≡ s.mem q)
        × ((y : ℕ) → IsPage s pgdir (x ∷ xs) y → u.mem y ≡ s.mem y)
  finished t entered new old temp word ne =
      let (page', same, _, nex) = taken-IsPage space q page in
      let (pageq, kept) = entered.pages q page' in
      let (pagex, _) = entered.pages x (taken-new space) in
      let f = t.mem q in
      let small : q < 2 ^ 20 = omega (arith, page.bound, space.small) in
      let temp' : pte_at (overwritten entered.space pagex f).mem pgdir pftemp ≡ q * 4096 + 5 =
        overwritten-cell entered.space pagex f (pdx pftemp) (ptx pftemp) (omega arith)
        ∙ (Remapped-there (taken true x s) t pgdir va (entry_for x 7) pftemp entered.remapped word
              (omega arith) ne
            ∙ (taken-pte space pftemp ∙ (temp ∙ (entry_for_lem q small).1))) in
      let held = overwritten-IsPage entered.space pagex f in
      let (u, run, maps, zs, ref, others, mem) =
        page_remove-Entered cur pftemp q (overwritten-IsSpace entered.space pagex f)
          (rw temp' (ground arith)) (rw temp' (omega arith))
          (record {
            bound = pageq.bound;
            out = pageq.out;
            counted = (omega (arith, old, shared), omega (arith, old, shared));
            fresh = (held q pageq).fresh;
          }) in
      (
        u,
        run,
        maps,
        (_, zs),
        omega (arith, ref, old),
        others,
        mem x (held x pagex) ∙ (rw (==-refl x) (kept ∙ same)),
        λ y pg.
            let (pg', before, _, nx) = taken-IsPage space y pg in
            let (pg'', between) = entered.pages y pg' in
            let other : (y == x) ≡ false = ground arith in
            mem y (held y pg'') ∙ (rw other (between ∙ before)),
      )
