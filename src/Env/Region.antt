-- ===== src/Env/Region.antt =====
-- kern/env.c: region_alloc as an update of the map from pages to entries.
use xv6_lab.Base.{
  ==-refl, ℕ, zero, suc, ◌+◌, ◌-◌, ◌*◌, ◌/◌, ◌%◌, ◌^◌, ◌≤◌, ◌<◌, ◌≡◌, ◌≢◌, refl, true, false,
  Option, List, [], ◌∷◌, arith, ◌==◌, ◌&&◌, has, length, ◌⊎◌, inl, inr, ◌∙◌,
}
use xv6_lab.Machine.Mmu.{u32, utop, pdx, ptx, present, pgsize, round_down, round_up}
use xv6_lab.Machine.Phys.{Phys, ok}
use xv6_lab.Machine.Kernel.{Kernel, done, cur_pgdir}
use xv6_lab.Env.Load.{map_region_page, region_rounds, region_alloc}
use xv6_lab.Pmap.Table.{page_insert}
use xv6_lab.Pmap.Space.{off_uvpt, pte_at}
use xv6_lab.Pmap.FreeList.{taken, taken-IsFreeList, page_alloc_lem}
use xv6_lab.Pmap.Walk.{IsSpace, fresh, pgdir_walk-Walked}
use xv6_lab.Pmap.Unmap.{Remapped}
use xv6_lab.Pmap.Insert.{entry_for, insert-onto}

-- What a round leaves: the page `x` is mapped at `va`, and the free list is `ys`.
pub record Added (s t : Phys) (pgdir va perm x : ℕ) (xs ys : List ℕ) : Type 0 where
  pub remapped : Remapped s t pgdir va (entry_for x perm)
  pub space : IsSpace t pgdir ys
  pub one_less : length xs ≤ suc (length ys)
  pub fewer : (p : ℕ) → has p xs ≡ false → has p ys ≡ false

module _ {s : Phys} {pgdir x : ℕ} {xs : List ℕ} (space : IsSpace s pgdir (x ∷ xs)) where
  dirty-IsSpace : IsSpace (taken false x s) pgdir xs
  dirty-IsSpace = record {
    small = space.small;
    free = taken-IsFreeList false space.free;
    unlinked = λ p b o. ground (arith, space.unlinked p);
    tables = space.tables;
    root = ground (arith, space.root);
    kept = λ d b p. ground (arith, space.kept d b p);
  }

  page_insert-Added :
      (cur : Option ℕ) (va perm : ℕ)
      → xs ≢ []
      → off_uvpt va ≡ true
      → present (pte_at s.mem pgdir va) ≡ false
      → (t : Phys) × (ys : List ℕ) × (page_insert cur pgdir x va perm (taken false x s) ≡ ok true t)
        × Added s t pgdir va perm x xs ys
  unfolding page_insert
  page_insert-Added cur va perm room off empty =
      let (e, t, ys, walk, walked) = pgdir_walk-Walked va xs dirty-IsSpace off (inr room) in
      let out = space.free.nodup.0 in
      let fits : ((taken false x s).pages x).ref + 1 < 2 ^ 16 =
        rw (==-refl x) (ground (arith, space.free.unused x)) in
      let (u, run, remapped, kept) =
        insert-onto cur va x perm walked out (fresh space) fits empty in
      (
        u,
        ys,
        rw walk run,
        record {
          remapped = remapped;
          space = kept;
          one_less = walked.one_less;
          fewer = walked.fewer;
        },
      )

module _ {s t : Phys} {pgdir va perm x : ℕ} {xs ys : List ℕ}
    (added : Added s t pgdir va perm x xs ys) where
  added-here : pte_at t.mem pgdir va ≡ entry_for x perm
  added-here = added.remapped (pdx va) (ptx va) (omega arith) ∙ ground arith

  added-there :
      (w : ℕ)
      → w < 2 ^ 32
      → va < 2 ^ 32
      → va % 4096 ≡ 0
      → (w < va) ⊎ (va + 4096 ≤ w)
      → pte_at t.mem pgdir w ≡ pte_at s.mem pgdir w
  added-there w word word' aligned off =
      let other : ((pdx va == pdx w) && (ptx va == ptx w)) ≡ false = ground arith in
      added.remapped (pdx w) (ptx w) (omega arith) ∙ rw other refl

-- The `n` pages from `va` on are mapped, readable and writable, to pages `f 0`, `f 1`, … that were free
-- and are all different; no other address outside the 4 MB at UVPT is mapped otherwise than before.
pub record Regions (s t : Phys) (pgdir n va : ℕ) (xs : List ℕ) (f : ℕ → ℕ) : Type 0 where
  pub mapped : (j : ℕ) → j < n → pte_at t.mem pgdir (va + j * 4096) ≡ entry_for (f j) 6
  pub free : (j : ℕ) → j < n → has (f j) xs ≡ true
  pub apart : (i j : ℕ) → i < j → j < n → f i ≢ f j
  pub others :
      (w : ℕ)
      → w < 2 ^ 32
      → (w < va) ⊎ (va + n * 4096 ≤ w)
      → pte_at t.mem pgdir w ≡ pte_at s.mem pgdir w
  pub space : (zs : List ℕ) × IsSpace t pgdir zs

abbrev pub first_then : ℕ → (ℕ → ℕ) → ℕ → ℕ
first_then x f zero = x
first_then x f (suc j) = f j

module _ {s u t : Phys} {pgdir n va x : ℕ} {xs ys : List ℕ} {f : ℕ → ℕ} (aligned : va % 4096 ≡ 0)
    (top : va + suc n * 4096 ≤ 2 ^ 32) (out : has x xs ≡ false)
    (added : Added s u pgdir va 6 x xs ys) (rest : Regions u t pgdir n (va + 4096) ys f) where
  each : (j : ℕ) → j < suc n → pte_at t.mem pgdir (va + j * 4096) ≡ entry_for (first_then x f j) 6
  each zero h =
      let at : va + 0 * 4096 ≡ va = omega arith in
      rw at (rest.others va (omega arith) (inl (omega arith)) ∙ added-here added)
  each (suc j) h =
      let at : va + 4096 + j * 4096 ≡ va + suc j * 4096 = omega arith in
      rw (← at) (rest.mapped j (omega arith))

  was_free : (j : ℕ) → j < suc n → has (first_then x f j) (x ∷ xs) ≡ true
  was_free zero h = ground arith
  was_free (suc j) h = ground (arith, rest.free j (omega arith), added.fewer (f j))

  differ : (i j : ℕ) → i < j → j < suc n → first_then x f i ≢ first_then x f j
  differ zero zero h b = absurd (omega arith)
  differ zero (suc j) h b = λ q. ground (arith, rest.free j (omega arith), added.fewer x out)
  differ (suc i) zero h b = absurd (omega arith)
  differ (suc i) (suc j) h b = rest.apart i j (omega arith) (omega arith)

  Regions-suc : Regions s t pgdir (suc n) va (x ∷ xs) (first_then x f)
  Regions-suc = record {
    mapped = each;
    free = was_free;
    apart = differ;
    others = λ w word off.
        rest.others w word (ground arith)
        ∙ added-there added w word (omega arith) aligned (ground arith);
    space = rest.space;
  }

abbrev pub Empty : Phys → (pgdir n va : ℕ) → Type 0
Empty s pgdir n va = (j : ℕ) → j < n → present (pte_at s.mem pgdir (va + j * 4096)) ≡ false

Added-Empty :
    {s t : Phys} {pgdir n va x : ℕ} {xs ys : List ℕ}
    → va % 4096 ≡ 0
    → va + suc n * 4096 ≤ 2 ^ 32
    → Added s t pgdir va 6 x xs ys
    → Empty s pgdir (suc n) va
    → Empty t pgdir n (va + 4096)
Added-Empty {s} {t} {pgdir} {n} {va} aligned top added empty j h =
    let at : va + 4096 + j * 4096 ≡ va + suc j * 4096 = omega arith in
    let same =
      added-there added (va + suc j * 4096) (omega arith) (omega arith) aligned
        (inr (omega arith)) in
    rw (at, same) (empty (suc j) (omega arith))

region_rounds-Regions :
    (n e : ℕ) (k : Kernel) (xs : List ℕ) (va : ℕ)
    → IsSpace k.phys (k.envs e).pgdir xs
    → 2 * n ≤ length xs
    → va % 4096 ≡ 0
    → va + n * 4096 ≤ utop
    → Empty k.phys (k.envs e).pgdir n va
    → (t : Phys) × (f : ℕ → ℕ) × (region_rounds n e va k ≡ done tt (record k { phys = t }))
      × Regions k.phys t (k.envs e).pgdir n va xs f
unfolding region_rounds map_region_page
region_rounds-Regions zero e k xs va space room aligned top empty = (
  k.phys,
  λ j. 0,
  refl,
  record {
    mapped = λ j h. absurd (omega arith);
    free = λ j h. absurd (omega arith);
    apart = λ i j h b. absurd (omega arith);
    others = λ w word off. refl;
    space = (xs, space);
  },
)
region_rounds-Regions (suc n) e k [] va space room aligned top empty = absurd (omega arith)
region_rounds-Regions (suc n) e k (x ∷ xs) va space room aligned top empty =
    let at : va + 0 * 4096 ≡ va = omega arith in
    let first = empty 0 (omega arith) in
    let (u, ys, run, added) =
      page_insert-Added space (cur_pgdir k) va 6 (λ q. ground arith) (ground arith)
        (rw (← at) first) in
    let (t, f, rest, regions) =
      region_rounds-Regions n e (record k { phys = u }) ys (va + 4096) added.space
        (omega (arith, added.one_less)) (omega arith) (omega arith)
        (Added-Empty aligned (omega arith) added empty) in
    (
      t,
      first_then x f,
      rw ((page_alloc_lem false (x ∷ xs) space.small space.free).0, run) rest,
      Regions-suc aligned (omega arith) space.free.nodup.0 added regions,
    )

-- The number of pages that the `len` bytes from `va` on lie in
abbrev pub pages_of : (va len : ℕ) → ℕ
pages_of va len = (va % 4096 + len + 4095) / 4096

-- For a range that ends at UTOP at most, where nothing is mapped, with two free pages for each of
-- its pages: region_alloc does not fail, maps the pages that the range lies in to pages that were
-- free and are all different, readable and writable, changes no other translation outside the 4 MB
-- at UVPT, keeps the structure of the page tables, and changes physical memory only.
pub region_alloc-Regions :
    (e va len : ℕ) (k : Kernel) {xs : List ℕ}
    → IsSpace k.phys (k.envs e).pgdir xs
    → 2 * pages_of va len ≤ length xs
    → va + len ≤ utop
    → Empty k.phys (k.envs e).pgdir (pages_of va len) (va / 4096 * 4096)
    → (t : Phys) × (f : ℕ → ℕ) × (region_alloc e va len k ≡ done tt (record k { phys = t }))
      × Regions k.phys t (k.envs e).pgdir (pages_of va len) (va / 4096 * 4096) xs f
unfolding region_alloc
region_alloc-Regions e va len k {xs} space room top empty =
    let start : round_down va pgsize ≡ va / 4096 * 4096 = omega arith in
    let rounds : (round_up (u32 (va + len)) pgsize - round_down va pgsize + 4095) / pgsize
        ≡ pages_of va len =
      omega arith in
    rw (rounds, start)
      (region_rounds-Regions (pages_of va len) e k xs (va / 4096 * 4096) space room (omega arith)
        (omega arith) empty)
