-- ===== src/Pmap/Region.antt =====
-- kern/pmap.c: boot_map_region as an update of the map from pages to entries.
use xv6_lab.Base.{
  ℕ, zero, suc, ◌+◌, ◌*◌, ◌/◌, ◌%◌, ◌^◌, ◌≤◌, ◌<◌, ◌≡◌, refl, true, false, List, arith, ◌==◌, ◌&&◌,
  length, ◌⊎◌, inl, inr, Bool-cases, ◌-◌, bit_or, ◌∙◌, if◌then◌else◌,
}
use xv6_lab.Machine.Mmu.{u32, pdx, ptx, pte_p, uvpt, ulim}
use xv6_lab.Machine.Phys.{Phys, ok}
use xv6_lab.Pmap.Table.{boot_map_rounds, boot_map_region}
use xv6_lab.Pmap.Space.{mapped, root_kept, off_uvpt, table, pte_at, store_mem, cell-store}
use xv6_lab.Pmap.Walk.{IsSpace, HasRoom, Walked, pgdir_walk-Walked}
use xv6_lab.Pmap.Remove.{IsSpace-store}

abbrev pub entry_of : (pa perm : ℕ) → ℕ
entry_of pa perm = bit_or (bit_or pa perm) pte_p

-- The `n` pages from `va` on are mapped to the `n` page frames from `pa` on, and no other address is
-- mapped otherwise than before, the 4 MB at UVPT left out.
pub record MapsRegion (s t : Phys) (pgdir n va pa perm : ℕ) : Type 0 where
  pub mapped : (j : ℕ) → j < n → pte_at t.mem pgdir (va + j * 4096) ≡ entry_of (pa + j * 4096) perm
  pub others :
      (w : ℕ)
      → w < 2 ^ 32
      → (w < va) ⊎ (va + n * 4096 ≤ w)
      → pte_at t.mem pgdir w ≡ pte_at s.mem pgdir w
  pub space : (zs : List ℕ) × IsSpace t pgdir zs

module _ {s t : Phys} {pgdir : ℕ} {xs ys : List ℕ} {e : ℕ × ℕ} (va v : ℕ)
    (walked : Walked s t pgdir va xs ys e) where
  abbrev stored : Phys
  stored = record t { mem = store_mem t.mem (table (t.mem pgdir (pdx va))) (ptx va) v }

  stored-IsSpace : IsSpace stored pgdir ys
  stored-IsSpace = IsSpace-store (pdx va) (ptx va) v (omega arith) walked.found walked.space

  stored-pte :
      (w : ℕ)
      → pte_at stored.mem pgdir w
        ≡ (if (pdx va == pdx w) && (ptx va == ptx w) then v else pte_at s.mem pgdir w)
  stored-pte w = rw (← walked.same (pdx w) (ptx w) (omega arith)) (
      cell-store walked.space.tables (pdx va) (ptx va) v (pdx w) (ptx w) (omega arith) (omega arith)
        walked.found)

  stored-here : pte_at stored.mem pgdir va ≡ v
  stored-here = stored-pte va ∙ ground arith

  stored-there :
      (w : ℕ)
      → w < 2 ^ 32
      → va < 2 ^ 32
      → va % 4096 ≡ 0
      → (w < va) ⊎ (va + 4096 ≤ w)
      → pte_at stored.mem pgdir w ≡ pte_at s.mem pgdir w
  stored-there w word word' aligned off =
      let other : ((pdx va == pdx w) && (ptx va == ptx w)) ≡ false = ground arith in
      stored-pte w ∙ rw other refl

-- The page tables that `n` pages from `va` on lie in, one for each 4 MB
abbrev pub tables_of : (va n : ℕ) → ℕ
tables_of va zero = 0
tables_of va (suc n) = suc ((va + n * 4096) / 2 ^ 22 - va / 2 ^ 22)

-- The free pages are enough for these, one fewer where the first is there already.
abbrev Enough : Phys → (pgdir va n : ℕ) → List ℕ → Type 0
Enough s pgdir va n xs =
    (tables_of va n ≤ length xs)
    ⊎ ((mapped s.mem pgdir (pdx va) ≡ true) × (tables_of va n ≤ suc (length xs)))

Enough-HasRoom :
    (s : Phys) (pgdir va n : ℕ) (xs : List ℕ) → Enough s pgdir va (suc n) xs → HasRoom s pgdir va xs
Enough-HasRoom s pgdir va n xs enough = elim enough [
  | inl all ↦ inr (ground arith)
  | inr one ↦ inl (one.0)
]

tables_of-next :
    (va n free : ℕ)
    → tables_of va (suc n) ≤ suc free
    → va % 4096 ≡ 0
    → va + suc n * 4096 ≤ 2 ^ 32
    → (tables_of (u32 (va + 4096)) n ≤ free)
      ⊎ ((pdx (u32 (va + 4096)) ≡ pdx va) × (tables_of (u32 (va + 4096)) n ≤ suc free))
tables_of-next va zero free h aligned top = inl (omega arith)
tables_of-next va (suc n) free h aligned top =
    let next : u32 (va + 4096) ≡ va + 4096 = omega arith in
    elim (Bool-cases ((va + 4096) / 2 ^ 22 == va / 2 ^ 22)) [
      | inl here ↦ inr (ground (arith, here, next), rw next (ground (arith, here)))
      | inr there ↦ inl (rw next (ground (arith, there)))
    ]

module _ {s t : Phys} {pgdir : ℕ} {xs ys : List ℕ} {e : ℕ × ℕ} (va v n : ℕ)
    (walked : Walked s t pgdir va xs ys e) where
  stored-mapped : mapped (stored va v walked).mem pgdir (pdx va) ≡ true
  stored-mapped =
      rw (root_kept walked.space.tables (pdx va) (omega arith) walked.found) walked.found

  Enough-budget : Enough s pgdir va (suc n) xs → tables_of va (suc n) ≤ suc (length ys)
  Enough-budget enough = elim enough [
    | inl all ↦ omega (arith, walked.one_less)
    | inr one ↦ rw (walked.same_free one.0) (one.1)
  ]

  Enough-next :
      Enough s pgdir va (suc n) xs
      → va % 4096 ≡ 0
      → va + suc n * 4096 ≤ 2 ^ 32
      → Enough (stored va v walked) pgdir (u32 (va + 4096)) n ys
  Enough-next enough aligned top =
      elim (tables_of-next va n (length ys) (Enough-budget enough) aligned top) [
        | inl all ↦ inl all
        | inr one ↦ inr (rw (one.0) stored-mapped, one.1)
      ]

-- One round, then the rounds that are left
MapsRegion-suc :
    {s u t : Phys} {pgdir n va pa perm : ℕ}
    → va % 4096 ≡ 0
    → va + suc n * 4096 ≤ 2 ^ 32
    → pa + suc n * 4096 ≤ 2 ^ 32
    → pte_at u.mem pgdir va ≡ entry_of pa perm
    → ((w : ℕ)
        → w < 2 ^ 32
        → (w < va) ⊎ (va + 4096 ≤ w)
        → pte_at u.mem pgdir w ≡ pte_at s.mem pgdir w)
    → MapsRegion u t pgdir n (u32 (va + 4096)) (u32 (pa + 4096)) perm
    → MapsRegion s t pgdir (suc n) va pa perm
MapsRegion-suc {s} {u} {t} {pgdir} {n} {va} {pa} {perm} aligned top top' here there rest = record {
  mapped = each;
  others = λ w word off. rest.others w word (ground arith) ∙ there w word (ground arith);
  space = rest.space;
}
  where
    each : (j : ℕ) → j < suc n → pte_at t.mem pgdir (va + j * 4096) ≡ entry_of (pa + j * 4096) perm
    each zero h =
        let at : va + 0 * 4096 ≡ va = omega arith in
        let at' : pa + 0 * 4096 ≡ pa = omega arith in
        rw (at, at') (rest.others va (omega arith) (ground arith) ∙ here)
    each (suc j) h =
        let at : u32 (va + 4096) + j * 4096 ≡ va + suc j * 4096 = omega arith in
        let at' : u32 (pa + 4096) + j * 4096 ≡ pa + suc j * 4096 = omega arith in
        rw (← at, ← at') (rest.mapped j (omega arith))

boot_map_rounds-MapsRegion :
    (n : ℕ) {s : Phys} {pgdir : ℕ} {xs : List ℕ} (va pa perm : ℕ)
    → IsSpace s pgdir xs
    → Enough s pgdir va n xs
    → va % 4096 ≡ 0
    → va + n * 4096 ≤ 2 ^ 32
    → pa + n * 4096 ≤ 2 ^ 32
    → (va + n * 4096 ≤ uvpt) ⊎ (ulim ≤ va)
    → (t : Phys) × (boot_map_rounds n pgdir va pa perm s ≡ ok tt t)
      × MapsRegion s t pgdir n va pa perm
unfolding boot_map_rounds
boot_map_rounds-MapsRegion zero {s} {pgdir} {xs} va pa perm space room aligned top top' off = (
  s,
  refl,
  record { mapped = λ j h. absurd (omega arith); others = λ w word off. refl; space = (xs, space) },
)
boot_map_rounds-MapsRegion (suc n) {s} {pgdir} {xs} va pa perm space room aligned top top' off =
    let here : off_uvpt va ≡ true = ground arith in
    let (e, t, ys, walk, walked) =
      pgdir_walk-Walked va xs space here (Enough-HasRoom s pgdir va n xs room) in
    let (u, run, maps) =
      boot_map_rounds-MapsRegion n (u32 (va + 4096)) (u32 (pa + 4096)) perm
        (stored-IsSpace va (entry_of pa perm) walked)
        (Enough-next va (entry_of pa perm) n walked room aligned top) (omega arith) (omega arith)
        (omega arith) (ground arith) in
    (
      u,
      rw (walk, walked.place) run,
      MapsRegion-suc aligned top top' (stored-here va (entry_of pa perm) walked)
          (λ w word off. stored-there va (entry_of pa perm) walked w word (omega arith) aligned off)
          maps,
    )

-- With an address space as pmap.c builds it (its own directory at UVPT, apart from which no entry
-- names it and no two entries the same table), for a region that starts on a page boundary, lies
-- below UVPT or from ULIM on, and ends, like the physical one, at 2^32 at most, with a free page
-- for each page table that it lies in: boot_map_region does not fail, gives each page of the
-- region the entry made of its page frame and the permissions, changes no other translation
-- outside the 4 MB at UVPT and keeps the structure of the page tables.
pub boot_map_region-MapsRegion :
    {s : Phys} {pgdir : ℕ} {xs : List ℕ} (va size pa perm : ℕ)
    → IsSpace s pgdir xs
    → tables_of va ((size + 4095) / 4096) ≤ length xs
    → va % 4096 ≡ 0
    → va + (size + 4095) / 4096 * 4096 ≤ 2 ^ 32
    → pa + (size + 4095) / 4096 * 4096 ≤ 2 ^ 32
    → (va + (size + 4095) / 4096 * 4096 ≤ uvpt) ⊎ (ulim ≤ va)
    → (t : Phys) × (boot_map_region pgdir va size pa perm s ≡ ok tt t)
      × MapsRegion s t pgdir ((size + 4095) / 4096) va pa perm
unfolding boot_map_region
boot_map_region-MapsRegion va size pa perm space room aligned top top' off =
    boot_map_rounds-MapsRegion ((size + 4095) / 4096) va pa perm space (inl room) aligned top top'
      off
