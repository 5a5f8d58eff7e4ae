-- ===== src/Pmap/Init.antt =====
-- kern/pmap.c, page_init: which pages the free list holds once the kernel has booted.
use xv6_lab.Base.{
  ==-refl, ℕ, zero, suc, ◌<◌, ◌≡◌, refl, true, false, none, List, [], ◌∷◌, ◌&&◌, not, arith, ltb,
  if◌then◌else◌, has, IsNodup, Bool-cases, inl, inr,
}
use xv6_lab.Machine.Phys.{Phys}
use xv6_lab.Pmap.Boot.{reserved, init_page, init_pages, page_init}
use xv6_lab.Pmap.FreeList.{IsFreeList, Chain, Chain-update}

-- The pages below `n` that are not reserved, the last first
abbrev free_pages : ℕ → ℕ → List ℕ
free_pages e zero = []
free_pages e (suc n) = if reserved e n then free_pages e n else n ∷ free_pages e n

module _ (e : ℕ) where
  has-free_pages : (n i : ℕ) → has i (free_pages e n) ≡ (ltb i n && not (reserved e i))
  has-free_pages zero i = ground arith
  has-free_pages (suc n) i = ground (arith, has-free_pages n i)

  record Round (n : ℕ) (s : Phys) : Type 0 where
    chain : Chain s.pages s.free_list (free_pages e n)
    nodup : IsNodup (free_pages e n)
    unused : (p : ℕ) → has p (free_pages e n) ≡ true → (s.pages p).ref ≡ 0
    in_use : (p : ℕ) → p < n → reserved e p ≡ true → s.pages p ≡ record { link = none; ref = 1 }

  init_page-Round : (n : ℕ) (s : Phys) → Round n s → Round (suc n) (init_page e n s)
  unfolding init_page
  init_page-Round n s r = elim (Bool-cases (reserved e n)) [
    | inl h ↦
        let out : has n (free_pages e n) ≡ false = ground (arith, has-free_pages n n) in
        rw h (record {
          chain = rw h (Chain-update s.pages s.free_list (free_pages e n) n _ out r.chain);
          nodup = rw h r.nodup;
          unused = rw h (λ p i. ground (arith, r.unused p));
          in_use = λ p b q. ground (arith, r.in_use p);
        })
    | inr h ↦
        let out : has n (free_pages e n) ≡ false = ground (arith, has-free_pages n n) in
        rw h (record {
          chain = rw h (
            refl,
            rw (==-refl n) (Chain-update s.pages s.free_list (free_pages e n) n _ out r.chain),
          );
          nodup = rw h (out, r.nodup);
          unused = rw h (λ p i. ground (arith, r.unused p));
          in_use = λ p b q. ground (arith, r.in_use p);
        })
  ]

  init_pages-Round : (n : ℕ) (s : Phys) → s.free_list ≡ none → Round n (init_pages e n s)
  unfolding init_pages
  init_pages-Round zero s h = record {
    chain = h;
    nodup = tt;
    unused = λ p i. cc;
    in_use = λ p b q. absurd (omega arith);
  }
  init_pages-Round (suc n) s h = init_page-Round n (init_pages e n s) (init_pages-Round n s h)

npages-init_pages : (e n : ℕ) (s : Phys) → (init_pages e n s).npages ≡ s.npages
unfolding init_pages init_page
npages-init_pages e zero s = refl
npages-init_pages e (suc n) s = elim (Bool-cases (reserved e n)) [
  | inl h ↦ rw h (npages-init_pages e n s)
  | inr h ↦ rw h (npages-init_pages e n s)
]

-- What page_init leaves, for the pages that `kernel_end` reserves: the free list `xs` holds exactly
-- the other pages of physical memory, and a reserved page has one reference and no link.
pub record Ready (kernel_end npages : ℕ) (s : Phys) (xs : List ℕ) : Type 0 where
  pub listed : IsFreeList s xs
  pub exact : (i : ℕ) → has i xs ≡ (ltb i npages && not (reserved kernel_end i))
  pub in_use :
      (i : ℕ)
      → i < npages
      → reserved kernel_end i ≡ true
      → s.pages i ≡ record { link = none; ref = 1 }

-- From an empty free list, page_init puts exactly the pages of physical memory that are not
-- reserved on the free list, each once and unreferenced, and gives every reserved page one
-- reference and no link.
pub page_init-Ready :
    (kernel_end : ℕ) (s : Phys)
    → s.free_list ≡ none
    → (xs : List ℕ) × Ready kernel_end s.npages (page_init kernel_end s) xs
unfolding page_init
page_init-Ready e s h =
    let r = init_pages-Round e s.npages s h in
    (
      free_pages e s.npages,
      record {
        listed = record {
          chain = r.chain;
          nodup = r.nodup;
          unused = λ p i. (
            r.unused p i,
            ground (arith, npages-init_pages e s.npages s, has-free_pages e s.npages p),
          );
        };
        exact = has-free_pages e s.npages;
        in_use = r.in_use;
      },
    )
