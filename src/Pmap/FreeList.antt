-- ===== src/Pmap/FreeList.antt =====
-- The free list of kern/pmap.c as a list of pages, and what page_alloc, page_free and page_decref do
-- to it.
use xv6_lab.Base.{
  ℕ, ◌*◌, ◌/◌, ◌%◌, ◌^◌, ◌≤◌, ◌<◌, ◌≡◌, refl, ◌≢◌, ◌⊎◌, ◌-◌, Bool, true, false, Option, none, some,
  List, [], ◌∷◌, arith, ltb, ◌==◌, if◌then◌else◌, update, has, IsNodup, sym, ap, fun_ext,
  Bool-cases, ==→eq, ==-refl, inl, inr,
}
use xv6_lab.Machine.Phys.{PageInfo, Phys, Run, ok, panic, ◌>>◌}
use xv6_lab.Pmap.Alloc.{page_alloc, page_free, page_decref}

-- From `head` the links lead through the pages `xs` to NULL.
abbrev pub Chain : (ℕ → PageInfo) → Option ℕ → List ℕ → Type 0
Chain pages head [] = head ≡ none
Chain pages head (x ∷ xs) = (head ≡ some x) × Chain pages (pages x).link xs

-- `xs` is the free list: no page twice, each of them physical memory with no reference.
pub record IsFreeList (s : Phys) (xs : List ℕ) : Type 0 where
  pub chain : Chain s.pages s.free_list xs
  pub nodup : IsNodup xs
  pub unused : (p : ℕ) → has p xs ≡ true → ((s.pages p).ref ≡ 0) × (p < s.npages)

pub Chain-update :
    (pages : ℕ → PageInfo) (h : Option ℕ) (xs : List ℕ) (p : ℕ) (v : PageInfo)
    → has p xs ≡ false
    → Chain pages h xs
    → Chain (update pages p v) h xs
Chain-update pages h [] p v out c = c
Chain-update pages h (x ∷ xs) p v out c =
    let ne : (x == p) ≡ false = ground arith in
    (c.0, rw ne (Chain-update pages (pages x).link xs p v (ground arith) c.1))

-- The state after page `x` has left the head of the free list.
abbrev pub taken : Bool → ℕ → Phys → Phys
taken zeroed x s = record s {
  free_list = (s.pages x).link;
  pages = update s.pages x (record { link = none; ref = (s.pages x).ref });
  mem = if zeroed then update s.mem x (λ _. 0) else s.mem;
}

-- The state after page `x` has come back.
abbrev pub given : ℕ → Phys → Phys
given x s = record s {
  pages = update s.pages x (record { link = s.free_list; ref = (s.pages x).ref });
  free_list = some x;
}

-- `pp->pp_ref` of page `p` set to `r`
abbrev pub with_ref : ℕ → ℕ → Phys → Phys
with_ref p r s = record s { pages = update s.pages p (record { link = (s.pages p).link; ref = r }) }

pub page2pa-page : (p n : ℕ) → p < n → n ≤ 2 ^ 20 → p * 2 ^ 12 % 2 ^ 32 / 2 ^ 12 ≡ p
page2pa-page p n h k = omega arith

module _ {s : Phys} {x : ℕ} {xs : List ℕ} (small : s.npages ≤ 2 ^ 20) where
  pub page_alloc-head :
      (zeroed : Bool) → IsFreeList s (x ∷ xs) → page_alloc zeroed s ≡ ok (some x) (taken zeroed x s)
  unfolding page_alloc
  page_alloc-head true l =
      let bound : x < s.npages = (l.unused x (ground arith)).1 in
      let page : x * 2 ^ 12 % 2 ^ 32 / 2 ^ 12 ≡ x = page2pa-page x s.npages bound small in
      let inside : ltb x s.npages ≡ true = ground arith in rw (l.chain.0, page, inside)
  page_alloc-head false l = rw l.chain.0

module _ {s : Phys} {x : ℕ} {xs : List ℕ} where
  pub taken-IsFreeList : (zeroed : Bool) → IsFreeList s (x ∷ xs) → IsFreeList (taken zeroed x s) xs
  taken-IsFreeList zeroed l = record {
    chain = Chain-update _ _ _ _ _ l.nodup.0 l.chain.1;
    nodup = l.nodup.1;
    unused = λ p i. ground (arith, l.unused p, l.unused x);
  }

-- What page_alloc comes to on the free list `xs`.
abbrev pub Allocated : Bool → Phys → List ℕ → Run (Option ℕ) → Type 0
Allocated zeroed s [] r = r ≡ ok none s
Allocated zeroed s (x ∷ xs) r =
    (r ≡ ok (some x) (taken zeroed x s)) × IsFreeList (taken zeroed x s) xs

-- On a free list of at most 2^20 pages: page_alloc returns NULL and changes nothing on an empty
-- free list; else it returns the first page with a NULL link, zeroed if asked, changes nothing
-- else, and the free list is the rest.
pub page_alloc_lem :
    {s : Phys} (zeroed : Bool) (xs : List ℕ)
    → s.npages ≤ 2 ^ 20
    → IsFreeList s xs
    → Allocated zeroed s xs (page_alloc zeroed s)
unfolding page_alloc
page_alloc_lem zeroed [] small l = rw l.chain
page_alloc_lem zeroed (x ∷ xs) small l = (page_alloc-head small zeroed l, taken-IsFreeList zeroed l)

update-update :
    (f : ℕ → PageInfo) (x : ℕ) (a b : PageInfo) → f x ≡ b → update (update f x a) x b ≡ f
update-update f x a b h =
    fun_ext
      λ j. elim (Bool-cases (j == x)) [ inl e ↦ rw e (rw (==→eq j x e) (sym h)) | inr e ↦ rw e ]

module _ (s : Phys) (x : ℕ) where
  pub page_free-given :
      (s.pages x).ref ≡ 0 → (s.pages x).link ≡ none → page_free x s ≡ ok tt (given x s)
  unfolding page_free
  page_free-given r l = rw (r, l)

  pub given-IsFreeList :
      {xs : List ℕ}
      → IsFreeList s xs
      → has x xs ≡ false
      → x < s.npages
      → (s.pages x).ref ≡ 0
      → IsFreeList (given x s) (x ∷ xs)
  given-IsFreeList {xs} l out bound unreferenced =
      let self : (x == x) ≡ true = ground arith in
      record {
        chain = (refl, rw self (Chain-update s.pages s.free_list xs x _ out l.chain));
        nodup = (out, l.nodup);
        unused = λ p i. ground (arith, l.unused p);
      }

  -- Giving a page with no reference and a NULL link back and allocating again returns this page
  -- and the state as before.
  pub page_alloc-page_free :
      (s.pages x).ref ≡ 0
      → (s.pages x).link ≡ none
      → (page_free x >> page_alloc false) s ≡ ok (some x) s
  unfolding page_free page_alloc
  page_alloc-page_free r l =
      let back : s.pages x ≡ record { link = none; ref = 0 } = ground arith in
      rw (r, l, ==-refl x)
        (ap (λ f. ok (some x) (record s { pages = f })) (update-update s.pages x _ _ back))

  -- page_free panics on a page that is referenced, and on one with a link.
  pub page_free-panic : ((s.pages x).ref ≢ 0) ⊎ ((s.pages x).link ≢ none) → page_free x s ≡ panic
  unfolding page_free
  page_free-panic h = ground arith

  -- page_decref takes one reference off. If it was the last one the page goes back on the free list,
  -- provided that its link is NULL.
  pub page_decref-last :
      (s.pages x).ref ≡ 1
      → (s.pages x).link ≡ none
      → page_decref x s ≡ ok tt (given x (with_ref x 0 s))
  unfolding page_decref page_free
  page_decref-last r l = rw (r, ==-refl x, l)

  pub page_decref-more :
      (s.pages x).ref < 2 ^ 16
      → 1 < (s.pages x).ref
      → page_decref x s ≡ ok tt (with_ref x ((s.pages x).ref - 1) s)
  unfolding page_decref page_free
  page_decref-more small r = ground arith

-- The free list does not depend on the reference count of a page that is not on it.
pub with_ref-IsFreeList :
    {s : Phys} {xs : List ℕ} (p r : ℕ)
    → has p xs ≡ false
    → IsFreeList s xs
    → IsFreeList (with_ref p r s) xs
with_ref-IsFreeList {s} {xs} p r out l = record {
  chain = Chain-update s.pages s.free_list xs p _ out l.chain;
  nodup = l.nodup;
  unused = λ q i. ground (arith, l.unused q);
}
