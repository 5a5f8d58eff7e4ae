-- ===== src/Pmap/Isolated.antt =====
-- kern/pmap.c: two address spaces. What changes one below UTOP leaves the other as it is.
use xv6_lab.Base.{
  ℕ, ◌≤◌, ◌<◌, ◌≡◌, ◌≢◌, refl, true, false, List, arith, has, ◌⊎◌, ◌==◌, Bool-cases, inl, inr, ap,
  sym, ◌∙◌,
}
use xv6_lab.Machine.Mmu.{pdx, utop}
use xv6_lab.Machine.Phys.{Phys}
use xv6_lab.Pmap.Space.{uvpt_index, mapped, Mem, table, cell}
use xv6_lab.Pmap.Walk.{IsSpace}
use xv6_lab.Pmap.Held.{IsPage, Entered}

-- The page directory `d` and its page tables below UTOP are no tables of the page directory `d'`. From
-- UTOP on both have the kernel's page tables.
pub record Apart (s : Phys) (d d' : ℕ) (xs : List ℕ) : Type 0 where
  pub root : IsPage s d' xs d
  pub tables : (i : ℕ) → i < pdx utop → mapped s.mem d i ≡ true → IsPage s d' xs (table (s.mem d i))
  pub kernel : (i : ℕ) → pdx utop ≤ i → i < 1024 → i ≢ uvpt_index → s.mem d i ≡ s.mem d' i

-- Whether entry `i` is below UTOP, or, with a page table, among the kernel's
below_or_kernel :
    (m : Mem) (d i : ℕ) → mapped m d i ≡ true → (i < pdx utop) ⊎ ((pdx utop ≤ i) × (i ≢ uvpt_index))
below_or_kernel m d i p = ground arith

-- The kernel's entries are mapped in both.
other-mapped :
    (m : Mem) (d d' i : ℕ)
    → mapped m d i ≡ true
    → m d i ≡ m d' i
    → (mapped m d' i ≡ true) × (table (m d i) ≡ table (m d' i))
other-mapped m d d' i p e = (rw e at p, ap table e)

module _ {s : Phys} {d d' : ℕ} {xs : List ℕ} (space : IsSpace s d' xs)
    (apart : Apart s d d' xs) where
  user-IsPage :
      (j : ℕ) → j < pdx utop → mapped s.mem d' j ≡ true → IsPage s d xs (table (s.mem d' j))
  user-IsPage j b p = record {
    bound = space.tables.inside j (omega arith) p;
    out = space.kept j (omega arith) p;
    fresh = record {
      off_root = λ e. apart.root.fresh.off_tables j (omega arith) p e;
      off_tables = λ i b' p' e. elim (below_or_kernel s.mem d i p') [
        | inl low ↦ (apart.tables i low p').fresh.off_tables j (omega arith) p (sym e)
        | inr (high, ne) ↦
            let (q, same) = other-mapped s.mem d d' i p' (apart.kernel i high b' ne) in
            let at = space.tables.apart i j b' (omega arith) q p (sym same ∙ e) in omega (arith, at)
      ];
    };
  }

  pub Apart-sym : Apart s d' d xs
  Apart-sym = record {
    root = record {
      bound = space.root.0;
      out = space.root.1;
      fresh = record {
        off_root = λ e. apart.root.fresh.off_root (sym e);
        off_tables = λ i b p e. elim (below_or_kernel s.mem d i p) [
          | inl low ↦ (apart.tables i low p).fresh.off_root e
          | inr (high, ne) ↦
              let (q, same) = other-mapped s.mem d d' i p (apart.kernel i high b ne) in
              space.tables.off_root i b q (sym same ∙ e)
        ];
      };
    };
    tables = user-IsPage;
    kernel = λ i a b ne. sym (apart.kernel i a b ne);
  }

module _ {s t : Phys} {d d' va w : ℕ} {xs ys : List ℕ} (space : IsSpace s d xs)
    (apart : Apart s d d' xs) (low : va < utop) (entered : Entered s t d' va w xs ys) where
  root-same : t.mem d ≡ s.mem d
  root-same = (entered.pages d apart.root).1

  entry-same : (i : ℕ) → t.mem d i ≡ s.mem d i
  entry-same i = ap (λ (f : ℕ → ℕ). f i) root-same

  -- The kernel's entries stay in the space that changes, too.
  kernel-same : (i : ℕ) → pdx utop ≤ i → i < 1024 → i ≢ uvpt_index → t.mem d i ≡ t.mem d' i
  kernel-same i a b ne =
      entry-same i ∙ apart.kernel i a b ne ∙ sym (entered.roots i (λ e. omega (arith, e, low)))

  cell-of : (m : Mem) (e f i j : ℕ) → m e i ≡ m f i → cell m e i j ≡ cell m f i j
  cell-of m e f i j h = rw h refl

  -- The other address space translates as before.
  pub other-cell : (i j : ℕ) → i < 1024 → cell t.mem d i j ≡ cell s.mem d i j
  other-cell i j b = elim (Bool-cases (mapped s.mem d i)) [
    | inl p ↦ elim (below_or_kernel s.mem d i p) [
      | inl user ↦
          rw (root-same, p)
            (ap (λ (f : ℕ → ℕ). f j) (entered.pages (table (s.mem d i)) (apart.tables i user p)).1)
      | inr (high, ne) ↦
          let other : (pdx va == i) ≡ false = ground (arith, low, high) in
          cell-of t.mem d d' i j (kernel-same i high b ne)
          ∙ (entered.remapped i j b ∙ rw other refl)
          ∙ sym (cell-of s.mem d d' i j (apart.kernel i high b ne))
    ]
    | inr p ↦ rw (root-same, p) refl
  ]

  pub other-Apart : Apart t d d' ys
  other-Apart = record {
    root = (entered.pages d apart.root).0;
    tables = rw root-same λ i b p. (entered.pages (table (s.mem d i)) (apart.tables i b p)).0;
    kernel = kernel-same;
  }

  table-inside :
      (i : ℕ)
      → i < 1024
      → mapped t.mem d i ≡ true
      → (table (t.mem d i) < t.npages) × (has (table (t.mem d i)) ys ≡ false)
  table-inside i b p = elim (below_or_kernel t.mem d i p) [
    | inl user ↦ ((other-Apart.tables i user p).bound, (other-Apart.tables i user p).out)
    | inr (high, ne) ↦
        let (q, same) = other-mapped t.mem d d' i p (kernel-same i high b ne) in
        rw same (entered.space.tables.inside i b q, entered.space.kept i b q)
  ]

  pub other-IsSpace : IsSpace t d ys
  other-IsSpace = record {
    small = entered.space.small;
    free = entered.space.free;
    unlinked = entered.space.unlinked;
    tables = record {
      inside = λ i b p. (table-inside i b p).0;
      off_root = rw root-same space.tables.off_root;
      apart = rw root-same space.tables.apart;
    };
    root = (other-Apart.root.bound, other-Apart.root.out);
    kept = λ i b p. (table-inside i b p).1;
  }

  -- A page in use stays one for both.
  pub other-IsPage : (y : ℕ) → IsPage s d xs y → IsPage s d' xs y → IsPage t d ys y
  other-IsPage y page page' =
      let after = (entered.pages y page').0 in
      record {
        bound = after.bound;
        out = after.out;
        fresh = record {
          off_root = page.fresh.off_root;
          off_tables = rw root-same page.fresh.off_tables;
        };
      }
