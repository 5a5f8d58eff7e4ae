-- ===== src/Pmap/Taken.antt =====
-- kern/pmap.c: an address space once page_alloc has taken a page off the free list.
use xv6_lab.Base.{
  ==-refl, ℕ, ◌<◌, ◌≡◌, ◌≢◌, refl, true, false, List, ◌∷◌, arith, ◌==◌, Bool-cases, inl, inr,
}
use xv6_lab.Machine.Mmu.{pdx, ptx, present}
use xv6_lab.Machine.Phys.{Phys}
use xv6_lab.Pmap.Space.{mapped, off_uvpt, table, cell, pte_at, IsFresh}
use xv6_lab.Pmap.FreeList.{taken, taken-IsFreeList}
use xv6_lab.Pmap.Walk.{IsSpace, HasRoom, fresh}
use xv6_lab.Pmap.Remove.{CanDrop}
use xv6_lab.Pmap.Map.{CanInsert}
use xv6_lab.Pmap.Held.{IsPage}

module _ {s : Phys} {pgdir x : ℕ} {xs : List ℕ} (space : IsSpace s pgdir (x ∷ xs)) where
  pub root-kept : (pgdir == x) ≡ false
  root-kept = ground (arith, (fresh space).off_root)

  -- The structure is kept when a page leaves the free list.
  pub taken-IsSpace : IsSpace (taken true x s) pgdir xs
  taken-IsSpace = record {
    small = space.small;
    free = taken-IsFreeList true space.free;
    unlinked = λ p b o. ground (arith, space.unlinked p);
    tables = record {
      inside = rw root-kept space.tables.inside;
      off_root = rw root-kept space.tables.off_root;
      apart = rw root-kept space.tables.apart;
    };
    root = ground (arith, space.root);
    kept = rw root-kept (λ d b p. ground (arith, space.kept d b p));
  }

  pub taken-IsFresh : (q : ℕ) → IsFresh s.mem pgdir q → IsFresh (taken true x s).mem pgdir q
  taken-IsFresh q f = record { off_root = f.off_root; off_tables = rw root-kept f.off_tables }

  pub taken-cell : (d i : ℕ) → d < 1024 → cell (taken true x s).mem pgdir d i ≡ cell s.mem pgdir d i
  taken-cell d i b = rw root-kept (elim (Bool-cases (mapped s.mem pgdir d)) [
    | inl p ↦
        let other : (table (s.mem pgdir d) == x) ≡ false =
          ground (arith, (fresh space).off_tables d b p) in
        rw (p, other) refl
    | inr p ↦ rw p refl
  ])

  pub taken-pte : (va : ℕ) → pte_at (taken true x s).mem pgdir va ≡ pte_at s.mem pgdir va
  taken-pte va = taken-cell (pdx va) (ptx va) (omega arith)

  pub taken-CanInsert :
      (va : ℕ)
      → off_uvpt va ≡ true
      → HasRoom s pgdir va xs
      → (present (pte_at s.mem pgdir va) ≡ true
          → CanDrop s pgdir (x ∷ xs) (table (pte_at s.mem pgdir va)))
      → CanInsert (taken true x s) pgdir va x xs
  taken-CanInsert va off room old = record {
    space = taken-IsSpace;
    off = off;
    room = rw root-kept room;
    out = space.free.nodup.0;
    apart = taken-IsFresh x (fresh space);
    fits = rw (==-refl x) (ground (arith, space.free.unused x));
    old = rw (taken-pte va) λ p.
        let drop = old p in
        record {
          bound = drop.bound;
          out = ground (arith, drop.out);
          counted = ground (arith, drop.counted, drop.out);
          fresh = taken-IsFresh _ drop.fresh;
        };
  }

  -- The page taken, and the others
  pub taken-new : IsPage (taken true x s) pgdir xs x
  taken-new = record {
    bound = (space.free.unused x (ground arith)).1;
    out = space.free.nodup.0;
    fresh = taken-IsFresh x (fresh space);
  }

  pub taken-IsPage :
      (y : ℕ)
      → IsPage s pgdir (x ∷ xs) y
      → IsPage (taken true x s) pgdir xs y
        × ((taken true x s).mem y ≡ s.mem y)
        × ((taken true x s).pages y ≡ s.pages y)
        × (x ≢ y)
  taken-IsPage y page =
      let ne : x ≢ y = λ q. ground (arith, page.out) in
      let other : (y == x) ≡ false = ground arith in
      (
        record {
          bound = page.bound;
          out = ground (arith, page.out);
          fresh = taken-IsFresh y page.fresh;
        },
        rw other refl,
        rw other refl,
        ne,
      )
