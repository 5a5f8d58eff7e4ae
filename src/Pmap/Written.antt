-- ===== src/Pmap/Written.antt =====
-- A program writes to a page in use: what kern/pmap.c keeps of the page tables.
use xv6_lab.Base.{ℕ, ◌<◌, ◌≡◌, refl, false, List, arith, ◌==◌, update, Bool-cases, inl, inr}
use xv6_lab.Machine.Phys.{Phys}
use xv6_lab.Pmap.Space.{mapped, table, cell}
use xv6_lab.Pmap.Walk.{IsSpace, IsFreeList-mem}
use xv6_lab.Pmap.Held.{IsPage}

-- Writing to a page in use changes no translation.
module _ {s : Phys} {pgdir x : ℕ} {xs : List ℕ} (space : IsSpace s pgdir xs)
    (page : IsPage s pgdir xs x) (f : ℕ → ℕ) where
  abbrev pub overwritten : Phys
  overwritten = record s { mem = update s.mem x f }

  root-other : (pgdir == x) ≡ false
  root-other = ground (arith, page.fresh.off_root)

  pub overwritten-cell :
      (d i : ℕ) → d < 1024 → cell overwritten.mem pgdir d i ≡ cell s.mem pgdir d i
  overwritten-cell d i b = rw root-other (elim (Bool-cases (mapped s.mem pgdir d)) [
    | inl p ↦
        let other : (table (s.mem pgdir d) == x) ≡ false =
          ground (arith, page.fresh.off_tables d b p) in
        rw (p, other) refl
    | inr p ↦ rw p refl
  ])

  pub overwritten-IsSpace : IsSpace overwritten pgdir xs
  overwritten-IsSpace = record {
    small = space.small;
    free = IsFreeList-mem overwritten.mem space.free;
    unlinked = space.unlinked;
    tables = record {
      inside = rw root-other space.tables.inside;
      off_root = rw root-other space.tables.off_root;
      apart = rw root-other space.tables.apart;
    };
    root = space.root;
    kept = rw root-other space.kept;
  }

  pub overwritten-IsPage : (y : ℕ) → IsPage s pgdir xs y → IsPage overwritten pgdir xs y
  overwritten-IsPage y held = record {
    bound = held.bound;
    out = held.out;
    fresh = record {
      off_root = held.fresh.off_root;
      off_tables = rw root-other held.fresh.off_tables;
    };
  }
