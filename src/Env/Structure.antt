-- ===== src/Env/Structure.antt =====
-- kern/env.c: the page directory that env_setup_vm makes has the structure that kern/pmap.c keeps.
use xv6_lab.Base.{==-refl, ℕ, ◌<◌, ◌≡◌, true, false, some, List, ◌∷◌, arith, has, ◌==◌, subst, sym}
use xv6_lab.Machine.Phys.{Phys, ok}
use xv6_lab.Pmap.FreeList.{with_ref-IsFreeList, taken-IsFreeList}
use xv6_lab.Pmap.Space.{mapped, table}
use xv6_lab.Pmap.Walk.{IsSpace, IsFreeList-mem}
use xv6_lab.Env.Setup.{setup_pgdir}
use xv6_lab.Env.Birth.{directed, setup_pgdir-directed}

module _ {s : Phys} {kern x : ℕ} {xs : List ℕ} (space : IsSpace s kern (x ∷ xs)) where
  -- What the new directory maps, UVPT apart, the kernel's maps by the same entry.
  kernel_entry :
      (d : ℕ)
      → d < 1024
      → mapped (directed x kern s).mem x d ≡ true
      → ((directed x kern s).mem x d ≡ s.mem kern d) × (mapped s.mem kern d ≡ true)
  kernel_entry d b p =
      let other : (kern == x) ≡ false = ground (arith, space.root) in
      let q = rw (==-refl x, other) at p in (rw (==-refl x, other) (ground arith), ground arith)

  kernel_table :
      (d : ℕ)
      → d < 1024
      → mapped (directed x kern s).mem x d ≡ true
      → has (table ((directed x kern s).mem x d)) (x ∷ xs) ≡ false
  kernel_table d b p =
      let (e, q) = kernel_entry d b p in
      subst (λ (w : ℕ). has (table w) (x ∷ xs) ≡ false) (sym e) (space.kept d b q)

  directed-IsSpace : IsSpace (directed x kern s) x xs
  directed-IsSpace = record {
    small = space.small;
    free =
        IsFreeList-mem (directed x kern s).mem
          (with_ref-IsFreeList x 1 space.free.nodup.0 (taken-IsFreeList true space.free));
    unlinked = λ q b o. ground (arith, space.unlinked q);
    tables = record {
      inside = λ d b p. let (e, q) = kernel_entry d b p in rw e (space.tables.inside d b q);
      off_root = λ d b p. ground (arith, kernel_table d b p);
      apart = λ d d' b b' p p' same.
          let (e, q) = kernel_entry d b p in
          let (e', q') = kernel_entry d' b' p' in
          space.tables.apart d d' b b' q q' (rw (e, e') at same);
    };
    root = ((space.free.unused x (ground arith)).1, space.free.nodup.0);
    kept = λ d b p. ground (arith, kernel_table d b p);
  }

  -- From the kernel's page directory in an address space as pmap.c builds it, env_setup_vm makes
  -- another address space of this structure, whose directory is the first free page.
  pub setup_pgdir-IsSpace :
      setup_pgdir kern s ≡ ok (some x) (directed x kern s) × IsSpace (directed x kern s) x xs
  setup_pgdir-IsSpace = (setup_pgdir-directed kern space.small space.free, directed-IsSpace)
