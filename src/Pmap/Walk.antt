-- ===== src/Pmap/Walk.antt =====
-- kern/pmap.c, pgdir_walk: it finds or makes the page table entry of an address.
use xv6_lab.Base.{
  ==-refl, ℕ, ◌+◌, ◌*◌, ◌/◌, ◌^◌, ◌≤◌, ◌<◌, ◌≡◌, ◌≢◌, ◌⊎◌, refl, Bool, true, false, none, some,
  List, [], ◌∷◌, arith, ltb, has, length, suc, Bool-cases, inl, inr, ap, ◌∙◌,
}
use xv6_lab.Machine.Mmu.{pdx, ptx, present, pte_addr}
use xv6_lab.Machine.Phys.{Phys, ok, kaddr}
use xv6_lab.Pmap.Table.{pgdir_walk, install, entry_in, pde_for}
use xv6_lab.Pmap.FreeList.{
  IsFreeList, taken, with_ref, page_alloc_lem, taken-IsFreeList, with_ref-IsFreeList,
}
use xv6_lab.Pmap.Space.{
  Mem, mapped, off_uvpt, table, cell, IsTables, IsFresh, installed, pde_for_lem, installed-root,
  cell-installed, IsTables-installed,
}

-- The structure around the page directory `pgdir`, with the free list `xs`: the page directory and its
-- page tables are allocated, and an allocated page has no link.
pub record IsSpace (s : Phys) (pgdir : ℕ) (xs : List ℕ) : Type 0 where
  pub small : s.npages ≤ 2 ^ 20
  pub free : IsFreeList s xs
  pub unlinked : (p : ℕ) → p < s.npages → has p xs ≡ false → (s.pages p).link ≡ none
  pub tables : IsTables s.npages s.mem pgdir
  pub root : (pgdir < s.npages) × (has pgdir xs ≡ false)
  pub kept :
      (d : ℕ) → d < 1024 → mapped s.mem pgdir d ≡ true → has (table (s.mem pgdir d)) xs ≡ false

pgnum-pte_addr : (w : ℕ) → w / 4096 * 4096 / 2 ^ 12 ≡ w / 4096
pgnum-pte_addr w = omega arith

pub kaddr_lem : (s : Phys) (w : ℕ) → table w < s.npages → kaddr (pte_addr w) s ≡ ok (table w) s
kaddr_lem s w h =
    let inside : ltb (w / 4096) s.npages ≡ true = ground arith in rw (pgnum-pte_addr w, inside)

entry_in_lem :
    (s : Phys) (x va : ℕ)
    → x < s.npages
    → x < 2 ^ 20
    → entry_in (pde_for x) va s ≡ ok (some (x, ptx va)) s
entry_in_lem s x va bound small =
    let inside : ltb x s.npages ≡ true = ground arith in
    let page : (x * 4096 + 7) / 4096 * 4096 / 2 ^ 12 ≡ x = omega arith in
    rw (pde_for_lem x small, page, inside)

-- The state once page `x`, taken from the free list, is the page table of entry `d`
abbrev pub grown : (x pgdir d : ℕ) → Phys → Phys
grown x pgdir d s = record (with_ref x 1 (taken true x s)) { mem = installed s.mem pgdir d x }

module _ (s : Phys) (pgdir va : ℕ) where
  pub walk-inside :
      (create : Bool)
      → present (s.mem pgdir (pdx va)) ≡ true
      → table (s.mem pgdir (pdx va)) < s.npages
      → pgdir_walk pgdir va create s ≡ ok (some (table (s.mem pgdir (pdx va)), ptx va)) s
  unfolding pgdir_walk
  walk-inside create p inside = rw (p, kaddr_lem s (s.mem pgdir (pdx va)) inside)

  -- The walk that may not create changes nothing.
  pub walk-absent : present (s.mem pgdir (pdx va)) ≡ false → pgdir_walk pgdir va false s ≡ ok none s
  unfolding pgdir_walk
  walk-absent p = rw p

module _ {s : Phys} {pgdir : ℕ} {xs : List ℕ} (va : ℕ) (space : IsSpace s pgdir xs) where
  pub walk-present :
      (create : Bool)
      → mapped s.mem pgdir (pdx va) ≡ true
      → pgdir_walk pgdir va create s ≡ ok (some (table (s.mem pgdir (pdx va)), ptx va)) s
  walk-present create p =
      walk-inside s pgdir va create (ground arith) (space.tables.inside (pdx va) (omega arith) p)

module _ {s : Phys} {pgdir : ℕ} (va : ℕ) where
  pub walk-empty :
      IsSpace s pgdir []
      → present (s.mem pgdir (pdx va)) ≡ false
      → pgdir_walk pgdir va true s ≡ ok none s
  unfolding pgdir_walk install
  walk-empty space p = rw (p, (page_alloc_lem true [] space.small space.free))

  pub walk-new :
      (x : ℕ) (ys : List ℕ)
      → IsSpace s pgdir (x ∷ ys)
      → present (s.mem pgdir (pdx va)) ≡ false
      → pgdir_walk pgdir va true s ≡ ok (some (x, ptx va)) (grown x pgdir (pdx va) s)
  unfolding pgdir_walk install
  walk-new x ys space p =
      let alloc = page_alloc_lem true (x ∷ ys) space.small space.free in
      let bound : x < s.npages = (space.free.unused x (ground arith)).1 in
      let zero : (s.pages x).ref ≡ 0 = (space.free.unused x (ground arith)).0 in
      rw (p, alloc.0)
        (entry_in_lem _ x va bound (omega arith)
          ∙ ap (λ l. ok (some (x, ptx va)) l) (rw (==-refl x, zero)))

-- The free list does not depend on the contents of memory.
pub IsFreeList-mem :
    {s : Phys} {xs : List ℕ} (m : Mem) → IsFreeList s xs → IsFreeList (record s { mem = m }) xs
IsFreeList-mem m l = record { chain = l.chain; nodup = l.nodup; unused = l.unused }

module _ {s : Phys} {pgdir x : ℕ} {ys : List ℕ} (space : IsSpace s pgdir (x ∷ ys)) where
  pub fresh : IsFresh s.mem pgdir x
  fresh = record {
    off_root = ground (arith, space.root);
    off_tables = λ d b p. ground (arith, space.kept d b p);
  }

  bound : x < s.npages
  bound = (space.free.unused x (ground arith)).1

  pub grown-IsSpace : (d : ℕ) → mapped s.mem pgdir d ≡ false → IsSpace (grown x pgdir d s) pgdir ys
  grown-IsSpace d p =
      let small : x < 2 ^ 20 = omega (arith, bound, space.small) in
      record {
        small = space.small;
        free =
            IsFreeList-mem (installed s.mem pgdir d x)
              (with_ref-IsFreeList x 1 space.free.nodup.0 (taken-IsFreeList true space.free));
        unlinked = λ q b o. ground (arith, space.unlinked q);
        tables = IsTables-installed space.tables fresh small d bound;
        root = ground (arith, space.root);
        kept = λ e b q. ground (
          arith,
          installed-root s.mem pgdir x d e fresh.off_root small,
          space.kept e b,
          space.free.nodup,
        );
      }

IsFresh-installed :
    {m : Mem} {pgdir : ℕ} (x d q : ℕ)
    → x ≢ pgdir
    → x < 2 ^ 20
    → x ≢ q
    → IsFresh m pgdir q
    → IsFresh (installed m pgdir d x) pgdir q
IsFresh-installed {m} {pgdir} x d q ne small ne' f = record {
  off_root = f.off_root;
  off_tables = λ e b p. ground (arith, installed-root m pgdir x d e ne small, f.off_tables e b);
}

-- What a walk leaves: the entry's place `e`, in a page table that is present, the structure, and
-- everything else as it was.
pub record Walked (s t : Phys) (pgdir va : ℕ) (xs ys : List ℕ) (e : ℕ × ℕ) : Type 0 where
  pub found : mapped t.mem pgdir (pdx va) ≡ true
  pub place : e ≡ (table (t.mem pgdir (pdx va)), ptx va)
  pub space : IsSpace t pgdir ys
  pub same : (d i : ℕ) → d < 1024 → cell t.mem pgdir d i ≡ cell s.mem pgdir d i
  pub pages : (p : ℕ) → has p xs ≡ false → t.pages p ≡ s.pages p
  pub fewer : (p : ℕ) → has p xs ≡ false → has p ys ≡ false
  pub one_less : length xs ≤ suc (length ys)
  pub same_free : mapped s.mem pgdir (pdx va) ≡ true → ys ≡ xs
  pub npages : t.npages ≡ s.npages
  pub fresh : (q : ℕ) → has q xs ≡ false → IsFresh s.mem pgdir q → IsFresh t.mem pgdir q
  pub roots : (d : ℕ) → d ≢ pdx va → t.mem pgdir d ≡ s.mem pgdir d
  pub frame : (q : ℕ) → has q xs ≡ false → IsFresh s.mem pgdir q → t.mem q ≡ s.mem q

-- Whether a walk that may create gets its page table: there is one, or a page is free.
abbrev pub HasRoom : Phys → (pgdir va : ℕ) → List ℕ → Type 0
HasRoom s pgdir va xs = (mapped s.mem pgdir (pdx va) ≡ true) ⊎ (xs ≢ [])

pub pgdir_walk-Walked :
    {s : Phys} {pgdir : ℕ} (va : ℕ) (xs : List ℕ)
    → IsSpace s pgdir xs
    → off_uvpt va ≡ true
    → HasRoom s pgdir va xs
    → (e : ℕ × ℕ) × (t : Phys) × (ys : List ℕ) × (pgdir_walk pgdir va true s ≡ ok (some e) t)
      × Walked s t pgdir va xs ys e
pgdir_walk-Walked {s} {pgdir} va xs space off room =
    elim (Bool-cases (mapped s.mem pgdir (pdx va))) [
      | inl p ↦ (_, s, xs, walk-present va space true p, stay p)
      | inr p ↦ grow xs space room p
    ]
  where
    stay :
        mapped s.mem pgdir (pdx va) ≡ true
        → Walked s s pgdir va xs xs (table (s.mem pgdir (pdx va)), ptx va)
    stay p = record {
      found = p;
      place = refl;
      space = space;
      same = λ d i b. refl;
      pages = λ q o. refl;
      fewer = λ q o. o;
      one_less = omega arith;
      same_free = λ q. refl;
      npages = refl;
      fresh = λ q o f. f;
      roots = λ d ne. refl;
      frame = λ q o f. refl;
    }

    grow :
        (zs : List ℕ)
        → IsSpace s pgdir zs
        → HasRoom s pgdir va zs
        → mapped s.mem pgdir (pdx va) ≡ false
        → (e : ℕ × ℕ) × (t : Phys) × (ys : List ℕ) × (pgdir_walk pgdir va true s ≡ ok (some e) t)
          × Walked s t pgdir va zs ys e
    grow [] sp r p = absurd (ground arith)
    grow (x ∷ ys) sp r p =
        let small : x < 2 ^ 20 = omega (arith, bound sp, sp.small) in
        let root = installed-root s.mem pgdir x (pdx va) (pdx va) (fresh sp).off_root small in
        let at : x ≡ table (installed s.mem pgdir (pdx va) x pgdir (pdx va)) =
          ground (arith, root) in
        (
          _,
          grown x pgdir (pdx va) s,
          ys,
          walk-new va x ys sp (ground arith),
          record {
            found = ground (arith, root);
            place = ap (λ k. (k, ptx va)) at;
            space = grown-IsSpace sp (pdx va) p;
            same = λ d i b. cell-installed sp.tables (fresh sp) small (pdx va) p d i b;
            pages = λ q o. ground arith;
            fewer = λ q o. ground arith;
            one_less = omega arith;
            same_free = λ q. absurd (ground arith);
            npages = refl;
            fresh =
                λ q o f. IsFresh-installed x (pdx va) q (fresh sp).off_root small (ground arith) f;
            roots = λ d ne.
                installed-root s.mem pgdir x (pdx va) d (fresh sp).off_root small ∙ ground arith;
            frame = λ q o f. ground (arith, f.off_root);
          },
        )
