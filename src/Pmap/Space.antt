-- ===== src/Pmap/Space.antt =====
-- An address space as a map from virtual pages to page table entries, and the structure that the page
-- tables of kern/pmap.c keep.
use xv6_lab.Base.{
  ℕ, ◌+◌, ◌*◌, ◌/◌, ◌^◌, ◌<◌, ◌≡◌, ◌≢◌, Bool, true, false, not, ◌&&◌, bit_or, arith, ◌==◌,
  if◌then◌else◌, update, Bool-cases, inl, inr,
}
use xv6_lab.Base.Bits.{bit_or-Fields, bit_or-zero}
use xv6_lab.Machine.Mmu.{pdx, ptx, present}
use xv6_lab.Machine.Phys.{page2pa}
use xv6_lab.Pmap.Table.{pde_for}

abbrev pub Mem : Type 0
Mem = ℕ → ℕ → ℕ

-- The page table that a page directory entry names
abbrev pub table : ℕ → ℕ
table pde = pde / 4096

-- PDX(UVPT), the entry by which a page directory names itself
abbrev pub uvpt_index : ℕ
uvpt_index = 957

-- Entry `d` of the page directory names a page table. The one at UVPT does not, as it names the page
-- directory itself.
abbrev pub mapped : Mem → (pgdir d : ℕ) → Bool
mapped m pgdir d = not (d == uvpt_index) && present (m pgdir d)

-- The address lies outside of the 4 MB at UVPT.
abbrev pub off_uvpt : (va : ℕ) → Bool
off_uvpt va = not (pdx va == uvpt_index)

-- Entry `t` of the page table that entry `d` of the page directory names; 0, which is not present,
-- where there is no page table
abbrev pub cell : Mem → (pgdir d t : ℕ) → ℕ
cell m pgdir d t = if mapped m pgdir d then m (table (m pgdir d)) t else 0

-- The page table entry that translates `va`, for an address outside the 4 MB at UVPT
abbrev pub pte_at : Mem → (pgdir va : ℕ) → ℕ
pte_at m pgdir va = cell m pgdir (pdx va) (ptx va)

-- The page table entry by which the processor translates `va`, 0 where there is no page table
abbrev pub translation : Mem → (pgdir va : ℕ) → ℕ
translation m pgdir va =
    if present (m pgdir (pdx va)) then m (table (m pgdir (pdx va))) (ptx va) else 0

abbrev pub store_mem : Mem → (p i v : ℕ) → Mem
store_mem m p i v = update m p (update (m p) i v)

-- The page tables of `pgdir` are physical pages, none is the page directory, and no two entries share
-- one.
pub record IsTables (npages : ℕ) (m : Mem) (pgdir : ℕ) : Type 0 where
  pub inside : (d : ℕ) → d < 1024 → mapped m pgdir d ≡ true → table (m pgdir d) < npages
  pub off_root : (d : ℕ) → d < 1024 → mapped m pgdir d ≡ true → table (m pgdir d) ≢ pgdir
  pub apart :
      (d d' : ℕ)
      → d < 1024
      → d' < 1024
      → mapped m pgdir d ≡ true
      → mapped m pgdir d' ≡ true
      → table (m pgdir d) ≡ table (m pgdir d')
      → d ≡ d'

module _ {npages pgdir : ℕ} {m : Mem} (tables : IsTables npages m pgdir) where
  pub root_kept :
      (d : ℕ) → d < 1024 → mapped m pgdir d ≡ true → (pgdir == table (m pgdir d)) ≡ false
  root_kept d b p = ground (arith, tables.off_root d b p)

  pub cell-store :
      (d t v d' t' : ℕ)
      → d < 1024
      → d' < 1024
      → mapped m pgdir d ≡ true
      → cell (store_mem m (table (m pgdir d)) t v) pgdir d' t'
        ≡ (if (d == d') && (t == t') then v else cell m pgdir d' t')
  cell-store d t v d' t' b b' p = rw (root_kept d b p) (elim (Bool-cases (mapped m pgdir d')) [
    | inl q ↦ rw q (ground (arith, tables.apart d d' b b' p q))
    | inr q ↦ rw q (ground arith)
  ])

  -- The page directory is not written.
  pub IsTables-store :
      (d t v : ℕ)
      → d < 1024
      → mapped m pgdir d ≡ true
      → IsTables npages (store_mem m (table (m pgdir d)) t v) pgdir
  IsTables-store d t v b p = record {
    inside = rw (root_kept d b p) tables.inside;
    off_root = rw (root_kept d b p) tables.off_root;
    apart = rw (root_kept d b p) tables.apart;
  }

pub or_flags : (x r s : ℕ) → r < 4096 → s < 4096 → bit_or (x * 4096 + r) s ≡ x * 4096 + bit_or r s
or_flags x r s hr hs = ground (arith, bit_or-Fields 12 x 0 r s hr hs, bit_or-zero x)

pub page2pa_lem : (x : ℕ) → x < 2 ^ 20 → page2pa x ≡ x * 4096
page2pa_lem x h = omega arith

pub pde_for_lem : (x : ℕ) → x < 2 ^ 20 → pde_for x ≡ x * 4096 + 7
pde_for_lem x h = ground (
  arith,
  page2pa_lem x h,
  or_flags x 0 1 (omega arith) (omega arith),
  or_flags x 1 2 (omega arith) (omega arith),
  or_flags x 3 4 (omega arith) (omega arith),
)

-- The memory once page `x`, cleared, has become the page table of entry `d`
abbrev pub installed : Mem → (pgdir d x : ℕ) → Mem
installed m pgdir d x = store_mem (update m x (λ _. 0)) pgdir d (pde_for x)

-- A page that is neither the page directory nor one of its page tables
pub record IsFresh (m : Mem) (pgdir x : ℕ) : Type 0 where
  pub off_root : x ≢ pgdir
  pub off_tables : (d : ℕ) → d < 1024 → mapped m pgdir d ≡ true → table (m pgdir d) ≢ x

pub installed-root :
    (m : Mem) (pgdir x d e : ℕ)
    → x ≢ pgdir
    → x < 2 ^ 20
    → installed m pgdir d x pgdir e ≡ (if e == d then x * 4096 + 7 else m pgdir e)
installed-root m pgdir x d e ne small = rw (pde_for_lem x small) (ground arith)

module _ {npages pgdir x : ℕ} {m : Mem} (tables : IsTables npages m pgdir) (f : IsFresh m pgdir x)
    (small : x < 2 ^ 20) (d : ℕ) where
  -- A new page table translates nothing, so the address space stays as it is.
  pub cell-installed :
      mapped m pgdir d ≡ false
      → (d' t' : ℕ) → d' < 1024
      → cell (installed m pgdir d x) pgdir d' t' ≡ cell m pgdir d' t'
  cell-installed p d' t' b =
      rw (pde_for_lem x small) (ground (arith, f.off_root, f.off_tables d', tables.off_root d'))

  pub IsTables-installed : x < npages → IsTables npages (installed m pgdir d x) pgdir
  IsTables-installed bound = record {
    inside =
        λ e b q. ground (arith, installed-root m pgdir x d e f.off_root small, tables.inside e);
    off_root = λ e b q.
        ground
          (arith, installed-root m pgdir x d e f.off_root small, tables.off_root e, f.off_root);
    apart = λ e e' b b' q q' h. ground (
      arith,
      installed-root m pgdir x d e f.off_root small,
      installed-root m pgdir x d e' f.off_root small,
      tables.apart e e',
      f.off_tables e,
      f.off_tables e',
    );
  }
