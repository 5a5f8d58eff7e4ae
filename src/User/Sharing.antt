-- ===== src/User/Sharing.antt =====
-- lib/fork.c, duppage: parent and child share a page, copy-on-write if either may write to it.
use xv6_lab.Base.{
  ℕ, ◌+◌, ◌*◌, ◌^◌, ◌<◌, ◌≡◌, refl, true, false, some, List, arith, ◌||◌, inl, inr, ap, ◌∙◌, sym,
  if◌then◌else◌, Bool-cases,
}
use xv6_lab.Base.Bits.{bit_or-Fields, bit_or-zero}
use xv6_lab.Machine.Mmu.{u32, pdx, ptx, present, writable, utop}
use xv6_lab.Machine.Phys.{Phys, ok}
use xv6_lab.Machine.Kernel.{Kernel, cur_pgdir}
use xv6_lab.Pmap.Table.{page_insert}
use xv6_lab.Pmap.Space.{table, pte_at}
use xv6_lab.Pmap.Walk.{IsSpace}
use xv6_lab.Pmap.Insert.{entry_for}
use xv6_lab.Pmap.Remove.{pte-read}
use xv6_lab.Env.Lookup.{envid2env}
use xv6_lab.Syscall.Ret.{val}
use xv6_lab.Syscall.Page.{bad_perm}
use xv6_lab.Syscall.Mapping.{IsRequest, sys_page_map-runs}
use xv6_lab.User.Calls.{Outside, came, call_page_map}
use xv6_lab.User.Fork.{is_cow, is_shared, duppage}
use xv6_lab.User.Running.{call_page_map-came}
use xv6_lab.User.Lending.{CanShare, Lent, lend, renew}

-- PTE_COW | PTE_U | PTE_P with the page `q`
abbrev pub cow_entry : (q : ℕ) → ℕ
cow_entry q = q * 4096 + 0x805

-- What becomes of the entry `pte` of a page that is passed on, and what the child gets for it
abbrev pub left_entry : (pte : ℕ) → ℕ
left_entry pte = if writable pte || is_cow pte then cow_entry (table pte) else pte

abbrev pub lent_entry : (pte : ℕ) → ℕ
lent_entry pte = if writable pte || is_cow pte then cow_entry (table pte) else table pte * 4096 + 5

-- Page `q`, mapped at `va` in the parent, is in both.
pub record Shared (s t : Phys) (d d' va q : ℕ) (xs ys : List ℕ) : Type 0 where
  pub step :
      Lent s t d d' va (left_entry (pte_at s.mem d va)) (lent_entry (pte_at s.mem d va)) xs ys
  pub count : (t.pages q).ref ≡ (s.pages q).ref + 1

entry_for-cow : (q : ℕ) → q < 2 ^ 20 → entry_for q 0x805 ≡ cow_entry q
entry_for-cow q small = ground (
  arith,
  bit_or-Fields 12 q 0 0 0x805 (omega arith) (omega arith),
  bit_or-Fields 12 q 0 0x805 1 (omega arith) (omega arith),
  bit_or-zero q,
)

entry_for-read : (q : ℕ) → q < 2 ^ 20 → entry_for q 5 ≡ q * 4096 + 5
entry_for-read q small = ground (
  arith,
  bit_or-Fields 12 q 0 0 5 (omega arith) (omega arith),
  bit_or-Fields 12 q 0 5 1 (omega arith) (omega arith),
  bit_or-zero q,
)

-- The page of `pn` is the parent's and is not one to be shared as it is; `envid` names the child `c`.
pub record IsSharing (e c envid pn : ℕ) (k : Kernel) (q : ℕ) (xs : List ℕ) : Type 0 where
  pub named : envid2env e envid true k ≡ some c
  pub low : pn * 4096 < utop
  pub kind : is_shared (pte_at k.phys.mem (k.envs e).pgdir (pn * 4096)) ≡ false
  pub can : CanShare k.phys (k.envs e).pgdir (k.envs c).pgdir (pn * 4096) q xs

module _ (o : Outside) (e c envid pn : ℕ) (k : Kernel) {q : ℕ} {xs : List ℕ}
    (sharing : IsSharing e c envid pn k q xs) where
  open sharing use {can, low}

  abbrev pte : ℕ
  pte = pte_at k.phys.mem (k.envs e).pgdir (pn * 4096)

  small : q < 2 ^ 20
  small = omega (arith, can.page.mine.bound, can.spaces.mine.small)

  word : pn * 4096 < 2 ^ 32
  word = omega (arith, low)

  to_child :
      (perm : ℕ) → bad_perm perm ≡ false → IsRequest e 0 (pn * 4096) envid (pn * 4096) perm e c k
  unfolding envid2env
  to_child perm fine = record {
    source = refl;
    target = sharing.named;
    source_va = ground (arith, low);
    target_va = ground (arith, low);
    flags = fine;
  }

  to_self : (j : Kernel) → IsRequest e 0 (pn * 4096) 0 (pn * 4096) 0x805 e e j
  unfolding envid2env
  to_self j = record {
    source = refl;
    target = refl;
    source_va = ground (arith, low);
    target_va = ground (arith, low);
    flags = refl;
  }

  child_call :
      (perm : ℕ) {t : Phys}
      → bad_perm perm ≡ false
      → writable perm ≡ false
      → page_insert (cur_pgdir k) (k.envs c).pgdir q (pn * 4096) perm k.phys ≡ ok true t
      → call_page_map o e 0 (pn * 4096) envid (pn * 4096) perm k
        ≡ came (val 0) (record k { phys = t })
  child_call perm fine read run = call_page_map-came o e k (pn * 4096) envid (pn * 4096) perm (
      sys_page_map-runs e 0 (pn * 4096) envid (pn * 4096) perm e c k (to_child perm fine)
        can.spaces.mine can.mapped (rw can.at can.page.mine.bound) (inr read) (rw can.at run))

  self_call :
      (m : Phys) {t : Phys} {ys : List ℕ}
      → IsSpace m (k.envs e).pgdir ys
      → pte_at m.mem (k.envs e).pgdir (pn * 4096) ≡ pte
      → q < m.npages
      → page_insert (cur_pgdir k) (k.envs e).pgdir q (pn * 4096) 0x805 m ≡ ok true t
      → call_page_map o e 0 (pn * 4096) 0 (pn * 4096) 0x805 (record k { phys = m })
        ≡ came (val 0) (record k { phys = t })
  self_call m space same bound run =
      let at : table (pte_at m.mem (k.envs e).pgdir (pn * 4096)) ≡ q = ap table same ∙ can.at in
      call_page_map-came o e (record k { phys = m }) (pn * 4096) 0 (pn * 4096) 0x805
        (sys_page_map-runs e 0 (pn * 4096) 0 (pn * 4096) 0x805 e e (record k { phys = m })
          (to_self (record k { phys = m })) space (rw same can.mapped) (rw at bound) (inr refl)
          (rw at run))

  abbrev Runs : Type 0
  Runs =
      (t : Phys) × (ys : List ℕ) × (duppage o e envid pn k ≡ came (val 0) (record k { phys = t }))
      × Shared k.phys t (k.envs e).pgdir (k.envs c).pgdir (pn * 4096) q xs ys

  -- The program reads the entry in its page table.
  found_raw :
      (present (k.phys.mem (k.envs e).pgdir (pdx (pn * 4096))) ≡ true)
      × (pte ≡ k.phys.mem (table (k.phys.mem (k.envs e).pgdir (pdx (pn * 4096)))) (ptx (pn * 4096)))
  found_raw = pte-read (pn * 4096) can.spaces.mine can.mapped

  duppage-cow : (writable pte || is_cow pte) ≡ true → Runs
  unfolding duppage
  duppage-cow cow =
      let (m, ys, bound, first, lent, count) = lend (cur_pgdir k) 0x805 can low in
      let at : table (pte_at m.mem (k.envs e).pgdir (pn * 4096)) ≡ q =
        ap table lent.parent ∙ can.at in
      let mapped : present (pte_at m.mem (k.envs e).pgdir (pn * 4096)) ≡ true =
        ap present lent.parent ∙ can.mapped in
      let (t, second, step, again) =
        renew (cur_pgdir k) 0x805 lent low mapped at (lent.pages q can.page).common
          (omega (arith, count, can.counts)) in
      let address : u32 (pn * 4096) ≡ pn * 4096 = omega arith in
      let (found, raw) = found_raw in
      let no_share = rw raw at sharing.kind in
      let cow' = rw raw at cow in
      let entry : entry_for q 0x805 ≡ cow_entry (table pte) =
        entry_for-cow q small ∙ ap cow_entry (sym can.at) in
      (
        t,
        ys,
        rw
            (
              address,
              found,
              no_share,
              cow',
              child_call 0x805 refl refl first,
              self_call m lent.spaces.mine lent.parent bound second,
            )
            refl,
        record { step = rw (cow, ← entry) step; count = again ∙ count },
      )

  duppage-read : (writable pte || is_cow pte) ≡ false → Runs
  unfolding duppage
  duppage-read read =
      let (m, ys, _, first, lent, count) = lend (cur_pgdir k) 5 can low in
      let address : u32 (pn * 4096) ≡ pn * 4096 = omega arith in
      let (found, raw) = found_raw in
      let no_share = rw raw at sharing.kind in
      let read' = rw raw at read in
      let entry : entry_for q 5 ≡ table pte * 4096 + 5 =
        entry_for-read q small ∙ ap (λ (p : ℕ). p * 4096 + 5) (sym can.at) in
      (
        m,
        ys,
        rw (address, found, no_share, read', child_call 5 refl refl first) refl,
        record { step = rw (read, ← entry) lent; count = count },
      )

-- For a page of the parent that is not PTE_SHARE, with a child whose page tables below UTOP are
-- apart from the parent's, that shares the kernel's entries with it and maps nothing at the
-- address, a free page, and room in the page's counter: duppage returns 0; if the page is writable
-- or copy-on-write, both map it copy-on-write and not writable, else the child maps it read-only
-- and the parent's entry stays; no other translation of either changes outside the 4 MB at UVPT,
-- the pages in use keep their contents, this one has one reference more, and both address spaces
-- keep their structure and stay apart.
pub duppage-Shared :
    (o : Outside) (e c envid pn : ℕ) (k : Kernel) {q : ℕ} {xs : List ℕ}
    → IsSharing e c envid pn k q xs
    → (t : Phys) × (ys : List ℕ) × (duppage o e envid pn k ≡ came (val 0) (record k { phys = t }))
      × Shared k.phys t (k.envs e).pgdir (k.envs c).pgdir (pn * 4096) q xs ys
duppage-Shared o e c envid pn k sharing =
    elim (Bool-cases (
      writable (pte_at k.phys.mem (k.envs e).pgdir (pn * 4096))
      || is_cow (pte_at k.phys.mem (k.envs e).pgdir (pn * 4096)))) [
        | inl cow ↦ duppage-cow o e c envid pn k sharing cow
        | inr read ↦ duppage-read o e c envid pn k sharing read
      ]
