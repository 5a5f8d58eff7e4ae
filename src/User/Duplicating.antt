-- ===== src/User/Duplicating.antt =====
-- lib/fork.c, the loop of fork: the child gets the parent's pages.
use xv6_lab.Base.{
  ℕ, zero, suc, ◌+◌, ◌*◌, ◌^◌, ◌≤◌, ◌≡◌, ◌==◌, refl, true, false, some, List, arith, inl, inr, ◌∙◌,
  if◌then◌else◌, Bool-cases,
}
use xv6_lab.Machine.Mmu.{u32, pdx, pgnum, present, utop}
use xv6_lab.Machine.Phys.{Phys}
use xv6_lab.Machine.Kernel.{Kernel}
use xv6_lab.Pmap.Space.{uvpt_index, table, pte_at}
use xv6_lab.Pmap.Remove.{pte-read}
use xv6_lab.Env.Lookup.{envid2env}
use xv6_lab.Syscall.Ret.{val}
use xv6_lab.User.Calls.{Outside, came, and_then, pure, ◌>>◌, uvpt_entry}
use xv6_lab.User.Fork.{duppage, dup_mapped, dup_pages}
use xv6_lab.User.Lending.{Lent}
use xv6_lab.User.Going.{
  goes, left, lent, going, CanDuplicate, Duplicated, CanDuplicate-rest, CanDuplicate-skip,
  Lent-none, Duplicated-step,
}
use xv6_lab.User.Sharing.{Shared, IsSharing, duppage-Shared}

module _ (o : Outside) (e c envid : ℕ) where
  -- A round of the loop, with `n` pages left after it
  abbrev Round : (n pn : ℕ) (k : Kernel) → List ℕ → Type 0
  Round n pn k xs =
      let d = (k.envs e).pgdir in
      let d' = (k.envs c).pgdir in
      let pte = pte_at k.phys.mem d (pn * 4096) in
      (m : Phys) × (ys : List ℕ) × (dup_mapped o e envid (pn * 4096) k
        ≡ came tt (record k { phys = m }))
      × Lent k.phys m d d' (pn * 4096) (left pte) (lent pte (pte_at k.phys.mem d' (pn * 4096))) xs
          ys
      × CanDuplicate m d d' n (pn + 1) ys

  module _ (n pn : ℕ) (k : Kernel) {xs : List ℕ} (named : envid2env e envid true k ≡ some c)
      (low : (pn + suc n) * 4096 ≤ utop)
      (can : CanDuplicate k.phys (k.envs e).pgdir (k.envs c).pgdir (suc n) pn xs) where
    abbrev entry : ℕ
    entry = pte_at k.phys.mem (k.envs e).pgdir (pn * 4096)

    addressed : pgnum (pn * 4096) ≡ pn
    addressed = omega arith

    address : u32 (pn * 2 ^ 12) ≡ pn * 4096
    address = omega (arith, low)

    -- Under a page table the round reads the entry.
    dup_mapped-looks :
        present (k.phys.mem (k.envs e).pgdir (pdx (pn * 4096))) ≡ true
        → dup_mapped o e envid (pn * 4096) k
          ≡ and_then
              (uvpt_entry o e pn k)
              (λ pte. if goes pte then duppage o e envid pn >> pure tt else pure tt)
    unfolding dup_mapped
    dup_mapped-looks found = rw (found, addressed) refl

    dup_mapped-goes :
        {m : Phys}
        → goes entry ≡ true
        → duppage o e envid pn k ≡ came (val 0) (record k { phys = m })
        → dup_mapped o e envid (pn * 4096) k ≡ came tt (record k { phys = m })
    dup_mapped-goes go run =
        let (found, raw) = pte-read (pn * 4096) can.spaces.mine (ground arith) in
        let go' = rw raw at go in dup_mapped-looks found ∙ rw (address, found, go', run) refl

    goes-IsSharing : goes entry ≡ true → IsSharing e c envid pn k (table entry) xs
    goes-IsSharing go =
        let it = can.pages pn (omega arith) (omega arith) go in
        let count : going k.phys.mem (k.envs e).pgdir (suc n) pn
            ≡ suc (going k.phys.mem (k.envs e).pgdir n (pn + 1)) =
          rw go refl in
        record {
          named = named;
          low = omega (arith, low);
          kind = it.unshared;
          can = record {
            spaces = can.spaces;
            room = λ h. ground (arith, can.room, count, h);
            mapped = ground arith;
            at = refl;
            page = it.page;
            counts = omega (arith, it.counts, count);
            empty = it.empty;
          };
        }

    gone :
        (m : Phys) (ys : List ℕ)
        → goes entry ≡ true
        → duppage o e envid pn k ≡ came (val 0) (record k { phys = m })
        → Shared k.phys m (k.envs e).pgdir (k.envs c).pgdir (pn * 4096) (table entry) xs ys
        → Round n pn k xs
    gone m ys go run shared =
        (m, ys, dup_mapped-goes go run, rw go shared.step, CanDuplicate-rest can low shared.step go)

    Round-goes : goes entry ≡ true → Round n pn k xs
    Round-goes go =
        let (m, ys, run, shared) = duppage-Shared o e c envid pn k (goes-IsSharing go) in
        gone m ys go run shared

    Round-stays : goes entry ≡ false → Round n pn k xs
    unfolding dup_mapped
    Round-stays stay = (
      k.phys,
      xs,
      elim (Bool-cases (present (k.phys.mem (k.envs e).pgdir (pdx (pn * 4096))))) [
        | inl found ↦
            let other : (pdx (pn * 4096) == uvpt_index) ≡ false = ground (arith, low) in
            let stay' = rw (found, other) at stay in
            dup_mapped-looks found ∙ rw (address, found, stay') refl
        | inr absent ↦ rw absent refl
      ],
      rw stay (Lent-none can.spaces),
      CanDuplicate-skip can stay,
    )

    pub round : Round n pn k xs
    round = elim (Bool-cases (goes entry)) [ inl go ↦ Round-goes go | inr stay ↦ Round-stays stay ]

-- For pages below UTOP, with a child whose page tables below UTOP are apart from the parent's and
-- that shares the kernel's entries with it, as many free pages as go to the child, and each page
-- that goes not PTE_SHARE, with room in its counter and nothing mapped at its address in the
-- child: the loop of fork comes to its end; each page that is mapped for the user and writable or
-- copy-on-write is then mapped copy-on-write in both, each other page mapped for the user is
-- mapped read-only in the child and as before in the parent, no other translation of either
-- changes outside the 4 MB at UVPT, every page in use keeps its contents, and both address spaces
-- keep their structure and stay apart.
pub dup_pages-Duplicated :
    (o : Outside) (e c envid n from : ℕ) (k : Kernel) {xs : List ℕ}
    → envid2env e envid true k ≡ some c
    → (from + n) * 4096 ≤ utop
    → CanDuplicate k.phys (k.envs e).pgdir (k.envs c).pgdir n from xs
    → (t : Phys) × (ys : List ℕ) × (dup_pages o e n envid (from * 4096) k
        ≡ came tt (record k { phys = t }))
      × Duplicated k.phys t (k.envs e).pgdir (k.envs c).pgdir n from xs ys
unfolding dup_pages envid2env
dup_pages-Duplicated o e c envid zero from k {xs} named low can = (
  k.phys,
  xs,
  refl,
  record {
    parent = λ pn a b. absurd (omega arith);
    child = λ pn a b. absurd (omega arith);
    elsewhere = λ v b h. (refl, refl);
    pages = λ y both. (both, refl);
    spaces = can.spaces;
  },
)
dup_pages-Duplicated o e c envid (suc n) from k {xs} named low can =
    let (m, ys, first, step, can') = round o e c envid n from k named low can in
    let (t, zs, others, rest) =
      dup_pages-Duplicated o e c envid n (from + 1) (record k { phys = m }) named
        (omega (arith, low)) can' in
    let next : from * 4096 + 4096 ≡ (from + 1) * 4096 = omega arith in
    (t, zs, rw (first, next, others) refl, Duplicated-step low step rest)
