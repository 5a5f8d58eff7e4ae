-- ===== src/Examples/Sharing.antt =====
-- A parent shares a writable page with its child, at a concrete kernel.
use xv6_lab.Base.{
  ℕ, ◌+◌, ◌*◌, ◌<◌, ◌⊎◌, inl, inr, sym, subst, true, ◌≡◌, refl, false, none, some, List, [], arith,
  ◌==◌, ◌&&◌, if◌then◌else◌,
}
use xv6_lab.Machine.Phys.{Phys}
use xv6_lab.Machine.Kernel.{EnvStatus, Kernel}
use xv6_lab.Pmap.Space.{IsTables, pte_at, mapped, table}
use xv6_lab.Pmap.Walk.{IsSpace}
use xv6_lab.Env.Lookup.{envid2env}
use xv6_lab.Syscall.Ret.{val}
use xv6_lab.User.Calls.{came}
use xv6_lab.User.Fork.{duppage, dup_pages}
use xv6_lab.User.Lending.{IsCommon, Spaces}
use xv6_lab.User.Going.{goes, CanGo, CanDuplicate, Duplicated}
use xv6_lab.User.Duplicating.{dup_pages-Duplicated}
use xv6_lab.User.Sharing.{Shared, IsSharing, duppage-Shared}
use xv6_lab.Examples.World.{entries, infos, free, an_env, kernel}

-- Page 1 is the page directory of slot 0 and maps page 6, writable, at 0x5000. Page 7 is the one of
-- slot 1, its child, and is empty.
-- Each names itself at UVPT, and both have page 0 as a page table of the kernel.
abbrev family_entries : ℕ → ℕ → ℕ
family_entries p i =
    if p == 7 && (i == 957) then 28677 else if p == 7 && (i == 960) then 3 else entries p i

abbrev two_spaces : Phys
two_spaces = record {
  npages = 8;
  pages = infos;
  free_list = some 3;
  mem = family_entries;
  tlb = [];
}

parent-IsTables : IsTables 8 family_entries 1
parent-IsTables = record {
  inside = λ d b p. ground arith;
  off_root = λ d b p. ground arith;
  apart = λ d d' b b' p p' e. ground arith;
}

child-IsTables : IsTables 8 family_entries 7
child-IsTables = record {
  inside = λ d b p. ground arith;
  off_root = λ d b p. ground arith;
  apart = λ d d' b b' p p' e. ground arith;
}

parent-IsSpace : IsSpace two_spaces 1 free
parent-IsSpace = record {
  small = omega arith;
  free = record {
    chain = (refl, (refl, refl));
    nodup = (refl, (refl, tt));
    unused = λ p i. ground arith;
  };
  unlinked = λ p b o. ground arith;
  tables = parent-IsTables;
  root = (omega arith, refl);
  kept = λ d b p. ground arith;
}

child-IsSpace : IsSpace two_spaces 7 free
child-IsSpace = record {
  small = omega arith;
  free = parent-IsSpace.free;
  unlinked = λ p b o. ground arith;
  tables = child-IsTables;
  root = (omega arith, refl);
  kept = λ d b p. ground arith;
}

six-IsCommon : IsCommon two_spaces 1 7 free 6
six-IsCommon = record {
  mine = record {
    bound = omega arith;
    out = refl;
    fresh = record { off_root = λ e. omega arith; off_tables = λ d b p. ground arith };
  };
  other = record {
    bound = omega arith;
    out = refl;
    fresh = record { off_root = λ e. omega arith; off_tables = λ d b p. ground arith };
  };
}

parent_table : (i : ℕ) → i < 955 → mapped family_entries 1 i ≡ true → table (family_entries 1 i) ≡ 2
parent_table i b p = ground arith

child_table : (i : ℕ) → mapped family_entries 7 i ≡ true → table (family_entries 7 i) ≡ 0
child_table i p = ground arith

two_spaces-Spaces : Spaces two_spaces 1 7 free
two_spaces-Spaces = record {
  mine = parent-IsSpace;
  other = child-IsSpace;
  apart = record {
    root = record {
      bound = omega arith;
      out = refl;
      fresh = record { off_root = λ e. omega arith; off_tables = λ d b p. ground arith };
    };
    tables = λ i b p. record {
      bound = omega (arith, parent_table i b p);
      out = rw (parent_table i b p) refl;
      fresh = record {
        off_root = λ e. omega (arith, parent_table i b p);
        off_tables = λ d b' p' e. omega (arith, parent_table i b p, child_table d p');
      };
    };
    kernel = λ i a b ne. grind arith;
  };
}

abbrev parent_kernel : Kernel
parent_kernel = record kernel {
  phys = two_spaces;
  envs = λ e.
      if e == 0
      then an_env 4096 EnvStatus.running false none
      else record (an_env 4097 EnvStatus.not_runnable false none) { parent_id = 4096; pgdir = 7 };
}

child_found : envid2env 0 4097 true parent_kernel ≡ some 1
unfolding envid2env
child_found = refl

family-IsSharing : IsSharing 0 1 4097 5 parent_kernel 6 free
family-IsSharing = record {
  named = child_found;
  low = omega arith;
  kind = refl;
  can = record {
    spaces = two_spaces-Spaces;
    room = ground arith;
    mapped = refl;
    at = refl;
    page = six-IsCommon;
    counts = (omega arith, omega arith);
    empty = refl;
  };
}

duppage-Shared_example :
    (t : Phys) × (ys : List ℕ) × (duppage (record { wild = none; char = 0 }) 0 4097 5 parent_kernel
      ≡ came (val 0) (record parent_kernel { phys = t }))
    × Shared two_spaces t 1 7 0x5000 6 free ys
duppage-Shared_example =
    duppage-Shared (record { wild = none; char = 0 }) 0 1 4097 5 parent_kernel family-IsSharing

five-IsCommon : IsCommon two_spaces 1 7 free 5
five-IsCommon = record {
  mine = record {
    bound = omega arith;
    out = refl;
    fresh = record { off_root = λ e. omega arith; off_tables = λ d b p. ground arith };
  };
  other = record {
    bound = omega arith;
    out = refl;
    fresh = record { off_root = λ e. omega arith; off_tables = λ d b p. ground arith };
  };
}

five_or_seven :
    (pn : ℕ) → pn < 0 + 8 → goes (pte_at family_entries 1 (pn * 4096)) ≡ true → (pn ≡ 5) ⊎ (pn ≡ 7)
five_or_seven pn b g = ground arith

-- Two of the first eight pages go to the child, one of them read-only.
two_spaces-CanDuplicate : CanDuplicate two_spaces 1 7 8 0 free
two_spaces-CanDuplicate = record {
  spaces = two_spaces-Spaces;
  room = omega arith;
  pages = λ pn a b g. elim (five_or_seven pn b g) [
    | inl h ↦
        subst
          (λ (i : ℕ).
            CanGo two_spaces 1 7 free 2 (pte_at family_entries 1 (i * 4096))
              (pte_at family_entries 7 (i * 4096)))
          (sym h)
          (record {
            unshared = refl;
            page = six-IsCommon;
            counts = (omega arith, omega arith);
            empty = refl;
          })
    | inr h ↦
        subst
          (λ (i : ℕ).
            CanGo two_spaces 1 7 free 2 (pte_at family_entries 1 (i * 4096))
              (pte_at family_entries 7 (i * 4096)))
          (sym h)
          (record {
            unshared = refl;
            page = five-IsCommon;
            counts = (omega arith, omega arith);
            empty = refl;
          })
  ];
}

dup_pages-Duplicated_example :
    (t : Phys) × (ys : List ℕ) × (dup_pages
        (record { wild = none; char = 0 })
        0
        8
        4097
        0
        parent_kernel
      ≡ came tt (record parent_kernel { phys = t }))
    × Duplicated two_spaces t 1 7 8 0 free ys
dup_pages-Duplicated_example =
    dup_pages-Duplicated (record { wild = none; char = 0 }) 0 1 4097 8 0 parent_kernel child_found
      (omega arith) two_spaces-CanDuplicate
