-- ===== src/Examples/World.antt =====
-- A physical memory of 8 pages and a kernel with two environments in it.
use xv6_lab.Base.{
  ℕ, ◌≤◌, refl, Bool, true, false, Option, none, some, List, [], ◌∷◌, arith, ◌==◌, ◌&&◌,
  if◌then◌else◌,
}
use xv6_lab.Machine.Phys.{PageInfo, Phys}
use xv6_lab.Machine.Kernel.{EnvStatus, Env, Kernel}
use xv6_lab.Env.Alloc.{fresh_tf}
use xv6_lab.Pmap.Space.{IsTables, IsFresh}
use xv6_lab.Pmap.FreeList.{IsFreeList}
use xv6_lab.Pmap.Walk.{IsSpace}
use xv6_lab.Pmap.Remove.{CanDrop}

-- Page 1 is a page directory with page 2 as its first page table. That maps page 6, writable, and
-- page 5, read-only. The page directory names itself at UVPT, and page 0 as a page table of the kernel.
-- Pages 3 and 4 are free.
abbrev pub entries : ℕ → ℕ → ℕ
entries p i =
    if p == 1 && (i == 0)
    then 8199
    else if p == 1 && (i == 957)
    then 4101
    else if p == 1 && (i == 960)
    then 3
    else if p == 2 && (i == 5)
    then 24583
    else if p == 2 && (i == 7)
    then 20485
    else 0

abbrev pub infos : ℕ → PageInfo
infos p =
    if p == 3
    then record { link = some 4; ref = 0 }
    else if p == 4
    then record { link = none; ref = 0 }
    else record { link = none; ref = 1 }

abbrev pub memory : Phys
memory = record { npages = 8; pages = infos; free_list = some 3; mem = entries; tlb = [] }

abbrev pub free : List ℕ
free = 3 ∷ 4 ∷ []

pub memory-IsFreeList : IsFreeList memory free
memory-IsFreeList = record {
  chain = (refl, (refl, refl));
  nodup = (refl, (refl, tt));
  unused = λ p i. ground arith;
}

pub memory-IsTables : IsTables 8 entries 1
memory-IsTables = record {
  inside = λ d b p. ground arith;
  off_root = λ d b p. ground arith;
  apart = λ d d' b b' p p' e. ground arith;
}

pub memory-IsSpace : IsSpace memory 1 free
memory-IsSpace = record {
  small = omega arith;
  free = memory-IsFreeList;
  unlinked = λ p b o. ground arith;
  tables = memory-IsTables;
  root = (omega arith, refl);
  kept = λ d b p. ground arith;
}

pub memory-IsFresh : (q : ℕ) → 3 ≤ q → IsFresh entries 1 q
memory-IsFresh q h = record { off_root = λ e. omega arith; off_tables = λ d b p. ground arith }

pub memory-CanDrop : CanDrop memory 1 free 6
memory-CanDrop = record {
  bound = omega arith;
  out = refl;
  counted = (omega arith, omega arith);
  fresh = memory-IsFresh 6 (omega arith);
}

-- The same with page 4 alone on the free list
abbrev pub scarce : Phys
scarce = record memory {
  pages = λ p. if p == 4 then record { link = none; ref = 0 } else record { link = none; ref = 1 };
  free_list = some 4;
}

pub scarce-IsSpace : IsSpace scarce 1 (4 ∷ [])
scarce-IsSpace = record {
  small = omega arith;
  free = record { chain = (refl, refl); nodup = (refl, tt); unused = λ p i. ground arith };
  unlinked = λ p b o. ground arith;
  tables = memory-IsTables;
  root = (omega arith, refl);
  kept = λ d b p. ground arith;
}

-- Slot 0 runs on CPU 0 with id 4096, slot 1 waits for a message with a page at 0x5000, id 4097, and
-- slot 2 is free.
abbrev pub an_env : (id : ℕ) → EnvStatus → Bool → Option ℕ → Env
an_env id status recving link = record {
  tf = fresh_tf;
  link = link;
  id = id;
  parent_id = 0;
  type = 0;
  status = status;
  runs = 1;
  cpunum = 0;
  pgdir = 1;
  pgfault_upcall = 0;
  ipc = record { recving = recving; dstva = 0x8000; value = 0; from = 0; perm = 0 };
}

abbrev pub slots : ℕ → Env
slots e =
    if e == 0
    then an_env 4096 EnvStatus.running false none
    else if e == 1
    then an_env 4097 EnvStatus.not_runnable true none
    else an_env 8194 EnvStatus.free false none

abbrev pub kernel : Kernel
kernel = record {
  phys = memory;
  kern_pgdir = 7;
  envs = slots;
  env_free_list = some 2;
  cpu = 0;
  cpu_env = λ c. if c == 0 then some 0 else none;
  halted = λ _. false;
  locked = true;
  cr3 = 1;
  user_mem_check_addr = 0;
}
