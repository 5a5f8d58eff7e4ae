-- ===== src/Pmap/Stacks.antt =====
-- kern/pmap.c, mem_init_mp: the kernel stacks of the CPUs.
use xv6_lab.Base.{ℕ, zero, suc, ◌+◌, ◌-◌, ◌*◌, ◌≤◌, ◌<◌, arith}
use xv6_lab.Machine.Mmu.{kstacktop, kstksize, kstkgap, mmiolim, pte_w}
use xv6_lab.Machine.Phys.{M, pure, ◌>>◌}
use xv6_lab.Pmap.Table.{boot_map_region}

abbrev pub ncpu : ℕ
ncpu = 8

-- `kstacktop_i`
unfoldable pub kstacktop_of : ℕ → ℕ
kstacktop_of i = kstacktop - i * (kstksize + kstkgap)

-- The rounds for the CPUs from `i` on, `n` of them. `stacks i` is PADDR(percpu_kstacks[i]).
unfoldable pub map_stacks : (n kern_pgdir i : ℕ) (stacks : ℕ → ℕ) → M (Unit {0})
map_stacks zero kern_pgdir i stacks = pure tt
map_stacks (suc n) kern_pgdir i stacks =
    boot_map_region kern_pgdir (kstacktop_of i - kstksize) kstksize (stacks i) pte_w
    >> map_stacks n kern_pgdir (i + 1) stacks

unfoldable pub mem_init_mp : (kern_pgdir : ℕ) (stacks : ℕ → ℕ) → M (Unit {0})
mem_init_mp kern_pgdir stacks = map_stacks ncpu kern_pgdir 0 stacks

-- For CPUs i < j < NCPU, the kernel stack that mem_init_mp maps for j ends at least a guard gap
-- below the stack of i, and starts at least a guard gap above MMIOLIM.
pub kstacktop_of-apart :
    (i j : ℕ)
    → i < j
    → j < ncpu
    → (kstacktop_of j + kstkgap ≤ kstacktop_of i - kstksize)
      × (mmiolim + kstkgap ≤ kstacktop_of j - kstksize)
unfolding kstacktop_of
kstacktop_of-apart i j h b = (omega arith, omega arith)
