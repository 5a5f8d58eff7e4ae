-- ===== src/Smp/Lapic.antt =====
-- kern/lapic.c and boot_aps of kern/init.c: the local APIC, and the start of the other CPUs.
--
-- A program of the APIC is the list of its writes, each the index of a register with the value.
use xv6_lab.Base.{
  ℕ, zero, suc, ◌+◌, ◌*◌, ◌/◌, ◌%◌, ◌^◌, Bool, Option, none, some, List, [], ◌∷◌, ◌++◌, leb, ◌==◌,
  if◌then◌else◌,
}
use xv6_lab.Machine.Mmu.{u32, kstksize, mpentry_paddr}
use xv6_lab.Smp.Register
use xv6_lab.Smp.Table.{Cpus}

abbrev pub Writes : Type 0
Writes = List (ℕ × ℕ)

abbrev pub masked : ℕ
masked = 0x10000

-- `lapic[ID]`, none while `lapic` is NULL
unfoldable pub cpunum : (id : Option ℕ) → ℕ
cpunum none = 0
cpunum (some id) = id / 2 ^ 24

-- lapic_init once the registers are mapped: `boot` says whether this CPU is `bootcpu`, `version` is
-- lapic[VER]. SVR gets ENABLE with vector 39, TIMER gets PERIODIC with vector 32, ERROR vector 51, and
-- ICRLO gets BCAST | INIT | LEVEL. The wait for delivery is left out.
unfoldable pub lapic_setup : (boot : Bool) (version : ℕ) → Writes
lapic_setup boot version =
    (Register.svr, 0x100 + 39)
      ∷ (Register.tdcr, 0x0B)
      ∷ (Register.timer, 0x20000 + 32)
      ∷ (Register.ticr, 10000000)
      ∷ (if boot then [] else (Register.lint0, masked) ∷ [])
    ++ (Register.lint1, masked)
      ∷ (if leb 4 (version / 2 ^ 16 % 256) then (Register.pcint, masked) ∷ [] else [])
    ++ (Register.error, 32 + 19)
      ∷ (Register.esr, 0)
      ∷ (Register.esr, 0)
      ∷ (Register.eoi, 0)
      ∷ (Register.icrhi, 0)
      ∷ (Register.icrlo, 0x80000 + 0x500 + 0x8000)
      ∷ (Register.tpr, 0)
      ∷ []

-- Nothing is written while `lapic` is NULL.
unfoldable pub lapic_eoi : (id : Option ℕ) → Writes
lapic_eoi none = []
lapic_eoi (some id) = (Register.eoi, 0) ∷ []

-- OTHERS | FIXED | vector
unfoldable pub lapic_ipi : (vector : ℕ) → Writes
lapic_ipi vector = (Register.icrlo, 0xC0000 + vector) ∷ []

-- What lapic_startap does: writes to ports, the two words at 0x467, and writes to the APIC
pub record Startup : Type 0 where
  pub ports : Writes
  pub vector : ℕ × ℕ
  pub writes : Writes

-- INIT, asserted and then not, and STARTUP twice
unfoldable pub lapic_startap : (apicid addr : ℕ) → Startup
lapic_startap apicid addr =
    let select : ℕ × ℕ = (Register.icrhi, u32 (apicid * 2 ^ 24)) in
    let startup : ℕ × ℕ = (Register.icrlo, 0x600 + addr / 2 ^ 12) in
    record {
      ports = (0x70, 0x0F) ∷ (0x71, 0x0A) ∷ [];
      vector = (0, addr / 2 ^ 4 % 2 ^ 16);
      writes =
          select
          ∷ (Register.icrlo, 0x500 + 0x8000 + 0x4000)
          ∷ (Register.icrlo, 0x500 + 0x8000)
          ∷ select
          ∷ startup
          ∷ select
          ∷ startup
          ∷ [];
    }

-- One start: `mpentry_kstack`, and what lapic_startap did
pub record Launch : Type 0 where
  pub cpu : ℕ
  pub mpentry_kstack : ℕ
  pub startup : Startup

-- The loop of boot_aps, with `n` CPUs left from `i` on; `kstacks i` is the address percpu_kstacks[i]. Each
-- round waits until that CPU has noted that it is started.
unfoldable pub launch : (n i me : ℕ) (kstacks : ℕ → ℕ) → Cpus → List Launch
launch zero i me kstacks c = []
launch (suc n) i me kstacks c =
    let rest = launch n (i + 1) me kstacks c in
    if i == me
    then rest
    else record {
      cpu = i;
      mpentry_kstack = kstacks i + kstksize;
      startup = lapic_startap (c.cpu_id i) mpentry_paddr;
    }
      ∷ rest

-- The copy of mpentry.S to MPENTRY_PADDR is left out.
unfoldable pub boot_aps : (id : Option ℕ) (kstacks : ℕ → ℕ) → Cpus → List Launch
boot_aps id kstacks c = launch c.ncpu 0 (cpunum id) kstacks c
