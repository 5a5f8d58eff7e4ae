-- ===== src/Smp/Counted.antt =====
-- kern/mpconfig.c: which CPUs mp_init finds in a table.
use xv6_lab.Base.{ℕ, ◌+◌, ◌<◌, ◌≡◌, ◌≢◌, ◌⊎◌, true, false, Option, none, some}
use xv6_lab.Env.Load.{half, word}
use xv6_lab.Text.Strings.{Bytes}
use xv6_lab.Smp.BootCpu.{processor_flags, capped, IsBootCpu, last_boot}
use xv6_lab.Smp.Scanned.{processors, all_known}
use xv6_lab.Smp.Table.{Cpus, scan, configure}

-- The globals as the program starts with them
abbrev pub globals : Cpus
globals = record {
  cpu_id = λ _. 0;
  started = λ _. false;
  bootcpu = none;
  ismp = false;
  ncpu = 0;
  lapicaddr = 0;
}

-- The table at `conf` was accepted.
pub record Multiprocessor (m : Bytes) (conf found : ℕ) (c : Cpus) : Type 0 where
  pub ismp : c.ismp ≡ true
  pub count : c.ncpu ≡ capped found
  pub ids : (i : ℕ) → i < c.ncpu → c.cpu_id i ≡ i
  pub lapicaddr : c.lapicaddr ≡ word m (conf + 36)
  pub up : (i : ℕ) → c.bootcpu ≡ some i → c.started i ≡ true
  pub down : (i : ℕ) → c.bootcpu ≢ some i → c.started i ≡ false
  pub boot : (i : ℕ) → c.bootcpu ≡ some i → (i < 8) ⊎ (8 < found)

-- It was not: the machine has one CPU.
pub record Uniprocessor (c : Cpus) : Type 0 where
  pub ismp : c.ismp ≡ false
  pub count : c.ncpu ≡ 1
  pub first : c.cpu_id 0 ≡ 0
  pub lapicaddr : c.lapicaddr ≡ 0

-- What mp_init comes to, with the answer of mpconfig
abbrev pub Configured : Bytes → Option (ℕ × ℕ) → Cpus → Type 0
Configured m none c = c ≡ record globals { bootcpu = some 0 }
Configured m (some (mp, conf)) c =
    let n = half m (conf + 34) in
    ((b : ℕ) × (c.bootcpu ≡ some b)
      × IsBootCpu (processor_flags m n (conf + 44)) b
      × (c.started b ≡ true))
    × (((all_known m n (conf + 44) ≡ true) × Multiprocessor m conf (processors m n (conf + 44)) c)
        ⊎ ((all_known m n (conf + 44) ≡ false) × Uniprocessor c))

module _ (m : Bytes) (mp conf : ℕ) where
  abbrev begun : Cpus
  begun = record globals { bootcpu = some 0; ismp = true; lapicaddr = word m (conf + 36) }

  abbrev entries : ℕ
  entries = half m (conf + 34)

  abbrev scanned : Cpus
  scanned = scan m entries (conf + 44) begun

  abbrev answer : Cpus
  answer = (configure m (some (mp, conf)) (record globals { bootcpu = some 0 })).0

  boot_cpu : ℕ
  boot_cpu = last_boot (processor_flags m entries (conf + 44)) 0 0
