-- ===== src/Examples/Cpus.antt =====
-- A machine with two CPUs.
use xv6_lab.Base.{
  ℕ, ◌≡◌, refl, true, some, [], ◌∷◌, arith, ltb, ◌==◌, if◌then◌else◌, inl, ◌-◌, ◌*◌, ◌+◌,
}
use xv6_lab.Text.Strings.{Bytes}
use xv6_lab.Smp.Table.{Cpus}
use xv6_lab.Smp.Lapic.{boot_aps, cpunum}
use xv6_lab.Smp.Counted.{Multiprocessor}
use xv6_lab.Smp.Launched.{of_cpu, start_of, boot_aps-of}

-- The floating pointer at 0x9FC00, in the last kilobyte of 640
abbrev pointer : Bytes
pointer i =
    if i == 0
    then 95
    else if i == 1
    then 77
    else if i == 2
    then 80
    else if i == 3
    then 95
    else if i == 4
    then 0x20
    else if i == 5
    then 0xFC
    else if i == 6
    then 9
    else if i == 10
    then 128
    else 0

-- The table behind it, with two processors, the first of which is the boot processor
abbrev config : Bytes
config i =
    if i == 0
    then 80
    else if i == 1
    then 67
    else if i == 2
    then 77
    else if i == 3
    then 80
    else if i == 4
    then 84
    else if i == 6
    then 1
    else if i == 7
    then 151
    else if i == 34
    then 2
    else if i == 38
    then 0xE0
    else if i == 39
    then 0xFE
    else if i == 47
    then 3
    else if i == 67
    then 1
    else 0

abbrev bios : Bytes
bios a =
    if a == 0x413
    then 128
    else if a == 0x414
    then 2
    else if ltb a 0x9FC00
    then 0
    else if ltb a 0x9FC20
    then pointer (a - 0x9FC00)
    else config (a - 0x9FC20)

abbrev two_cpus : Cpus
two_cpus = record {
  cpu_id = λ i. if i == 1 then 1 else 0;
  started = λ i. i == 0;
  bootcpu = some 0;
  ismp = true;
  ncpu = 2;
  lapicaddr = 0xFEE0_0000;
}

three_cpus-Multiprocessor : Multiprocessor bios 0x9FC20 2 two_cpus
three_cpus-Multiprocessor = record {
  ismp = refl;
  count = refl;
  ids = λ i b. ground arith;
  lapicaddr = refl;
  up = λ i e. ground arith;
  down = λ i ne. ground arith;
  boot = λ i e. inl (ground arith);
}

abbrev kstacks : ℕ → ℕ
kstacks i = 0xF020_0000 + i * 0x8000

boot_aps-of_example : of_cpu 1 (boot_aps (some 0) kstacks two_cpus) ≡ start_of 1 kstacks ∷ []
unfolding cpunum
boot_aps-of_example =
    boot_aps-of bios 0x9FC20 2 1 (some 0) kstacks two_cpus three_cpus-Multiprocessor
