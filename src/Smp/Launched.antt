-- ===== src/Smp/Launched.antt =====
-- kern/init.c, boot_aps: each other CPU is started once.
use xv6_lab.Base.{
  ℕ, zero, suc, ◌+◌, ◌≤◌, ◌<◌, ◌≡◌, ◌∙◌, refl, true, false, Option, List, [], ◌∷◌, arith, ltb, not,
  ◌==◌, ◌&&◌, if◌then◌else◌, Bool-cases, inl, inr, ==→eq, ap,
}
use xv6_lab.Machine.Mmu.{kstksize, mpentry_paddr}
use xv6_lab.Text.Strings.{Bytes}
use xv6_lab.Smp.Table.{Cpus}
use xv6_lab.Smp.Lapic.{Launch, cpunum, lapic_startap, launch, boot_aps}
use xv6_lab.Smp.Counted.{Multiprocessor}

-- The starts of CPU `i` in a list
abbrev pub of_cpu : ℕ → List Launch → List Launch
of_cpu i [] = []
of_cpu i (l ∷ ls) = let rest = of_cpu i ls in if l.cpu == i then l ∷ rest else rest

-- The start of CPU `i` at its own stack
abbrev pub start_of : (i : ℕ) (kstacks : ℕ → ℕ) → Launch
start_of i kstacks = record {
  cpu = i;
  mpentry_kstack = kstacks i + kstksize;
  startup = lapic_startap i mpentry_paddr;
}

launch-other :
    (n from me i : ℕ) (kstacks : ℕ → ℕ) (c : Cpus)
    → i < from
    → of_cpu i (launch n from me kstacks c) ≡ []
unfolding launch
launch-other zero from me i kstacks c before = refl
launch-other (suc n) from me i kstacks c before =
    let rest = launch-other n (from + 1) me i kstacks c (omega arith) in
    let other : (from == i) ≡ false = ground arith in
    elim (Bool-cases (from == me)) [ inl own ↦ rw own rest | inr no_own ↦ rw (no_own, other) rest ]

launch-of :
    (n from me i : ℕ) (kstacks : ℕ → ℕ) (c : Cpus)
    → ((j : ℕ) → j < from + n → c.cpu_id j ≡ j)
    → from ≤ i
    → of_cpu i (launch n from me kstacks c)
      ≡ (if ltb i (from + n) && not (i == me) then start_of i kstacks ∷ [] else [])
unfolding launch
launch-of zero from me i kstacks c ids after =
    let beyond : ltb i (from + 0) ≡ false = ground arith in rw beyond refl
launch-of (suc n) from me i kstacks c ids after = elim (Bool-cases (from == i)) [
  | inl here ↦
      let none_later = launch-other n (from + 1) me i kstacks c (ground arith) in
      let id : c.cpu_id from ≡ from = ids from (omega arith) in
      let within : ltb i (from + suc n) ≡ true = ground arith in
      elim (Bool-cases (from == me)) [
        | inl own ↦
            let own' : (i == me) ≡ true = ground arith in rw (own, none_later, within, own') refl
        | inr no_own ↦
            let no_own' : (i == me) ≡ false = ground arith in
            rw (no_own, here, none_later, within, no_own', id)
              (ap (λ (j : ℕ). start_of j kstacks ∷ []) (==→eq from i here))
      ]
  | inr later ↦
      let next : from + 1 + n ≡ from + suc n = omega arith in
      let rest =
        launch-of n (from + 1) me i kstacks c (λ j b. ids j (omega arith)) (ground arith) in
      elim (Bool-cases (from == me)) [
        | inl own ↦ rw (own, ← next) rest
        | inr no_own ↦ rw (no_own, later, ← next) rest
      ]
]

-- After mp_init on a configuration with known kinds of entries, boot_aps starts each CPU that was
-- found but the one it runs on, exactly once, by its index and on its own stack, and no other.
pub boot_aps-of :
    (m : Bytes) (conf found i : ℕ) (id : Option ℕ) (kstacks : ℕ → ℕ) (c : Cpus)
    → Multiprocessor m conf found c
    → of_cpu i (boot_aps id kstacks c)
      ≡ (if ltb i c.ncpu && not (i == cpunum id) then start_of i kstacks ∷ [] else [])
unfolding boot_aps
boot_aps-of m conf found i id kstacks c smp =
    let all : 0 + c.ncpu ≡ c.ncpu = omega arith in
    launch-of c.ncpu 0 (cpunum id) i kstacks c (λ j b. smp.ids j (omega arith)) (omega arith)
    ∙ ap (λ (n : ℕ). if ltb i n && not (i == cpunum id) then start_of i kstacks ∷ [] else []) all
