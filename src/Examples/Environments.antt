-- ===== src/Examples/Environments.antt =====
-- The theorems on kern/env.c, kern/sched.c and kern/spinlock.c at concrete states.
use xv6_lab.Base.{
  ℕ, zero, suc, [], ◌∷◌, ◌==◌, if◌then◌else◌, sym, ◌∙◌, none, ◌^◌, ◌<◌, ◌≡◌, ◌≢◌, ◌↔◌, refl, false,
  some, arith, inr,
}
use xv6_lab.Machine.Kernel.{EnvStatus, Kernel, done, enter, envx}
use xv6_lab.Env.Lookup.{envid2env}
use xv6_lab.Env.Alloc.{env_init, new, next_id, env_alloc}
use xv6_lab.Env.Sched.{sched_yield, find_runnable, env_run}
use xv6_lab.Machine.Phys.{Phys}
use xv6_lab.Env.Load.{region_alloc}
use xv6_lab.Env.Region.{Empty, Regions, region_alloc-Regions}
use xv6_lab.Env.Order.{env_init-order}
use xv6_lab.Env.Identity.{Names, envid2env_iff, next_id_lem}
use xv6_lab.Env.Birth.{Born, env_alloc-Born}
use xv6_lab.Env.Pick.{Scheduled, sched_yield-Scheduled}
use xv6_lab.Env.Exclusive.{IsExclusive, Leaves, sched_yield-Leaves}
use xv6_lab.Env.Fair.{Runs, entered-eq, sched_yield-fair}
use xv6_lab.Env.Blocked.{Keeps, sched_yield-Keeps}
use xv6_lab.Spinlock.{
  Lock, inside, leaving, at_phase, start_lock, try_lock, note_owner, start_unlock, initial, Reaches,
  begins, goes_on, starts, spins, notes,
}
use xv6_lab.Spinlock.Exclusion.{IsExcluding, Reaches-IsExcluding, start_unlock-passes}
use xv6_lab.Examples.World.{memory, memory-IsSpace, memory-IsFreeList, an_env, kernel}

envid2env_iff_example : (envid2env 0 4097 false kernel ≡ some 1) ↔ Names 0 4097 false kernel 1
envid2env_iff_example = envid2env_iff 0 4097 false kernel 1

next_id_of_slot :
    (0 < next_id 4098 2)
    × (next_id 4098 2 < 2 ^ 31)
    × (envx (next_id 4098 2) ≡ 2)
    × (next_id 4098 2 ≢ 4098)
next_id_of_slot = next_id_lem 4098 2 (omega arith) (omega arith)

env_alloc-Born_example :
    (k' : Kernel) × (env_alloc 4096 kernel ≡ done (new 2) k') × Born 0 4096 2 3 8194 955 kernel k'
env_alloc-Born_example =
    env_alloc-Born kernel 4096 0 8194 955 refl (omega arith) (omega arith) memory-IsFreeList refl
      refl (omega arith) (inr refl) (omega arith)

sched_yield-Scheduled_example : Scheduled 1 kernel (sched_yield {A = Unit} kernel)
sched_yield-Scheduled_example = sched_yield-Scheduled Unit kernel 1 (omega arith)

kernel-IsExclusive : IsExclusive kernel
kernel-IsExclusive = record { once = λ c d e p q. ground arith; others = λ c e p. ground arith }

sched_yield-Leaves_example : Leaves kernel (sched_yield {A = Unit} kernel)
sched_yield-Leaves_example = sched_yield-Leaves Unit kernel kernel-IsExclusive

waiter_kept : Keeps 1 kernel (sched_yield {A = Unit} kernel)
waiter_kept = sched_yield-Keeps Unit kernel 1 refl refl

abbrev locked : Lock
locked = note_owner 3 (try_lock 3 (at_phase 3 xv6_lab.Spinlock.spinning initial))

locked-Reaches : Reaches locked
unfolding start_lock try_lock note_owner
locked-Reaches =
    goes_on (goes_on (goes_on begins (starts 3 refl refl)) (spins 3 refl)) (notes 3 refl)

Reaches-IsExcluding_example : IsExcluding locked
Reaches-IsExcluding_example = Reaches-IsExcluding locked-Reaches

locked-inside : locked.phase 3 ≡ inside
unfolding note_owner try_lock
locked-inside = refl

holder_unlocks : (b : Lock) × (start_unlock 3 locked ≡ some b) × (b.phase 3 ≡ leaving)
holder_unlocks = start_unlock-passes 3 locked-Reaches locked-inside

free_list_order :
    ((env_init kernel).env_free_list ≡ some 0)
    × (((env_init kernel).envs 1023).link ≡ none)
    × (((env_init kernel).envs 1023).id ≡ 0)
    × (((env_init kernel).envs 1023).status ≡ EnvStatus.free)
free_list_order = env_init-order kernel 1023 (omega arith)

-- Slot 1 alone is runnable, and runs each time.
abbrev looping : Kernel
looping = record kernel {
  envs = λ e.
      if e == 1
      then an_env 4097 EnvStatus.runnable false none
      else an_env 8194 EnvStatus.free false none;
  cpu_env = λ c. if c == 0 then some 1 else none;
}

loops : (k' : Kernel) × (sched_yield {A = Unit {0}} looping ≡ enter 1 k')
unfolding sched_yield find_runnable env_run
loops = (_, refl)

goes_round : Runs (Unit {0}) 1 (omega arith) (λ i. looping)
goes_round i e k' h =
    let (l, q) = loops in
    let one : e ≡ 1 = cc (entered-eq (Unit {0}) 1 (omega arith) 1 e l k' (sym q ∙ h)) in
    rw one (refl, refl)

sched_yield-fair_example :
    (i : ℕ) × (i < 1024) × (k' : Kernel) × (sched_yield {A = Unit {0}} looping ≡ enter 1 k')
sched_yield-fair_example =
    sched_yield-fair (Unit {0}) 1 (omega arith) (λ i. looping) goes_round (λ i h. refl)

blank_page : Empty memory 1 1 0x8000
blank_page zero h = refl
blank_page (suc j) h = absurd (omega arith)

region_alloc-Regions_example :
    (t : Phys) × (f : ℕ → ℕ) × (region_alloc 0 0x8032 100 kernel
      ≡ done tt (record kernel { phys = t }))
    × Regions memory t 1 1 0x8000 (3 ∷ 4 ∷ []) f
region_alloc-Regions_example =
    region_alloc-Regions 0 0x8032 100 kernel memory-IsSpace (omega arith) (omega arith) blank_page
