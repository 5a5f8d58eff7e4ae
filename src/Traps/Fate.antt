-- ===== src/Traps/Fate.antt =====
-- kern/trap.c, kern/syscall.c: how a trap ends.
use xv6_lab.Base.{
  ℕ, ◌≡◌, refl, Bool, true, false, Option, none, some, ==-refl, if◌then◌else◌, Bool-cases, inl, inr,
}
use xv6_lab.Machine.Phys.{Run}
use xv6_lab.Machine.Kernel.{
  EnvStatus, Kernel, Outcome, done, crash, enter, halt, debug, K, and_then, lift_run, curenv, nenv,
}
use xv6_lab.Env.Sched.{
  is_running, env_run, find_runnable, any_alive, begin_of, sched_halt, sched_idle, sched_found,
  sched_yield,
}

-- The CPU runs environment `e`, in its address space, and the lock is free.
pub record IsEntered (e : ℕ) (k : Kernel) : Type 0 where
  pub running : (k.envs e).status ≡ EnvStatus.running
  pub current : curenv k ≡ some e
  pub space : k.cr3 ≡ (k.envs e).pgdir
  pub noted : (k.envs e).cpunum ≡ k.cpu
  pub released : k.locked ≡ false

-- The CPU has no environment, uses the kernel's address space, and the lock is free.
pub record IsIdle (k : Kernel) : Type 0 where
  pub alone : curenv k ≡ none
  pub space : k.cr3 ≡ k.kern_pgdir
  pub asleep : k.halted k.cpu ≡ true
  pub released : k.locked ≡ false

-- Code that leaves the kernel leaves it with an environment running or with the CPU idle.
pub data Leaving {A : Type 0} : Outcome A → Type 0 where
  returns : (a : A) (k : Kernel) → Leaving (done a k)
  crashes : Leaving crash
  enters : (e : ℕ) (k : Kernel) → IsEntered e k → Leaving (enter e k)
  halts : (k : Kernel) → IsIdle k → Leaving (halt k)
  stays : (k : Kernel) → Leaving (debug k)

abbrev pub Safe : {A : Type 0} → K A → Type 0
Safe m = (k : Kernel) → Leaving (m k)

module _ {A B : Type 0} where
  pub and_then-Leaving :
      (o : Outcome A) (f : A → K B)
      → Leaving o
      → ((a : A) (k : Kernel) → Leaving (f a k))
      → Leaving (and_then o f)
  and_then-Leaving _ f (returns a k) q = q a k
  and_then-Leaving _ f crashes q = crashes
  and_then-Leaving _ f (enters e k h) q = enters e k h
  and_then-Leaving _ f (halts k h) q = halts k h
  and_then-Leaving _ f (stays k) q = stays k

module _ {A : Type 0} where
  pub if-Leaving :
      (b : Bool) (x y : Outcome A) → Leaving x → Leaving y → Leaving (if b then x else y)
  if-Leaving true x y p q = p
  if-Leaving false x y p q = q

  pub if-at-Leaving :
      (b : Bool) (m n : K A) (k : Kernel)
      → Leaving (m k)
      → Leaving (n k)
      → Leaving ((if b then m else n) k)
  if-at-Leaving true m n k p q = p
  if-at-Leaving false m n k p q = q

  pub lift_run-Leaving : (k : Kernel) (r : Run A) → Leaving (lift_run k r)
  lift_run-Leaving k (Run.ok a s) = returns a (record k { phys = s })
  lift_run-Leaving k Run.panic = crashes

module _ (A : Type 0) where
  pub env_run-Safe : (e : ℕ) → Safe (env_run {A = A} e)
  unfolding env_run
  env_run-Safe e k = enters _ _ (record {
    running = rw (==-refl e) refl;
    current = rw (==-refl k.cpu) refl;
    space = rw (==-refl e) refl;
    noted = rw (==-refl e) refl;
    released = refl;
  })

  sched_halt-Safe : Safe (sched_halt {A = A})
  unfolding sched_halt
  sched_halt-Safe k = elim (Bool-cases (any_alive nenv k.envs)) [
    | inl on ↦ rw on (
        halts _ (record {
          alone = rw (==-refl k.cpu) refl;
          space = refl;
          asleep = rw (==-refl k.cpu) refl;
          released = refl;
        }))
    | inr off ↦ rw off (stays k)
  ]

  sched_idle-Safe : (o : Option ℕ) → Safe (sched_idle {A = A} o)
  unfolding sched_idle
  sched_idle-Safe none k = sched_halt-Safe k
  sched_idle-Safe (some c) k =
      if-Leaving (is_running (k.envs c).status) _ _ (env_run-Safe c k) (sched_halt-Safe k)

  sched_found-Safe : (o : Option ℕ) → Safe (sched_found {A = A} o)
  sched_found-Safe none k = sched_idle-Safe (curenv k) k
  sched_found-Safe (some e) k = env_run-Safe e k

  pub sched_yield-Safe : Safe (sched_yield {A = A})
  unfolding sched_yield
  sched_yield-Safe k = sched_found-Safe (find_runnable nenv (begin_of k.envs (curenv k)) 0 k.envs) k

pub ruleset leaving = (
  returns, crashes, stays, and_then-Leaving, if-Leaving, if-at-Leaving, lift_run-Leaving,
  env_run-Safe, sched_yield-Safe,
)
