-- ===== src/Traps/Resume.antt =====
-- kern/trap.c: what a trap from user mode does to the environment that it interrupts.
use xv6_lab.Base.{
  ℕ, ◌%◌, ◌<◌, ◌≡◌, refl, true, false, Option, none, some, ◌==◌, ==-refl, ==→eq, Bool-cases, inl,
  inr, ◌∙◌, update,
}
use xv6_lab.Machine.Phys.{Phys, ok}
use xv6_lab.Machine.Kernel.{
  EnvStatus, Trapframe, Env, Kernel, Outcome, done, enter, halt, debug, curenv, nenv,
}
use xv6_lab.Env.Sched.{
  is_running, is_dying, preempt, env_run, find_runnable, any_alive, begin_of, sched_halt,
  sched_idle, sched_found, sched_yield,
}
use xv6_lab.Env.Free.{free_space}
use xv6_lab.Env.Destroy.{env_free}
use xv6_lab.Env.Pick.{Scheduled, sched_yield-Scheduled}
use xv6_lab.Env.Blocked.{Keeps, sched_yield-Keeps}
use xv6_lab.Syscall.Ret.{Ret}
use xv6_lab.Syscall.Dispatch.{syscall}
use xv6_lab.Traps.Fault.{Arrival, saved}
use xv6_lab.Traps.Ends.{and_then-skip, sched_yield-Gone}
use xv6_lab.Traps.Handle.{
  lock_kernel, trap_dispatch, leave, handle, from_user, wake, receive, trap, ret_word,
}

-- A trap from user mode, out of environment `e`, on a CPU that does not hold the lock
pub record IsUserTrap (a : Arrival) (tf : Trapframe) (e : ℕ) (k : Kernel) : Type 0 where
  pub quiet : a.panicked ≡ false
  pub masked : a.int_flag ≡ false
  pub mode : (tf.cs % 4 == 3) ≡ true
  pub current : curenv k ≡ some e
  pub awake : k.halted k.cpu ≡ false
  pub unlocked : k.locked ≡ false

abbrev pub locked : Kernel → Kernel
locked k = record k { locked = true }

-- The lock is taken, and the frame is the environment's.
abbrev pub stored : (e : ℕ) → Trapframe → Kernel → Kernel
stored e tf k = record k { locked = true; envs = update k.envs e (record (k.envs e) { tf = tf }) }

-- The environment has been freed, with the physical memory `t` left, and the CPU has none.
abbrev pub reaped : (e : ℕ) → Phys → Kernel → Kernel
reaped e t k = record k {
  phys = t;
  locked = true;
  cr3 = k.kern_pgdir;
  env_free_list = some e;
  envs =
      update k.envs e
        (record (k.envs e) { pgdir = 0; status = EnvStatus.free; link = k.env_free_list });
  cpu_env = update k.cpu_env k.cpu none;
}

module _ {a : Arrival} {tf : Trapframe} {e : ℕ} {k : Kernel} (user : IsUserTrap a tf e k) where
  enters_kernel : trap a tf k ≡ from_user a tf e (locked k)
  unfolding trap wake receive lock_kernel
  enters_kernel =
      rw (user.quiet, user.masked, user.awake, user.mode, user.current, user.unlocked) refl

  pub trap-handle :
      is_dying (k.envs e).status ≡ false → trap a tf k ≡ handle a (saved e) (stored e tf k)
  unfolding from_user
  trap-handle alive = enters_kernel ∙ rw alive refl

  trap-reaped :
      (t : Phys)
      → is_dying (k.envs e).status ≡ true
      → free_space (some (k.envs e).pgdir) (k.envs e).pgdir k.phys ≡ ok tt t
      → trap a tf k ≡ sched_yield (reaped e t k)
  unfolding from_user env_free
  trap-reaped t dying freed = enters_kernel ∙ rw (dying, user.current, ==-refl e, freed) refl

  -- If the environment that a trap from user mode comes from is dying, and freeing its address
  -- space succeeds: trap frees it, puts it on the free list, clears curenv and schedules; it is
  -- not entered and stays as freed.
  pub trap-dying :
      (t : Phys)
      → is_dying (k.envs e).status ≡ true
      → free_space (some (k.envs e).pgdir) (k.envs e).pgdir k.phys ≡ ok tt t
      → (trap a tf k ≡ sched_yield (reaped e t k)) × Keeps e (reaped e t k) (trap a tf k)
  trap-dying t dying freed =
      let after = trap-reaped t dying freed in
      (
        after,
        rw after (
            sched_yield-Keeps (Unit {0}) (reaped e t k) e (rw (==-refl e) refl)
              (rw (==-refl e) refl)),
      )

-- Where the kernel is left for an environment or an idle CPU, `e` resumes with the frame `tf`.
abbrev pub Resumes : {A : Type 0} (e : ℕ) → Trapframe → Outcome A → Type 0
Resumes e tf (enter e' k) = (k.envs e).tf ≡ tf
Resumes e tf (halt k) = (k.envs e).tf ≡ tf
Resumes e tf (debug k) = (k.envs e).tf ≡ tf
Resumes e tf _ = ⊥

preempt-tf : (o : Option ℕ) (envs : ℕ → Env) (e : ℕ) → (preempt o envs e).tf ≡ (envs e).tf
preempt-tf none envs e = refl
preempt-tf (some c) envs e = elim (Bool-cases (is_running (envs c).status)) [
  | inl r ↦ elim (Bool-cases (e == c)) [
    | inl q ↦ rw (r, q, ==→eq e c q) refl
    | inr q ↦ rw (r, q) refl
  ]
  | inr r ↦ rw r refl
]

module _ (A : Type 0) (e : ℕ) (tf : Trapframe) (k : Kernel) (kept : (k.envs e).tf ≡ tf) where
  env_run-Resumes : (c : ℕ) → Resumes e tf (env_run {A = A} c k)
  unfolding env_run
  env_run-Resumes c = elim (Bool-cases (e == c)) [
    | inl q ↦ rw q (rw (← ==→eq e c q) (preempt-tf (curenv k) k.envs e ∙ kept))
    | inr q ↦ rw q (preempt-tf (curenv k) k.envs e ∙ kept)
  ]

  sched_halt-Resumes : Resumes e tf (sched_halt {A = A} k)
  unfolding sched_halt
  sched_halt-Resumes = elim (Bool-cases (any_alive nenv k.envs)) [
    | inl on ↦ rw on kept
    | inr off ↦ rw off kept
  ]

  sched_idle-Resumes : (o : Option ℕ) → Resumes e tf (sched_idle {A = A} o k)
  unfolding sched_idle
  sched_idle-Resumes none = sched_halt-Resumes
  sched_idle-Resumes (some c) = elim (Bool-cases (is_running (k.envs c).status)) [
    | inl on ↦ rw on (env_run-Resumes c)
    | inr off ↦ rw off sched_halt-Resumes
  ]

  sched_found-Resumes : (o : Option ℕ) → Resumes e tf (sched_found {A = A} o k)
  sched_found-Resumes none = sched_idle-Resumes (curenv k)
  sched_found-Resumes (some c) = env_run-Resumes c

  sched_yield-Resumes : Resumes e tf (sched_yield {A = A} k)
  unfolding sched_yield
  sched_yield-Resumes =
      sched_found-Resumes (find_runnable nenv (begin_of k.envs (curenv k)) 0 k.envs)

-- The frame once the result of a system call is in it
abbrev pub answered : Trapframe → Ret → Trapframe
answered tf r = record tf { regs = record (tf.regs) { eax = ret_word r } }

handle-timer :
    (a : Arrival) (e : ℕ) (k : Kernel)
    → (k.envs e).tf.trapno ≡ 32
    → handle a (saved e) k ≡ sched_yield k
unfolding handle trap_dispatch
handle-timer a e k timer =
    rw timer (and_then-skip (sched_yield k) _ (sched_yield-Gone (Unit {0}) k))

-- What trap_dispatch leaves after a system call that comes back
abbrev with_answer : (e : ℕ) → Ret → Kernel → Kernel
with_answer e r j = record j {
  envs = update j.envs e (record (j.envs e) { tf = answered (j.envs e).tf r });
}

dispatch-syscall :
    (a : Arrival) (e : ℕ) (k j : Kernel) (tf : Trapframe) (r : Ret)
    → (k.envs e).tf ≡ tf
    → curenv k ≡ some e
    → tf.trapno ≡ 48
    → syscall a.wild a.char e tf.regs.eax tf.regs.edx tf.regs.ecx tf.regs.ebx tf.regs.edi
        tf.regs.esi k
      ≡ done r j
    → trap_dispatch a (saved e) k ≡ done tt (with_answer e r j)
unfolding trap_dispatch
dispatch-syscall a e k j tf r kept current call ret = rw (kept, call, current, ret) refl

handle-syscall :
    (a : Arrival) (e : ℕ) (k j : Kernel) (r : Ret)
    → trap_dispatch a (saved e) k ≡ done tt (with_answer e r j)
    → curenv j ≡ some e
    → is_running (j.envs e).status ≡ true
    → handle a (saved e) k ≡ env_run e (with_answer e r j)
unfolding handle leave
handle-syscall a e k j r answer current running = rw (answer, current, ==-refl e, running) refl

-- env_run restores the frame of the environment, and leaves physical memory alone.
pub env_run-tf :
    (e : ℕ) (k : Kernel) (tf : Trapframe)
    → (k.envs e).tf ≡ tf
    → (k' : Kernel) × (env_run {A = Unit {0}} e k ≡ enter e k')
      × ((k'.envs e).tf ≡ tf)
      × (k'.phys ≡ k.phys)
unfolding env_run
env_run-tf e k tf kept = (_, refl, rw (==-refl e) (preempt-tf (curenv k) k.envs e ∙ kept), refl)

module _ {a : Arrival} {tf : Trapframe} {e : ℕ} {k : Kernel} (user : IsUserTrap a tf e k)
    (alive : is_dying (k.envs e).status ≡ false) where
  timer-yields : tf.trapno ≡ 32 → trap a tf k ≡ sched_yield (stored e tf k)
  timer-yields timer =
      trap-handle user alive ∙ handle-timer a e (stored e tf k) (rw (==-refl e) timer)

  -- On the timer interrupt under these conditions, trap ends as sched_yield does, and the environment
  -- keeps the frame of the trap.
  pub trap-timer :
      (m : ℕ)
      → m < 1024
      → tf.trapno ≡ 32
      → Scheduled m (stored e tf k) (trap a tf k) × Resumes e tf (trap a tf k)
  trap-timer m h timer = rw (timer-yields timer) (
    sched_yield-Scheduled (Unit {0}) (stored e tf k) m h,
    sched_yield-Resumes (Unit {0}) e tf (stored e tf k) (rw (==-refl e) refl),
  )

  -- On a trap for a system call from user mode, with no panic, interrupts off, the lock free and
  -- the environment not dying: if the call with the numbers in the saved registers returns and the
  -- environment is still current and running, trap enters it again with the frame it has then, and
  -- the result in eax.
  pub trap-syscall :
      (r : Ret) (j : Kernel)
      → tf.trapno ≡ 48
      → syscall a.wild a.char e tf.regs.eax tf.regs.edx tf.regs.ecx tf.regs.ebx tf.regs.edi
          tf.regs.esi
          (stored e tf k)
        ≡ done r j
      → curenv j ≡ some e
      → is_running (j.envs e).status ≡ true
      → (k' : Kernel) × (trap a tf k ≡ enter e k') × ((k'.envs e).tf ≡ answered (j.envs e).tf r)
  trap-syscall r j call ret current running =
      let (k', run, frame, _) =
        env_run-tf e (with_answer e r j) (answered (j.envs e).tf r) (rw (==-refl e) refl) in
      (
        k',
        trap-handle user alive
            ∙ (handle-syscall a e (stored e tf k) j r
                  (dispatch-syscall a e (stored e tf k) j tf r (rw (==-refl e) refl) user.current
                    call ret)
                  current running
                ∙ run),
        frame,
      )
