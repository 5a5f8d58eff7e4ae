-- ===== src/Env/Exclusive.antt =====
-- kern/env.c, kern/sched.c: no environment is current on two CPUs.
use xv6_lab.Base.{
  ℕ, ◌≡◌, ◌≢◌, refl, Bool, true, false, Option, none, some, arith, ◌==◌, ==→eq, update, Bool-cases,
  ◌⊎◌, inl, inr, ap, ◌∙◌, sym, ◌||◌,
}
use xv6_lab.Machine.Kernel.{
  EnvStatus, Env, Kernel, Outcome, enter, halt, debug, done, crash, nenv, curenv,
}
use xv6_lab.Env.Sched.{
  is_running, is_runnable, is_dying, preempt, env_run, any_alive, sched_halt, begin_of, sched_idle,
  sched_found, sched_yield,
}
use xv6_lab.Env.Pick.{Found, find_runnable-Found}

-- An environment that a CPU may be executing
abbrev pub is_busy : EnvStatus → Bool
is_busy s = is_running s || is_dying s

-- While CPU `k.cpu` is in the kernel: no environment is current on two CPUs, and the current
-- environments of the other CPUs are running or dying.
pub record IsExclusive (k : Kernel) : Type 0 where
  pub once : (c d e : ℕ) → k.cpu_env c ≡ some e → k.cpu_env d ≡ some e → c ≡ d
  pub others : (c e : ℕ) → k.cpu_env c ≡ some e → (c ≡ k.cpu) ⊎ (is_busy (k.envs e).status ≡ true)

-- The same once that CPU has left the kernel, which makes it one of the others.
pub record IsShared (k : Kernel) : Type 0 where
  pub once : (c d e : ℕ) → k.cpu_env c ≡ some e → k.cpu_env d ≡ some e → c ≡ d
  pub all : (c e : ℕ) → k.cpu_env c ≡ some e → is_busy (k.envs e).status ≡ true

-- What a way out of the kernel must keep up: no environment is shared by two CPUs. The monitor is no
-- way out.
abbrev pub Leaves : {A : Type 0} → Kernel → Outcome A → Type 0
Leaves k (done a k') = ⊥
Leaves k crash = ⊥
Leaves k (enter e k') = IsShared k'
Leaves k (halt k') = IsShared k'
Leaves k (debug k') = k' ≡ k

preempt-other :
    (o : Option ℕ) (envs : ℕ → Env) (e : ℕ)
    → (o ≢ some e)
    → (preempt o envs e).status ≡ (envs e).status
preempt-other none envs e ne = refl
preempt-other (some c) envs e ne = elim (Bool-cases (e == c)) [
  | inl q ↦ absurd (ne (ap some (sym (==→eq e c q))))
  | inr q ↦ elim (Bool-cases (is_running (envs c).status)) [
    | inl r ↦ rw (r, q) refl
    | inr r ↦ rw r refl
  ]
]

runnable-idle : (s : EnvStatus) → is_runnable s ≡ true → is_busy s ≡ true → ⊥
runnable-idle EnvStatus.free p q = cc
runnable-idle EnvStatus.dying p q = cc
runnable-idle EnvStatus.runnable p q = cc
runnable-idle EnvStatus.running p q = cc
runnable-idle EnvStatus.not_runnable p q = cc

-- One CPU takes up `e`, or nothing.
update-once :
    (f : ℕ → Option ℕ) (n e c d a : ℕ)
    → ((c : ℕ) → f c ≡ some e → c ≡ n)
    → (f c ≡ some a → f d ≡ some a → c ≡ d)
    → update f n (some e) c ≡ some a
    → update f n (some e) d ≡ some a
    → c ≡ d
update-once f n e c d a free once p q = elim (Bool-cases (c == n)) [
  | inl x ↦ elim (Bool-cases (d == n)) [
    | inl y ↦ ==→eq c n x ∙ sym (==→eq d n y)
    | inr y ↦ ==→eq c n x ∙ sym (free d (ground arith))
  ]
  | inr x ↦ elim (Bool-cases (d == n)) [
    | inl y ↦ free c (ground arith) ∙ sym (==→eq d n y)
    | inr y ↦ once (ground arith) (ground arith)
  ]
]

update-none : (f : ℕ → Option ℕ) (n c a : ℕ) → update f n none c ≡ some a → (c ≢ n) × (f c ≡ some a)
update-none f n c a p = ground arith

module _ (A : Type 0) (k : Kernel) where
  env_run-Leaves :
      (e : ℕ)
      → IsExclusive k
      → ((c : ℕ) → k.cpu_env c ≡ some e → c ≡ k.cpu)
      → Leaves k (env_run {A = A} e k)
  unfolding env_run
  env_run-Leaves e x free = record {
    once = λ c d a p q. update-once k.cpu_env k.cpu e c d a free (x.once c d a) p q;
    all = λ c a p. elim (Bool-cases (a == e)) [
      | inl h ↦ rw h refl
      | inr h ↦
          let other : (c == k.cpu) ≡ false = ground arith in
          let kept : k.cpu_env c ≡ some a = ground arith in
          rw (h, preempt-other (curenv k) k.envs a λ q. ground (arith, x.once c k.cpu a kept q))
            (elim (x.others c a kept) [ inl z ↦ ground arith | inr z ↦ z ])
    ];
  }

  sched_halt-Leaves : IsExclusive k → Leaves k (sched_halt {A = A} k)
  unfolding sched_halt
  sched_halt-Leaves x = elim (Bool-cases (any_alive nenv k.envs)) [
    | inl on ↦ rw on (record {
      once = λ c d a p q.
          x.once c d a (update-none k.cpu_env k.cpu c a p).1 (update-none k.cpu_env k.cpu d a q).1;
      all = λ c a p.
          let (ne, q) = update-none k.cpu_env k.cpu c a p in
          elim (x.others c a q) [ inl z ↦ absurd (ne z) | inr z ↦ z ];
    })
    | inr on ↦ rw on refl
  ]

  sched_idle-Leaves :
      (o : Option ℕ) → curenv k ≡ o → IsExclusive k → Leaves k (sched_idle {A = A} o k)
  unfolding sched_idle
  sched_idle-Leaves none q x = sched_halt-Leaves x
  sched_idle-Leaves (some c) q x = elim (Bool-cases (is_running (k.envs c).status)) [
    | inl r ↦ rw r (env_run-Leaves c x λ d p. x.once d k.cpu c p q)
    | inr r ↦ rw r (sched_halt-Leaves x)
  ]

  sched_found-Leaves :
      (r : Option ℕ)
      → Found nenv (begin_of k.envs (curenv k)) 0 0 k.envs r
      → IsExclusive k
      → Leaves k (sched_found {A = A} r k)
  sched_found-Leaves none f x = sched_idle-Leaves (curenv k) refl x
  sched_found-Leaves (some e) (_, _, _, _, on, _) x = env_run-Leaves e x λ c p.
      elim (x.others c e p) [ inl z ↦ z | inr z ↦ absurd (runnable-idle (k.envs e).status on z) ]

  -- If no environment is current on two CPUs and those current on the other CPUs are running or
  -- dying, then where sched_yield leaves the kernel this holds with all CPUs included.
  pub sched_yield-Leaves : IsExclusive k → Leaves k (sched_yield {A = A} k)
  unfolding sched_yield
  sched_yield-Leaves x =
      sched_found-Leaves _ (find_runnable-Found nenv (begin_of k.envs (curenv k)) 0 0 k.envs) x
