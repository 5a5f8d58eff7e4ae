-- ===== src/Env/Blocked.antt =====
-- kern/sched.c: an environment that is neither runnable nor running is left alone.
use xv6_lab.Base.{
  ℕ, ◌≡◌, ◌≢◌, refl, Bool, true, false, Option, none, some, arith, ◌==◌, ==→eq, Bool-cases, inl,
  inr, ap, sym,
}
use xv6_lab.Machine.Kernel.{Env, Kernel, Outcome, enter, halt, debug, done, crash, nenv, curenv}
use xv6_lab.Env.Sched.{
  is_running, is_runnable, preempt, env_run, any_alive, sched_halt, begin_of, sched_idle,
  sched_found, sched_yield,
}
use xv6_lab.Env.Pick.{Found, find_runnable-Found}

-- The scheduler did not enter environment `j` and did not change it.
abbrev pub Keeps : {A : Type 0} (j : ℕ) → Kernel → Outcome A → Type 0
Keeps j k (done a k') = ⊥
Keeps j k crash = ⊥
Keeps j k (enter e k') = (e ≢ j) × (k'.envs j ≡ k.envs j)
Keeps j k (halt k') = k'.envs j ≡ k.envs j
Keeps j k (debug k') = k'.envs j ≡ k.envs j

differ : (f : ℕ → Bool) (a b : ℕ) → f a ≡ true → f b ≡ false → a ≢ b
differ f a b on off q = let same : f a ≡ f b = ap f q in cc

preempt-idle :
    (o : Option ℕ) (envs : ℕ → Env) (j : ℕ)
    → is_running (envs j).status ≡ false
    → preempt o envs j ≡ envs j
preempt-idle none envs j idle = refl
preempt-idle (some c) envs j idle = elim (Bool-cases (j == c)) [
  | inl q ↦ rw (sym (==→eq j c q)) (rw idle refl)
  | inr q ↦ elim (Bool-cases (is_running (envs c).status)) [
    | inl r ↦ rw (r, q) refl
    | inr r ↦ rw r refl
  ]
]

module _ (A : Type 0) (k : Kernel) (j : ℕ) (idle : is_running (k.envs j).status ≡ false) where
  env_run-Keeps : (e : ℕ) → e ≢ j → Keeps j k (env_run {A = A} e k)
  unfolding env_run
  env_run-Keeps e ne =
      let other : (j == e) ≡ false = ground arith in
      (ne, rw other (preempt-idle (curenv k) k.envs j idle))

  sched_halt-Keeps : Keeps j k (sched_halt {A = A} k)
  unfolding sched_halt
  sched_halt-Keeps = elim (Bool-cases (any_alive nenv k.envs)) [
    | inl on ↦ rw on refl
    | inr on ↦ rw on refl
  ]

  sched_idle-Keeps : (o : Option ℕ) → Keeps j k (sched_idle {A = A} o k)
  unfolding sched_idle
  sched_idle-Keeps none = sched_halt-Keeps
  sched_idle-Keeps (some c) = elim (Bool-cases (is_running (k.envs c).status)) [
    | inl r ↦ rw r (env_run-Keeps c (differ (λ i. is_running (k.envs i).status) c j r idle))
    | inr r ↦ rw r sched_halt-Keeps
  ]

  sched_found-Keeps :
      (r : Option ℕ)
      → Found nenv (begin_of k.envs (curenv k)) 0 0 k.envs r
      → is_runnable (k.envs j).status ≡ false
      → Keeps j k (sched_found {A = A} r k)
  sched_found-Keeps none f off = sched_idle-Keeps (curenv k)
  sched_found-Keeps (some e) (_, _, _, _, on, _) off =
      env_run-Keeps e (differ (λ i. is_runnable (k.envs i).status) e j on off)

  -- An environment that is neither running nor runnable is not entered by sched_yield and keeps
  -- its whole state.
  pub sched_yield-Keeps : is_runnable (k.envs j).status ≡ false → Keeps j k (sched_yield {A = A} k)
  unfolding sched_yield
  sched_yield-Keeps off =
      sched_found-Keeps _ (find_runnable-Found nenv (begin_of k.envs (curenv k)) 0 0 k.envs) off
