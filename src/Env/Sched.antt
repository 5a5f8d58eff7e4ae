-- ===== src/Env/Sched.antt =====
-- kern/env.c: env_run and env_pop_tf; kern/sched.c: sched_yield and sched_halt.
use xv6_lab.Base.{
  ℕ, zero, suc, ◌+◌, ◌%◌, Bool, true, false, Option, none, some, ◌||◌, if◌then◌else◌, update,
}
use xv6_lab.Machine.Mmu.{u32}
use xv6_lab.Machine.Kernel.{EnvStatus, Env, enter, halt, debug, K, curenv, nenv, envx}

abbrev pub is_running : EnvStatus → Bool
is_running EnvStatus.running = true
is_running _ = false

abbrev pub is_runnable : EnvStatus → Bool
is_runnable EnvStatus.runnable = true
is_runnable _ = false

abbrev pub is_dying : EnvStatus → Bool
is_dying EnvStatus.dying = true
is_dying _ = false

-- curenv goes back to ENV_RUNNABLE if it is ENV_RUNNING.
abbrev pub preempt : Option ℕ → (ℕ → Env) → ℕ → Env
preempt none envs = envs
preempt (some c) envs =
    if is_running (envs c).status
    then update envs c (record (envs c) { status = EnvStatus.runnable })
    else envs

-- env_run ends in env_pop_tf, which notes the CPU and drops to user mode.
unfoldable pub env_run : {A : Type 0} → ℕ → K A
env_run e k =
    let envs = preempt (curenv k) k.envs in
    enter e (record k {
      envs = update envs e (record (envs e) {
        status = EnvStatus.running;
        runs = u32 ((envs e).runs + 1);
        cpunum = k.cpu;
      });
      cpu_env = update k.cpu_env k.cpu (some e);
      cr3 = (envs e).pgdir;
      locked = false;
    })

-- The first ENV_RUNNABLE environment among the `n` that are left from `begin + i` on, round the array
unfoldable pub find_runnable : (n begin i : ℕ) → (ℕ → Env) → Option ℕ
find_runnable zero begin i envs = none
find_runnable (suc n) begin i envs =
    let rest = find_runnable n begin (i + 1) envs in
    if is_runnable (envs ((begin + i) % nenv)).status then some ((begin + i) % nenv) else rest

-- Whether one of the first `n` environments is runnable, running or dying
unfoldable pub any_alive : ℕ → (ℕ → Env) → Bool
any_alive zero envs = false
any_alive (suc n) envs =
    (is_runnable (envs n).status || is_running (envs n).status || is_dying (envs n).status)
    || any_alive n envs

unfoldable pub sched_halt : {A : Type 0} → K A
sched_halt k =
    if any_alive nenv k.envs
    then halt (record k {
      cpu_env = update k.cpu_env k.cpu none;
      cr3 = k.kern_pgdir;
      halted = update k.halted k.cpu true;
      locked = false;
    })
    else debug k

abbrev pub begin_of : (ℕ → Env) → Option ℕ → ℕ
begin_of envs none = 0
begin_of envs (some c) = envx (envs c).id + 1

-- What is left when no environment is runnable
unfoldable pub sched_idle : {A : Type 0} → Option ℕ → K A
sched_idle none k = sched_halt k
sched_idle (some c) k = if is_running (k.envs c).status then env_run c k else sched_halt k

abbrev pub sched_found : {A : Type 0} → Option ℕ → K A
sched_found none k = sched_idle (curenv k) k
sched_found (some e) k = env_run e k

unfoldable pub sched_yield : {A : Type 0} → K A
sched_yield k = sched_found (find_runnable nenv (begin_of k.envs (curenv k)) 0 k.envs) k
