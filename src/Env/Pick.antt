-- ===== src/Env/Pick.antt =====
-- kern/sched.c: which environment sched_yield runs.
use xv6_lab.Base.{
  ==-refl, ℕ, zero, suc, ◌+◌, ◌-◌, ◌%◌, ◌≤◌, ◌<◌, ◌≡◌, refl, Bool, true, false, Option, none, some,
  arith, ◌==◌, ==→eq, Bool-cases, ◌⊎◌, inl, inr, sym,
}
use xv6_lab.Machine.Kernel.{EnvStatus, Env, Kernel, Outcome, enter, halt, debug, nenv, curenv}
use xv6_lab.Env.Sched.{
  is_running, is_runnable, preempt, env_run, find_runnable, any_alive, sched_halt, begin_of,
  sched_idle, sched_found, sched_yield,
}

abbrev pub runs_next : (ℕ → Env) → ℕ → Bool
runs_next envs m = is_runnable (envs m).status

-- What the search over `n` slots from `begin + i` on comes to, seen from the slot `begin + j`: none of
-- them is runnable, or the one found is and slot `begin + j` is none of those passed over.
abbrev pub Found : (n begin i j : ℕ) → (ℕ → Env) → Option ℕ → Type 0
Found n begin i j envs none =
    (j < i) ⊎ ((i + n ≤ j) ⊎ (runs_next envs ((begin + j) % nenv) ≡ false))
Found n begin i j envs (some e) =
    (d : ℕ) × (i ≤ d)
    × (d < i + n)
    × (e ≡ (begin + d) % nenv)
    × (runs_next envs e ≡ true)
    × ((j < i) ⊎ ((d ≤ j) ⊎ (runs_next envs ((begin + j) % nenv) ≡ false)))

Found-skip :
    (n begin i j : ℕ) (envs : ℕ → Env) (r : Option ℕ)
    → runs_next envs ((begin + i) % nenv) ≡ false
    → Found n begin (i + 1) j envs r
    → Found (suc n) begin i j envs r
Found-skip n begin i j envs none off f = elim (Bool-cases (j == i)) [
  | inl e ↦ inr (inr (rw (==→eq j i e) off))
  | inr e ↦ ground arith
]
Found-skip n begin i j envs (some e) off (d, lo, hi, at, on, q) = (
  d,
  omega arith,
  omega arith,
  at,
  on,
  elim (Bool-cases (j == i)) [ inl e ↦ inr (inr (rw (==→eq j i e) off)) | inr e ↦ ground arith ],
)

pub find_runnable-Found :
    (n begin i j : ℕ) (envs : ℕ → Env) → Found n begin i j envs (find_runnable n begin i envs)
unfolding find_runnable
find_runnable-Found zero begin i j envs = ground arith
find_runnable-Found (suc n) begin i j envs =
    elim (Bool-cases (runs_next envs ((begin + i) % nenv))) [
      | inl on ↦ rw on (i, omega arith, omega arith, refl, on, ground arith)
      | inr off ↦
          rw off (Found-skip n begin i j envs _ off (find_runnable-Found n begin (i + 1) j envs))
    ]

-- How many slots the search from `begin` on passes before slot `m`
abbrev pub distance : (begin m : ℕ) → ℕ
distance begin m = (m + nenv - begin % nenv) % nenv

-- Environment `e` runs on this CPU in its own address space, and the kernel's lock is free.
pub record Entered (e : ℕ) (k k' : Kernel) : Type 0 where
  pub running : (k'.envs e).status ≡ EnvStatus.running
  pub current : curenv k' ≡ some e
  pub space : k'.cr3 ≡ (k.envs e).pgdir
  pub released : k'.locked ≡ false

abbrev pub Running : Kernel → Option ℕ → Type 0
Running k none = ⊥
Running k (some c) = is_running (k.envs c).status ≡ true

-- How sched_yield may end, seen from environment `m`. It enters a runnable environment `e`, and
-- either `m` is not runnable or `e` comes no later than `m` in the round that starts after the
-- current environment. Or `m` is not runnable, and it goes on with the current environment, which
-- is running, or halts while some environment is alive, or goes to the monitor while none is.
abbrev pub Scheduled : {A : Type 0} (m : ℕ) → Kernel → Outcome A → Type 0
Scheduled m k (enter e k') =
    Entered e k k'
    × (((runs_next k.envs e ≡ true)
          × ((runs_next k.envs m ≡ false)
              ⊎ (distance (begin_of k.envs (curenv k)) e
                  ≤ distance (begin_of k.envs (curenv k)) m)))
        ⊎ ((runs_next k.envs m ≡ false)
            × (curenv k ≡ some e)
            × (is_running (k.envs e).status ≡ true)))
Scheduled m k (halt k') =
    (runs_next k.envs m ≡ false)
    × (any_alive nenv k.envs ≡ true)
    × ¬ (Running k (curenv k))
    × (curenv k' ≡ none)
    × (k'.halted k.cpu ≡ true)
    × (k'.locked ≡ false)
Scheduled m k (debug k') = (runs_next k.envs m ≡ false) × (any_alive nenv k.envs ≡ false) × (k' ≡ k)
Scheduled m k _ = ⊥

pub preempt-pgdir :
    (o : Option ℕ) (envs : ℕ → Env) (e : ℕ) → (preempt o envs e).pgdir ≡ (envs e).pgdir
preempt-pgdir none envs e = refl
preempt-pgdir (some c) envs e = elim (Bool-cases (is_running (envs c).status)) [
  | inl r ↦ elim (Bool-cases (e == c)) [
    | inl q ↦ rw (r, q, ==→eq e c q) refl
    | inr q ↦ rw (r, q) refl
  ]
  | inr r ↦ rw r refl
]

module _ (A : Type 0) (k : Kernel) (m : ℕ) where
  enter-Scheduled :
      (e : ℕ)
      → ((k' : Kernel) → Entered e k k' → Scheduled {A = A} m k (enter e k'))
      → Scheduled {A = A} m k (env_run {A = A} e k)
  unfolding env_run
  enter-Scheduled e f = f _ (record {
    running = rw (==-refl e) refl;
    current = rw (==-refl k.cpu) refl;
    space = preempt-pgdir (curenv k) k.envs e;
    released = refl;
  })

  halt-Scheduled :
      runs_next k.envs m ≡ false
      → ¬ (Running k (curenv k))
      → Scheduled {A = A} m k (sched_halt {A = A} k)
  unfolding sched_halt
  halt-Scheduled off idle = elim (Bool-cases (any_alive nenv k.envs)) [
    | inl on ↦ rw on (off, on, idle, rw (==-refl k.cpu) refl, rw (==-refl k.cpu) refl, refl)
    | inr on ↦ rw on (off, on, refl)
  ]

  idle-Scheduled :
      (o : Option ℕ)
      → curenv k ≡ o
      → runs_next k.envs m ≡ false
      → Scheduled {A = A} m k (sched_idle {A = A} o k)
  unfolding sched_idle
  idle-Scheduled none q off = halt-Scheduled off (rw q λ r. r)
  idle-Scheduled (some c) q off = elim (Bool-cases (is_running (k.envs c).status)) [
    | inl r ↦ rw r (enter-Scheduled c λ k' d. (d, inr (off, q, r)))
    | inr r ↦ rw r (halt-Scheduled off (rw q (rw r λ z. cc)))
  ]

slot-distance :
    (begin m : ℕ) → m < 1024 → (distance begin m < 1024) × ((begin + distance begin m) % nenv ≡ m)
slot-distance begin m h = (omega arith, omega arith)

distance-slot : (begin d : ℕ) → d < 1024 → distance begin ((begin + d) % nenv) ≡ d
distance-slot begin d h = omega arith

Found-Scheduled :
    (A : Type 0) (k : Kernel) (m : ℕ) (r : Option ℕ)
    → m < 1024
    → Found nenv (begin_of k.envs (curenv k)) 0 (distance (begin_of k.envs (curenv k)) m) k.envs r
    → Scheduled m k (sched_found {A = A} r k)
Found-Scheduled A k m none h f =
    let begin = begin_of k.envs (curenv k) in
    let (near, slot) = slot-distance begin m h in
    let off : runs_next k.envs ((begin + distance begin m) % nenv) ≡ false = ground arith in
    idle-Scheduled A k m (curenv k) refl (rw (sym slot) off)
Found-Scheduled A k m (some e) h (d, lo, hi, at, on, q) =
    let begin = begin_of k.envs (curenv k) in
    let (near, slot) = slot-distance begin m h in
    let later : (runs_next k.envs m ≡ false) ⊎ (distance begin e ≤ distance begin m) = elim q [
      | inl low ↦ absurd (omega arith)
      | inr (inl le) ↦ inr (rw (at, distance-slot begin d (omega arith)) le)
      | inr (inr off) ↦ inl (rw (sym slot) off)
    ] in
    enter-Scheduled A k m e λ k' entered. (entered, inl (on, later))

-- For each environment m of the array, sched_yield enters the first runnable environment in
-- circular order from the one after the current one, so none after m if m is runnable; else goes
-- on with the current one if that is running; else halts while some environment is alive, or goes
-- to the monitor. It neither returns nor panics.
pub sched_yield-Scheduled :
    (A : Type 0) (k : Kernel) (m : ℕ) → m < 1024 → Scheduled {A = A} m k (sched_yield {A = A} k)
unfolding sched_yield
sched_yield-Scheduled A k m h = Found-Scheduled A k m _ h (
    find_runnable-Found nenv (begin_of k.envs (curenv k)) 0
      (distance (begin_of k.envs (curenv k)) m) k.envs)
