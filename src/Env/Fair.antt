-- ===== src/Env/Fair.antt =====
-- kern/sched.c: no runnable environment waits for ever.
use xv6_lab.Base.{
  ℕ, zero, suc, ◌+◌, ◌≤◌, ◌<◌, ◌≡◌, ◌≢◌, refl, true, some, arith, ◌==◌, ==→eq, Bool-cases, inl, inr,
  sym, ap, ◌∙◌,
}
use xv6_lab.Machine.Kernel.{Kernel, Outcome, done, crash, enter, halt, debug, curenv, envx}
use xv6_lab.Env.Sched.{begin_of, sched_yield}
use xv6_lab.Env.Pick.{runs_next, distance, Scheduled, sched_yield-Scheduled}

-- From slot `e + 1` on the search comes to slot `m` sooner than from `begin` on, where it passed `e`
-- first.
closer :
    (begin e m : ℕ)
    → e < 1024
    → m < 1024
    → e ≢ m
    → distance begin e ≤ distance begin m
    → distance (e + 1) m < distance begin m
closer begin e m be bm ne le = ground arith

begin_at :
    (k : Kernel) (e : ℕ)
    → curenv k ≡ some e
    → envx (k.envs e).id ≡ e
    → begin_of k.envs (curenv k) ≡ e + 1
begin_at k e current id = rw (current, id) refl

module _ (A : Type 0) (m : ℕ) (slot : m < 1024) where
  -- With `m` runnable, sched_yield enters an environment that is no farther than `m`.
  abbrev Picks : Kernel → Outcome A → Type 0
  Picks k o =
      (e : ℕ) × (k' : Kernel) × (o ≡ enter e k')
      × (distance (begin_of k.envs (curenv k)) e ≤ distance (begin_of k.envs (curenv k)) m)

  entered_outcome :
      (k : Kernel) (o : Outcome A) → runs_next k.envs m ≡ true → Scheduled m k o → Picks k o
  entered_outcome k (done a k') on s = elim s [ ]
  entered_outcome k crash on s = elim s [ ]
  entered_outcome k (enter e k') on (_, how) = (
    e,
    k',
    refl,
    elim how [
      | inl (_, q) ↦ elim q [ inl off ↦ absurd (cc) | inr le ↦ le ]
      | inr (off, _, _) ↦ absurd (cc)
    ],
  )
  entered_outcome k (halt k') on (off, _, _, _, _, _) = absurd (cc)
  entered_outcome k (debug k') on (off, _, _) = absurd (cc)

  picked : (k : Kernel) → runs_next k.envs m ≡ true → Picks k (sched_yield {A = A} k)
  picked k on = entered_outcome k (sched_yield {A = A} k) on (sched_yield-Scheduled A k m slot)

  -- `world i` is the state at the `i`-th call of sched_yield: the environment entered by the call before
  -- is current then, under an id that names its slot.
  abbrev pub Runs : (ℕ → Kernel) → Type 0
  Runs world =
      (i e : ℕ) (k' : Kernel)
      → sched_yield {A = A} (world i) ≡ enter e k'
      → (curenv (world (suc i)) ≡ some e) × (envx ((world (suc i)).envs e).id ≡ e)

  -- `m` is runnable at each call until it is entered.
  abbrev pub Waiting : (ℕ → Kernel) → Type 0
  Waiting world =
      (i : ℕ)
      → ((j : ℕ) → j < i → (k' : Kernel) → sched_yield {A = A} (world j) ≢ enter m k')
      → runs_next (world i).envs m ≡ true

  pub entered-eq : (e f : ℕ) (k k' : Kernel) → ◌≡◌ {A = Outcome A} (enter e k) (enter f k') → e ≡ f
  entered-eq e f k k' h = cc

  waits :
      (n : ℕ) (world : ℕ → Kernel)
      → distance (begin_of (world 0).envs (curenv (world 0))) m < n
      → Runs world
      → Waiting world
      → (i : ℕ) × (i < n) × (k' : Kernel) × (sched_yield {A = A} (world i) ≡ enter m k')
  waits zero world near runs wait = absurd (omega arith)
  waits (suc n) world near runs wait =
      let (e, k', entered, le) = picked (world 0) (wait 0 λ j h. absurd (omega arith)) in
      elim (Bool-cases (e == m)) [
        | inl same ↦ (0, omega arith, k', entered ∙ ap (λ (x : ℕ). enter x k') (==→eq e m same))
        | inr other ↦
            let (current, id) = runs 0 e k' entered in
            let ne : e ≢ m = ground arith in
            let next = begin_at (world 1) e current id in
            let bound : e < 1024 = omega (arith, id) in
            let (i, h, l, reached) =
              waits n (λ j. world (suc j))
                (omega (
                  arith,
                  ap (λ (b : ℕ). distance b m) next,
                  closer (begin_of (world 0).envs (curenv (world 0))) e m bound slot ne le,
                ))
                (λ j. runs (suc j))
                (λ j before. wait (suc j) (earlier e k' entered ne world j before)) in
            (suc i, omega arith, l, reached)
      ]
    where
      earlier :
          (e : ℕ) (k' : Kernel)
          → sched_yield {A = A} (world 0) ≡ enter e k'
          → e ≢ m
          → (w : ℕ → Kernel) (i : ℕ)
          → ((j : ℕ) → j < i → (l : Kernel) → sched_yield {A = A} (world (suc j)) ≢ enter m l)
          → (j : ℕ) → j < suc i
          → (l : Kernel) → sched_yield {A = A} (world j) ≢ enter m l
      earlier e k' entered ne w i before zero h l q = ne (entered-eq e m k' l (sym entered ∙ q))
      earlier e k' entered ne w i before (suc j) h l q = before j (omega arith) l q

  -- An environment that is runnable at each call of sched_yield until it is entered is entered
  -- within 1024 calls, if at each next call the environment entered before is current, under an id
  -- that names its slot.
  pub sched_yield-fair :
      (world : ℕ → Kernel)
      → Runs world
      → Waiting world
      → (i : ℕ) × (i < 1024) × (k' : Kernel) × (sched_yield {A = A} (world i) ≡ enter m k')
  sched_yield-fair world runs wait = waits 1024 world (omega arith) runs wait
