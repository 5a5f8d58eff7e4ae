-- ===== src/Spinlock/Exclusion.antt =====
-- kern/spinlock.c: at most one CPU has the lock.
use xv6_lab.Base.{
  ℕ, ◌≡◌, ◌≢◌, refl, Bool, true, false, Option, none, some, ◌==◌, ==→eq, ==-refl, not, is,
  if◌then◌else◌, update, arith, subst, Bool-cases, inl, inr, ap,
}
use xv6_lab.Spinlock.{
  Phase, outside, spinning, taken, inside, leaving, Lock, at_phase, holding, start_lock, try_lock,
  note_owner, start_unlock, release, Step, starts, spins, notes, unlocks, releases, initial,
  Reaches, begins, goes_on,
}

-- The phases between the `xchg` that takes the lock and the one that frees it
abbrev pub has_lock : Phase → Bool
has_lock outside = false
has_lock spinning = false
has_lock taken = true
has_lock inside = true
has_lock leaving = true

-- At most one CPU has the lock; the word is not 0 then; the owner is the CPU in the critical section.
pub record IsExcluding (lk : Lock) : Type 0 where
  pub once : (c d : ℕ) → has_lock (lk.phase c) ≡ true → has_lock (lk.phase d) ≡ true → c ≡ d
  pub busy : (c : ℕ) → has_lock (lk.phase c) ≡ true → lk.locked ≢ 0
  pub owned : (c : ℕ) → lk.owner ≡ some c → lk.phase c ≡ inside
  pub noted : (c : ℕ) → lk.phase c ≡ inside → lk.owner ≡ some c

initial-IsExcluding : IsExcluding initial
initial-IsExcluding = record {
  once = λ c d p q. cc;
  busy = λ c p. cc;
  owned = λ c p. cc;
  noted = λ c p. cc;
}

guard-some :
    {A : Type 0} (t : Bool) {x y : A}
    → (if t then none else some x) ≡ some y
    → (t ≡ false) × (x ≡ y)
guard-some true h = cc
guard-some false h = (refl, cc)

-- The owner that `holding` finds
owner-is : (o : Option ℕ) (cpu : ℕ) → is o cpu ≡ true → o ≡ some cpu
owner-is none cpu h = cc
owner-is (some c) cpu h = ap some (==→eq c cpu h)

module _ (cpu : ℕ) (a : Lock) (x : IsExcluding a) where
  at_spinning : a.phase cpu ≡ outside → IsExcluding (at_phase cpu spinning a)
  at_spinning p = record {
    once = λ c d q r. ground (arith, x.once c d);
    busy = λ c q. ground (arith, x.busy c);
    owned = λ c q. ground (arith, x.owned c);
    noted = λ c q. ground (arith, x.noted c);
  }

  start_lock-IsExcluding :
      (b : Lock) → a.phase cpu ≡ outside → start_lock cpu a ≡ some b → IsExcluding b
  unfolding start_lock
  start_lock-IsExcluding b p h = subst IsExcluding (guard-some (holding cpu a) h).1 (at_spinning p)

  try_lock-IsExcluding : a.phase cpu ≡ spinning → IsExcluding (try_lock cpu a)
  unfolding try_lock
  try_lock-IsExcluding p = elim (Bool-cases (a.locked == 0)) [
    | inl z ↦ rw z (record {
      once = λ c d q r. ground (arith, x.busy c, x.busy d);
      busy = λ c q. ground (arith);
      owned = λ c q. ground (arith, x.owned c);
      noted = λ c q. ground (arith, x.noted c);
    })
    | inr z ↦
        rw z
          (record { once = x.once; busy = λ c q. ground (arith); owned = x.owned; noted = x.noted })
  ]

  note_owner-IsExcluding : a.phase cpu ≡ taken → IsExcluding (note_owner cpu a)
  unfolding note_owner
  note_owner-IsExcluding p = record {
    once = λ c d q r. ground (arith, x.once c d);
    busy = λ c q. ground (arith, x.busy c);
    owned = λ c q. ground (arith, x.owned c);
    noted = λ c q. ground (arith, x.noted c, x.once c cpu);
  }

  at_leaving :
      holding cpu a ≡ true
      → IsExcluding (record { locked = a.locked; owner = none; phase = update a.phase cpu leaving })
  at_leaving h =
      let owner : a.owner ≡ some cpu = owner-is a.owner cpu (ground arith) in
      let here : a.phase cpu ≡ inside = x.owned cpu owner in
      record {
        once = λ c d q r. ground (arith, x.once c d, here);
        busy = λ c q. ground (arith, h);
        owned = λ c q. cc;
        noted = λ c q. ground (arith, x.noted c);
      }

  start_unlock-IsExcluding : (b : Lock) → start_unlock cpu a ≡ some b → IsExcluding b
  unfolding start_unlock
  start_unlock-IsExcluding b h =
      let (held, same) = guard-some (not (holding cpu a)) h in
      subst IsExcluding same (at_leaving (ground arith))

  release-IsExcluding : a.phase cpu ≡ leaving → IsExcluding (release cpu a)
  unfolding release
  release-IsExcluding p = record {
    once = λ c d q r. ground (arith, x.once c d);
    busy = λ c q. ground (arith, x.once c cpu);
    owned = λ c q. ground (arith, x.owned c);
    noted = λ c q. ground (arith, x.noted c);
  }

Step-IsExcluding : {a b : Lock} → Step a b → IsExcluding a → IsExcluding b
Step-IsExcluding (starts cpu p h) x = start_lock-IsExcluding cpu _ x _ p h
Step-IsExcluding (spins cpu p) x = try_lock-IsExcluding cpu _ x p
Step-IsExcluding (notes cpu p) x = note_owner-IsExcluding cpu _ x p
Step-IsExcluding (unlocks cpu p h) x = start_unlock-IsExcluding cpu _ x _ h
Step-IsExcluding (releases cpu p) x = release-IsExcluding cpu _ x p

-- In every state that the CPUs reach by steps of spin_lock and spin_unlock, at most one CPU has
-- the lock, the word is not 0 meanwhile, and the lock names a CPU as owner exactly while that CPU
-- is in its critical section.
pub Reaches-IsExcluding : {lk : Lock} → Reaches lk → IsExcluding lk
Reaches-IsExcluding begins = initial-IsExcluding
Reaches-IsExcluding (goes_on r s) = Step-IsExcluding s (Reaches-IsExcluding r)

-- In every reachable state, a CPU in its critical section passes the check of spin_unlock and does
-- not panic.
pub start_unlock-passes :
    {lk : Lock} (cpu : ℕ)
    → Reaches lk
    → lk.phase cpu ≡ inside
    → (b : Lock) × (start_unlock cpu lk ≡ some b) × (b.phase cpu ≡ leaving)
unfolding start_unlock
start_unlock-passes {lk} cpu r here =
    let x = Reaches-IsExcluding r in
    let owner : lk.owner ≡ some cpu = x.noted cpu here in
    let busy : (lk.locked == 0) ≡ false = ground (arith, x.busy cpu, here) in
    (
      record { locked = lk.locked; owner = none; phase = update lk.phase cpu leaving },
      rw (busy, owner, ==-refl cpu) refl,
      rw (==-refl cpu) refl,
    )
