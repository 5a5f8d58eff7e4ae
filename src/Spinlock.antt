-- ===== src/Spinlock.antt =====
-- kern/spinlock.c: the big kernel lock, as steps of several CPUs on one word of memory.
--
-- A CPU that calls spin_lock spins on `xchg` until the word was 0. spin_unlock stores 0 by `xchg`.
-- Each `xchg` is one step: the instruction locks the bus. DEBUG_SPINLOCK is defined in
-- kern/spinlock.h: spin_lock panics if this CPU holds the lock, spin_unlock if it does not.
pub mod Exclusion
use xv6_lab.Base.{
  ◌⊎◌, ℕ, zero, suc, ◌≡◌, ◌≢◌, refl, Bool, true, false, Option, none, some, ◌==◌, ==→eq, ==-refl,
  ◌&&◌, not, is, if◌then◌else◌, update, arith, Bool-cases, inl, inr, ◌∙◌, ap, sym,
}

-- Where a CPU stands: outside; before an `xchg` of spin_lock; past it, with the owner not yet
-- noted; in the critical section; in spin_unlock, with the owner cleared and the last `xchg` to
-- come
pub data Phase : Type 0 where
  outside spinning taken inside leaving : Phase

-- `locked` is the word, `owner` the debug field `cpu` of the lock.
pub record Lock : Type 0 where
  pub locked : ℕ
  pub owner : Option ℕ
  pub phase : ℕ → Phase

abbrev pub at_phase : (cpu : ℕ) → Phase → Lock → Lock
at_phase cpu p lk = record { locked = lk.locked; owner = lk.owner; phase = update lk.phase cpu p }

-- `xchg(&lk->locked, v)`: the old word, and the lock with the new one
abbrev pub xchg : (v : ℕ) → Lock → ℕ × Lock
xchg v lk = (lk.locked, record { locked = v; owner = lk.owner; phase = lk.phase })

-- `lk->locked && lk->cpu == thiscpu`
abbrev pub holding : (cpu : ℕ) → Lock → Bool
holding cpu lk = not (lk.locked == 0) && is lk.owner cpu

-- spin_lock up to its loop; `none` is the panic.
unfoldable pub start_lock : (cpu : ℕ) → Lock → Option Lock
start_lock cpu lk = if holding cpu lk then none else some (at_phase cpu spinning lk)

-- The loop of spin_lock goes on unless the word was 0.
abbrev pub looked : (cpu : ℕ) → ℕ × Lock → Lock
looked cpu (old, lk) = if old == 0 then at_phase cpu taken lk else lk

-- One round of that loop
unfoldable pub try_lock : (cpu : ℕ) → Lock → Lock
try_lock cpu lk = looked cpu (xchg 1 lk)

-- `lk->cpu = thiscpu`, the end of spin_lock
unfoldable pub note_owner : (cpu : ℕ) → Lock → Lock
note_owner cpu lk = record {
  locked = lk.locked;
  owner = some cpu;
  phase = update lk.phase cpu inside;
}

-- spin_unlock up to `lk->cpu = 0`; `none` is the panic.
unfoldable pub start_unlock : (cpu : ℕ) → Lock → Option Lock
start_unlock cpu lk =
    if not (holding cpu lk)
    then none
    else some (record { locked = lk.locked; owner = none; phase = update lk.phase cpu leaving })

-- `xchg(&lk->locked, 0)`, the end of spin_unlock
unfoldable pub release : (cpu : ℕ) → Lock → Lock
release cpu lk = at_phase cpu outside (xchg 0 lk).1

-- One step of one CPU. A CPU calls spin_lock from outside, and spin_unlock from outside or inside, that
-- is also where it does not hold the lock.
pub data Step : Lock → Lock → Type 0 where
  starts : (cpu : ℕ) {a b : Lock} → a.phase cpu ≡ outside → start_lock cpu a ≡ some b → Step a b
  spins : (cpu : ℕ) {a : Lock} → a.phase cpu ≡ spinning → Step a (try_lock cpu a)
  notes : (cpu : ℕ) {a : Lock} → a.phase cpu ≡ taken → Step a (note_owner cpu a)
  unlocks :
      (cpu : ℕ) {a b : Lock}
      → (a.phase cpu ≡ outside) ⊎ (a.phase cpu ≡ inside)
      → start_unlock cpu a ≡ some b
      → Step a b
  releases : (cpu : ℕ) {a : Lock} → a.phase cpu ≡ leaving → Step a (release cpu a)

-- After __spin_initlock
abbrev pub initial : Lock
initial = record { locked = 0; owner = none; phase = λ _. outside }

pub data Reaches : Lock → Type 0 where
  begins : Reaches initial
  goes_on : {a b : Lock} → Reaches a → Step a b → Reaches b
