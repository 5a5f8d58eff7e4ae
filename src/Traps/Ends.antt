-- ===== src/Traps/Ends.antt =====
-- kern/trap.c: how a trap ends.
use xv6_lab.Base.{
  ◌≡◌, refl, ℕ, Bool, true, false, if◌then◌else◌, ◌+◌, List, [], ◌∷◌, Option, none, some,
}
use xv6_lab.Machine.Mmu.{u32}
use xv6_lab.Machine.Kernel.{
  Trapframe, Kernel, K, Outcome, done, crash, enter, halt, debug, and_then, curenv, nenv,
}
use xv6_lab.Env.Sched.{
  env_run, find_runnable, begin_of, sched_halt, sched_idle, sched_found, sched_yield,
}
use xv6_lab.Traps.Fault.{
  Arrival, Frame, on_stack, saved, with_current, store_byte, store_word, store_words, push_fault,
  page_fault_handler,
}
use xv6_lab.Traps.Handle.{
  set_eax, lock_kernel, trap_dispatch, leave, handle, from_user, wake, receive, trap,
}
use xv6_lab.Traps.Fate.{IsEntered, IsIdle, Leaving, Safe, leaving}
use xv6_lab.Traps.Calls.{env_free-Safe, env_destroy-Safe, user_mem_assert-Safe, syscall-Safe}

with_current-Safe :
    {A : Type 0} (o : Option ℕ) (f : ℕ → K A) → ((e : ℕ) → Safe (f e)) → Safe (with_current o f)
with_current-Safe none f h k = search leaving
with_current-Safe (some e) f h k = h e k

store_byte-Safe : (va v : ℕ) → Safe (store_byte va v)
unfolding store_byte
store_byte-Safe va v k = search leaving

store_word-Safe : (va v : ℕ) → Safe (store_word va v)
unfolding store_word
store_word-Safe va v k = search (leaving, store_byte-Safe)

store_words-Safe : (va : ℕ) (ws : List ℕ) → Safe (store_words va ws)
unfolding store_words
store_words-Safe va [] k = search leaving
store_words-Safe va (w ∷ ws) k =
    search (leaving, store_word-Safe, store_words-Safe (u32 (va + 4)) ws)

push_fault-Safe : (a : Arrival) (f : Frame) (e : ℕ) → Safe (push_fault a f e)
unfolding push_fault
push_fault-Safe a f e k = search (leaving, user_mem_assert-Safe, store_words-Safe)

page_fault_handler-Safe : (a : Arrival) (f : Frame) → Safe (page_fault_handler a f)
unfolding page_fault_handler
page_fault_handler-Safe a f k =
    search (leaving, with_current-Safe, env_destroy-Safe, push_fault-Safe)

set_eax-Safe : (f : Frame) (v : ℕ) → Safe (set_eax f v)
set_eax-Safe (on_stack tf) v k = search leaving
set_eax-Safe (saved e) v k = search leaving

trap_dispatch-Safe : (a : Arrival) (f : Frame) → Safe (trap_dispatch a f)
unfolding trap_dispatch
trap_dispatch-Safe a f k =
    search
      (
        leaving, page_fault_handler-Safe, with_current-Safe, syscall-Safe, set_eax-Safe,
        env_destroy-Safe,
      )
      depth 12

leave-Safe : (o : Option ℕ) → Safe (leave o)
unfolding leave
leave-Safe none k = search leaving
leave-Safe (some c) k = search leaving

handle-Safe : (a : Arrival) (f : Frame) → Safe (handle a f)
unfolding handle
handle-Safe a f k = search (leaving, trap_dispatch-Safe, leave-Safe)

from_user-Safe : (a : Arrival) (tf : Trapframe) (e : ℕ) → Safe (from_user a tf e)
unfolding from_user
from_user-Safe a tf e k = search (leaving, env_free-Safe, handle-Safe)

lock_kernel-Safe : Safe lock_kernel
unfolding lock_kernel
lock_kernel-Safe k = search leaving

wake-Safe : Safe wake
unfolding wake
wake-Safe k = search (leaving, lock_kernel-Safe)

receive-Safe : (a : Arrival) (tf : Trapframe) → Safe (receive a tf)
unfolding receive
receive-Safe a tf k =
    search (leaving, with_current-Safe, lock_kernel-Safe, from_user-Safe, handle-Safe)

trap-Safe : (a : Arrival) (tf : Trapframe) → Safe (trap a tf)
unfolding trap
trap-Safe a tf k = search (leaving, wake-Safe, receive-Safe)

-- The code does not come back to its caller.
pub data Gone {A : Type 0} : Outcome A → Type 0 where
  crashes : Gone crash
  enters : (e : ℕ) (k : Kernel) → Gone (enter e k)
  halts : (k : Kernel) → Gone (halt k)
  stays : (k : Kernel) → Gone (debug k)

and_then-Gone :
    {A B : Type 0} (o : Outcome A) (f : A → K B)
    → ((a : A) (k : Kernel) → Gone (f a k))
    → Gone (and_then o f)
and_then-Gone (done a k) f g = g a k
and_then-Gone crash f g = crashes
and_then-Gone (enter e k) f g = enters e k
and_then-Gone (halt k) f g = halts k
and_then-Gone (debug k) f g = stays k

-- Nothing is run after such code.
pub and_then-skip : {A : Type 0} (o : Outcome A) (f : A → K A) → Gone o → and_then o f ≡ o
and_then-skip crash f g = refl
and_then-skip (done a k) f g = elim g [ ]
and_then-skip (enter e k) f g = refl
and_then-skip (halt k) f g = refl
and_then-skip (debug k) f g = refl

if-Gone : {A : Type 0} (b : Bool) (x y : Outcome A) → Gone x → Gone y → Gone (if b then x else y)
if-Gone true x y p q = p
if-Gone false x y p q = q

if-at-Gone :
    {A : Type 0} (b : Bool) (m n : K A) (k : Kernel)
    → Gone (m k)
    → Gone (n k)
    → Gone ((if b then m else n) k)
if-at-Gone true m n k p q = p
if-at-Gone false m n k p q = q

module _ (A : Type 0) where
  env_run-Gone : (e : ℕ) (k : Kernel) → Gone (env_run {A = A} e k)
  unfolding env_run
  env_run-Gone e k = enters _ _

  sched_halt-Gone : (k : Kernel) → Gone (sched_halt {A = A} k)
  unfolding sched_halt
  sched_halt-Gone k = search (if-Gone, halts, stays)

  sched_idle-Gone : (o : Option ℕ) (k : Kernel) → Gone (sched_idle {A = A} o k)
  unfolding sched_idle
  sched_idle-Gone none k = sched_halt-Gone k
  sched_idle-Gone (some c) k = search (if-Gone, env_run-Gone, sched_halt-Gone)

  sched_found-Gone : (o : Option ℕ) (k : Kernel) → Gone (sched_found {A = A} o k)
  sched_found-Gone none k = sched_idle-Gone (curenv k) k
  sched_found-Gone (some e) k = env_run-Gone e k

  pub sched_yield-Gone : (k : Kernel) → Gone (sched_yield {A = A} k)
  unfolding sched_yield
  sched_yield-Gone k = sched_found-Gone (find_runnable nenv (begin_of k.envs (curenv k)) 0 k.envs) k

ruleset gone = (and_then-Gone, if-Gone, if-at-Gone, crashes, env_run-Gone, sched_yield-Gone)

leave-Gone : (o : Option ℕ) (k : Kernel) → Gone (leave o k)
unfolding leave
leave-Gone none k = search gone
leave-Gone (some c) k = search gone

handle-Gone : (a : Arrival) (f : Frame) (k : Kernel) → Gone (handle a f k)
unfolding handle
handle-Gone a f k = search (gone, leave-Gone)

from_user-Gone : (a : Arrival) (tf : Trapframe) (e : ℕ) (k : Kernel) → Gone (from_user a tf e k)
unfolding from_user
from_user-Gone a tf e k = search (gone, handle-Gone)

current-Gone :
    {A : Type 0} (o : Option ℕ) (f : ℕ → K A) (k : Kernel)
    → ((e : ℕ) → Gone (f e k))
    → Gone (with_current o f k)
current-Gone none f k h = crashes
current-Gone (some e) f k h = h e

receive-Gone : (a : Arrival) (tf : Trapframe) (k : Kernel) → Gone (receive a tf k)
unfolding receive
receive-Gone a tf k = search (gone, current-Gone, from_user-Gone, handle-Gone)

trap-Gone : (a : Arrival) (tf : Trapframe) (k : Kernel) → Gone (trap a tf k)
unfolding trap
trap-Gone a tf k = search (gone, receive-Gone)

-- How trap may end
abbrev pub Left : {A : Type 0} → Outcome A → Type 0
Left (done a k) = ⊥
Left crash = Unit
Left (enter e k) = IsEntered e k
Left (halt k) = IsIdle k
Left (debug k) = Unit

both : {A : Type 0} (o : Outcome A) → Leaving o → Gone o → Left o
both (done a k) l g = elim g [ ]
both crash l g = tt
both (enter e k) (Leaving.enters _ _ h) g = h
both (halt k) (Leaving.halts _ h) g = h
both (debug k) l g = tt

-- Whatever traps, in whatever state: trap does not return. Where it enters an environment, that
-- environment is running, is current on this CPU and noted as its own, cr3 is its page directory
-- and the lock is free; where it halts, the CPU has no environment, uses the kernel's page
-- directory, and the lock is free.
pub trap-Left : (a : Arrival) (tf : Trapframe) (k : Kernel) → Left (trap a tf k)
trap-Left a tf k = both (trap a tf k) (trap-Safe a tf k) (trap-Gone a tf k)
