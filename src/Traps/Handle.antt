-- ===== src/Traps/Handle.antt =====
-- kern/trap.c: trap_dispatch and trap.
use xv6_lab.Base.{ℕ, ◌-◌, ◌%◌, ◌^◌, true, false, none, some, Option, ◌==◌, if◌then◌else◌, update}
use xv6_lab.Machine.Mmu.{u32}
use xv6_lab.Machine.Kernel.{
  Trapframe, K, crash, debug, ◌>>=◌, ◌>>◌, get, set_env, set_curenv, done, curenv,
}
use xv6_lab.Env.Sched.{is_running, is_dying, env_run, sched_yield}
use xv6_lab.Env.Destroy.{env_free, env_destroy}
use xv6_lab.Syscall.Ret.{Ret, val, err, code}
use xv6_lab.Syscall.Dispatch.{syscall}
use xv6_lab.Traps.Fault.{
  Arrival, Frame, on_stack, saved, frame_of, with_current, page_fault_handler,
}

-- spin_lock on the kernel's lock: the state is the one in which this CPU gets the lock, and a lock
-- that is still taken then is its own, where spin_lock panics.
unfoldable pub lock_kernel : K (Unit {0})
lock_kernel k = if k.locked then crash else done tt (record k { locked = true })

-- The result of a system call as the word in %eax
abbrev pub ret_word : Ret → ℕ
ret_word (val n) = u32 n
ret_word (err e) = 2 ^ 32 - code e

-- `tf->tf_regs.reg_eax = v`: nothing reads a frame on the kernel's stack afterwards.
abbrev pub set_eax : Frame → (v : ℕ) → K (Unit {0})
set_eax (on_stack tf) v k = done tt k
set_eax (saved e) v k =
    set_env e
      (record (k.envs e) {
        tf = record ((k.envs e).tf) { regs = record ((k.envs e).tf.regs) { eax = v } };
      })
      k

-- The numbers: T_PGFLT 14, T_BRKPT 3, T_SYSCALL 48, IRQ_OFFSET + IRQ_TIMER 32, GD_KT 8. No command of
-- the monitor makes it return.
unfoldable pub trap_dispatch : Arrival → Frame → K (Unit {0})
trap_dispatch a f k =
    let tf = frame_of k f in
    (if tf.trapno == 14
        then page_fault_handler a f
        else if tf.trapno == 3
        then debug
        else if tf.trapno == 48
        then (do
          r ← with_current (curenv k) λ c.
              syscall a.wild a.char c tf.regs.eax tf.regs.edx tf.regs.ecx tf.regs.ebx tf.regs.edi
                tf.regs.esi
          set_eax f (ret_word r))
        else if tf.trapno == 32
        then sched_yield
        else if tf.cs == 8
        then (λ j. crash)
        else with_current (curenv k) env_destroy)
      k

-- The end of trap, once trap_dispatch has returned
unfoldable pub leave : Option ℕ → K (Unit {0})
leave none k = sched_yield k
leave (some c) k = if is_running (k.envs c).status then env_run c k else sched_yield k

unfoldable pub handle : Arrival → Frame → K (Unit {0})
handle a f = do trap_dispatch a f; k ← get; leave (curenv k)

-- curenv is `e`, and the lock has been taken. An environment that is dying is freed, and the CPU
-- turns to another one.
unfoldable pub from_user : Arrival → Trapframe → (e : ℕ) → K (Unit {0})
from_user a tf e = do
  k ← get
  if is_dying (k.envs e).status
      then (do env_free e; set_curenv none; sched_yield)
      else (do set_env e (record (k.envs e) { tf = tf }); handle a (saved e))

-- `xchg(&thiscpu->cpu_status, CPU_STARTED) == CPU_HALTED`, and the lock if so
unfoldable pub wake : K (Unit {0})
wake k =
    if k.halted k.cpu
    then lock_kernel (record k { halted = update k.halted k.cpu false })
    else done tt k

-- The mode in which the trap came: `(tf->tf_cs & 3) == 3` is user mode.
unfoldable pub receive : Arrival → Trapframe → K (Unit {0})
receive a tf k =
    if tf.cs % 4 == 3
    then with_current (curenv k) (λ e. lock_kernel >> from_user a tf e) k
    else handle a (on_stack tf) k

-- With `panicstr` set, or interrupts on, the CPU goes no further.
unfoldable pub trap : Arrival → Trapframe → K (Unit {0})
trap a tf =
    if a.panicked
    then (λ k. crash)
    else (do wake; if a.int_flag then (λ k. crash) else receive a tf)
