-- ===== src/Examples/Interrupts.antt =====
-- The theorems on kern/trap.c at concrete kernels.
use xv6_lab.Base.{ℕ, ◌≡◌, refl, false, none, some, [], arith, ◌==◌, ◌&&◌, if◌then◌else◌}
use xv6_lab.Machine.Phys.{Phys, Run}
use xv6_lab.Machine.Kernel.{EnvStatus, Trapframe, Kernel, done, enter}
use xv6_lab.Pmap.Table.{pgdir_walk}
use xv6_lab.Pmap.Alloc.{page_decref, page_free}
use xv6_lab.Pmap.UserMem.{user_mem_check, user_mem_rounds}
use xv6_lab.Env.Alloc.{fresh_tf}
use xv6_lab.Env.Free.{free_space, free_pdes, free_pde}
use xv6_lab.Env.Sched.{sched_yield}
use xv6_lab.Env.Blocked.{Keeps}
use xv6_lab.Env.Pick.{Scheduled}
use xv6_lab.Syscall.Ret.{val}
use xv6_lab.Syscall.Dispatch.{syscall}
use xv6_lab.Syscall.Proc.{sys_getenvid}
use xv6_lab.Traps.Fault.{Arrival, saved, frame_base, page_fault_handler}
use xv6_lab.Traps.Handle.{trap}
use xv6_lab.Traps.Ends.{Left, trap-Left}
use xv6_lab.Traps.Resume.{
  IsUserTrap, Resumes, reaped, stored, answered, trap-dying, trap-timer, trap-syscall,
}
use xv6_lab.Traps.Upcall.{CanPush, Pushed, Below, page_fault_handler-Pushed}
use xv6_lab.Examples.World.{an_env, kernel}

abbrev arrival : Arrival
arrival = record { panicked = false; int_flag = false; cr2 = 0x1234; wild = none; char = 0 }

-- The user program of `kernel` traps with number `n`, and 2 in %eax, the number of sys_getenvid.
abbrev trapped : (n : ℕ) → Trapframe
trapped n = record fresh_tf {
  trapno = n;
  esp = 0xEEBF_DFF0;
  regs = record { edi = 0; esi = 0; ebp = 0; oesp = 0; ebx = 0; edx = 0; ecx = 0; eax = 2 };
}

abbrev outside : Kernel
outside = record kernel { locked = false }

user_trap : (n : ℕ) → IsUserTrap arrival (trapped n) 0 outside
user_trap n = record {
  quiet = refl;
  masked = refl;
  mode = refl;
  current = refl;
  awake = refl;
  unlocked = refl;
}

trap-Left_example : Left (trap arrival (trapped 32) outside)
trap-Left_example = trap-Left arrival (trapped 32) outside

timer_yields :
    Scheduled 0 (stored 0 (trapped 32) outside) (trap arrival (trapped 32) outside)
    × Resumes 0 (trapped 32) (trap arrival (trapped 32) outside)
timer_yields = trap-timer (user_trap 32) refl 0 (omega arith) refl

asks_id :
    syscall none 0 0 2 0 0 0 0 0 (stored 0 (trapped 48) outside)
    ≡ done (val 4096) (stored 0 (trapped 48) outside)
unfolding syscall sys_getenvid
asks_id = refl

trap-syscall_example :
    (k' : Kernel) × (trap arrival (trapped 48) outside ≡ enter 0 k')
    × ((k'.envs 0).tf ≡ answered (trapped 48) (val 4096))
trap-syscall_example =
    trap-syscall (user_trap 48) refl (val 4096) (stored 0 (trapped 48) outside) refl asks_id refl
      refl

-- The current environment is dying, and its address space is empty.
abbrev empty : Phys
empty = record {
  npages = 8;
  pages = λ p. record { link = none; ref = 1 };
  free_list = none;
  mem = λ p i. 0;
  tlb = [];
}

abbrev zombie : Kernel
zombie = record outside {
  phys = empty;
  envs = λ e.
      if e == 0
      then an_env 4096 EnvStatus.dying false none
      else an_env 4097 EnvStatus.runnable false none;
}

abbrev memory_of : Run (Unit {0}) → Phys
memory_of (Run.ok a s) = s
memory_of Run.panic = empty

zombie_trap : IsUserTrap arrival (trapped 32) 0 zombie
zombie_trap = record {
  quiet = refl;
  masked = refl;
  mode = refl;
  current = refl;
  awake = refl;
  unlocked = refl;
}

freed : Phys
freed = memory_of (free_space (some 1) 1 empty)

freed_lem : free_space (some 1) 1 empty ≡ Run.ok tt freed
unfolding freed free_space free_pdes free_pde page_decref page_free
freed_lem = refl

trap-dying_example :
    (trap arrival (trapped 32) zombie ≡ sched_yield (reaped 0 freed zombie))
    × Keeps 0 (reaped 0 freed zombie) (trap arrival (trapped 32) zombie)
trap-dying_example = trap-dying zombie_trap freed refl freed_lem

-- The exception stack is page 5, by entry 1023 of the page table in page 2.
abbrev stack_space : Phys
stack_space = record empty {
  mem = λ p i. if p == 1 && (i == 954) then 8199 else if p == 2 && (i == 1023) then 20487 else 0;
}

abbrev faulting : Kernel
faulting = record kernel {
  phys = stack_space;
  envs = λ e. record (an_env 4096 EnvStatus.running false none) {
    pgfault_upcall = 0x80_0020;
    tf = trapped 14;
  };
}

stack_passes : user_mem_check 1 (frame_base 0xEEBF_DFF0) 56 6 stack_space ≡ Run.ok none stack_space
unfolding user_mem_check user_mem_rounds pgdir_walk frame_base
stack_passes = refl

can_push : CanPush 0 faulting 5
unfolding frame_base
can_push = record {
  current = refl;
  user_mode = refl;
  not_full = λ e. omega arith;
  upcall = refl;
  aligned = refl;
  room = omega arith;
  passes = stack_passes;
  mapped = record {
    allowed = refl;
    page = refl;
    off_root = λ e. omega arith;
    off_table = λ e. omega arith;
  };
}

page_fault_handler-Pushed_example :
    (k' : Kernel) × (page_fault_handler arrival (saved 0) faulting ≡ enter 0 k')
    × Pushed arrival 0 faulting 5 (frame_base 0xEEBF_DFF0) k'
    × Below 0xEEBF_DFF0 (frame_base 0xEEBF_DFF0)
page_fault_handler-Pushed_example = page_fault_handler-Pushed arrival can_push
