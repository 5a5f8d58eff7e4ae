-- ===== src/Machine/Kernel.antt =====
-- inc/env.h, inc/trap.h, kern/cpu.h: environments, and the state that the kernel shares among CPUs.
--
-- `struct Env *` is the index into `envs`, `NULL` is `none`. An envid_t is its 32-bit pattern.
use xv6_lab.Base.{ℕ, ◌%◌, Bool, Option, none, some, update}
use xv6_lab.Machine.Phys.{Phys, M, Run}

abbrev pub nenv : ℕ
nenv = 1024

abbrev pub envx : ℕ → ℕ
envx envid = envid % 1024

pub data EnvStatus : Type 0 where
  free dying runnable running not_runnable : EnvStatus

pub record PushRegs : Type 0 where
  pub edi : ℕ
  pub esi : ℕ
  pub ebp : ℕ
  pub oesp : ℕ
  pub ebx : ℕ
  pub edx : ℕ
  pub ecx : ℕ
  pub eax : ℕ

-- `struct Trapframe`, less its padding
pub record Trapframe : Type 0 where
  pub regs : PushRegs
  pub es : ℕ
  pub ds : ℕ
  pub trapno : ℕ
  pub err : ℕ
  pub eip : ℕ
  pub cs : ℕ
  pub eflags : ℕ
  pub esp : ℕ
  pub ss : ℕ

-- The IPC fields of `struct Env`
pub record Ipc : Type 0 where
  pub recving : Bool
  pub dstva : ℕ
  pub value : ℕ
  pub from : ℕ
  pub perm : ℕ

-- `pgdir` is the page of the page directory. 0 is NULL: page 0 is never allocated.
pub record Env : Type 0 where
  pub tf : Trapframe
  pub link : Option ℕ
  pub id : ℕ
  pub parent_id : ℕ
  pub type : ℕ
  pub status : EnvStatus
  pub runs : ℕ
  pub cpunum : ℕ
  pub pgdir : ℕ
  pub pgfault_upcall : ℕ
  pub ipc : Ipc

-- `cpu` is cpunum(), the CPU that runs this kernel code, and `cpu_env` the field of each
-- `struct CpuInfo`. `halted` is cpu_status == CPU_HALTED, `cr3` the register of this CPU.
pub record Kernel : Type 0 where
  pub phys : Phys
  pub kern_pgdir : ℕ
  pub envs : ℕ → Env
  pub env_free_list : Option ℕ
  pub cpu : ℕ
  pub cpu_env : ℕ → Option ℕ
  pub halted : ℕ → Bool
  pub locked : Bool
  pub cr3 : ℕ
  pub user_mem_check_addr : ℕ

-- How a piece of kernel code ends: it returns, panics, enters environment `e` in user mode by
-- env_pop_tf, halts the CPU at the end of sched_halt, or stays in the kernel monitor.
pub data Outcome (A : Type 0) : Type 0 where
  done : A → Kernel → Outcome A
  crash : Outcome A
  enter : ℕ → Kernel → Outcome A
  halt : Kernel → Outcome A
  debug : Kernel → Outcome A

abbrev pub K : Type 0 → Type 0
K A = Kernel → Outcome A

abbrev pub pure : {A : Type 0} → A → K A
pure = done

module _ {A B : Type 0} where
  abbrev pub and_then : Outcome A → (A → K B) → Outcome B
  and_then (done a k) f = f a k
  and_then crash f = crash
  and_then (enter e k) f = enter e k
  and_then (halt k) f = halt k
  and_then (debug k) f = debug k

  infixl 5 ◌>>=◌ ◌>>◌
  abbrev pub ◌>>=◌ : K A → (A → K B) → K B
  m >>= f = λ k. and_then (m k) f

  abbrev pub ◌>>◌ : K A → K B → K B
  m >> n = m >>= λ _. n

abbrev pub get : K Kernel
get k = done k k

abbrev pub put : Kernel → K (Unit {0})
put k' k = done tt k'

-- Code of kern/pmap.c, run on the kernel's physical memory
abbrev pub lift_run : {A : Type 0} → Kernel → Run A → Outcome A
lift_run k (Run.ok a s) = done a (record k { phys = s })
lift_run k Run.panic = crash

abbrev pub lift : {A : Type 0} → M A → K A
lift m k = lift_run k (m k.phys)

abbrev pub set_env : ℕ → Env → K (Unit {0})
set_env e env k = done tt (record k { envs = update k.envs e env })

abbrev pub curenv : Kernel → Option ℕ
curenv k = k.cpu_env k.cpu

abbrev pub set_curenv : Option ℕ → K (Unit {0})
set_curenv o k = done tt (record k { cpu_env = update k.cpu_env k.cpu o })

abbrev pub pgdir_of : (ℕ → Env) → Option ℕ → Option ℕ
pgdir_of envs none = none
pgdir_of envs (some e) = some (envs e).pgdir

-- `curenv->env_pgdir`, `none` if curenv is NULL
abbrev pub cur_pgdir : Kernel → Option ℕ
cur_pgdir k = pgdir_of k.envs (curenv k)
