-- ===== src/Syscall/Proc.antt =====
-- kern/syscall.c: sys_getenvid, sys_env_destroy, sys_yield, sys_exofork, sys_env_set_status and
-- sys_env_set_pgfault_upcall; kern/pmap.c: user_mem_assert.
use xv6_lab.Base.{ℕ, true, Option, none, some, bit_or, ◌==◌, if◌then◌else◌}
use xv6_lab.Machine.Mmu.{pte_u}
use xv6_lab.Machine.Kernel.{EnvStatus, Env, K, pure, ◌>>=◌, ◌>>◌, get, put, lift, set_env}
use xv6_lab.Pmap.UserMem.{user_mem_check}
use xv6_lab.Env.Lookup.{envid2env}
use xv6_lab.Env.Alloc.{Alloc, new, env_alloc}
use xv6_lab.Env.Sched.{sched_yield}
use xv6_lab.Env.Destroy.{env_destroy}
use xv6_lab.Syscall.Ret.{Ret, val, err, with_env, inval, no_mem, no_free_env}

unfoldable pub user_mem_assert : (e va len perm : ℕ) → K (Unit {0})
user_mem_assert e va len perm = do
  k ← get
  bad ← lift (user_mem_check (k.envs e).pgdir va len (bit_or perm pte_u))
  elim bad [
    | none ↦ pure tt
    | some a ↦ do j ← get; put (record j { user_mem_check_addr = a }); env_destroy e
  ]

unfoldable pub sys_getenvid : (cur : ℕ) → K Ret
sys_getenvid cur k = pure (val (k.envs cur).id) k

unfoldable pub sys_env_destroy : (cur envid : ℕ) → K Ret
sys_env_destroy cur envid = do
  k ← get
  with_env (envid2env cur envid true k) λ e. env_destroy e >> pure (val 0)

unfoldable pub sys_yield : K Ret
sys_yield = sched_yield

abbrev pub forked : (parent child : Env) → Env
forked parent child = record child {
  status = EnvStatus.not_runnable;
  tf = record (parent.tf) { regs = record (parent.tf.regs) { eax = 0 } };
}

-- What sys_exofork does with the answer of env_alloc.
unfoldable pub fork_child : (cur : ℕ) → Alloc → K Ret
fork_child cur (new e) = do
  k ← get
  set_env e (forked (k.envs cur) (k.envs e))
  j ← get
  pure (val (j.envs e).id)
fork_child cur Alloc.no_mem = pure (err no_mem)
fork_child cur Alloc.no_free_env = pure (err no_free_env)

unfoldable pub sys_exofork : (cur : ℕ) → K Ret
sys_exofork cur = do k ← get; answer ← env_alloc (k.envs cur).id; fork_child cur answer

-- The status is the number that the caller passes: ENV_RUNNABLE is 2, ENV_NOT_RUNNABLE is 4.
abbrev pub status_of : ℕ → Option EnvStatus
status_of n =
    if n == 2 then some EnvStatus.runnable else if n == 4 then some EnvStatus.not_runnable else none

unfoldable pub set_status : (cur envid : ℕ) → EnvStatus → K Ret
set_status cur envid status = do
  k ← get
  with_env (envid2env cur envid true k)
      λ e. set_env e (record (k.envs e) { status = status }) >> pure (val 0)

unfoldable pub set_checked : (cur envid : ℕ) → Option EnvStatus → K Ret
set_checked cur envid none = pure (err inval)
set_checked cur envid (some s) = set_status cur envid s

unfoldable pub sys_env_set_status : (cur envid status : ℕ) → K Ret
sys_env_set_status cur envid status = set_checked cur envid (status_of status)

unfoldable pub sys_env_set_pgfault_upcall : (cur envid func : ℕ) → K Ret
sys_env_set_pgfault_upcall cur envid func = do
  k ← get
  with_env (envid2env cur envid true k)
      λ e. set_env e (record (k.envs e) { pgfault_upcall = func }) >> pure (val 0)
