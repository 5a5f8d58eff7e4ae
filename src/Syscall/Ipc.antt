-- ===== src/Syscall/Ipc.antt =====
-- kern/syscall.c: sys_ipc_try_send and sys_ipc_recv.
use xv6_lab.Base.{
  ℕ, Bool, true, false, Option, none, some, bit_and, not, ltb, ◌&&◌, ◌==◌, if◌then◌else◌,
}
use xv6_lab.Machine.Mmu.{pgoff, pgsize, round_down, writable, pte_syscall, utop}
use xv6_lab.Machine.Phys.{load}
use xv6_lab.Machine.Kernel.{
  EnvStatus, Env, K, crash, pure, ◌>>=◌, ◌>>◌, get, lift, set_env, cur_pgdir,
}
use xv6_lab.Pmap.Table.{page_insert, page_lookup}
use xv6_lab.Env.Lookup.{envid2env}
use xv6_lab.Env.Sched.{sched_yield}
use xv6_lab.Syscall.Ret.{Ret, val, err, with_env, inval, no_mem, ipc_not_recv}

-- The receiver after a send: the fields that sys_ipc_try_send writes at its end.
abbrev pub received : (from value : ℕ) → Env → Env
received from value env = record env {
  ipc = record (env.ipc) { recving = false; from = from; value = value };
  status = EnvStatus.runnable;
  tf = record (env.tf) { regs = record (env.tf.regs) { eax = 0 } };
}

unfoldable pub deliver : (cur e value : ℕ) → K Ret
deliver cur e value k = (set_env e (received (k.envs cur).id value (k.envs e)) >> pure (val 0)) k

-- The part for a mapped page `pg`, whose entry holds `pte`.
unfoldable pub send_page : (cur e value pg pte perm : ℕ) → K Ret
send_page cur e value pg pte perm k =
    if writable perm && not (writable pte)
    then pure (err inval) k
    else if ltb (k.envs e).ipc.dstva utop
    then (do
      inserted ← lift (page_insert (cur_pgdir k) (k.envs e).pgdir pg (k.envs e).ipc.dstva perm)
      j ← get
      if not inserted then pure (err no_mem) else (do
        set_env e (record (j.envs e) { ipc = record ((j.envs e).ipc) { perm = perm } })
        deliver cur e value))
        k
    else deliver cur e value k

-- `(*pte & perm & PTE_SYSCALL) != (perm & PTE_SYSCALL)`
abbrev pub lacks : (pte perm : ℕ) → Bool
lacks pte perm = not (bit_and (bit_and pte perm) pte_syscall == bit_and perm pte_syscall)

-- What follows page_lookup. Where no page is mapped, `pte` is a variable that was never written, and
-- the code reads `*pte` before it tests `pg`: `wild` is the word that it finds there, `none` if that
-- read faults in the kernel.
unfoldable pub send_found : (wild : Option ℕ) (cur e value perm : ℕ) → Option (ℕ × (ℕ × ℕ)) → K Ret
send_found none cur e value perm none = λ _. crash
send_found (some w) cur e value perm none = pure (err inval)
send_found wild cur e value perm (some (pg, pte)) = do
  entry ← lift (load pte)
  if lacks entry perm then pure (err inval) else send_page cur e value pg entry perm

-- srcva < UTOP: a page is sent.
unfoldable pub send_from : (wild : Option ℕ) (cur e value srcva perm : ℕ) → K Ret
send_from wild cur e value srcva perm = do
  k ← get
  found ← lift (page_lookup (k.envs cur).pgdir srcva)
  if not (srcva == round_down srcva pgsize)
      then pure (err inval)
      else send_found wild cur e value perm found

unfoldable pub sys_ipc_try_send : (wild : Option ℕ) (cur envid value srcva perm : ℕ) → K Ret
sys_ipc_try_send wild cur envid value srcva perm = do
  k ← get
  with_env (envid2env cur envid false k) λ e.
      if not (k.envs e).ipc.recving
      then pure (err ipc_not_recv)
      else if ltb srcva utop
      then send_from wild cur e value srcva perm
      else deliver cur e value

-- The caller, blocked until a message comes.
abbrev pub waiting : (dstva : ℕ) → Env → Env
waiting dstva env = record env {
  ipc = record { recving = true; dstva = dstva; value = 0; from = 0; perm = 0 };
  status = EnvStatus.not_runnable;
}

unfoldable pub sys_ipc_recv : (cur dstva : ℕ) → K Ret
sys_ipc_recv cur dstva =
    if ltb dstva utop && not (pgoff dstva == 0)
    then pure (err inval)
    else (do k ← get; set_env cur (waiting dstva (k.envs cur)); sched_yield)
