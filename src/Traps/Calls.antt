-- ===== src/Traps/Calls.antt =====
-- kern/syscall.c: a system call that leaves the kernel leaves it as a trap does.
use xv6_lab.Base.{◌≡◌, refl, ℕ, Option, none, some}
use xv6_lab.Machine.Kernel.{EnvStatus, Kernel, K, pure, get, put, set_env, ◌>>=◌, ◌>>◌}
use xv6_lab.Env.Destroy.{env_free, env_destroy}
use xv6_lab.Env.Alloc.{Alloc, new, no_mem, no_free_env, env_alloc, fresh_env, next_id}
use xv6_lab.Syscall.Ret.{Ret, with_env}
use xv6_lab.Syscall.Proc.{
  user_mem_assert, sys_getenvid, sys_env_destroy, sys_yield, sys_exofork, fork_child, status_of,
  set_status, set_checked, sys_env_set_status, sys_env_set_pgfault_upcall,
}
use xv6_lab.Syscall.Page.{sys_page_alloc, sys_page_map, sys_page_unmap, map_new, map_found}
use xv6_lab.Syscall.Ipc.{sys_ipc_try_send, sys_ipc_recv, send_from, send_found, send_page, deliver}
use xv6_lab.Syscall.Dispatch.{syscall, sys_cputs}
use xv6_lab.Traps.Fate.{Leaving, Safe, leaving, and_then-Leaving, lift_run-Leaving}

pub env_free-Safe : (e : ℕ) → Safe (env_free e)
unfolding env_free
env_free-Safe e k = search leaving

pub env_destroy-Safe : (e : ℕ) → Safe (env_destroy e)
unfolding env_destroy
env_destroy-Safe e k = search (leaving, env_free-Safe)

blame-Safe :
    (e : ℕ) (o : Option ℕ)
    → Safe (elim o [
      | none ↦ pure tt
      | some a ↦ do j ← get; put (record j { user_mem_check_addr = a }); env_destroy e
    ])
blame-Safe e none k = search leaving
blame-Safe e (some a) k = search (leaving, env_destroy-Safe)

pub user_mem_assert-Safe : (e va len perm : ℕ) → Safe (user_mem_assert e va len perm)
unfolding user_mem_assert
user_mem_assert-Safe e va len perm k = search (leaving, blame-Safe)

with_env-Leaving :
    (o : Option ℕ) (f : ℕ → K Ret) (k : Kernel)
    → ((e : ℕ) → Leaving (f e k))
    → Leaving (with_env o f k)
with_env-Leaving none f k h = search leaving
with_env-Leaving (some e) f k h = h e

fork_child-Safe : (cur : ℕ) (r : Alloc) → Safe (fork_child cur r)
unfolding fork_child
fork_child-Safe cur (new e) k = search leaving
fork_child-Safe cur no_mem k = search leaving
fork_child-Safe cur no_free_env k = search leaving

set_checked-Safe : (cur envid : ℕ) (o : Option EnvStatus) → Safe (set_checked cur envid o)
unfolding set_checked set_status
set_checked-Safe cur envid none k = search leaving
set_checked-Safe cur envid (some s) k = search (leaving, with_env-Leaving)

map_new-Safe : (pgdir va perm : ℕ) (o : Option ℕ) → Safe (map_new pgdir va perm o)
unfolding map_new
map_new-Safe pgdir va perm none k = search leaving
map_new-Safe pgdir va perm (some p) k = search leaving

map_found-Safe : (dst dstva perm : ℕ) (o : Option (ℕ × (ℕ × ℕ))) → Safe (map_found dst dstva perm o)
unfolding map_found
map_found-Safe dst dstva perm none k = search leaving
map_found-Safe dst dstva perm (some (pp, pte)) k = search leaving

send_page-Safe : (cur e value pg pte perm : ℕ) → Safe (send_page cur e value pg pte perm)
unfolding send_page deliver
send_page-Safe cur e value pg pte perm k = search leaving

send_found-Safe :
    (wild : Option ℕ) (cur e value perm : ℕ) (o : Option (ℕ × (ℕ × ℕ)))
    → Safe (send_found wild cur e value perm o)
unfolding send_found
send_found-Safe none cur e value perm none k = search leaving
send_found-Safe (some w) cur e value perm none k = search leaving
send_found-Safe none cur e value perm (some (pg, pte)) k = search (leaving, send_page-Safe)
send_found-Safe (some v) cur e value perm (some (pg, pte)) k = search (leaving, send_page-Safe)

send_from-Safe :
    (wild : Option ℕ) (cur e value srcva perm : ℕ) → Safe (send_from wild cur e value srcva perm)
unfolding send_from
send_from-Safe wild cur e value srcva perm k = search (leaving, send_found-Safe)

setup-Safe :
    (parent e : ℕ) (o : Option ℕ) (k : Kernel)
    → Safe (elim o [
      | none ↦ pure no_mem
      | some p ↦ do
        set_env e (fresh_env (next_id (k.envs e).id e) parent p (k.envs e))
        j ← get
        put (record j { env_free_list = (j.envs e).link })
        pure (new e)
    ])
setup-Safe parent e none k j = search leaving
setup-Safe parent e (some p) k j = search leaving

-- What env_alloc does with the first free environment.
take-Leaving :
    (parent : ℕ) (o : Option ℕ) (k : Kernel) → k.env_free_list ≡ o → Leaving (env_alloc parent k)
unfolding env_alloc
take-Leaving parent none k h = rw h (search leaving)
take-Leaving parent (some e) k h = rw h (
    and_then-Leaving _ _ (lift_run-Leaving (record k { env_free_list = some e }) _)
      λ o j. setup-Safe parent e o k j)

env_alloc-Safe : (parent : ℕ) → Safe (env_alloc parent)
env_alloc-Safe parent k = take-Leaving parent k.env_free_list k refl

module _ (cur : ℕ) where
  sys_env_destroy-Safe : (envid : ℕ) → Safe (sys_env_destroy cur envid)
  unfolding sys_env_destroy
  sys_env_destroy-Safe envid k = search (leaving, with_env-Leaving, env_destroy-Safe)

  sys_page_alloc-Safe : (envid va perm : ℕ) → Safe (sys_page_alloc cur envid va perm)
  unfolding sys_page_alloc
  sys_page_alloc-Safe envid va perm k = search (leaving, with_env-Leaving, map_new-Safe)

  sys_page_map-Safe :
      (src srcva dst dstva perm : ℕ) → Safe (sys_page_map cur src srcva dst dstva perm)
  unfolding sys_page_map
  sys_page_map-Safe src srcva dst dstva perm k = search (leaving, with_env-Leaving, map_found-Safe)

  sys_page_unmap-Safe : (envid va : ℕ) → Safe (sys_page_unmap cur envid va)
  unfolding sys_page_unmap
  sys_page_unmap-Safe envid va k = search (leaving, with_env-Leaving)

  sys_exofork-Safe : Safe (sys_exofork cur)
  unfolding sys_exofork
  sys_exofork-Safe k = search (leaving, env_alloc-Safe, fork_child-Safe)

  sys_env_set_status-Safe : (envid status : ℕ) → Safe (sys_env_set_status cur envid status)
  unfolding sys_env_set_status
  sys_env_set_status-Safe envid status = set_checked-Safe cur envid (status_of status)

  sys_env_set_pgfault_upcall-Safe :
      (envid func : ℕ) → Safe (sys_env_set_pgfault_upcall cur envid func)
  unfolding sys_env_set_pgfault_upcall
  sys_env_set_pgfault_upcall-Safe envid func k = search (leaving, with_env-Leaving)

  sys_ipc_try_send-Safe :
      (wild : Option ℕ) (envid value srcva perm : ℕ)
      → Safe (sys_ipc_try_send wild cur envid value srcva perm)
  unfolding sys_ipc_try_send deliver
  sys_ipc_try_send-Safe wild envid value srcva perm k =
      search (leaving, with_env-Leaving, send_from-Safe)

  sys_ipc_recv-Safe : (dstva : ℕ) → Safe (sys_ipc_recv cur dstva)
  unfolding sys_ipc_recv
  sys_ipc_recv-Safe dstva k = search leaving

  sys_cputs-Safe : (s len : ℕ) → Safe (sys_cputs cur s len)
  unfolding sys_cputs
  sys_cputs-Safe s len = user_mem_assert-Safe cur s len 0

ruleset calls = (
  sys_env_destroy-Safe, sys_page_alloc-Safe, sys_page_map-Safe, sys_page_unmap-Safe,
  sys_exofork-Safe, sys_env_set_status-Safe, sys_env_set_pgfault_upcall-Safe, sys_ipc_try_send-Safe,
  sys_ipc_recv-Safe, sys_cputs-Safe,
)

pub syscall-Safe :
    (wild : Option ℕ) (char cur n a1 a2 a3 a4 a5 : ℕ)
    → Safe (syscall wild char cur n a1 a2 a3 a4 a5)
unfolding syscall sys_getenvid sys_yield
syscall-Safe wild char cur n a1 a2 a3 a4 a5 k = search (leaving, calls) depth 20
