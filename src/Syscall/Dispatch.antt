-- ===== src/Syscall/Dispatch.antt =====
-- kern/syscall.c: sys_cputs and the dispatcher.
use xv6_lab.Base.{ℕ, Option, ◌==◌, if◌then◌else◌}
use xv6_lab.Machine.Kernel.{K, pure, ◌>>◌}
use xv6_lab.Syscall.Ret.{Ret, val, err, inval}
use xv6_lab.Syscall.Proc.{
  user_mem_assert, sys_getenvid, sys_env_destroy, sys_yield, sys_exofork, sys_env_set_status,
  sys_env_set_pgfault_upcall,
}
use xv6_lab.Syscall.Page.{sys_page_alloc, sys_page_map, sys_page_unmap}
use xv6_lab.Syscall.Ipc.{sys_ipc_try_send, sys_ipc_recv}

-- What is printed is left out.
unfoldable pub sys_cputs : (cur s len : ℕ) → K (Unit {0})
sys_cputs cur s len = user_mem_assert cur s len 0

-- `char` is what sys_cgetc gets from the console, and `wild` as in sys_ipc_try_send. The numbers
-- are those of inc/syscall.h, in its order.
unfoldable pub syscall : (wild : Option ℕ) (char cur syscallno a1 a2 a3 a4 a5 : ℕ) → K Ret
syscall wild char cur syscallno a1 a2 a3 a4 a5 =
    if syscallno == 0
    then sys_cputs cur a1 a2 >> pure (val 0)
    else if syscallno == 1
    then pure (val char)
    else if syscallno == 2
    then sys_getenvid cur
    else if syscallno == 3
    then sys_env_destroy cur a1
    else if syscallno == 4
    then sys_page_alloc cur a1 a2 a3
    else if syscallno == 5
    then sys_page_map cur a1 a2 a3 a4 a5
    else if syscallno == 6
    then sys_page_unmap cur a1 a2
    else if syscallno == 7
    then sys_exofork cur
    else if syscallno == 8
    then sys_env_set_status cur a1 a2
    else if syscallno == 9
    then sys_env_set_pgfault_upcall cur a1 a2
    else if syscallno == 10
    then sys_yield
    else if syscallno == 11
    then sys_ipc_try_send wild cur a1 a2 a3 a4
    else if syscallno == 12
    then sys_ipc_recv cur a1
    else pure (err inval)
