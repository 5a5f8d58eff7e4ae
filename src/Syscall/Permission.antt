-- ===== src/Syscall/Permission.antt =====
-- kern/syscall.c: which environment a caller may act on.
use xv6_lab.Base.{ℕ, ◌≡◌, ◌≢◌, true, Option, none, some, arith}
use xv6_lab.Machine.Kernel.{EnvStatus, Kernel, done, envx}
use xv6_lab.Env.Lookup.{envid2env}
use xv6_lab.Syscall.Ret.{err, bad_env}
use xv6_lab.Syscall.Page.{sys_page_alloc, sys_page_map, sys_page_unmap}
use xv6_lab.Syscall.Dispatch.{syscall}
use xv6_lab.Syscall.Proc.{
  status_of, set_checked, set_status, sys_env_set_status, sys_env_destroy,
  sys_env_set_pgfault_upcall,
}

-- A caller that is not the parent, and another environment in use under the id `envid`
pub record IsStranger (cur envid : ℕ) (k : Kernel) : Type 0 where
  pub nonzero : envid ≢ 0
  pub other : envx envid ≢ cur
  pub no_child : (k.envs (envx envid)).parent_id ≢ (k.envs cur).id

stranger-refused :
    (cur envid : ℕ) (k : Kernel) → IsStranger cur envid k → envid2env cur envid true k ≡ none
unfolding envid2env
stranger-refused cur envid k s = ground (arith, s.nonzero, s.other, s.no_child)

-- The numbers of the calls that act on the environment of their first argument: SYS_env_destroy,
-- SYS_page_alloc, SYS_page_map, SYS_page_unmap, SYS_env_set_pgfault_upcall, and SYS_env_set_status with
-- one of its two statuses
pub data ActsOn (a2 : ℕ) : ℕ → Type 0 where
  destroy : ActsOn a2 3
  alloc : ActsOn a2 4
  map_page : ActsOn a2 5
  unmap : ActsOn a2 6
  upcall : ActsOn a2 9
  set_status_of : (s : EnvStatus) → status_of a2 ≡ some s → ActsOn a2 8

-- For an id that is not 0 and names neither the caller's slot nor a child of the caller: the calls
-- that act on the environment of their first argument (SYS_env_destroy, SYS_page_alloc,
-- SYS_page_map, SYS_page_unmap, SYS_env_set_pgfault_upcall, and SYS_env_set_status with a status
-- that it accepts) return -E_BAD_ENV and change nothing.
pub syscall-stranger :
    (wild : Option ℕ) (char cur syscallno envid a2 a3 a4 a5 : ℕ) (k : Kernel)
    → ActsOn a2 syscallno
    → IsStranger cur envid k
    → syscall wild char cur syscallno envid a2 a3 a4 a5 k ≡ done (err bad_env) k
unfolding syscall sys_env_destroy sys_page_alloc sys_page_map sys_page_unmap
    sys_env_set_pgfault_upcall sys_env_set_status set_checked set_status
syscall-stranger wild char cur _ envid a2 a3 a4 a5 k destroy s = rw (stranger-refused cur envid k s)
syscall-stranger wild char cur _ envid a2 a3 a4 a5 k alloc s = rw (stranger-refused cur envid k s)
syscall-stranger wild char cur _ envid a2 a3 a4 a5 k map_page s =
    rw (stranger-refused cur envid k s)
syscall-stranger wild char cur _ envid a2 a3 a4 a5 k unmap s = rw (stranger-refused cur envid k s)
syscall-stranger wild char cur _ envid a2 a3 a4 a5 k upcall s = rw (stranger-refused cur envid k s)
syscall-stranger wild char cur _ envid a2 a3 a4 a5 k (set_status_of st q) s =
    rw (q, stranger-refused cur envid k s)
