-- ===== src/Syscall/Messages.antt =====
-- kern/syscall.c: messages between environments.
use xv6_lab.Base.{
  ==-refl, ℕ, ◌≤◌, ◌≡◌, ◌≢◌, refl, true, false, not, Option, some, List, arith, ltb, ◌==◌, ◌&&◌,
  ◌∙◌, update,
}
use xv6_lab.Machine.Mmu.{pgoff, pgsize, round_down, utop}
use xv6_lab.Machine.Phys.{Phys}
use xv6_lab.Machine.Kernel.{Kernel, Outcome, done, enter, halt, debug, crash}
use xv6_lab.Pmap.Space.{pte_at}
use xv6_lab.Pmap.Walk.{IsSpace}
use xv6_lab.Env.Lookup.{envid2env}
use xv6_lab.Env.Blocked.{Keeps, sched_yield-Keeps}
use xv6_lab.Syscall.Ret.{Ret, val, err, ipc_not_recv}
use xv6_lab.Syscall.Ipc.{received, deliver, sys_ipc_try_send, waiting, sys_ipc_recv}

-- How a receiver leaves the kernel: blocked with `dstva` noted, whatever runs next.
abbrev pub Waits : (cur dstva : ℕ) → Kernel → Outcome Ret → Type 0
Waits cur dstva k (enter e k') = (e ≢ cur) × (k'.envs cur ≡ waiting dstva (k.envs cur))
Waits cur dstva k (halt k') = k'.envs cur ≡ waiting dstva (k.envs cur)
Waits cur dstva k (debug k') = k'.envs cur ≡ waiting dstva (k.envs cur)
Waits cur dstva k _ = ⊥

Keeps-Waits :
    (cur dstva : ℕ) (k j : Kernel) (o : Outcome Ret)
    → j.envs cur ≡ waiting dstva (k.envs cur)
    → Keeps cur j o
    → Waits cur dstva k o
Keeps-Waits cur dstva k j (done a k') h f = f
Keeps-Waits cur dstva k j crash h f = f
Keeps-Waits cur dstva k j (enter e k') h (ne, f) = (ne, f ∙ h)
Keeps-Waits cur dstva k j (halt k') h f = f ∙ h
Keeps-Waits cur dstva k j (debug k') h f = f ∙ h

-- sys_ipc_recv with an address at or above UTOP, or aligned to a page, does not return: the caller
-- waits for a message, not runnable, and another environment is entered, or the CPU halts or goes
-- to the monitor.
pub sys_ipc_recv-Waits :
    (cur dstva : ℕ) (k : Kernel)
    → (ltb dstva utop && not (pgoff dstva == 0)) ≡ false
    → Waits cur dstva k (sys_ipc_recv cur dstva k)
unfolding sys_ipc_recv
sys_ipc_recv-Waits cur dstva k h =
    let j : Kernel = record k { envs = update k.envs cur (waiting dstva (k.envs cur)) } in
    let at : j.envs cur ≡ waiting dstva (k.envs cur) = rw (==-refl cur) refl in
    rw h (Keeps-Waits cur dstva k j _ at (sched_yield-Keeps Ret j cur (rw at refl) (rw at refl)))

-- The kernel once `e` has got `value` from `cur`
abbrev pub delivered : (cur e value : ℕ) → Kernel → Kernel
delivered cur e value k = record k {
  envs = update k.envs e (received (k.envs cur).id value (k.envs e));
}

named_after :
    (cur cur' envid value e : ℕ) (k : Kernel)
    → envid ≢ 0
    → envid2env cur envid false k ≡ some e
    → envid2env cur' envid false (delivered cur e value k) ≡ some e
unfolding envid2env
named_after cur cur' envid value e k nz named = ground (arith, nz, named)

-- A value without a page is delivered to an environment that waits and makes it runnable; a second
-- message to the same id then fails with -E_IPC_NOT_RECV and changes nothing.
pub sys_ipc_try_send-once :
    (wild : Option ℕ) (cur envid value srcva perm e : ℕ) (k : Kernel)
    → envid ≢ 0
    → envid2env cur envid false k ≡ some e
    → (k.envs e).ipc.recving ≡ true
    → utop ≤ srcva
    → (wild' : Option ℕ) (cur' value' srcva' perm' : ℕ)
    → (sys_ipc_try_send wild cur envid value srcva perm k ≡ done (val 0) (delivered cur e value k))
      × (sys_ipc_try_send wild' cur' envid value' srcva' perm' (delivered cur e value k)
          ≡ done (err ipc_not_recv) (delivered cur e value k))
unfolding sys_ipc_try_send deliver
sys_ipc_try_send-once wild cur envid value srcva perm e k nz named ready high wild' cur' value'
      srcva' perm' =
    let no_page : ltb srcva utop ≡ false = ground arith in
    let again : envid2env cur' envid false (delivered cur e value k) ≡ some e =
      named_after cur cur' envid value e k nz named in
    (rw (named, ready, no_page) refl, rw (again, ==-refl e) refl)

-- The kernel once the page of a message is mapped and its permissions are noted
abbrev pub shared : (e perm : ℕ) → Phys → Kernel → Kernel
shared e perm t k = record k {
  phys = t;
  envs = update k.envs e (record (k.envs e) { ipc = record ((k.envs e).ipc) { perm = perm } });
}

-- What a message with the page at `srcva` needs: the target waits, and asks for a page; `srcva` is an
-- aligned address below UTOP.
pub record IsPageMessage (cur envid srcva e : ℕ) (k : Kernel) : Type 0 where
  pub named : envid2env cur envid false k ≡ some e
  pub ready : (k.envs e).ipc.recving ≡ true
  pub asks : ltb (k.envs e).ipc.dstva utop ≡ true
  pub low : ltb srcva utop ≡ true
  pub aligned : (srcva == round_down srcva pgsize) ≡ true

module _ (wild : Option ℕ) (cur envid value srcva perm e : ℕ) (k : Kernel) {xs : List ℕ}
    (message : IsPageMessage cur envid srcva e k)
    (space : IsSpace k.phys (k.envs cur).pgdir xs) where
  abbrev sent_pte : ℕ
  sent_pte = pte_at k.phys.mem (k.envs cur).pgdir srcva
