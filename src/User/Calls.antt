-- ===== src/User/Calls.antt =====
-- lib/syscall.c, and the memory that a user program sees.
--
-- A program runs as environment `e`, which is current while it runs. Between two of its system calls the
-- kernel's state stands still; where a call does not come back at once, the run here ends.
use xv6_lab.Base.{ℕ, ◌*◌, ◌^◌, Bool, true, false, Option, ◌==◌, ◌&&◌, if◌then◌else◌, update}
use xv6_lab.Machine.Mmu.{u32, pdx, present, writable, user}
use xv6_lab.Machine.Kernel.{Kernel, Outcome, done, crash, enter, halt, debug}
use xv6_lab.Pmap.Space.{table, translation}
use xv6_lab.Syscall.Ret.{Ret, val, err}
use xv6_lab.Syscall.Dispatch.{syscall}

-- A piece of user code comes to its end, panics, or stops: in the kernel, or at a page fault of its own.
pub data Way (A : Type 0) : Type 0 where
  came : A → Kernel → Way A
  panics : Kernel → Way A
  stops : Way A

abbrev pub U : Type 0 → Type 0
U A = Kernel → Way A

abbrev pub pure : {A : Type 0} → A → U A
pure = came

module _ {A B : Type 0} where
  abbrev pub and_then : Way A → (A → U B) → Way B
  and_then (came a k) f = f a k
  and_then (panics k) f = panics k
  and_then stops f = stops

  infixl 5 ◌>>=◌ ◌>>◌
  abbrev pub ◌>>=◌ : U A → (A → U B) → U B
  m >>= f = λ k. and_then (m k) f

  abbrev pub ◌>>◌ : U A → U B → U B
  m >> n = m >>= λ _. n

abbrev pub get : U Kernel
get k = came k k

abbrev pub panic : {A : Type 0} → U A
panic = panics

-- The kernel's answer, seen by the program
abbrev pub answer : Outcome Ret → Way Ret
answer (done r k) = came r k
answer crash = stops
answer (enter e k) = stops
answer (halt k) = stops
answer (debug k) = stops

-- `check && ret > 0`
abbrev pub checked : Ret → U Ret
checked (val n) k = if n == 0 then came (val n) k else panics k
checked (err x) k = came (err x) k

-- What the calls get from outside the model: see `syscall` in Syscall/Dispatch.
pub record Outside : Type 0 where
  pub wild : Option ℕ
  pub char : ℕ

-- `call` is the function syscall of lib/syscall.c; a stub `call_x` is sys_x.
module _ (o : Outside) (e : ℕ) where
  unfoldable pub call : (num : ℕ) → Bool → (a1 a2 a3 a4 a5 : ℕ) → U Ret
  call num check a1 a2 a3 a4 a5 = do
    r ← λ k. answer (syscall o.wild o.char e num a1 a2 a3 a4 a5 k)
    if check then checked r else pure r

  abbrev pub call_cputs : (s len : ℕ) → U Ret
  call_cputs s len = call 0 false s len 0 0 0

  abbrev pub call_cgetc : U Ret
  call_cgetc = call 1 false 0 0 0 0 0

  abbrev pub call_getenvid : U Ret
  call_getenvid = call 2 false 0 0 0 0 0

  abbrev pub call_env_destroy : (envid : ℕ) → U Ret
  call_env_destroy envid = call 3 true envid 0 0 0 0

  abbrev pub call_page_alloc : (envid va perm : ℕ) → U Ret
  call_page_alloc envid va perm = call 4 true envid va perm 0 0

  abbrev pub call_page_map : (srcenv srcva dstenv dstva perm : ℕ) → U Ret
  call_page_map srcenv srcva dstenv dstva perm = call 5 true srcenv srcva dstenv dstva perm

  abbrev pub call_page_unmap : (envid va : ℕ) → U Ret
  call_page_unmap envid va = call 6 true envid va 0 0 0

  abbrev pub call_exofork : U Ret
  call_exofork = call 7 false 0 0 0 0 0

  abbrev pub call_env_set_status : (envid status : ℕ) → U Ret
  call_env_set_status envid status = call 8 true envid status 0 0 0

  abbrev pub call_env_set_pgfault_upcall : (envid upcall : ℕ) → U Ret
  call_env_set_pgfault_upcall envid upcall = call 9 true envid upcall 0 0 0

  abbrev pub call_yield : U Ret
  call_yield = call 10 false 0 0 0 0 0

  abbrev pub call_ipc_try_send : (envid value srcva perm : ℕ) → U Ret
  call_ipc_try_send envid value srcva perm = call 11 false envid value srcva perm 0

  abbrev pub call_ipc_recv : (dstva : ℕ) → U Ret
  call_ipc_recv dstva = call 12 true dstva 0 0 0 0

  -- `uvpd[i]`: the page directory, mapped at UVPT among its own page tables
  abbrev pub uvpd_entry : (i : ℕ) → U ℕ
  uvpd_entry i k = came (k.phys.mem (k.envs e).pgdir i) k

  -- `uvpt[pn]`: a fault if there is no page table
  abbrev pub uvpt_entry : (pn : ℕ) → U ℕ
  uvpt_entry pn k =
      let va = u32 (pn * 2 ^ 12) in
      if present (k.phys.mem (k.envs e).pgdir (pdx va))
      then came (translation k.phys.mem (k.envs e).pgdir va) k
      else stops

  -- `memmove(dst, src, PGSIZE)` between the pages at two page addresses; a fault if the program may not
  -- read the one or write the other
  unfoldable pub copy_page : (dst src : ℕ) → U (Unit {0})
  copy_page dst src k =
      let from = translation k.phys.mem (k.envs e).pgdir src in
      let to = translation k.phys.mem (k.envs e).pgdir dst in
      if (present from && user from) && ((present to && user to) && writable to)
      then came tt (record k {
        phys = record (k.phys) { mem = update k.phys.mem (table to) (k.phys.mem (table from)) };
      })
      else stops

-- `(r = ...) < 0` leads to a panic.
abbrev pub must : Ret → U (Unit {0})
must (val n) = pure tt
must (err x) = panic
