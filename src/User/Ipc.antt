-- ===== src/User/Ipc.antt =====
-- lib/ipc.c: messages between programs.
use xv6_lab.Base.{ℕ, zero, suc, ◌+◌, ◌==◌, if◌then◌else◌}
use xv6_lab.Machine.Kernel.{Env, Kernel, nenv}
use xv6_lab.Syscall.Ret.{Ret, val, err, ipc_not_recv}
use xv6_lab.User.Calls.{
  Outside, U, Way, came, panics, stops, ◌>>=◌, call_ipc_try_send, call_ipc_recv,
}

-- `(void *) -1` for NULL
abbrev pub page_or_none : ℕ → ℕ
page_or_none pg = if pg == 0 then 0xffff_ffff else pg

-- What ipc_recv gives: its result, and what it stores for the sender and the permissions
pub record Message : Type 0 where
  pub value : Ret
  pub from : ℕ
  pub perm : ℕ

-- The end of ipc_recv, run when the call has come back: `this` is the environment of `thisenv`.
unfoldable pub received_message : (this : ℕ) → Ret → U Message
received_message this (err x) k = came (record { value = err x; from = 0; perm = 0 }) k
received_message this (val n) k =
    came
      (record {
        value = val (k.envs this).ipc.value;
        from = (k.envs this).ipc.from;
        perm = (k.envs this).ipc.perm;
      })
      k

-- The call itself; it comes back later, in another state, unless it fails.
unfoldable pub ipc_recv : Outside → (e pg : ℕ) → U Message
ipc_recv o e pg = do r ← call_ipc_recv o e (page_or_none pg); received_message e r

-- `world i` is the kernel's state when the program runs for the `i`-th time, after the `i`-th call of
-- sys_yield. `stops` is the end of the fuel, too.
abbrev pub sent : (again : Way (Unit {0})) → Way Ret → Way (Unit {0})
sent again (came (val zero) k) = came tt k
sent again (came (err ipc_not_recv) k) = again
sent again (came r k) = panics k
sent again (panics k) = panics k
sent again stops = stops

unfoldable pub ipc_send :
    (fuel : ℕ)
    → Outside
    → (e : ℕ) → (world : ℕ → Kernel) → (to_env value pg perm : ℕ) → Way (Unit {0})
ipc_send zero o e world to_env value pg perm = stops
ipc_send (suc f) o e world to_env value pg perm =
    sent (ipc_send f o e (λ i. world (suc i)) to_env value pg perm)
      (call_ipc_try_send o e to_env value (page_or_none pg) perm (world 0))

-- The loop of ipc_find_env over the `n` environments from `i` on
unfoldable pub find_env : (n i type : ℕ) → (ℕ → Env) → ℕ
find_env zero i type envs = 0
find_env (suc n) i type envs =
    let rest = find_env n (i + 1) type envs in if (envs i).type == type then (envs i).id else rest

unfoldable pub ipc_find_env : (type : ℕ) → Kernel → ℕ
ipc_find_env type k = find_env nenv 0 type k.envs
