-- ===== src/User/Sending.antt =====
-- lib/ipc.c: ipc_send waits for the receiver, and ipc_recv gets what was sent.
use xv6_lab.Base.{==-refl, ℕ, zero, suc, ◌≤◌, ◌<◌, ◌≡◌, ◌≢◌, refl, true, false, none, some, arith}
use xv6_lab.Machine.Kernel.{Kernel}
use xv6_lab.Env.Lookup.{envid2env}
use xv6_lab.Syscall.Ret.{Ret, val, err, ipc_not_recv}
use xv6_lab.Syscall.Ipc.{sys_ipc_try_send}
use xv6_lab.Syscall.Dispatch.{syscall}
use xv6_lab.Syscall.Messages.{delivered, sys_ipc_try_send-once}
use xv6_lab.User.Calls.{Outside, Way, came, call}
use xv6_lab.User.Ipc.{received_message, ipc_send}

-- The id names environment `e` for the sender `s`.
abbrev pub Named : (s to_env e : ℕ) → Kernel → Type 0
Named s to_env e k = envid2env s to_env false k ≡ some e

module _ (o : Outside) (s to_env value perm e : ℕ) (nonzero : to_env ≢ 0) where
  abbrev attempt : Kernel → Way Ret
  attempt k = call o s 11 false to_env value 0xffff_ffff perm 0 k

  ready :
      (k : Kernel)
      → Named s to_env e k
      → (k.envs e).ipc.recving ≡ true
      → attempt k ≡ came (val 0) (delivered s e value k)
  unfolding call syscall
  ready k named waits =
      rw
        (sys_ipc_try_send-once o.wild s to_env value 0xffff_ffff perm e k nonzero named waits
          (omega arith) none 0 0 0 0).0
        refl

  busy :
      (k : Kernel)
      → Named s to_env e k
      → (k.envs e).ipc.recving ≡ false
      → attempt k ≡ came (err ipc_not_recv) k
  unfolding call syscall sys_ipc_try_send
  busy k named waits = rw (named, waits) refl

  sends :
      (world : ℕ → Kernel) (n : ℕ)
      → ((j : ℕ) → j ≤ n → Named s to_env e (world j))
      → ((j : ℕ) → j < n → ((world j).envs e).ipc.recving ≡ false)
      → ((world n).envs e).ipc.recving ≡ true
      → ipc_send (suc n) o s world to_env value 0 perm ≡ came tt (delivered s e value (world n))
  unfolding ipc_send
  sends world zero named before waits = rw (ready (world 0) (named 0 (omega arith)) waits) refl
  sends world (suc n) named before waits =
      rw (busy (world 0) (named 0 (omega arith)) (before 0 (omega arith))) (
        sends (λ i. world (suc i)) n (λ j h. named (suc j) (omega arith))
          (λ j h. before (suc j) (omega arith)) waits)

  -- For an id that is not 0 and names the receiver in each round of the sender: ipc_send without a
  -- page tries again while the receiver does not wait, and in the first round where it waits
  -- delivers the value and returns; what follows the call in the receiver's ipc_recv then gives
  -- the value and the sender's id.
  pub ipc_send-delivers :
      (world : ℕ → Kernel) (n : ℕ)
      → ((j : ℕ) → j ≤ n → Named s to_env e (world j))
      → ((j : ℕ) → j < n → ((world j).envs e).ipc.recving ≡ false)
      → ((world n).envs e).ipc.recving ≡ true
      → (ipc_send (suc n) o s world to_env value 0 perm ≡ came tt (delivered s e value (world n)))
        × (received_message e (val 0) (delivered s e value (world n))
            ≡ came
                (record {
                  value = val value;
                  from = ((world n).envs s).id;
                  perm = ((world n).envs e).ipc.perm;
                })
                (delivered s e value (world n)))
  unfolding received_message
  ipc_send-delivers world n named before waits =
      (sends world n named before waits, rw (==-refl e) refl)
