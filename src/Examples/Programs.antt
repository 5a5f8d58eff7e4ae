-- ===== src/Examples/Programs.antt =====
-- The theorems on user programs at a concrete kernel.
use xv6_lab.Base.{ℕ, zero, suc, ◌≤◌, ◌<◌, ◌≡◌, ◌==◌, refl, false, none, arith, if◌then◌else◌}
use xv6_lab.Machine.Kernel.{Kernel}
use xv6_lab.Env.Lookup.{envid2env}
use xv6_lab.Syscall.Ret.{val}
use xv6_lab.Syscall.Messages.{delivered}
use xv6_lab.User.Calls.{Outside, came}
use xv6_lab.User.Ipc.{received_message, ipc_send}
use xv6_lab.User.Sending.{Named, ipc_send-delivers}
use xv6_lab.Examples.World.{kernel, slots, an_env}
use xv6_lab.Machine.Kernel.{EnvStatus}

abbrev outside : Outside
outside = record { wild = none; char = 0 }

-- Slot 1 is about to ask for a message, and does so before the second try.
abbrev busy_kernel : Kernel
busy_kernel = record kernel {
  envs = λ e. if e == 1 then an_env 4097 EnvStatus.runnable false none else slots e;
}

abbrev world : ℕ → Kernel
world zero = busy_kernel
world (suc i) = kernel

named : (j : ℕ) → j ≤ 1 → Named 0 4097 1 (world j)
unfolding envid2env
named zero h = refl
named (suc j) h = refl

busy_before : (j : ℕ) → j < 1 → ((world j).envs 1).ipc.recving ≡ false
busy_before zero h = refl
busy_before (suc j) h = absurd (omega arith)

ipc_send-delivers_example :
    (ipc_send 2 outside 0 world 4097 42 0 0 ≡ came tt (delivered 0 1 42 kernel))
    × (received_message 1 (val 0) (delivered 0 1 42 kernel)
        ≡ came (record { value = val 42; from = 4096; perm = 0 }) (delivered 0 1 42 kernel))
ipc_send-delivers_example =
    ipc_send-delivers outside 0 4097 42 0 1 (λ e. cc) world 1 named busy_before refl
