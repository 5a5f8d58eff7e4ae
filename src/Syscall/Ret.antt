-- ===== src/Syscall/Ret.antt =====
-- inc/error.h, and what a system call returns.
use xv6_lab.Base.{ℕ, Option, none, some}
use xv6_lab.Machine.Kernel.{K, pure}

pub data Error : Type 0 where
  unspecified bad_env inval no_mem no_free_env fault ipc_not_recv eof : Error

-- `E_UNSPECIFIED` is 1, and so on.
abbrev pub code : Error → ℕ
code unspecified = 1
code bad_env = 2
code inval = 3
code no_mem = 4
code no_free_env = 5
code fault = 6
code ipc_not_recv = 7
code eof = 8

-- A result that is not negative, or the negative of an error code
pub data Ret : Type 0 where
  val : ℕ → Ret
  err : Error → Ret

-- `if (envid2env(...) < 0) return -E_BAD_ENV;` and what follows it
abbrev pub with_env : Option ℕ → (ℕ → K Ret) → K Ret
with_env none f = pure (err bad_env)
with_env (some e) f = f e
