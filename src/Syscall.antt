-- ===== src/Syscall.antt =====
-- kern/syscall.c. Each handler runs on a CPU whose curenv, `cur`, is not NULL: `trap` asserts it.
pub mod Ret
pub mod Proc
pub mod Page
pub mod Ipc
pub mod Mapping
pub mod Allocating
pub mod Messages
pub mod Forking
pub mod Dispatch
pub mod Permission
