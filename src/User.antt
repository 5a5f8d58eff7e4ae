-- ===== src/User.antt =====
-- lib/syscall.c, lib/pgfault.c, lib/fork.c and lib/ipc.c: what programs do by system calls.
pub mod Calls
pub mod Fork
pub mod Ipc
pub mod Sending
pub mod Running
pub mod Finishing
pub mod Copying
pub mod CopyOnWrite
pub mod Lending
pub mod Sharing
pub mod Going
pub mod Duplicating
