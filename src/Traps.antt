-- ===== src/Traps.antt =====
-- kern/trap.c: how the kernel is entered from user mode, and how it leaves.
pub mod Fault
pub mod Handle
pub mod Fate
pub mod Calls
pub mod Ends
pub mod Resume
pub mod Upcall
pub mod Gates
