-- ===== src/Monitor.antt =====
-- kern/monitor.c: the command interpreter of the kernel monitor.
pub mod Command
pub mod Words
pub mod Splitting
pub mod Invoking
