-- ===== src/Smp.antt =====
-- kern/mpconfig.c, kern/lapic.c and boot_aps of kern/init.c: the CPUs of the machine.
pub mod Table
pub mod Register
pub mod Lapic
pub mod Launched
pub mod BootCpu
pub mod Scanned
pub mod Counted
