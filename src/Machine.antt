-- ===== src/Machine.antt =====
-- What every part of the kernel stands on: the paging macros (Machine/Mmu), physical memory and the
-- page array (Machine/Phys), environments and the kernel's global state (Machine/Kernel).
pub mod Mmu
pub mod Phys
pub mod Kernel
pub mod EntryTable
