-- ===== src/Pmap.antt =====
-- kern/pmap.c: the page allocator and the two-level page tables.
--
-- `cur` is the page directory of `curenv`, `none` while no environment runs: `tlb_invalidate` reads it.
pub mod Boot
pub mod Alloc
pub mod FreeList
pub mod Init
pub mod Table
pub mod Space
pub mod Walk
pub mod Remove
pub mod Unmap
pub mod Insert
pub mod Map
pub mod Access
pub mod UserMem
pub mod Region
pub mod Held
pub mod Replacing
pub mod Written
pub mod Taken
pub mod Isolated
pub mod Stacks
pub mod MemInit
