-- ===== src/Debug.antt =====
-- kern/kdebug.c: the search in the debugging table.
pub mod Stabs
pub mod Ends
pub mod Bounds
pub mod Info
pub mod Reading
