-- ===== src/Env.antt =====
-- kern/env.c and kern/sched.c: the life of an environment.
pub mod Lookup
pub mod Setup
pub mod Alloc
pub mod Sched
pub mod Free
pub mod Destroy
pub mod Identity
pub mod Birth
pub mod Structure
pub mod Pick
pub mod Exclusive
pub mod Blocked
pub mod Order
pub mod Load
pub mod Region
pub mod Fair
