-- ===== src/Lib.antt =====
-- xv6 lab 4 (JOS): the core of the kernel, with parts of its library.
--
-- The kernel keeps physical pages and page tables (kern/pmap.c), environments with an address space
-- each (kern/env.c), a round-robin scheduler (kern/sched.c) and the system calls that act on both
-- (kern/syscall.c). A program enters the kernel by a trap (kern/trap.c), which runs a system call,
-- schedules, or hands a page fault back to the program. All CPUs share this state under one spin lock
-- (kern/spinlock.c). Programs reach the system calls by lib/syscall.c, and lib/fork.c and lib/ipc.c
-- build processes and messages on them.
--
-- Base: tests, lists and bits on the native numbers. A 32-bit word is a number with its wrap-around
-- written out.
--
-- Machine: the state. Machine/Mmu has the macros of inc/mmu.h, inc/memlayout.h and inc/types.h.
-- Machine/Phys has physical memory, the array `pages` and the helpers of kern/pmap.h: a page is its
-- number, `struct PageInfo *` the index, `pte_t *` a page with an index, NULL `none`. Kernel virtual
-- addresses of physical memory do not appear, as the kernel maps it at one offset. `panic` is an
-- outcome of its own. Machine/Kernel has `struct Env`, the per-CPU fields and the ways in which
-- kernel code ends: it returns, panics, enters an environment by env_pop_tf, halts, or stays in the
-- monitor. Machine/EntryTable has kern/entrypgdir.c.
--
-- Pmap, for kern/pmap.c: Boot (i386_detect_memory, boot_alloc, page_init), Alloc (page_alloc,
-- page_free, page_decref), Table (pgdir_walk, boot_map_region, page_insert, page_lookup,
-- page_remove, tlb_invalidate, mmio_map_region, check_va2pa), UserMem (user_mem_check), Stacks
-- (mem_init_mp), MemInit (mem_init). About these:
-- FreeList sees the links as a list of pages, Init is on page_init, Space sees a page directory as a
-- map from pages to entries, the 4 MB at UVPT left out, where every directory names itself as a table, and Walk, Remove, Unmap, Insert, Map and Region are on the operations as updates
-- of that map; Held, Replacing, Written and Taken are on what the operations leave of the pages in use,
-- Isolated on a second address space beside the one that changes, with page tables of its own below UTOP
-- and the kernel's shared; Access is on user_mem_check.
--
-- Env, for kern/env.c and kern/sched.c: Lookup (envid2env), Setup (env_setup_vm), Alloc (env_init,
-- env_alloc), Load (region_alloc, load_icode, env_create), Free and Destroy (env_free, env_destroy),
-- Sched (env_run, sched_yield, sched_halt). About these: Identity on ids, Birth on env_alloc, Structure on the page
-- directory of env_setup_vm, Pick on
-- which environment runs, Fair on how soon, Exclusive on several CPUs, Blocked on environments that
-- wait, Order on env_init, Region on region_alloc. The segment descriptors of kern/env.c are in Traps/Gates.
--
-- Syscall, for kern/syscall.c: Ret (results), Proc, Page and Ipc (the handlers),
-- Dispatch (syscall). About these: Mapping, Allocating, Messages, Forking and
-- Permission.
--
-- Traps, for kern/trap.c: Fault (page_fault_handler), Handle (trap, trap_dispatch), Gates (trap_init,
-- the task state, and the descriptors of inc/mmu.h). A trap is a state, the frame that
-- kern/trapentry.S leaves on the stack, and what it brings besides. About these: Fate and Calls say in
-- which states the kernel is left, Ends is on trap, Resume on the way back to the program, Upcall on the
-- frame that a page fault puts on the exception stack.
--
-- User: Calls (lib/syscall.c, uvpd and uvpt), Fork (lib/fork.c, lib/pgfault.c), Ipc (lib/ipc.c). A
-- program acts on the kernel's state through its calls and reads its page tables from it. About these:
-- Sending on ipc_send and ipc_recv; Running on a call that returns; Finishing, Copying and CopyOnWrite on pgfault;
-- Lending, Sharing, Going and Duplicating on duppage and the loop of fork, with the address spaces of
-- parent and child side by side.
--
-- Spinlock, for kern/spinlock.c: several CPUs as a step relation, with one step for each access to
-- the word or the owner of the lock. Spinlock/Exclusion is about the reachable states.
--
-- Text, for lib/string.c and lib/printfmt.c: Strings, Blocks (memset and memmove as the repeated string
-- instructions act), Numbers (printnum, sprintputch, the digits loop of strtol), Parse (strtol), Format
-- (vprintfmt, vsnprintf), Printf (lib/printf.c). About these: Moving, Filling, Output, Bounded, Signed,
-- Chunks. Console, for kern/console.c: Input, Keys, Screen; Readline is lib/readline.c, with Editing
-- about it.
--
-- Debug, for kern/kdebug.c: Stabs (stab_binsearch), with Ends and Bounds about it, Info (debuginfo_eip),
-- with Reading about it. Monitor, for kern/monitor.c: Command (runcmd), with Words and Splitting on how
-- it splits a line and Invoking on what it runs.
--
-- Smp, for the start of the other CPUs: Table (kern/mpconfig.c), Register and Lapic (kern/lapic.c, and
-- boot_aps of kern/init.c). About these: Scanned, BootCpu and Counted on the CPUs that mp_init finds, Launched on those that
-- boot_aps starts.
--
-- Examples: concrete states, and the theorems at them.
--
-- Loops with a counter are recursions on what is left of it: user_mem_check on its pages, sched_yield
-- on the 1024 slots, env_free on the entries. boot_map_region makes one round for each page that
-- its size begins, region_alloc one for each page, load_icode one for each program header. A loop to
-- the end of a string takes fuel and is `none` without it. printnum takes one round for each digit; more
-- fuel than the number is always enough, and 64 rounds are for a number of 64 bits. vprintfmt takes one
-- round for each character of the format, and `long` rounds for each string that it prints. ipc_send
-- takes one round for each try, stab_binsearch at most two for each entry and one more. mp_init makes one
-- round for each entry of its table, the loop of fork one for each page. runcmd takes 16 rounds, as it
-- stops at 16 arguments, and one round more than the line has characters for each scan of it.
--
-- Not modelled: the check functions of kern/pmap.c, the segment registers and the flags of cr0, the
-- assembly of kern/trapentry.S, kern/mpentry.S and lib/pfentry.S, devices, i386_init and mp_main, the
-- waits for the local APIC, the commands of kern/monitor.c, the boot loader, the console of programs and
-- the programs under user, which are input and output, or tests. What the kernel's cprintf prints is
-- left out.
--
-- Parameters: the character that sys_cgetc gets, the word that sys_ipc_try_send reads through a pointer
-- that it did not set, the flag FL_IF, cr2 and `panicstr` at a trap, the addresses that the linker
-- chooses, the bytes of a program file, the bytes of the BIOS tables, the debugging tables, and the
-- registers ID and VER of the local APIC.
pub mod Base
pub mod Machine
pub mod Pmap
pub mod Env
pub mod Syscall
pub mod Text
pub mod Console
pub mod Spinlock
pub mod Traps
pub mod Debug
pub mod Monitor
pub mod Smp
pub mod User
pub mod Examples
