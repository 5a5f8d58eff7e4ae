-- ===== src/Console.antt =====
-- kern/console.c: the input buffer, the keyboard and the text screen; lib/readline.c.
pub mod Input
pub mod Screen
pub mod Keys
pub mod Readline
pub mod Editing
