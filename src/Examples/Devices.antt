-- ===== src/Examples/Devices.antt =====
-- The theorems on lib/string.c, lib/printfmt.c, kern/console.c, kern/entrypgdir.c and the boot of
-- kern/pmap.c at concrete inputs.
use xv6_lab.Base.{
  ◌≤◌, ◌+◌, ◌-◌, ℕ, ◌%◌, ◌<◌, ◌≡◌, refl, true, none, some, List, [], ◌∷◌, ◌++◌, arith, ◌≢◌, bit_and,
}
use xv6_lab.Machine.Phys.{Phys, ok}
use xv6_lab.Machine.Mmu.{pdx, present, ulim}
use xv6_lab.Pmap.Space.{translation}
use xv6_lab.Machine.EntryTable.{translate, entry_pgdir-translate}
use xv6_lab.Machine.Mmu.{kstksize, kstkgap, mmiolim}
use xv6_lab.Pmap.Stacks.{kstacktop_of, kstacktop_of-apart}
use xv6_lab.Pmap.Boot.{page_init}
use xv6_lab.Pmap.Init.{Ready, page_init-Ready}
use xv6_lab.Pmap.UserMem.{user_mem_check, user_mem_rounds}
use xv6_lab.Pmap.Table.{pgdir_walk}
use xv6_lab.Pmap.Access.{Names, user_mem_check-allowed, user_mem_check-wraps}
use xv6_lab.Console.Readline.{Input, char, readline}
use xv6_lab.Console.Editing.{Agrees, typed, readline-Agrees}
use xv6_lab.Text.Strings.{Bytes}
use xv6_lab.Text.Blocks.{memmove, memset}
use xv6_lab.Text.Moving.{moved, memmove-moved}
use xv6_lab.Text.Filling.{set_to, memset-set_to}
use xv6_lab.Text.Numbers.{prints, read_digits, read_digits-printnum}
use xv6_lab.Console.Input.{Cons, Holds, Taken, cons_getc, cons_getc-Taken}
use xv6_lab.Console.Screen.{Screen, cga_putc, cga_putc-Kept}
use xv6_lab.Examples.World.{memory}

abbrev bytes : Bytes
bytes a = a % 256

memmove-moved_example : memmove bytes 102 100 8 104 ≡ moved bytes 102 100 8 104
memmove-moved_example = memmove-moved bytes 102 100 8 104 (omega arith) (omega arith)

bytes_set : memset bytes 100 7 8 104 ≡ set_to bytes 100 7 8 104
bytes_set = memset-set_to bytes 100 7 8 104

digits_read_again :
    read_digits 16 0 (prints 4000 3999 16 ++ 32 ∷ []) ≡ read_digits 16 3999 (32 ∷ [])
digits_read_again =
    read_digits-printnum 4000 3999 16 (32 ∷ []) (omega arith) (omega arith) (omega arith)

abbrev empty : Cons
empty = record { buf = λ _. 0; rpos = 511; wpos = 511 }

empty-Holds : Holds empty []
empty-Holds = record { front = omega arith; back = omega arith; fits = omega arith; held = tt }

cons_getc-Taken_example : Taken (97 ∷ 98 ∷ []) (cons_getc (97 ∷ 0 ∷ []) (98 ∷ []) empty)
cons_getc-Taken_example = cons_getc-Taken (97 ∷ 0 ∷ []) (98 ∷ []) empty [] empty-Holds (omega arith)

abbrev last_cell : Screen
last_cell = record { buf = λ _. 0; pos = 1999 }

last_cell_typed : ((cga_putc 65 last_cell).pos < 2000) × ((cga_putc 65 last_cell).buf 2000 ≡ 0)
last_cell_typed = cga_putc-Kept 2000 (omega arith) 65 last_cell (omega arith)

a_kernel_address : translate 0x11_8000 0xF010_0020 ≡ some 0x10_0020
a_kernel_address = entry_pgdir-translate 0x11_8000 0xF010_0020 refl (omega arith)

abbrev blank_memory : Phys
blank_memory = record memory { free_list = none }

page_init-Ready_example : (xs : List ℕ) × Ready 260 8 (page_init 260 blank_memory) xs
page_init-Ready_example = page_init-Ready 260 blank_memory refl

check_passes : user_mem_check 1 0x5010 0x20 5 memory ≡ ok none memory
unfolding user_mem_check user_mem_rounds pgdir_walk
check_passes = refl

memory-Names : Names memory 1
memory-Names d b p = ground arith

entry_kinds : (a : ℕ) → translation memory.mem 1 a ≢ 0 → present (translation memory.mem 1 a) ≡ true
entry_kinds a h = ground arith

user_mem_check-allowed_example :
    (0x5018 < ulim)
    × (present (memory.mem 1 (pdx 0x5018)) ≡ true)
    × (present (translation memory.mem 1 0x5018) ≡ true)
    × (bit_and (translation memory.mem 1 0x5018) 5 ≡ 5)
user_mem_check-allowed_example =
    user_mem_check-allowed memory 1 0x5010 0x20 5 memory-Names (omega arith) entry_kinds
      (omega arith) check_passes 0x5018 (omega arith) (omega arith)

wrapping_range_passes : user_mem_check 1 0xFFFF_0000 0x2_0000 5 memory ≡ ok none memory
wrapping_range_passes =
    user_mem_check-wraps memory 1 0xFFFF_0000 0x2_0000 5 (omega arith) (omega arith) (omega arith)

stacks_of_two :
    (kstacktop_of 7 + kstkgap ≤ kstacktop_of 2 - kstksize)
    × (mmiolim + kstkgap ≤ kstacktop_of 7 - kstksize)
stacks_of_two = kstacktop_of-apart 2 7 (omega arith) (omega arith)

-- a, backspace, b, end of line
abbrev keys : List Input
keys = char 97 ∷ char 8 ∷ char 98 ∷ char 10 ∷ []

readline-Agrees_example : Agrees (λ _. 0) (typed (98 ∷ [])) (readline true keys (λ _. 0))
readline-Agrees_example = readline-Agrees true keys (λ _. 0)
