-- ===== src/Text/Printf.antt =====
-- lib/printf.c: cprintf of programs, by a buffer of 256 characters.
use xv6_lab.Base.{
  ℕ, zero, suc, ◌+◌, ◌-◌, ◌%◌, Option, none, some, List, [], ◌∷◌, ◌++◌, ◌==◌, update, if◌then◌else◌,
  ap,
}
use xv6_lab.Text.Strings.{Bytes}
use xv6_lab.Text.Format.{Shown, shows, wild, starved, vprintfmt}

-- `struct printbuf`, and what sys_cputs got so far, call by call
pub record PrintBuf : Type 0 where
  pub idx : ℕ
  pub cnt : ℕ
  pub buf : ℕ → ℕ
  pub printed : List (List ℕ)

-- The `n` characters from `i` on
abbrev pub chars : (buf : ℕ → ℕ) (i n : ℕ) → List ℕ
chars buf i zero = []
chars buf i (suc n) = buf i ∷ chars buf (i + 1) n

-- sys_cputs(b.buf, b.idx)
abbrev pub cputs_buf : PrintBuf → List (List ℕ)
cputs_buf b = b.printed ++ (chars b.buf 0 b.idx ∷ [])

unfoldable pub putch : (ch : ℕ) → PrintBuf → PrintBuf
putch ch b =
    let stored = record b { buf = update b.buf b.idx (ch % 256); idx = b.idx + 1 } in
    let flushed =
      if stored.idx == 256 - 1
      then record stored { printed = cputs_buf stored; idx = 0 }
      else stored in
    record flushed { cnt = b.cnt + 1 }

unfoldable pub putch_all : List ℕ → PrintBuf → PrintBuf
putch_all [] b = b
putch_all (c ∷ cs) b = putch_all cs (putch c b)

-- The number of characters, and the calls of sys_cputs; `none` where vprintfmt does not come to its end
abbrev pub printed_as : (buf : ℕ → ℕ) → Shown → Option (ℕ × List (List ℕ))
printed_as buf (shows cs ap) =
    let b = putch_all cs (record { idx = 0; cnt = 0; buf = buf; printed = [] }) in
    some (b.cnt, cputs_buf b)
printed_as buf wild = none
printed_as buf starved = none

-- `buf` is what the buffer on the stack holds before.
unfoldable pub vcprintf :
    (fuel long : ℕ)
    → Bytes
    → (null_text : ℕ) → (args : ℕ → ℕ) → (buf : ℕ → ℕ) → (fmt : List ℕ) → (ap : ℕ)
    → Option (ℕ × List (List ℕ))
vcprintf fuel long m null_text args buf fmt ap =
    printed_as buf (vprintfmt fuel long m null_text args fmt ap)
