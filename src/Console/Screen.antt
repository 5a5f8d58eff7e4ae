-- ===== src/Console/Screen.antt =====
-- kern/console.c: cga_putc, on the text buffer of the screen.
use xv6_lab.Base.{
  ℕ, ◌+◌, ◌-◌, ◌*◌, ◌/◌, ◌%◌, ◌^◌, ◌≤◌, ◌<◌, ◌≡◌, refl, ◌==◌, ltb, leb, if◌then◌else◌, update,
  arith, Bool-cases, inl, inr, ◌∙◌,
}

abbrev pub crt_cols : ℕ
crt_cols = 80

abbrev pub crt_size : ℕ
crt_size = 25 * 80

-- `pos` is a uint16_t.
pub record Screen : Type 0 where
  pub buf : ℕ → ℕ
  pub pos : ℕ

-- Black on white if `c` brings no attribute. The `|` of bits that do not overlap is a sum.
abbrev pub with_attribute : ℕ → ℕ
with_attribute c = if c / 256 == 0 then c + 0x0700 else c

abbrev pub blank : ℕ
blank = 0x0720

-- The rows move up by one when the cursor has passed the last one.
abbrev pub scroll : Screen → Screen
scroll s =
    if leb crt_size s.pos
    then record {
      buf = λ i.
          if ltb i (crt_size - crt_cols)
          then s.buf (i + crt_cols)
          else if ltb i crt_size
          then blank
          else s.buf i;
      pos = s.pos - crt_cols;
    }
    else s

-- `c` with its attribute, written at the cursor
abbrev pub write : ℕ → Screen → Screen
write c s = record { buf = update s.buf s.pos (c % 2 ^ 16); pos = (s.pos + 1) % 2 ^ 16 }

abbrev pub backspace : ℕ → Screen → Screen
backspace c s =
    if ltb 0 s.pos
    then record { buf = update s.buf (s.pos - 1) (c / 256 * 256 % 2 ^ 16 + 0x20); pos = s.pos - 1 }
    else s

abbrev pub carriage_return : Screen → Screen
carriage_return s = record { buf = s.buf; pos = s.pos - s.pos % crt_cols }

-- The switch of cga_putc for every character but a tab
abbrev pub plain : ℕ → Screen → Screen
plain c s =
    if c % 256 == 8
    then backspace c s
    else if c % 256 == 10
    then carriage_return (record { buf = s.buf; pos = (s.pos + crt_cols) % 2 ^ 16 })
    else if c % 256 == 13
    then carriage_return s
    else write c s

-- What cons_putc(' ') does to the screen
unfoldable pub put_space : Screen → Screen
put_space s = scroll (plain (with_attribute 0x20) s)

-- The screen after cga_putc. A tab calls cons_putc(' ') five times.
unfoldable pub cga_putc : ℕ → Screen → Screen
cga_putc c s =
    if c % 256 == 9
    then scroll (put_space (put_space (put_space (put_space (put_space s)))))
    else scroll (plain (with_attribute c) s)

-- What a step keeps: from a cursor on the screen it may move below the last row, or stay on the
-- screen, and cell `i` beyond the screen is as it was.
abbrev Kept : (limit i : ℕ) → Screen → Screen → Type 0
Kept limit i s t = (t.pos < limit) × (t.buf i ≡ s.buf i)

module _ (i : ℕ) (out : crt_size ≤ i) where
  plain-Kept : (c : ℕ) (s : Screen) → s.pos < crt_size → Kept (crt_size + crt_cols) i s (plain c s)
  plain-Kept c s h = (ground arith, ground arith)

  scroll-Kept : (s : Screen) → s.pos < crt_size + crt_cols → Kept crt_size i s (scroll s)
  scroll-Kept s h = (ground arith, ground arith)

  put-Kept : (c : ℕ) (s : Screen) → s.pos < crt_size → Kept crt_size i s (scroll (plain c s))
  put-Kept c s h =
      let (b, f) = plain-Kept c s h in let (b', f') = scroll-Kept (plain c s) b in (b', f' ∙ f)

  put_space-Kept : (s t : Screen) → Kept crt_size i s t → Kept crt_size i s (put_space t)
  unfolding put_space
  put_space-Kept s t (b, f) = let (b', f') = put-Kept (with_attribute 0x20) t b in (b', f' ∙ f)

  -- From a cursor on the screen, cga_putc leaves the cursor on the screen and writes no cell
  -- beyond it, for every character.
  pub cga_putc-Kept :
      (c : ℕ) (s : Screen)
      → s.pos < crt_size
      → ((cga_putc c s).pos < crt_size) × ((cga_putc c s).buf i ≡ s.buf i)
  unfolding cga_putc
  cga_putc-Kept c s h = elim (Bool-cases (c % 256 == 9)) [
    | inl t ↦
        let one = put_space-Kept s s (h, refl) in
        let two = put_space-Kept s (put_space s) one in
        let three = put_space-Kept s (put_space (put_space s)) two in
        let four = put_space-Kept s (put_space (put_space (put_space s))) three in
        let (b, f) = put_space-Kept s (put_space (put_space (put_space (put_space s)))) four in
        let (b', f') =
          scroll-Kept (put_space (put_space (put_space (put_space (put_space s)))))
            (omega (arith, b)) in
        rw t (b', f' ∙ f)
    | inr t ↦ rw t (put-Kept (with_attribute c) s h)
  ]
