-- ===== src/Text/Numbers.antt =====
-- lib/printfmt.c: printnum and sprintputch; lib/string.c: strtol.
use native.Mathlib.Nat.{mod-lt, mod-eq_of_lt, div-lt_self, div-add-mod'}
use xv6_lab.Base.{
  append_assoc, ℕ, zero, suc, ◌+◌, ◌-◌, ◌*◌, ◌/◌, ◌%◌, ◌≤◌, ◌<◌, ◌≡◌, Option, none, some, List, [],
  ◌∷◌, ◌++◌, leb, ltb, ◌&&◌, if◌then◌else◌, update, arith, Bool-cases, inl, inr, ◌∙◌, ap,
}

-- `"0123456789abcdef"[d]`
abbrev pub digit_char : ℕ → ℕ
digit_char d = if ltb d 10 then 48 + d else 87 + d

abbrev pub pads : (n padc : ℕ) → List ℕ
pads zero padc = []
pads (suc n) padc = padc ∷ pads n padc

-- The characters that printnum gives to putch, in order. A `width` below 0 acts like 0: each call takes
-- one off, and at 1 or below nothing is padded. The recursion goes on as long as num >= base, on fuel.
unfoldable pub printnum : (fuel num base width padc : ℕ) → List ℕ
printnum zero num base width padc = []
printnum (suc f) num base width padc =
    let higher = printnum f (num / base) base (width - 1) padc in
    (if leb base num then higher else pads (width - 1) padc) ++ digit_char (num % base) ∷ []

-- `struct sprintbuf`: `buf` and `ebuf` are addresses.
pub record SprintBuf : Type 0 where
  pub mem : ℕ → ℕ
  pub buf : ℕ
  pub ebuf : ℕ
  pub cnt : ℕ

unfoldable pub sprintputch : ℕ → SprintBuf → SprintBuf
sprintputch ch b =
    if ltb b.buf b.ebuf
    then record {
      mem = update b.mem b.buf (ch % 256);
      buf = b.buf + 1;
      ebuf = b.ebuf;
      cnt = b.cnt + 1;
    }
    else record { mem = b.mem; buf = b.buf; ebuf = b.ebuf; cnt = b.cnt + 1 }

-- The value of a digit character, as strtol reads it; `none` ends the number.
unfoldable pub digit_value : (c base : ℕ) → Option ℕ
digit_value c base =
    let dig =
      if leb 48 c && leb c 57
      then c - 48
      else if leb 97 c && leb c 122
      then c - 97 + 10
      else if leb 65 c && leb c 90
      then c - 65 + 10
      else base in
    if leb base dig then none else some dig

abbrev pub add_digit : (val base : ℕ) → Option ℕ → ℕ
add_digit val base none = val
add_digit val base (some d) = val * base + d

-- The digits loop of strtol on the characters that follow: the value before it is cut to 32 bits.
unfoldable pub read_digits : (base val : ℕ) → List ℕ → ℕ
read_digits base val [] = val
read_digits base val (c ∷ cs) =
    let rest = read_digits base (add_digit val base (digit_value c base)) cs in
    elim (digit_value c base) [ none ↦ val | some d ↦ rest ]

-- What printnum prints without padding
abbrev pub prints : (fuel num base : ℕ) → List ℕ
prints fuel num base = printnum fuel num base 0 0

digit_value-digit_char :
    (d base : ℕ) → d < base → base ≤ 16 → digit_value (digit_char d) base ≡ some d
unfolding digit_value
digit_value-digit_char d base h b = ground arith

pub read_digits-step :
    (base val d : ℕ) (cs : List ℕ)
    → d < base
    → base ≤ 16
    → read_digits base val (digit_char d ∷ cs) ≡ read_digits base (val * base + d) cs
unfolding read_digits
read_digits-step base val d cs h b =
    rw (read_digits, digit_value-digit_char d base h b)
      (ap (λ o. read_digits base (add_digit val base o) cs) (digit_value-digit_char d base h b))

-- What printnum prints of a number without padding in a base from 2 to 16, the digits loop of
-- strtol reads as this number, given one round of fuel more than the number.
pub read_digits-printnum :
    (f num base : ℕ) (rest : List ℕ)
    → num < f
    → 2 ≤ base
    → base ≤ 16
    → read_digits base 0 (prints f num base ++ rest) ≡ read_digits base num rest
unfolding printnum
read_digits-printnum zero num base rest h lo hi = absurd (omega arith)
read_digits-printnum (suc f) num base rest h lo hi =
    let digit : num % base < base = mod-lt num (omega arith) in
    let whole : num / base * base + num % base ≡ num = div-add-mod' num base in
    elim (Bool-cases (leb base num)) [
      | inl more ↦
          let less : num / base < f =
            omega (arith, div-lt_self {n = num} {k = base} (ground arith) lo) in
          rw (more, append_assoc (prints f (num / base) base) (digit_char (num % base) ∷ []) rest)
            (read_digits-printnum f (num / base) base (digit_char (num % base) ∷ rest) less lo hi
              ∙ read_digits-step base (num / base) (num % base) rest digit hi
              ∙ ap (λ v. read_digits base v rest) whole)
      | inr last ↦
          let small : 0 * base + num % base ≡ num =
            omega (arith, mod-eq_of_lt {n = num} {m = base} (ground arith)) in
          rw last (
            read_digits-step base 0 (num % base) rest digit hi
            ∙ ap (λ v. read_digits base v rest) small)
    ]
