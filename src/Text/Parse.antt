-- ===== src/Text/Parse.antt =====
-- lib/string.c: strtol.
--
-- The string is the list of its characters before the NUL.
use xv6_lab.Base.{
  ℕ, zero, suc, ◌-◌, ◌^◌, Bool, true, false, none, some, List, [], ◌∷◌, ◌==◌, ◌&&◌, ◌||◌,
  if◌then◌else◌,
}
use xv6_lab.Machine.Mmu.{u32}
use xv6_lab.Text.Numbers.{digit_value, read_digits}

abbrev pub skip_spaces : List ℕ → List ℕ
skip_spaces [] = []
skip_spaces (c ∷ cs) = if c == 32 || c == 9 then skip_spaces cs else c ∷ cs

-- The sign, whether it is `-`, with what follows
abbrev pub read_sign : List ℕ → Bool × List ℕ
read_sign [] = (false, [])
read_sign (c ∷ cs) =
    if c == b'+' then (false, cs) else if c == b'-' then (true, cs) else (false, c ∷ cs)

-- The character at `i` of the string, the NUL after its end
abbrev pub peek : List ℕ → ℕ → ℕ
peek [] i = 0
peek (c ∷ cs) zero = c
peek (c ∷ cs) (suc i) = peek cs i

abbrev pub tail : List ℕ → List ℕ
tail [] = []
tail (c ∷ cs) = cs

-- The prefix of the base: the base, and what follows
abbrev pub read_base : (base : ℕ) → List ℕ → ℕ × List ℕ
read_base base s =
    if (base == 0 || base == 16) && (peek s 0 == b'0' && peek s 1 == b'x')
    then (16, tail (tail s))
    else if base == 0 && peek s 0 == b'0'
    then (8, tail s)
    else if base == 0
    then (10, s)
    else (base, s)

-- What is left of the string after the digits: `*endptr`
unfoldable pub after_digits : (base : ℕ) → List ℕ → List ℕ
after_digits base [] = []
after_digits base (c ∷ cs) =
    let rest = after_digits base cs in elim (digit_value c base) [ none ↦ c ∷ cs | some d ↦ rest ]

abbrev pub negated : Bool → ℕ → ℕ
negated neg v = if neg then u32 (2 ^ 32 - v) else v

abbrev pub finish : (neg : Bool) → ℕ × List ℕ → ℕ × List ℕ
finish neg (base, s) = (negated neg (u32 (read_digits base 0 s)), after_digits base s)

abbrev pub signed_from : (base : ℕ) → Bool × List ℕ → ℕ × List ℕ
signed_from base (neg, s) = finish neg (read_base base s)

-- The result, a 32-bit pattern, and what `*endptr` gets. The sum wraps as it grows, so it is cut to 32
-- bits at the end.
unfoldable pub strtol : List ℕ → (base : ℕ) → ℕ × List ℕ
strtol s base = signed_from base (read_sign (skip_spaces s))
