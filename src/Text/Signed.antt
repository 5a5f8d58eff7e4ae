-- ===== src/Text/Signed.antt =====
-- lib/printfmt.c, lib/string.c: strtol reads what `%d` prints.
use native.Mathlib.Nat.{mod-eq_of_lt, pow-suc}
use xv6_lab.Base.{
  append_assoc, append_nil, ℕ, zero, suc, ◌+◌, ◌-◌, ◌*◌, ◌/◌, ◌%◌, ◌^◌, ◌≤◌, ◌<◌, ◌≡◌, refl, true,
  false, some, List, [], ◌∷◌, ◌++◌, leb, ◌==◌, ◌||◌, if◌then◌else◌, sym, arith, Bool-cases, inl,
  inr, ◌∙◌, ap,
}
use xv6_lab.Text.Numbers.{digit_char, digit_value, read_digits, read_digits-step, printnum, prints}
use xv6_lab.Machine.Mmu.{u32}
use xv6_lab.Text.Strings.{Bytes}
use xv6_lab.Text.Format.{codes, shows, vprintfmt, escape, reswitch, convert, getint}
use xv6_lab.Text.Parse.{after_digits, strtol}

-- A number below 10 ^ (f + 1) has at most f + 1 digits.
lower : (f num : ℕ) → num < 10 ^ suc f → num / 10 < 10 ^ f
lower f num h = omega (arith, pow-suc 10 f)

digit_ten : (d : ℕ) → d < 10 → digit_value (digit_char d) 10 ≡ some d
unfolding digit_value
digit_ten d h = ground arith

pass : (d : ℕ) (cs : List ℕ) → d < 10 → after_digits 10 (digit_char d ∷ cs) ≡ after_digits 10 cs
unfolding after_digits
pass d cs h = rw (after_digits, digit_ten d h) refl

-- A text of digits before `rest` is read as `num`, and passed over.
abbrev pub Reads : List ℕ → (num : ℕ) → List ℕ → Type 0
Reads text num rest =
    (read_digits 10 0 (text ++ rest) ≡ read_digits 10 num rest)
    × (after_digits 10 (text ++ rest) ≡ after_digits 10 rest)

-- The last digit, after those that the number without it has
Reads-digit :
    (text : List ℕ) (num : ℕ) (rest : List ℕ)
    → Reads text (num / 10) (digit_char (num % 10) ∷ rest)
    → Reads (text ++ digit_char (num % 10) ∷ []) num rest
Reads-digit text num rest (value, left) = rw (append_assoc text (digit_char (num % 10) ∷ []) rest) (
  value
      ∙ (read_digits-step 10 (num / 10) (num % 10) rest (omega arith) (omega arith)
          ∙ ap (λ v. read_digits 10 v rest) {x = num / 10 * 10 + num % 10} {y = num} (omega arith)),
  left ∙ pass (num % 10) rest (omega arith),
)

Reads-one : (num : ℕ) (rest : List ℕ) → num < 10 → Reads (digit_char (num % 10) ∷ []) num rest
Reads-one num rest h = (
  read_digits-step 10 0 (num % 10) rest (omega arith) (omega arith)
      ∙ ap (λ v. read_digits 10 v rest) {x = 0 * 10 + num % 10} {y = num} (omega arith),
  pass (num % 10) rest (omega arith),
)

-- The digits that printnum prints are read back.
pub Reads-prints :
    (f num : ℕ) (rest : List ℕ) → num < 10 ^ suc f → Reads (prints (suc f) num 10) num rest
unfolding printnum
Reads-prints zero num rest h =
    let last : leb 10 num ≡ false = ground arith in rw last (Reads-one num rest (ground arith))
Reads-prints (suc f) num rest h = elim (Bool-cases (leb 10 num)) [
  | inl more ↦ rw more (
      Reads-digit (prints (suc f) (num / 10) 10) num rest
        (Reads-prints f (num / 10) (digit_char (num % 10) ∷ rest) (lower (suc f) num h)))
  | inr last ↦ rw last (Reads-one num rest (ground arith))
]

-- The text starts with a digit.
abbrev Starts : List ℕ → Type 0
Starts [] = ⊥
Starts (c ∷ cs) = (48 ≤ c) × (c ≤ 57)

Starts-append : (a b : List ℕ) → Starts a → Starts (a ++ b)
Starts-append [] b h = elim h [ ]
Starts-append (c ∷ a) b h = h

Starts-prints : (f num : ℕ) → num < 10 ^ suc f → Starts (prints (suc f) num 10)
unfolding printnum
Starts-prints zero num h = let last : leb 10 num ≡ false = ground arith in rw last (ground arith)
Starts-prints (suc f) num h = elim (Bool-cases (leb 10 num)) [
  | inl more ↦ rw more (
      Starts-append (prints (suc f) (num / 10) 10) _
        (Starts-prints f (num / 10) (lower (suc f) num h)))
  | inr last ↦ rw last (ground arith)
]

-- strtol in base 10 on a text that starts with a digit, and on one with a `-` before it
strtol-digits :
    (text : List ℕ)
    → Starts text
    → (strtol text 10 ≡ (u32 (read_digits 10 0 text), after_digits 10 text))
      × (strtol (b'-' ∷ text) 10
          ≡ (u32 (2 ^ 32 - u32 (read_digits 10 0 text)), after_digits 10 text))
unfolding strtol
strtol-digits [] h = elim h [ ]
strtol-digits (c ∷ cs) h =
    let no_space : (c == 32 || c == 9) ≡ false = ground arith in
    let no_plus : (c == b'+') ≡ false = ground arith in
    let no_minus : (c == b'-') ≡ false = ground arith in
    (rw (no_space, no_plus, no_minus) refl, refl)

-- What `%d` prints of an int, without a width
abbrev pub shown_int : ℕ → List ℕ
shown_int w = if leb (2 ^ 31) w then b'-' ∷ prints 64 (2 ^ 32 - w) 10 else prints 64 w 10

printed :
    (n : ℕ)
    → n < 2 ^ 32
    → (u32 (read_digits 10 0 (prints 64 n 10)) ≡ n) × (after_digits 10 (prints 64 n 10) ≡ [])
unfolding read_digits after_digits
printed n h =
    let (value, left) = Reads-prints 63 n [] (omega arith) in
    let end = append_nil (prints 64 n 10) in
    (
      ap u32 (ap (read_digits 10 0) (sym end) ∙ value) ∙ mod-eq_of_lt h,
      ap (after_digits 10) (sym end) ∙ left,
    )

-- Without a width the padding character does not matter.
printnum-prints : (f num base padc : ℕ) → printnum f num base 0 padc ≡ prints f num base
unfolding printnum
printnum-prints zero num base padc = refl
printnum-prints (suc f) num base padc = rw (printnum-prints f (num / base) base padc) refl

prints_int :
    (long : ℕ) (m : Bytes) (null_text : ℕ) (args : ℕ → ℕ) (p : ℕ)
    → vprintfmt 3 long m null_text args (codes "%d") p ≡ shows (shown_int (u32 (args p))) (p + 1)
unfolding vprintfmt escape reswitch convert getint
prints_int long m null_text args p = elim (Bool-cases (leb (2 ^ 31) (u32 (args p)))) [
  | inl neg ↦
      let big : leb (2 ^ 63) (u32 (args p) + 2 ^ 64 - 2 ^ 32) ≡ true = ground arith in
      let same : 2 ^ 64 - (u32 (args p) + 2 ^ 64 - 2 ^ 32) ≡ 2 ^ 32 - u32 (args p) = omega arith in
      rw (neg, big, same, printnum-prints 64 (2 ^ 32 - u32 (args p)) 10 32)
        (ap (λ t. shows t (p + 1)) (append_nil (b'-' ∷ prints 64 (2 ^ 32 - u32 (args p)) 10)))
  | inr pos ↦
      let small : leb (2 ^ 63) (u32 (args p)) ≡ false = ground arith in
      rw (pos, small, printnum-prints 64 (u32 (args p)) 10 32)
        (ap (λ t. shows t (p + 1)) (append_nil (prints 64 (u32 (args p)) 10)))
]

-- For every int, vprintfmt prints it by %d as its decimal digits after a minus sign if it is
-- negative, and strtol in base 10 reads this text as the int, to its end.
pub strtol-vprintfmt :
    (long : ℕ) (m : Bytes) (null_text : ℕ) (args : ℕ → ℕ) (p : ℕ)
    → (vprintfmt 3 long m null_text args (codes "%d") p ≡ shows (shown_int (u32 (args p))) (p + 1))
      × (strtol (shown_int (u32 (args p))) 10 ≡ (u32 (args p), []))
strtol-vprintfmt long m null_text args p =
    (prints_int long m null_text args p, read_int (u32 (args p)) (omega arith))
  where
    read_int : (w : ℕ) → w < 2 ^ 32 → strtol (shown_int w) 10 ≡ (w, [])
    read_int w h = elim (Bool-cases (leb (2 ^ 31) w)) [
      | inl neg ↦
          let (value, left) = printed (2 ^ 32 - w) (ground arith) in
          rw neg (
            (strtol-digits (prints 64 (2 ^ 32 - w) 10)
              (Starts-prints 63 (2 ^ 32 - w) (omega arith))).1
            ∙ rw (value, left) (ap (λ t. (t, [])) (ground arith)))
      | inr pos ↦
          let (value, left) = printed w h in
          rw pos (
            (strtol-digits (prints 64 w 10) (Starts-prints 63 w (omega arith))).0
            ∙ rw (value, left) refl)
    ]
