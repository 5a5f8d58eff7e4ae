-- ===== src/Console/Keys.antt =====
-- kern/console.c: from scan codes of the keyboard to characters.
use xv6_lab.Base.{
  ℕ, zero, suc, ◌+◌, ◌-◌, ◌/◌, ◌%◌, ◌^◌, Bool, false, Option, none, some, List, [], ◌∷◌, ◌==◌, leb,
  ◌&&◌, ◌||◌, if◌then◌else◌, bit_and, bit_or, bit_xor,
}

-- Bits of `shift`
abbrev pub shift_bit : ℕ
shift_bit = 1

abbrev pub ctl : ℕ
ctl = 2

abbrev pub alt : ℕ
alt = 4

abbrev pub capslock : ℕ
capslock = 8

abbrev pub numlock : ℕ
numlock = 16

abbrev pub scrolllock : ℕ
scrolllock = 32

abbrev pub e0esc : ℕ
e0esc = 64

abbrev pub key_del : ℕ
key_del = 0xE9

-- A table given by the values of some indexes, and 0 elsewhere.
abbrev pub entry : List (ℕ × ℕ) → ℕ → ℕ
entry [] i = 0
entry ((j, v) ∷ es) i = if i == j then v else entry es i

-- A table given by its first values, and by `rest` beyond them.
abbrev pub row : List ℕ → (ℕ → ℕ) → ℕ → ℕ
row [] rest i = rest i
row (v ∷ vs) rest zero = v
row (v ∷ vs) rest (suc i) = row vs (λ j. rest (suc j)) i

abbrev pub shiftcode : ℕ → ℕ
shiftcode = entry (
    (0x1D, ctl)
    ∷ (0x2A, shift_bit)
    ∷ (0x36, shift_bit)
    ∷ (0x38, alt)
    ∷ (0x9D, ctl)
    ∷ (0xB8, alt)
    ∷ [])

abbrev pub togglecode : ℕ → ℕ
togglecode = entry ((0x3A, capslock) ∷ (0x45, numlock) ∷ (0x46, scrolllock) ∷ [])

-- KEY_UP and so on, which all tables share
abbrev pub arrows : List (ℕ × ℕ)
arrows =
    (0xC8, 0xE2)
    ∷ (0xC9, 0xE6)
    ∷ (0xCB, 0xE4)
    ∷ (0xCD, 0xE5)
    ∷ (0xCF, 0xE1)
    ∷ (0xD0, 0xE3)
    ∷ (0xD1, 0xE7)
    ∷ (0xD2, 0xE8)
    ∷ (0xD3, 0xE9)
    ∷ []

abbrev pub keypad : List (ℕ × ℕ)
keypad = (0xC7, 0xE0) ∷ (0x9C, 10) ∷ (0xB5, 47) ∷ arrows

unfoldable pub normalmap : ℕ → ℕ
normalmap =
    row
      (0 ∷ 0x1B ∷ 49 ∷ 50 ∷ 51 ∷ 52 ∷ 53 ∷ 54 ∷ 55 ∷ 56 ∷ 57 ∷ 48 ∷ 45 ∷ 61 ∷ 8 ∷ 9 ∷ 113 ∷ 119
        ∷ 101 ∷ 114 ∷ 116 ∷ 121 ∷ 117 ∷ 105 ∷ 111 ∷ 112 ∷ 91 ∷ 93 ∷ 10 ∷ 0 ∷ 97 ∷ 115 ∷ 100 ∷ 102
        ∷ 103 ∷ 104 ∷ 106 ∷ 107 ∷ 108 ∷ 59 ∷ 39 ∷ 96 ∷ 0 ∷ 92 ∷ 122 ∷ 120 ∷ 99 ∷ 118 ∷ 98 ∷ 110
        ∷ 109 ∷ 44 ∷ 46 ∷ 47 ∷ 0 ∷ 42 ∷ 0 ∷ 32 ∷ 0 ∷ 0 ∷ 0 ∷ 0 ∷ 0 ∷ 0 ∷ 0 ∷ 0 ∷ 0 ∷ 0 ∷ 0 ∷ 0 ∷ 0
        ∷ 55 ∷ 56 ∷ 57 ∷ 45 ∷ 52 ∷ 53 ∷ 54 ∷ 43 ∷ 49 ∷ 50 ∷ 51 ∷ 48 ∷ 46 ∷ [])
      (entry keypad)

unfoldable pub shiftmap : ℕ → ℕ
shiftmap =
    row
      (0 ∷ 27 ∷ 33 ∷ 64 ∷ 35 ∷ 36 ∷ 37 ∷ 94 ∷ 38 ∷ 42 ∷ 40 ∷ 41 ∷ 95 ∷ 43 ∷ 8 ∷ 9 ∷ 81 ∷ 87 ∷ 69
        ∷ 82 ∷ 84 ∷ 89 ∷ 85 ∷ 73 ∷ 79 ∷ 80 ∷ 123 ∷ 125 ∷ 10 ∷ 0 ∷ 65 ∷ 83 ∷ 68 ∷ 70 ∷ 71 ∷ 72 ∷ 74
        ∷ 75 ∷ 76 ∷ 58 ∷ 34 ∷ 126 ∷ 0 ∷ 124 ∷ 90 ∷ 88 ∷ 67 ∷ 86 ∷ 66 ∷ 78 ∷ 77 ∷ 60 ∷ 62 ∷ 63 ∷ 0
        ∷ 42 ∷ 0 ∷ 32 ∷ 0 ∷ 0 ∷ 0 ∷ 0 ∷ 0 ∷ 0 ∷ 0 ∷ 0 ∷ 0 ∷ 0 ∷ 0 ∷ 0 ∷ 0 ∷ 55 ∷ 56 ∷ 57 ∷ 45 ∷ 52
        ∷ 53 ∷ 54 ∷ 43 ∷ 49 ∷ 50 ∷ 51 ∷ 48 ∷ 46 ∷ [])
      (entry keypad)

-- C('Q') is 17, and C('/') is -17, which a uint8_t holds as 239.
unfoldable pub ctlmap : ℕ → ℕ
ctlmap =
    row
      (0 ∷ 0 ∷ 0 ∷ 0 ∷ 0 ∷ 0 ∷ 0 ∷ 0 ∷ 0 ∷ 0 ∷ 0 ∷ 0 ∷ 0 ∷ 0 ∷ 0 ∷ 0 ∷ 17 ∷ 23 ∷ 5 ∷ 18 ∷ 20 ∷ 25
        ∷ 21 ∷ 9 ∷ 15 ∷ 16 ∷ 0 ∷ 0 ∷ 13 ∷ 0 ∷ 1 ∷ 19 ∷ 4 ∷ 6 ∷ 7 ∷ 8 ∷ 10 ∷ 11 ∷ 12 ∷ 0 ∷ 0 ∷ 0 ∷ 0
        ∷ 28 ∷ 26 ∷ 24 ∷ 3 ∷ 22 ∷ 2 ∷ 14 ∷ 13 ∷ 0 ∷ 0 ∷ 239 ∷ 0 ∷ 0 ∷ [])
      (entry ((0x97, 0xE0) ∷ (0xB5, 239) ∷ arrows))

-- `charcode[shift & (CTL | SHIFT)]`
abbrev pub charcode : ℕ → ℕ → ℕ
charcode shift code =
    if shift / 2 % 2 == 1
    then ctlmap code
    else if shift % 2 == 1
    then shiftmap code
    else normalmap code

abbrev pub swap_case : ℕ → ℕ
swap_case c = if leb 97 c && leb c 122 then c - 32 else if leb 65 c && leb c 90 then c + 32 else c

-- `none` is -1. `reboots` says whether the code writes the reset port.
pub record Key : Type 0 where
  pub char : Option ℕ
  pub shift : ℕ
  pub reboots : Bool

-- A key that is pressed
unfoldable pub press : (shift code : ℕ) → Key
press shift code =
    let s = bit_xor (bit_or shift (shiftcode code)) (togglecode code) in
    let c = if bit_and s capslock == 0 then charcode s code else swap_case (charcode s code) in
    record {
      char = some c;
      shift = s;
      reboots = bit_and s (ctl + alt) == ctl + alt && (c == key_del);
    }

-- `shift & ~bits`
abbrev pub clear : (shift bits : ℕ) → ℕ
clear shift bits = bit_and shift (bit_xor (2 ^ 32 - 1) bits)

-- `stat` and `byte` are what the two ports of the keyboard give.
unfoldable pub kbd_proc_data : (shift stat byte : ℕ) → Key
kbd_proc_data shift stat byte =
    if stat % 2 == 0 || (stat / 32 % 2 == 1)
    then record { char = none; shift = shift; reboots = false }
    else if byte == 0xE0
    then record { char = some 0; shift = bit_or shift e0esc; reboots = false }
    else if leb 0x80 byte
    then (let code = if bit_and shift e0esc == 0 then byte % 0x80 else byte in
        record {
          char = some 0;
          shift = clear shift (bit_or (shiftcode code) e0esc);
          reboots = false;
        })
    else if bit_and shift e0esc == 0
    then press shift byte
    else press (clear shift e0esc) (byte + 0x80)
