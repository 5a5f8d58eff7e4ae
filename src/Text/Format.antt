-- ===== src/Text/Format.antt =====
-- lib/printfmt.c: vprintfmt and what it calls.
--
-- The format is the list of its characters before the NUL. The arguments are the 32-bit words on the
-- caller's stack, `args i` the one at place `i`. An `int` is its 32-bit pattern. What is printed is the
-- list of the characters given to putch, each cut to a byte.
use Prim.Native.Char.{code}
use Prim.Native.String.{String}
use xv6_lab.Base.{
  ℕ, zero, suc, ◌+◌, ◌-◌, ◌*◌, ◌%◌, ◌^◌, Bool, true, false, Option, none, some, List, [], ◌∷◌, ◌++◌,
  ltb, leb, not, ◌==◌, ◌&&◌, ◌||◌, if◌then◌else◌, length,
}
use xv6_lab.Machine.Mmu.{u32}
use xv6_lab.Text.Strings.{Bytes, strnlen}
use xv6_lab.Text.Numbers.{pads, printnum}

-- The characters of a literal
abbrev pub codes : String → List ℕ
codes String.[] = []
codes (String.◌∷◌ c s) = code c ∷ codes s

abbrev pub negative : ℕ → Bool
negative w = leb (2 ^ 31) w

-- `max(w, 0)` for an int
abbrev pub positive_part : ℕ → ℕ
positive_part w = if negative w then 0 else w

-- `error_string`; `none` is NULL. The numbers are below MAXERROR, which is 9.
abbrev pub error_string : ℕ → Option (List ℕ)
error_string e =
    if e == 1
    then some (codes "unspecified error")
    else if e == 2
    then some (codes "bad environment")
    else if e == 3
    then some (codes "invalid parameter")
    else if e == 4
    then some (codes "out of memory")
    else if e == 5
    then some (codes "out of environments")
    else if e == 6
    then some (codes "segmentation fault")
    else if e == 7
    then some (codes "env is not recving")
    else if e == 8
    then some (codes "unexpected end of file")
    else none

-- Two words as an `unsigned long long`
abbrev pub quad : (args : ℕ → ℕ) (ap : ℕ) → ℕ
quad args ap = u32 (args ap) + 2 ^ 32 * u32 (args (ap + 1))

-- The number, and the place of the next argument
unfoldable pub getuint : (args : ℕ → ℕ) (ap lflag : ℕ) → ℕ × ℕ
getuint args ap lflag = if leb 2 lflag then (quad args ap, ap + 2) else (u32 (args ap), ap + 1)

-- The same as a `long long`: 64 bits, the sign extended
unfoldable pub getint : (args : ℕ → ℕ) (ap lflag : ℕ) → ℕ × ℕ
getint args ap lflag =
    let w = u32 (args ap) in
    if leb 2 lflag
    then (quad args ap, ap + 2)
    else (if negative w then w + 2 ^ 64 - 2 ^ 32 else w, ap + 1)

-- The variables of one escape sequence. `counting` is the number that the loop over the digits of a
-- width has so far, `ap` the place of the next argument.
pub record Spec : Type 0 where
  pub padc : ℕ
  pub width : ℕ
  pub precision : ℕ
  pub lflag : ℕ
  pub altflag : Bool
  pub counting : Option ℕ
  pub ap : ℕ

-- -1 as an int
abbrev pub minus_one : ℕ
minus_one = 0xffff_ffff

abbrev pub start : (ap : ℕ) → Spec
start ap = record {
  padc = 32;
  width = minus_one;
  precision = minus_one;
  lflag = 0;
  altflag = false;
  counting = none;
  ap = ap;
}

-- `process_precision`, for a number `n` that has been read
abbrev pub process_precision : (n : ℕ) → Spec → Spec
process_precision n s =
    if negative s.width
    then record s { width = n; precision = minus_one; counting = none }
    else record s { precision = n; counting = none }

-- The end of the loop over the digits, if it was in it
abbrev pub settled : Option ℕ → Spec → Spec
settled none s = s
settled (some n) s = process_precision n s

abbrev pub is_digit : ℕ → Bool
is_digit c = leb 48 c && leb c 57

-- The cases that end in `goto reswitch`, outside that loop; `none` for every other character
abbrev pub flag : (args : ℕ → ℕ) (c : ℕ) → Spec → Option Spec
flag args c s =
    if c == b'-'
    then some (record s { padc = b'-' })
    else if c == b'0'
    then some (record s { padc = b'0' })
    else if is_digit c
    then some (record s { counting = some (c - 48) })
    else if c == b'*'
    then some (process_precision (u32 (args s.ap)) (record s { ap = s.ap + 1 }))
    else if c == b'.'
    then some (if negative s.width then record s { width = 0 } else s)
    else if c == b'#'
    then some (record s { altflag = true })
    else if c == b'l'
    then some (record s { lflag = s.lflag + 1 })
    else none

abbrev pub count_digit : (c : ℕ) → Spec → Option ℕ → Spec
count_digit c s none = s
count_digit c s (some n) = record s { counting = some (u32 (n * 10 + c - 48)) }

abbrev pub is_counting : Option ℕ → Bool
is_counting none = false
is_counting (some n) = true

-- One character of the sequence: `none` if it ends the flags.
unfoldable pub reswitch : (args : ℕ → ℕ) (c : ℕ) → Spec → Option Spec
reswitch args c s =
    if is_counting s.counting && is_digit c
    then some (count_digit c s s.counting)
    else flag args c (settled s.counting s)

-- Where the flags end: at a character, with the characters after it, or at the NUL, with the place of
-- the next argument
pub data Escape : Type 0 where
  at : (c : ℕ) → Spec → List ℕ → Escape
  ended : (ap : ℕ) → Escape

abbrev pub advance : (c : ℕ) → Spec → List ℕ → (Spec → Escape) → Option Spec → Escape
advance c s cs go_on none = at c (settled s.counting s) cs
advance c s cs go_on (some s') = go_on s'

unfoldable pub escape : (args : ℕ → ℕ) → Spec → List ℕ → Escape
escape args s [] = ended s.ap
escape args s (c ∷ cs) = advance c s cs (λ s'. escape args s' cs) (reswitch args c s)

-- What a conversion prints: characters, with the place of the next argument; nothing that this model
-- knows, where the code reads outside `error_string`; or it takes more fuel.
pub data Shown : Type 0 where
  shows : List ℕ → (ap : ℕ) → Shown
  wild : Shown
  starved : Shown

-- `number:`; a 64-bit number has less than 64 digits.
abbrev pub number : Spec → List ℕ → (num base ap : ℕ) → Shown
number s sign num base ap = shows (sign ++ printnum 64 num base (positive_part s.width) s.padc) ap

-- A `long long` with its sign printed
abbrev pub signed : Spec → (base : ℕ) → ℕ × ℕ → Shown
signed s base (num, ap) =
    if leb (2 ^ 63) num
    then number s (b'-' ∷ []) (2 ^ 64 - num) base ap
    else number s [] num base ap

abbrev pub unsigned : Spec → (base : ℕ) → ℕ × ℕ → Shown
unsigned s base (num, ap) = number s [] num base ap

abbrev pub prepend : ℕ → Option (List ℕ) → Option (List ℕ)
prepend c none = none
prepend c (some cs) = some (c ∷ cs)

-- The loop over a string at `p`: it ends at the NUL, or when a precision of 0 or more is used up. A
-- `char` from 128 on is negative.
unfoldable pub put_string : (fuel : ℕ) → Bytes → (p precision : ℕ) → (alt : Bool) → Option (List ℕ)
put_string zero m p precision alt = none
put_string (suc f) m p precision alt =
    let rest =
      put_string f m (u32 (p + 1)) (if negative precision then precision else precision - 1) alt in
    if m p == 0
    then some []
    else if precision == 0
    then some []
    else prepend (if alt && (ltb (m p) 32 || ltb 126 (m p)) then b'?' else m p) rest

-- The string with its padding: before it if the width asks for some and there is no `-`, else after it
abbrev pub padded : Spec → (len : ℕ) → Option (List ℕ) → Shown
padded s len none = starved
padded s len (some cs) =
    let w = positive_part s.width in
    if ltb 0 w && not (s.padc == b'-')
    then shows (pads (w - len) s.padc ++ cs) (s.ap + 1)
    else shows (cs ++ pads (w - length cs) 32) (s.ap + 1)

-- `(null)` is a string literal, at the address `null_text`
unfoldable pub string : (fuel : ℕ) → Bytes → (null_text : ℕ) → (args : ℕ → ℕ) → Spec → Shown
string fuel m null_text args s =
    let p = if u32 (args s.ap) == 0 then null_text else u32 (args s.ap) in
    padded s (strnlen m p s.precision) (put_string fuel m p s.precision s.altflag)

abbrev pub known_error : Option (List ℕ) → (err ap : ℕ) → Shown
known_error none err ap = shows (codes "error " ++ printnum 64 err 10 0 32) ap
known_error (some text) err ap = shows text ap

-- `err = -err` leaves the least int negative, and the code then reads before the start of
-- `error_string`. The calls of printfmt with the formats "error %d" and "%s" are written out.
unfoldable pub error : (args : ℕ → ℕ) → Spec → Shown
error args s =
    let w = u32 (args s.ap) in
    let err = if negative w then u32 (2 ^ 32 - w) else w in
    if negative err
    then wild
    else known_error (if leb 9 err then none else error_string err) err (s.ap + 1)

-- The cases that print, on their character; any other is `literal`.
pub data Conversion : Type 0 where
  known : Shown → Conversion
  literal : Conversion

unfoldable pub convert :
    (fuel : ℕ) → Bytes → (null_text : ℕ) → (args : ℕ → ℕ) → (c : ℕ) → Spec → Conversion
convert fuel m null_text args c s =
    if c == b'c'
    then known (shows (args s.ap % 256 ∷ []) (s.ap + 1))
    else if c == b'e'
    then known (error args s)
    else if c == b's'
    then known (string fuel m null_text args s)
    else if c == b'd'
    then known (signed s 10 (getint args s.ap s.lflag))
    else if c == b'u'
    then known (unsigned s 10 (getuint args s.ap s.lflag))
    else if c == b'o'
    then known (signed s 8 (getint args s.ap s.lflag))
    else if c == b'p'
    then known (number s (b'0' ∷ b'x' ∷ []) (u32 (args s.ap)) 16 (s.ap + 1))
    else if c == b'x'
    then known (unsigned s 16 (getuint args s.ap s.lflag))
    else if c == b'%'
    then known (shows (b'%' ∷ []) s.ap)
    else literal

-- What follows a piece of output
abbrev pub followed : List ℕ → Shown → Shown
followed cs (shows more ap) = shows (cs ++ more) ap
followed cs wild = wild
followed cs starved = starved

abbrev pub continue : Shown → (ℕ → Shown) → Shown
continue (shows cs ap) next = followed cs (next ap)
continue wild next = wild
continue starved next = starved

-- An escape sequence whose text after the `%` is `cs`; `print` goes on at a place in the format. An
-- unknown sequence prints the `%`, and goes on behind it, at the argument `ap` that follows those
-- that a `*` has taken.
abbrev pub perform : (print : List ℕ → ℕ → Shown) → List ℕ → (ap : ℕ) → List ℕ → Conversion → Shown
perform print cs ap rest (known shown) = continue shown (print rest)
perform print cs ap rest literal = followed (b'%' ∷ []) (print cs ap)

abbrev pub spelled :
    (fuel : ℕ)
    → Bytes
    → (null_text : ℕ) → (args : ℕ → ℕ) → (print : List ℕ → ℕ → Shown) → List ℕ
    → Escape
    → Shown
spelled fuel m null_text args print cs (ended ap) = followed (b'%' ∷ []) (print cs ap)
spelled fuel m null_text args print cs (at c s rest) =
    perform print cs s.ap rest (convert fuel m null_text args c s)

-- One round of fuel goes to each character that is printed and to each escape sequence, and `long`
-- rounds to each string.
unfoldable pub vprintfmt :
    (fuel long : ℕ) → Bytes → (null_text : ℕ) → (args : ℕ → ℕ) → List ℕ → (ap : ℕ) → Shown
vprintfmt zero long m null_text args fmt ap = starved
vprintfmt (suc f) long m null_text args [] ap = shows [] ap
vprintfmt (suc f) long m null_text args (c ∷ cs) ap =
    if c == b'%'
    then spelled long m null_text args (vprintfmt f long m null_text args) cs
        (escape args (start ap) cs)
    else followed (c ∷ []) (vprintfmt f long m null_text args cs ap)
