-- ===== src/Monitor/Command.antt =====
-- kern/monitor.c: runcmd.
--
-- Memory is a function from addresses to bytes. `names` are the addresses of the names in the array
-- `commands`; `long` is the fuel of a loop to the end of a string.
use xv6_lab.Base.{
  ℕ, zero, suc, ◌+◌, ◌-◌, Bool, Option, none, some, List, [], ◌∷◌, ◌++◌, not, length, update, ◌==◌,
  ◌&&◌, ◌||◌, if◌then◌else◌,
}
use xv6_lab.Text.Strings.{Bytes, Difference, same, strcmp}

abbrev pub maxargs : ℕ
maxargs = 16

-- `strchr(WHITESPACE, c)`, for a `c` that is not NUL: "\t\r\n "
abbrev pub is_white : (c : ℕ) → Bool
is_white c = c == 9 || (c == 13) || (c == 10) || (c == 32)

-- The loop that overwrites whitespace: the memory and `buf`
unfoldable pub gobble : (long : ℕ) → Bytes → (buf : ℕ) → Option (Bytes × ℕ)
gobble zero m buf = none
gobble (suc f) m buf =
    let rest = gobble f (update m buf 0) (buf + 1) in
    if not (m buf == 0) && is_white (m buf) then rest else some (m, buf)

-- The loop past an argument
unfoldable pub scan_past : (long : ℕ) → Bytes → (buf : ℕ) → Option ℕ
scan_past zero m buf = none
scan_past (suc f) m buf =
    let rest = scan_past f m (buf + 1) in
    if not (m buf == 0) && not (is_white (m buf)) then rest else some buf

-- `argv` lists its entries below `argc`.
pub data Arguments : Type 0 where
  found : (m : Bytes) (argv : List ℕ) → Arguments
  too_many : Bytes → Arguments

abbrev pub Next : Type 0
Next = Bytes → (argv : List ℕ) → (buf : ℕ) → Option Arguments

abbrev pub scanned : Next → Bytes → (argv : List ℕ) → Option ℕ → Option Arguments
scanned next m argv none = none
scanned next m argv (some buf) = next m argv buf

-- A round once the whitespace is gobbled
abbrev pub take_argument :
    Next → (long : ℕ) → (argv : List ℕ) → Option (Bytes × ℕ) → Option Arguments
take_argument next long argv none = none
take_argument next long argv (some (m, buf)) =
    if m buf == 0
    then some (found m argv)
    else if length argv == maxargs - 1
    then some (too_many m)
    else scanned next m (argv ++ (buf ∷ [])) (scan_past long m buf)

-- The loop `while (1)`, with one round of fuel for each argument and one more
unfoldable pub parse : (rounds long : ℕ) → Next
parse zero long m argv buf = none
parse (suc n) long m argv buf = take_argument (parse n long) long argv (gobble long m buf)

-- What runcmd does after that: nothing, as there is no argument or there are too many; an unknown
-- command; or a call of command `i`, which decides the result.
pub data Ran : Type 0 where
  nothing : Ran
  refused : Ran
  unknown : Ran
  calls : (i argc : ℕ) (argv : List ℕ) → Ran

-- The loop over `commands`, from command `i` on
abbrev pub compared : Option Difference → (hit : Ran) → (rest : Option Ran) → Option Ran
compared none hit rest = none
compared (some same) hit rest = some hit
compared (some _) hit rest = rest

unfoldable pub lookup : (long : ℕ) → Bytes → (argv : List ℕ) → (arg i : ℕ) → List ℕ → Option Ran
lookup long m argv arg i [] = some unknown
lookup long m argv arg i (name ∷ names) =
    compared (strcmp long m arg name) (calls i (length argv) argv)
      (lookup long m argv arg (i + 1) names)

abbrev pub invoke : (long : ℕ) → (names : List ℕ) → Option Arguments → Option Ran
invoke long names none = none
invoke long names (some (too_many m)) = some refused
invoke long names (some (found m [])) = some nothing
invoke long names (some (found m (arg ∷ argv))) = lookup long m (arg ∷ argv) arg 0 names

unfoldable pub runcmd : (long : ℕ) → (names : List ℕ) → Bytes → (buf : ℕ) → Option Ran
runcmd long names m buf = invoke long names (parse maxargs long m [] buf)
