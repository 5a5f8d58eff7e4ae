-- ===== src/Console/Readline.antt =====
-- lib/readline.c: a line of input, with erasing.
use xv6_lab.Base.{
  ℕ, ◌+◌, ◌-◌, ◌%◌, Bool, List, [], ◌∷◌, ◌==◌, ◌&&◌, ◌||◌, leb, ltb, update, if◌then◌else◌,
}

abbrev pub buflen : ℕ
buflen = 1024

-- What getchar gives: a character, or a negative result
pub data Input : Type 0 where
  char : ℕ → Input
  failed : Input

-- `buf` and `i`
pub record Line : Type 0 where
  pub buf : ℕ → ℕ
  pub i : ℕ

-- readline goes on with a line, or returns the buffer; the list is what it echoes.
pub data Typed : Type 0 where
  more : Line → List ℕ → Typed
  finished : (ℕ → ℕ) → List ℕ → Typed

abbrev pub echo : (echoing : Bool) → ℕ → List ℕ
echo echoing c = if echoing then c ∷ [] else []

-- One round for a character
unfoldable pub type_char : (echoing : Bool) → ℕ → Line → Typed
type_char echoing c l =
    if (c == 8 || (c == 127)) && ltb 0 l.i
    then more (record l { i = l.i - 1 }) (echo echoing 8)
    else if leb 32 c && ltb l.i (buflen - 1)
    then more (record { buf = update l.buf l.i (c % 256); i = l.i + 1 }) (echo echoing c)
    else if c == 10 || (c == 13)
    then finished (update l.buf l.i 0) (echo echoing 10)
    else more l []

-- readline returns `buf` or NULL, or the input at hand is used up and it waits for more.
pub data Reading : Type 0 where
  returns : (ℕ → ℕ) → Reading
  null : Reading
  waits : Reading

abbrev pub go_on : Typed → (Line → Reading) → Reading
go_on (more l out) read = read l
go_on (finished buf out) read = returns buf

unfoldable pub read_from : (echoing : Bool) → List Input → Line → Reading
read_from echoing [] l = waits
read_from echoing (failed ∷ input) l = null
read_from echoing (char c ∷ input) l =
    go_on (type_char echoing c l) λ next. read_from echoing input next

-- The prompt is left out. `buf` is the static buffer as the call before left it.
unfoldable pub readline : (echoing : Bool) → List Input → (buf : ℕ → ℕ) → Reading
readline echoing input buf = read_from echoing input (record { buf = buf; i = 0 })
