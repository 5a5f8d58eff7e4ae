-- ===== src/Console/Editing.antt =====
-- lib/readline.c: the buffer of readline holds the line that was typed and edited.
use xv6_lab.Base.{
  ℕ, ◌%◌, ◌≤◌, ◌<◌, ◌≡◌, refl, Bool, true, List, [], ◌∷◌, arith, ◌==◌, ◌&&◌, ◌||◌, leb, ltb, length,
  if◌then◌else◌, Bool-cases, inl, inr, ◌∙◌, ◌+◌, ◌-◌, update,
}
use xv6_lab.Console.Readline.{
  Input, char, failed, Line, type_char, Reading, returns, null, waits, read_from, readline,
}

-- The line as a stack of characters, the last on top: an erasing character takes one off, another is put
-- on top if it is printable and fewer than 1023 are there, and an end of line ends it.
pub data Edited : Type 0 where
  typed : List ℕ → Edited
  broken : Edited
  open_end : Edited

abbrev pub pop : List ℕ → List ℕ
pop [] = []
pop (x ∷ cs) = cs

abbrev pub edit : List ℕ → List Input → Edited
edit cs [] = open_end
edit cs (failed ∷ input) = broken
edit cs (char c ∷ input) =
    let erased = edit (pop cs) input in
    let pushed = edit (c % 256 ∷ cs) input in
    let ignored = edit cs input in
    if (c == 8 || (c == 127)) && ltb 0 (length cs)
    then erased
    else if leb 32 c && ltb (length cs) 1023
    then pushed
    else if c == 10 || (c == 13)
    then typed cs
    else ignored

-- The buffer holds the characters of the stack, from the bottom up.
abbrev pub Holds : (ℕ → ℕ) → List ℕ → Type 0
Holds buf [] = Unit
Holds buf (x ∷ cs) = (buf (length cs) ≡ x) × Holds buf cs

-- What readline comes to, for the line that was edited: the buffer has its characters and a NUL, and
-- nothing was written behind it.
abbrev pub Agrees : (before : ℕ → ℕ) → Edited → Reading → Type 0
Agrees before (typed cs) (returns buf) =
    Holds buf cs
    × (buf (length cs) ≡ 0)
    × (length cs < 1024)
    × ((a : ℕ) → 1024 ≤ a → buf a ≡ before a)
Agrees before broken null = Unit
Agrees before open_end waits = Unit
Agrees before _ _ = ⊥

-- Cells from the top of the stack on do not matter.
Holds-above :
    (cs : List ℕ) (f g : ℕ → ℕ) → ((a : ℕ) → a < length cs → g a ≡ f a) → Holds f cs → Holds g cs
Holds-above [] f g same h = tt
Holds-above (x ∷ cs) f g same (top, h) =
    (same (length cs) (omega arith) ∙ top, Holds-above cs f g (λ a b. same a (omega arith)) h)

record IsLine (before : ℕ → ℕ) (l : Line) (cs : List ℕ) : Type 0 where
  pub size : l.i ≡ length cs
  pub room : length cs ≤ 1023
  pub holds : Holds l.buf cs
  pub behind : (a : ℕ) → 1024 ≤ a → l.buf a ≡ before a

module _ (before : ℕ → ℕ) (l : Line) where
  sized : {cs : List ℕ} → IsLine before l cs → IsLine before (record l { i = length cs }) cs
  sized is = record { size = refl; room = is.room; holds = is.holds; behind = is.behind }

  erase-IsLine :
      (cs : List ℕ)
      → ltb 0 (length cs) ≡ true
      → IsLine before l cs
      → IsLine before (record l { i = length cs - 1 }) (pop cs)
  erase-IsLine [] some_there is = absurd (cc)
  erase-IsLine (x ∷ cs) some_there is = record {
    size = omega (arith, is.size);
    room = omega (arith, is.room);
    holds = is.holds.1;
    behind = is.behind;
  }

  push-IsLine :
      (c : ℕ) (cs : List ℕ)
      → ltb (length cs) 1023 ≡ true
      → IsLine before l cs
      → IsLine before (record { buf = update l.buf (length cs) c; i = length cs + 1 }) (c ∷ cs)
  push-IsLine c cs fits is = record {
    size = omega (arith, is.size);
    room = ground (arith);
    holds = (
      ground (arith, is.size),
      Holds-above cs l.buf (update l.buf (length cs) c) (λ a b. ground arith) is.holds,
    );
    behind = λ a b. ground (arith, is.size, is.room, is.behind a);
  }

  finish-Agrees :
      (cs : List ℕ)
      → IsLine before l cs
      → Agrees before (typed cs) (returns (update l.buf (length cs) 0))
  finish-Agrees cs is = (
    Holds-above cs l.buf (update l.buf (length cs) 0) (λ a b. ground arith) is.holds,
    ground arith,
    omega (arith, is.room),
    λ a b. ground (arith, is.room, is.behind a),
  )

read_from-Agrees :
    (before : ℕ → ℕ) (echoing : Bool) (input : List Input) (l : Line) (cs : List ℕ)
    → IsLine before l cs
    → Agrees before (edit cs input) (read_from echoing input l)
unfolding read_from type_char
read_from-Agrees before echoing [] l cs is = tt
read_from-Agrees before echoing (failed ∷ input) l cs is = tt
read_from-Agrees before echoing (char c ∷ input) l cs is =
    elim (Bool-cases ((c == 8 || (c == 127)) && ltb 0 (length cs))) [
      | inl e ↦
          rw (is.size, e)
            (read_from-Agrees before echoing input (record l { i = length cs - 1 }) (pop cs)
              (erase-IsLine before l cs (ground arith) is))
      | inr k ↦ elim (Bool-cases (leb 32 c && ltb (length cs) 1023)) [
        | inl p ↦
            rw (is.size, k, p)
              (read_from-Agrees before echoing input
                (record { buf = update l.buf (length cs) (c % 256); i = length cs + 1 })
                (c % 256 ∷ cs) (push-IsLine before l (c % 256) cs (ground arith) is))
        | inr q ↦ elim (Bool-cases (c == 10 || (c == 13))) [
          | inl d ↦ rw (is.size, k, q, d) (finish-Agrees before l cs is)
          | inr d ↦
              rw (is.size, k, q, d)
                (read_from-Agrees before echoing input (record l { i = length cs }) cs
                  (sized before l is))
        ]
      ]
    ]

-- readline, on whatever is typed, edits a stack of characters: it waits, gives up at a read error,
-- or returns at an end of line exactly as the stack does; the buffer then holds the stack's
-- characters in order and a NUL, at most 1024 in all, and nothing was written behind it.
pub readline-Agrees :
    (echoing : Bool) (input : List Input) (buf : ℕ → ℕ)
    → Agrees buf (edit [] input) (readline echoing input buf)
unfolding readline
readline-Agrees echoing input buf =
    read_from-Agrees buf echoing input (record { buf = buf; i = 0 }) []
      (record { size = refl; room = omega arith; holds = tt; behind = λ a b. refl })
