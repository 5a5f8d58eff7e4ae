-- ===== src/Monitor/Invoking.antt =====
-- kern/monitor.c, runcmd: which command runs.
use xv6_lab.Base.{
  ℕ, ◌+◌, ◌≤◌, ◌<◌, ◌≡◌, ◌⊎◌, Bool, true, false, Option, some, List, [], ◌∷◌, length, ◌==◌, ◌&&◌,
  if◌then◌else◌,
}
use xv6_lab.Text.Strings.{Bytes}
use xv6_lab.Monitor.Command.{Ran, nothing, refused, unknown, calls}
use xv6_lab.Monitor.Words.{StringAt, StringsAt}

abbrev pub same_text : List ℕ → List ℕ → Bool
same_text [] [] = true
same_text (x ∷ xs) (y ∷ ys) = let rest = same_text xs ys in x == y && rest
same_text _ _ = false

-- What runs on the first word `w`: the first command of this name, from command `i` on
abbrev pub ran : (commands : List (List ℕ)) → (w : List ℕ) → (i : ℕ) → (argv : List ℕ) → Ran
ran [] w i argv = unknown
ran (c ∷ cs) w i argv =
    let rest = ran cs w (i + 1) argv in if same_text w c then calls i (length argv) argv else rest

-- The names of the commands stand before the buffer, and are shorter than `long`.
abbrev pub IsNames : Bytes → (long buf : ℕ) → List ℕ → List (List ℕ) → Type 0
IsNames m long buf [] [] = Unit {0}
IsNames m long buf (p ∷ ps) (c ∷ cs) =
    StringAt m p c × (p + length c < buf) × (length c < long) × IsNames m long buf ps cs
IsNames m long buf _ _ = ⊥

-- What runcmd does on a line with these words
abbrev pub Invoked : (commands ws : List (List ℕ)) → Option Ran → Type 0
Invoked commands [] r = r ≡ some nothing
Invoked commands (w ∷ ws) r =
    ((15 < length (w ∷ ws)) × (r ≡ some refused))
    ⊎ ((length (w ∷ ws) ≤ 15)
        × ((m' : Bytes) × (argv : List ℕ) × StringsAt m' argv (w ∷ ws)
            × (r ≡ some (ran commands w 0 argv))))
