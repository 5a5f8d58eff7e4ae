-- ===== src/Examples/Commands.antt =====
-- A line typed into the kernel monitor.
use xv6_lab.Base.{ℕ, ◌+◌, ◌-◌, Bool, List, [], ◌∷◌, leb, not, ◌==◌, ◌&&◌, if◌then◌else◌}
use xv6_lab.Text.Strings.{Bytes}
use xv6_lab.Text.Format.{codes}

abbrev nth : List ℕ → ℕ → ℕ
nth [] i = 0
nth (c ∷ cs) i = let rest = nth cs (i - 1) in if i == 0 then c else rest

-- "help" at 100, "kerninfo" at 110, and the line at 200
abbrev typed : Bytes
typed a =
    if leb 200 a
    then nth (codes "  help me\t") (a - 200)
    else if leb 110 a
    then nth (codes "kerninfo") (a - 110)
    else nth (codes "help") (a - 100)

abbrev stands : Bytes → (p : ℕ) → List ℕ → Bool
stands m p [] = m p == 0
stands m p (c ∷ cs) = let rest = stands m (p + 1) cs in m p == c && (not (c == 0) && rest)
