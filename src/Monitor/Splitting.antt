-- ===== src/Monitor/Splitting.antt =====
-- kern/monitor.c, runcmd: about how the line is split into argv.
use xv6_lab.Base.{
  ℕ, zero, suc, ◌+◌, ◌≤◌, ◌<◌, ◌≡◌, ◌⊎◌, refl, true, false, Option, some, List, [], ◌∷◌, ◌++◌,
  arith, length, length-append, append_nil, append_assoc, ◌==◌, Bool-cases, inl, inr, ap, ◌∙◌, sym,
}
use xv6_lab.Text.Strings.{Bytes}
use xv6_lab.Monitor.Command.{Arguments, found, too_many, take_argument, parse}
use xv6_lab.Monitor.Words.{
  StringAt, StringsAt, starts_word, words, Gobbled, gobble-Gobbled, Passed, scan_past-Passed,
  Within-StringAt,
}

-- What the loop comes to from `buf` on, with `argv` before: the words of the rest as strings at places that
-- it appends, and no change before `buf`; or a stop, if these are more than 15 in all.
abbrev pub Parsed : (m : Bytes) (argv : List ℕ) (buf : ℕ) (cs : List ℕ) → Option Arguments → Type 0
Parsed m argv buf cs r =
    ((m' : Bytes) × (places : List ℕ) × (r ≡ some (found m' (argv ++ places)))
      × StringsAt m' places (words cs)
      × ((q : ℕ) → q < buf → m' q ≡ m q)
      × (starts_word cs ≡ false → m' buf ≡ 0)
      × (length argv + length (words cs) ≤ 15))
    ⊎ ((m' : Bytes) × (r ≡ some (too_many m')) × (15 < length argv + length (words cs)))

-- A word taken, and the rest parsed
all_words :
    {m m1 : Bytes} {buf buf1 q : ℕ} {cs ds w es : List ℕ}
    → Gobbled m m1 buf buf1 cs ds
    → starts_word ds ≡ true
    → Passed m1 buf1 q ds w es
    → words cs ≡ w ∷ words es
all_words g starts passed = sym g.same ∙ passed.split starts

Parsed-word :
    {m m1 : Bytes} {buf buf1 q : ℕ} {cs ds w es : List ℕ} (argv : List ℕ) (r : Option Arguments)
    → Gobbled m m1 buf buf1 cs ds
    → starts_word ds ≡ true
    → Passed m1 buf1 q ds w es
    → Parsed m1 (argv ++ (buf1 ∷ [])) q es r
    → Parsed m argv buf cs r
Parsed-word {m} {m1} {buf} {buf1} {q} {cs} {ds} {w} {es} argv r g starts passed
      (inl (m', places, run, strings, same, nul, few)) =
    let on = passed.on starts in
    inl (
      m',
      buf1 ∷ places,
      run ∙ ap (λ (ps : List ℕ). some (found m' ps)) (append_assoc argv (buf1 ∷ []) places),
      rw (all_words g starts passed)
          (Within-StringAt m1 m' buf1 q w passed.word same (nul passed.stop), strings),
      λ x b. same x (omega (arith, g.on, on)) ∙ g.before x b,
      λ h. same buf (omega (arith, g.on, on)) ∙ g.cleared h,
      rw (all_words g starts passed) (omega (arith, few, length-append argv (buf1 ∷ []))),
    )
Parsed-word argv r g starts passed (inr (m', run, many)) =
    inr (m', run, rw (all_words g starts passed) (omega (arith, many, length-append argv (_ ∷ []))))

-- There is no word left.
Parsed-end :
    {m m1 : Bytes} {argv : List ℕ} {buf buf1 : ℕ} {cs : List ℕ}
    → Gobbled m m1 buf buf1 cs []
    → length argv ≤ 15
    → Parsed m argv buf cs (some (found m1 argv))
Parsed-end {m} {m1} {argv} {buf} {buf1} {cs} g few = inl (
  m1,
  [],
  rw (append_nil argv) refl,
  rw (← g.same) tt,
  g.before,
  g.cleared,
  rw (← g.same) (omega (arith, few)),
)

-- A round after the whitespace
round :
    (n long : ℕ) (m m1 : Bytes) (argv : List ℕ) (buf buf1 : ℕ) (cs ds : List ℕ)
    → Gobbled m m1 buf buf1 cs ds
    → length cs < long
    → length argv ≤ 15
    → 16 ≤ suc n + length argv
    → ((argv' : List ℕ) (q : ℕ) (es : List ℕ)
        → StringAt m1 q es
        → length es < long
        → length argv' ≤ 15
        → 16 ≤ n + length argv'
        → Parsed m1 argv' q es (parse n long m1 argv' q))
    → Parsed m argv buf cs (take_argument (parse n long) long argv (some (m1, buf1)))
round n long m m1 argv buf buf1 cs [] g enough few fuel rest = rw g.rest (Parsed-end g few)
round n long m m1 argv buf buf1 cs (d ∷ ds) g enough few fuel rest =
    let nonzero : (m1 buf1 == 0) ≡ false = ground (arith, g.rest.0, g.rest.1) in
    let starts : starts_word (d ∷ ds) ≡ true = elim g.begins [ inl e ↦ cc | inr h ↦ h ] in
    let (q, w, es, run, passed) =
      scan_past-Passed (d ∷ ds) long m1 buf1 g.rest (omega (arith, g.fewer)) in
    elim (Bool-cases (length argv == 15)) [
      | inl full ↦
          rw (nonzero, full) (inr (m1, refl, rw (all_words g starts passed) (ground (arith, full))))
      | inr more ↦
          rw (nonzero, more, run)
            (Parsed-word argv _ g starts passed (
              rest (argv ++ (buf1 ∷ [])) q es passed.rest (omega (arith, g.fewer, passed.fewer))
                (ground (arith, more, length-append argv (buf1 ∷ [])))
                (omega (arith, length-append argv (buf1 ∷ [])))))
    ]

pub parse-Parsed :
    (n long : ℕ) (m : Bytes) (argv : List ℕ) (buf : ℕ) (cs : List ℕ)
    → StringAt m buf cs
    → length cs < long
    → length argv ≤ 15
    → 16 ≤ n + length argv
    → Parsed m argv buf cs (parse n long m argv buf)
unfolding parse
parse-Parsed zero long m argv buf cs at enough few fuel = absurd (omega arith)
parse-Parsed (suc n) long m argv buf cs at enough few fuel =
    let (m1, buf1, ds, run, g) = gobble-Gobbled cs long m buf at enough in
    rw run (
      round n long m m1 argv buf buf1 cs ds g enough few fuel
        λ argv' q es. parse-Parsed n long m1 argv' q es)
