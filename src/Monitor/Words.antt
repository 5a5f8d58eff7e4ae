-- ===== src/Monitor/Words.antt =====
-- kern/monitor.c: the words of a command line.
use xv6_lab.Base.{
  ℕ, zero, suc, ◌+◌, ◌≤◌, ◌<◌, ◌≡◌, ◌≢◌, ◌⊎◌, refl, Bool, true, false, some, List, [], ◌∷◌, not,
  arith, length, update, ◌==◌, if◌then◌else◌, Bool-cases, inl, inr, ◌∙◌,
}
use xv6_lab.Text.Strings.{Bytes}
use xv6_lab.Monitor.Command.{is_white, gobble, scan_past}

-- The string `cs`, with its NUL, stands at `p`.
abbrev pub StringAt : Bytes → (p : ℕ) → List ℕ → Type 0
StringAt m p [] = m p ≡ 0
StringAt m p (c ∷ cs) = (m p ≡ c) × (c ≢ 0) × StringAt m (p + 1) cs

abbrev pub StringsAt : Bytes → (ps : List ℕ) → List (List ℕ) → Type 0
StringsAt m [] [] = Unit {0}
StringsAt m (p ∷ ps) (w ∷ ws) = StringAt m p w × StringsAt m ps ws
StringsAt m _ _ = ⊥

abbrev pub starts_word : List ℕ → Bool
starts_word [] = false
starts_word (c ∷ cs) = not (is_white c)

abbrev pub attach : ℕ → List (List ℕ) → List (List ℕ)
attach c [] = (c ∷ []) ∷ []
attach c (w ∷ ws) = (c ∷ w) ∷ ws

-- The maximal runs of characters that are not whitespace
abbrev pub words : List ℕ → List (List ℕ)
words [] = []
words (c ∷ cs) =
    let rest = words cs in
    if is_white c then rest else if starts_word cs then attach c rest else (c ∷ []) ∷ rest

StringAt-update :
    (m : Bytes) (j v p : ℕ) (cs : List ℕ) → j < p → StringAt m p cs → StringAt (update m j v) p cs
StringAt-update m j v p [] h at = let other : (p == j) ≡ false = ground arith in rw other at
StringAt-update m j v p (c ∷ cs) h (e, ne, at) =
    let other : (p == j) ≡ false = ground arith in
    (rw other e, ne, StringAt-update m j v (p + 1) cs (omega arith) at)

-- From `p` to `p'` there was whitespace, and now are NULs.
pub record Gobbled (m m' : Bytes) (p p' : ℕ) (cs ds : List ℕ) : Type 0 where
  pub rest : StringAt m' p' ds
  pub begins : (ds ≡ []) ⊎ (starts_word ds ≡ true)
  pub same : words ds ≡ words cs
  pub before : (q : ℕ) → q < p → m' q ≡ m q
  pub cleared : starts_word cs ≡ false → m' p ≡ 0
  pub on : p ≤ p'
  pub fewer : length ds ≤ length cs

pub gobble-Gobbled :
    (cs : List ℕ) (f : ℕ) (m : Bytes) (p : ℕ)
    → StringAt m p cs
    → length cs < f
    → (m' : Bytes) × (p' : ℕ) × (ds : List ℕ) × (gobble f m p ≡ some (m', p'))
      × Gobbled m m' p p' cs ds
unfolding gobble
gobble-Gobbled [] zero m p at enough = absurd (omega arith)
gobble-Gobbled (c ∷ cs) zero m p at enough = absurd (omega arith)
gobble-Gobbled [] (suc f) m p at enough = (
  m,
  p,
  [],
  rw at refl,
  record {
    rest = at;
    begins = inl refl;
    same = refl;
    before = λ q b. refl;
    cleared = λ _. at;
    on = omega arith;
    fewer = omega arith;
  },
)
gobble-Gobbled (c ∷ cs) (suc f) m p (e, ne, at) enough =
    let nonzero : (c == 0) ≡ false = ground arith in
    elim (Bool-cases (is_white c)) [
      | inl white ↦
          let (m', p', ds, run, g) =
            gobble-Gobbled cs f (update m p 0) (p + 1)
              (StringAt-update m p 0 (p + 1) cs (omega arith) at) (omega arith) in
          let here : (p == p) ≡ true = ground arith in
          (
            m',
            p',
            ds,
            rw (e, nonzero, white) run,
            record {
              rest = g.rest;
              begins = g.begins;
              same = rw white g.same;
              before = λ q b.
                  let other : (q == p) ≡ false = ground arith in
                  g.before q (omega arith) ∙ rw other refl;
              cleared = λ _. g.before p (omega arith) ∙ rw here refl;
              on = omega (arith, g.on);
              fewer = omega (arith, g.fewer);
            },
          )
      | inr black ↦ (
        m,
        p,
        c ∷ cs,
        rw (e, nonzero, black) refl,
        record {
          rest = (e, ne, at);
          begins = inr (rw black refl);
          same = refl;
          before = λ q b. refl;
          cleared = λ h. absurd (ground (arith, black, h));
          on = omega arith;
          fewer = omega arith;
        },
      )
    ]

-- The word `w` stands from `p` up to `q`, without a NUL.
abbrev pub Within : Bytes → (p q : ℕ) → List ℕ → Type 0
Within m p q [] = p ≡ q
Within m p q (c ∷ cs) = (m p ≡ c) × (c ≢ 0) × Within m (p + 1) q cs

pub record Passed (m : Bytes) (p q : ℕ) (cs w ds : List ℕ) : Type 0 where
  pub rest : StringAt m q ds
  pub word : Within m p q w
  pub stop : starts_word ds ≡ false
  pub split : starts_word cs ≡ true → words cs ≡ w ∷ words ds
  pub none_there : starts_word cs ≡ false → (w ≡ []) × (ds ≡ cs)
  pub on : starts_word cs ≡ true → p < q
  pub on_or_stay : p ≤ q
  pub fewer : length ds ≤ length cs

pub scan_past-Passed :
    (cs : List ℕ) (f : ℕ) (m : Bytes) (p : ℕ)
    → StringAt m p cs
    → length cs < f
    → (q : ℕ) × (w : List ℕ) × (ds : List ℕ) × (scan_past f m p ≡ some q) × Passed m p q cs w ds
unfolding scan_past
scan_past-Passed [] zero m p at enough = absurd (omega arith)
scan_past-Passed (c ∷ cs) zero m p at enough = absurd (omega arith)
scan_past-Passed [] (suc f) m p at enough = (
  p,
  [],
  [],
  rw at refl,
  record {
    rest = at;
    word = refl;
    stop = refl;
    split = λ h. cc;
    none_there = λ h. (refl, refl);
    on = λ h. cc;
    on_or_stay = omega arith;
    fewer = omega arith;
  },
)
scan_past-Passed (c ∷ cs) (suc f) m p (e, ne, at) enough =
    let nonzero : (c == 0) ≡ false = ground arith in
    elim (Bool-cases (is_white c)) [
      | inl white ↦ (
        p,
        [],
        c ∷ cs,
        rw (e, nonzero, white) refl,
        record {
          rest = (e, ne, at);
          word = refl;
          stop = rw white refl;
          split = λ h. absurd (ground (arith, white, h));
          none_there = λ h. (refl, refl);
          on = λ h. absurd (ground (arith, white, h));
          on_or_stay = omega arith;
          fewer = omega arith;
        },
      )
      | inr black ↦
          let (q, w, ds, run, passed) = scan_past-Passed cs f m (p + 1) at (omega arith) in
          (
            q,
            c ∷ w,
            ds,
            rw (e, nonzero, black) run,
            record {
              rest = passed.rest;
              word = (e, ne, passed.word);
              stop = passed.stop;
              split = λ _. rw black (elim (Bool-cases (starts_word cs)) [
                | inl more ↦ rw (more, passed.split more) refl
                | inr last ↦ let (none, all) = passed.none_there last in rw (last, none, all) refl
              ]);
              none_there = λ h. absurd (ground (arith, black, h));
              on = λ _. omega (arith, passed.on_or_stay);
              on_or_stay = omega (arith, passed.on_or_stay);
              fewer = omega (arith, passed.fewer);
            },
          )
    ]

Within-on : (m : Bytes) (p q : ℕ) (w : List ℕ) → Within m p q w → p ≤ q
Within-on m p q [] h = omega (arith, h)
Within-on m p q (c ∷ w) (e, ne, h) = omega (arith, Within-on m (p + 1) q w h)

-- Once a NUL is written behind it, the word is a string.
pub Within-StringAt :
    (m m' : Bytes) (p q : ℕ) (w : List ℕ)
    → Within m p q w
    → ((x : ℕ) → x < q → m' x ≡ m x)
    → m' q ≡ 0
    → StringAt m' p w
Within-StringAt m m' p q [] h same nul = rw h nul
Within-StringAt m m' p q (c ∷ w) (e, ne, h) same nul = (
  same p (omega (arith, Within-on m (p + 1) q w h)) ∙ e,
  ne,
  Within-StringAt m m' (p + 1) q w h same nul,
)
