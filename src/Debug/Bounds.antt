-- ===== src/Debug/Bounds.antt =====
-- kern/kdebug.c: about the ends that stab_binsearch gives.
use mathlib.Core.Option.{some-injective}
use xv6_lab.Base.{
  subst, ℕ, zero, suc, ◌≤◌, ◌<◌, ◌≡◌, refl, none, some, Option, arith, ltb, Bool-cases, inl, inr,
  ap,
}
use xv6_lab.Debug.Stabs.{
  Stab, Search, true_m, compared, search_round, search_rounds, region, ending, stab_binsearch,
}
use xv6_lab.Debug.Ends.{here-within}

module _ (stabs : ℕ → Stab) (type b : ℕ) where
  -- The variables of the search stay within the table.
  record Inside (s : Search) : Type 0 where
    pub r : s.r ≤ b
    pub right : s.right ≤ b
    pub left : s.left ≤ b

  compared-Inside :
      (s : Search) (o : Option ℕ)
      → s.l < s.r
      → ((k : ℕ) → o ≡ some k → (s.l ≤ k) × (k ≤ true_m stabs type s))
      → Inside s
      → Inside (compared stabs type s o)
  compared-Inside s none more within h = record { r = h.r; right = h.right; left = h.left }
  compared-Inside s (some m) more within h =
      let (low, high) = within m refl in
      elim (Bool-cases (ltb (stabs m).n_value s.addr)) [
        | inl below ↦
            rw below (record { r = h.r; right = h.right; left = omega (arith, h.r, high) })
        | inr not_below ↦ elim (Bool-cases (ltb s.addr (stabs m).n_value)) [
          | inl above ↦
              rw (not_below, above)
                (record {
                  r = omega (arith, h.r, high);
                  right = omega (arith, h.r, high);
                  left = h.left;
                })
          | inr not_above ↦
              rw (not_below, not_above)
                (record { r = h.r; right = h.right; left = omega (arith, h.r, high) })
        ]
      ]

  search_rounds-Inside :
      (f : ℕ) (s s' : Search) → search_rounds stabs type f s ≡ some s' → Inside s → Inside s'
  unfolding search_rounds search_round
  search_rounds-Inside zero s s' e h = absurd (cc)
  search_rounds-Inside (suc f) s s' e h = elim (Bool-cases (ltb s.l s.r)) [
    | inl more ↦
        search_rounds-Inside f (search_round stabs type s) s' (rw more at e)
          (compared-Inside s _ (ground arith) (here-within stabs type s (ground arith)) h)
    | inr stop ↦ subst (λ (x : Search). Inside x) (some-injective s s' (rw stop at e)) h
  ]

  region-Inside : (s : Search) → Inside s → (region stabs type s).1 ≤ b
  region-Inside s h = elim (Bool-cases s.any_matches) [ inl y ↦ rw y h.right | inr n ↦ rw n h.left ]

  ending-Inside :
      (o : Option Search) (x : ℕ × ℕ)
      → ((s : Search) → o ≡ some s → Inside s)
      → ending stabs type o ≡ some x
      → x.1 ≤ b
  ending-Inside none x h e = absurd (cc)
  ending-Inside (some s) x h e =
      let same : (region stabs type s).1 ≡ x.1 =
        ap (λ (p : ℕ × ℕ). p.1) (some-injective (region stabs type s) x e) in
      omega (arith, region-Inside s (h s refl), same)

  pub stab_binsearch-Inside :
      (fuel left right addr : ℕ) (x : ℕ × ℕ)
      → left ≤ b
      → right ≤ b
      → stab_binsearch stabs type fuel left right addr ≡ some x
      → x.1 ≤ b
  unfolding stab_binsearch
  stab_binsearch-Inside fuel left right addr x low high e =
      ending-Inside _ x
        (λ s h. search_rounds-Inside fuel _ s h (record { r = high; right = high; left = low })) e
