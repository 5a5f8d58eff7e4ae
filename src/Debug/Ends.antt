-- ===== src/Debug/Ends.antt =====
-- kern/kdebug.c: stab_binsearch comes to an end.
use xv6_lab.Base.{
  ℕ, zero, suc, ◌+◌, ◌-◌, ◌*◌, ◌≤◌, ◌<◌, ◌≡◌, refl, true, false, none, some, Option, arith, ◌==◌,
  ==→eq, ltb, Bool-cases, inl, inr, ◌⊎◌, ◌∙◌, ap,
}
use xv6_lab.Machine.Mmu.{u32}
use xv6_lab.Debug.Stabs.{
  Stab, Search, back_to_type, true_m, compared, search_round, search_rounds, region, ending,
  stab_binsearch,
}

module _ (stabs : ℕ → Stab) (type : ℕ) where
  -- The entry found is among those looked at.
  back_to_type-within : (n m k : ℕ) → back_to_type stabs type n m ≡ some k → (k ≤ m) × (m < k + n)
  unfolding back_to_type
  back_to_type-within zero m k h = absurd (cc)
  back_to_type-within (suc n) m k h = elim (Bool-cases ((stabs m).n_type == type)) [
    | inl t ↦ let at : m ≡ k = ground arith in (omega (arith, at), omega (arith, at))
    | inr t ↦
        let (a, b) = back_to_type-within n (m - 1) k (ground arith) in
        (omega (arith, a), ground (arith, a, b))
  ]

  abbrev size : Search → ℕ
  size s = s.r - s.l

  abbrev here : Search → Option ℕ
  here s = back_to_type stabs type (true_m stabs type s + 1 - s.l) (true_m stabs type s)

  -- The search goes on with the same entries if the entry at its start matches the address.
  abbrev Repeats : Search → Option ℕ → Type 0
  Repeats s o = (o ≡ some s.l) × ((stabs s.l).n_value ≡ s.addr)

  compared-progress :
      (s : Search) (o : Option ℕ)
      → s.l < s.r
      → ((k : ℕ) → o ≡ some k → (s.l ≤ k) × (k ≤ true_m stabs type s))
      → (size (compared stabs type s o) < size s) ⊎ Repeats s o
  compared-progress s none more within = inl (omega arith)
  compared-progress s (some m) more within =
      let (low, high) = within m refl in
      elim (Bool-cases (ltb (stabs m).n_value s.addr)) [
        | inl below ↦ inl (rw below (omega (arith, low, high)))
        | inr not_below ↦ elim (Bool-cases (ltb s.addr (stabs m).n_value)) [
          | inl above ↦ inl (rw (not_below, above) (omega (arith, low, high)))
          | inr not_above ↦ elim (Bool-cases (s.l == m)) [
            | inl same ↦ inr (rw (==→eq s.l m same) (refl, ground arith))
            | inr other ↦ inl (rw (not_below, not_above) (ground (arith, low, high)))
          ]
        ]
      ]

  pub here-within :
      (s : Search) → s.l < s.r → (k : ℕ) → here s ≡ some k → (s.l ≤ k) × (k ≤ true_m stabs type s)
  here-within s more k h =
      let (a, b) = back_to_type-within (true_m stabs type s + 1 - s.l) (true_m stabs type s) k h in
      (omega (arith, a, b), a)

  abbrev repeated : Search → Search
  repeated s = record s { any_matches = true; left = s.l; addr = u32 (s.addr + 1) }

  search_round-repeated : (s : Search) → Repeats s (here s) → search_round stabs type s ≡ repeated s
  unfolding search_round
  search_round-repeated s (found, matches) =
      let not_below : ltb (stabs s.l).n_value s.addr ≡ false = ground arith in
      let not_above : ltb s.addr (stabs s.l).n_value ≡ false = ground arith in
      rw (found, not_below, not_above) refl

  -- In the next round the address is another one.
  repeated-progress :
      (s : Search)
      → s.l < s.r
      → Repeats s (here s)
      → size (search_round stabs type (repeated s)) < size s
  unfolding search_round
  repeated-progress s more (found, matches) =
      elim (compared-progress (repeated s) (here s) more (here-within s more)) [
        | inl less ↦ less
        | inr (_, again) ↦ absurd (omega (arith, again, matches))
      ]

  search_round-progress :
      (s : Search) → s.l < s.r → (size (search_round stabs type s) < size s) ⊎ Repeats s (here s)
  unfolding search_round
  search_round-progress s more = compared-progress s (here s) more (here-within s more)

  search_rounds-stops :
      (f : ℕ) (s : Search) → ltb s.l s.r ≡ false → search_rounds stabs type (suc f) s ≡ some s
  unfolding search_rounds
  search_rounds-stops f s stop = rw stop refl

  search_rounds-goes :
      (f : ℕ) (s : Search)
      → ltb s.l s.r ≡ true
      → search_rounds stabs type (suc f) s ≡ search_rounds stabs type f (search_round stabs type s)
  unfolding search_rounds
  search_rounds-goes f s more = rw more refl

  abbrev EndsIn : ℕ → Search → Type 0
  EndsIn f s = (s' : Search) × (search_rounds stabs type f s ≡ some s')

  search_rounds-EndsIn : (n f : ℕ) (s : Search) → size s ≤ n → 2 * n + 1 ≤ f → EndsIn f s
  search_rounds-EndsIn n zero s small fuel = absurd (omega arith)
  search_rounds-EndsIn zero (suc f) s small fuel = (s, search_rounds-stops f s (ground arith))
  search_rounds-EndsIn (suc n) (suc zero) s small fuel = absurd (omega arith)
  search_rounds-EndsIn (suc n) (suc (suc f)) s small fuel = elim (Bool-cases (ltb s.l s.r)) [
    | inr stop ↦ (s, search_rounds-stops (suc f) s stop)
    | inl more ↦ elim (search_round-progress s (ground arith)) [
      | inl less ↦
          let (s', ends) =
            search_rounds-EndsIn n (suc f) (search_round stabs type s) (omega (arith, less))
              (omega arith) in
          (s', search_rounds-goes (suc f) s more ∙ ends)
      | inr again ↦
          let (s', ends) =
            search_rounds-EndsIn n f (search_round stabs type (repeated s))
              (omega (arith, repeated-progress s (ground arith) again)) (omega arith) in
          (
            s',
            search_rounds-goes (suc f) s more
                ∙ (ap (search_rounds stabs type (suc f)) (search_round-repeated s again)
                    ∙ (search_rounds-goes f (repeated s) more ∙ ends)),
          )
    ]
  ]

-- On every table, sorted or not, stab_binsearch ends: two rounds for each entry of the region and
-- one more are enough.
pub stab_binsearch-ends :
    (stabs : ℕ → Stab) (type fuel left right addr : ℕ)
    → 2 * (right - left) + 1 ≤ fuel
    → (ends : ℕ × ℕ) × (stab_binsearch stabs type fuel left right addr ≡ some ends)
unfolding stab_binsearch
stab_binsearch-ends stabs type fuel left right addr enough =
    let start : Search = record {
      l = left;
      r = right;
      left = left;
      right = right;
      any_matches = false;
      addr = addr;
    } in
    let (s', ends) =
      search_rounds-EndsIn stabs type (right - left) fuel start (omega arith) enough in
    (region stabs type s', ap (ending stabs type) ends)
