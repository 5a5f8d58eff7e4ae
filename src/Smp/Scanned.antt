-- ===== src/Smp/Scanned.antt =====
-- kern/mpconfig.c: what the loop of mp_init over the entries of a table leaves.
use xv6_lab.Base.{
  ℕ, zero, suc, ◌+◌, ◌≤◌, ◌<◌, ◌≡◌, ◌⊎◌, inl, inr, refl, Bool, true, false, arith, leb, ◌==◌, ◌&&◌,
  if◌then◌else◌, Bool-cases, ◌∙◌,
}
use xv6_lab.Text.Strings.{Bytes}
use xv6_lab.Smp.BootCpu.{capped}
use xv6_lab.Smp.Table.{Cpus, add_processor, scan}

-- The entries of the table, up to the first of an unknown kind: how many are processors, and whether
-- all are known.
abbrev pub processors : Bytes → (n p : ℕ) → ℕ
processors m zero p = 0
processors m (suc n) p =
    let more = processors m n (p + 20) in
    let others = processors m n (p + 8) in
    if m p == 0 then suc more else if leb (m p) 4 then others else 0

abbrev pub all_known : Bytes → (n p : ℕ) → Bool
all_known m zero p = true
all_known m (suc n) p =
    let more = all_known m n (p + 20) in
    let others = all_known m n (p + 8) in
    if m p == 0 then more else if leb (m p) 4 then others else false

-- What a scan from `c` leaves, with `found` processors more
pub record Scanned (c c' : Cpus) (found : ℕ) (known : Bool) : Type 0 where
  pub count : c'.ncpu ≡ capped (c.ncpu + found)
  pub ids : (i : ℕ) → c.ncpu ≤ i → i < c'.ncpu → c'.cpu_id i ≡ i
  pub others : (i : ℕ) → (i < c.ncpu) ⊎ (c'.ncpu ≤ i) → c'.cpu_id i ≡ c.cpu_id i
  pub ismp : c'.ismp ≡ c.ismp && known
  pub lapicaddr : c'.lapicaddr ≡ c.lapicaddr
  pub started : c'.started ≡ c.started

-- One more processor
add_processor-Scanned :
    (flags : ℕ) (c : Cpus) → c.ncpu ≤ 8 → Scanned c (add_processor flags c) 1 true
unfolding add_processor
add_processor-Scanned flags c room = record {
  count = ground arith;
  ids = λ i a b. ground arith;
  others = λ i h. ground arith;
  ismp = ground arith;
  lapicaddr = ground arith;
  started = ground arith;
}

Scanned-trans :
    {c c1 c2 : Cpus} {known : Bool} (found : ℕ)
    → c.ncpu ≤ 8
    → Scanned c c1 1 true
    → Scanned c1 c2 found known
    → Scanned c c2 (suc found) known
Scanned-trans found room first rest = record {
  count = ground (arith, first.count, rest.count);
  ids = λ i a b. ground (arith, first.count, rest.count, first.ids i, rest.ids i, rest.others i);
  others = λ i h. ground (arith, first.count, rest.count, first.others i, rest.others i);
  ismp = ground (arith, first.ismp, rest.ismp);
  lapicaddr = rest.lapicaddr ∙ first.lapicaddr;
  started = rest.started ∙ first.started;
}

unknown-Scanned : (c : Cpus) → c.ncpu ≤ 8 → Scanned c (record c { ismp = false }) 0 false
unknown-Scanned c room = record {
  count = ground arith;
  ids = λ i a b. absurd (omega arith);
  others = λ i h. refl;
  ismp = ground arith;
  lapicaddr = refl;
  started = refl;
}

pub scan-Scanned :
    (m : Bytes) (n p : ℕ) (c : Cpus)
    → c.ncpu ≤ 8
    → Scanned c (scan m n p c) (processors m n p) (all_known m n p)
unfolding scan
scan-Scanned m zero p c room = record {
  count = ground arith;
  ids = λ i a b. absurd (omega arith);
  others = λ i h. refl;
  ismp = ground arith;
  lapicaddr = refl;
  started = refl;
}
scan-Scanned m (suc n) p c room = elim (Bool-cases (m p == 0)) [
  | inl processor ↦
      let first = add_processor-Scanned (m (p + 3)) c room in
      rw processor (
        Scanned-trans (processors m n (p + 20)) room first
          (scan-Scanned m n (p + 20) (add_processor (m (p + 3)) c) (ground (arith, first.count))))
  | inr other ↦ elim (Bool-cases (leb (m p) 4)) [
    | inl known ↦ rw (other, known) (scan-Scanned m n (p + 8) c room)
    | inr unknown ↦ rw (other, unknown) (unknown-Scanned c room)
  ]
]
