-- ===== src/Text/Moving.antt =====
-- lib/string.c: what memmove and memset leave in memory.
use xv6_lab.Base.{
  ℕ, zero, suc, ◌+◌, ◌-◌, ◌*◌, ◌/◌, ◌%◌, ◌^◌, ◌≤◌, ◌<◌, ◌≡◌, ◌⊎◌, inl, inr, refl, ◌&&◌, leb, ltb,
  if◌then◌else◌, arith, Bool-cases, ap, subst, ◌∙◌,
}
use xv6_lab.Text.Strings.{Bytes}
use xv6_lab.Text.Blocks.{move, copy_up, copy_down, memmove, is_aligned}

-- Byte `a` once `n` bytes from `s` on have been brought to `d`
abbrev pub moved : Bytes → (d s n a : ℕ) → ℕ
moved m d s n a = if leb d a && ltb a (d + n) then m (s + (a - d)) else m a

suc-units : (n u : ℕ) → suc n * u ≡ n * u + u
suc-units n u = omega arith

-- One unit, then `w` more bytes, none of which the first unit overwrote
moved-up :
    (u w : ℕ) (m : Bytes) (d s a : ℕ)
    → (d ≤ s) ⊎ (s + (w + u) ≤ d)
    → moved (move u m d s) (d + u) (s + u) w a ≡ moved m d s (w + u) a
moved-up u w m d s a h = elim (Bool-cases (leb (d + u) a)) [
  | inl ge ↦
      let step : s + u + (a - (d + u)) ≡ s + (a - d) = ground arith in ground (arith, h, ap m step)
  | inr lt ↦ ground (arith, h)
]

copy_up_lem :
    (u n : ℕ) (m : Bytes) (d s a : ℕ)
    → (d ≤ s) ⊎ (s + n * u ≤ d)
    → copy_up u n m d s a ≡ moved m d s (n * u) a
unfolding copy_up
copy_up_lem u zero m d s a h = ground arith
copy_up_lem u (suc n) m d s a h =
    copy_up_lem u n (move u m d s) (d + u) (s + u) a (ground (arith, h, suc-units n u))
    ∙ rw (suc-units n u) (moved-up u (n * u) m d s a (ground (arith, h, suc-units n u)))

-- Going down, the last unit comes first.
moved-down :
    (u w : ℕ) (m : Bytes) (d s a : ℕ)
    → s ≤ d
    → moved (move u m (d + w) (s + w)) d s w a ≡ moved m d s (w + u) a
moved-down u w m d s a h = elim (Bool-cases (leb (d + w) a)) [
  | inl ge ↦
      let step : s + w + (a - (d + w)) ≡ s + (a - d) = ground arith in ground (arith, h, ap m step)
  | inr lt ↦ ground (arith, h)
]

copy_down_lem :
    (u n : ℕ) (m : Bytes) (d s a : ℕ)
    → s ≤ d
    → copy_down u n m (d + n * u - u) (s + n * u - u) a ≡ moved m d s (n * u) a
unfolding copy_down
copy_down_lem u zero m d s a h = ground arith
copy_down_lem u (suc n) m d s a h =
    let at : (x : ℕ) → x + suc n * u - u ≡ x + n * u = λ x. omega (arith, suc-units n u) in
    rw (at d, at s, suc-units n u)
      (copy_down_lem u n (move u m (d + n * u) (s + n * u)) d s a h
        ∙ moved-down u (n * u) m d s a h)

module _ (m : Bytes) (d s n a : ℕ) where
  words-up : n % 4 ≡ 0 → (d ≤ s) ⊎ (s + n ≤ d) → copy_up 4 (n / 4) m d s a ≡ moved m d s n a
  words-up q h =
      let all : n / 4 * 4 ≡ n = omega arith in
      copy_up_lem 4 (n / 4) m d s a (rw all h) ∙ rw all refl

  bytes-up : (d ≤ s) ⊎ (s + n ≤ d) → copy_up 1 n m d s a ≡ moved m d s n a
  bytes-up h = let all : n * 1 ≡ n = omega arith in copy_up_lem 1 n m d s a (rw all h) ∙ rw all refl

  words-down : n % 4 ≡ 0 → s ≤ d → copy_down 4 (n / 4) m (d + n - 4) (s + n - 4) a ≡ moved m d s n a
  words-down q h =
      let all : n / 4 * 4 ≡ n = omega arith in
      subst (λ w. copy_down 4 (n / 4) m (d + w - 4) (s + w - 4) a ≡ moved m d s w a) all
        (copy_down_lem 4 (n / 4) m d s a h)

  bytes-down : s ≤ d → copy_down 1 n m (d + n - 1) (s + n - 1) a ≡ moved m d s n a
  bytes-down h =
      let all : n * 1 ≡ n = omega arith in
      subst (λ w. copy_down 1 n m (d + w - 1) (s + w - 1) a ≡ moved m d s w a) all
        (copy_down_lem 1 n m d s a h)

  -- memmove copies the source block as it was before to the destination block, also where they
  -- overlap, and changes no other byte, for a source that ends below 2^32 and a destination that
  -- ends at 2^32 at most.
  pub memmove-moved : s + n < 2 ^ 32 → d + n ≤ 2 ^ 32 → memmove m d s n a ≡ moved m d s n a
  unfolding memmove
  memmove-moved small room =
      let exact : (s + n) % 2 ^ 32 ≡ s + n = omega arith in
      rw exact (elim (Bool-cases (ltb s d && ltb d (s + n))) [
        | inl over ↦ elim (Bool-cases (is_aligned (d + n) (s + n) n)) [
          | inl w ↦ rw (over, w) (words-down (ground arith) (ground arith))
          | inr w ↦ rw (over, w) (bytes-down (ground arith))
        ]
        | inr apart ↦ elim (Bool-cases (is_aligned d s n)) [
          | inl w ↦ rw (apart, w) (words-up (ground arith) (ground arith))
          | inr w ↦ rw (apart, w) (bytes-up (ground arith))
        ]
      ])
