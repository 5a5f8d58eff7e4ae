-- ===== src/Base/Bits.antt =====
-- The laws of `bit_or` that page table entries need. They go digit by digit.
use Prim.Native.Nat.{
  ℕ, zero, suc, ◌+◌, ◌*◌, ◌/◌, ◌%◌, ◌^◌, ◌≤◌, ◌<◌, max, bit_or, digits, bitwise, ◌-◌,
  bit_or-bitwise,
}
use mathlib.Core.Path.{◌≡◌, refl, ap, sym, ◌∙◌}
use native.Mathlib.Nat.{pow-suc}
use native.Mathlib.Omega.{arith}

module _ (z : ℕ → ℕ) (f : ℕ → ℕ → ℕ) where
  one_more : (n a b : ℕ) → a ≤ n → digits z f (suc n) a b ≡ digits z f n a b
  one_more n zero b h = elim n as (λ (k : ℕ). digits z f (suc k) 0 b ≡ digits z f k 0 b) [
    | zero ↦ refl
    | suc k ↦ refl
  ]
  one_more zero (suc a) b h = absurd (omega arith)
  one_more (suc n) (suc a) b h = omega (arith, one_more n (suc a / 2) (b / 2) (omega arith))

  -- More rounds than the first number needs change nothing.
  settled : (d a b : ℕ) → digits z f (d + a) a b ≡ bitwise z f a b
  settled zero a b = ap (λ n. digits z f n a b) {x = 0 + a} {y = a} (omega arith)
  settled (suc d) a b =
      ap (λ n. digits z f n a b) {x = suc d + a} {y = suc (d + a)} (omega arith)
      ∙ one_more (d + a) a b (omega arith)
      ∙ settled d a b

  -- The rest of the digits of `suc p` and `q`, then the lowest ones
  split_lowest :
      (p q : ℕ)
      → bitwise z f (suc p) q ≡ bitwise z f (suc p / 2) (q / 2) * 2 + f (suc p % 2) (q % 2)
  split_lowest p q =
      ap (λ (t : ℕ). t * 2 + f (suc p % 2) (q % 2))
        (ap (λ n. digits z f n (suc p / 2) (q / 2)) {x = p} {y = p - suc p / 2 + suc p / 2}
            (omega arith)
          ∙ settled (p - suc p / 2) (suc p / 2) (q / 2))

pub zero-bit_or : (b : ℕ) → bit_or 0 b ≡ b
zero-bit_or b = bit_or-bitwise 0 b

-- The lowest digit of `a | b`, and the rest.
pub bit_or_step : (a b : ℕ) → bit_or a b ≡ bit_or (a / 2) (b / 2) * 2 + max (a % 2) (b % 2)
bit_or_step zero b = omega (arith, zero-bit_or b, zero-bit_or (b / 2))
bit_or_step (suc a) b =
    bit_or-bitwise (suc a) b
    ∙ split_lowest (λ y. y) max a b
    ∙ ap (λ (t : ℕ). t * 2 + max (suc a % 2) (b % 2)) (sym (bit_or-bitwise (suc a / 2) (b / 2)))

bit_or-zero_fuel : (n a : ℕ) → a ≤ n → bit_or a 0 ≡ a
bit_or-zero_fuel n zero h = zero-bit_or 0
bit_or-zero_fuel zero (suc a) h = absurd (omega arith)
bit_or-zero_fuel (suc n) (suc a) h =
    omega (arith, bit_or_step (suc a) 0, bit_or-zero_fuel n (suc a / 2) (omega arith))

pub bit_or-zero : (a : ℕ) → bit_or a 0 ≡ a
bit_or-zero a = bit_or-zero_fuel a a (omega arith)

mul-pow_suc : (q k : ℕ) → q * 2 ^ suc k ≡ q * 2 ^ k * 2
mul-pow_suc q k = omega (arith, ap (λ (t : ℕ). q * t) (pow-suc 2 k))

abbrev Fields : (ℕ → ℕ → ℕ) → ℕ → ℕ → ℕ → ℕ → ℕ → Type 0
Fields op k p q r s = op (p * 2 ^ k + r) (q * 2 ^ k + s) ≡ op p q * 2 ^ k + op r s

-- The digits from `k` on and the digits below `k` are joined apart.
pub bit_or-Fields : (k p q r s : ℕ) → r < 2 ^ k → s < 2 ^ k → Fields bit_or k p q r s
bit_or-Fields zero p q r s hr hs =
    ground (arith, bit_or-zero 0, ap (λ t. bit_or t 0) {x = r} {y = 0} (omega arith))
bit_or-Fields (suc k) p q r s hr hs = ground (
  arith,
  bit_or_step (p * 2 ^ suc k + r) (q * 2 ^ suc k + s),
  bit_or_step r s,
  mul-pow_suc p k,
  mul-pow_suc q k,
  mul-pow_suc (bit_or p q) k,
  pow-suc 2 k,
  bit_or-Fields k p q (r / 2) (s / 2) (omega (arith, pow-suc 2 k)) (omega (arith, pow-suc 2 k)),
)

-- `a | b` fits the bits that `a` and `b` fit.
pub bit_or-lt : (k r s : ℕ) → r < 2 ^ k → s < 2 ^ k → bit_or r s < 2 ^ k
bit_or-lt zero r s hr hs = ground (arith, bit_or-zero 0)
bit_or-lt (suc k) r s hr hs = omega (
  arith,
  bit_or_step r s,
  pow-suc 2 k,
  bit_or-lt k (r / 2) (s / 2) (omega (arith, pow-suc 2 k)) (omega (arith, pow-suc 2 k)),
)

-- The page number of `a | b`
pub bit_or-page : (a b : ℕ) → bit_or a b / 4096 ≡ bit_or (a / 4096) (b / 4096)
bit_or-page a b = ground (
  arith,
  bit_or-Fields 12 (a / 4096) (b / 4096) (a % 4096) (b % 4096) (omega arith) (omega arith),
  bit_or-lt 12 (a % 4096) (b % 4096) (omega arith) (omega arith),
)
