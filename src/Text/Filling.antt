-- ===== src/Text/Filling.antt =====
-- lib/string.c: what memset leaves in memory.
use xv6_lab.Base.{
  ℕ, zero, suc, ◌+◌, ◌-◌, ◌*◌, ◌/◌, ◌%◌, ◌^◌, ◌<◌, ◌≡◌, inl, inr, refl, ◌==◌, ◌&&◌, leb, ltb,
  if◌then◌else◌, arith, Bool-cases, ◌∙◌,
}
use xv6_lab.Base.Bits.{bit_or-Fields, bit_or-zero, zero-bit_or}
use xv6_lab.Text.Strings.{Bytes}
use xv6_lab.Text.Blocks.{put, fill, memset, spread}

-- Byte `a` once the `n` bytes from `v` on have been set to `b`
abbrev pub set_to : Bytes → (v b n a : ℕ) → ℕ
set_to m v b n a = if leb v a && ltb a (v + n) then b else m a

spread_lem : (c : ℕ) → spread c ≡ c % 256 * 16843009
spread_lem c = ground (
  arith,
  bit_or-Fields 24 (c % 256) 0 0 (c % 256 * 2 ^ 16) (omega arith) (omega arith),
  bit_or-Fields 16 (c % 256 * 257) 0 0 (c % 256 * 2 ^ 8) (omega arith) (omega arith),
  bit_or-Fields 8 (c % 256 * 65793) 0 0 (c % 256) (omega arith) (omega arith),
  bit_or-zero (c % 256),
  bit_or-zero (c % 256 * 257),
  bit_or-zero (c % 256 * 65793),
  zero-bit_or (c % 256 * 2 ^ 16),
  zero-bit_or (c % 256 * 2 ^ 8),
  zero-bit_or (c % 256),
)

fill_lem :
    (u n : ℕ) (m : Bytes) (v c b a : ℕ)
    → ((i : ℕ) → i < u → c / 2 ^ (8 * i) % 256 ≡ b)
    → fill u n m v c a ≡ set_to m v b (n * u) a
unfolding fill
fill_lem u zero m v c b a h = ground arith
fill_lem u (suc n) m v c b a h =
    let units : suc n * u ≡ n * u + u = omega arith in
    fill_lem u n (put u m v c) (v + u) c b a h ∙ rw units (ground (arith, h (a - v)))

byte_of_word : (b i : ℕ) → b < 256 → i < 4 → b * 16843009 / 2 ^ (8 * i) % 256 ≡ b
byte_of_word b zero h l = omega arith
byte_of_word b (suc zero) h l = omega arith
byte_of_word b (suc (suc zero)) h l = omega arith
byte_of_word b (suc (suc (suc zero))) h l = omega arith
byte_of_word b (suc (suc (suc (suc i)))) h l = absurd (omega arith)

byte_of_byte : (c i : ℕ) → i < 1 → c / 2 ^ (8 * i) % 256 ≡ c % 256
byte_of_byte c zero l = omega arith
byte_of_byte c (suc i) l = absurd (omega arith)

-- memset, by words or by bytes, sets the n bytes from v on to the low byte of c and no other byte.
pub memset-set_to : (m : Bytes) (v c n a : ℕ) → memset m v c n a ≡ set_to m v (c % 256) n a
unfolding memset
memset-set_to m v c n a = elim (Bool-cases (n == 0)) [
  | inl z ↦ rw z (ground arith)
  | inr z ↦ elim (Bool-cases (v % 4 == 0 && (n % 4 == 0))) [
    | inl w ↦
        let all : n / 4 * 4 ≡ n = ground arith in
        rw (z, w, spread_lem c)
          (fill_lem 4 (n / 4) m v _ (c % 256) a (λ i l. byte_of_word (c % 256) i (omega arith) l)
            ∙ rw all refl)
    | inr w ↦
        let all : n * 1 ≡ n = omega arith in
        rw (z, w) (fill_lem 1 n m v c (c % 256) a (byte_of_byte c) ∙ rw all refl)
  ]
]
