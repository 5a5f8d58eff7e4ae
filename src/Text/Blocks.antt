-- ===== src/Text/Blocks.antt =====
-- lib/string.c: memset and memmove, as the repeated string instructions carry them out.
use xv6_lab.Base.{
  ℕ, zero, suc, ◌+◌, ◌-◌, ◌*◌, ◌/◌, ◌%◌, ◌^◌, Bool, ◌==◌, ◌&&◌, leb, ltb, if◌then◌else◌, bit_or,
}
use xv6_lab.Machine.Mmu.{u32}
use xv6_lab.Text.Strings.{Bytes}

-- `u` bytes from `s` on are read and then written from `d` on: movsb with `u` = 1, movsl with 4.
abbrev pub move : (u : ℕ) → Bytes → (d s : ℕ) → Bytes
move u m d s a = if leb d a && ltb a (d + u) then m (s + (a - d)) else m a

-- `cld; rep movs`
unfoldable pub copy_up : (u n : ℕ) → Bytes → (d s : ℕ) → Bytes
copy_up u zero m d s = m
copy_up u (suc n) m d s = copy_up u n (move u m d s) (d + u) (s + u)

-- `std; rep movs`. The pointers stand at the last unit and go down. Only after the last move may they
-- pass 0, and then they are not used.
unfoldable pub copy_down : (u n : ℕ) → Bytes → (d s : ℕ) → Bytes
copy_down u zero m d s = m
copy_down u (suc n) m d s = copy_down u n (move u m d s) (d - u) (s - u)

abbrev pub is_aligned : (d s n : ℕ) → Bool
is_aligned d s n = s % 4 == 0 && (d % 4 == 0) && (n % 4 == 0)

-- The memory after memmove, and after memcpy, which calls it
unfoldable pub memmove : Bytes → (dst src n : ℕ) → Bytes
memmove m d s n =
    if ltb s d && ltb d (u32 (s + n))
    then (if is_aligned (d + n) (s + n) n
        then copy_down 4 (n / 4) m (d + n - 4) (s + n - 4)
        else copy_down 1 n m (d + n - 1) (s + n - 1))
    else if is_aligned d s n
    then copy_up 4 (n / 4) m d s
    else copy_up 1 n m d s

-- The `u` low bytes of `c`, the lowest first, are stored at `v`: stosb with `u` = 1, stosl with 4.
abbrev pub put : (u : ℕ) → Bytes → (v c : ℕ) → Bytes
put u m v c a = if leb v a && ltb a (v + u) then c / 2 ^ (8 * (a - v)) % 256 else m a

-- `cld; rep stos`
unfoldable pub fill : (u n : ℕ) → Bytes → (v c : ℕ) → Bytes
fill u zero m v c = m
fill u (suc n) m v c = fill u n (put u m v c) (v + u) c

-- `(c<<24)|(c<<16)|(c<<8)|c` of the low byte of `c`
abbrev pub spread : ℕ → ℕ
spread c = let b = c % 256 in bit_or (bit_or (bit_or (b * 2 ^ 24) (b * 2 ^ 16)) (b * 2 ^ 8)) b

unfoldable pub memset : Bytes → (v c n : ℕ) → Bytes
memset m v c n =
    if n == 0
    then m
    else if v % 4 == 0 && (n % 4 == 0)
    then fill 4 (n / 4) m v (spread c)
    else fill 1 n m v c
