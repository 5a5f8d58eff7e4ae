-- ===== src/Text/Strings.antt =====
-- lib/string.c: the functions on strings.
--
-- A loop that runs to the NUL of its string takes fuel and is `none` when that runs out. A loop with a
-- bound on its rounds is a recursion on the bound.
use xv6_lab.Base.{
  ℕ, zero, suc, ◌+◌, ◌-◌, Option, none, some, ◌==◌, ◌&&◌, ◌||◌, not, ltb, if◌then◌else◌, update,
}

abbrev pub Bytes : Type 0
Bytes = ℕ → ℕ

abbrev pub next : Option ℕ → Option ℕ
next none = none
next (some n) = some (suc n)

unfoldable pub strlen : (fuel : ℕ) → Bytes → ℕ → Option ℕ
strlen zero m s = none
strlen (suc f) m s = let rest = strlen f m (s + 1) in if m s == 0 then some 0 else next rest

unfoldable pub strnlen : Bytes → (s size : ℕ) → ℕ
strnlen m s zero = 0
strnlen m s (suc size) = let rest = strnlen m (s + 1) size in if m s == 0 then 0 else suc rest

-- The result is the memory; the function returns `dst`.
unfoldable pub strcpy : (fuel : ℕ) → Bytes → (dst src : ℕ) → Option Bytes
strcpy zero m dst src = none
strcpy (suc f) m dst src =
    let m' = update m dst (m src) in
    let rest = strcpy f m' (dst + 1) (src + 1) in if m src == 0 then some m' else rest

abbrev pub strcat_at : (fuel : ℕ) → Bytes → (dst src : ℕ) → Option ℕ → Option Bytes
strcat_at f m dst src none = none
strcat_at f m dst src (some len) = strcpy f m (dst + len) src

unfoldable pub strcat : (fuel : ℕ) → Bytes → (dst src : ℕ) → Option Bytes
strcat f m dst src = strcat_at f m dst src (strlen f m dst)

unfoldable pub strncpy : Bytes → (dst src size : ℕ) → Bytes
strncpy m dst src zero = m
strncpy m dst src (suc size) =
    let m' = update m dst (m src) in
    strncpy m' (dst + 1) (if m' src == 0 then src else src + 1) size

-- The loop of strlcpy, with `size` bytes left: the memory and the last `dst`
unfoldable pub strlcpy_rounds : Bytes → (dst src size : ℕ) → Bytes × ℕ
strlcpy_rounds m dst src zero = (m, dst)
strlcpy_rounds m dst src (suc zero) = (m, dst)
strlcpy_rounds m dst src (suc (suc size)) =
    let rest = strlcpy_rounds (update m dst (m src)) (dst + 1) (src + 1) (suc size) in
    if m src == 0 then (m, dst) else rest

abbrev pub terminate : Bytes × ℕ → ℕ → Bytes × ℕ
terminate (m, d) dst = (update m d 0, d - dst)

-- The memory and the result
unfoldable pub strlcpy : Bytes → (dst src size : ℕ) → Bytes × ℕ
strlcpy m dst src size = if size == 0 then (m, 0) else terminate (strlcpy_rounds m dst src size) dst

-- The difference of two bytes: `inl d` is `d`, `inr d` is its negative.
pub data Difference : Type 0 where
  same : Difference
  more : ℕ → Difference
  less : ℕ → Difference

abbrev pub difference : ℕ → ℕ → Difference
difference a b = if a == b then same else if ltb b a then more (a - b) else less (b - a)

unfoldable pub strcmp : (fuel : ℕ) → Bytes → (p q : ℕ) → Option Difference
strcmp zero m p q = none
strcmp (suc f) m p q =
    let rest = strcmp f m (p + 1) (q + 1) in
    if not (m p == 0) && (m p == m q) then rest else some (difference (m p) (m q))

unfoldable pub strncmp : Bytes → (p q n : ℕ) → Difference
strncmp m p q zero = same
strncmp m p q (suc n) =
    let rest = strncmp m (p + 1) (q + 1) n in
    if not (m p == 0) && (m p == m q) then rest else difference (m p) (m q)

-- The place of the first `c` or of the NUL, whichever comes first
unfoldable pub strfind : (fuel : ℕ) → Bytes → (s c : ℕ) → Option ℕ
strfind zero m s c = none
strfind (suc f) m s c =
    let rest = strfind f m (s + 1) c in if m s == 0 || (m s == c) then some s else rest

-- The inner `none` is the null pointer.
unfoldable pub strchr : (fuel : ℕ) → Bytes → (s c : ℕ) → Option (Option ℕ)
strchr zero m s c = none
strchr (suc f) m s c =
    let rest = strchr f m (s + 1) c in
    if m s == 0 then some none else if m s == c then some (some s) else rest

unfoldable pub memcmp : Bytes → (v1 v2 n : ℕ) → Difference
memcmp m v1 v2 zero = same
memcmp m v1 v2 (suc n) =
    let rest = memcmp m (v1 + 1) (v2 + 1) n in
    if m v1 == m v2 then rest else difference (m v1) (m v2)

-- `ends` when no byte equals `c`
unfoldable pub memfind : Bytes → (s c n : ℕ) → ℕ
memfind m s c zero = s
memfind m s c (suc n) = let rest = memfind m (s + 1) c n in if m s == c then s else rest
