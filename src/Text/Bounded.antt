-- ===== src/Text/Bounded.antt =====
-- lib/printfmt.c: vsnprintf.
use xv6_lab.Base.{
  ℕ, zero, suc, ◌+◌, ◌-◌, ◌^◌, ◌%◌, ◌≤◌, ◌<◌, ◌≡◌, refl, List, [], ◌∷◌, ltb, leb, ◌==◌, ◌&&◌, ◌||◌,
  if◌then◌else◌, update, length, arith, ◌⊎◌, ap, false,
}
use xv6_lab.Text.Strings.{Bytes}
use xv6_lab.Text.Numbers.{SprintBuf, sprintputch}
use xv6_lab.Text.Format.{Shown, shows, wild, starved, negative, vprintfmt}

-- sprintputch on the characters, in order
unfoldable pub put_all : List ℕ → SprintBuf → SprintBuf
put_all [] b = b
put_all (c ∷ cs) b = put_all cs (sprintputch c b)

-- How vsnprintf ends: with memory and a count; with -E_INVAL; or not, where vprintfmt does not.
pub data Snprintf : Type 0 where
  counted : Bytes → (cnt : ℕ) → Snprintf
  invalid : Snprintf
  unknown : Snprintf

abbrev pub into : Bytes → (buf n : ℕ) → Shown → Snprintf
into m buf n (shows cs ap) =
    let b = put_all cs (record { mem = m; buf = buf; ebuf = buf + n - 1; cnt = 0 }) in
    counted (update b.mem b.buf 0) b.cnt
into m buf n wild = unknown
into m buf n starved = unknown

-- `m` is the memory before the call, and the strings are read there: this is the code where no string
-- that is printed lies in the buffer and the buffer does not wrap.
unfoldable pub vsnprintf :
    (fuel long : ℕ)
    → Bytes
    → (null_text : ℕ) → (args : ℕ → ℕ) → (buf n : ℕ) → List ℕ
    → (ap : ℕ) → Snprintf
vsnprintf fuel long m null_text args buf n fmt ap =
    if buf == 0 || (n == 0 || negative n)
    then invalid
    else into m buf n (vprintfmt fuel long m null_text args fmt ap)

-- Character `i` of a text
abbrev pub char_at : List ℕ → ℕ → ℕ
char_at [] i = 0
char_at (c ∷ cs) zero = c
char_at (c ∷ cs) (suc i) = char_at cs i

abbrev pub min : ℕ → ℕ → ℕ
min a b = if leb a b then a else b

put_all-cnt : (cs : List ℕ) (b : SprintBuf) → (put_all cs b).cnt ≡ b.cnt + length cs
unfolding put_all sprintputch
put_all-cnt [] b = omega arith
put_all-cnt (c ∷ cs) b = ground (arith, put_all-cnt cs (sprintputch c b))

put_all-buf :
    (cs : List ℕ) (b : SprintBuf)
    → b.buf ≤ b.ebuf
    → (put_all cs b).buf ≡ b.buf + min (length cs) (b.ebuf - b.buf)
unfolding put_all sprintputch
put_all-buf [] b h = ground arith
put_all-buf (c ∷ cs) b h = ground (arith, put_all-buf cs (sprintputch c b))

char_at-step :
    (c : ℕ) (cs : List ℕ) (a b : ℕ) → b < a → char_at (c ∷ cs) (a - b) ≡ char_at cs (a - (b + 1))
char_at-step c cs a b h = let e : a - b ≡ suc (a - (b + 1)) = omega arith in rw e refl

put_all-mem :
    (cs : List ℕ) (b : SprintBuf) (a : ℕ)
    → b.buf ≤ b.ebuf
    → (put_all cs b).mem a ≡ (
        if leb b.buf a && ltb a (b.buf + min (length cs) (b.ebuf - b.buf))
        then char_at cs (a - b.buf) % 256
        else b.mem a)
unfolding put_all sprintputch
put_all-mem [] b a h = ground arith
put_all-mem (c ∷ cs) b a h =
    ground (arith, put_all-mem cs (sprintputch c b) a, char_at-step c cs a b.buf)

-- The buffer of `n` bytes at `buf` holds as much of the text as fits with a NUL after it, nothing
-- else has changed, and the count is that of the whole text.
abbrev pub Holds : Bytes → (buf n : ℕ) → List ℕ → Snprintf → Type 0
Holds m buf n cs (counted m' cnt) =
    (cnt ≡ length cs)
    × ((i : ℕ) → i < min (length cs) (n - 1) → m' (buf + i) ≡ char_at cs i % 256)
    × (m' (buf + min (length cs) (n - 1)) ≡ 0)
    × ((a : ℕ) → (a < buf) ⊎ (buf + n ≤ a) → m' a ≡ m a)
Holds m buf n cs _ = ⊥

into-Holds :
    (m : Bytes) (buf n : ℕ) (cs : List ℕ) (q : ℕ)
    → 0 < n
    → Holds m buf n cs (into m buf n (shows cs q))
into-Holds m buf n cs q h =
    let b : SprintBuf = record { mem = m; buf = buf; ebuf = buf + n - 1; cnt = 0 } in
    let end : (put_all cs b).buf ≡ buf + min (length cs) (n - 1) =
      ground (arith, put_all-buf cs b) in
    (
      omega (arith, put_all-cnt cs b),
      λ i lt. rw end (inside i lt),
      rw end (ground arith),
      λ a out. rw end (outside a out),
    )
  where
    b : SprintBuf
    b = record { mem = m; buf = buf; ebuf = buf + n - 1; cnt = 0 }

    inside :
        (i : ℕ)
        → i < min (length cs) (n - 1)
        → update (put_all cs b).mem (buf + min (length cs) (n - 1)) 0 (buf + i) ≡ char_at cs i % 256
    inside i lt =
        let e : buf + i - buf ≡ i = omega arith in
        ground (arith, put_all-mem cs b (buf + i), ap (λ t. char_at cs t % 256) e)

    outside :
        (a : ℕ)
        → (a < buf) ⊎ (buf + n ≤ a)
        → update (put_all cs b).mem (buf + min (length cs) (n - 1)) 0 a ≡ m a
    outside a out = ground (arith, put_all-mem cs b a)

-- With a buffer of n > 0 bytes that is not at NULL and ends at 2^32 at most, and a text that
-- vprintfmt prints whatever the buffer holds: vsnprintf stores the first characters of the text,
-- as many as fit before a NUL, and the NUL, changes no byte outside the buffer, and returns the
-- number of characters of the whole text.
pub vsnprintf-Holds :
    (fuel long : ℕ) (m : Bytes) (null_text : ℕ) (args : ℕ → ℕ) (buf n : ℕ) (fmt cs : List ℕ)
    (p q : ℕ)
    → 0 < buf
    → 0 < n
    → n < 2 ^ 31
    → buf + n ≤ 2 ^ 32
    → ((m' : Bytes)
        → ((a : ℕ) → (a < buf) ⊎ (buf + n ≤ a) → m' a ≡ m a)
        → vprintfmt fuel long m' null_text args fmt p ≡ shows cs q)
    → Holds m buf n cs (vsnprintf fuel long m null_text args buf n fmt p)
unfolding vsnprintf
vsnprintf-Holds fuel long m null_text args buf n fmt cs p q hb hn small room shown =
    let ok : (buf == 0 || (n == 0 || negative n)) ≡ false = ground arith in
    rw (ok, shown m (λ a h. refl)) (into-Holds m buf n cs q hn)
