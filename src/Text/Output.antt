-- ===== src/Text/Output.antt =====
-- lib/printfmt.c: vprintfmt ends.
use xv6_lab.Base.{
  ℕ, zero, suc, ◌+◌, ◌-◌, ◌^◌, ◌≤◌, ◌<◌, ◌≡◌, refl, ◌⊎◌, inl, inr, Bool, true, false, Option, none,
  some, List, [], ◌∷◌, ltb, leb, not, ◌==◌, ◌&&◌, if◌then◌else◌, length, arith, Bool-cases,
}
use xv6_lab.Machine.Mmu.{u32}
use xv6_lab.Text.Strings.{Bytes, strnlen}
use xv6_lab.Text.Format.{
  Spec, start, reswitch, Escape, at, ended, escape, advance, Shown, shows, wild, starved, prepend,
  put_string, padded, string, negative, positive_part, known_error, error, error_string, Conversion,
  known, literal, convert, followed, continue, perform, spelled, vprintfmt, signed,
}

-- A NUL comes within `n` bytes from `p` on.
abbrev pub Ends : Bytes → (n p : ℕ) → Type 0
Ends m zero p = ⊥
Ends m (suc n) p = (m p ≡ 0) ⊎ Ends m n (u32 (p + 1))

prepend-some :
    (c : ℕ) (o : Option (List ℕ))
    → (cs : List ℕ) × (o ≡ some cs)
    → (ds : List ℕ) × (prepend c o ≡ some ds)
prepend-some c none (cs, e) = cc
prepend-some c (some ds) h = (c ∷ ds, refl)

put_string-some :
    (n : ℕ) (m : Bytes) (p precision : ℕ) (alt : Bool)
    → Ends m n p
    → (cs : List ℕ) × (put_string n m p precision alt ≡ some cs)
unfolding put_string
put_string-some zero m p precision alt h = elim h [ ]
put_string-some (suc n) m p precision alt h = elim (Bool-cases (m p == 0)) [
  | inl z ↦ ([], rw z refl)
  | inr nz ↦ elim (Bool-cases (precision == 0)) [
    | inl z ↦ ([], rw (nz, z) refl)
    | inr more ↦
        rw (nz, more)
          (prepend-some _ _ (
            put_string-some n m (u32 (p + 1))
              (if negative precision then precision else precision - 1) alt
              (elim h [ inl z ↦ absurd (ground arith) | inr r ↦ r ])))
  ]
]

-- The printing ended, or came to a read outside the memory that is known.
abbrev pub Ended : Shown → Type 0
Ended (shows cs ap) = Unit
Ended wild = Unit
Ended starved = ⊥

followed-Ended : (cs : List ℕ) (r : Shown) → Ended r → Ended (followed cs r)
followed-Ended cs (shows ds ap) h = tt
followed-Ended cs wild h = tt
followed-Ended cs starved h = elim h [ ]

continue-Ended :
    (r : Shown) (f : ℕ → Shown) → Ended r → ((ap : ℕ) → Ended (f ap)) → Ended (continue r f)
continue-Ended (shows cs ap) f h g = followed-Ended cs (f ap) (g ap)
continue-Ended wild f h g = tt
continue-Ended starved f h g = elim h [ ]

-- The text after an escape sequence has fewer than `n` characters.
abbrev Shorter : ℕ → Escape → Type 0
Shorter n (at c t rest) = length rest < n
Shorter n (ended ap) = Unit

Shorter-suc : (n : ℕ) (e : Escape) → Shorter n e → Shorter (suc n) e
Shorter-suc n (at c t rest) h = omega arith
Shorter-suc n (ended ap) h = tt

advance-Shorter :
    (c : ℕ) (s : Spec) (cs : List ℕ) (f : Spec → Escape) (o : Option Spec)
    → ((t : Spec) → Shorter (length cs) (f t))
    → Shorter (length (c ∷ cs)) (advance c s cs f o)
advance-Shorter c s cs f none h = omega arith
advance-Shorter c s cs f (some t) h = Shorter-suc (length cs) (f t) (h t)

escape-Shorter : (args : ℕ → ℕ) (s : Spec) (cs : List ℕ) → Shorter (length cs) (escape args s cs)
unfolding escape
escape-Shorter args s [] = tt
escape-Shorter args s (d ∷ cs) =
    advance-Shorter d s cs _ (reswitch args d s) λ t. escape-Shorter args t cs

abbrev Sound : Conversion → Type 0
Sound (known r) = Ended r
Sound literal = Unit

if-Sound : (b : Bool) (x y : Conversion) → Sound x → Sound y → Sound (if b then x else y)
if-Sound true x y p q = p
if-Sound false x y p q = q

padded-Ended : (s : Spec) (len : ℕ) (cs : List ℕ) → Ended (padded s len (some cs))
padded-Ended s len cs = elim (Bool-cases (ltb 0 (positive_part s.width) && not (s.padc == b'-'))) [
  | inl h ↦ rw h tt
  | inr h ↦ rw h tt
]

signed-Ended : (s : Spec) (base : ℕ) (r : ℕ × ℕ) → Ended (signed s base r)
signed-Ended s base (num, ap) = elim (Bool-cases (leb (2 ^ 63) num)) [
  | inl h ↦ rw h tt
  | inr h ↦ rw h tt
]

known_error-Ended : (o : Option (List ℕ)) (err ap : ℕ) → Ended (known_error o err ap)
known_error-Ended none err ap = tt
known_error-Ended (some text) err ap = tt

if-Ended : (b : Bool) (x y : Shown) → Ended x → Ended y → Ended (if b then x else y)
if-Ended true x y p q = p
if-Ended false x y p q = q

error-Ended : (args : ℕ → ℕ) (s : Spec) → Ended (error args s)
unfolding error
error-Ended args s =
    let w = u32 (args s.ap) in
    let err = if negative w then u32 (2 ^ 32 - w) else w in
    if-Ended (negative err) wild
      (known_error (if leb 9 err then none else error_string err) err (s.ap + 1)) tt
      (known_error-Ended (if leb 9 err then none else error_string err) err (s.ap + 1))

module _ (long : ℕ) (m : Bytes) (null_text : ℕ) (args : ℕ → ℕ) (null : Ends m long null_text)
    (strings : (i : ℕ) → Ends m long (u32 (args i))) where
  string-Ended : (s : Spec) → Ended (string long m null_text args s)
  unfolding string
  string-Ended s =
      let p = if u32 (args s.ap) == 0 then null_text else u32 (args s.ap) in
      let (cs, e) =
        put_string-some long m p s.precision s.altflag (chosen (u32 (args s.ap) == 0) s.ap) in
      rw e (padded-Ended s (strnlen m p s.precision) cs)
    where
      chosen : (b : Bool) (i : ℕ) → Ends m long (if b then null_text else u32 (args i))
      chosen true i = null
      chosen false i = strings i

  convert-Sound : (c : ℕ) (s : Spec) → Sound (convert long m null_text args c s)
  unfolding convert
  convert-Sound c s = search (if-Sound, error-Ended, string-Ended, signed-Ended) depth 20

  perform-Ended :
      (print : List ℕ → ℕ → Shown) (cs rest : List ℕ) (ap : ℕ) (o : Conversion)
      → Sound o
      → ((ap : ℕ) → Ended (print rest ap))
      → Ended (print cs ap)
      → Ended (perform print cs ap rest o)
  perform-Ended print cs rest ap (known r) h g l = continue-Ended r (print rest) h g
  perform-Ended print cs rest ap literal h g l = followed-Ended (b'%' ∷ []) (print cs ap) l

  spelled-Ended :
      (print : List ℕ → ℕ → Shown) (cs : List ℕ) (e : Escape)
      → Shorter (length cs) e
      → ((rest : List ℕ) (ap : ℕ) → length rest ≤ length cs → Ended (print rest ap))
      → Ended (spelled long m null_text args print cs e)
  spelled-Ended print cs (at c s rest) h g =
      perform-Ended print cs rest s.ap (convert long m null_text args c s) (convert-Sound c s)
        (λ i. g rest i (omega arith)) (g cs s.ap (omega arith))
  spelled-Ended print cs (ended ap) h g =
      followed-Ended (b'%' ∷ []) (print cs ap) (g cs ap (omega arith))

  -- With one round of fuel more than the format has characters, and the strings among the
  -- arguments ending within the rounds given to a string, vprintfmt ends on every format.
  pub vprintfmt-Ended :
      (f : ℕ) (fmt : List ℕ) (ap : ℕ)
      → length fmt < f
      → Ended (vprintfmt f long m null_text args fmt ap)
  unfolding vprintfmt
  vprintfmt-Ended zero fmt ap h = absurd (omega arith)
  vprintfmt-Ended (suc f) [] ap h = tt
  vprintfmt-Ended (suc f) (c ∷ cs) ap h = elim (Bool-cases (c == b'%')) [
    | inl e ↦ rw e (
        spelled-Ended (vprintfmt f long m null_text args) cs _ (escape-Shorter args (start ap) cs)
          λ rest i b. vprintfmt-Ended f rest i (omega arith))
    | inr e ↦ rw e (followed-Ended (c ∷ []) _ (vprintfmt-Ended f cs ap (omega arith)))
  ]
