-- ===== src/Text/Chunks.antt =====
-- lib/printf.c: what cprintf hands to sys_cputs.
use xv6_lab.Base.{
  ℕ, zero, suc, ◌+◌, ◌%◌, ◌≤◌, ◌<◌, ◌≡◌, refl, true, false, some, List, [], ◌∷◌, ◌++◌, arith, ◌==◌,
  length, update, map, Bool-cases, inl, inr, ap, ◌∙◌, sym, append_assoc, append_nil,
}
use xv6_lab.Text.Strings.{Bytes}
use xv6_lab.Text.Format.{shows, vprintfmt}
use xv6_lab.Text.Printf.{PrintBuf, chars, cputs_buf, putch, putch_all, vcprintf}

-- The texts of the calls, one after the other
abbrev pub joined : List (List ℕ) → List ℕ
joined [] = []
joined (xs ∷ xss) = xs ++ joined xss

-- Every call has 255 characters.
abbrev pub IsFull : List (List ℕ) → Type 0
IsFull [] = Unit {0}
IsFull (xs ∷ xss) = (length xs ≡ 255) × IsFull xss

-- Every call but the last has 255 characters, and that one fewer.
abbrev pub IsChunked : List (List ℕ) → Type 0
IsChunked [] = ⊥
IsChunked (xs ∷ []) = length xs < 255
IsChunked (xs ∷ xss) = (length xs ≡ 255) × IsChunked xss

abbrev byte_of : ℕ → ℕ
byte_of c = c % 256

joined-snoc : (xss : List (List ℕ)) (xs : List ℕ) → joined (xss ++ (xs ∷ [])) ≡ joined xss ++ xs
joined-snoc [] xs = append_nil xs
joined-snoc (ys ∷ xss) xs =
    ap (λ (zs : List ℕ). ys ++ zs) (joined-snoc xss xs) ∙ sym (append_assoc ys (joined xss) xs)

IsFull-snoc :
    (xss : List (List ℕ)) (xs : List ℕ) → IsFull xss → length xs ≡ 255 → IsFull (xss ++ (xs ∷ []))
IsFull-snoc [] xs full h = (h, tt)
IsFull-snoc (ys ∷ xss) xs (g, full) h = (g, IsFull-snoc xss xs full h)

IsChunked-snoc :
    (xss : List (List ℕ)) (xs : List ℕ)
    → IsFull xss
    → length xs < 255
    → IsChunked (xss ++ (xs ∷ []))
IsChunked-snoc [] xs full h = h
IsChunked-snoc (ys ∷ []) xs (g, full) h = (g, h)
IsChunked-snoc (ys ∷ zs ∷ xss) xs (g, full) h = (g, IsChunked-snoc (zs ∷ xss) xs full h)

length-chars : (buf : ℕ → ℕ) (i n : ℕ) → length (chars buf i n) ≡ n
length-chars buf i zero = refl
length-chars buf i (suc n) = ap suc (length-chars buf (i + 1) n)

chars-update : (buf : ℕ → ℕ) (i n j v : ℕ) → i + n ≤ j → chars (update buf j v) i n ≡ chars buf i n
chars-update buf i zero j v h = refl
chars-update buf i (suc n) j v h =
    let before : (i == j) ≡ false = ground arith in
    rw (before, chars-update buf (i + 1) n j v (omega arith)) refl

chars-last : (buf : ℕ → ℕ) (i n : ℕ) → chars buf i (suc n) ≡ chars buf i n ++ (buf (i + n) ∷ [])
chars-last buf i zero = ap (λ (j : ℕ). buf j ∷ []) (omega arith)
chars-last buf i (suc n) =
    let next : i + 1 + n ≡ i + suc n = omega arith in
    ap (λ (cs : List ℕ). buf i ∷ cs)
      (chars-last buf (i + 1) n ∙ ap (λ (j : ℕ). chars buf (i + 1) n ++ (buf j ∷ [])) next)

-- The buffer between two characters, after the characters `cs`
record Held (b : PrintBuf) (cs : List ℕ) : Type 0 where
  pub text : joined b.printed ++ chars b.buf 0 b.idx ≡ cs
  pub room : b.idx < 255
  pub full : IsFull b.printed

putch-Held :
    (c : ℕ) (b : PrintBuf) (cs : List ℕ) → Held b cs → Held (putch c b) (cs ++ (c % 256 ∷ []))
unfolding putch
putch-Held c b cs held =
    let buf' = update b.buf b.idx (c % 256) in
    let one : b.idx + 1 ≡ suc b.idx = omega arith in
    let here : (0 + b.idx == b.idx) ≡ true = ground arith in
    let stored : chars buf' 0 (b.idx + 1) ≡ chars b.buf 0 b.idx ++ (c % 256 ∷ []) =
      ap (chars buf' 0) one
      ∙ chars-last buf' 0 b.idx
      ∙ rw (chars-update b.buf 0 b.idx b.idx (c % 256) (omega arith), here) refl in
    let text : joined b.printed ++ chars buf' 0 (b.idx + 1) ≡ cs ++ (c % 256 ∷ []) =
      rw (stored, ← append_assoc (joined b.printed) (chars b.buf 0 b.idx) (c % 256 ∷ []), held.text)
        refl in
    elim (Bool-cases (b.idx + 1 == 255)) [
      | inl last ↦ rw last (record {
        text = append_nil _ ∙ joined-snoc b.printed (chars buf' 0 (b.idx + 1)) ∙ text;
        room = omega arith;
        full =
            IsFull-snoc b.printed (chars buf' 0 (b.idx + 1)) held.full
              (length-chars buf' 0 (b.idx + 1) ∙ ground arith);
      })
      | inr more ↦
          rw more (record { text = text; room = ground (arith, held.room); full = held.full })
    ]

putch_all-Held :
    (cs : List ℕ) (b : PrintBuf) (ds : List ℕ)
    → Held b ds
    → Held (putch_all cs b) (ds ++ map byte_of cs)
unfolding putch_all
putch_all-Held [] b ds held = rw (append_nil ds) held
putch_all-Held (c ∷ cs) b ds held =
    rw (← append_assoc ds (c % 256 ∷ []) (map byte_of cs))
      (putch_all-Held cs (putch c b) (ds ++ (c % 256 ∷ [])) (putch-Held c b ds held))

putch_all-count : (cs : List ℕ) (b : PrintBuf) → (putch_all cs b).cnt ≡ b.cnt + length cs
unfolding putch_all putch
putch_all-count [] b = omega arith
putch_all-count (c ∷ cs) b = putch_all-count cs (putch c b) ∙ omega arith

-- Where vprintfmt comes to its end, lib/printf.c's vcprintf hands exactly the characters that it
-- prints, as bytes and in order, to sys_cputs, by calls of 255 characters each and a last one of
-- fewer, and returns their number.
pub vcprintf-IsChunked :
    (fuel long : ℕ) (m : Bytes) (null_text : ℕ) (args buf : ℕ → ℕ) (fmt cs : List ℕ) (p q : ℕ)
    → vprintfmt fuel long m null_text args fmt p ≡ shows cs q
    → (calls : List (List ℕ)) × (vcprintf fuel long m null_text args buf fmt p
        ≡ some (length cs, calls))
      × (joined calls ≡ map byte_of cs)
      × IsChunked calls
unfolding vcprintf
vcprintf-IsChunked fuel long m null_text args buf fmt cs p q done =
    let start : PrintBuf = record { idx = 0; cnt = 0; buf = buf; printed = [] } in
    let b = putch_all cs start in
    let held = putch_all-Held cs start [] (record { text = refl; room = omega arith; full = tt }) in
    (
      cputs_buf b,
      rw done (ap (λ (n : ℕ). some (n, cputs_buf b)) (putch_all-count cs start ∙ omega arith)),
      joined-snoc b.printed (chars b.buf 0 b.idx) ∙ held.text,
      IsChunked-snoc b.printed (chars b.buf 0 b.idx) held.full
          (rw (length-chars b.buf 0 b.idx) held.room),
    )
