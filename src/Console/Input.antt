-- ===== src/Console/Input.antt =====
-- kern/console.c: the circular buffer of the console's input.
use xv6_lab.Base.{
  append_assoc, append_nil, ℕ, suc, ◌+◌, ◌%◌, ◌≤◌, ◌<◌, ◌≡◌, refl, true, false, List, [], ◌∷◌, ◌++◌,
  length, ◌==◌, if◌then◌else◌, update, arith, Bool-cases, inl, inr, ap, subst, ◌∙◌, sym,
  length-append, ==-refl,
}

abbrev pub consbufsize : ℕ
consbufsize = 512

pub record Cons : Type 0 where
  pub buf : ℕ → ℕ
  pub rpos : ℕ
  pub wpos : ℕ

-- `pos++`, back to 0 at the end of the buffer
abbrev pub advance : ℕ → ℕ
advance pos = if pos + 1 == consbufsize then 0 else pos + 1

-- One round of cons_intr, with the character `c` in a uint8_t
unfoldable pub put_char : ℕ → Cons → Cons
put_char c cons = if c == 0 then cons else record {
  buf = update cons.buf cons.wpos (c % 256);
  rpos = cons.rpos;
  wpos = advance cons.wpos;
}

-- `answers` are what `proc` returns, up to the first -1.
unfoldable pub cons_intr : (answers : List ℕ) → Cons → Cons
cons_intr [] cons = cons
cons_intr (c ∷ cs) cons = cons_intr cs (put_char c cons)

abbrev pub take_char : Cons → ℕ × Cons
take_char cons =
    if cons.rpos == cons.wpos
    then (0, cons)
    else (cons.buf cons.rpos, record { buf = cons.buf; rpos = advance cons.rpos; wpos = cons.wpos })

-- `serial` and `kbd` are what the devices answer when they are polled.
unfoldable pub cons_getc : (serial kbd : List ℕ) → Cons → ℕ × Cons
cons_getc serial kbd cons = take_char (cons_intr kbd (cons_intr serial cons))

-- From `pos` on the buffer holds `xs`, round its end.
abbrev pub Stored : (ℕ → ℕ) → (pos : ℕ) → List ℕ → Type 0
Stored buf pos [] = Unit
Stored buf pos (x ∷ xs) = (buf (pos % 512) ≡ x) × Stored buf (pos + 1) xs

-- `xs` are the characters that wait in the buffer, the oldest first.
pub record Holds (cons : Cons) (xs : List ℕ) : Type 0 where
  pub front : cons.rpos < 512
  pub back : cons.wpos ≡ (cons.rpos + length xs) % 512
  pub fits : length xs < 512
  pub held : Stored cons.buf cons.rpos xs

-- The characters among the answers of a device: 0 is none.
abbrev pub chars : List ℕ → List ℕ
chars [] = []
chars (c ∷ cs) = if c == 0 then chars cs else c % 256 ∷ chars cs

Stored-wrap :
    (buf : ℕ → ℕ) (p q : ℕ) (xs : List ℕ) → p % 512 ≡ q % 512 → Stored buf p xs → Stored buf q xs
Stored-wrap buf p q [] e r = tt
Stored-wrap buf p q (x ∷ xs) e (h, r) =
    (ap buf (sym e) ∙ h, Stored-wrap buf (p + 1) (q + 1) xs (omega (arith, e)) r)

Stored-update :
    (buf : ℕ → ℕ) (pos w v : ℕ) (xs : List ℕ)
    → pos + length xs ≤ w
    → w < pos + 512
    → Stored buf pos xs
    → Stored (update buf (w % 512) v) pos xs
Stored-update buf pos w v [] h b r = tt
Stored-update buf pos w v (x ∷ xs) h b (e, r) =
    let other : (pos % 512 == w % 512) ≡ false = ground arith in
    (rw other e, Stored-update buf (pos + 1) w v xs (omega arith) (omega arith) r)

Stored-append :
    (buf : ℕ → ℕ) (pos v : ℕ) (xs : List ℕ)
    → Stored buf pos xs
    → buf ((pos + length xs) % 512) ≡ v
    → Stored buf pos (xs ++ v ∷ [])
Stored-append buf pos v [] r e =
    (ap (λ i. buf (i % 512)) {x = pos} {y = pos + 0} (omega arith) ∙ e, tt)
Stored-append buf pos v (x ∷ xs) (h, r) e = (
  h,
  Stored-append buf (pos + 1) v xs r (
      ap (λ i. buf (i % 512)) {x = pos + 1 + length xs} {y = pos + suc (length xs)} (omega arith)
      ∙ e),
)

put_char-Holds :
    (c : ℕ) (cons : Cons) (xs : List ℕ)
    → (c == 0) ≡ false
    → Holds cons xs
    → length xs + 1 < 512
    → Holds (put_char c cons) (xs ++ c % 256 ∷ [])
unfolding put_char
put_char-Holds c cons xs h holds room = rw h (record {
  front = holds.front;
  back = ground (arith, holds.back, length-append xs (c % 256 ∷ []));
  fits = ground (arith, length-append xs (c % 256 ∷ []));
  held =
      let at : ℕ = (cons.rpos + length xs) % 512 in
      rw holds.back (
        Stored-append (update cons.buf at (c % 256)) cons.rpos (c % 256) xs
          (Stored-update cons.buf cons.rpos (cons.rpos + length xs) (c % 256) xs (omega arith)
            (omega (arith, holds.fits)) holds.held)
          (rw (==-refl at) refl));
})

-- cons_intr appends the characters among the answers of the device to those that wait, if fewer
-- than 512 wait in the end.
pub cons_intr-Holds :
    (answers : List ℕ) (cons : Cons) (xs : List ℕ)
    → Holds cons xs
    → length (xs ++ chars answers) < 512
    → Holds (cons_intr answers cons) (xs ++ chars answers)
unfolding cons_intr
cons_intr-Holds [] cons xs holds room = rw (append_nil xs) holds
cons_intr-Holds (c ∷ cs) cons xs holds room = elim (Bool-cases (c == 0)) [
  | inl z ↦
      let less : length (xs ++ chars cs) < 512 =
        subst (λ ys. length (xs ++ ys) < 512) (skipped z) room in
      rw (skipped z, skip_lem z) (cons_intr-Holds cs cons xs holds less)
  | inr z ↦
      let assoc = append_assoc xs (c % 256 ∷ []) (chars cs) in
      let less : length ((xs ++ c % 256 ∷ []) ++ chars cs) < 512 =
        subst (λ ys. length ys < 512) (ap (λ ys. xs ++ ys) (kept z) ∙ sym assoc) room in
      let one : length xs + 1 < 512 = ground (
        arith,
        less,
        length-append (xs ++ c % 256 ∷ []) (chars cs),
        length-append xs (c % 256 ∷ []),
      ) in
      rw (kept z, ← assoc)
        (cons_intr-Holds cs (put_char c cons) (xs ++ c % 256 ∷ [])
          (put_char-Holds c cons xs z holds one) less)
]
  where
    skipped : (c == 0) ≡ true → chars (c ∷ cs) ≡ chars cs
    skipped z = rw z refl

    kept : (c == 0) ≡ false → chars (c ∷ cs) ≡ c % 256 ∷ chars cs
    kept z = rw z refl

    skip_lem : (c == 0) ≡ true → put_char c cons ≡ cons
    skip_lem z = unfold put_char in rw z refl

-- What is taken is the oldest character that waits, or 0 if none waits.
abbrev pub Taken : List ℕ → ℕ × Cons → Type 0
Taken [] (c, cons) = (c ≡ 0) × Holds cons []
Taken (x ∷ xs) (c, cons) = (c ≡ x) × Holds cons xs

take_char-Taken : (cons : Cons) (xs : List ℕ) → Holds cons xs → Taken xs (take_char cons)
take_char-Taken cons [] h =
    let empty : (cons.rpos == cons.wpos) ≡ true = ground (arith, h.front, h.back) in
    rw empty (refl, h)
take_char-Taken cons (x ∷ xs) h =
    let some_left : (cons.rpos == cons.wpos) ≡ false = ground (arith, h.front, h.back, h.fits) in
    rw some_left (
      ap cons.buf {x = cons.rpos} {y = cons.rpos % 512} (omega (arith, h.front)) ∙ h.held.0,
      record {
        front = ground (arith, h.front);
        back = ground (arith, h.front, h.back);
        fits = ground (arith, h.fits);
        held =
            Stored-wrap cons.buf (cons.rpos + 1) (advance cons.rpos) xs (ground (arith, h.front))
              h.held.1;
      },
    )

-- The console's circular buffer is a queue: cons_getc appends the characters that the devices give
-- to those that wait, and returns and removes the oldest, or returns 0 if there is none, as long
-- as fewer than 512 wait.
pub cons_getc-Taken :
    (serial kbd : List ℕ) (cons : Cons) (xs : List ℕ)
    → Holds cons xs
    → length ((xs ++ chars serial) ++ chars kbd) < 512
    → Taken ((xs ++ chars serial) ++ chars kbd) (cons_getc serial kbd cons)
unfolding cons_getc
cons_getc-Taken serial kbd cons xs h room = take_char-Taken _ _ (
    cons_intr-Holds kbd _ _
      (cons_intr-Holds serial cons xs h
        (ground (arith, room, length-append (xs ++ chars serial) (chars kbd))))
      room)
