-- ===== src/User/Going.antt =====
-- lib/fork.c, the loop of fork: which pages go to the child, and what one round leaves for the others.
use xv6_lab.Base.{
  ℕ, zero, suc, ◌+◌, ◌*◌, ◌/◌, ◌^◌, ◌≤◌, ◌<◌, ◌≡◌, ◌⊎◌, refl, true, false, Bool, List, arith, ◌==◌,
  ◌&&◌, length, inl, inr, ap, ◌∙◌, sym, subst, ==→eq, if◌then◌else◌, Bool-cases,
}
use xv6_lab.Machine.Mmu.{present, user, utop}
use xv6_lab.Machine.Phys.{Phys}
use xv6_lab.Pmap.Space.{Mem, table, pte_at}
use xv6_lab.User.Fork.{is_shared}
use xv6_lab.User.Lending.{IsCommon, Spaces, Lent}
use xv6_lab.User.Sharing.{left_entry, lent_entry}

-- The test of fork on an entry
abbrev pub goes : (pte : ℕ) → Bool
goes pte = present pte && user pte

-- What becomes of the entry `pte` of the parent, and of the entry `old` of the child
abbrev pub left : (pte : ℕ) → ℕ
left pte = if goes pte then left_entry pte else pte

abbrev pub lent : (pte old : ℕ) → ℕ
lent pte old = if goes pte then lent_entry pte else old

-- How many of the `n` pages from `pn` on go to the child
abbrev pub going : Mem → (d n pn : ℕ) → ℕ
going m d zero pn = 0
going m d (suc n) pn =
    let rest = going m d n (pn + 1) in if goes (pte_at m d (pn * 4096)) then suc rest else rest

-- A page of the parent that can go, in a run where `n` pages go: its counter has room for these.
pub record CanGo (s : Phys) (d d' : ℕ) (xs : List ℕ) (n pte old : ℕ) : Type 0 where
  pub unshared : is_shared pte ≡ false
  pub page : IsCommon s d d' xs (table pte)
  pub counts : (0 < (s.pages (table pte)).ref) × ((s.pages (table pte)).ref + n + 1 < 2 ^ 16)
  pub empty : present old ≡ false

pub record CanDuplicate (s : Phys) (d d' n from : ℕ) (xs : List ℕ) : Type 0 where
  pub spaces : Spaces s d d' xs
  pub room : going s.mem d n from ≤ length xs
  pub pages :
      (pn : ℕ)
      → from ≤ pn
      → pn < from + n
      → goes (pte_at s.mem d (pn * 4096)) ≡ true
      → CanGo s d d' xs
          (going s.mem d n from)
          (pte_at s.mem d (pn * 4096))
          (pte_at s.mem d' (pn * 4096))

-- The `n` pages from `from` on went.
pub record Duplicated (s t : Phys) (d d' n from : ℕ) (xs ys : List ℕ) : Type 0 where
  pub parent :
      (pn : ℕ)
      → from ≤ pn
      → pn < from + n
      → pte_at t.mem d (pn * 4096) ≡ left (pte_at s.mem d (pn * 4096))
  pub child :
      (pn : ℕ)
      → from ≤ pn
      → pn < from + n
      → pte_at t.mem d' (pn * 4096)
        ≡ lent (pte_at s.mem d (pn * 4096)) (pte_at s.mem d' (pn * 4096))
  pub elsewhere :
      (v : ℕ)
      → v < 2 ^ 32
      → (v / 4096 < from) ⊎ (from + n ≤ v / 4096)
      → (pte_at t.mem d v ≡ pte_at s.mem d v) × (pte_at t.mem d' v ≡ pte_at s.mem d' v)
  pub pages : (y : ℕ) → IsCommon s d d' xs y → IsCommon t d d' ys y × (t.mem y ≡ s.mem y)
  pub spaces : Spaces t d d' ys

going-same :
    (m m' : Mem) (d n pn : ℕ)
    → ((i : ℕ) → pn ≤ i → i < pn + n → pte_at m' d (i * 4096) ≡ pte_at m d (i * 4096))
    → going m' d n pn ≡ going m d n pn
going-same m m' d zero pn same = refl
going-same m m' d (suc n) pn same =
    rw
      (
        same pn (omega arith) (omega arith),
        going-same m m' d n (pn + 1) (λ i a b. same i (omega arith) (omega arith)),
      )
      refl

-- One page goes, and the rest still can.
module _ {s m : Phys} {d d' n from w w' : ℕ} {xs ys : List ℕ}
    (can : CanDuplicate s d d' (suc n) from xs) (low : (from + suc n) * 4096 ≤ utop)
    (step : Lent s m d d' (from * 4096) w w' xs ys) where
  same_later :
      (i : ℕ)
      → from + 1 ≤ i
      → i < from + 1 + n
      → (pte_at m.mem d (i * 4096) ≡ pte_at s.mem d (i * 4096))
        × (pte_at m.mem d' (i * 4096) ≡ pte_at s.mem d' (i * 4096))
  same_later i a b = step.elsewhere (i * 4096) (omega (arith, low)) (omega arith)

  same_count : going m.mem d n (from + 1) ≡ going s.mem d n (from + 1)
  same_count = going-same s.mem m.mem d n (from + 1) (λ i a b. (same_later i a b).0)

  pub CanDuplicate-rest :
      goes (pte_at s.mem d (from * 4096)) ≡ true → CanDuplicate m d d' n (from + 1) ys
  CanDuplicate-rest go = record {
    spaces = step.spaces;
    room = ground (arith, can.room, step.one_less, same_count);
    pages = λ i a b g.
        let (same, same') = same_later i a b in
        let before = can.pages i (omega arith) (omega arith) (rw (← same) g) in
        let kept = step.pages (table (pte_at s.mem d (i * 4096))) before.page in
        rw (same, same')
          (record {
            unshared = before.unshared;
            page = kept.common;
            counts = ground (arith, before.counts, kept.more, kept.one_more, same_count);
            empty = before.empty;
          });
  }

pub CanDuplicate-skip :
    {s : Phys} {d d' n from : ℕ} {xs : List ℕ}
    → CanDuplicate s d d' (suc n) from xs
    → goes (pte_at s.mem d (from * 4096)) ≡ false
    → CanDuplicate s d d' n (from + 1) xs
CanDuplicate-skip {s} {d} {n} {from} can stay =
    let count : going s.mem d (suc n) from ≡ going s.mem d n (from + 1) = rw stay refl in
    record {
      spaces = can.spaces;
      room = ground (arith, can.room, count);
      pages = λ i a b g. rw (← count) (can.pages i (omega arith) (omega arith) g);
    }

-- Where a page stays, nothing changes.
pub Lent-none :
    {s : Phys} {d d' va : ℕ} {xs : List ℕ}
    → Spaces s d d' xs
    → Lent s s d d' va (pte_at s.mem d va) (pte_at s.mem d' va) xs xs
Lent-none spaces = record {
  parent = refl;
  child = refl;
  elsewhere = λ v b ne. (refl, refl);
  pages = λ y both. record {
    common = both;
    content = refl;
    more = omega arith;
    one_more = omega arith;
  };
  spaces = spaces;
  one_less = omega arith;
}

-- One page, and then the rest
pub Duplicated-step :
    {s m t : Phys} {d d' n from : ℕ} {xs ys zs : List ℕ}
    → (from + suc n) * 4096 ≤ utop
    → Lent s m d d'
        (from * 4096)
        (left (pte_at s.mem d (from * 4096)))
        (lent (pte_at s.mem d (from * 4096)) (pte_at s.mem d' (from * 4096)))
        xs
        ys
    → Duplicated m t d d' n (from + 1) ys zs
    → Duplicated s t d d' (suc n) from xs zs
Duplicated-step {s} {m} {t} {d} {d'} {n} {from} low step rest =
    let here = rest.elsewhere (from * 4096) (omega (arith, low)) (inl (omega arith)) in
    let later = λ (i : ℕ) (a : from + 1 ≤ i) (b : i < from + suc n).
      step.elsewhere (i * 4096) (omega (arith, low)) (omega arith) in
    record {
      parent = λ pn a b. elim (Bool-cases (pn == from)) [
        | inl h ↦
            subst (λ (i : ℕ). pte_at t.mem d (i * 4096) ≡ left (pte_at s.mem d (i * 4096)))
              (sym (==→eq pn from h)) (here.0 ∙ step.parent)
        | inr h ↦
            rest.parent pn (ground arith) (omega arith) ∙ ap left (later pn (ground arith) b).0
      ];
      child = λ pn a b. elim (Bool-cases (pn == from)) [
        | inl h ↦
            subst
              (λ (i : ℕ).
                pte_at t.mem d' (i * 4096)
                ≡ lent (pte_at s.mem d (i * 4096)) (pte_at s.mem d' (i * 4096)))
              (sym (==→eq pn from h)) (here.1 ∙ step.child)
        | inr h ↦
            let (same, same') = later pn (ground arith) b in
            rest.child pn (ground arith) (omega arith) ∙ rw (same, same') refl
      ];
      elsewhere = λ v b out.
          let (after, after') = rest.elsewhere v b (omega (arith, out)) in
          let (before, before') = step.elsewhere v b (omega (arith, out)) in
          (after ∙ before, after' ∙ before');
      pages = λ y both.
          let kept = step.pages y both in
          let (common, content) = rest.pages y kept.common in (common, content ∙ kept.content);
      spaces = rest.spaces;
    }
