-- ===== src/Pmap/Access.antt =====
-- kern/pmap.c, user_mem_check: which ranges of user memory it lets pass.
use Prim.Native.Nat.{bit_and-bitwise}
use xv6_lab.Base.{
  ℕ, zero, suc, ◌+◌, ◌-◌, ◌*◌, ◌/◌, ◌^◌, ◌≤◌, ◌<◌, ◌≡◌, ◌≢◌, refl, Bool, true, false, Option, none,
  some, arith, leb, not, ◌==◌, ◌&&◌, ◌||◌, bit_and, if◌then◌else◌, Bool-cases, inl, inr, ap, ◌∙◌,
}
use xv6_lab.Machine.Mmu.{u32, pgsize, pdx, ptx, present, ulim, round_down, round_up}
use xv6_lab.Machine.Phys.{Phys, ok, pure}
use xv6_lab.Pmap.UserMem.{user_mem_rounds, user_mem_check, blame}
use xv6_lab.Pmap.Space.{table, translation}
use xv6_lab.Pmap.Walk.{walk-inside, walk-absent}

-- What user_mem_check asks of the page at `a`: it lies below ULIM, has a page table, and its entry has
-- all bits of `perm`.
abbrev pub allowed : Phys → (pgdir perm a : ℕ) → Bool
allowed s pgdir perm a =
    present (s.mem pgdir (pdx a))
    && (not (leb ulim a) && (bit_and (translation s.mem pgdir a) perm == perm))

-- The entries that are present name physical pages, that at UVPT included.
abbrev pub Names : Phys → (pgdir : ℕ) → Type 0
Names s pgdir =
    (d : ℕ) → d < 1024 → present (s.mem pgdir d) ≡ true → table (s.mem pgdir d) < s.npages

-- What a verdict on the `n` pages from `start` means. An error names the first page that is not
-- allowed.
abbrev pub Verdict : Phys → (pgdir va perm start n : ℕ) → Option ℕ → Type 0
Verdict s pgdir va perm start n none =
    (i : ℕ) → i < n → allowed s pgdir perm (start + i * 4096) ≡ true
Verdict s pgdir va perm start n (some a) =
    (i : ℕ) × (i < n)
    × (allowed s pgdir perm (start + i * 4096) ≡ false)
    × ((j : ℕ) → j < i → allowed s pgdir perm (start + j * 4096) ≡ true)
    × (a ≡ blame va (start + i * 4096))

swap_tests {ℓ κ} :
    {A : Type ℓ} {B : Type κ} (a b : Bool) (f g : A → B) (x : A)
    → (if a || not b then f else g) x ≡ (if not a && b then g x else f x)
swap_tests true b f g x = refl
swap_tests false true f g x = refl
swap_tests false false f g x = refl

-- An allowed page before `n` allowed pages
extend :
    (s : Phys) (pgdir perm start n : ℕ)
    → allowed s pgdir perm start ≡ true
    → ((j : ℕ) → j < n → allowed s pgdir perm (start + pgsize + j * 4096) ≡ true)
    → (j : ℕ) → j < suc n
    → allowed s pgdir perm (start + j * 4096) ≡ true
extend s pgdir perm start n h v zero b =
    ap (allowed s pgdir perm) {x = start + 0 * 4096} {y = start} (omega arith) ∙ h
extend s pgdir perm start n h v (suc j) b =
    ap (allowed s pgdir perm) {x = start + suc j * 4096} {y = start + pgsize + j * 4096}
      (omega arith)
    ∙ v j (omega arith)

-- The verdict on `n` pages after an allowed one is the verdict on all of them.
shift :
    (s : Phys) (pgdir va perm start n : ℕ) (r : Option ℕ)
    → allowed s pgdir perm start ≡ true
    → Verdict s pgdir va perm (start + pgsize) n r
    → Verdict s pgdir va perm start (suc n) r
shift s pgdir va perm start n none h v = extend s pgdir perm start n h v
shift s pgdir va perm start n (some a) h (i, b, bad, before, e) = (
  suc i,
  omega arith,
  ap (allowed s pgdir perm) {x = start + suc i * 4096} {y = start + pgsize + i * 4096} (omega arith)
      ∙ bad,
  extend s pgdir perm start i h before,
  e ∙ ap (blame va) {x = start + pgsize + i * 4096} {y = start + suc i * 4096} (omega arith),
)

module _ (s : Phys) (pgdir va perm : ℕ) (names : Names s pgdir) where
  -- One round: it goes on exactly at an allowed page.
  round :
      (n start : ℕ)
      → user_mem_rounds (suc n) pgdir va start perm s ≡ (
          if allowed s pgdir perm start
          then user_mem_rounds n pgdir va (start + pgsize) perm s
          else ok (some (blame va start)) s)
  unfolding user_mem_rounds
  round n start = elim (Bool-cases (present (s.mem pgdir (pdx start)))) [
    | inl p ↦
        rw (walk-inside s pgdir start false p (names (pdx start) (omega arith) p), p)
          (swap_tests (leb ulim start)
            (bit_and (s.mem (table (s.mem pgdir (pdx start))) (ptx start)) perm == perm)
            (pure (some (blame va start))) (user_mem_rounds n pgdir va (start + pgsize) perm) s)
    | inr p ↦ rw (walk-absent s pgdir start p, p)
  ]

  verdict :
      (n start : ℕ)
      → (r : Option ℕ) × (user_mem_rounds n pgdir va start perm s ≡ ok r s)
        × Verdict s pgdir va perm start n r
  verdict zero start = (none, done, λ i b. absurd (omega arith))
    where
      done : user_mem_rounds zero pgdir va start perm s ≡ ok none s
      done = unfold user_mem_rounds in refl
  verdict (suc n) start = elim (Bool-cases (allowed s pgdir perm start)) [
    | inl h ↦
        let (r, e, v) = verdict n (start + pgsize) in
        (r, round n start ∙ (rw h e), shift s pgdir va perm start n r h v)
    | inr h ↦ (
      some (blame va start),
      round n start ∙ (rw h),
      (
        0,
        omega arith,
        ap (allowed s pgdir perm) {x = start + 0 * 4096} {y = start} (omega arith) ∙ h,
        λ j b. absurd (omega arith),
        ap (blame va) {x = start} {y = start + 0 * 4096} (omega arith),
      ),
    )
  ]

zero_and : (x : ℕ) → bit_and 0 x ≡ 0
zero_and x = bit_and-bitwise 0 x

-- The pages that user_mem_check looks at
abbrev pub pages_of : (va len : ℕ) → ℕ
pages_of va len = (round_up (u32 (va + len)) pgsize - round_down va pgsize) / pgsize

module _ (s : Phys) (pgdir va len perm : ℕ) (names : Names s pgdir) where
  pub user_mem_check-Verdict :
      (r : Option ℕ) × (user_mem_check pgdir va len perm s ≡ ok r s)
      × Verdict s pgdir va perm (round_down va pgsize) (pages_of va len) r
  unfolding user_mem_check
  user_mem_check-Verdict = verdict s pgdir va perm names (pages_of va len) (round_down va pgsize)

  -- Where the present entries of the directory name physical pages, every entry but 0 has PTE_P,
  -- and perm is not 0: if user_mem_check returns 0 for a range that ends at least a page below
  -- 2^32, every address of the range is below ULIM and mapped, by an entry that has PTE_P and all
  -- bits of perm.
  pub user_mem_check-allowed :
      0 < perm
      → ((a : ℕ) → translation s.mem pgdir a ≢ 0 → present (translation s.mem pgdir a) ≡ true)
      → va + len + 4095 < 2 ^ 32
      → user_mem_check pgdir va len perm s ≡ ok none s
      → (a : ℕ) → va ≤ a
      → a < va + len
      → (a < ulim)
        × (present (s.mem pgdir (pdx a)) ≡ true)
        × (present (translation s.mem pgdir a) ≡ true)
        × (bit_and (translation s.mem pgdir a) perm ≡ perm)
  user_mem_check-allowed some_bit kinds below passed a lo hi =
      let (r, e, v) = user_mem_check-Verdict in
      let it = passes r e v in
      let d : pdx (round_down a pgsize) ≡ pdx a = omega arith in
      let t : ptx (round_down a pgsize) ≡ ptx a = omega arith in
      let it' = rw (d, t) at it in
      let bits : bit_and (translation s.mem pgdir a) perm ≡ perm = ground arith in
      let nonzero : translation s.mem pgdir a ≢ 0 = λ z. ground (arith, bits, z, zero_and perm) in
      (ground arith, ground arith, kinds a nonzero, bits)
    where
      passes :
          (r : Option ℕ)
          → user_mem_check pgdir va len perm s ≡ ok r s
          → Verdict s pgdir va perm (round_down va pgsize) (pages_of va len) r
          → allowed s pgdir perm (round_down a pgsize) ≡ true
      passes none e v =
          ap (allowed s pgdir perm) {x = round_down a pgsize}
            {y = round_down va pgsize + (a / 4096 - va / 4096) * 4096} (omega arith)
          ∙ v (a / 4096 - va / 4096) (omega arith)
      passes (some b) e v = cc

-- Whatever is mapped, user_mem_check returns 0 for a range that wraps round the end of the address
-- space and leaves out at least two pages' worth of addresses.
pub user_mem_check-wraps :
    (s : Phys) (pgdir va len perm : ℕ)
    → va < 2 ^ 32
    → 2 ^ 32 ≤ va + len
    → len + 8192 ≤ 2 ^ 32
    → user_mem_check pgdir va len perm s ≡ ok none s
unfolding user_mem_check user_mem_rounds
user_mem_check-wraps s pgdir va len perm v wraps l =
    let no_page : pages_of va len ≡ 0 = omega arith in rw no_page
