-- ===== src/Smp/BootCpu.antt =====
-- kern/mpconfig.c: which processor of a table is the boot CPU.
use xv6_lab.Base.{
  ℕ, zero, suc, ◌+◌, ◌/◌, ◌%◌, ◌≤◌, ◌<◌, ◌≡◌, refl, Bool, true, false, some, List, [], ◌∷◌, arith,
  leb, ◌==◌, if◌then◌else◌, Bool-cases, inl, inr, ap, ◌∙◌, length, get_elem?,
}
use xv6_lab.Text.Strings.{Bytes}
use xv6_lab.Smp.Table.{Cpus, add_processor, scan}

-- The flags of the processors of the table, in order, up to the first entry of an unknown kind
abbrev pub processor_flags : Bytes → (n p : ℕ) → List ℕ
processor_flags m zero p = []
processor_flags m (suc n) p =
    let more = processor_flags m n (p + 20) in
    let others = processor_flags m n (p + 8) in
    if m p == 0 then m (p + 3) ∷ more else if leb (m p) 4 then others else []

-- MPPROC_BOOT
abbrev pub is_boot : (flags : ℕ) → Bool
is_boot flags = flags / 2 % 2 == 1

abbrev pub capped : ℕ → ℕ
capped n = if leb 8 n then 8 else n

-- CPU `b` is the one of the last processor that the flags mark, 8 where that comes after 8 others, and
-- 0 where none is marked.
pub record IsBootCpu (flags : List ℕ) (b : ℕ) : Type 0 where
  pub unmarked : ((j f : ℕ) → get_elem? flags j ≡ some f → is_boot f ≡ false) → b ≡ 0
  pub marked :
      (j f : ℕ)
      → get_elem? flags j ≡ some f
      → is_boot f ≡ true
      → ((i g : ℕ) → j < i → get_elem? flags i ≡ some g → is_boot g ≡ false)
      → b ≡ capped j

-- The boot CPU by the flags from processor `k` on, `d` if they mark none
unfoldable pub last_boot : (flags : List ℕ) → (k d : ℕ) → ℕ
last_boot [] k d = d
last_boot (f ∷ fs) k d = last_boot fs (k + 1) (if is_boot f then capped k else d)

last_boot-unmarked :
    (fs : List ℕ) (k d : ℕ)
    → ((j f : ℕ) → get_elem? fs j ≡ some f → is_boot f ≡ false)
    → last_boot fs k d ≡ d
unfolding last_boot
last_boot-unmarked [] k d h = refl
last_boot-unmarked (f ∷ fs) k d h =
    rw (h 0 f refl) (last_boot-unmarked fs (k + 1) d λ j g e. h (suc j) g e)

last_boot-marked :
    (fs : List ℕ) (k d j f : ℕ)
    → get_elem? fs j ≡ some f
    → is_boot f ≡ true
    → ((i g : ℕ) → j < i → get_elem? fs i ≡ some g → is_boot g ≡ false)
    → last_boot fs k d ≡ capped (k + j)
unfolding last_boot
last_boot-marked [] k d j f e b h = cc
last_boot-marked (x ∷ fs) k d zero f e b h =
    let head : is_boot x ≡ true = ground arith in
    let here : k + 0 ≡ k = omega arith in
    rw (head, here) (last_boot-unmarked fs (k + 1) (capped k) λ i g. h (suc i) g (omega arith))
last_boot-marked (x ∷ fs) k d (suc j) f e b h =
    last_boot-marked fs (k + 1) (if is_boot x then capped k else d) j f e b
      (λ i g lt. h (suc i) g (omega arith))
    ∙ ap (λ (i : ℕ). capped i) {x = k + 1 + j} {y = k + suc j} (omega arith)

pub last_boot-IsBootCpu : (fs : List ℕ) → IsBootCpu fs (last_boot fs 0 0)
last_boot-IsBootCpu fs = record {
  unmarked = last_boot-unmarked fs 0 0;
  marked = λ j f e b h.
      last_boot-marked fs 0 0 j f e b h
      ∙ ap (λ (i : ℕ). capped i) {x = 0 + j} {y = j} (omega arith);
}

pub last_boot-bound : (fs : List ℕ) (k d : ℕ) → k + length fs ≤ 8 → d < 8 → last_boot fs k d < 8
unfolding last_boot
last_boot-bound [] k d h b = b
last_boot-bound (f ∷ fs) k d h b =
    last_boot-bound fs (k + 1) (if is_boot f then capped k else d) (omega arith) (ground arith)

add_processor-bootcpu :
    (flags : ℕ) (c : Cpus) (k d : ℕ)
    → c.ncpu ≡ capped k
    → c.bootcpu ≡ some d
    → ((add_processor flags c).ncpu ≡ capped (k + 1))
      × ((add_processor flags c).bootcpu ≡ some (if is_boot flags then capped k else d))
unfolding add_processor
add_processor-bootcpu flags c k d h b = ground arith

pub scan-bootcpu :
    (m : Bytes) (n p : ℕ) (c : Cpus) (k d : ℕ)
    → c.ncpu ≡ capped k
    → c.bootcpu ≡ some d
    → (scan m n p c).bootcpu ≡ some (last_boot (processor_flags m n p) k d)
unfolding scan last_boot
scan-bootcpu m zero p c k d h b = b
scan-bootcpu m (suc n) p c k d h b = elim (Bool-cases (m p == 0)) [
  | inl processor ↦
      let (count, boot) = add_processor-bootcpu (m (p + 3)) c k d h b in
      rw processor (
        scan-bootcpu m n (p + 20) (add_processor (m (p + 3)) c) (k + 1)
          (if is_boot (m (p + 3)) then capped k else d) count boot)
  | inr other ↦ elim (Bool-cases (leb (m p) 4)) [
    | inl known ↦ rw (other, known) (scan-bootcpu m n (p + 8) c k d h b)
    | inr unknown ↦ rw (other, unknown) b
  ]
]
