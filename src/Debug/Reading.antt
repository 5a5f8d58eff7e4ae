-- ===== src/Debug/Reading.antt =====
-- kern/kdebug.c: about debuginfo_eip and the string table.
use mathlib.Core.Option.{some-injective, none-ne-some}
use xv6_lab.Base.{
  ℕ, zero, suc, ◌+◌, ◌-◌, ◌*◌, ◌≤◌, ◌<◌, ◌≡◌, refl, none, some, Option, arith, ◌==◌, leb, ltb, not,
  ◌||◌, Bool-cases, ap, inl, inr, ◌⊎◌, if◌then◌else◌,
}
use xv6_lab.Machine.Mmu.{ulim}
use xv6_lab.Text.Strings.{Bytes, strfind}
use xv6_lab.Debug.Ends.{stab_binsearch-ends}
use xv6_lab.Debug.Bounds.{stab_binsearch-Inside}
use xv6_lab.Debug.Info.{
  Info, Tables, n_fun, n_so, string_of, file_at, name_length, filled, returned, function_found,
  file_found, look_up, debuginfo_eip,
}

-- strfind stops at the NUL.
strfind-within :
    (f : ℕ) (m : Bytes) (p c e : ℕ)
    → m e ≡ 0
    → p ≤ e
    → e < p + f
    → (q : ℕ) × (strfind f m p c ≡ some q) × (p ≤ q) × (q ≤ e)
unfolding strfind
strfind-within zero m p c e nul low enough = absurd (omega arith)
strfind-within (suc f) m p c e nul low enough = elim (Bool-cases (m p == 0 || (m p == c))) [
  | inl stop ↦ (p, rw stop refl, omega arith, low)
  | inr on ↦ elim (Bool-cases (p == e)) [
    | inl same ↦ absurd (ground (arith, on, same, nul))
    | inr other ↦
        let (q, run, from, to) =
          strfind-within f m (p + 1) c e nul (ground (arith, other)) (omega arith) in
        (q, rw on run, omega (arith, from), to)
  ]
]

-- The names lie within the string table, that of the function with its NUL or `:` behind it.
pub record IsReadable (t : Tables) (info : Info) : Type 0 where
  pub name :
      (p : ℕ)
      → info.eip_fn_name ≡ some p
      → (t.stabstr ≤ p) × (p + info.eip_fn_namelen < t.stabstr_end)
  pub file : (p : ℕ) → info.eip_file ≡ some p → (t.stabstr ≤ p) × (p < t.stabstr_end)

abbrev pub Answered : Tables → Option (Option Info) → Type 0
Answered t r = (r ≡ some none) ⊎ ((info : Info) × (r ≡ some (some info)) × IsReadable t info)

module _ (t : Tables) (fuel : ℕ) (m : Bytes) (nul : m (t.stabstr_end - 1) ≡ 0)
    (filled_table : t.stabstr < t.stabstr_end) (long : t.stabstr_end < t.stabstr + fuel) where
  abbrev InTable : Option ℕ → Type 0
  InTable name = (p : ℕ) → name ≡ some p → (t.stabstr ≤ p) × (p < t.stabstr_end)

  string_of-InTable : (i : ℕ) → InTable (string_of t i none)
  string_of-InTable i p e = elim (Bool-cases (ltb (t.stabs i).n_strx (t.stabstr_end - t.stabstr))) [
    | inl h ↦
        let at : t.stabstr + (t.stabs i).n_strx ≡ p = some-injective _ p (rw h at e) in
        (omega (arith, at), ground (arith, at, h))
    | inr h ↦ absurd (none-ne-some p (rw h at e))
  ]

  file_at-InTable : (o : Option ℕ) → InTable (file_at t o)
  file_at-InTable none p e = absurd (cc)
  file_at-InTable (some i) p e = string_of-InTable i p e

  name_length-some :
      (name : Option ℕ)
      → InTable name
      → (len : ℕ) × (name_length t fuel m name ≡ some len)
        × ((p : ℕ) → name ≡ some p → (t.stabstr ≤ p) × (p + len < t.stabstr_end))
  name_length-some none within = (9, refl, λ p e. absurd (cc))
  name_length-some (some p) within =
      let (low, high) = within p refl in
      let (q, run, from, to) =
        strfind-within fuel m p b':' (t.stabstr_end - 1) nul (omega (arith, high))
          (omega (arith, low)) in
      (
        q - p,
        rw run refl,
        λ x e.
            let same = some-injective p x e in
            (omega (arith, low, same), omega (arith, from, to, same)),
      )

  function_found-Answered :
      (addr lfile : ℕ) (x : ℕ × ℕ) → Answered t (function_found t fuel m addr lfile (some x))
  function_found-Answered addr lfile (lfun, rfun) =
      let name : Option ℕ = if leb lfun rfun then string_of t (lfun - 1) none else none in
      let within : InTable name = λ p e. elim (Bool-cases (leb lfun rfun)) [
        | inl h ↦ string_of-InTable (lfun - 1) p (rw h at e)
        | inr h ↦ absurd (none-ne-some p (rw h at e))
      ] in
      let (len, run, fits) = name_length-some name within in
      inr (
        _,
        ap (λ (l : Option ℕ). returned t (filled t addr lfile lfun rfun name l)) run,
        record { name = fits; file = file_at-InTable _ },
      )

  file_found-Answered :
      (addr : ℕ) (x : ℕ × ℕ)
      → 2 * t.count + 1 ≤ fuel
      → x.1 ≤ t.count
      → Answered t (file_found t fuel m addr (some x))
  file_found-Answered addr (lfile, rfile) enough high = elim (Bool-cases (lfile - 1 == 0)) [
    | inl h ↦ rw h (inl refl)
    | inr h ↦
        let (x, run) =
          stab_binsearch-ends t.stabs n_fun fuel (lfile - 1) rfile addr (omega (arith, high)) in
        rw (h, run) (function_found-Answered addr (lfile - 1) x)
  ]

look_up-Answered :
    (t : Tables) (fuel : ℕ) (m : Bytes) (addr : ℕ)
    → 2 * t.count + 1 ≤ fuel
    → t.stabstr_end < t.stabstr + fuel
    → Answered t (look_up t fuel m addr)
unfolding look_up
look_up-Answered t fuel m addr enough long =
    elim (Bool-cases (leb t.stabstr_end t.stabstr || not (m (t.stabstr_end - 1) == 0))) [
      | inl bad ↦ rw bad (inl refl)
      | inr fine ↦
          let (x, run) = stab_binsearch-ends t.stabs n_so fuel 0 t.count addr (omega arith) in
          let high =
            stab_binsearch-Inside t.stabs n_so t.count fuel 0 t.count addr x (omega arith)
              (omega arith) run in
          rw (fine, run)
            (file_found-Answered t fuel m (ground arith) (ground arith) long addr x enough high)
    ]

-- On every table, sorted or not, with two rounds for each entry and one more, and more rounds than
-- the string table has characters: debuginfo_eip ends, and either returns -1, or the file's name
-- starts within the string table, and the function's name lies in it with the character that ends
-- it.
pub debuginfo_eip-Answered :
    (kernel user : Tables) (fuel : ℕ) (m : Bytes) (addr : ℕ)
    → (2 * kernel.count + 1 ≤ fuel) × (2 * user.count + 1 ≤ fuel)
    → (kernel.stabstr_end < kernel.stabstr + fuel) × (user.stabstr_end < user.stabstr + fuel)
    → Answered (if leb ulim addr then kernel else user) (debuginfo_eip kernel user fuel m addr)
unfolding debuginfo_eip
debuginfo_eip-Answered kernel user fuel m addr enough long = elim (Bool-cases (leb ulim addr)) [
  | inl h ↦ rw h (look_up-Answered kernel fuel m addr enough.0 long.0)
  | inr h ↦ rw h (look_up-Answered user fuel m addr enough.1 long.1)
]
