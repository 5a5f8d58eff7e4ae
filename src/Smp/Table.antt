-- ===== src/Smp/Table.antt =====
-- kern/mpconfig.c: the multiprocessor tables of the BIOS, and the CPUs they list.
--
-- `m` is physical memory, byte by byte, with `npages` pages. A pointer into it is a physical address.
use xv6_lab.Base.{
  ℕ, zero, suc, ◌+◌, ◌-◌, ◌*◌, ◌/◌, ◌%◌, ◌^◌, Bool, true, false, Option, none, some, leb, ltb, not,
  ◌==◌, ◌&&◌, ◌||◌, update, if◌then◌else◌,
}
use xv6_lab.Machine.Mmu.{u32}
use xv6_lab.Env.Load.{half, word}
use xv6_lab.Text.Strings.{Bytes}

-- The result of code that reads physical memory: KADDR panics beyond it.
pub data Run {ℓ} (A : Type ℓ) : Type ℓ where
  ok : A → Run A
  panic : Run A

infixl 5 ◌>>=◌ ◌>>◌
abbrev pub ◌>>=◌ {ℓ κ} : {A : Type ℓ} {B : Type κ} → Run A → (A → Run B) → Run B
ok a >>= f = f a
panic >>= f = panic

abbrev pub ◌>>◌ {ℓ} : {B : Type ℓ} → Run (Unit {0}) → Run B → Run B
m >> k = m >>= λ _. k

-- The check of KADDR
abbrev pub at : (npages pa : ℕ) → Run (Unit {0})
at npages pa = if leb npages (pa / 2 ^ 12) then panic else ok tt

-- `sum` is returned as a byte.
unfoldable pub sum_from : Bytes → (addr len acc : ℕ) → ℕ
sum_from m addr zero acc = acc % 256
sum_from m addr (suc len) acc = sum_from m (addr + 1) len (acc + m addr)

abbrev pub sum : Bytes → (addr len : ℕ) → ℕ
sum m addr len = sum_from m addr len 0

-- memcmp with a literal of four characters, for equality
abbrev pub signed : Bytes → (a c0 c1 c2 c3 : ℕ) → Bool
signed m a c0 c1 c2 c3 = m a == c0 && (m (a + 1) == c1) && (m (a + 2) == c2) && (m (a + 3) == c3)

-- The loop of mpsearch1, with `n` structures of 16 bytes left. "_MP_" is 95, 77, 80, 95.
unfoldable pub search_mp : Bytes → (n a : ℕ) → Option ℕ
search_mp m zero a = none
search_mp m (suc n) a =
    let rest = search_mp m n (a + 16) in
    if signed m a 95 77 80 95 && (sum m a 16 == 0) then some a else rest

unfoldable pub mpsearch1 : (npages : ℕ) → Bytes → (a len : ℕ) → Run (Option ℕ)
mpsearch1 npages m a len = do
  at npages a
  at npages (u32 (a + len))
  ok (search_mp m ((len + 15) / 16) a)

abbrev pub or_rom : (npages : ℕ) → Bytes → Option ℕ → Run (Option ℕ)
or_rom npages m (some mp) = ok (some mp)
or_rom npages m none = mpsearch1 npages m 0xF0000 0x10000

unfoldable pub mpsearch : (npages : ℕ) → Bytes → Run (Option ℕ)
mpsearch npages m = do
  at npages 0x400
  found ←
      (if half m 0x40E == 0
        then mpsearch1 npages m (u32 (half m 0x413 * 1024 + 2 ^ 32 - 1024)) 1024
        else mpsearch1 npages m (half m 0x40E * 16) 1024)
  or_rom npages m found

-- The checks of mpconfig on the table at `conf`: signature, checksum, version, extended checksum.
-- "PCMP" is 80, 67, 77, 80.
abbrev pub is_config : Bytes → (conf : ℕ) → Bool
is_config m conf =
    signed m conf 80 67 77 80
    && (sum m conf (half m (conf + 4)) == 0)
    && (m (conf + 6) == 1 || (m (conf + 6) == 4))
    && ((sum m (conf + half m (conf + 4)) (half m (conf + 40)) + m (conf + 42)) % 256 == 0)

-- mpconfig, given what mpsearch found; the result has the floating pointer and the table.
unfoldable pub config_of : (npages : ℕ) → Bytes → Option ℕ → Run (Option (ℕ × ℕ))
config_of npages m none = ok none
config_of npages m (some mp) =
    let conf = word m (mp + 4) in
    if conf == 0 || not (m (mp + 11) == 0)
    then ok none
    else (do at npages conf; ok (if is_config m conf then some (mp, conf) else none))

unfoldable pub mpconfig : (npages : ℕ) → Bytes → Run (Option (ℕ × ℕ))
mpconfig npages m = do found ← mpsearch npages m; config_of npages m found

-- The globals: `cpu_id` and `started` are the fields of `cpus`, `bootcpu` an index in it, `none` for
-- NULL.
pub record Cpus : Type 0 where
  pub cpu_id : ℕ → ℕ
  pub started : ℕ → Bool
  pub bootcpu : Option ℕ
  pub ismp : Bool
  pub ncpu : ℕ
  pub lapicaddr : ℕ

abbrev pub ncpus_max : ℕ
ncpus_max = 8

-- An entry for a processor, with its flags. MPPROC_BOOT is 2.
unfoldable pub add_processor : (flags : ℕ) → Cpus → Cpus
add_processor flags c =
    let booted = if flags / 2 % 2 == 1 then record c { bootcpu = some c.ncpu } else c in
    if ltb c.ncpu ncpus_max
    then record booted { cpu_id = update c.cpu_id c.ncpu c.ncpu; ncpu = c.ncpu + 1 }
    else booted

-- The loop of mp_init, with `n` entries left from `p` on. The kinds 1 to 4 are the other known ones.
unfoldable pub scan : Bytes → (n p : ℕ) → Cpus → Cpus
scan m zero p c = c
scan m (suc n) p c =
    let after_processor = scan m n (p + 20) (add_processor (m (p + 3)) c) in
    let after_other = scan m n (p + 8) c in
    if m p == 0
    then after_processor
    else if leb (m p) 4
    then after_other
    else record c { ismp = false }

-- `bootcpu->cpu_status = CPU_STARTED`, which mp_init does not come to with NULL
abbrev pub mark : Option ℕ → (ℕ → Bool) → ℕ → Bool
mark none started = started
mark (some b) started = update started b true

-- What follows the loop. The second part of the result says whether the interrupt mode is switched, by
-- writes to ports 0x22 and 0x23.
unfoldable pub settle : (imcrp : ℕ) → Cpus → Cpus × Bool
settle imcrp c =
    let up = record c { started = mark c.bootcpu c.started } in
    if c.ismp then (up, not (imcrp == 0)) else (record up { ncpu = 1; lapicaddr = 0 }, false)

-- What mp_init does with the answer of mpconfig
unfoldable pub configure : Bytes → Option (ℕ × ℕ) → Cpus → Cpus × Bool
configure m none c = (c, false)
configure m (some (mp, conf)) c = settle (m (mp + 12)) (
    scan m (half m (conf + 34)) (conf + 44)
      (record c { ismp = true; lapicaddr = word m (conf + 36) }))

unfoldable pub mp_init : (npages : ℕ) → Bytes → Cpus → Run (Cpus × Bool)
mp_init npages m c = do
  found ← mpconfig npages m
  ok (configure m found (record c { bootcpu = some 0 }))
