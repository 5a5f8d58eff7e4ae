-- ===== src/Debug/Info.antt =====
-- kern/kdebug.c: debuginfo_eip.
use xv6_lab.Base.{
  ℕ, zero, suc, ◌+◌, ◌-◌, Bool, Option, none, some, leb, ltb, not, ◌==◌, ◌&&◌, ◌||◌, if◌then◌else◌,
}
use xv6_lab.Machine.Mmu.{ulim}
use xv6_lab.Text.Strings.{Bytes, strfind}
use xv6_lab.Debug.Stabs.{Stab, stab_binsearch}

-- `struct Eipdebuginfo`; a name is the address of a string, `none` is "<unknown>".
pub record Info : Type 0 where
  pub eip_file : Option ℕ
  pub eip_line : ℕ
  pub eip_fn_name : Option ℕ
  pub eip_fn_namelen : ℕ
  pub eip_fn_addr : ℕ
  pub eip_fn_narg : ℕ

-- A table of `count` entries, and a string table
pub record Tables : Type 0 where
  pub stabs : ℕ → Stab
  pub count : ℕ
  pub stabstr : ℕ
  pub stabstr_end : ℕ

abbrev pub n_fun : ℕ
n_fun = 0x24

abbrev pub n_so : ℕ
n_so = 0x64

abbrev pub n_sol : ℕ
n_sol = 0x84

abbrev pub n_psym : ℕ
n_psym = 0xA0

module _ (t : Tables) where
  -- The string of entry `i`, if the string table has it; else what was there before
  abbrev pub string_of : (i : ℕ) → (before : Option ℕ) → Option ℕ
  string_of i before =
      if ltb (t.stabs i).n_strx (t.stabstr_end - t.stabstr)
      then some (t.stabstr + (t.stabs i).n_strx)
      else before

  abbrev pub names_file : Stab → Bool
  names_file s = s.n_type == n_sol || (s.n_type == n_so && not (s.n_value == 0))

  -- The loop back from `lline`, over `n` entries
  unfoldable pub back_to_file : (n lline : ℕ) → Option ℕ
  back_to_file zero lline = none
  back_to_file (suc n) lline =
      let rest = back_to_file n (lline - 1) in
      if names_file (t.stabs lline) then some lline else rest

  abbrev pub file_at : Option ℕ → Option ℕ
  file_at none = none
  file_at (some lline) = string_of lline none

  -- The loop over the parameters, with `n` entries left from `i` on
  unfoldable pub parameters : (n i : ℕ) → ℕ
  parameters zero i = 0
  parameters (suc n) i =
      let rest = parameters n (i + 1) in if (t.stabs i).n_type == n_psym then suc rest else 0

  -- `strfind(info->eip_fn_name, ':') - info->eip_fn_name`
  abbrev pub name_end : (name : ℕ) → Option ℕ → Option ℕ
  name_end name none = none
  name_end name (some stop) = some (stop - name)

  abbrev pub name_length : (fuel : ℕ) → Bytes → Option ℕ → Option ℕ
  name_length fuel m none = some 9
  name_length fuel m (some name) = name_end name (strfind fuel m name b':')

  -- What follows the two searches: `lfun` and `rfun` are plus 1, as stab_binsearch gives them.
  abbrev pub filled :
      (addr lfile lfun rfun : ℕ) → (name : Option ℕ) → (namelen : Option ℕ) → Option Info
  filled addr lfile lfun rfun name none = none
  filled addr lfile lfun rfun name (some namelen) =
      let lline = if leb lfun rfun then lfun - 1 else lfile in
      some (record {
        eip_file = file_at (back_to_file (lline + 1 - lfile) lline);
        eip_line = 0;
        eip_fn_name = name;
        eip_fn_namelen = namelen;
        eip_fn_addr = if leb lfun rfun then (t.stabs (lfun - 1)).n_value else addr;
        eip_fn_narg = parameters (rfun - 1 - lfun) lfun;
      })

  abbrev pub returned : Option Info → Option (Option Info)
  returned none = none
  returned (some info) = some (some info)

  abbrev pub function_found :
      (fuel : ℕ) → Bytes → (addr lfile : ℕ) → Option (ℕ × ℕ) → Option (Option Info)
  function_found fuel m addr lfile none = none
  function_found fuel m addr lfile (some (lfun, rfun)) =
      let name = if leb lfun rfun then string_of (lfun - 1) none else none in
      returned (filled addr lfile lfun rfun name (name_length fuel m name))

  -- With the answer of the search for the source file, each end plus 1
  abbrev pub file_found : (fuel : ℕ) → Bytes → (addr : ℕ) → Option (ℕ × ℕ) → Option (Option Info)
  file_found fuel m addr none = none
  file_found fuel m addr (some (lfile, rfile)) =
      if lfile - 1 == 0
      then some none
      else function_found fuel m addr (lfile - 1)
          (stab_binsearch t.stabs n_fun fuel (lfile - 1) rfile addr)

  -- debuginfo_eip once the tables are chosen. The inner `none` stands for the result -1, where what is
  -- stored in `*info` is left out.
  unfoldable pub look_up : (fuel : ℕ) → Bytes → (addr : ℕ) → Option (Option Info)
  look_up fuel m addr =
      if leb t.stabstr_end t.stabstr || not (m (t.stabstr_end - 1) == 0)
      then some none
      else file_found fuel m addr (stab_binsearch t.stabs n_so fuel 0 t.count addr)

-- `kernel` are the tables that the linker places, `user` those that the structure at USTABDATA names.
unfoldable pub debuginfo_eip :
    (kernel user : Tables) (fuel : ℕ) → Bytes → (addr : ℕ) → Option (Option Info)
debuginfo_eip kernel user fuel m addr = look_up (if leb ulim addr then kernel else user) fuel m addr
