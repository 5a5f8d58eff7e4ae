-- ===== src/Examples/Tables.antt =====
-- The search in a small debugging table.
use xv6_lab.Base.{ℕ, ◌==◌, if◌then◌else◌, ◌+◌, ◌*◌, ◌≡◌, refl, some, arith}
use xv6_lab.Debug.Stabs.{Stab, search_rounds, search_round, back_to_type, rightmost, stab_binsearch}
use xv6_lab.Text.Strings.{Bytes, strfind}
use xv6_lab.Debug.Info.{Tables, back_to_file, parameters, look_up, debuginfo_eip}
use xv6_lab.Debug.Reading.{Answered, debuginfo_eip-Answered}
use xv6_lab.Debug.Ends.{stab_binsearch-ends}

-- Entry `i` is for address 16 * i.
abbrev stabs : ℕ → Stab
stabs i = record { n_strx = 0; n_type = 36; n_value = 16 * i }

eight_entries_end : (ends : ℕ × ℕ) × (stab_binsearch stabs 36 20 0 8 50 ≡ some ends)
eight_entries_end = stab_binsearch-ends stabs 36 20 0 8 50 (omega arith)

-- Address 50 lies in entry 3.
fifty : stab_binsearch stabs 36 20 0 8 50 ≡ some (4, 4)
unfolding stab_binsearch search_rounds search_round back_to_type rightmost
fifty = refl

-- With an entry for each address from 16 on, the search for 19, the address of entry 3,
-- gives entry 4.
abbrev dense : ℕ → Stab
dense i = record { n_strx = 0; n_type = 36; n_value = 16 + i }

nineteen : stab_binsearch dense 36 20 0 8 19 ≡ some (5, 5)
unfolding stab_binsearch search_rounds search_round back_to_type rightmost
nineteen = refl

-- Entry 1 names the file, at 1 in the string table, and entry 2 the function, at 3.
abbrev entries : ℕ → Stab
entries i =
    if i == 1
    then record { n_strx = 1; n_type = 0x64; n_value = 0xF010_0000 }
    else if i == 2
    then record { n_strx = 3; n_type = 0x24; n_value = 0xF010_0010 }
    else record { n_strx = 0; n_type = 0; n_value = 0xF020_0000 }

abbrev small_tables : Tables
small_tables = record { stabs = entries; count = 4; stabstr = 100; stabstr_end = 110 }

-- The strings "a" at 101 and "f:F" at 103
abbrev strings : Bytes
strings a =
    if a == 101
    then b'a'
    else if a == 103
    then b'f'
    else if a == 104
    then b':'
    else if a == 105
    then b'F'
    else 0

debuginfo_eip-Answered_example :
    Answered small_tables (debuginfo_eip small_tables small_tables 30 strings 0xF010_0014)
debuginfo_eip-Answered_example =
    debuginfo_eip-Answered small_tables small_tables 30 strings 0xF010_0014
      (omega arith, omega arith) (omega arith, omega arith)

function_f :
    debuginfo_eip small_tables small_tables 30 strings 0xF010_0014
    ≡ some (
        some (record {
          eip_file = some 101;
          eip_line = 0;
          eip_fn_name = some 103;
          eip_fn_namelen = 1;
          eip_fn_addr = 0xF010_0010;
          eip_fn_narg = 0;
        }))
unfolding debuginfo_eip look_up stab_binsearch search_rounds search_round back_to_type rightmost
    back_to_file parameters strfind
function_f = refl
