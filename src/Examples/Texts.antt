-- ===== src/Examples/Texts.antt =====
-- The theorems on lib/printfmt.c and lib/string.c at concrete texts.
use xv6_lab.Base.{ℕ, List, some, ◌≡◌, refl, [], arith, inl, ◌==◌, if◌then◌else◌}
use xv6_lab.Machine.Mmu.{u32}
use xv6_lab.Text.Strings.{Bytes, strnlen}
use xv6_lab.Text.Numbers.{printnum, read_digits, digit_value}
use xv6_lab.Text.Format.{
  codes, shows, vprintfmt, escape, reswitch, convert, string, put_string, getint, getuint, error,
}
use xv6_lab.Text.Output.{Ends, Ended, vprintfmt-Ended}
use xv6_lab.Text.Bounded.{Holds, vsnprintf, vsnprintf-Holds}
use xv6_lab.Text.Printf.{vcprintf}
use xv6_lab.Text.Chunks.{joined, IsChunked, vcprintf-IsChunked}
use xv6_lab.Text.Parse.{strtol, after_digits}
use xv6_lab.Text.Signed.{shown_int, strtol-vprintfmt}

-- "hi" at 100
abbrev memory : Bytes
memory a = if a == 100 then b'h' else if a == 101 then b'i' else 0

abbrev arguments : ℕ → ℕ
arguments i = if i == 0 then 100 else 0xffff_fff9

ends : (i : ℕ) → Ends memory 3 (u32 (arguments i))
ends i = ground arith

strings_end : Ended (vprintfmt 12 3 memory 200 arguments (codes "%4.2s:%d%q") 0)
strings_end =
    vprintfmt-Ended 3 memory 200 arguments (inl refl) ends 12 (codes "%4.2s:%d%q") 0 (omega arith)

prints : vprintfmt 12 3 memory 200 arguments (codes "%4.2s:%d%q") 0 ≡ shows (codes "  hi:-7%q") 2
unfolding vprintfmt escape reswitch convert string put_string strnlen getint printnum
prints = refl

prints_in : (m : Bytes) → vprintfmt 12 3 m 200 arguments (codes ":%d%q") 1 ≡ shows (codes ":-7%q") 2
unfolding vprintfmt escape reswitch convert getint printnum
prints_in m = refl

-- An unknown sequence does not give back the argument that its `*` took.
keeps_the_width :
    vprintfmt 12 3 memory 200 (λ i. if i == 0 then 7 else 42) (codes "%*q%d") 0
    ≡ shows (codes "%*q42") 2
unfolding vprintfmt escape reswitch convert getint printnum
keeps_the_width = refl

pads_with_dashes : vprintfmt 12 3 memory 200 (λ i. 42) (codes "%-5d") 0 ≡ shows (codes "---42") 1
unfolding vprintfmt escape reswitch convert string put_string strnlen getint printnum
pads_with_dashes = refl

zero_padded_hex :
    vprintfmt 12 3 memory 200 (λ i. 0x1b5) (codes "%05x|%o") 0 ≡ shows (codes "001b5|665") 2
unfolding vprintfmt escape reswitch convert string put_string strnlen getint getuint printnum
zero_padded_hex = refl

negative_error :
    vprintfmt 12 3 memory 200 (λ i. 0xffff_fffc) (codes "%e") 0 ≡ shows (codes "out of memory") 1
unfolding vprintfmt escape reswitch convert error
negative_error = refl

vsnprintf-Holds_example :
    Holds memory 300 4 (codes ":-7%q") (vsnprintf 12 3 memory 200 arguments 300 4 (codes ":%d%q") 1)
vsnprintf-Holds_example =
    vsnprintf-Holds 12 3 memory 200 arguments 300 4 (codes ":%d%q") (codes ":-7%q") 1 2
      (omega arith) (omega arith) (omega arith) (omega arith) λ m h. prints_in m

vcprintf-IsChunked_example :
    (calls : List (List ℕ)) × (vcprintf 12 3 memory 200 arguments memory (codes "%4.2s:%d%q") 0
      ≡ some (9, calls))
    × (joined calls ≡ codes "  hi:-7%q")
    × IsChunked calls
vcprintf-IsChunked_example =
    vcprintf-IsChunked 12 3 memory 200 arguments memory (codes "%4.2s:%d%q") (codes "  hi:-7%q") 0 2
      prints

strtol-vprintfmt_example :
    (vprintfmt 3 3 memory 200 arguments (codes "%d") 1 ≡ shows (shown_int 0xffff_fff9) 2)
    × (strtol (shown_int 0xffff_fff9) 10 ≡ (0xffff_fff9, []))
strtol-vprintfmt_example = strtol-vprintfmt 3 memory 200 arguments 1

reads_hex : strtol (codes " \t-0x1Fz") 0 ≡ (0xffff_ffe1, codes "z")
unfolding strtol read_digits after_digits digit_value
reads_hex = refl
