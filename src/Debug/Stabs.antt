-- ===== src/Debug/Stabs.antt =====
-- kern/kdebug.c: stab_binsearch.
--
-- The right ends `r` and `right` stand one behind the last entry, so they are the code's plus 1.
use xv6_lab.Base.{
  ℕ, zero, suc, ◌+◌, ◌-◌, ◌/◌, Bool, true, false, none, some, Option, ◌==◌, ltb, if◌then◌else◌,
}
use xv6_lab.Machine.Mmu.{u32}

-- The fields of `struct Stab` that are read
pub record Stab : Type 0 where
  pub n_strx : ℕ
  pub n_type : ℕ
  pub n_value : ℕ

-- The variables of the search: `left` and `right` are `*region_left` and `*region_right`.
pub record Search : Type 0 where
  pub l : ℕ
  pub r : ℕ
  pub left : ℕ
  pub right : ℕ
  pub any_matches : Bool
  pub addr : ℕ

module _ (stabs : ℕ → Stab) (type : ℕ) where
  -- The loop on `m`: the nearest entry of the type among the `n` entries down from `m`
  unfoldable pub back_to_type : (n m : ℕ) → Option ℕ
  back_to_type zero m = none
  back_to_type (suc n) m =
      let rest = back_to_type n (m - 1) in if (stabs m).n_type == type then some m else rest

  abbrev pub true_m : Search → ℕ
  true_m s = (s.l + (s.r - 1)) / 2

  -- What a round does with the entry that it found
  abbrev pub compared : Search → Option ℕ → Search
  compared s none = record s { l = true_m s + 1 }
  compared s (some m) =
      if ltb (stabs m).n_value s.addr
      then record s { any_matches = true; left = m; l = true_m s + 1 }
      else if ltb s.addr (stabs m).n_value
      then record s { any_matches = true; right = m; r = m }
      else record s { any_matches = true; left = m; l = m; addr = u32 (s.addr + 1) }

  unfoldable pub search_round : Search → Search
  search_round s = compared s (back_to_type (true_m s + 1 - s.l) (true_m s))

  -- `while (l <= r)`, `none` if the fuel is used up
  unfoldable pub search_rounds : (fuel : ℕ) → Search → Option Search
  search_rounds zero s = none
  search_rounds (suc f) s =
      let rest = search_rounds f (search_round s) in if ltb s.l s.r then rest else some s

  -- The last loop, from the entry before `p` down to `left`, with `n` entries between them
  unfoldable pub rightmost : (n p : ℕ) → ℕ
  rightmost zero p = p
  rightmost (suc n) p =
      let rest = rightmost n (p - 1) in if (stabs (p - 1)).n_type == type then p else rest

  -- What is stored in `*region_left` and `*region_right` at the end, each plus 1
  abbrev pub region : Search → ℕ × ℕ
  region s =
      if s.any_matches
      then (rightmost (s.right - (s.left + 1)) s.right, s.right)
      else (s.left + 1, s.left)

  abbrev pub ending : Option Search → Option (ℕ × ℕ)
  ending none = none
  ending (some s) = some (region s)

  unfoldable pub stab_binsearch : (fuel region_left region_right addr : ℕ) → Option (ℕ × ℕ)
  stab_binsearch fuel left right addr = ending (
      search_rounds fuel (record {
        l = left;
        r = right;
        left = left;
        right = right;
        any_matches = false;
        addr = addr;
      }))
