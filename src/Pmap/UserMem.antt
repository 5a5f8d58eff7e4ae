-- ===== src/Pmap/UserMem.antt =====
-- kern/pmap.c: user_mem_check.
use xv6_lab.Base.{
  ℕ, zero, suc, ◌+◌, ◌-◌, ◌/◌, false, Option, none, some, ◌||◌, not, bit_and, leb, ◌==◌,
  if◌then◌else◌,
}
use xv6_lab.Machine.Mmu.{u32, pgsize, round_down, round_up, ulim}
use xv6_lab.Machine.Phys.{M, pure, ◌>>=◌, load}
use xv6_lab.Pmap.Table.{pgdir_walk}

-- The address that a failure reports: `va` in the first page, else the start of the page.
abbrev pub blame : ℕ → ℕ → ℕ
blame va start = if start == round_down va pgsize then va else start

-- `n` pages are left from `start` on. The result is the erroneous address, `none` if all is well.
unfoldable pub user_mem_rounds : ℕ → (pgdir va start perm : ℕ) → M (Option ℕ)
user_mem_rounds zero pgdir va start perm = pure none
user_mem_rounds (suc n) pgdir va start perm = do
  cur ← pgdir_walk pgdir start false
  elim cur [
    | none ↦ pure (some (blame va start))
    | some e ↦ do
      pte ← load e
      let rest = user_mem_rounds n pgdir va (start + pgsize) perm
      if leb ulim start || not (bit_and pte perm == perm)
          then pure (some (blame va start))
          else rest
  ]

-- `none` is the result 0; `some a` is -E_FAULT with `a` in user_mem_check_addr.
unfoldable pub user_mem_check : (pgdir va len perm : ℕ) → M (Option ℕ)
user_mem_check pgdir va len perm =
    let start = round_down va pgsize in
    let end = round_up (u32 (va + len)) pgsize in
    user_mem_rounds ((end - start) / pgsize) pgdir va start perm
