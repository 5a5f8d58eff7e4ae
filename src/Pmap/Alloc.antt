-- ===== src/Pmap/Alloc.antt =====
-- kern/pmap.c: page_alloc, page_free and page_decref.
use xv6_lab.Base.{ℕ, ◌+◌, ◌%◌, ◌^◌, Bool, true, false, Option, none, some, ◌==◌, if◌then◌else◌}
use xv6_lab.Machine.Phys.{
  M, pure, ◌>>=◌, ◌>>◌, get, set_page, set_free_list, check, page2kva, clear_page,
}

-- `p == NULL`
abbrev pub is_null : Option ℕ → Bool
is_null none = true
is_null (some _) = false

-- The flag is `alloc_flags & ALLOC_ZERO`.
unfoldable pub page_alloc : Bool → M (Option ℕ)
page_alloc zeroed = do
  s ← get
  elim s.free_list [
    | none ↦ pure none
    | some res ↦ do
      set_free_list (s.pages res).link
      set_page res (record { link = none; ref = (s.pages res).ref })
      if zeroed then page2kva res >>= clear_page else pure tt
      pure (some res)
  ]

unfoldable pub page_free : ℕ → M (Unit {0})
page_free p = do
  s ← get
  check ((s.pages p).ref == 0)
  check (is_null (s.pages p).link)
  set_page p (record { link = s.free_list; ref = (s.pages p).ref })
  set_free_list (some p)

-- `--pp->pp_ref` on a uint16_t
abbrev pub dec16 : ℕ → ℕ
dec16 r = (r + 65535) % 2 ^ 16

abbrev pub inc16 : ℕ → ℕ
inc16 r = (r + 1) % 2 ^ 16

unfoldable pub page_decref : ℕ → M (Unit {0})
page_decref p = do
  s ← get
  set_page p (record { link = (s.pages p).link; ref = dec16 (s.pages p).ref })
  if dec16 (s.pages p).ref == 0 then page_free p else pure tt
