-- ===== src/Env/Identity.antt =====
-- kern/env.c: environment ids. Which environment an id names, and what env_alloc makes of the old id of
-- a slot.
use xv6_lab.Base.{ℕ, ◌+◌, ◌*◌, ◌/◌, ◌^◌, ◌<◌, ◌≡◌, ◌≢◌, ◌⊎◌, ◌↔◌, Bool, false, some, arith}
use xv6_lab.Base.Bits.{bit_or-Fields, bit_or-zero, zero-bit_or}
use xv6_lab.Machine.Kernel.{Kernel, envx}
use xv6_lab.Env.Lookup.{envid2env, is_free}
use xv6_lab.Env.Alloc.{generation, next_id}

-- What it takes for `envid` to name environment `e` for the caller `cur`: 0 names the caller; any other
-- id names the slot in its low ten bits, if that is in use under exactly this id and, where permission
-- is asked for, is the caller or a child of the caller.
abbrev pub Names : (cur envid : ℕ) → Bool → Kernel → ℕ → Type 0
Names cur envid checkperm k e =
    ((envid ≡ 0) × (e ≡ cur))
    ⊎ ((envid ≢ 0)
        × (e ≡ envx envid)
        × (is_free (k.envs e).status ≡ false)
        × ((k.envs e).id ≡ envid)
        × ((checkperm ≡ false) ⊎ ((e ≡ cur) ⊎ ((k.envs e).parent_id ≡ (k.envs cur).id))))

-- envid2env finds an environment exactly if the id names it: 0 names the caller, any other id the
-- slot of its low ten bits if that is in use under exactly this id and, where permission is asked
-- for, is the caller or a child of the caller.
pub envid2env_iff :
    (cur envid : ℕ) (checkperm : Bool) (k : Kernel) (e : ℕ)
    → (envid2env cur envid checkperm k ≡ some e) ↔ Names cur envid checkperm k e
unfolding envid2env
envid2env_iff cur envid checkperm k e = (λ h. ground arith, λ h. ground arith)

generation-high : (id : ℕ) → (g : ℕ) × (generation id ≡ g * 1024) × (0 < g) × (g < 2 ^ 21)
generation-high id = (generation id / 1024, ground arith, ground arith, ground arith)

next_id-sum : (id e : ℕ) → e < 1024 → next_id id e ≡ generation id + e
unfolding next_id
next_id-sum id e h =
    let (g, eq, _, _) = generation-high id in
    rw eq (ground (arith, bit_or-Fields 10 g 0 0 e (omega arith) h, bit_or-zero g, zero-bit_or e))

-- The id that env_alloc gives to a slot below NENV whose old id is not negative is a positive
-- int32_t, names the slot, and differs from the slot's old id.
pub next_id_lem :
    (id e : ℕ)
    → e < 1024
    → id < 2 ^ 31
    → (0 < next_id id e) × (next_id id e < 2 ^ 31) × (envx (next_id id e) ≡ e) × (next_id id e ≢ id)
next_id_lem id e h b =
    rw (next_id-sum id e h) (ground arith, ground arith, ground arith, λ q. ground arith)
