-- ===== src/Env/Lookup.antt =====
-- kern/env.c: envid2env.
use xv6_lab.Base.{ℕ, Bool, true, false, Option, none, some, ◌&&◌, ◌||◌, not, ◌==◌, if◌then◌else◌}
use xv6_lab.Machine.Kernel.{EnvStatus, Kernel, envx}

abbrev pub is_free : EnvStatus → Bool
is_free EnvStatus.free = true
is_free _ = false

-- `cur` is curenv, which is not NULL in a system call. The result is `*env_store`; `none` stands for
-- -E_BAD_ENV with NULL stored.
unfoldable pub envid2env : (cur envid : ℕ) → Bool → Kernel → Option ℕ
envid2env cur envid checkperm k =
    let e = envx envid in
    if envid == 0
    then some cur
    else if is_free (k.envs e).status || not ((k.envs e).id == envid)
    then none
    else if checkperm && not (e == cur) && not ((k.envs e).parent_id == (k.envs cur).id)
    then none
    else some e
