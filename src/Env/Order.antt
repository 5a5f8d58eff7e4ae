-- ===== src/Env/Order.antt =====
-- kern/env.c, env_init: the free list of environments.
use xv6_lab.Base.{
  ℕ, zero, suc, ◌+◌, ◌<◌, ◌≡◌, refl, true, none, some, arith, ◌==◌, if◌then◌else◌, ◌∙◌, ltb,
}
use xv6_lab.Machine.Kernel.{EnvStatus, Kernel, nenv}
use xv6_lab.Env.Alloc.{init_env, init_envs, env_init}

-- What the rounds for the slots below `n` make of slot `i`
abbrev pub Listed : (n i : ℕ) → (k k' : Kernel) → Type 0
Listed n i k k' =
    (k'.env_free_list ≡ (if n == 0 then k.env_free_list else some 0))
    × ((k'.envs i).link ≡ (
        if ltb i n then if i + 1 == n then k.env_free_list else some (i + 1) else (k.envs i).link))
    × ((k'.envs i).id ≡ (if ltb i n then 0 else (k.envs i).id))
    × ((k'.envs i).status ≡ (if ltb i n then EnvStatus.free else (k.envs i).status))

init_envs-Listed : (n i : ℕ) (k : Kernel) → Listed n i k (init_envs n k)
unfolding init_envs init_env
init_envs-Listed zero i k = (refl, ground arith, ground arith, ground arith)
init_envs-Listed (suc n) i k =
    let (head, link, id, status) = init_envs-Listed n i (init_env n k) in
    (ground (arith, head), ground (arith, link), ground (arith, id), ground (arith, status))

-- After env_init the free list starts at slot 0 and goes up slot by slot to the last one, and each
-- slot below NENV is free with id 0.
pub env_init-order :
    (k : Kernel) (i : ℕ)
    → i < nenv
    → ((env_init k).env_free_list ≡ some 0)
      × (((env_init k).envs i).link ≡ (if i + 1 == nenv then none else some (i + 1)))
      × (((env_init k).envs i).id ≡ 0)
      × (((env_init k).envs i).status ≡ EnvStatus.free)
unfolding env_init
env_init-order k i h =
    let below : ltb i nenv ≡ true = ground arith in
    let (head, link, id, status) = init_envs-Listed nenv i (record k { env_free_list = none }) in
    (head, link ∙ rw below refl, id ∙ rw below refl, status ∙ rw below refl)
