-- ===== src/Env/Alloc.antt =====
-- kern/env.c: env_init and env_alloc.
use xv6_lab.Base.{
  ℕ, zero, suc, ◌+◌, ◌*◌, ◌/◌, ◌^◌, false, none, some, ◌||◌, bit_or, leb, ◌==◌, if◌then◌else◌,
  update,
}
use xv6_lab.Machine.Mmu.{u32, ustacktop}
use xv6_lab.Machine.Kernel.{
  EnvStatus, Trapframe, Env, Kernel, K, pure, ◌>>=◌, ◌>>◌, get, put, lift, set_env, nenv,
}
use xv6_lab.Env.Setup.{setup_pgdir}

-- One round of the loop of env_init.
unfoldable pub init_env : ℕ → Kernel → Kernel
init_env i k = record k {
  envs =
      update k.envs i
        (record (k.envs i) { id = 0; status = EnvStatus.free; link = k.env_free_list });
  env_free_list = some i;
}

-- `for (i = NENV - 1; i >= 0; i--)`, with the environments below `n` left to do
unfoldable pub init_envs : ℕ → Kernel → Kernel
init_envs zero k = k
init_envs (suc n) k = init_envs n (init_env n k)

-- env_init, less the loading of the segment registers in env_init_percpu
unfoldable pub env_init : Kernel → Kernel
env_init k = init_envs nenv (record k { env_free_list = none })

-- The register values of a new environment. GD_UD | 3 is 0x23, GD_UT | 3 is 0x1b, FL_IF is 0x200.
abbrev pub fresh_tf : Trapframe
fresh_tf = record {
  regs = record { edi = 0; esi = 0; ebp = 0; oesp = 0; ebx = 0; edx = 0; ecx = 0; eax = 0 };
  es = 0x23;
  ds = 0x23;
  trapno = 0;
  err = 0;
  eip = 0;
  cs = 0x1b;
  eflags = 0x200;
  esp = ustacktop;
  ss = 0x23;
}

-- `(env_id + (1 << ENVGENSHIFT)) & ~(NENV - 1)` on an int32_t, `1 << ENVGENSHIFT` if that is not
-- positive
abbrev pub generation : (id : ℕ) → ℕ
generation id =
    let sum = u32 (id + 2 ^ 12) / 1024 * 1024 in
    if sum == 0 || leb (2 ^ 31) sum then 2 ^ 12 else sum

-- The id that slot `e` gets after `id`
unfoldable pub next_id : (id e : ℕ) → ℕ
next_id id e = bit_or (generation id) e

-- What env_alloc can answer.
pub data Alloc : Type 0 where
  new : ℕ → Alloc
  no_free_env : Alloc
  no_mem : Alloc

abbrev pub fresh_env : (id parent_id pgdir : ℕ) → Env → Env
fresh_env id parent_id pgdir env = record env {
  id = id;
  parent_id = parent_id;
  type = 0;
  status = EnvStatus.runnable;
  runs = 0;
  tf = fresh_tf;
  pgfault_upcall = 0;
  pgdir = pgdir;
  ipc = record (env.ipc) { recving = false };
}

unfoldable pub env_alloc : (parent_id : ℕ) → K Alloc
env_alloc parent_id = do
  k ← get
  elim k.env_free_list [
    | none ↦ pure no_free_env
    | some e ↦ do
      pgdir ← lift (setup_pgdir k.kern_pgdir)
      elim pgdir [
        | none ↦ pure no_mem
        | some p ↦ do
          set_env e (fresh_env (next_id (k.envs e).id e) parent_id p (k.envs e))
          j ← get
          put (record j { env_free_list = (j.envs e).link })
          pure (new e)
      ]
  ]
