-- ===== src/Env/Destroy.antt =====
-- kern/env.c: env_free and env_destroy, on the kernel's state.
use xv6_lab.Base.{ℕ, none, some, ◌&&◌, not, is, if◌then◌else◌}
use xv6_lab.Machine.Kernel.{
  EnvStatus, K, pure, ◌>>=◌, ◌>>◌, get, put, lift, set_env, set_curenv, curenv, cur_pgdir,
}
use xv6_lab.Env.Free.{free_space}
use xv6_lab.Env.Sched.{is_running, sched_yield}

unfoldable pub env_free : ℕ → K (Unit {0})
env_free e = do
  k ← get
  put (if is (curenv k) e then record k { cr3 = k.kern_pgdir } else k)
  lift (free_space (cur_pgdir k) (k.envs e).pgdir)
  j ← get
  put (record j { env_free_list = some e })
  set_env e (record (j.envs e) { pgdir = 0; status = EnvStatus.free; link = j.env_free_list })

unfoldable pub env_destroy : ℕ → K (Unit {0})
env_destroy e = do
  k ← get
  if is_running (k.envs e).status && not (is (curenv k) e)
      then set_env e (record (k.envs e) { status = EnvStatus.dying })
      else (do
        env_free e
        j ← get
        if is (curenv j) e then set_curenv none >> sched_yield else pure tt)
