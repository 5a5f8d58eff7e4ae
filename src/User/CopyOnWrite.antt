-- ===== src/User/CopyOnWrite.antt =====
-- lib/fork.c, pgfault: a program that writes to a copy-on-write page gets a copy of it.
use xv6_lab.Base.{ℕ, ◌*◌, ◌/◌, ◌%◌, ◌≡◌, true, false, List, ◌==◌}
use xv6_lab.Machine.Phys.{Phys}
use xv6_lab.Machine.Kernel.{Kernel}
use xv6_lab.Pmap.Space.{pte_at}
use xv6_lab.User.Copying.{CanCopy}
use xv6_lab.User.Fork.{is_cow}

-- A write fault in `e` at `va`, on a copy-on-write page that is page `q`, whose page address is `page`
pub record IsCowFault (e va err page : ℕ) (k : Kernel) (q : ℕ) (xs : List ℕ) : Type 0 where
  pub write : (err / 2 % 2 == 0) ≡ false
  pub address : va / 4096 * 4096 ≡ page
  pub cow : is_cow (pte_at k.phys.mem (k.envs e).pgdir page) ≡ true
  pub can : CanCopy k.phys (k.envs e).pgdir page q xs
