-- ===== src/Syscall/Forking.antt =====
-- kern/syscall.c: what sys_exofork makes.
use xv6_lab.Base.{
  ==-refl, ℕ, ◌^◌, ◌≤◌, ◌<◌, ◌≡◌, ◌≢◌, refl, false, some, List, ◌∷◌, arith, ◌==◌, has, ◌⊎◌, update,
  true, inl, inr, ap, ◌∙◌, sym,
}
use xv6_lab.Machine.Kernel.{EnvStatus, Env, Trapframe, Kernel, done, envx}
use xv6_lab.Pmap.FreeList.{IsFreeList}
use xv6_lab.Env.Lookup.{envid2env}
use xv6_lab.Env.Identity.{Names, envid2env_iff}
use xv6_lab.Env.Birth.{Entry, Born, env_alloc-Born}
use xv6_lab.Syscall.Ret.{val}
use xv6_lab.Syscall.Proc.{forked, fork_child, sys_exofork}

-- The registers of the parent, with 0 for the result
abbrev pub answered_zero : Trapframe → Trapframe
answered_zero tf = record tf { regs = record (tf.regs) { eax = 0 } }

abbrev with_child : (cur e : ℕ) → Kernel → Kernel
with_child cur e k = record k { envs = update k.envs e (forked (k.envs cur) (k.envs e)) }

-- What sys_exofork of environment `cur` leaves, with the child `e` and its page directory `x`.
pub record Forked (cur e x i : ℕ) (k k' : Kernel) : Type 0 where
  pub named : envid2env cur (k'.envs e).id true k' ≡ some e
  pub status : (k'.envs e).status ≡ EnvStatus.not_runnable
  pub frame : (k'.envs e).tf ≡ answered_zero (k.envs cur).tf
  pub parent : (k'.envs e).parent_id ≡ (k.envs cur).id
  pub others : (f : ℕ) → f ≢ e → k'.envs f ≡ k.envs f
  pub directory : (k'.envs e).pgdir ≡ x
  pub entry : Entry x i (k.phys.mem k.kern_pgdir i) k'.phys

module _ (k j : Kernel) (cur e old x i : ℕ) (apart : cur ≢ e)
    (born : Born cur (k.envs cur).id e x old i k j) where
  other-same : (f : ℕ) → f ≢ e → j.envs f ≡ k.envs f
  other-same f ne =
      let off : (f == e) ≡ false = ground arith in
      ap (λ (envs : ℕ → Env). envs f) born.same_envs ∙ rw off refl

  child-Names : Names cur (j.envs e).id true (with_child cur e j) e
  child-Names = elim ((envid2env_iff cur (j.envs e).id false j e).0 born.names_new) [
    | inl (zero_id, same) ↦ absurd (apart (sym same))
    | inr (nonzero, slot, used, id, p) ↦
        let off : (cur == e) ≡ false = ground arith in
        rw (==-refl e, off)
          (inr (
            nonzero,
            slot,
            refl,
            refl,
            inr (inr (born.parent ∙ sym (ap (λ (env : Env). env.id) (other-same cur apart)))),
          ))
  ]

  with_child-Forked : Forked cur e x i k (with_child cur e j)
  with_child-Forked = record {
    named =
        rw (==-refl e)
          ((envid2env_iff cur (j.envs e).id true (with_child cur e j) e).1 child-Names);
    status = rw (==-refl e) refl;
    frame = rw (==-refl e, other-same cur apart) refl;
    parent = rw (==-refl e) born.parent;
    others = λ f ne. ground (arith, other-same f ne);
    directory = rw (==-refl e) born.directory;
    entry = born.entry;
  }

-- With a free environment other than the caller, whose old id is not negative, and is 0 or names
-- its slot, and a free page that is not the kernel's page directory: sys_exofork returns the id of
-- that environment, which names it for the caller as its child; the child is not runnable, has the
-- caller's registers with 0 in eax, and has the new page as its page directory, empty below UTOP,
-- with itself at UVPT and the kernel's entries elsewhere; no other environment changes.
pub sys_exofork-Forked :
    (k : Kernel) (cur old i : ℕ) {e x : ℕ} {xs : List ℕ}
    → k.env_free_list ≡ some e
    → cur ≢ e
    → e < 1024
    → k.phys.npages ≤ 2 ^ 20
    → IsFreeList k.phys (x ∷ xs)
    → has k.kern_pgdir (x ∷ xs) ≡ false
    → (k.envs e).id ≡ old
    → old < 2 ^ 31
    → (old ≡ 0) ⊎ (envx old ≡ e)
    → i < 1024
    → (k' : Kernel) × (sys_exofork cur k ≡ done (val (k'.envs e).id) k') × Forked cur e x i k k'
unfolding sys_exofork fork_child
sys_exofork-Forked k cur old i {e} {x} head apart slot small free out id positive place word =
    let (j, made, born) =
      env_alloc-Born k (k.envs cur).id cur old i head slot small free out id positive place word in
    (with_child cur e j, rw made refl, with_child-Forked k j cur e old x i apart born)
