-- ===== src/Env/Birth.antt =====
-- kern/env.c: what env_setup_vm and env_alloc promise.
use xv6_lab.Base.{
  ==-refl, ℕ, ◌/◌, ◌%◌, ◌^◌, ◌≤◌, ◌<◌, ◌≡◌, ◌≢◌, refl, true, false, Option, none, some, List, [],
  ◌∷◌, arith, ◌==◌, ==→eq, ltb, update, has, Bool-cases, ◌⊎◌, inl, inr,
}
use xv6_lab.Base.Bits.{bit_or-Fields, bit_or-zero}
use xv6_lab.Machine.Mmu.{pdx, utop, uvpt}
use xv6_lab.Machine.Phys.{Phys, ok}
use xv6_lab.Machine.Kernel.{EnvStatus, Kernel, done, envx}
use xv6_lab.Pmap.FreeList.{IsFreeList, taken, with_ref, page_alloc_lem, page2pa-page}
use xv6_lab.Env.Lookup.{envid2env}
use xv6_lab.Env.Setup.{fresh_pgdir, start_pgdir, setup_pgdir}
use xv6_lab.Env.Alloc.{new, no_free_env, no_mem, fresh_env, next_id, env_alloc}
use xv6_lab.Env.Identity.{next_id_lem}

-- The physical memory once page `x` is the page directory of a new environment
abbrev pub directed : (x kern_pgdir : ℕ) → Phys → Phys
directed x kern_pgdir s = record (with_ref x 1 (taken true x s)) {
  mem = update (taken true x s).mem x (fresh_pgdir x ((taken true x s).mem kern_pgdir));
}

pub setup_pgdir-directed :
    {s : Phys} {x : ℕ} {xs : List ℕ} (kern_pgdir : ℕ)
    → s.npages ≤ 2 ^ 20
    → IsFreeList s (x ∷ xs)
    → setup_pgdir kern_pgdir s ≡ ok (some x) (directed x kern_pgdir s)
unfolding setup_pgdir start_pgdir
setup_pgdir-directed {s} {x} {xs} kern_pgdir small l =
    let bound : x < s.npages = (l.unused x (ground arith)).1 in
    let page = page2pa-page x s.npages bound small in
    let inside : ltb x s.npages ≡ true = ground arith in
    let zero_ref : (s.pages x).ref ≡ 0 = (l.unused x (ground arith)).0 in
    rw ((page_alloc_lem true (x ∷ xs) small l).0, page, inside, ==-refl x, zero_ref)

pub setup_pgdir-none :
    {s : Phys} (kern_pgdir : ℕ)
    → s.npages ≤ 2 ^ 20
    → IsFreeList s []
    → setup_pgdir kern_pgdir s ≡ ok none s
unfolding setup_pgdir start_pgdir
setup_pgdir-none kern_pgdir small l = rw (page_alloc_lem true [] small l)

-- The kernel once environment `e` has been allocated with the page directory `x`
abbrev pub born : (e parent_id x : ℕ) → Phys → Kernel → Kernel
born e parent_id x s k = record k {
  phys = s;
  envs = update k.envs e (fresh_env (next_id (k.envs e).id e) parent_id x (k.envs e));
  env_free_list = (k.envs e).link;
}

module _ (k : Kernel) (parent_id : ℕ) where
  -- env_alloc reports that no environment is free, and changes nothing.
  pub env_alloc-no_free_env : k.env_free_list ≡ none → env_alloc parent_id k ≡ done no_free_env k
  unfolding env_alloc
  env_alloc-no_free_env h = rw h

  -- env_alloc reports that no page is free, and changes nothing.
  pub env_alloc-no_mem :
      {e : ℕ}
      → k.env_free_list ≡ some e
      → k.phys.npages ≤ 2 ^ 20
      → IsFreeList k.phys []
      → env_alloc parent_id k ≡ done no_mem k
  unfolding env_alloc
  env_alloc-no_mem h small l = rw (h, setup_pgdir-none k.kern_pgdir small l)

  pub env_alloc-born :
      {e x : ℕ} {xs : List ℕ}
      → k.env_free_list ≡ some e
      → k.phys.npages ≤ 2 ^ 20
      → IsFreeList k.phys (x ∷ xs)
      → env_alloc parent_id k ≡ done (new e) (born e parent_id x (directed x k.kern_pgdir k.phys) k)
  unfolding env_alloc
  env_alloc-born {e} h small l = rw (h, setup_pgdir-directed k.kern_pgdir small l, ==-refl e)

-- Entry `i` of the page directory `x` of a new environment: nothing below UTOP, the page directory
-- itself for UVPT, readable by the user, and the kernel's entry elsewhere.
abbrev pub Entry : (x i kern : ℕ) → Phys → Type 0
Entry x i kern s =
    ((i < pdx utop) × (s.mem x i ≡ 0))
    ⊎ (((i ≡ pdx uvpt) × (s.mem x i / 4096 ≡ x) × (s.mem x i % 4096 ≡ 5))
        ⊎ ((pdx utop ≤ i) × (i ≢ pdx uvpt) × (s.mem x i ≡ kern)))

-- What a successful allocation of environment `e` leaves behind.
pub record Born (cur parent_id e x old i : ℕ) (k k' : Kernel) : Type 0 where
  pub names_new : envid2env cur (k'.envs e).id false k' ≡ some e
  pub drops_old : (old ≡ 0) ⊎ (envid2env cur old false k' ≡ none)
  pub same_envs : k'.envs ≡ update k.envs e (k'.envs e)
  pub unlinked : k'.env_free_list ≡ (k.envs e).link
  pub runnable : (k'.envs e).status ≡ EnvStatus.runnable
  pub parent : (k'.envs e).parent_id ≡ parent_id
  pub directory : (k'.envs e).pgdir ≡ x
  pub counted : (k'.phys.pages x).ref ≡ 1
  pub entry : Entry x i (k.phys.mem k.kern_pgdir i) k'.phys

fresh_pgdir-entry :
    (x i kern : ℕ) (s : Phys) (f : ℕ → ℕ)
    → x < 2 ^ 20
    → i < 1024
    → s.mem x i ≡ fresh_pgdir x f i
    → f i ≡ kern
    → Entry x i kern s
fresh_pgdir-entry x i kern s f small b h q = ground (
  arith,
  bit_or-Fields 12 x 0 0 1 (omega arith) (omega arith),
  bit_or-Fields 12 x 0 1 4 (omega arith) (omega arith),
  bit_or-zero x,
)

module _ (k : Kernel) (cur e old : ℕ) (p : Phys) (parent_id x : ℕ) (l : Option ℕ) where
  abbrev with_new : Kernel
  with_new = record k {
    phys = p;
    envs = update k.envs e (fresh_env (next_id (k.envs e).id e) parent_id x (k.envs e));
    env_free_list = l;
  }

  with_new-names :
      e < 1024
      → (k.envs e).id < 2 ^ 31
      → envid2env cur (next_id (k.envs e).id e) false with_new ≡ some e
  unfolding envid2env
  with_new-names b w =
      let (pos, _, slot, _) = next_id_lem (k.envs e).id e b w in
      let nonzero : (next_id (k.envs e).id e == 0) ≡ false = ground arith in
      rw (nonzero, slot, ==-refl e, ==-refl (next_id (k.envs e).id e))

  with_new-drops :
      e < 1024
      → (k.envs e).id ≡ old
      → old < 2 ^ 31
      → (old ≡ 0) ⊎ (envx old ≡ e)
      → (old ≡ 0) ⊎ (envid2env cur old false with_new ≡ none)
  unfolding envid2env
  with_new-drops b q w (inl z) = inl z
  with_new-drops b q w (inr slot) =
      let (_, _, _, ne) = next_id_lem old e b w in
      let other : (next_id old e == old) ≡ false = ground arith in
      elim (Bool-cases (old == 0)) [
        | inl z ↦ inl (==→eq old 0 z)
        | inr z ↦ inr (rw (z, slot, ==-refl e, q, other))
      ]

-- With a free environment whose old id is not negative, and is 0 or names its slot, and a free
-- page that is not the kernel's page directory: env_alloc makes that environment runnable under a
-- new id, which names it, while the old id names nothing; no other environment changes; its page
-- directory is the new page, empty below UTOP, with itself at UVPT and the kernel's entries
-- elsewhere.
pub env_alloc-Born :
    (k : Kernel) (parent_id cur old i : ℕ) {e x : ℕ} {xs : List ℕ}
    → k.env_free_list ≡ some e
    → e < 1024
    → k.phys.npages ≤ 2 ^ 20
    → IsFreeList k.phys (x ∷ xs)
    → has k.kern_pgdir (x ∷ xs) ≡ false
    → (k.envs e).id ≡ old
    → old < 2 ^ 31
    → (old ≡ 0) ⊎ (envx old ≡ e)
    → i < 1024
    → (k' : Kernel) × (env_alloc parent_id k ≡ done (new e) k') × Born cur parent_id e x old i k k'
env_alloc-Born k parent_id cur old i {e} {x} {xs} h b small l out q wide slot bi = (
  born e parent_id x (directed x k.kern_pgdir k.phys) k,
  env_alloc-born k parent_id h small l,
  record {
    names_new = rw (==-refl e) (with_new-names k cur e old _ parent_id x _ b (rw q wide));
    drops_old = with_new-drops k cur e old _ parent_id x _ b q wide slot;
    same_envs = rw (==-refl e) refl;
    unlinked = refl;
    runnable = rw (==-refl e) refl;
    parent = rw (==-refl e) refl;
    directory = rw (==-refl e) refl;
    counted = rw (==-refl x) refl;
    entry =
        let other : (k.kern_pgdir == x) ≡ false = ground arith in
        let inside : x < k.phys.npages = (l.unused x (ground arith)).1 in
        fresh_pgdir-entry x i _ (directed x k.kern_pgdir k.phys) (k.phys.mem k.kern_pgdir)
          (omega arith) bi (rw (==-refl x, other) refl) refl;
  },
)
