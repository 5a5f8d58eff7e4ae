-- ===== src/Traps/Upcall.antt =====
-- kern/trap.c: what page_fault_handler leaves on the exception stack.
use xv6_lab.Base.{
  ℕ, zero, suc, ◌+◌, ◌-◌, ◌*◌, ◌/◌, ◌%◌, ◌^◌, ◌≤◌, ◌<◌, ◌≡◌, ◌≢◌, ◌⊎◌, refl, true, false, none,
  some, List, [], ◌∷◌, arith, bit_or, ◌==◌, ==-refl, update, ap, ◌∙◌, length, get_elem?,
}
use xv6_lab.Machine.Mmu.{u32, pgsize, pdx, ptx, pgoff, pgnum, pte_addr, pte_u, uxstacktop}
use xv6_lab.Machine.Phys.{ok}
use xv6_lab.Machine.Kernel.{Trapframe, Kernel, done, enter, curenv}
use xv6_lab.Pmap.UserMem.{user_mem_check}
use xv6_lab.Env.Sched.{env_run}
use xv6_lab.Syscall.Proc.{user_mem_assert}
use xv6_lab.Traps.Resume.{env_run-tf}
use xv6_lab.Traps.Fault.{
  Arrival, saved, can_write, frame_page, set_word, store_word, store_words, utrapframe, frame_base,
  push_fault, page_fault_handler,
}

-- An array with the words `ws` written from index `i` on
pub written : (ℕ → ℕ) → (i : ℕ) → List ℕ → ℕ → ℕ
written f i [] = f
written f i (w ∷ ws) = written (update f i w) (i + 1) ws

written-outside :
    (f : ℕ → ℕ) (i : ℕ) (ws : List ℕ) (j : ℕ)
    → (j < i) ⊎ (i + length ws ≤ j)
    → written f i ws j ≡ f j
unfolding written
written-outside f i [] j h = refl
written-outside f i (w ∷ ws) j h = ground (arith, written-outside (update f i w) (i + 1) ws j)

written-inside :
    (f : ℕ → ℕ) (i : ℕ) (ws : List ℕ) (j w : ℕ)
    → get_elem? ws j ≡ some w
    → written f i ws (i + j) ≡ w
unfolding written
written-inside f i [] j w h = cc
written-inside f i (x ∷ ws) zero w h = ground (arith, written-outside (update f i x) (i + 1) ws i)
written-inside f i (x ∷ ws) (suc j) w h =
    ap (written (update f i x) (i + 1) ws) {x = i + suc j} {y = i + 1 + j} (omega arith)
    ∙ written-inside (update f i x) (i + 1) ws j w h

-- The kernel can write at `va`, which lies in physical page `p`; that is neither the page directory
-- nor the page table in use.
pub record IsMapped (k : Kernel) (va p : ℕ) : Type 0 where
  pub allowed : can_write k va ≡ true
  pub page : frame_page k va ≡ p
  pub off_root : p ≢ k.cr3
  pub off_table : p ≢ pgnum (pte_addr (k.phys.mem k.cr3 (pdx va)))

IsMapped-next :
    {k : Kernel} {va p : ℕ} (i v : ℕ)
    → IsMapped k va p
    → va < 2 ^ 32
    → pgoff va + 8 ≤ 4096
    → IsMapped (set_word k p i v) (u32 (va + 4)) p
IsMapped-next {k} {va} {p} i v m low room =
    let d : pdx (u32 (va + 4)) ≡ pdx va = omega arith in
    let t : ptx (u32 (va + 4)) ≡ ptx va = omega arith in
    let root : (k.cr3 == p) ≡ false = ground (arith, m.off_root) in
    let table : (pgnum (pte_addr (k.phys.mem k.cr3 (pdx va))) == p) ≡ false =
      ground (arith, m.off_table) in
    record {
      allowed = rw (d, t, root, table) m.allowed;
      page = rw (d, t, root, table) m.page;
      off_root = m.off_root;
      off_table = rw (d, root) m.off_table;
    }

-- Memory with the words `ws` written to page `p` from word `i` on
pub mem_words : (p i : ℕ) → List ℕ → (ℕ → ℕ → ℕ) → ℕ → ℕ → ℕ
mem_words p i [] mem = mem
mem_words p i (w ∷ ws) mem = mem_words p (i + 1) ws (update mem p (update (mem p) i w))

mem_words-page :
    (p i : ℕ) (ws : List ℕ) (mem : ℕ → ℕ → ℕ) → mem_words p i ws mem p ≡ written (mem p) i ws
unfolding mem_words written
mem_words-page p i [] mem = refl
mem_words-page p i (w ∷ ws) mem =
    mem_words-page p (i + 1) ws (update mem p (update (mem p) i w)) ∙ (rw (==-refl p) refl)

mem_words-other :
    (p i : ℕ) (ws : List ℕ) (mem : ℕ → ℕ → ℕ) (q : ℕ) → q ≢ p → mem_words p i ws mem q ≡ mem q
unfolding mem_words
mem_words-other p i [] mem q h = refl
mem_words-other p i (w ∷ ws) mem q h =
    let other : (q == p) ≡ false = ground arith in
    mem_words-other p (i + 1) ws (update mem p (update (mem p) i w)) q h ∙ (rw other refl)

abbrev pub with_words : (p i : ℕ) → List ℕ → Kernel → Kernel
with_words p i ws k = record k { phys = record (k.phys) { mem = mem_words p i ws k.phys.mem } }

store_word-mapped :
    {k : Kernel} {va p : ℕ} (v : ℕ)
    → IsMapped k va p
    → va % 4 ≡ 0
    → store_word va v k ≡ done tt (set_word k p (pgoff va / 4) v)
unfolding store_word
store_word-mapped {k} {va} v m aligned = rw (aligned, m.allowed, m.page) refl

store_words-mapped :
    (k : Kernel) (va p : ℕ) (ws : List ℕ)
    → IsMapped k va p
    → va < 2 ^ 32
    → va % 4 ≡ 0
    → pgoff va + 4 * length ws ≤ 4096
    → store_words va ws k ≡ done tt (with_words p (pgoff va / 4) ws k)
unfolding store_words mem_words
store_words-mapped k va p [] m low aligned room = refl
store_words-mapped k va p (w ∷ []) m low aligned room = rw (store_word-mapped w m aligned) refl
store_words-mapped k va p (w ∷ x ∷ ws) m low aligned room =
    let index : pgoff (u32 (va + 4)) / 4 ≡ pgoff va / 4 + 1 = omega arith in
    rw (store_word-mapped w m aligned, ← index)
      (store_words-mapped (set_word k p (pgoff va / 4) w) (u32 (va + 4)) p (x ∷ ws)
        (IsMapped-next (pgoff va / 4) w m low (omega arith)) (omega arith) (omega arith)
        (omega arith))

-- A page fault of environment `e`, which has an upcall, with its exception stack ready and not full: the frame
-- would lie at `base` in the physical page `p`
pub record CanPush (e : ℕ) (k : Kernel) (p : ℕ) : Type 0 where
  pub current : curenv k ≡ some e
  pub user_mode : ((k.envs e).tf.cs % 4 == 0) ≡ false
  pub not_full : (k.envs e).tf.esp ≢ uxstacktop - pgsize
  pub upcall : ((k.envs e).pgfault_upcall == 0) ≡ false
  pub aligned : frame_base (k.envs e).tf.esp % 4 ≡ 0
  pub room : pgoff (frame_base (k.envs e).tf.esp) + 52 ≤ 4096
  pub passes :
      user_mem_check (k.envs e).pgdir (frame_base (k.envs e).tf.esp) 56 6 k.phys ≡ ok none k.phys
  pub mapped : IsMapped k (frame_base (k.envs e).tf.esp) p

-- The environment runs its upcall on the frame at `base`, in page `p`.
pub record Pushed (a : Arrival) (e : ℕ) (k : Kernel) (p base : ℕ) (k' : Kernel) : Type 0 where
  pub eip : (k'.envs e).tf.eip ≡ (k.envs e).pgfault_upcall
  pub esp : (k'.envs e).tf.esp ≡ base
  pub words :
      (j w : ℕ)
      → get_elem? (utrapframe a.cr2 (k.envs e).tf) j ≡ some w
      → k'.phys.mem p (pgoff base / 4 + j) ≡ w
  pub rest :
      (i : ℕ) → (i < pgoff base / 4) ⊎ (pgoff base / 4 + 13 ≤ i) → k'.phys.mem p i ≡ k.phys.mem p i
  pub pages : (q : ℕ) → q ≢ p → k'.phys.mem q ≡ k.phys.mem q

-- Where the frame starts: below the word under the stack pointer if that is within the exception
-- stack, else below the word at the top of the exception stack
abbrev pub Below : (esp base : ℕ) → Type 0
Below esp base =
    ((uxstacktop - pgsize < esp) × (esp < uxstacktop) × (base + 52 + 4 ≡ esp))
    ⊎ ((base + 52 + 4 ≡ uxstacktop) × ((esp < uxstacktop - pgsize) ⊎ (uxstacktop ≤ esp)))

frame_base-Below : (esp : ℕ) → esp ≢ uxstacktop - pgsize → Below esp (frame_base esp)
unfolding frame_base
frame_base-Below esp not_full = ground arith

user_mem_assert-passes :
    (e va len perm : ℕ) (k : Kernel)
    → user_mem_check (k.envs e).pgdir va len (bit_or perm pte_u) k.phys ≡ ok none k.phys
    → user_mem_assert e va len perm k ≡ done tt k
unfolding user_mem_assert
user_mem_assert-passes e va len perm k passes = rw passes refl

-- The frame that enters the upcall
abbrev pub redirected : (e base : ℕ) → Kernel → Trapframe
redirected e base k = record ((k.envs e).tf) { eip = (k.envs e).pgfault_upcall; esp = base }

abbrev pub redirect : (e base : ℕ) → Kernel → Kernel
redirect e base k = record k {
  envs = update k.envs e (record (k.envs e) { tf = redirected e base k });
}

module _ {e : ℕ} {k : Kernel} {p : ℕ} (a : Arrival) (can : CanPush e k p) where
  push_fault-runs :
      push_fault a (saved e) e k
      ≡ env_run e (
          redirect e (frame_base (k.envs e).tf.esp) (
            with_words p
              (pgoff (frame_base (k.envs e).tf.esp) / 4)
              (utrapframe a.cr2 (k.envs e).tf)
              k))
  unfolding push_fault
  push_fault-runs =
      rw
        (
          user_mem_assert-passes e (frame_base (k.envs e).tf.esp) 56 6 k can.passes,
          store_words-mapped k (frame_base (k.envs e).tf.esp) p (utrapframe a.cr2 (k.envs e).tf)
              can.mapped (omega (arith, frame_base-Below (k.envs e).tf.esp can.not_full))
              can.aligned can.room,
        )
        refl

  handler-pushes : page_fault_handler a (saved e) k ≡ push_fault a (saved e) e k
  unfolding page_fault_handler
  handler-pushes = rw (can.user_mode, can.current, can.upcall) refl

  pushed :
      (k' : Kernel)
      → (k'.envs e).tf ≡ redirected e (frame_base (k.envs e).tf.esp) k
      → k'.phys
        ≡ (with_words p
            (pgoff (frame_base (k.envs e).tf.esp) / 4)
            (utrapframe a.cr2 (k.envs e).tf)
            k).phys
      → Pushed a e k p (frame_base (k.envs e).tf.esp) k'
  pushed k' frame memory =
      let i = pgoff (frame_base (k.envs e).tf.esp) / 4 in
      let ws = utrapframe a.cr2 (k.envs e).tf in
      record {
        eip = rw frame refl;
        esp = rw frame refl;
        words = λ j w h. rw memory (
            ap (λ (f : ℕ → ℕ). f (i + j)) (mem_words-page p i ws k.phys.mem)
            ∙ written-inside (k.phys.mem p) i ws j w h);
        rest = λ j h. rw memory (
            ap (λ (f : ℕ → ℕ). f j) (mem_words-page p i ws k.phys.mem)
            ∙ written-outside (k.phys.mem p) i ws j h);
        pages = λ q h. rw memory (mem_words-other p i ws k.phys.mem q h);
      }

  -- A page fault of an environment with an upcall, whose esp is not the lowest address of the
  -- exception stack (where that is full), with its exception stack mapped writable and checked for
  -- the frame, which is aligned and within one page that is neither the page directory nor the
  -- page table in use: the upcall is entered with esp at the frame, the 13 words of struct
  -- UTrapframe stand there in order, no other memory changes, and the frame ends one word below
  -- the old esp if that was within the exception stack, else one word below UXSTACKTOP.
  pub page_fault_handler-Pushed :
      (k' : Kernel) × (page_fault_handler a (saved e) k ≡ enter e k')
      × Pushed a e k p (frame_base (k.envs e).tf.esp) k'
      × Below (k.envs e).tf.esp (frame_base (k.envs e).tf.esp)
  page_fault_handler-Pushed =
      let after = redirect e (frame_base (k.envs e).tf.esp) (
        with_words p (pgoff (frame_base (k.envs e).tf.esp) / 4) (utrapframe a.cr2 (k.envs e).tf)
          k) in
      let (k', run, frame, memory) =
        env_run-tf e after (redirected e (frame_base (k.envs e).tf.esp) k) (rw (==-refl e) refl) in
      (
        k',
        handler-pushes ∙ (push_fault-runs ∙ run),
        pushed k' frame memory,
        frame_base-Below (k.envs e).tf.esp can.not_full,
      )
