-- ===== src/Traps/Fault.antt =====
-- kern/trap.c: page_fault_handler, with the frame of inc/trap.h that it writes to user memory.
use xv6_lab.Base.{
  ℕ, ◌+◌, ◌-◌, ◌*◌, ◌/◌, ◌%◌, ◌^◌, Bool, none, some, Option, List, [], ◌∷◌, ◌&&◌, bit_or, ltb, ◌==◌,
  if◌then◌else◌, update,
}
use xv6_lab.Machine.Mmu.{
  u32, pgsize, pdx, ptx, pgoff, pgnum, pte_addr, present, writable, pte_u, pte_w, uxstacktop,
}
use xv6_lab.Machine.Kernel.{
  Trapframe, Kernel, K, pure, crash, ◌>>=◌, ◌>>◌, get, set_env, done, curenv,
}
use xv6_lab.Env.Sched.{env_run}
use xv6_lab.Env.Destroy.{env_destroy}
use xv6_lab.Syscall.Proc.{user_mem_assert}

-- What a trap brings besides its frame: whether `panicstr` is set, the flag FL_IF, the register cr2,
-- and what the system call that it may be gets from outside (see `syscall`).
pub record Arrival : Type 0 where
  pub panicked : Bool
  pub int_flag : Bool
  pub cr2 : ℕ
  pub wild : Option ℕ
  pub char : ℕ

-- `struct Trapframe *`: a frame on the kernel's stack, or `env_tf` of an environment
pub data Frame : Type 0 where
  on_stack : Trapframe → Frame
  saved : ℕ → Frame

abbrev pub frame_of : Kernel → Frame → Trapframe
frame_of k (on_stack tf) = tf
frame_of k (saved e) = (k.envs e).tf

-- `curenv` where it is followed
abbrev pub with_current : {A : Type 0} → Option ℕ → (ℕ → K A) → K A
with_current none f k = crash
with_current (some c) f k = f c k

-- A write of the kernel needs a present and writable mapping: CR0_WP is set. Else the kernel faults,
-- and panics in page_fault_handler.
abbrev pub can_write : Kernel → (va : ℕ) → Bool
can_write k va =
    let pde = k.phys.mem k.cr3 (pdx va) in
    let pte = k.phys.mem (pgnum (pte_addr pde)) (ptx va) in
    (present pde && writable pde) && (present pte && writable pte)

-- The physical page of `va` in the address space that cr3 names
abbrev pub frame_page : Kernel → (va : ℕ) → ℕ
frame_page k va =
    pgnum (pte_addr (k.phys.mem (pgnum (pte_addr (k.phys.mem k.cr3 (pdx va)))) (ptx va)))

abbrev pub set_word : Kernel → (p i v : ℕ) → Kernel
set_word k p i v = record k {
  phys = record (k.phys) { mem = update k.phys.mem p (update (k.phys.mem p) i v) };
}

-- Word `w` with its byte `i` set to `v`
abbrev pub with_byte : (w i v : ℕ) → ℕ
with_byte w i v = w - w / 256 ^ i % 256 * 256 ^ i + v % 256 * 256 ^ i

unfoldable pub store_byte : (va v : ℕ) → K (Unit {0})
store_byte va v k =
    let p = frame_page k va in
    let i = pgoff va / 4 in
    if can_write k va
    then done tt (set_word k p i (with_byte (k.phys.mem p i) (va % 4) v))
    else crash

-- A word at an address that is no multiple of 4 is written byte by byte.
unfoldable pub store_word : (va v : ℕ) → K (Unit {0})
store_word va v k =
    if va % 4 == 0
    then (if can_write k va then done tt (set_word k (frame_page k va) (pgoff va / 4) v) else crash)
    else (do
      store_byte va v
      store_byte (u32 (va + 1)) (v / 256)
      store_byte (u32 (va + 2)) (v / 256 ^ 2)
      store_byte (u32 (va + 3)) (v / 256 ^ 3))
        k

unfoldable pub store_words : (va : ℕ) → List ℕ → K (Unit {0})
store_words va [] = pure tt
store_words va (w ∷ ws) = do store_word va w; store_words (u32 (va + 4)) ws

-- `struct UTrapframe` as the words in which it lies in memory
abbrev pub utrapframe : (fault_va : ℕ) → Trapframe → List ℕ
utrapframe fault_va tf =
    fault_va ∷ tf.err ∷ tf.regs.edi ∷ tf.regs.esi ∷ tf.regs.ebp ∷ tf.regs.oesp ∷ tf.regs.ebx
    ∷ tf.regs.edx ∷ tf.regs.ecx ∷ tf.regs.eax ∷ tf.eip ∷ tf.eflags ∷ tf.esp ∷ []

-- Where the frame starts: its 52 bytes and one word lie below `stacktop`.
unfoldable pub frame_base : (esp : ℕ) → ℕ
frame_base esp =
    (if ltb (uxstacktop - pgsize) esp && ltb esp uxstacktop then esp else uxstacktop) - (52 + 4)

-- The branch with an upcall; `e` is curenv.
unfoldable pub push_fault : Arrival → Frame → (e : ℕ) → K (Unit {0})
push_fault a f e = do
  k ← get
  let base = frame_base (frame_of k f).esp
  user_mem_assert e base (52 + 4) (bit_or pte_u pte_w)
  j ← get
  store_words base (utrapframe a.cr2 (frame_of j f))
  i ← get
  set_env e (record (i.envs e) {
    tf = record ((i.envs e).tf) { eip = (i.envs e).pgfault_upcall; esp = base };
  })
  env_run e

unfoldable pub page_fault_handler : Arrival → Frame → K (Unit {0})
page_fault_handler a f k =
    if (frame_of k f).cs % 4 == 0
    then crash
    else with_current (curenv k)
        (λ e. if (k.envs e).pgfault_upcall == 0 then env_destroy e else push_fault a f e) k
