-- ===== src/Traps/Gates.antt =====
-- inc/mmu.h: segment, gate and task state descriptors; kern/env.c: the descriptor table `gdt`;
-- kern/trap.c: trap_init and trap_init_percpu.
use xv6_lab.Base.{
  ℕ, ◌+◌, ◌-◌, ◌*◌, ◌/◌, ◌%◌, ◌^◌, Bool, false, List, [], ◌∷◌, ◌==◌, if◌then◌else◌, update,
}
use xv6_lab.Machine.Mmu.{kstacktop, kstksize, kstkgap}

pub record Segdesc : Type 0 where
  pub lim_15_0 : ℕ
  pub base_15_0 : ℕ
  pub base_23_16 : ℕ
  pub type : ℕ
  pub s : ℕ
  pub dpl : ℕ
  pub p : ℕ
  pub lim_19_16 : ℕ
  pub avl : ℕ
  pub rsv1 : ℕ
  pub db : ℕ
  pub g : ℕ
  pub base_31_24 : ℕ

abbrev pub seg_null : Segdesc
seg_null = record {
  lim_15_0 = 0;
  base_15_0 = 0;
  base_23_16 = 0;
  type = 0;
  s = 0;
  dpl = 0;
  p = 0;
  lim_19_16 = 0;
  avl = 0;
  rsv1 = 0;
  db = 0;
  g = 0;
  base_31_24 = 0;
}

-- A bit field of 4 bits keeps the low bits of what is stored in it.
abbrev pub seg : (type base lim dpl : ℕ) → Segdesc
seg type base lim dpl = record {
  lim_15_0 = lim / 2 ^ 12 % 2 ^ 16;
  base_15_0 = base % 2 ^ 16;
  base_23_16 = base / 2 ^ 16 % 2 ^ 8;
  type = type;
  s = 1;
  dpl = dpl;
  p = 1;
  lim_19_16 = lim / 2 ^ 28 % 2 ^ 4;
  avl = 0;
  rsv1 = 0;
  db = 1;
  g = 1;
  base_31_24 = base / 2 ^ 24;
}

abbrev pub seg16 : (type base lim dpl : ℕ) → Segdesc
seg16 type base lim dpl = record {
  lim_15_0 = lim % 2 ^ 16;
  base_15_0 = base % 2 ^ 16;
  base_23_16 = base / 2 ^ 16 % 2 ^ 8;
  type = type;
  s = 1;
  dpl = dpl;
  p = 1;
  lim_19_16 = lim / 2 ^ 16 % 2 ^ 4;
  avl = 0;
  rsv1 = 0;
  db = 1;
  g = 0;
  base_31_24 = base / 2 ^ 24;
}

-- `gdt`: STA_X | STA_R is 0xA, STA_W is 2.
unfoldable pub gdt : ℕ → Segdesc
gdt i =
    if i == 1
    then seg 0xA 0 0xffff_ffff 0
    else if i == 2
    then seg 2 0 0xffff_ffff 0
    else if i == 3
    then seg 0xA 0 0xffff_ffff 3
    else if i == 4
    then seg 2 0 0xffff_ffff 3
    else seg_null

-- Less its padding
pub record Taskstate : Type 0 where
  pub link : ℕ
  pub esp0 : ℕ
  pub ss0 : ℕ
  pub esp1 : ℕ
  pub ss1 : ℕ
  pub esp2 : ℕ
  pub ss2 : ℕ
  pub cr3 : ℕ
  pub eip : ℕ
  pub eflags : ℕ
  pub eax : ℕ
  pub ecx : ℕ
  pub edx : ℕ
  pub ebx : ℕ
  pub esp : ℕ
  pub ebp : ℕ
  pub esi : ℕ
  pub edi : ℕ
  pub es : ℕ
  pub cs : ℕ
  pub ss : ℕ
  pub ds : ℕ
  pub fs : ℕ
  pub gs : ℕ
  pub ldt : ℕ
  pub t : ℕ
  pub iomb : ℕ

pub record Gatedesc : Type 0 where
  pub off_15_0 : ℕ
  pub sel : ℕ
  pub args : ℕ
  pub rsv1 : ℕ
  pub type : ℕ
  pub s : ℕ
  pub dpl : ℕ
  pub p : ℕ
  pub off_31_16 : ℕ

-- SETGATE: STS_TG32 is 0xF, STS_IG32 is 0xE.
abbrev pub set_gate : (istrap : Bool) (sel off dpl : ℕ) → Gatedesc
set_gate istrap sel off dpl = record {
  off_15_0 = off % 2 ^ 16;
  sel = sel;
  args = 0;
  rsv1 = 0;
  type = if istrap then 0xF else 0xE;
  s = 0;
  dpl = dpl;
  p = 1;
  off_31_16 = off / 2 ^ 16;
}

-- SETCALLGATE: STS_CG32 is 0xC.
abbrev pub set_call_gate : (sel off dpl : ℕ) → Gatedesc
set_call_gate sel off dpl = record {
  off_15_0 = off % 2 ^ 16;
  sel = sel;
  args = 0;
  rsv1 = 0;
  type = 0xC;
  s = 0;
  dpl = dpl;
  p = 1;
  off_31_16 = off / 2 ^ 16;
}

-- A vector of trap_init with the privilege level of its gate
abbrev pub vectors : List (ℕ × ℕ)
vectors =
    (0, 0)
    ∷ (1, 0)
    ∷ (2, 0)
    ∷ (3, 3)
    ∷ (4, 0)
    ∷ (5, 0)
    ∷ (6, 0)
    ∷ (7, 0)
    ∷ (8, 0)
    ∷ (10, 0)
    ∷ (11, 0)
    ∷ (12, 0)
    ∷ (13, 0)
    ∷ (14, 0)
    ∷ (16, 0)
    ∷ (17, 0)
    ∷ (18, 0)
    ∷ (19, 0)
    ∷ (48, 3)
    ∷ (32 + 19, 3)
    ∷ (32 + 14, 3)
    ∷ (32 + 1, 3)
    ∷ (32 + 4, 3)
    ∷ (32 + 7, 3)
    ∷ (32 + 0, 3)
    ∷ []

-- `entry v` is the address of the code in kern/trapentry.S that pushes the number `v`. GD_KT is 8.
abbrev pub set_gates : (entry : ℕ → ℕ) → List (ℕ × ℕ) → (ℕ → Gatedesc) → ℕ → Gatedesc
set_gates entry [] idt = idt
set_gates entry ((v, dpl) ∷ vs) idt =
    set_gates entry vs (update idt v (set_gate false 8 (entry v) dpl))

-- The SETGATE lines of trap_init
unfoldable pub trap_init : (entry : ℕ → ℕ) → (ℕ → Gatedesc) → ℕ → Gatedesc
trap_init entry idt = set_gates entry vectors idt

-- trap_init_percpu on CPU `cpu`, whose `cpu_ts` lies at `addr`; a `struct Taskstate` has 104 bytes.
-- GD_KD is 0x10, GD_TSS0 is 0x28, STS_T32A is 9.
unfoldable pub task_state : (cpu : ℕ) → Taskstate → Taskstate
task_state cpu ts = record ts {
  esp0 = kstacktop - cpu * (kstksize + kstkgap);
  ss0 = 0x10;
  iomb = 104;
}

unfoldable pub tss_slot : (cpu addr : ℕ) → (ℕ → Segdesc) → ℕ → Segdesc
tss_slot cpu addr gdt = update gdt (0x28 / 2 ^ 3 + cpu) (record (seg16 9 addr 103 0) { s = 0 })
