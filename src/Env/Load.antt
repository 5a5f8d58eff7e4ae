-- ===== src/Env/Load.antt =====
-- kern/env.c: region_alloc, load_icode and env_create; inc/elf.h.
--
-- `binary` is the bytes of the program file, a function of the offset in it.
use xv6_lab.Base.{
  ℕ, zero, suc, ◌+◌, ◌-◌, ◌*◌, ◌/◌, ◌^◌, false, none, some, Option, ltb, ◌==◌, if◌then◌else◌,
  bit_or,
}
use xv6_lab.Machine.Mmu.{u32, pgsize, pte_u, pte_w, round_down, round_up, ustacktop}
use xv6_lab.Machine.Kernel.{K, pure, crash, ◌>>=◌, ◌>>◌, get, put, lift, set_env, cur_pgdir}
use xv6_lab.Pmap.Alloc.{page_alloc}
use xv6_lab.Pmap.Table.{page_insert}
use xv6_lab.Env.Alloc.{Alloc, new, no_mem, no_free_env, env_alloc}
use xv6_lab.Traps.Fault.{store_byte}

-- What follows page_alloc in a round of region_alloc
unfoldable pub map_region_page : (pgdir va : ℕ) → Option ℕ → K (Unit {0})
map_region_page pgdir va none = λ k. crash
map_region_page pgdir va (some p) = do
  k ← get
  inserted ← lift (page_insert (cur_pgdir k) pgdir p va (bit_or pte_w pte_u))
  if inserted then pure tt else (λ j. crash)

-- The loop of region_alloc, with `n` pages left from `va` on
unfoldable pub region_rounds : (n e va : ℕ) → K (Unit {0})
region_rounds zero e va = pure tt
region_rounds (suc n) e va = do
  p ← lift (page_alloc false)
  k ← get
  map_region_page (k.envs e).pgdir va p
  region_rounds n e (va + pgsize)

-- `va + len` is computed on 32 bits; where the end lies below the start, there is no round.
unfoldable pub region_alloc : (e va len : ℕ) → K (Unit {0})
region_alloc e va len =
    let start = round_down va pgsize in
    let end = round_up (u32 (va + len)) pgsize in
    region_rounds ((end - start + 4095) / pgsize) e start

-- The fields of the program file, little endian
abbrev pub half : (ℕ → ℕ) → ℕ → ℕ
half binary i = binary i + 256 * binary (i + 1)

abbrev pub word : (ℕ → ℕ) → ℕ → ℕ
word binary i = half binary i + 2 ^ 16 * half binary (i + 2)

-- The fields of `struct Elf` that are read
pub record Elf : Type 0 where
  pub magic : ℕ
  pub entry : ℕ
  pub phoff : ℕ
  pub phnum : ℕ

abbrev pub elf : (ℕ → ℕ) → Elf
elf binary = record {
  magic = word binary 0;
  entry = word binary 24;
  phoff = word binary 28;
  phnum = half binary 44;
}

pub record Proghdr : Type 0 where
  pub type : ℕ
  pub offset : ℕ
  pub va : ℕ
  pub filesz : ℕ
  pub memsz : ℕ

abbrev pub proghdr : (ℕ → ℕ) → (i : ℕ) → Proghdr
proghdr binary i = record {
  type = word binary i;
  offset = word binary (i + 4);
  va = word binary (i + 8);
  filesz = word binary (i + 16);
  memsz = word binary (i + 20);
}

-- memmove and memset to the address space that cr3 names, byte by byte: a page that the kernel may not
-- write there makes it fault.
unfoldable pub copy_in : (n va : ℕ) → (ℕ → ℕ) → (offset : ℕ) → K (Unit {0})
copy_in zero va binary offset = pure tt
copy_in (suc n) va binary offset = do
  store_byte (u32 va) (binary offset)
  copy_in n (va + 1) binary (offset + 1)

unfoldable pub clear_bytes : (n va : ℕ) → K (Unit {0})
clear_bytes zero va = pure tt
clear_bytes (suc n) va = do store_byte (u32 va) 0; clear_bytes n (va + 1)

-- One round of the loop over the program headers. ELF_PROG_LOAD is 1.
unfoldable pub load_segment : (e : ℕ) → (ℕ → ℕ) → Proghdr → K (Unit {0})
load_segment e binary ph =
    if ph.type == 1
    then (if ltb ph.memsz ph.filesz then (λ k. crash) else (do
      region_alloc e ph.va ph.memsz
      copy_in ph.filesz ph.va binary ph.offset
      clear_bytes (ph.memsz - ph.filesz) (ph.va + ph.filesz)))
    else pure tt

-- `n` headers are left from offset `i` on; a header has 32 bytes.
unfoldable pub load_segments : (n e : ℕ) → (ℕ → ℕ) → (i : ℕ) → K (Unit {0})
load_segments zero e binary i = pure tt
load_segments (suc n) e binary i = do
  load_segment e binary (proghdr binary i)
  load_segments n e binary (i + 32)

-- ELF_MAGIC is 0x464C457F.
unfoldable pub load_icode : (e : ℕ) → (ℕ → ℕ) → K (Unit {0})
load_icode e binary =
    let header = elf binary in
    if header.magic == 0x464C_457F
    then (if header.entry == 0 then (λ k. crash) else (do
      k ← get
      set_env e (record (k.envs e) { tf = record ((k.envs e).tf) { eip = header.entry } })
      j ← get
      put (record j { cr3 = (j.envs e).pgdir })
      load_segments header.phnum e binary header.phoff
      region_alloc e (ustacktop - pgsize) pgsize))
    else (λ k. crash)

unfoldable pub create_in : (ℕ → ℕ) → (type : ℕ) → Alloc → K (Unit {0})
create_in binary type no_mem = λ k. crash
create_in binary type no_free_env = λ k. crash
create_in binary type (new e) = do
  load_icode e binary
  k ← get
  set_env e (record (k.envs e) { type = type })

unfoldable pub env_create : (ℕ → ℕ) → (type : ℕ) → K (Unit {0})
env_create binary type = do r ← env_alloc 0; create_in binary type r
