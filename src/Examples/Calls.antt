-- ===== src/Examples/Calls.antt =====
-- The theorems on kern/syscall.c at a concrete kernel.
use xv6_lab.Base.{ℕ, ◌≡◌, refl, true, false, none, some, [], ◌∷◌, arith, inl, inr}
use xv6_lab.Machine.Mmu.{utop}
use xv6_lab.Machine.Phys.{Phys}
use xv6_lab.Machine.Kernel.{Kernel, done}
use xv6_lab.Env.Lookup.{envid2env}
use xv6_lab.Pmap.FreeList.{IsFreeList, taken}
use xv6_lab.Pmap.Insert.{Inserted}
use xv6_lab.Syscall.Ret.{val, err, bad_env, inval, no_mem, ipc_not_recv}
use xv6_lab.Syscall.Page.{sys_page_map, sys_page_alloc}
use xv6_lab.Syscall.Ipc.{sys_ipc_try_send, sys_ipc_recv}
use xv6_lab.Syscall.Dispatch.{syscall}
use xv6_lab.Syscall.Proc.{sys_exofork}
use xv6_lab.Syscall.Forking.{Forked, sys_exofork-Forked}
use xv6_lab.Syscall.Permission.{IsStranger, destroy, syscall-stranger}
use xv6_lab.Syscall.Mapping.{IsRequest, sys_page_map-Inserted, sys_page_map-escalation}
use xv6_lab.Syscall.Allocating.{IsAllocRequest, sys_page_alloc-Inserted, sys_page_alloc-no_mem}
use xv6_lab.Syscall.Messages.{Waits, sys_ipc_recv-Waits, delivered, sys_ipc_try_send-once}
use xv6_lab.Examples.World.{
  memory, memory-IsFreeList, memory-IsSpace, scarce, scarce-IsSpace, kernel,
}
use xv6_lab.Examples.Memory.{memory-CanInsert}

abbrev MapRequest : (srcva : ℕ) → Type 0
MapRequest srcva = IsRequest 0 0 srcva 0 0x8000 7 0 0 kernel

first_request : MapRequest 0x5000
unfolding envid2env
first_request = record {
  source = refl;
  target = refl;
  source_va = refl;
  target_va = refl;
  flags = refl;
}

second_request : MapRequest 0x7000
unfolding envid2env
second_request = record {
  source = refl;
  target = refl;
  source_va = refl;
  target_va = refl;
  flags = refl;
}

sys_page_map-Inserted_example :
    (t : Phys) × (sys_page_map 0 0 0x5000 0 0x8000 7 kernel
      ≡ done (val 0) (record kernel { phys = t }))
    × Inserted memory t 1 0x8000 6 7
sys_page_map-Inserted_example =
    sys_page_map-Inserted 0 0 0x5000 0 0x8000 7 0 0 kernel first_request memory-IsSpace refl
      (omega arith) (inl refl) memory-CanInsert

sys_page_map-escalation_example :
    sys_page_map 0 0 0x7000 0 0x8000 7 kernel ≡ done (err inval) kernel
sys_page_map-escalation_example =
    sys_page_map-escalation 0 0 0x7000 0 0x8000 7 0 0 kernel second_request memory-IsSpace refl
      (omega arith) refl refl

alloc_request : IsAllocRequest 0 0 0x8000 7 0 kernel
unfolding envid2env
alloc_request = record { named = refl; aligned = refl; flags = refl }

sys_page_alloc-Inserted_example :
    (t : Phys) × (sys_page_alloc 0 0 0x8000 7 kernel ≡ done (val 0) (record kernel { phys = t }))
    × Inserted (taken true 3 memory) t 1 0x8000 3 7
    × (t.mem 3 9 ≡ 0)
sys_page_alloc-Inserted_example =
    sys_page_alloc-Inserted 0 0 0x8000 7 0 kernel alloc_request memory-IsSpace (inl refl) (λ p. cc)
      9

abbrev poor : Kernel
poor = record kernel { phys = scarce }

poor_request : IsAllocRequest 0 0 0x40_0000 7 0 poor
unfolding envid2env
poor_request = record { named = refl; aligned = refl; flags = refl }

sys_page_alloc-no_mem_example :
    (t : Phys) × (sys_page_alloc 0 0 0x40_0000 7 poor
      ≡ done (err no_mem) (record poor { phys = t }))
    × IsFreeList t (4 ∷ [])
sys_page_alloc-no_mem_example =
    sys_page_alloc-no_mem 0 0 0x40_0000 7 0 poor poor_request scarce-IsSpace refl

sys_ipc_recv-Waits_example : Waits 0 0x6000 kernel (sys_ipc_recv 0 0x6000 kernel)
sys_ipc_recv-Waits_example = sys_ipc_recv-Waits 0 0x6000 kernel refl

named_one : envid2env 0 4097 false kernel ≡ some 1
unfolding envid2env
named_one = refl

sys_ipc_try_send-once_example :
    (sys_ipc_try_send none 0 4097 42 utop 0 kernel ≡ done (val 0) (delivered 0 1 42 kernel))
    × (sys_ipc_try_send none 0 4097 43 0x5000 7 (delivered 0 1 42 kernel)
        ≡ done (err ipc_not_recv) (delivered 0 1 42 kernel))
sys_ipc_try_send-once_example =
    sys_ipc_try_send-once none 0 4097 42 utop 0 1 kernel (λ e. cc) named_one refl (omega arith) none
      0 43 0x5000 7

stranger : IsStranger 0 4097 kernel
stranger = record { nonzero = λ e. cc; other = λ e. cc; no_child = λ e. cc }

syscall-stranger_example : syscall none 0 0 3 4097 0 0 0 0 kernel ≡ done (err bad_env) kernel
syscall-stranger_example = syscall-stranger none 0 0 3 4097 0 0 0 0 kernel destroy stranger

sys_exofork-Forked_example :
    (k' : Kernel) × (sys_exofork 0 kernel ≡ done (val (k'.envs 2).id) k')
    × Forked 0 2 3 955 kernel k'
sys_exofork-Forked_example =
    sys_exofork-Forked kernel 0 8194 955 refl (λ e. cc) (omega arith) (omega arith)
      memory-IsFreeList refl refl (omega arith) (inr refl) (omega arith)
