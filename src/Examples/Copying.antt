-- ===== src/Examples/Copying.antt =====
-- A write fault on a copy-on-write page, at a concrete kernel.
use xv6_lab.Base.{ℕ, some, [], ◌==◌, ◌&&◌, if◌then◌else◌}
use xv6_lab.Machine.Phys.{Phys}
use xv6_lab.Machine.Kernel.{Kernel}
use xv6_lab.Examples.World.{infos, kernel}

-- Page table 2 maps page 6, writable, and page 5, copy-on-write, at 0x7000.
abbrev cow_entries : ℕ → ℕ → ℕ
cow_entries p i =
    if p == 1 && (i == 0)
    then 8199
    else if p == 1 && (i == 957)
    then 4101
    else if p == 1 && (i == 960)
    then 3
    else if p == 2 && (i == 5)
    then 24583
    else if p == 2 && (i == 7)
    then 22533
    else 0

abbrev cow_memory : Phys
cow_memory = record { npages = 8; pages = infos; free_list = some 3; mem = cow_entries; tlb = [] }

abbrev cow_kernel : Kernel
cow_kernel = record kernel { phys = cow_memory }
