-- ===== src/Examples/Memory.antt =====
-- The theorems on kern/pmap.c at a concrete memory.
use xv6_lab.Base.{◌≡◌, refl, true, false, none, some, arith, inl}
use xv6_lab.Machine.Mmu.{ptx, pdx}
use xv6_lab.Machine.Phys.{Phys, ok, page2pa, ◌>>◌}
use xv6_lab.Pmap.Alloc.{page_alloc, page_free}
use xv6_lab.Pmap.Space.{table}
use xv6_lab.Pmap.Table.{page_insert, page_remove, page_lookup, check_va2pa}
use xv6_lab.Pmap.FreeList.{Allocated, page_alloc_lem, page_alloc-page_free}
use xv6_lab.Pmap.Table.{boot_map_region}
use xv6_lab.Pmap.Region.{MapsRegion, boot_map_region-MapsRegion}
use xv6_lab.Pmap.Insert.{Inserted}
use xv6_lab.Pmap.Unmap.{Unmapped, page_remove-Unmapped}
use xv6_lab.Pmap.Map.{CanInsert, page_insert-Inserted, page_lookup-page_insert}
use xv6_lab.Examples.World.{
  memory, free, memory-IsFreeList, memory-IsSpace, memory-IsFresh, memory-CanDrop,
}

pub memory-CanInsert : CanInsert memory 1 0x8000 6 free
memory-CanInsert = record {
  space = memory-IsSpace;
  room = inl refl;
  out = refl;
  apart = memory-IsFresh 6 (omega arith);
  fits = omega arith;
  old = λ p. cc;
  off = refl;
}

page_insert-Inserted_example :
    (t : Phys) × (page_insert none 1 6 0x8000 7 memory ≡ ok true t) × Inserted memory t 1 0x8000 6 7
page_insert-Inserted_example = page_insert-Inserted none 7 memory-CanInsert

looked_up :
    (t : Phys) × (page_insert none 1 6 0x8000 7 memory ≡ ok true t)
    × (page_lookup 1 0x8000 t ≡ ok (some (6, (table (t.mem 1 (pdx 0x8000)), ptx 0x8000))) t)
    × (check_va2pa 1 0x8000 t ≡ ok (some (page2pa 6)) t)
looked_up = page_lookup-page_insert none 7 memory-CanInsert (omega arith) (omega arith)

page_remove-Unmapped_example :
    (t : Phys) × (page_remove none 1 0x5000 memory ≡ ok tt t)
    × Unmapped none memory t 1 0x5000 6 free
page_remove-Unmapped_example = page_remove-Unmapped none 0x5000 memory-IsSpace refl memory-CanDrop

first_free_page : Allocated true memory free (page_alloc true memory)
first_free_page = page_alloc_lem true free (omega arith) memory-IsFreeList

abbrev unused_page : Phys
unused_page = record memory { pages = λ p. record { link = none; ref = 0 }; free_list = none }

page_taken_again : (page_free 5 >> page_alloc false) unused_page ≡ ok (some 5) unused_page
page_taken_again = page_alloc-page_free unused_page 5 refl refl

boot_map_region-MapsRegion_example :
    (t : Phys) × (boot_map_region 1 0x8000 8000 0x10_0000 2 memory ≡ ok tt t)
    × MapsRegion memory t 1 2 0x8000 0x10_0000 2
boot_map_region-MapsRegion_example =
    boot_map_region-MapsRegion 0x8000 8000 0x10_0000 2 memory-IsSpace (omega arith) refl
      (omega arith) (omega arith) (inl (omega arith))
