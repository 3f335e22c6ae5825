-- ===== src/Paging/Tests.antt =====
-- The page tables of kernel/mm/paging/paging.c at a concrete memory: tables at the physical
-- addresses 0x1000 to 0x4000, of which the first is the one in use.
use angl_os.Base.{
  ℕ, ◌+◌, ◌*◌, ◌%◌, ◌^◌, ◌<◌, ◌≡◌, refl, false, true, none, some, [], arith, ◌==◌, if◌then◌else◌,
  u64,
}
use angl_os.Pmm.{Pmm, page_size}
use angl_os.Paging.{
  Paging, slot, page_direct_base, pmalloc_bulk, paging_alloc_table, paging_create_user, entry_of,
  table_of, lock_paging, paging_get_cr3,
}
use angl_os.Paging.Map.{descend, vmalloc, videntity, videntity_helper}
use angl_os.Paging.Map.Found.{Walks, OffWalk, MappedTo, videntity_helper-MappedTo}
use angl_os.Paging.Map.Locks.{videntity_keeps_lock, vmalloc_returns}
use angl_os.Paging.Unmap.{vfree}
use angl_os.Paging.Unmap.Walked.{Distinct, Unmapped, vfree-Unmapped}
use angl_os.Paging.Entries.{table_of-entry_of}
use angl_os.Paging.Pool.{paging_alloc_table_words, pmalloc_bulk_index}
use angl_os.Paging.User.{Apart, paging_create_user_upper, paging_create_user_lower}

abbrev no_pages : Pmm
no_pages = record {
  memory = λ a. 0xff;
  bitmaps = λ l. record { base = 0; free = 0; size = 0 };
  entries = [];
  mem_size = 0x100000;
  bitmap_size = 0;
  bitmap_base = 0;
  free_mem = 0;
}

abbrev mapped : Paging
mapped = record {
  words = λ a.
      if a == page_direct_base + 0x1000
      then 0x2003
      else if a == page_direct_base + 0x2000
      then 0x3003
      else if a == page_direct_base + 0x3000
      then 0x4003
      else 0;
  cr3 = 0x1000;
  bsp_cr3 = page_direct_base + 0x1000;
  lock = false;
  bulk = λ i. 0x10000 + i * page_size;
  curr = 5;
  pmm = no_pages;
}

abbrev used_up : Paging
used_up = record mapped { curr = 63 }

mapped-Walks :
    Walks 0x5000
      (page_direct_base + 0x1000)
      (page_direct_base + 0x2000)
      (page_direct_base + 0x3000)
      (page_direct_base + 0x4000)
      mapped
unfolding descend table_of
mapped-Walks = record { to3 = refl; to2 = refl; to1 = refl }

mapped-OffWalk :
    OffWalk 0x5000
      (page_direct_base + 0x1000)
      (page_direct_base + 0x2000)
      (page_direct_base + 0x3000)
      (slot (page_direct_base + 0x4000) 5)
mapped-OffWalk = record { off4 = omega arith; off3 = omega arith; off2 = omega arith }

videntity_helper-MappedTo_example :
    MappedTo 0x5000
      (page_direct_base + 0x1000)
      (page_direct_base + 0x2000)
      (page_direct_base + 0x3000)
      (page_direct_base + 0x4000)
      (entry_of 0x9000 3)
      mapped
      (videntity_helper 0x5000 0x9000 (page_direct_base + 0x1000) 3 mapped).1
videntity_helper-MappedTo_example =
    videntity_helper-MappedTo 0x5000 0x9000 (page_direct_base + 0x1000) (page_direct_base + 0x2000)
      (page_direct_base + 0x3000) (page_direct_base + 0x4000) 3 mapped mapped-Walks mapped-OffWalk

videntity_keeps_lock_example :
    (t : Paging) × (videntity 0 0x9000 2 3 mapped ≡ some (0, t)) × (lock_paging t ≡ none)
videntity_keeps_lock_example = videntity_keeps_lock 0x9000 2 3 mapped refl (omega arith)

vmalloc_returns_example :
    (t : Paging) × (vmalloc 0x5000 100 3 used_up ≡ some (0x5000, t)) × (t.lock ≡ false)
vmalloc_returns_example = vmalloc_returns 0x5000 100 3 used_up refl (omega arith) (omega arith)

-- the entry of the page is there, and the page before is mapped too
abbrev two_mapped : Paging
two_mapped = record mapped {
  words = λ a.
      if a == page_direct_base + 0x4028
      then 0x9003
      else if a == page_direct_base + 0x4020
      then 0x8003
      else mapped.words a;
}

two_mapped-Walks :
    Walks 0x5000
      (paging_get_cr3 two_mapped)
      (page_direct_base + 0x2000)
      (page_direct_base + 0x3000)
      (page_direct_base + 0x4000)
      two_mapped
unfolding descend table_of paging_get_cr3
two_mapped-Walks = record { to3 = refl; to2 = refl; to1 = refl }

two_mapped-Distinct :
    Distinct
      (slot (page_direct_base + 0x4000) 5)
      (slot (page_direct_base + 0x3000) 0)
      (slot (page_direct_base + 0x2000) 0)
      (slot (paging_get_cr3 two_mapped) 0)
unfolding paging_get_cr3
two_mapped-Distinct = omega arith

vfree-Unmapped_example :
    (t : Paging) × (vfree 0x5000 1 true two_mapped ≡ some t)
    × (t.lock ≡ false)
    × Unmapped
        (slot (page_direct_base + 0x4000) 5)
        (slot (page_direct_base + 0x3000) 0)
        (slot (page_direct_base + 0x2000) 0)
        (slot (paging_get_cr3 two_mapped) 0)
        (page_direct_base + 0x2000)
        (page_direct_base + 0x3000)
        (page_direct_base + 0x4000)
        two_mapped
        t
vfree-Unmapped_example =
    vfree-Unmapped 0x5000 (page_direct_base + 0x2000) (page_direct_base + 0x3000)
      (page_direct_base + 0x4000) true two_mapped (omega arith) refl two_mapped-Walks
      two_mapped-Distinct

table_of-entry_of_example :
    (table_of (entry_of (9 * 2 ^ 12) 3) ≡ u64 (9 * 2 ^ 12 + page_direct_base))
    × (entry_of (9 * 2 ^ 12) 3 % 2 ^ 12 ≡ 3)
table_of-entry_of_example = table_of-entry_of 9 3 (omega arith) (omega arith)

fresh_table : (paging_alloc_table mapped).0 ≡ 0x15000
unfolding paging_alloc_table pmalloc_bulk
fresh_table = refl

paging_alloc_table_words_example :
    (paging_alloc_table mapped).1.words (page_direct_base + 0x1000) ≡ 0x2003
paging_alloc_table_words_example =
    paging_alloc_table_words mapped (page_direct_base + 0x1000) (rw fresh_table (omega arith))

user_table : (paging_create_user mapped).0 ≡ page_direct_base + 0x15000
unfolding paging_create_user
user_table = rw fresh_table refl

user-Apart : Apart (paging_create_user mapped).0 mapped.bsp_cr3
user-Apart =
    rw user_table
      (record { end_a = omega arith; end_b = omega arith; apart = λ i j hi hj. omega arith })

paging_create_user_upper_example :
    (paging_create_user mapped).1.words (slot (paging_create_user mapped).0 300)
    ≡ mapped.words (slot mapped.bsp_cr3 300)
paging_create_user_upper_example =
    paging_create_user_upper mapped 300 user-Apart (omega arith) (omega arith)

paging_create_user_lower_example :
    (paging_create_user mapped).1.words (slot (paging_create_user mapped).0 30)
    ≡ mapped.words (slot (paging_create_user mapped).0 30)
paging_create_user_lower_example =
    paging_create_user_lower mapped 30 user-Apart (omega arith) (omega arith)

pmalloc_bulk_index_example :
    (i : ℕ) × (i < 63)
    × ((pmalloc_bulk mapped).0 ≡ (pmalloc_bulk mapped).1.bulk i)
    × ((pmalloc_bulk mapped).1.curr ≡ i + 1)
pmalloc_bulk_index_example = pmalloc_bulk_index mapped (omega arith)
