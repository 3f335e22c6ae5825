-- ===== src/Paging.antt =====
-- The page tables, kernel/mm/paging/paging.c and paging.h: entries, tables, the walk through the four
-- levels, and the pool of pages. Tables are reached at their physical address plus the base of the
-- direct mapping, as in the source.
pub mod Map
pub mod Unmap
pub mod Entries
pub mod Pool
pub mod User
mod Tests
use angl_os.Base.{
  ℕ, zero, suc, ◌+◌, ◌-◌, ◌*◌, ◌/◌, ◌%◌, ◌^◌, Bool, true, false, Option, none, some, bit_and,
  bit_or, ◌==◌, if◌then◌else◌, u8, u64, sub64, ◌>>>◌, not64, update, for_up,
}
use angl_os.Pmm.{Pmm, page_size, update_bitmap_base}
use angl_os.Pmm.Alloc.{pmalloc, pfree}

-- `page_direct_base`
abbrev pub page_direct_base : ℕ
page_direct_base = 0xFFFF800000000000

-- `NUM_ALLOC`
abbrev pub num_alloc : ℕ
num_alloc = 64

-- the mask of the physical address in an entry
abbrev pub address_mask : ℕ
address_mask = 0x000FFFFFFFFFF000

-- The static variables of paging.c, the register cr3, the words of the memory at their virtual
-- addresses, and the page allocator. The bytes of the allocator's bitmaps are not among the words.
pub record Paging : Type 0 where
  pub words : ℕ → ℕ
  pub cr3 : ℕ
  pub bsp_cr3 : ℕ
  pub lock : Bool
  pub bulk : ℕ → ℕ  -- `bulk_alloc_ptrs`
  pub curr : ℕ
  pub pmm : Pmm

-- `PAGE_P1E` to `PAGE_P4E`
abbrev pub page_p1e : ℕ → ℕ
page_p1e vptr = bit_and (vptr >>> 12) 0x1FF

abbrev pub page_p2e : ℕ → ℕ
page_p2e vptr = bit_and (vptr >>> 21) 0x1FF

abbrev pub page_p3e : ℕ → ℕ
page_p3e vptr = bit_and (vptr >>> 30) 0x1FF

abbrev pub page_p4e : ℕ → ℕ
page_p4e vptr = bit_and (vptr >>> 39) 0x1FF

-- `GET_NUM_PAGES`
abbrev pub get_num_pages : ℕ → ℕ
get_num_pages size = u64 (size + page_size - 1) / page_size

-- `&table[i]` of a table of words
abbrev pub slot : ℕ → ℕ → ℕ
slot table i = u64 (table + 8 * i)

-- the write `*vptr = v`
pub write : ℕ → ℕ → Paging → Paging
write vptr v s = record s { words = update s.words vptr v }

-- the table that an entry points to, at its virtual address
pub table_of : ℕ → ℕ
table_of entry = u64 (bit_and entry address_mask + page_direct_base)

-- `pagingGetCR3`
pub paging_get_cr3 : Paging → ℕ
paging_get_cr3 s = u64 (bit_and s.cr3 (not64 0xFFF) + page_direct_base)

-- `pagingSetCR3`
pub paging_set_cr3 : ℕ → Paging → Paging
paging_set_cr3 pptr s = record s { cr3 = pptr }

-- `pagingFlushTLB`
pub paging_flush_tlb : Paging → Paging
paging_flush_tlb s = paging_set_cr3 (sub64 (paging_get_cr3 s) page_direct_base) s

-- `initAPPaging`
pub init_ap_paging : Paging → Paging
init_ap_paging s = paging_set_cr3 (sub64 s.bsp_cr3 page_direct_base) s

-- one round of the refill of `pmallocBulk`
pub fill_bulk : ℕ → ℕ → Paging → Paging
fill_bulk ptr i t = record t { bulk = update t.bulk i (u64 (ptr + i * page_size)) }

-- the refill of `pmallocBulk`
pub refill : Paging → Paging
refill s =
    let (ptr, pmm) = pmalloc num_alloc s.pmm in
    record (for_up (fill_bulk ptr) num_alloc 0 (record s { pmm = pmm })) { curr = 0 }

-- `pmallocBulk`
pub pmalloc_bulk : Paging → ℕ × Paging
pmalloc_bulk s =
    let t = if s.curr + 1 == num_alloc then refill s else s in
    (t.bulk t.curr, record t { curr = u8 (t.curr + 1) })

-- `pagingAllocTable`
pub paging_alloc_table : Paging → ℕ × Paging
paging_alloc_table s =
    let (pptr, t) = pmalloc_bulk s in
    let vptr = u64 (pptr + page_direct_base) in
    (pptr, for_up (λ i u. write vptr 0 u) (page_size / 8) 0 t)

-- `pagingFreeTable`
pub paging_free_table : ℕ → Paging → Paging
paging_free_table table_pptr s = record s { pmm = pfree table_pptr 1 s.pmm }

-- the entry that `pagingAddEntry` writes
pub entry_of : ℕ → ℕ → ℕ
entry_of entry_pptr flags = bit_or (bit_and entry_pptr (not64 0xFFF)) flags

-- `pagingAddEntry` and `pagingUpdateEntry`
pub paging_add_entry : ℕ → ℕ → ℕ → ℕ → Paging → Paging
paging_add_entry table_vptr entry_num entry_pptr flags s =
    write (slot table_vptr entry_num) (entry_of entry_pptr flags) s

pub paging_update_entry : ℕ → ℕ → ℕ → ℕ → Paging → Paging
paging_update_entry table_vptr entry_num entry_pptr flags s =
    write (slot table_vptr entry_num) (entry_of entry_pptr flags) s

-- `spinLock` and `spinUnlock` on the lock of paging.c; `none` is a wait for another holder
pub lock_paging : Paging → Option Paging
lock_paging s = if s.lock then none else some (record s { lock = true })

pub unlock_paging : Paging → Paging
unlock_paging s = record s { lock = false }

-- one round of the copy of `pagingCreateUser`
pub copy_entry : ℕ → ℕ → Paging → Paging
copy_entry p4tp i s = write (slot p4tp i) (s.words (slot s.bsp_cr3 i)) s

-- `pagingCreateUser`
pub paging_create_user : Paging → ℕ × Paging
paging_create_user s =
    let (pptr, t) = paging_alloc_table s in
    let p4tp = u64 (pptr + page_direct_base) in (p4tp, for_up (copy_entry p4tp) 256 256 t)
