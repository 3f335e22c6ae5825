-- ===== src/Paging/Unmap.antt =====
-- The functions of kernel/mm/paging/paging.c that take pages out of the tables.
pub mod Cleared
pub mod Walked
use angl_os.Base.{
  ◌>>=◌, for_up, ℕ, zero, suc, ◌+◌, ◌-◌, ◌*◌, ◌/◌, Bool, true, false, Option, none, some, bit_and,
  leb, ◌==◌, not, ◌||◌, if◌then◌else◌, u64,
}
use angl_os.Pmm.{page_size, update_bitmap_base}
use angl_os.Pmm.Alloc.{pfree}
use angl_os.Paging.{
  Paging, address_mask, page_direct_base, page_p1e, page_p2e, page_p3e, page_p4e, slot, write,
  paging_get_cr3, paging_flush_tlb, paging_free_table, lock_paging, unlock_paging,
}
use angl_os.Paging.Map.{walk}

-- `pagingRemoveEntry` at level `depth + 1`
pub paging_remove_entry : ℕ → ℕ → ℕ → Bool → Paging → Paging
paging_remove_entry zero table_vptr entry_num do_pfree s =
    let a = slot table_vptr entry_num in
    let entry_pptr = bit_and (s.words a) address_mask in
    let freed = if do_pfree then record s { pmm = pfree entry_pptr 1 s.pmm } else s in
    if not (bit_and (s.words a) 1 == 1) || leb s.pmm.mem_size entry_pptr then s else write a 0 freed
paging_remove_entry (suc depth) table_vptr entry_num do_pfree s =
    let a = slot table_vptr entry_num in
    let entry_pptr = bit_and (s.words a) address_mask in
    let emptied =
      for_up (λ i t. paging_remove_entry depth (u64 (entry_pptr + page_direct_base)) i do_pfree t)
        512 0 s in
    if not (bit_and (s.words a) 1 == 1) || leb s.pmm.mem_size entry_pptr
    then s
    else write a 0 (paging_free_table entry_pptr emptied)

-- whether a table has no entry
pub is_empty_from : ℕ → ℕ → ℕ → Paging → Bool
is_empty_from zero i table s = true
is_empty_from (suc left) i table s =
    let rest = is_empty_from left (i + 1) table s in
    if s.words (slot table i) == 0 then rest else false

pub table_is_empty : ℕ → Paging → Bool
table_is_empty table s = is_empty_from 512 0 table s

-- `vfreeHelper`
pub vfree_helper : ℕ → ℕ → Bool → Paging → Paging
vfree_helper vptr p4tp do_pfree s = elim (walk vptr p4tp s) [
  | none ↦ s
  | some (p3tp, p2tp, p1tp) ↦
      let s1 = paging_remove_entry 0 p1tp (page_p1e vptr) do_pfree s in
      let s2 = paging_remove_entry 1 p2tp (page_p2e vptr) do_pfree s1 in
      let s3 = paging_remove_entry 2 p3tp (page_p3e vptr) do_pfree s2 in
      let s4 = paging_remove_entry 3 p4tp (page_p4e vptr) do_pfree s3 in
      if table_is_empty p1tp s1
      then (if table_is_empty p2tp s2 then (if table_is_empty p3tp s3 then s4 else s3) else s2)
      else s1
]

-- the loop of `vfree`
pub vfree_loop : ℕ → ℕ → ℕ → Bool → Paging → Paging
vfree_loop pages vptr p4tp do_pfree s =
    for_up (λ i t. vfree_helper (u64 (vptr + i * page_size)) p4tp do_pfree t) pages 0 s

-- `vfreeCR3`
pub vfree_cr3 : ℕ → ℕ → Bool → ℕ → Paging → Option Paging
vfree_cr3 vptr pages do_pfree cr3 s = do
  locked ← lock_paging s
  some (unlock_paging (vfree_loop pages vptr cr3 do_pfree locked))

-- `vfree`
pub vfree : ℕ → ℕ → Bool → Paging → Option Paging
vfree vptr pages do_pfree s = do
  locked ← lock_paging s
  some (
      paging_flush_tlb
        (unlock_paging (vfree_loop pages vptr (paging_get_cr3 locked) do_pfree locked)))

-- `initPaging`
pub init_paging : Paging → Option Paging
init_paging s = do
  let moved = record s { pmm = update_bitmap_base page_direct_base s.pmm }
  t ← vfree 0 (moved.pmm.mem_size / page_size) false moved
  some (record t { bsp_cr3 = paging_get_cr3 t })
