-- ===== src/Paging/Map.antt =====
-- The functions of kernel/mm/paging/paging.c that map pages and change their flags.
pub mod Found
pub mod Locks
use angl_os.Base.{
  ◌>>=◌, for_up, ℕ, zero, suc, ◌+◌, ◌*◌, Bool, true, false, Option, none, some, bit_and, bit_or,
  ◌==◌, if◌then◌else◌, u64,
}
use angl_os.Pmm.{page_size}
use angl_os.Paging.{
  Paging, page_p1e, page_p2e, page_p3e, page_p4e, slot, write, table_of, paging_get_cr3,
  paging_flush_tlb, pmalloc_bulk, paging_alloc_table, paging_add_entry, lock_paging, unlock_paging,
}

-- one level of the walk: the table behind entry `num`, which is made where the entry is empty
pub descend_alloc : ℕ → ℕ → ℕ → Paging → ℕ × Paging
descend_alloc flags table num s =
    let (pptr, t) = paging_alloc_table s in
    let u = if s.words (slot table num) == 0 then paging_add_entry table num pptr flags t else s in
    (table_of (u.words (slot table num)), u)

-- the walk of `vmallocHelper` and `videntityHelper` to the lowest table
pub walk_alloc : ℕ → ℕ → ℕ → Paging → ℕ × Paging
walk_alloc flags vptr p4tp s =
    let (p3tp, s3) = descend_alloc flags p4tp (page_p4e vptr) s in
    let (p2tp, s2) = descend_alloc flags p3tp (page_p3e vptr) s3 in
    descend_alloc flags p2tp (page_p2e vptr) s2

-- `vmallocHelper`
pub vmalloc_helper : ℕ → ℕ → ℕ → Paging → ℕ × Paging
vmalloc_helper vptr p4tp flags s =
    let (p1tp, t) = walk_alloc flags vptr p4tp s in
    let (pptr, u) = pmalloc_bulk t in (vptr, paging_add_entry p1tp (page_p1e vptr) pptr flags u)

-- `videntityHelper`
pub videntity_helper : ℕ → ℕ → ℕ → ℕ → Paging → ℕ × Paging
videntity_helper vptr pptr p4tp flags s =
    let (p1tp, t) = walk_alloc flags vptr p4tp s in
    (vptr, paging_add_entry p1tp (page_p1e vptr) pptr flags t)

-- the loop of `vmalloc` from page `i` on, and whether it goes through
pub vmalloc_loop : ℕ → ℕ → ℕ → ℕ → ℕ → Paging → Bool × Paging
vmalloc_loop zero i vptr p4tp flags s = (true, s)
vmalloc_loop (suc left) i vptr p4tp flags s =
    let (ptr, t) = vmalloc_helper (u64 (vptr + i * page_size)) p4tp flags s in
    let rest = vmalloc_loop left (i + 1) vptr p4tp flags t in if ptr == 0 then (false, t) else rest

-- the loop of `videntity`
pub videntity_loop : ℕ → ℕ → ℕ → ℕ → ℕ → ℕ → Paging → Bool × Paging
videntity_loop zero i vptr pptr p4tp flags s = (true, s)
videntity_loop (suc left) i vptr pptr p4tp flags s =
    let (ptr, t) =
      videntity_helper (u64 (vptr + i * page_size)) (u64 (pptr + i * page_size)) p4tp flags s in
    let rest = videntity_loop left (i + 1) vptr pptr p4tp flags t in
    if ptr == 0 then (false, t) else rest

-- `vmallocCR3`
pub vmalloc_cr3 : ℕ → ℕ → ℕ → ℕ → Paging → Option (ℕ × Paging)
vmalloc_cr3 vptr pages flags cr3 s = do
  locked ← lock_paging s
  let (through, t) = vmalloc_loop pages 0 vptr cr3 flags locked
  some (if through then (vptr, unlock_paging t) else (0, unlock_paging t))

-- `vmalloc`
pub vmalloc : ℕ → ℕ → ℕ → Paging → Option (ℕ × Paging)
vmalloc vptr pages flags s = do
  locked ← lock_paging s
  let (through, t) = vmalloc_loop pages 0 vptr (paging_get_cr3 locked) flags locked
  some (if through then (vptr, paging_flush_tlb (unlock_paging t)) else (0, unlock_paging t))

-- `videntityCR3`
pub videntity_cr3 : ℕ → ℕ → ℕ → ℕ → ℕ → Paging → Option (ℕ × Paging)
videntity_cr3 vptr pptr pages flags cr3 s = do
  locked ← lock_paging s
  let (through, t) = videntity_loop pages 0 vptr pptr cr3 flags locked
  some (if through then (vptr, unlock_paging t) else (0, t))

-- `videntity`
pub videntity : ℕ → ℕ → ℕ → ℕ → Paging → Option (ℕ × Paging)
videntity vptr pptr pages flags s = do
  locked ← lock_paging s
  let (through, t) = videntity_loop pages 0 vptr pptr (paging_get_cr3 locked) flags locked
  some (if through then (vptr, paging_flush_tlb (unlock_paging t)) else (0, t))

-- one level of the walk where nothing is made: `none` is an empty entry
unfoldable pub descend : ℕ → ℕ → Paging → Option ℕ
descend table num s =
    if s.words (slot table num) == 0 then none else some (table_of (s.words (slot table num)))

-- the walk of `vfreeHelper` and `vflagsHelper`: the tables of levels 3, 2 and 1
pub walk : ℕ → ℕ → Paging → Option (ℕ × ℕ × ℕ)
walk vptr p4tp s = do
  p3tp ← descend p4tp (page_p4e vptr) s
  p2tp ← descend p3tp (page_p3e vptr) s
  p1tp ← descend p2tp (page_p2e vptr) s
  some (p3tp, p2tp, p1tp)

-- `vflagsHelper`
pub vflags_helper : ℕ → ℕ → ℕ → Paging → Paging
vflags_helper vptr p4tp flags s = elim (walk vptr p4tp s) [
  | none ↦ s
  | some (p3tp, p2tp, p1tp) ↦
      let a = slot p1tp (page_p1e vptr) in
      write a (bit_or (bit_and (s.words a) 0x8FFFFFFFFFFFFFE0) flags) s
]

-- `vflagsCR3`
pub vflags_cr3 : ℕ → ℕ → ℕ → ℕ → Paging → Option Paging
vflags_cr3 vptr pages flags cr3 s = do
  locked ← lock_paging s
  some (
      unlock_paging
        (for_up (λ i t. vflags_helper (u64 (vptr + i * page_size)) cr3 flags t) pages 0 locked))

-- `vflags`
pub vflags : ℕ → ℕ → ℕ → Paging → Option Paging
vflags vptr pages flags s = do
  locked ← lock_paging s
  let t =
      for_up (λ i t. vflags_helper (u64 (vptr + i * page_size)) (paging_get_cr3 locked) flags t)
        pages 0 locked
  some (paging_flush_tlb (unlock_paging t))
