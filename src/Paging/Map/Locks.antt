-- ===== src/Paging/Map/Locks.antt =====
-- The lock of kernel/mm/paging/paging.c in the functions that map pages, and what they return.
use angl_os.Base.{
  ℕ, zero, suc, ◌+◌, ◌*◌, ◌^◌, ◌≤◌, ◌<◌, ◌≡◌, ◌≢◌, refl, inl, inr, ◌∙◌, true, false, none, some,
  arith, ◌==◌, u64, Bool-cases, ==_ne,
}
use angl_os.Pmm.{page_size}
use angl_os.Paging.{
  Paging, slot, write, page_p2e, page_p3e, page_p4e, paging_add_entry, lock_paging, unlock_paging,
  paging_flush_tlb, paging_get_cr3, paging_set_cr3,
}
use angl_os.Paging.Pool.{paging_alloc_table-lock}
use angl_os.Paging.Map.{
  descend_alloc, walk_alloc, vmalloc_helper, videntity_helper, vmalloc_loop, videntity_loop,
  vmalloc, videntity,
}

descend_alloc-lock :
    (flags table num : ℕ) (s : Paging) → (descend_alloc flags table num s).1.lock ≡ s.lock
unfolding descend_alloc paging_add_entry write
descend_alloc-lock flags table num s = elim (Bool-cases (s.words (slot table num) == 0)) [
  | inl empty ↦ rw empty (paging_alloc_table-lock s)
  | inr there ↦ rw there refl
]

walk_alloc-lock :
    (flags vptr p4tp : ℕ) (s : Paging) → (walk_alloc flags vptr p4tp s).1.lock ≡ s.lock
unfolding walk_alloc
walk_alloc-lock flags vptr p4tp s =
    let r3 = descend_alloc flags p4tp (page_p4e vptr) s in
    let r2 = descend_alloc flags r3.0 (page_p3e vptr) r3.1 in
    descend_alloc-lock flags r2.0 (page_p2e vptr) r2.1
    ∙ descend_alloc-lock flags r3.0 (page_p3e vptr) r3.1
    ∙ descend_alloc-lock flags p4tp (page_p4e vptr) s

videntity_helper-lock :
    (vptr pptr p4tp flags : ℕ) (s : Paging)
    → (videntity_helper vptr pptr p4tp flags s).1.lock ≡ s.lock
unfolding videntity_helper paging_add_entry write
videntity_helper-lock vptr pptr p4tp flags s = walk_alloc-lock flags vptr p4tp s

-- `videntity` of the address 0 and at least one page, where the lock is free, returns `NULL` and
-- keeps the lock, so that the next call that takes the lock waits for ever.
pub videntity_keeps_lock :
    (pptr pages flags : ℕ) (s : Paging)
    → s.lock ≡ false
    → 0 < pages
    → (t : Paging) × (videntity 0 pptr pages flags s ≡ some (0, t)) × (lock_paging t ≡ none)
unfolding videntity videntity_loop lock_paging videntity_helper
videntity_keeps_lock pptr zero flags s free pos = absurd (omega arith)
videntity_keeps_lock pptr (suc pages) flags s free pos =
    let locked : Paging = record s { lock = true } in
    let t =
      (videntity_helper (u64 (0 + 0 * page_size)) (u64 (pptr + 0 * page_size))
        (paging_get_cr3 locked) flags locked).1 in
    let held : t.lock ≡ true =
      videntity_helper-lock (u64 (0 + 0 * page_size)) (u64 (pptr + 0 * page_size))
        (paging_get_cr3 locked) flags locked in
    (t, rw free refl, rw held refl)

-- the loop of `vmalloc` goes through where no page is at the address 0
vmalloc_loop_through :
    (n i vptr p4tp flags : ℕ) (s : Paging)
    → 0 < vptr
    → vptr + (i + n) * page_size ≤ 2 ^ 64
    → (vmalloc_loop n i vptr p4tp flags s).0 ≡ true
unfolding vmalloc_loop vmalloc_helper
vmalloc_loop_through zero i vptr p4tp flags s pos range = refl
vmalloc_loop_through (suc n) i vptr p4tp flags s pos range =
    let here : u64 (vptr + i * page_size) ≢ 0 = omega arith in
    rw (==_ne _ 0 here) (vmalloc_loop_through n (i + 1) vptr p4tp flags _ pos (omega arith))

-- `vmalloc` of a range of addresses above 0, where the lock is free, returns that address with the
-- lock free, however few pages are left: it never reports that memory is used up.
pub vmalloc_returns :
    (vptr pages flags : ℕ) (s : Paging)
    → s.lock ≡ false
    → 0 < vptr
    → vptr + pages * page_size ≤ 2 ^ 64
    → (t : Paging) × (vmalloc vptr pages flags s ≡ some (vptr, t)) × (t.lock ≡ false)
unfolding vmalloc lock_paging paging_flush_tlb unlock_paging paging_set_cr3
vmalloc_returns vptr pages flags s free pos range =
    let locked : Paging = record s { lock = true } in
    let through =
      vmalloc_loop_through pages 0 vptr (paging_get_cr3 locked) flags locked pos (omega arith) in
    let t = (vmalloc_loop pages 0 vptr (paging_get_cr3 locked) flags locked).1 in
    (paging_flush_tlb (unlock_paging t), rw (free, through) refl, refl)
