-- ===== src/Paging/Pool.antt =====
-- The pool of pages of kernel/mm/paging/paging.c.
use angl_os.Base.{
  ℕ, ◌+◌, ◌*◌, ◌<◌, ◌≡◌, ◌≢◌, refl, inl, inr, ap, ◌∙◌, sym, Bool, true, false, arith, ◌==◌, u8, u64,
  for_up_keeps, for_up_inv, Bool-cases, update_ne, update_self,
}
use angl_os.Pmm.{Pmm, page_size}
use angl_os.Pmm.Alloc.{pmalloc}
use angl_os.Paging.{
  Paging, page_direct_base, num_alloc, refill, fill_bulk, pmalloc_bulk, paging_alloc_table, write,
}
use native.Mathlib.Decide.{ℕ_discrete}

-- Only the pool, its index and the page allocator may differ.
pub record PoolOnly (s t : Paging) : Type 0 where
  pub words : t.words ≡ s.words
  pub cr3 : t.cr3 ≡ s.cr3
  pub bsp_cr3 : t.bsp_cr3 ≡ s.bsp_cr3
  pub lock : t.lock ≡ s.lock

PoolOnly-refl : (s : Paging) → PoolOnly s s
PoolOnly-refl s = record { words = refl; cr3 = refl; bsp_cr3 = refl; lock = refl }

fill_bulk-PoolOnly :
    (s : Paging) (ptr k : ℕ) (t : Paging) → PoolOnly s t → PoolOnly s (fill_bulk ptr k t)
unfolding fill_bulk
fill_bulk-PoolOnly s ptr k t h = record {
  words = h.words;
  cr3 = h.cr3;
  bsp_cr3 = h.bsp_cr3;
  lock = h.lock;
}

refill-PoolOnly : (s : Paging) → PoolOnly s (refill s)
unfolding refill
refill-PoolOnly s =
    let start : Paging = record s { pmm = (pmalloc num_alloc s.pmm).1 } in
    let h =
      for_up_keeps (PoolOnly s) (fill_bulk (pmalloc num_alloc s.pmm).0)
        (fill_bulk-PoolOnly s (pmalloc num_alloc s.pmm).0) num_alloc 0 start
        (record { words = refl; cr3 = refl; bsp_cr3 = refl; lock = refl }) in
    record { words = h.words; cr3 = h.cr3; bsp_cr3 = h.bsp_cr3; lock = h.lock }

pub pmalloc_bulk-PoolOnly : (s : Paging) → PoolOnly s (pmalloc_bulk s).1
unfolding pmalloc_bulk
pmalloc_bulk-PoolOnly s = elim (Bool-cases (s.curr + 1 == num_alloc)) [
  | inl last ↦
      let h = refill-PoolOnly s in
      rw last (record { words = h.words; cr3 = h.cr3; bsp_cr3 = h.bsp_cr3; lock = h.lock })
  | inr more ↦ rw more (record { words = refl; cr3 = refl; bsp_cr3 = refl; lock = refl })
]

-- the first `n` pointers of the pool point to the pages from `ptr` on
record Filled (ptr : ℕ) (pmm : Pmm) (n : ℕ) (t : Paging) : Type 0 where
  filled : (i : ℕ) → i < n → t.bulk i ≡ u64 (ptr + i * page_size)
  same : t.pmm ≡ pmm

fill_bulk-Filled :
    (ptr : ℕ) (pmm : Pmm) (k : ℕ) (t : Paging)
    → Filled ptr pmm k t
    → Filled ptr pmm (k + 1) (fill_bulk ptr k t)
unfolding fill_bulk
fill_bulk-Filled ptr pmm k t h = record {
  filled = λ i hi. elim (ℕ_discrete k i) [
    | yes e ↦ rw (← e) (update_self t.bulk k _)
    | no ne ↦ update_ne t.bulk k i _ ne ∙ h.filled i (omega arith)
  ];
  same = h.same;
}

refill-Filled :
    (s : Paging) → Filled (pmalloc num_alloc s.pmm).0 (pmalloc num_alloc s.pmm).1 64 (refill s)
unfolding refill
refill-Filled s =
    let ptr = (pmalloc num_alloc s.pmm).0 in
    let pmm = (pmalloc num_alloc s.pmm).1 in
    let start : Paging = record s { pmm = pmm } in
    let h =
      for_up_inv (Filled ptr pmm) (fill_bulk ptr) 64 (λ k t lt h. fill_bulk-Filled ptr pmm k t h)
        num_alloc 0 start refl (record { filled = λ i lt. elim lt [ ]; same = refl }) in
    record { filled = h.filled; same = h.same }

refill-curr : (s : Paging) → (refill s).curr ≡ 0
unfolding refill
refill-curr s = refl

-- Where one of the first 63 pages of the pool is left, `pmallocBulk` hands out the next.
pub pmalloc_bulk_next :
    (s : Paging) → s.curr < 63 → pmalloc_bulk s ≡ (s.bulk s.curr, record s { curr = s.curr + 1 })
unfolding pmalloc_bulk
pmalloc_bulk_next s h =
    let more : (s.curr + 1 == num_alloc) ≡ false = ground arith in
    let small : u8 (s.curr + 1) ≡ s.curr + 1 = omega arith in rw (more, small) refl

-- The index `curr` of the pool stays below 64, and the page that `pmallocBulk` hands out is one of
-- the first 63 of the pool afterwards: the last page of the 64 is never handed out.
pub pmalloc_bulk_index :
    (s : Paging)
    → s.curr < 64
    → (i : ℕ) × (i < 63)
      × ((pmalloc_bulk s).0 ≡ (pmalloc_bulk s).1.bulk i)
      × ((pmalloc_bulk s).1.curr ≡ i + 1)
unfolding pmalloc_bulk
pmalloc_bulk_index s h = elim (Bool-cases (s.curr + 1 == num_alloc)) [
  | inl last ↦
      (0, omega arith, rw (last, refill-curr s) refl, rw (last, refill-curr s) (omega arith))
  | inr more ↦
      let ne : s.curr < 63 = ground arith in (s.curr, ne, rw more refl, rw more (omega arith))
]

-- Where they are used up, it hands out the first of 64 fresh pages and keeps the others.
pub pmalloc_bulk_refills :
    (s : Paging) (i : ℕ)
    → s.curr ≡ 63
    → i < 64
    → ((pmalloc_bulk s).0 ≡ u64 (pmalloc num_alloc s.pmm).0)
      × ((pmalloc_bulk s).1.pmm ≡ (pmalloc num_alloc s.pmm).1)
      × ((pmalloc_bulk s).1.bulk i ≡ u64 ((pmalloc num_alloc s.pmm).0 + i * page_size))
unfolding pmalloc_bulk
pmalloc_bulk_refills s i e h =
    let last : (s.curr + 1 == num_alloc) ≡ true = rw e refl in
    let f = refill-Filled s in
    rw (last, refill-curr s)
      (f.filled 0 (omega arith) ∙ ap (λ t. u64 t) (omega arith), f.same, f.filled i h)

abbrev SameAt : ℕ → ℕ → Paging → Type 0
SameAt a v t = t.words a ≡ v

write-SameAt : (b a x v : ℕ) (t : Paging) → b ≢ a → SameAt a v t → SameAt a v (write b x t)
unfolding write
write-SameAt b a x v t ne h = update_ne t.words b a x ne ∙ h

-- A new table: only its first word is cleared; every other word of the memory, those of the table
-- included, is as before.
pub paging_alloc_table_words :
    (s : Paging) (a : ℕ)
    → a ≢ u64 ((paging_alloc_table s).0 + page_direct_base)
    → (paging_alloc_table s).1.words a ≡ s.words a
unfolding paging_alloc_table
paging_alloc_table_words s a ne =
    for_up_keeps (SameAt a (s.words a)) (λ i. write (u64 ((pmalloc_bulk s).0 + page_direct_base)) 0)
      (λ k t h. write-SameAt _ a 0 (s.words a) t (λ e. ne (sym e)) h) 512 0 (pmalloc_bulk s).1
      (ap (λ (f : ℕ → ℕ). f a) (pmalloc_bulk-PoolOnly s).words)

abbrev BspIs : ℕ → Paging → Type 0
BspIs v t = t.bsp_cr3 ≡ v

pub paging_alloc_table-bsp_cr3 : (s : Paging) → (paging_alloc_table s).1.bsp_cr3 ≡ s.bsp_cr3
unfolding paging_alloc_table
paging_alloc_table-bsp_cr3 s =
    for_up_keeps (BspIs s.bsp_cr3) (λ i. write (u64 ((pmalloc_bulk s).0 + page_direct_base)) 0)
      (λ k t h. unfold write in h) 512 0 (pmalloc_bulk s).1 (pmalloc_bulk-PoolOnly s).bsp_cr3

abbrev LockIs : Bool → Paging → Type 0
LockIs v t = t.lock ≡ v

pub paging_alloc_table-lock : (s : Paging) → (paging_alloc_table s).1.lock ≡ s.lock
unfolding paging_alloc_table
paging_alloc_table-lock s =
    for_up_keeps (LockIs s.lock) (λ i. write (u64 ((pmalloc_bulk s).0 + page_direct_base)) 0)
      (λ k t h. unfold write in h) 512 0 (pmalloc_bulk s).1 (pmalloc_bulk-PoolOnly s).lock
