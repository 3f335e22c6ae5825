-- ===== src/Pmm/Alloc/Counts/Kept.antt =====
-- The counters of kernel/mm/pmm/pmm.c in `pmalloc` and `pfree`.
use angl_os.Base.{
  ℕ, zero, suc, ◌+◌, ◌-◌, ◌*◌, ◌/◌, ◌%◌, ◌^◌, ◌≤◌, ◌<◌, ◌≡◌, refl, inl, inr, ap, ◌∙◌, Bool, false,
  not, ◌&&◌, ◌||◌, sub64, u64, arith, ◌==◌, if◌then◌else◌, Bool-cases, pow_mono, if_keeps,
  for_up_keeps,
}
use angl_os.Pmm.{
  Pmm, page_size, num_bitmaps, mark_used, mark_free, is_free, count_up, count_down, parent,
}
use angl_os.Pmm.Alloc.{
  propagate_down, take_block, merge_pair, merge_level, coalesce, free_pages, pfree,
}
use angl_os.Pmm.Alloc.Frame.{
  propagate_down_free_mem, coalesce_free_mem, free_pages_free_mem, used_free_mem, count_free_mem,
}
use native.Mathlib.Nat.{pow-suc}
use native.Mathlib.Numerals.{add-one}
use angl_os.Pmm.Alloc.Counts.{
  counted, IsCounted, counted-mark_free, counted-mark_used, counted-count_up, counted_less,
  counted-propagate_down,
}

-- The branch of `pmalloc` that splits a free parent of the block it takes.
abbrev pub splits : ℕ → ℕ → Pmm → Bool
splits i j s =
    not (i == num_bitmaps - 1) && is_free (i + 1) (parent j) (count_down i (mark_used i j s))

counted-taken :
    (i j : ℕ) (s : Pmm)
    → i < 7
    → u64 (counted (count_down i (mark_used i j s)) + 2 ^ i) ≡ u64 (counted s)
counted-taken i j s h =
    omega (arith, counted_less i 1 (mark_used i j s) h (omega arith), counted-mark_used i j s)

counted_free_mem : (v : ℕ) (s : Pmm) → counted (record s { free_mem = v }) ≡ counted s
unfolding counted
counted_free_mem v s = refl

-- the state of `pmalloc` before it splits the block, where it does not take the parent too
abbrev taken : ℕ → ℕ → Pmm → Pmm
taken i j s = count_down i (mark_used i j s)

-- and where it does
abbrev parent_taken : ℕ → ℕ → Pmm → Pmm
parent_taken i j s =
    count_up i
      (mark_free i (j + 1) (count_down (i + 1) (mark_used (i + 1) (parent j) (taken i j s))))

counted-parent_taken :
    (i j : ℕ) (s : Pmm)
    → i < 6
    → u64 (counted (parent_taken i j s) + 2 ^ i + 2 ^ i) ≡ u64 (counted s)
counted-parent_taken i j s h =
    let t = taken i j s in
    let u = count_down (i + 1) (mark_used (i + 1) (parent j) t) in
    omega (
      arith,
      counted-count_up i (mark_free i (j + 1) u) (omega arith),
      counted-mark_free i (j + 1) u,
      counted_less (i + 1) 1 (mark_used (i + 1) (parent j) t) (omega arith) (omega arith),
      counted-mark_used (i + 1) (parent j) t,
      counted-taken i j s (omega arith),
      ap (λ t. 2 ^ t) (add-one i),
      pow-suc 2 i,
    )

-- What `pmalloc` does where it finds block `j` of level `i` free: the counters lose `pages` pages,
-- and the size of the block once more where it takes a free parent too.
pub counted-take_block :
    (pages i j : ℕ) (s : Pmm)
    → i < 7
    → 0 < pages
    → pages ≤ 2 ^ i
    → u64 (counted (take_block pages i j s) + pages + (if splits i j s then 2 ^ i else 0))
      ≡ u64 (counted s)
unfolding take_block
counted-take_block pages i j s h pos le = elim (Bool-cases (splits i j s)) [
  | inl split ↦ rw split (
      let low : i < 6 = ground arith in
      let ready = parent_taken i j s in
      omega (
        arith,
        counted_free_mem (sub64 (propagate_down pages i j ready).free_mem (u64 (pages * page_size)))
            (propagate_down pages i j ready),
        counted-propagate_down pages i j ready h pos le,
        counted-parent_taken i j s low,
      ))
  | inr whole ↦ rw whole (
      let ready = taken i j s in
      omega (
        arith,
        counted_free_mem (sub64 (propagate_down pages i j ready).free_mem (u64 (pages * page_size)))
            (propagate_down pages i j ready),
        counted-propagate_down pages i j ready h pos le,
        counted-taken i j s h,
      ))
]

take_block_free_mem :
    (pages i j : ℕ) (s : Pmm)
    → splits i j s ≡ false
    → (take_block pages i j s).free_mem ≡ sub64 s.free_mem (u64 (pages * page_size))
unfolding take_block
take_block_free_mem pages i j s whole = rw whole (
    ap (λ v. sub64 v (u64 (pages * page_size)))
      (propagate_down_free_mem s.free_mem pages i j (taken i j s)
        (count_free_mem s.free_mem i _ _ (used_free_mem s.free_mem i j s refl))))

-- Merging two free blocks into one of the next level changes no count.
counted-merge_pair :
    (level lo hi i : ℕ) (s : Pmm)
    → level < 6
    → u64 (counted (merge_pair level lo hi i s)) ≡ u64 (counted s)
unfolding merge_pair
counted-merge_pair level lo hi i s h =
    elim (Bool-cases (is_free level lo s && is_free level hi s)) [
      | inr keep ↦ rw keep refl
      | inl merge ↦ rw merge (
          let up = count_up (level + 1) (mark_free (level + 1) (parent i) s) in
          let used = mark_used level hi (mark_used level lo up) in
          omega (
            arith,
            counted_less level 2 used (omega arith) (omega arith),
            counted-mark_used level hi (mark_used level lo up),
            counted-mark_used level lo up,
            counted-count_up (level + 1) (mark_free (level + 1) (parent i) s) (omega arith),
            counted-mark_free (level + 1) (parent i) s,
            pow-suc 2 level,
            ap (λ t. 2 ^ t) (add-one level),
          ))
    ]

counted-merge_level :
    (pages level index : ℕ) (s : Pmm)
    → level < 6
    → u64 (counted (merge_level pages level index s)) ≡ u64 (counted s)
unfolding merge_level
counted-merge_level pages level index s h =
    if_keeps Same (index % 2 == 0)
      (for_up_keeps Same
        (λ k t. merge_pair level (index + 2 * k) (index + 2 * k + 1) (index + 2 * k) t)
        (λ k t e.
          counted-merge_pair level (index + 2 * k) (index + 2 * k + 1) (index + 2 * k) t h ∙ e)
        rounds 0 s refl)
      (for_up_keeps Same
        (λ k t. merge_pair level (index + 2 * k - 1) (index + 2 * k) (index + 2 * k) t)
        (λ k t e.
          counted-merge_pair level (index + 2 * k - 1) (index + 2 * k) (index + 2 * k) t h ∙ e)
        rounds 0 s refl)
  where
    rounds : ℕ
    rounds = (u64 (index + pages) - index + 1) / 2

    Same : Pmm → Type 0
    Same t = u64 (counted t) ≡ u64 (counted s)

counted-coalesce :
    (left pages level index : ℕ) (s : Pmm)
    → level + left < 6
    → u64 (counted (coalesce left pages level index s)) ≡ u64 (counted s)
unfolding coalesce
counted-coalesce zero pages level index s h = counted-merge_level pages level index s (omega arith)
counted-coalesce (suc left) pages level index s h =
    counted-coalesce left (pages / 2) (level + 1) (parent index) (merge_level pages level index s)
      (omega arith)
    ∙ counted-merge_level pages level index s (omega arith)

counted-free_pages :
    (rounds index : ℕ) (s : Pmm)
    → u64 (counted (free_pages rounds index s)) ≡ u64 (counted s + rounds)
unfolding free_pages
counted-free_pages zero index s = omega arith
counted-free_pages (suc n) index s =
    let one = count_up 0 (mark_free 0 index s) in
    omega (
      arith,
      counted-free_pages n (index + 1) one,
      counted-count_up 0 (mark_free 0 index s) (omega arith),
      counted-mark_free 0 index s,
    )

-- `pfree` keeps `free_mem` in step with the counters, whatever is freed.
pub pfree-IsCounted :
    (pptr pages : ℕ) (s : Pmm)
    → u64 (pptr / page_size + pages) ≡ pptr / page_size + pages
    → IsCounted s
    → IsCounted (pfree pptr pages s)
unfolding pfree
pfree-IsCounted pptr pages s word h =
    let index = pptr / page_size in
    let cleared = free_pages (u64 (index + pages) - index) index s in
    let merged = coalesce 5 pages 0 index cleared in
    if_keeps IsCounted (pptr == 0 || pages == 0) h (
      omega (
        arith,
        counted_free_mem (u64 (merged.free_mem + u64 (pages * page_size))) merged,
        coalesce_free_mem s.free_mem 5 pages 0 index cleared
            (free_pages_free_mem s.free_mem (u64 (index + pages) - index) index s refl),
        counted-coalesce 5 pages 0 index cleared (omega arith),
        counted-free_pages (u64 (index + pages) - index) index s,
      ))

-- Taking a block keeps `free_mem` in step with the counters, unless it takes a free parent too.
pub take_block-IsCounted :
    (pages i j : ℕ) (s : Pmm)
    → i < 7
    → 0 < pages
    → pages ≤ 2 ^ i
    → splits i j s ≡ false
    → IsCounted s
    → IsCounted (take_block pages i j s)
take_block-IsCounted pages i j s h pos le whole counts =
    let taken_pages = counted-take_block pages i j s h pos le in
    let exact = rw whole at taken_pages in
    let top : 2 ^ i ≤ 2 ^ 6 = pow_mono i 6 (omega arith) in
    omega (arith, exact, take_block_free_mem pages i j s whole)
