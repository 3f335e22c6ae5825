-- ===== src/Pmm/Alloc.antt =====
-- `pmalloc` and `pfree` of kernel/mm/pmm/pmm.c, with their helpers.
pub mod Frame
pub mod SizeClass
pub mod Framed
pub mod Outside
pub mod Halves
pub mod GivenBack
pub mod Sound
pub mod Taken
pub mod Malloc
pub mod Merge
pub mod Coalesce
pub mod Free
pub mod RoundTrip
mod Tests
pub mod Search
pub mod Counts
use angl_os.Base.{
  ℕ, zero, suc, ◌+◌, ◌-◌, ◌*◌, ◌/◌, ◌%◌, ◌^◌, Bool, true, false, not, ◌&&◌, ◌||◌, Option, none,
  some, bit_and, ltb, leb, ◌==◌, if◌then◌else◌, u64, sub64, for_up,
}
use angl_os.Pmm.{
  Pmm, page_size, num_bitmaps, mark_used, mark_free, is_free, count_up, count_down, set_count,
  l_child, r_child, parent,
}

-- `pmmPropagateDown`: gives the part of the block behind the first `pages` pages back.
pub propagate_down : ℕ → ℕ → ℕ → Pmm → Pmm
propagate_down pages zero index s = s
propagate_down pages (suc level) index s =
    let left =
      count_up level
        (mark_free level (r_child index) (propagate_down pages level (l_child index) s)) in
    let right = propagate_down (pages - 2 ^ level) level (r_child index) s in
    if pages == 2 ^ suc level then s else if leb pages (2 ^ level) then left else right

-- `while (tmp & (tmp - 1)) tmp = tmp & (tmp - 1);`
pub keep_highest : ℕ → ℕ → ℕ
keep_highest zero tmp = tmp
keep_highest (suc fuel) tmp =
    let rest = keep_highest fuel (bit_and tmp (sub64 tmp 1)) in
    if bit_and tmp (sub64 tmp 1) == 0 then tmp else rest

-- `while (tmp >>= 1) index++;`
pub count_shifts : ℕ → ℕ → ℕ → ℕ
count_shifts zero tmp index = index
count_shifts (suc fuel) tmp index =
    let rest = count_shifts fuel (tmp / 2) (index + 1) in if tmp / 2 == 0 then index else rest

-- `tmp` as `pmalloc` has it after `tmp = tmp << 1`
pub rounded : ℕ → ℕ
rounded pages = u64 (keep_highest (pages - 1) (pages - 1) * 2)

-- the first level to search, `none` where `pmalloc` refuses the request
pub size_class : ℕ → Option ℕ
size_class pages =
    if ltb (2 ^ (num_bitmaps - 1)) (rounded pages)
    then none
    else some (count_shifts (rounded pages) (rounded pages) 0)

-- the inner loop of `pmalloc`: the first free block at level `i` from index `j` on
pub find_in_level : ℕ → ℕ → ℕ → Pmm → Option ℕ
find_in_level zero i j s = none
find_in_level (suc left) i j s =
    let rest = find_in_level left i (j + 1) s in if is_free i j s then some j else rest

-- the outer loop, over the levels from `i` on
pub find_block : ℕ → ℕ → Pmm → Option (ℕ × ℕ)
find_block zero i s = none
find_block (suc left) i s =
    let rest = find_block left (i + 1) s in
    elim (find_in_level ((s.bitmaps i).size * 8) i 0 s) [ some j ↦ some (i, j) | none ↦ rest ]

-- the body of the loops where a free block `j` of level `i` is found
pub take_block : ℕ → ℕ → ℕ → Pmm → Pmm
take_block pages i j s =
    let taken = count_down i (mark_used i j s) in
    let split =
      count_up i (mark_free i (j + 1) (count_down (i + 1) (mark_used (i + 1) (parent j) taken))) in
    let ready =
      if not (i == num_bitmaps - 1) && is_free (i + 1) (parent j) taken then split else taken in
    let down = propagate_down pages i j ready in
    record down { free_mem = sub64 down.free_mem (u64 (pages * page_size)) }

-- `pmalloc`; the address 0 is `NULL`
pub pmalloc : ℕ → Pmm → ℕ × Pmm
pmalloc pages s = if pages == 0 then (0, s) else elim (size_class pages) [
  | none ↦ (0, s)
  | some index ↦ elim (find_block (num_bitmaps - index) index s) [
    | none ↦ (0, s)
    | some (i, j) ↦ (u64 (j * (page_size * 2 ^ i)), take_block pages i j s)
  ]
]

-- one round of the loops of `coalesce`, at the two halves `lo` and `hi` of the block `PARENT(i)`
pub merge_pair : ℕ → ℕ → ℕ → ℕ → Pmm → Pmm
merge_pair level lo hi i s =
    let up = count_up (level + 1) (mark_free (level + 1) (parent i) s) in
    let used = mark_used level hi (mark_used level lo up) in
    let merged = set_count level (sub64 (used.bitmaps level).free 2) used in
    if is_free level lo s && is_free level hi s then merged else s

-- `for (i = index; i < index + pages; i += 2)` in both branches of `coalesce`
pub merge_level : ℕ → ℕ → ℕ → Pmm → Pmm
merge_level pages level index s =
    let rounds = (u64 (index + pages) - index + 1) / 2 in
    let even =
      for_up (λ k t. merge_pair level (index + 2 * k) (index + 2 * k + 1) (index + 2 * k) t) rounds
        0 s in
    let odd =
      for_up (λ k t. merge_pair level (index + 2 * k - 1) (index + 2 * k) (index + 2 * k) t) rounds
        0 s in
    if index % 2 == 0 then even else odd

-- `coalesce`; `left` is what `level + 1 != NUM_BITMAPS - 1` counts down, 5 - `level`
pub coalesce : ℕ → ℕ → ℕ → ℕ → Pmm → Pmm
coalesce zero pages level index s = merge_level pages level index s
coalesce (suc left) pages level index s =
    coalesce left (pages / 2) (level + 1) (parent index) (merge_level pages level index s)

-- the loop of `pfree` over the pages
pub free_pages : ℕ → ℕ → Pmm → Pmm
free_pages rounds index s = for_up (λ i t. count_up 0 (mark_free 0 i t)) rounds index s

-- `pfree`
pub pfree : ℕ → ℕ → Pmm → Pmm
pfree pptr pages s =
    let index = pptr / page_size in
    let cleared = free_pages (u64 (index + pages) - index) index s in
    let merged = coalesce (num_bitmaps - 2) pages 0 index cleared in
    if pptr == 0 || pages == 0
    then s
    else record merged { free_mem = u64 (merged.free_mem + u64 (pages * page_size)) }
