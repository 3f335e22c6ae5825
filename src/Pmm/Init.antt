-- ===== src/Pmm/Init.antt =====
-- `initPMM` of kernel/mm/pmm/pmm.c: the bitmaps are put into the first usable range of memory that
-- holds them, and built up from the memory map.
use angl_os.Base.{
  ◌>>=◌, ℕ, zero, suc, ◌+◌, ◌-◌, ◌*◌, ◌/◌, ◌^◌, ◌&&◌, Option, none, some, List, [], ◌∷◌, leb, ◌==◌,
  if◌then◌else◌, u64, sub64, ◌>>>◌, update, for_up, length, get_elem?, set, arith,
}
use angl_os.Pmm.{
  Pmm, Bitmap, MemmapEntry, page_size, num_bitmaps, memmap_usable, status_from_mmap, mark_used,
  mark_free, is_free, count_up, count_down, l_child, r_child, parent,
}
use angl_os.Pmm.Alloc.Counts.{counted, IsCounted}

-- the search for the range that the bitmaps are put in
pub find_entry : ℕ → List MemmapEntry → ℕ → Option ℕ
find_entry needed [] index = none
find_entry needed (e ∷ es) index =
    if leb needed e.length && e.type == memmap_usable
    then some index
    else find_entry needed es (index + 1)

-- `bitmaps[i].size`, for `init_size`
abbrev pub size_of : ℕ → ℕ → ℕ
size_of init_size i = init_size >>> i

-- `bitmap_size`, the sum of the sizes below level `n`
pub sizes_below : ℕ → ℕ → ℕ
sizes_below init_size zero = 0
sizes_below init_size (suc n) = u64 (sizes_below init_size n + size_of init_size n)

-- `bitmaps[i].base[j] = 0xFF` for every byte of bitmap `i`
pub fill_level : ℕ → Pmm → Pmm
fill_level i s =
    for_up (λ j t. record t { memory = update t.memory ((t.bitmaps i).base + j) 0xff })
      (s.bitmaps i).size 0 s

-- the pages that the memory map calls usable
pub clear_usable : Pmm → Pmm
clear_usable s =
    for_up
      (λ i t.
        if status_from_mmap t.entries i == memmap_usable then count_up 0 (mark_free 0 i t) else t)
      ((s.bitmaps 0).size * 8) 0 s

-- the blocks of level `i` whose two halves are free
pub build_level : ℕ → Pmm → Pmm
build_level i s =
    for_up
      (λ j t.
        if is_free (i - 1) (l_child j) t && is_free (i - 1) (r_child j) t
        then count_up i (mark_free i j t)
        else t)
      ((s.bitmaps i).size * 8) 0 s

-- the blocks of level `i` that a free block of the next level holds
pub drop_level : ℕ → Pmm → Pmm
drop_level i s =
    for_up (λ j t. if is_free (i + 1) (parent j) t then count_down i (mark_used i j t) else t)
      ((s.bitmaps i).size * 8) 0 s

-- `free_mem` at the end
pub sum_free : Pmm → ℕ
sum_free s =
    for_up (λ i acc. u64 (acc + u64 ((s.bitmaps i).free * (page_size * 2 ^ i)))) num_bitmaps 0 0

-- the bitmaps, one behind the other
pub place_bitmaps : ℕ → ℕ → ℕ → Bitmap
place_bitmaps base init_size i = record {
  base = base + sizes_below init_size i;
  free = 0;
  size = size_of init_size i;
}

-- the loops, from the placed bitmaps on
pub build_bitmaps : Pmm → Pmm
build_bitmaps s =
    let filled = for_up fill_level num_bitmaps 0 s in
    let built = for_up build_level (num_bitmaps - 1) 1 (clear_usable filled) in
    let dropped = for_up drop_level (num_bitmaps - 1) 0 built in
    record dropped { free_mem = sum_free dropped }

-- `initPMM`, with the boot loader's memory map; `none` is a read outside that map
pub init_pmm : List MemmapEntry → (ℕ → ℕ) → Option Pmm
init_pmm entries memory = do
  last ← get_elem? entries (length entries - 1)
  let mem_size = sub64 (u64 (last.base + last.length)) (2 * 2 ^ 30)
  let init_size = mem_size / page_size / 8
  let bitmap_size = sizes_below init_size num_bitmaps
  index ← find_entry bitmap_size entries 0
  e ← get_elem? entries index
  let shrunk = record e { base = u64 (e.base + bitmap_size); length = e.length - bitmap_size }
  some (
      build_bitmaps (record {
        memory = memory;
        bitmaps = place_bitmaps e.base init_size;
        entries = set entries index shrunk;
        mem_size = mem_size;
        bitmap_size = bitmap_size;
        bitmap_base = e.base;
        free_mem = 0;
      }))

IsCounted-build : (s : Pmm) → IsCounted (build_bitmaps s)
unfolding build_bitmaps sum_free counted
IsCounted-build s = omega arith
