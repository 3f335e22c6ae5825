-- ===== src/Pmm.antt =====
-- The physical page allocator, kernel/mm/pmm/pmm.c: seven bitmaps, of blocks of 1 to 64 pages, in
-- which a clear bit is a free block; the memory map that the boot loader hands over; and the
-- counters. A bitmap is a range of bytes of the memory, as in the source.
pub mod Alloc
pub mod Init
pub mod Layout
use angl_os.Base.{
  ℕ, zero, suc, ◌+◌, ◌-◌, ◌*◌, ◌/◌, ◌%◌, ◌^◌, Bool, true, false, not, ◌&&◌, ◌||◌, Option, none,
  some, List, [], ◌∷◌, bit_and, bit_or, ltb, leb, ◌==◌, if◌then◌else◌, u8, u64, sub64, ◌>>>◌, ◌<<<◌,
  not64, update, for_up, length, get_elem?, set,
}

abbrev pub page_size : ℕ
page_size = 4096

-- `NUM_BITMAPS`
abbrev pub num_bitmaps : ℕ
num_bitmaps = 7

-- `LIMINE_MEMMAP_USABLE`
abbrev pub memmap_usable : ℕ
memmap_usable = 0

-- `LIMINE_MEMMAP_RESERVED`
abbrev pub memmap_reserved : ℕ
memmap_reserved = 1

-- `struct limine_memmap_entry`
pub record MemmapEntry : Type 0 where
  pub base : ℕ
  pub length : ℕ
  pub type : ℕ

-- `bitmap_stat_t`
pub record Bitmap : Type 0 where
  pub base : ℕ
  pub free : ℕ
  pub size : ℕ

-- The static variables of pmm.c, and the bytes of the memory that the bitmaps lie in.
pub record Pmm : Type 0 where
  pub memory : ℕ → ℕ
  pub bitmaps : ℕ → Bitmap
  pub entries : List MemmapEntry
  pub mem_size : ℕ
  pub bitmap_size : ℕ
  pub bitmap_base : ℕ
  pub free_mem : ℕ

-- `pmmSetBit`
pub set_bit : (ℕ → ℕ) → ℕ → ℕ → ℕ → ℕ
set_bit memory base index =
    update memory (base + index / 8) (u8 (bit_or (memory (base + index / 8)) (1 <<< (index % 8))))

-- `pmmClearBit`
pub clear_bit : (ℕ → ℕ) → ℕ → ℕ → ℕ → ℕ
clear_bit memory base index =
    update memory (base + index / 8)
      (u8 (bit_and (memory (base + index / 8)) (not64 (1 <<< (index % 8)))))

-- `pmmCheckBit`
pub check_bit : (ℕ → ℕ) → ℕ → ℕ → ℕ
check_bit memory base index = bit_and (memory (base + index / 8) >>> (index % 8)) 1

-- `pmmGetStatusFromMMap`
pub status_from_mmap : List MemmapEntry → ℕ → ℕ
status_from_mmap [] page = memmap_reserved
status_from_mmap (e ∷ es) page =
    if leb (e.base / page_size) page && ltb page (u64 (e.base + e.length) / page_size)
    then u8 e.type
    else status_from_mmap es page

-- `pmmGetFreeMem`
pub get_free_mem : Pmm → ℕ
get_free_mem s = s.free_mem

-- `pmmUpdateBitmapBase`
pub update_bitmap_base : ℕ → Pmm → Pmm
update_bitmap_base offset s =
    let s' = record s { bitmap_base = u64 (s.bitmap_base + offset) } in
    for_up
      (λ i t. record t {
        bitmaps =
            update t.bitmaps i (record (t.bitmaps i) { base = u64 ((t.bitmaps i).base + offset) });
      })
      num_bitmaps 0 s'

-- The accesses `pmmSetBit(bitmaps[i].base, j)` and so on.
pub mark_used : ℕ → ℕ → Pmm → Pmm
mark_used i j s = record s { memory = set_bit s.memory (s.bitmaps i).base j }

pub mark_free : ℕ → ℕ → Pmm → Pmm
mark_free i j s = record s { memory = clear_bit s.memory (s.bitmaps i).base j }

-- `!pmmCheckBit(bitmaps[i].base, j)`
pub is_free : ℕ → ℕ → Pmm → Bool
is_free i j s = check_bit s.memory (s.bitmaps i).base j == 0

-- `bitmaps[i].free = v`
pub set_count : ℕ → ℕ → Pmm → Pmm
set_count i v s = record s { bitmaps = update s.bitmaps i (record (s.bitmaps i) { free = v }) }

-- `bitmaps[i].free++` and `bitmaps[i].free--`
abbrev pub count_up : ℕ → Pmm → Pmm
count_up i s = set_count i (u64 ((s.bitmaps i).free + 1)) s

abbrev pub count_down : ℕ → Pmm → Pmm
count_down i s = set_count i (sub64 (s.bitmaps i).free 1) s

-- `L_CHILD`, `R_CHILD` and `PARENT`
abbrev pub l_child : ℕ → ℕ
l_child index = index * 2

abbrev pub r_child : ℕ → ℕ
r_child index = index * 2 + 1

abbrev pub parent : ℕ → ℕ
parent index = index / 2
