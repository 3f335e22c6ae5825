-- ===== src/Heap.antt =====
-- The kernel heap, kernel/mm/heap/heap.c: blocks one behind the other, each with its size in words
-- at its first and last word, and the free blocks in twelve linked lists by size. The words that
-- hold sizes (tags) are kept apart from the bytes of the payloads, and the links of the lists are
-- those of the parameter. A block is known by the address of its header.
pub mod Malloc
pub mod Segments
pub mod FreeLists
pub mod Marks
pub mod Valid
pub mod Split
pub mod Place
pub mod Merge
pub mod Extend
pub mod Requests
use angl_os.Base.{
  ℕ, zero, suc, ◌+◌, ◌-◌, ◌*◌, ◌/◌, ◌%◌, ◌^◌, Bool, true, false, not, ◌&&◌, ◌||◌, Option, none,
  some, List, [], ◌∷◌, bit_and, ltb, leb, ◌==◌, if◌then◌else◌, u32, u64, sub64, not64, update,
  ◌>>=◌,
}
use angl_os.KernelLists.{ListOps}
use angl_os.CString.{Memory, memset, memmove}
use angl_os.AddressSpace.{HeapMemory, mem_sbrk}

-- `struct tag`
pub record Tag : Type 0 where
  pub size : ℕ
  pub inuse : Bool

-- `FENCE`
abbrev pub fence : Tag
fence = record { size = 0; inuse = true }

abbrev pub min_block_size_words : ℕ
min_block_size_words = 8

abbrev pub chunksize : ℕ
chunksize = 36

abbrev pub num_lists : ℕ
num_lists = 12

abbrev pub alignment : ℕ
alignment = 16

-- `get_seg_index`
pub get_seg_index : ℕ → ℕ
get_seg_index words =
    if leb words 8
    then 0
    else (if leb words 16
        then 1
        else (if leb words 32
            then 2
            else (if leb words 64
                then 3
                else (if leb words 128
                    then 4
                    else (if leb words 256
                        then 5
                        else (if leb words 512
                            then 6
                            else (if leb words 1024
                                then 7
                                else (if leb words 2048
                                    then 8
                                    else (if leb words 4096
                                        then 9
                                        else (if leb words 8192 then 10 else 11))))))))))

-- `max`
abbrev pub max : ℕ → ℕ → ℕ
max x y = if ltb y x then x else y

-- `align`
pub align : ℕ → ℕ
align size = bit_and (u64 (size + alignment - 1)) (not64 (alignment - 1))

-- the `int` that a size is passed as, in the 63 bits of the field
pub size_field : ℕ → ℕ
size_field size = if ltb (u32 size) (2 ^ 31) then u32 size else u32 size + (2 ^ 63 - 2 ^ 32)

-- the words of a request, and `none` where its size wraps
pub request_words : ℕ → Option ℕ
request_words size =
    let bsize = align (u64 (size + 16)) in
    if ltb bsize size then none else some (max min_block_size_words (bsize / 8))

-- `prev_blk_footer`
abbrev pub prev_blk_footer : ℕ → ℕ
prev_blk_footer blk = sub64 blk 8

-- `blk->payload`
abbrev pub payload : ℕ → ℕ
payload blk = u64 (blk + 8)

module _ (ops : ListOps) where
  -- The static variables, the tags, the bytes, and the memory below.
  pub record Heap : Type 0 where
    pub tags : ℕ → Tag
    pub bytes : Memory
    pub free_lists : ℕ → ops.Lst
    pub heap_listp : ℕ
    pub lock : Bool
    pub memory : HeapMemory

  -- `blk_free`, `blk_size`, `prev_blk`, `next_blk` and `get_footer`
  pub blk_free : ℕ → Heap → Bool
  blk_free blk s = not (s.tags blk).inuse

  pub blk_size : ℕ → Heap → ℕ
  blk_size blk s = (s.tags blk).size

  pub prev_blk : ℕ → Heap → ℕ
  prev_blk blk s = sub64 blk (8 * (s.tags (prev_blk_footer blk)).size)

  pub next_blk : ℕ → Heap → ℕ
  next_blk blk s = u64 (blk + 8 * (s.tags blk).size)

  pub get_footer : ℕ → Heap → ℕ
  get_footer blk s = sub64 (u64 (blk + 8 * (s.tags blk).size)) 8

  -- `blk->header = t`
  pub set_tag : ℕ → Tag → Heap → Heap
  set_tag a t s = record s { tags = update s.tags a t }

  -- `set_header_and_footer`
  pub set_header_and_footer : ℕ → ℕ → Bool → Heap → Heap
  set_header_and_footer blk size inuse s =
      let t : Tag = record { size = size_field size; inuse = inuse } in
      let u = set_tag blk t s in set_tag (get_footer blk u) (u.tags blk) u

  -- `mark_block_used`
  pub mark_block_used : ℕ → ℕ → Heap → Heap
  mark_block_used blk size s = set_header_and_footer blk size true s

  -- `mark_block_free`
  pub mark_block_free : ℕ → ℕ → Heap → Heap
  mark_block_free blk size s =
      let u = set_header_and_footer blk size false s in
      record u { bytes = memset (payload blk) 0 16 u.bytes }

  -- `list_push_back(get_seg_list(blk->header.size), &blk->payload)`
  pub push_free : ℕ → Heap → Heap
  push_free blk s =
      let i = get_seg_index (s.tags blk).size in
      record s {
        free_lists = update s.free_lists i (ops.list_push_back (s.free_lists i) (payload blk));
      }

  -- `list_remove(&blk->payload)`
  pub unlink : ℕ → Heap → Heap
  unlink blk s = record s { free_lists = λ i. ops.list_remove (payload blk) (s.free_lists i) }

  -- `coalesce`
  pub coalesce : ℕ → Heap → ℕ × Heap
  coalesce bp s =
      let size = blk_size bp s in
      let next = next_blk bp s in
      let prev = prev_blk bp s in
      let with_next =
        mark_block_free bp (u64 (size + blk_size next s)) (unlink next (unlink bp s)) in
      let with_prev =
        mark_block_free prev (u64 (size + blk_size prev s)) (unlink prev (unlink bp s)) in
      let with_both =
        mark_block_free prev (u64 (size + blk_size next s + blk_size prev s))
          (unlink next (unlink prev (unlink bp s))) in
      if (s.tags (prev_blk_footer bp)).inuse
      then (if blk_free next s then (bp, push_free bp with_next) else (bp, s))
      else (if blk_free next s
          then (prev_blk bp with_both, push_free (prev_blk bp with_both) with_both)
          else (prev, push_free prev with_prev))

  -- `extend_heap`; the address 0 is `NULL`
  pub extend_heap : ℕ → Heap → ℕ × Heap
  extend_heap words s =
      let (bp, memory) = mem_sbrk (u32 (words * 8)) s.memory in
      let blk = sub64 bp 8 in
      let marked = push_free blk (mark_block_free blk words (record s { memory = memory })) in
      let fenced = set_tag (next_blk blk marked) fence marked in
      if bp == 0 then (0, record s { memory = memory }) else coalesce blk fenced

  -- `place`
  pub place : ℕ → ℕ → Heap → Heap
  place bp asize s =
      let csize = blk_size bp s in
      let t = unlink bp s in
      let u = mark_block_used bp asize t in
      let rest = next_blk bp u in
      let split = push_free rest (mark_block_free rest (sub64 csize asize) u) in
      if leb min_block_size_words (sub64 csize asize) then split else mark_block_used bp csize t
