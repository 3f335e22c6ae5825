-- ===== src/Heap/Malloc.antt =====
-- `kmalloc`, `kcalloc` and `kfree` of kernel/mm/heap/heap.c.
pub mod Fit
pub mod Spec
pub mod Init
pub mod Realloc
mod Tests
pub mod Runs
use angl_os.Base.{
  ℕ, zero, suc, ◌+◌, ◌-◌, ◌*◌, ◌^◌, Bool, true, false, Option, none, some, List, [], ◌∷◌, ltb, leb,
  ◌==◌, if◌then◌else◌, u64, sub64, ◌>>=◌,
}
use angl_os.KernelLists.{ListOps}
use angl_os.CString.{memset}
use angl_os.AddressSpace.{mem_sbrk}
use angl_os.Heap.{
  Heap, fence, max, chunksize, num_lists, get_seg_index, request_words, blk_size, payload, set_tag,
  mark_block_free, push_free, coalesce, extend_heap, place,
}

module _ (ops : ListOps) where
  -- the inner loop of `find_fit`, at list `i` with `j` elements passed
  pub find_in_list : ℕ → ℕ → ℕ → ℕ → List ℕ → Heap ops → Option ℕ
  find_in_list asize idx i j [] s = none
  find_in_list asize idx i j (elem ∷ elems) s =
      let blk = sub64 elem 8 in
      let rest = find_in_list asize idx i (j + 1) elems s in
      if leb asize (blk_size ops blk s)
      then some blk
      else (if ltb (sub64 11 (i - idx)) j then none else rest)

  -- `find_fit`: the loop over the lists from `i` on
  pub find_from : ℕ → ℕ → ℕ → ℕ → Heap ops → Option ℕ
  find_from zero asize idx i s = none
  find_from (suc left) asize idx i s =
      let rest = find_from left asize idx (i + 1) s in
      elim (find_in_list asize idx i 0 (ops.elements (s.free_lists i)) s) [
        | some blk ↦ some blk
        | none ↦ rest
      ]

  pub find_fit : ℕ → Heap ops → Option ℕ
  find_fit asize s = let idx = get_seg_index asize in find_from (num_lists - idx) asize idx idx s

  -- `_kmalloc` behind its tests
  pub allocate : ℕ → Heap ops → ℕ × Heap ops
  allocate awords s =
      let (bp, t) = extend_heap ops (max awords chunksize) s in
      elim (find_fit awords s) [
        | some blk ↦ (payload blk, place ops blk awords s)
        | none ↦ if bp == 0 then (0, t) else (payload bp, place ops bp awords t)
      ]

  -- `_kmalloc`
  pub raw_kmalloc : ℕ → Heap ops → ℕ × Heap ops
  raw_kmalloc size s =
      if size == 0
      then (0, s)
      else elim (request_words size) [ none ↦ (0, s) | some awords ↦ allocate awords s ]

  -- `_kcalloc`
  pub raw_kcalloc : ℕ → Heap ops → ℕ × Heap ops
  raw_kcalloc size s =
      let (ptr, t) = raw_kmalloc size s in (ptr, record t { bytes = memset ptr 0 size t.bytes })

  -- `_kfree`
  pub raw_kfree : ℕ → Heap ops → Heap ops
  raw_kfree ptr s =
      let blk = sub64 ptr 8 in
      let t = push_free ops blk (mark_block_free ops blk (blk_size ops blk s) s) in
      if ptr == 0 then s else (coalesce ops blk t).1

  -- `initKernelHeap`: 0, or -1 as an `int`
  pub init_kernel_heap : Heap ops → ℕ × Heap ops
  init_kernel_heap s =
      let (initial, memory) = mem_sbrk 32 s.memory in
      let cleared = record s { memory = memory; free_lists = λ i. ops.list_init; lock = false } in
      let low = set_tag ops (u64 (initial + 16)) fence cleared in
      let high =
        set_tag ops (u64 (initial + 24)) fence (record low { heap_listp = u64 (initial + 24) }) in
      let (bp, t) = extend_heap ops chunksize high in
      if initial == 0
      then (2 ^ 32 - 1, record s { memory = memory })
      else (if bp == 0 then (2 ^ 32 - 1, t) else (0, t))

  -- `spinLock` and `spinUnlock` on the heap's lock
  pub lock_heap : Heap ops → Option (Heap ops)
  lock_heap s = if s.lock then none else some (record s { lock = true })

  pub unlock_heap : Heap ops → Heap ops
  unlock_heap s = record s { lock = false }

  -- `kmalloc`, `kcalloc` and `kfree`
  pub kmalloc : ℕ → Heap ops → Option (ℕ × Heap ops)
  kmalloc size s = do
    locked ← lock_heap s
    let (ptr, t) = raw_kmalloc size locked
    some (ptr, unlock_heap t)

  pub kcalloc : ℕ → Heap ops → Option (ℕ × Heap ops)
  kcalloc size s = do
    locked ← lock_heap s
    let (ptr, t) = raw_kcalloc size locked
    some (ptr, unlock_heap t)

  pub kfree : ℕ → Heap ops → Option (Heap ops)
  kfree ptr s = do locked ← lock_heap s; some (unlock_heap (raw_kfree ptr locked))
