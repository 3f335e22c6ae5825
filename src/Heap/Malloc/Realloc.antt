-- ===== src/Heap/Malloc/Realloc.antt =====
-- `krealloc` of kernel/mm/heap/heap.c.
pub mod Resized
pub mod Branches
pub mod Outcome
pub mod Resize
pub mod Spec
use angl_os.Base.{
  ℕ, ◌+◌, ◌*◌, Bool, not, ◌&&◌, Option, none, some, ltb, leb, ◌==◌, if◌then◌else◌, u64, sub64,
  ◌>>=◌,
}
use angl_os.KernelLists.{ListOps}
use angl_os.CString.{memmove}
use angl_os.Heap.{
  Tag, Heap, max, chunksize, min_block_size_words, request_words, blk_free, blk_size, prev_blk,
  next_blk, prev_blk_footer, payload, mark_block_used, mark_block_free, push_free, unlink, coalesce,
  extend_heap,
}
use angl_os.Heap.Malloc.{raw_kmalloc, raw_kfree, lock_heap, unlock_heap}

-- `memcmp` with `FENCE`
pub is_fence : Tag → Bool
is_fence t = t.inuse && (t.size == 0)

-- the tests for words enough in `total` words
pub has_words : ℕ → ℕ → Bool
has_words awords total = ltb awords total && leb min_block_size_words (sub64 total awords)

module _ (ops : ListOps) where
  -- A block in use of `awords` words, and a free block of `left` words behind it, which is put into its
  -- list; and the address of that one.
  pub split_used : ℕ → ℕ → ℕ → Heap ops → ℕ × Heap ops
  split_used blk awords left s =
      let t = mark_block_used ops blk awords s in
      let rest = next_blk ops blk t in (rest, push_free ops rest (mark_block_free ops rest left t))

  -- the bytes of the payload to the block before
  pub move_payload : ℕ → ℕ → ℕ → Heap ops → Heap ops
  move_payload dest src oldsize s = record s {
    bytes = memmove (payload dest) (payload src) (u64 (sub64 oldsize 2 * 8)) s.bytes;
  }

  -- the first step of `_krealloc`: more words behind the last block
  pub extend_behind : ℕ → ℕ → ℕ → Heap ops → Heap ops
  extend_behind blk oldsize awords s =
      let t = (extend_heap ops (max (sub64 awords oldsize) chunksize) s).1 in
      if is_fence (s.tags (next_blk ops blk s))
        && (s.tags (prev_blk_footer blk)).inuse
        && ltb oldsize awords
      then t
      else s

  -- the branch for a smaller size
  pub shrink : ℕ → ℕ → ℕ → Heap ops → Heap ops
  shrink blk oldsize awords s =
      let (rest, t) = split_used blk awords (sub64 oldsize awords) s in (coalesce ops rest t).1

  -- the branch that takes words of the next block
  pub take_next : ℕ → ℕ → ℕ → Heap ops → Heap ops
  take_next blk oldsize awords s =
      let next = next_blk ops blk s in
      let left = sub64 (u64 (oldsize + blk_size ops next s)) awords in
      (split_used blk awords left (unlink ops next s)).1

  -- the branch that moves into the block before and takes words of the next one
  pub take_both : ℕ → ℕ → ℕ → Heap ops → ℕ × Heap ops
  take_both blk oldsize awords s =
      let prev = prev_blk ops blk s in
      let next = next_blk ops (next_blk ops prev s) s in
      let left = sub64 (u64 (oldsize + blk_size ops prev s + blk_size ops next s)) awords in
      let t =
        move_payload prev (next_blk ops prev s) oldsize (unlink ops next (unlink ops prev s)) in
      (payload prev, (split_used prev awords left t).1)

  -- the branch that moves into the block before
  pub take_prev : ℕ → ℕ → ℕ → Heap ops → ℕ × Heap ops
  take_prev blk oldsize awords s =
      let prev = prev_blk ops blk s in
      let left = sub64 (u64 (oldsize + blk_size ops prev s)) awords in
      let t = move_payload prev (next_blk ops prev s) oldsize (unlink ops prev s) in
      let (rest, u) = split_used prev awords left t in (payload prev, (coalesce ops rest u).1)

  -- the last branch: a new block, a copy, and the old block freed
  pub move_block : ℕ → ℕ → Heap ops → ℕ × Heap ops
  move_block ptr size s =
      let (newptr, t) = raw_kmalloc ops size s in
      let oldpayloadsize = sub64 (u64 (blk_size ops (sub64 ptr 8) t * 8)) 16 in
      let n = if ltb size oldpayloadsize then size else oldpayloadsize in
      let u = raw_kfree ops ptr (record t { bytes = memmove newptr ptr n t.bytes }) in
      if newptr == 0 then (0, t) else (newptr, u)

  -- `_krealloc` behind its first step
  pub resize : ℕ → ℕ → ℕ → ℕ → Bool → Bool → Heap ops → ℕ × Heap ops
  resize ptr size oldsize awords prev_alloc next_alloc s =
      let blk = sub64 ptr 8 in
      let next_size = blk_size ops (next_blk ops blk s) s in
      let prev_size = blk_size ops (prev_blk ops blk s) s in
      if awords == oldsize
      then (ptr, s)
      else (if has_words awords oldsize
          then (ptr, shrink blk oldsize awords s)
          else (if not next_alloc && prev_alloc && has_words awords (u64 (next_size + oldsize))
              then (ptr, take_next blk oldsize awords s)
              else (if not prev_alloc
                    && has_words awords (u64 (prev_size + oldsize + next_size))
                    && not next_alloc
                  then take_both blk oldsize awords s
                  else (if not prev_alloc && has_words awords (u64 (prev_size + oldsize))
                      then take_prev blk oldsize awords s
                      else move_block ptr size s))))

  -- `_krealloc`
  pub raw_krealloc : ℕ → ℕ → Heap ops → ℕ × Heap ops
  raw_krealloc ptr size s =
      let blk = sub64 ptr 8 in
      let oldsize = blk_size ops blk s in
      let prev_alloc = (s.tags (prev_blk_footer blk)).inuse in
      let next_alloc = not (blk_free ops (next_blk ops blk s) s) in
      if ptr == 0
      then raw_kmalloc ops size s
      else (if size == 0 then (0, raw_kfree ops ptr s) else elim (request_words size) [
        | none ↦ (0, s)
        | some awords ↦
            resize ptr size oldsize awords prev_alloc next_alloc
              (extend_behind blk oldsize awords s)
      ])

  -- `krealloc`
  pub krealloc : ℕ → ℕ → Heap ops → Option (ℕ × Heap ops)
  krealloc ptr size s = do
    locked ← lock_heap ops s
    let (rptr, t) = raw_krealloc ptr size locked
    some (rptr, unlock_heap ops t)
