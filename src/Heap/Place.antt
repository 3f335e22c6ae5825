-- ===== src/Heap/Place.antt =====
-- `place` of kernel/mm/heap/heap.c at a free block of the heap.
use angl_os.Base.{
  ℕ, ◌+◌, ◌-◌, ◌*◌, ◌^◌, ◌≤◌, ◌<◌, ◌≡◌, ◌≢◌, refl, inl, inr, ap, ◌∙◌, sym, true, false, List, [],
  ◌∷◌, ◌++◌, arith, leb, sub64, u64, Bool-cases, if◌then◌else◌,
}
use angl_os.KernelLists.{ListOps}
use angl_os.Heap.{
  Tag, Heap, mark_block_used, mark_block_free, push_free, unlink, place, blk_size, next_blk,
  min_block_size_words,
}
use angl_os.Heap.Segments.{total, total-append, Seg-split}
use angl_os.Heap.FreeLists.{
  FreeIn, FreeIn-used, Lists, Outside, unlink-Lists, detach-Lists, skip-Lists,
}
use angl_os.Heap.Marks.{Marked-Seg, mark_block_used_lem, mark_block_used-frame}
use angl_os.Heap.Split.{split_blocks}
use angl_os.Heap.Valid.{IsHeap, IsHeap-replace, Placed-fits, AllFree, AllFree-cons, AllFree-nil}
use mathlib.Core.Path.{subst}

module _ (ops : ListOps) (first : ℕ) (xs : List Tag) (b : Tag) (ys : List Tag) (s : Heap ops)
    (h : IsHeap ops first (xs ++ (b ∷ ys)) s) where
  -- A block lies below the end of the heap.
  pub block-fits :
      (8 ≤ b.size)
      × (b.size < 2 ^ 31)
      × (first + 8 * total xs + 8 * b.size + 2 ^ 35 < 2 ^ 64)
      × (s.tags (first + 8 * total xs) ≡ b)
      × (16 ≤ first)
  block-fits =
      let (head, foot, large, rest) = (Seg-split s.tags first xs (b ∷ ys) h.blocks).1 in
      let (small, word) = Placed-fits first (total (xs ++ (b ∷ ys))) s.memory h.placed in
      let sum = total-append xs (b ∷ ys) in
      (large, omega (arith, small, sum), omega (arith, word, sum), head, h.placed.start)

  -- The lists without one block.
  pub unlink-Outside :
      Lists ops (Outside first xs (total (b ∷ [])) ys) (unlink ops (first + 8 * total xs) s)
  unlink-Outside =
      let (large, small, word, tag, start) = block-fits in
      detach-Lists ops s.tags first xs (b ∷ []) ys
        (λ i q. FreeIn first (xs ++ (b ∷ ys)) i q × (q ≢ first + 8 * total xs + 8))
        (unlink ops (first + 8 * total xs) s) h.blocks
        (λ i q. (λ c. (c.0, (c.1, tt)), λ c. (c.0, c.1.0)))
        (unlink-Lists ops (FreeIn first (xs ++ (b ∷ ys))) (first + 8 * total xs) s (omega arith)
          h.lists)

  -- A block in use in its place.
  use_whole :
      (n : ℕ)
      → n ≡ b.size
      → IsHeap ops first
          (xs ++ (record { size = n; inuse = true } ∷ ys))
          (mark_block_used ops (first + 8 * total xs) n (unlink ops (first + 8 * total xs) s))
  unfolding unlink
  use_whole n e =
      let (large, small, word, tag, start) = block-fits in
      let a = first + 8 * total xs in
      let c : Tag = record { size = n; inuse = true } in
      let t = unlink ops a s in
      let u = mark_block_used ops a n t in
      let marked = mark_block_used_lem ops a n t (omega arith) (omega arith) (omega arith) in
      let (lists, mem) =
        mark_block_used-frame ops (Outside first xs (total (b ∷ [])) ys) a n t unlink-Outside in
      IsHeap-replace ops first xs (b ∷ []) (c ∷ []) ys s u h (omega arith) mem
        (λ x out. marked.same x (elim out [ inl l ↦ inl l | inr r ↦ inr (omega arith) ]))
        (Marked-Seg t.tags u.tags a c marked (omega arith))
        (skip-Lists ops first xs (c ∷ []) ys (total (b ∷ [])) u (omega arith)
          (λ i q. FreeIn-used a c i q refl) lists)

  -- A block in use and a free block in its place.
  use_split :
      (n r k : ℕ)
      → r ≡ first + 8 * total xs + 8 * n
      → n + k ≡ b.size
      → 8 ≤ n
      → 8 ≤ k
      → IsHeap ops first
          (xs ++ (record { size = n; inuse = true } ∷ record { size = k; inuse = false } ∷ ys))
          (push_free ops r (
            mark_block_free ops r k
              (mark_block_used ops (first + 8 * total xs) n (unlink ops (first + 8 * total xs) s))))
  unfolding unlink
  use_split n r k er sum large_n large_k =
      let a = first + 8 * total xs in
      split_blocks ops first xs (b ∷ []) ys s (unlink ops a s) a n r k h refl er (omega arith)
        large_n large_k refl refl unlink-Outside

-- What `place` makes of the free block `b` between `xs` and `ys`: a block in use of `n` words at
-- least, and the words left as a free block or none.
pub record Taken (ops : ListOps) (first : ℕ) (xs : List Tag) (b : Tag) (ys : List Tag) (n : ℕ)
    (u : Heap ops) : Type 0 where
  pub block : Tag
  pub left : List Tag
  pub heap : IsHeap ops first (xs ++ (block ∷ (left ++ ys))) u
  pub used : block.inuse ≡ true
  pub enough : n ≤ block.size
  pub sizes : block.size + total left ≡ b.size
  pub left_free : AllFree left

pub place_lem :
    (ops : ListOps) (first : ℕ) (xs : List Tag) (b : Tag) (ys : List Tag) (s : Heap ops) (n : ℕ)
    → IsHeap ops first (xs ++ (b ∷ ys)) s
    → 8 ≤ n
    → n ≤ b.size
    → Taken ops first xs b ys n (place ops (first + 8 * total xs) n s)
unfolding place next_blk blk_size
place_lem ops first xs b ys s n h large_n le =
    let (large, small, word, tag, start) = block-fits ops first xs b ys s h in
    let a = first + 8 * total xs in
    let t = unlink ops a s in
    let u = mark_block_used ops a n t in
    let used = mark_block_used_lem ops a n t large_n (omega arith) (omega arith) in
    let r = next_blk ops a u in
    let k = sub64 (blk_size ops a s) n in
    let er : r ≡ a + 8 * n = ap (λ g. u64 (a + 8 * g.size)) used.head ∙ omega arith in
    let ek : k ≡ b.size - n = ap (λ g. sub64 g.size n) tag ∙ omega arith in
    let split = push_free ops r (mark_block_free ops r k u) in
    let whole = mark_block_used ops a (blk_size ops a s) t in
    elim (Bool-cases (leb min_block_size_words k)) [
      | inl large_k ↦
          let big : 8 ≤ k = ground arith in
          subst (Taken ops first xs b ys n) (sym (ap (λ z. if z then split else whole) large_k))
            (record {
              block = record { size = n; inuse = true };
              left = record { size = k; inuse = false } ∷ [];
              heap = use_split ops first xs b ys s h n r k er (omega arith) large_n big;
              used = refl;
              enough = omega arith;
              sizes = omega arith;
              left_free = AllFree-cons (record { size = k; inuse = false }) [] refl AllFree-nil;
            })
      | inr small_k ↦
          subst (Taken ops first xs b ys n) (sym (ap (λ z. if z then split else whole) small_k))
            (record {
              block = record { size = blk_size ops a s; inuse = true };
              left = [];
              heap = use_whole ops first xs b ys s h (blk_size ops a s) (ap (λ g. g.size) tag);
              used = refl;
              enough = omega (arith, ap (λ g. g.size) tag);
              sizes = omega (arith, ap (λ g. g.size) tag);
              left_free = AllFree-nil;
            })
    ]
