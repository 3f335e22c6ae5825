-- ===== src/Heap/Malloc/Realloc/Branches.antt =====
-- The branches of `_krealloc` of kernel/mm/heap/heap.c that keep a block in its place or move it into
-- the free block before.
use angl_os.Base.{
  ℕ, ◌+◌, ◌-◌, ◌*◌, ◌≤◌, ◌≡◌, ◌≢◌, refl, ap, ◌∙◌, sym, true, false, List, [], ◌∷◌, ◌++◌, arith, u64,
  sub64,
}
use angl_os.KernelLists.{ListOps}
use angl_os.Heap.{Tag, Heap, next_blk, prev_blk, prev_blk_footer, blk_size, unlink}
use angl_os.Heap.Segments.{total, total-append, Seg-split}
use angl_os.Heap.FreeLists.{FreeIn, FreeIn-in_use, unlink-Lists, detach-Lists}
use angl_os.Heap.Valid.{IsHeap, Placed-fits, UsedIn-first, UsedIn-skip, AllFree-cons, AllFree-nil}
use angl_os.Heap.Malloc.Spec.Release.{used-Outside}
use angl_os.Heap.Malloc.Realloc.{shrink, take_next, take_prev, take_both, move_payload}
use angl_os.Heap.Malloc.Realloc.Resized.{Resized, OnlyUsed, split_used-Resized}

module _ (ops : ListOps) (first : ℕ) where
  pub shrink_lem :
      (xs : List Tag) (b : Tag) (ys : List Tag) (s : Heap ops) (o n : ℕ)
      → IsHeap ops first (xs ++ (b ∷ ys)) s
      → b.inuse ≡ true
      → o ≡ b.size
      → 8 ≤ n
      → n + 8 ≤ b.size
      → Resized ops first
          (xs ++ (b ∷ ys))
          (first + 8 * total xs)
          n
          (first + 8 * total xs)
          (shrink ops (first + 8 * total xs) o n s)
  unfolding shrink
  shrink_lem xs b ys s o n h used eo large le =
      let (small, word) = Placed-fits first (total (xs ++ (b ∷ ys))) s.memory h.placed in
      let sum = total-append xs (b ∷ ys) in
      let a = first + 8 * total xs in
      (split_used-Resized ops first xs (b ∷ []) ys s s a n (sub64 o n) a b h
        ((λ q d. UsedIn-first a b [] q d used AllFree-nil), omega arith, omega arith) refl
        (omega arith) large (omega arith) refl refl (used-Outside ops first xs b ys s h used)).1

  pub take_next_lem :
      (xs : List Tag) (b c : Tag) (ys : List Tag) (s : Heap ops) (o n : ℕ)
      → IsHeap ops first (xs ++ (b ∷ c ∷ ys)) s
      → b.inuse ≡ true
      → c.inuse ≡ false
      → o ≡ b.size
      → 8 ≤ n
      → n + 8 ≤ b.size + c.size
      → Resized ops first
          (xs ++ (b ∷ c ∷ ys))
          (first + 8 * total xs)
          n
          (first + 8 * total xs)
          (take_next ops (first + 8 * total xs) o n s)
  unfolding take_next unlink next_blk blk_size
  take_next_lem xs b c ys s o n h used free eo large le =
      let (small, word) = Placed-fits first (total (xs ++ (b ∷ c ∷ ys))) s.memory h.placed in
      let (head, foot, large_b, (head2, foot2, large_c, rest)) =
        (Seg-split s.tags first xs (b ∷ c ∷ ys) h.blocks).1 in
      let sum = total-append xs (b ∷ c ∷ ys) in
      let a = first + 8 * total xs in
      let next = next_blk ops a s in
      let en : next ≡ a + 8 * b.size = ap (λ g. u64 (a + 8 * g.size)) head ∙ omega arith in
      let size : blk_size ops next s ≡ c.size = ap (λ g. g.size) (ap s.tags en ∙ head2) in
      let all = FreeIn first (xs ++ (b ∷ c ∷ ys)) in
      let lists =
        detach-Lists ops s.tags first xs (b ∷ c ∷ []) ys (λ i q. all i q × (q ≢ next + 8))
          (unlink ops next s) h.blocks
          (λ i q. (
            λ (f, far). (
              f,
              (
                FreeIn-in_use s.tags first (xs ++ (b ∷ c ∷ ys)) i q a h.blocks
                    (ap (λ g. g.inuse) head ∙ used) f,
                ((λ e. far (omega arith)), tt),
              ),
            ),
            λ (f, apart). (f, (λ e. apart.1.0 (omega arith))),
          ))
          (unlink-Lists ops all next s (omega arith) h.lists) in
      (split_used-Resized ops first xs (b ∷ c ∷ []) ys s (unlink ops next s) a n
        (sub64 (u64 (o + blk_size ops next s)) n) a b h
        (
          (λ q d. UsedIn-first a b (c ∷ []) q d used (AllFree-cons c [] free AllFree-nil)),
          omega arith,
          omega arith,
        )
        refl (omega arith) large (omega arith) refl refl lists).0

  -- Where the block before lies, and its size.
  pub prev-lies :
      (ws : List Tag) (w b : Tag) (ys : List Tag) (s : Heap ops) (a : ℕ)
      → IsHeap ops first (ws ++ (w ∷ b ∷ ys)) s
      → a ≡ first + 8 * total ws + 8 * w.size
      → (prev_blk ops a s ≡ first + 8 * total ws)
        × (blk_size ops (prev_blk ops a s) s ≡ w.size)
        × (next_blk ops (prev_blk ops a s) s ≡ a)
        × (next_blk ops a s ≡ a + 8 * b.size)
  unfolding prev_blk next_blk blk_size
  prev-lies ws w b ys s a h ea =
      let (small, word) = Placed-fits first (total (ws ++ (w ∷ b ∷ ys))) s.memory h.placed in
      let (head, foot, large_w, (head2, foot2, large_b, rest)) =
        (Seg-split s.tags first ws (w ∷ b ∷ ys) h.blocks).1 in
      let sum = total-append ws (w ∷ b ∷ ys) in
      let before : prev_blk_footer a ≡ first + 8 * total ws + 8 * w.size - 8 = omega (arith, ea) in
      let p = prev_blk ops a s in
      let ep : p ≡ first + 8 * total ws =
        ap (λ g. sub64 a (8 * g.size)) (ap s.tags before ∙ foot) ∙ omega arith in
      let at_p : s.tags p ≡ w = ap s.tags ep ∙ head in
      (
        ep,
        ap (λ g. g.size) at_p,
        ap (λ g. u64 (p + 8 * g.size)) at_p ∙ omega arith,
        ap (λ g. u64 (a + 8 * g.size)) (ap s.tags ea ∙ head2) ∙ omega arith,
      )

  pub take_prev_lem :
      (ws : List Tag) (w b : Tag) (ys : List Tag) (s : Heap ops) (a o n : ℕ)
      → IsHeap ops first (ws ++ (w ∷ b ∷ ys)) s
      → a ≡ first + 8 * total ws + 8 * w.size
      → w.inuse ≡ false
      → b.inuse ≡ true
      → o ≡ b.size
      → 8 ≤ n
      → n + 8 ≤ w.size + b.size
      → ((take_prev ops a o n s).0 ≡ prev_blk ops a s + 8)
        × Resized ops first (ws ++ (w ∷ b ∷ ys)) a n (prev_blk ops a s) (take_prev ops a o n s).1
  unfolding take_prev unlink move_payload
  take_prev_lem ws w b ys s a o n h ea free used eo large le =
      let (small, word) = Placed-fits first (total (ws ++ (w ∷ b ∷ ys))) s.memory h.placed in
      let (head, foot, large_w, (head2, foot2, large_b, rest)) =
        (Seg-split s.tags first ws (w ∷ b ∷ ys) h.blocks).1 in
      let sum = total-append ws (w ∷ b ∷ ys) in
      let p = prev_blk ops a s in
      let (ep, size, ea', en) = prev-lies ws w b ys s a h ea in
      let all = FreeIn first (ws ++ (w ∷ b ∷ ys)) in
      let in_use : (s.tags a).inuse ≡ true = ap (λ g. g.inuse) (ap s.tags ea ∙ head2) ∙ used in
      let t = move_payload ops p (next_blk ops p s) o (unlink ops p s) in
      let lists =
        detach-Lists ops s.tags first ws (w ∷ b ∷ []) ys (λ i q. all i q × (q ≢ p + 8)) t h.blocks
          (λ i q. (
            λ (f, far). (
              f,
              (
                (λ e. far (omega arith)),
                (
                  (λ e.
                      FreeIn-in_use s.tags first (ws ++ (w ∷ b ∷ ys)) i q a h.blocks in_use f
                        (omega arith)),
                  tt,
                ),
              ),
            ),
            λ (f, apart). (f, (λ e. apart.0 (omega arith))),
          ))
          (unlink-Lists ops all p s (omega arith) h.lists) in
      let only : OnlyUsed (first + 8 * total ws) (w ∷ b ∷ []) a b = (
        (λ q d.
            let skip = UsedIn-skip (first + 8 * total ws) w (b ∷ []) q d free in
            let one = UsedIn-first (first + 8 * total ws + 8 * w.size) b [] q d used AllFree-nil in
            (
              λ k. ((one.0 (skip.0 k)).0 ∙ sym ea, (one.0 (skip.0 k)).1),
              λ (e, f). skip.1 (one.1 (e ∙ ea, f)),
            )),
        omega arith,
        omega arith,
      ) in
      (
        omega arith,
        (split_used-Resized ops first ws (w ∷ b ∷ []) ys s t p n
            (sub64 (u64 (o + blk_size ops p s)) n) a b h only ep (omega arith) large (omega arith)
            refl refl lists).1,
      )

  pub take_both_lem :
      (ws : List Tag) (w b c : Tag) (ys : List Tag) (s : Heap ops) (a o n : ℕ)
      → IsHeap ops first (ws ++ (w ∷ b ∷ c ∷ ys)) s
      → a ≡ first + 8 * total ws + 8 * w.size
      → w.inuse ≡ false
      → b.inuse ≡ true
      → c.inuse ≡ false
      → o ≡ b.size
      → 8 ≤ n
      → n + 8 ≤ w.size + b.size + c.size
      → ((take_both ops a o n s).0 ≡ prev_blk ops a s + 8)
        × Resized ops first
            (ws ++ (w ∷ b ∷ c ∷ ys))
            a
            n
            (prev_blk ops a s)
            (take_both ops a o n s).1
  unfolding take_both unlink move_payload blk_size
  take_both_lem ws w b c ys s a o n h ea free_w used free_c eo large le =
      let (small, word) = Placed-fits first (total (ws ++ (w ∷ b ∷ c ∷ ys))) s.memory h.placed in
      let (head, foot, large_w, (head2, foot2, large_b, (head3, foot3, large_c, rest))) =
        (Seg-split s.tags first ws (w ∷ b ∷ c ∷ ys) h.blocks).1 in
      let sum = total-append ws (w ∷ b ∷ c ∷ ys) in
      let p = prev_blk ops a s in
      let (ep, size, ea', en) = prev-lies ws w b (c ∷ ys) s a h ea in
      let next = next_blk ops (next_blk ops p s) s in
      let enext : next ≡ first + 8 * total ws + 8 * w.size + 8 * b.size =
        ap (λ z. next_blk ops z s) ea' ∙ en ∙ omega arith in
      let size_c : blk_size ops next s ≡ c.size = ap (λ g. g.size) (ap s.tags enext ∙ head3) in
      let all = FreeIn first (ws ++ (w ∷ b ∷ c ∷ ys)) in
      let in_use : (s.tags a).inuse ≡ true = ap (λ g. g.inuse) (ap s.tags ea ∙ head2) ∙ used in
      let t = move_payload ops p (next_blk ops p s) o (unlink ops next (unlink ops p s)) in
      let u1 = unlink-Lists ops all p s (omega arith) h.lists in
      let u2 =
        unlink-Lists ops (λ i q. all i q × (q ≢ p + 8)) next (unlink ops p s) (omega arith) u1 in
      let lists =
        detach-Lists ops s.tags first ws (w ∷ b ∷ c ∷ []) ys
          (λ i q. (all i q × (q ≢ p + 8)) × (q ≢ next + 8)) t h.blocks
          (λ i q. (
            λ ((f, far_p), far_n). (
              f,
              (
                (λ e. far_p (omega arith)),
                (
                  (λ e.
                      FreeIn-in_use s.tags first (ws ++ (w ∷ b ∷ c ∷ ys)) i q a h.blocks in_use f
                        (omega arith)),
                  ((λ e. far_n (omega arith)), tt),
                ),
              ),
            ),
            λ (f, apart). ((f, (λ e. apart.0 (omega arith))), (λ e. apart.1.1.0 (omega arith))),
          ))
          u2 in
      let free = AllFree-cons c [] free_c AllFree-nil in
      let only : OnlyUsed (first + 8 * total ws) (w ∷ b ∷ c ∷ []) a b = (
        (λ q d.
            let skip = UsedIn-skip (first + 8 * total ws) w (b ∷ c ∷ []) q d free_w in
            let one = UsedIn-first (first + 8 * total ws + 8 * w.size) b (c ∷ []) q d used free in
            (
              λ k. ((one.0 (skip.0 k)).0 ∙ sym ea, (one.0 (skip.0 k)).1),
              λ (e, f). skip.1 (one.1 (e ∙ ea, f)),
            )),
        omega arith,
        omega arith,
      ) in
      (
        omega arith,
        (split_used-Resized ops first ws (w ∷ b ∷ c ∷ []) ys s t p n
            (sub64 (u64 (o + blk_size ops p s + blk_size ops next s)) n) a b h only ep (omega arith)
            large (omega arith) refl refl lists).0,
      )
