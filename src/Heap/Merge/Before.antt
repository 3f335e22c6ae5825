-- ===== src/Heap/Merge/Before.antt =====
-- The branches of `coalesce` of kernel/mm/heap/heap.c where the block before is free.
use angl_os.Base.{
  ℕ, ◌+◌, ◌-◌, ◌*◌, ◌≡◌, ◌≢◌, refl, ap, ◌∙◌, sym, false, List, [], ◌∷◌, ◌++◌, arith, sub64, u64,
}
use angl_os.KernelLists.{ListOps}
use angl_os.Heap.{Tag, Heap, push_free, unlink, blk_size, next_blk, prev_blk, prev_blk_footer}
use angl_os.Heap.Segments.{total, total-append, Seg-split}
use angl_os.Heap.FreeLists.{FreeIn, unlink-Lists, detach-Lists}
use angl_os.Heap.Marks.{mark_block_free_lem}
use angl_os.Heap.Valid.{IsHeap, Placed-fits, AllFree-cons, AllFree-nil, UsedIn-replace}
use angl_os.Heap.Merge.{Joined, merge_blocks}
use angl_os.Heap.Merge.Branches.{with_prev, with_both}

module _ (ops : ListOps) (first : ℕ) where
  -- A block joins the free block before it.
  pub merge_prev :
      (ws : List Tag) (w b : Tag) (ys : List Tag) (s : Heap ops) (a : ℕ)
      → a ≡ first + 8 * total ws + 8 * w.size
      → w.inuse ≡ false
      → b.inuse ≡ false
      → IsHeap ops first (ws ++ (w ∷ b ∷ ys)) s
      → Joined ops first
          (ws ++ (w ∷ b ∷ ys))
          b
          ws
          (w.size + (b.size + 0))
          ys
          (prev_blk ops a s, push_free ops (prev_blk ops a s) (with_prev ops a s))
  unfolding prev_blk blk_size unlink
  merge_prev ws w b ys s a ea fw fb h =
      let (head, foot, large, (head2, foot2, large2, rest)) =
        (Seg-split s.tags first ws (w ∷ b ∷ ys) h.blocks).1 in
      let (small, word) = Placed-fits first (total (ws ++ (w ∷ b ∷ ys))) s.memory h.placed in
      let sum = total-append ws (w ∷ b ∷ ys) in
      let at_a : s.tags a ≡ b = ap s.tags ea ∙ head2 in
      let before : prev_blk_footer a ≡ first + 8 * total ws + 8 * w.size - 8 = omega (arith, ea) in
      let p = prev_blk ops a s in
      let ep : p ≡ first + 8 * total ws =
        ap (λ g. sub64 a (8 * g.size)) (ap s.tags before ∙ foot) ∙ omega arith in
      let at_p : s.tags p ≡ w = ap s.tags ep ∙ head in
      let k = u64 (blk_size ops a s + blk_size ops p s) in
      let ek : k ≡ w.size + (b.size + 0) =
        ap (λ g. u64 (g.size + blk_size ops p s)) at_a
        ∙ ap (λ g. u64 (b.size + g.size)) at_p
        ∙ omega arith in
      let all = FreeIn first (ws ++ (w ∷ b ∷ ys)) in
      let u1 = unlink-Lists ops all a s (omega arith) h.lists in
      let u2 =
        unlink-Lists ops (λ i q. all i q × (q ≢ a + 8)) p (unlink ops a s) (omega arith) u1 in
      let t = unlink ops p (unlink ops a s) in
      let m : Tag = record { size = k; inuse = false } in
      let old = AllFree-cons w (b ∷ []) fw (AllFree-cons b [] fb AllFree-nil) in
      let new = AllFree-cons m [] refl AllFree-nil in
      record {
        merged = record {
          before = ws;
          block = m;
          after = ys;
          heap =
              merge_blocks ops first ws (w ∷ b ∷ []) ys s t p p k h (omega arith) ep refl ek refl
                refl
                (detach-Lists ops s.tags first ws (w ∷ b ∷ []) ys
                  (λ i q. (all i q × (q ≢ a + 8)) × (q ≢ p + 8)) t h.blocks
                  (λ i q. (
                    λ ((f, far_a), far_p).
                        (f, ((λ e. far_p (omega arith)), ((λ e. far_a (omega arith)), tt))),
                    λ (f, apart).
                        ((f, (λ e. apart.1.0 (omega arith))), (λ e. apart.0 (omega arith))),
                  ))
                  u2);
          address = ep;
          free = refl;
          large = omega arith;
          kept = λ z d. (
            UsedIn-replace first ws (w ∷ b ∷ []) (m ∷ []) ys z d (omega arith) old,
            UsedIn-replace first ws (m ∷ []) (w ∷ b ∷ []) ys z d (omega arith) new,
          );
        };
        front = refl;
        size = ek;
        back = refl;
      }

  -- A block joins the free blocks before and behind it.
  pub merge_both :
      (ws : List Tag) (w b c : Tag) (ys : List Tag) (s : Heap ops) (a : ℕ)
      → a ≡ first + 8 * total ws + 8 * w.size
      → w.inuse ≡ false
      → b.inuse ≡ false
      → c.inuse ≡ false
      → IsHeap ops first (ws ++ (w ∷ b ∷ c ∷ ys)) s
      → Joined ops first (ws ++ (w ∷ b ∷ c ∷ ys)) b ws (w.size + (b.size + (c.size + 0))) ys (
        prev_blk ops a (with_both ops a s),
        push_free ops (prev_blk ops a (with_both ops a s)) (with_both ops a s),
      )
  unfolding prev_blk next_blk blk_size unlink
  merge_both ws w b c ys s a ea fw fb fc h =
      let (head, foot, large, (head2, foot2, large2, (head3, foot3, large3, rest))) =
        (Seg-split s.tags first ws (w ∷ b ∷ c ∷ ys) h.blocks).1 in
      let (small, word) = Placed-fits first (total (ws ++ (w ∷ b ∷ c ∷ ys))) s.memory h.placed in
      let sum = total-append ws (w ∷ b ∷ c ∷ ys) in
      let at_a : s.tags a ≡ b = ap s.tags ea ∙ head2 in
      let before : prev_blk_footer a ≡ first + 8 * total ws + 8 * w.size - 8 = omega (arith, ea) in
      let at_f : s.tags (prev_blk_footer a) ≡ w = ap s.tags before ∙ foot in
      let p = prev_blk ops a s in
      let ep : p ≡ first + 8 * total ws = ap (λ g. sub64 a (8 * g.size)) at_f ∙ omega arith in
      let at_p : s.tags p ≡ w = ap s.tags ep ∙ head in
      let n = next_blk ops a s in
      let en : n ≡ first + 8 * total ws + 8 * w.size + 8 * b.size =
        ap (λ g. u64 (a + 8 * g.size)) at_a ∙ omega arith in
      let at_n : s.tags n ≡ c = ap s.tags en ∙ head3 in
      let k = u64 (blk_size ops a s + blk_size ops n s + blk_size ops p s) in
      let ek : k ≡ w.size + (b.size + (c.size + 0)) =
        ap (λ g. u64 (g.size + blk_size ops n s + blk_size ops p s)) at_a
        ∙ ap (λ g. u64 (b.size + g.size + blk_size ops p s)) at_n
        ∙ ap (λ g. u64 (b.size + c.size + g.size)) at_p
        ∙ omega arith in
      let all = FreeIn first (ws ++ (w ∷ b ∷ c ∷ ys)) in
      let u1 = unlink-Lists ops all a s (omega arith) h.lists in
      let u2 =
        unlink-Lists ops (λ i q. all i q × (q ≢ a + 8)) p (unlink ops a s) (omega arith) u1 in
      let t = unlink ops n (unlink ops p (unlink ops a s)) in
      let u3 =
        unlink-Lists ops (λ i q. (all i q × (q ≢ a + 8)) × (q ≢ p + 8)) n
          (unlink ops p (unlink ops a s)) (omega arith) u2 in
      let v = with_both ops a s in
      let marked = mark_block_free_lem ops p k t (omega arith) (omega arith) (omega arith) in
      let still : v.tags (prev_blk_footer a) ≡ w =
        marked.inner (prev_blk_footer a) (λ e. omega arith) (λ e. omega arith) ∙ at_f in
      let again : prev_blk ops a v ≡ p = ap (λ g. sub64 a (8 * g.size)) (still ∙ sym at_f) in
      let m : Tag = record { size = k; inuse = false } in
      let old =
        AllFree-cons w (b ∷ c ∷ []) fw
          (AllFree-cons b (c ∷ []) fb (AllFree-cons c [] fc AllFree-nil)) in
      let new = AllFree-cons m [] refl AllFree-nil in
      record {
        merged = record {
          before = ws;
          block = m;
          after = ys;
          heap =
              merge_blocks ops first ws (w ∷ b ∷ c ∷ []) ys s t p (prev_blk ops a v) k h
                (omega arith) ep again ek refl refl
                (detach-Lists ops s.tags first ws (w ∷ b ∷ c ∷ []) ys
                  (λ i q. ((all i q × (q ≢ a + 8)) × (q ≢ p + 8)) × (q ≢ n + 8)) t h.blocks
                  (λ i q. (
                    λ (((f, far_a), far_p), far_n). (
                      f,
                      (
                        (λ e. far_p (omega arith)),
                        ((λ e. far_a (omega arith)), ((λ e. far_n (omega arith)), tt)),
                      ),
                    ),
                    λ (f, apart). (
                      ((f, (λ e. apart.1.0 (omega arith))), (λ e. apart.0 (omega arith))),
                      (λ e. apart.1.1.0 (omega arith)),
                    ),
                  ))
                  u3);
          address = again ∙ ep;
          free = refl;
          large = omega arith;
          kept = λ z d. (
            UsedIn-replace first ws (w ∷ b ∷ c ∷ []) (m ∷ []) ys z d (omega arith) old,
            UsedIn-replace first ws (m ∷ []) (w ∷ b ∷ c ∷ []) ys z d (omega arith) new,
          );
        };
        front = refl;
        size = ek;
        back = refl;
      }
