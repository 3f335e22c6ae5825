-- ===== src/Heap/Merge/Branches.antt =====
-- The branches of `coalesce` of kernel/mm/heap/heap.c, by the neighbours of the block.
use angl_os.Base.{
  ℕ, ◌+◌, ◌*◌, ◌≡◌, ◌≢◌, refl, ap, ◌∙◌, Bool, false, List, [], ◌∷◌, ◌++◌, arith, u64, if◌then◌else◌,
}
use angl_os.KernelLists.{ListOps}
use angl_os.Heap.{
  Tag, Heap, mark_block_free, push_free, unlink, coalesce, blk_size, next_blk, prev_blk,
  prev_blk_footer, blk_free,
}
use angl_os.Heap.Segments.{total, total-append, Seg-split}
use angl_os.Heap.FreeLists.{FreeIn, unlink-Lists, detach-Lists}
use angl_os.Heap.Valid.{IsHeap, Placed-fits, AllFree-cons, AllFree-nil, UsedIn-replace}
use angl_os.Heap.Merge.{Joined, merge_blocks}

module _ (ops : ListOps) where
  -- the results of the branches
  abbrev pub with_next : ℕ → Heap ops → Heap ops
  with_next a s =
      let n = next_blk ops a s in
      mark_block_free ops a (u64 (blk_size ops a s + blk_size ops n s))
        (unlink ops n (unlink ops a s))

  abbrev pub with_prev : ℕ → Heap ops → Heap ops
  with_prev a s =
      let p = prev_blk ops a s in
      mark_block_free ops p (u64 (blk_size ops a s + blk_size ops p s))
        (unlink ops p (unlink ops a s))

  abbrev pub with_both : ℕ → Heap ops → Heap ops
  with_both a s =
      let n = next_blk ops a s in
      let p = prev_blk ops a s in
      mark_block_free ops p (u64 (blk_size ops a s + blk_size ops n s + blk_size ops p s))
        (unlink ops n (unlink ops p (unlink ops a s)))

  pub coalesce_cases :
      (a : ℕ) (s : Heap ops) (p n : Bool)
      → (s.tags (prev_blk_footer a)).inuse ≡ p
      → blk_free ops (next_blk ops a s) s ≡ n
      → coalesce ops a s ≡ (
          if p
          then (if n then (a, push_free ops a (with_next a s)) else (a, s))
          else (if n
              then (
                prev_blk ops a (with_both a s),
                push_free ops (prev_blk ops a (with_both a s)) (with_both a s),
              )
              else (prev_blk ops a s, push_free ops (prev_blk ops a s) (with_prev a s))))
  unfolding coalesce
  coalesce_cases a s p n ep en =
      let next : ℕ × Heap ops = (a, push_free ops a (with_next a s)) in
      let prev : ℕ × Heap ops =
        (prev_blk ops a s, push_free ops (prev_blk ops a s) (with_prev a s)) in
      let b = with_both a s in
      let both : ℕ × Heap ops = (prev_blk ops a b, push_free ops (prev_blk ops a b) b) in
      ap
        (λ z.
          if z
          then (if blk_free ops (next_blk ops a s) s then next else (a, s))
          else (if blk_free ops (next_blk ops a s) s then both else prev))
        ep
      ∙ ap (λ z. if p then (if z then next else (a, s)) else (if z then both else prev)) en

module _ (ops : ListOps) (first : ℕ) where
  -- Two free neighbours become one.
  pub merge_next :
      (xs : List Tag) (b c : Tag) (ys : List Tag) (s : Heap ops) (a : ℕ)
      → a ≡ first + 8 * total xs
      → b.inuse ≡ false
      → c.inuse ≡ false
      → IsHeap ops first (xs ++ (b ∷ c ∷ ys)) s
      → Joined ops first
          (xs ++ (b ∷ c ∷ ys))
          b
          xs
          (b.size + (c.size + 0))
          ys
          (a, push_free ops a (with_next ops a s))
  unfolding next_blk blk_size unlink
  merge_next xs b c ys s a ea fb fc h =
      let (head, foot, large, (head2, foot2, large2, rest)) =
        (Seg-split s.tags first xs (b ∷ c ∷ ys) h.blocks).1 in
      let (small, word) = Placed-fits first (total (xs ++ (b ∷ c ∷ ys))) s.memory h.placed in
      let sum = total-append xs (b ∷ c ∷ ys) in
      let at_a : s.tags a ≡ b = ap s.tags ea ∙ head in
      let n = next_blk ops a s in
      let en : n ≡ first + 8 * total xs + 8 * b.size =
        ap (λ g. u64 (a + 8 * g.size)) at_a ∙ omega arith in
      let at_n : s.tags n ≡ c = ap s.tags en ∙ head2 in
      let k = u64 (blk_size ops a s + blk_size ops n s) in
      let ek : k ≡ b.size + (c.size + 0) =
        ap (λ g. u64 (g.size + blk_size ops n s)) at_a
        ∙ ap (λ g. u64 (b.size + g.size)) at_n
        ∙ omega arith in
      let u1 = unlink-Lists ops (FreeIn first (xs ++ (b ∷ c ∷ ys))) a s (omega arith) h.lists in
      let u2 =
        unlink-Lists ops (λ i q. FreeIn first (xs ++ (b ∷ c ∷ ys)) i q × (q ≢ a + 8)) n
          (unlink ops a s) (omega arith) u1 in
      let t = unlink ops n (unlink ops a s) in
      let m : Tag = record { size = k; inuse = false } in
      let old = AllFree-cons b (c ∷ []) fb (AllFree-cons c [] fc AllFree-nil) in
      let new = AllFree-cons m [] refl AllFree-nil in
      record {
        merged = record {
          before = xs;
          block = m;
          after = ys;
          heap =
              merge_blocks ops first xs (b ∷ c ∷ []) ys s t a a k h (omega arith) ea refl ek refl
                refl
                (detach-Lists ops s.tags first xs (b ∷ c ∷ []) ys
                  (λ i q. (FreeIn first (xs ++ (b ∷ c ∷ ys)) i q × (q ≢ a + 8)) × (q ≢ n + 8)) t
                  h.blocks
                  (λ i q. (
                    λ ((f, far_a), far_n).
                        (f, ((λ e. far_a (omega arith)), ((λ e. far_n (omega arith)), tt))),
                    λ (f, apart).
                        ((f, (λ e. apart.0 (omega arith))), (λ e. apart.1.0 (omega arith))),
                  ))
                  u2);
          address = ea;
          free = refl;
          large = omega arith;
          kept = λ p d. (
            UsedIn-replace first xs (b ∷ c ∷ []) (m ∷ []) ys p d (omega arith) old,
            UsedIn-replace first xs (m ∷ []) (b ∷ c ∷ []) ys p d (omega arith) new,
          );
        };
        front = refl;
        size = ek;
        back = refl;
      }
