-- ===== src/Heap/Malloc/Spec/Release.antt =====
-- `_kfree` of kernel/mm/heap/heap.c: what is in use after it.
use angl_os.Base.{
  ℕ, ◌+◌, ◌*◌, ◌≡◌, ◌≢◌, ◌↔◌, refl, inl, inr, ap, ◌∙◌, sym, true, false, List, [], ◌∷◌, ◌++◌, arith,
  ==_ne, sub64, if◌then◌else◌,
}
use angl_os.KernelLists.{ListOps}
use angl_os.Heap.{Tag, Heap, blk_size, mark_block_free, push_free, coalesce}
use angl_os.Heap.Segments.{total, Seg, Seg-split, At-range, At-split}
use angl_os.Heap.FreeLists.{FreeIn, FreeIn-middle, FreeIn-used, Lists, Lists-iff, Outside}
use angl_os.Heap.Valid.{
  IsHeap, Placed-fits, UsedIn, UsedOutside, UsedOutside-range, UsedIn-middle, UsedIn-first,
  AllFree-cons, AllFree-nil,
}
use angl_os.Heap.Merge.{merge_blocks}
use angl_os.Heap.Merge.Cases.{coalesce_lem}
use angl_os.Heap.Malloc.{raw_kfree}
use mathlib.Core.Path.{subst}

-- The heap `u` has the blocks in use of `bs` but for the one at `p`.
pub record Freed (ops : ListOps) (first : ℕ) (bs : List Tag) (p : ℕ) (u : Heap ops) : Type 0 where
  pub blocks : List Tag
  pub heap : IsHeap ops first blocks u
  pub live : (q : ℕ) (d : Tag) → UsedIn first blocks q d ↔ (UsedIn first bs q d × (q ≢ p))

UsedOutside-ne :
    (t : ℕ → Tag) (a : ℕ) (xs : List Tag) (b : Tag) (ys : List Tag) (q : ℕ) (d : Tag)
    → Seg t a (xs ++ (b ∷ ys))
    → UsedOutside a xs (total (b ∷ [])) ys q d
    → q ≢ a + 8 * total xs
UsedOutside-ne t a xs b ys q d h o e =
    let (head, foot, large, rest) = (Seg-split t a xs (b ∷ ys) h).1 in
    elim (UsedOutside-range t a xs (b ∷ []) ys q d h o) [
      | inl l ↦ omega arith
      | inr r ↦ omega arith
    ]

-- A block in use stands in no list.
pub used-Outside :
    (ops : ListOps) (first : ℕ) (xs : List Tag) (b : Tag) (ys : List Tag) (s : Heap ops)
    → IsHeap ops first (xs ++ (b ∷ ys)) s
    → b.inuse ≡ true
    → Lists ops (Outside first xs (total (b ∷ [])) ys) s
used-Outside ops first xs b ys s h used =
    Lists-iff ops (FreeIn first (xs ++ (b ∷ ys))) (Outside first xs (total (b ∷ [])) ys) s
      (λ i q.
        let mid = FreeIn-middle first xs (b ∷ []) ys i q in
        (
          λ w. elim (mid.0 w) [
            | inl o ↦ o
            | inr m ↦ absurd (FreeIn-used (first + 8 * total xs) b i q used m)
          ],
          λ o. mid.1 (inl o),
        ))
      h.lists

module _ (ops : ListOps) (first : ℕ) where
  Freed-middle :
      (xs : List Tag) (b : Tag) (ys : List Tag) (s : Heap ops) (p k : ℕ)
      → IsHeap ops first (xs ++ (b ∷ ys)) s
      → b.inuse ≡ true
      → p ≡ first + 8 * total xs
      → k ≡ b.size
      → Freed ops first
          (xs ++ (b ∷ ys))
          p
          (coalesce ops p (push_free ops p (mark_block_free ops p k s))).1
  Freed-middle xs b ys s p k h used ep ek =
      let (head, foot, large, rest) = (Seg-split s.tags first xs (b ∷ ys) h.blocks).1 in
      let f : Tag = record { size = k; inuse = false } in
      let t = push_free ops p (mark_block_free ops p k s) in
      let lists = used-Outside ops first xs b ys s h used in
      let heap =
        merge_blocks ops first xs (b ∷ []) ys s s p p k h (omega arith) ep refl (omega arith) refl
          refl lists in
      let m = (coalesce_lem ops first xs f ys t p ep refl heap).merged in
      let sizes : total (f ∷ []) ≡ total (b ∷ []) = omega arith in
      let nothing = AllFree-cons f [] refl AllFree-nil in
      record {
        blocks = m.before ++ (m.block ∷ m.after);
        heap = m.heap;
        live = λ q d.
            let was = UsedIn-middle first xs (b ∷ []) ys q d in
            let now = UsedIn-middle first xs (f ∷ []) ys q d in
            let one = UsedIn-first (first + 8 * total xs) b [] q d used AllFree-nil in
            (
              λ u. elim (now.0 ((m.kept q d).1 u)) [
                | inl o ↦
                    let o' = subst (λ n. UsedOutside first xs n ys q d) sizes o in
                    (
                      was.1 (inl o'),
                      (λ e. UsedOutside-ne s.tags first xs b ys q d h.blocks o' (e ∙ ep)),
                    )
                | inr w ↦ absurd (nothing (first + 8 * total xs) q d w)
              ],
              λ (u, ne). elim (was.0 u) [
                | inl o ↦
                    (m.kept q d).0
                      (now.1 (inl (subst (λ n. UsedOutside first xs n ys q d) (sym sizes) o)))
                | inr w ↦ absurd (ne ((one.0 w).0 ∙ sym ep))
              ],
            );
      }

  -- `_kfree` of the pointer to a block in use keeps the heap, and the blocks in use after it are those from
  -- before but for that block.
  pub raw_kfree_lem :
      (bs : List Tag) (s : Heap ops) (p : ℕ) (b : Tag)
      → IsHeap ops first bs s
      → UsedIn first bs p b
      → Freed ops first bs p (raw_kfree ops (p + 8) s)
  unfolding raw_kfree blk_size
  raw_kfree_lem bs s p b h (lies, used) =
      let (lo, hi, large, tag) = At-range s.tags first bs p b h.blocks lies in
      let (small, word) = Placed-fits first (total bs) s.memory h.placed in
      let (xs, ys, e, ep) = At-split first bs p b lies in
      let blk = sub64 (p + 8) 8 in
      let same : p ≡ blk = omega arith in
      let body : ℕ → Heap ops =
        λ a. (coalesce ops a (push_free ops a (mark_block_free ops a (blk_size ops a s) s))).1 in
      let eq : raw_kfree ops (p + 8) s ≡ body p =
        ap (λ z. if z then s else body blk) (==_ne (p + 8) 0 (λ k. omega arith))
        ∙ ap body (sym same) in
      subst (Freed ops first bs p) (sym eq) (
        subst (λ l. Freed ops first l p (body p)) (sym e)
          (Freed-middle xs b ys s p (blk_size ops p s) (subst (λ l. IsHeap ops first l s) e h) used
            ep (ap (λ g. g.size) tag)))
