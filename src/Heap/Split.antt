-- ===== src/Heap/Split.antt =====
-- A block in use and a free block behind it in the place of blocks of the heap of kernel/mm/heap/heap.c.
use angl_os.Base.{
  ℕ, ◌+◌, ◌-◌, ◌*◌, ◌≤◌, ◌≡◌, ◌↔◌, refl, inl, inr, ap, ◌∙◌, sym, true, false, List, [], ◌∷◌, ◌++◌,
  arith,
}
use angl_os.KernelLists.{ListOps}
use angl_os.Heap.{Tag, Heap, get_seg_index, mark_block_used, mark_block_free, push_free}
use angl_os.Heap.Segments.{total, total-append, Seg}
use angl_os.Heap.FreeLists.{
  FreeIn, FreeIn-append, FreeIn-one, FreeIn-used, Lists, Outside, attach-Lists,
}
use angl_os.Heap.Marks.{
  Marked-Seg, mark_block_used_lem, mark_block_free_lem, mark_block_used-frame,
  mark_block_free-frame,
}
use angl_os.Heap.Valid.{IsHeap, IsHeap-replace, Placed-fits}
use mathlib.Core.Path.{subst}

module _ (ops : ListOps) (first : ℕ) where
  pub split_blocks :
      (xs ms ys : List Tag) (s t : Heap ops) (a n r k : ℕ)
      → IsHeap ops first (xs ++ (ms ++ ys)) s
      → a ≡ first + 8 * total xs
      → r ≡ a + 8 * n
      → n + k ≡ total ms
      → 8 ≤ n
      → 8 ≤ k
      → t.tags ≡ s.tags
      → t.memory ≡ s.memory
      → Lists ops (Outside first xs (total ms) ys) t
      → IsHeap ops first
          (xs ++ (record { size = n; inuse = true } ∷ record { size = k; inuse = false } ∷ ys))
          (push_free ops r (mark_block_free ops r k (mark_block_used ops a n t)))
  unfolding push_free
  split_blocks xs ms ys s t a n r k h ea er sum large_n large_k tags mem lists =
      let (small, word) = Placed-fits first (total (xs ++ (ms ++ ys))) s.memory h.placed in
      let sum1 = total-append xs (ms ++ ys) in
      let sum2 = total-append ms ys in
      let c : Tag = record { size = n; inuse = true } in
      let f : Tag = record { size = k; inuse = false } in
      let u = mark_block_used ops a n t in
      let v = mark_block_free ops r k u in
      let used = mark_block_used_lem ops a n t large_n (omega arith) (omega arith) in
      let free = mark_block_free_lem ops r k u large_k (omega arith) (omega arith) in
      let (l1, m1) = mark_block_used-frame ops (Outside first xs (total ms) ys) a n t lists in
      let (l2, m2) = mark_block_free-frame ops (Outside first xs (total ms) ys) r k u l1 in
      let b = first + 8 * total xs in
      let only : (i q : ℕ)
          → FreeIn b (c ∷ f ∷ []) i q ↔ ((q ≡ r + 8) × (i ≡ get_seg_index (v.tags r).size)) =
        λ i q.
          let idx : get_seg_index (v.tags r).size ≡ get_seg_index k =
            ap (λ g. get_seg_index g.size) free.head in
          let both = FreeIn-append b (c ∷ []) (f ∷ []) i q in
          let one = FreeIn-one (b + 8 * total (c ∷ [])) f i q in
          (
            λ w. elim (both.0 w) [
              | inl l ↦ absurd (FreeIn-used b c i q refl l)
              | inr z ↦ let (e0, e1, e2) = one.0 z in (omega (arith, e1, er, ea), e2 ∙ sym idx)
            ],
            λ (e1, e2). both.1 (inr (one.1 (refl, omega (arith, e1, er, ea), e2 ∙ idx))),
          ) in
      IsHeap-replace ops first xs ms (c ∷ f ∷ []) ys s (push_free ops r v) h (omega arith)
        (m2 ∙ m1 ∙ mem)
        (λ x out.
          free.same x (elim out [ inl l ↦ inl (omega arith) | inr z ↦ inr (omega arith) ])
          ∙ used.same x (elim out [ inl l ↦ inl (omega arith) | inr z ↦ inr (omega arith) ])
          ∙ ap (λ g. g x) tags)
        (subst (λ e. Seg v.tags e (c ∷ f ∷ [])) ea
          (
            free.same a (inl (omega arith)) ∙ used.head,
            free.same (a + 8 * n - 8) (inl (omega arith)) ∙ used.foot,
            large_n,
            subst (λ e. Seg v.tags e (f ∷ [])) er (Marked-Seg u.tags v.tags r f free large_k),
          ))
        (attach-Lists ops s.tags first xs ms (c ∷ f ∷ []) ys r v h.blocks (omega arith)
          (omega arith) (omega arith) (omega arith) only l2)
