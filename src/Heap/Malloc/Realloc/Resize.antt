-- ===== src/Heap/Malloc/Realloc/Resize.antt =====
-- `resize`, the body of `_krealloc` of kernel/mm/heap/heap.c, at a block between others.
use angl_os.Base.{
  ℕ, ◌+◌, ◌*◌, ◌^◌, ◌≤◌, ◌<◌, ◌≡◌, ◌≢◌, refl, inl, inr, ap, ◌∙◌, sym, Bool, true, false, not, ◌&&◌,
  List, [], ◌∷◌, ◌++◌, arith, u64, sub64, ◌==◌, ==_iff, if◌then◌else◌, if_cases, and_true,
}
use angl_os.KernelLists.{ListOps}
use angl_os.Heap.{Tag, Heap, next_blk, prev_blk, prev_blk_footer, blk_size, blk_free}
use angl_os.Heap.Segments.{total, total-append, Seg-split}
use angl_os.Heap.Valid.{IsHeap, Placed-fits, UsedIn, UsedIn-append}
use angl_os.Heap.Merge.Cases.{next_view, prev_view}
use angl_os.Heap.Malloc.Realloc.{
  has_words, shrink, take_next, take_prev, take_both, move_block, resize,
}
use angl_os.Heap.Malloc.Realloc.Resized.{Resized}
use angl_os.Heap.Malloc.Realloc.Branches.{
  shrink_lem, take_next_lem, take_prev_lem, take_both_lem, prev-lies,
}
use angl_os.Heap.Malloc.Realloc.Outcome.{Outcome, has_words-fits, move_block_lem, same-Resized}
use mathlib.Core.List.{append_assoc}
use mathlib.Core.Path.{subst}

not-true : (b : Bool) → not b ≡ true → b ≡ false
not-true b h = ground arith

module _ (ops : ListOps) (first : ℕ) where
  -- The block behind, where it is free.
  behind :
      (xs : List Tag) (b : Tag) (ys : List Tag) (s : Heap ops)
      → IsHeap ops first (xs ++ (b ∷ ys)) s
      → blk_free ops (next_blk ops (first + 8 * total xs) s) s ≡ true
      → (c : Tag) × (zs : List Tag) × (ys ≡ c ∷ zs) × (c.inuse ≡ false)
  behind xs b ys s h free = elim (next_view ops first xs b ys s (first + 8 * total xs) refl h) [
    | inl used ↦ absurd (cc)
    | inr (c, zs, e, f, k) ↦ (c, zs, e, f)
  ]

  -- The block before, where it is free.
  before :
      (xs : List Tag) (b : Tag) (ys : List Tag) (s : Heap ops)
      → IsHeap ops first (xs ++ (b ∷ ys)) s
      → (s.tags (prev_blk_footer (first + 8 * total xs))).inuse ≡ false
      → (ws : List Tag) × (w : Tag) × (xs ≡ ws ++ (w ∷ [])) × (w.inuse ≡ false)
  before xs b ys s h free = elim (prev_view ops first xs b ys s (first + 8 * total xs) refl h) [
    | inl used ↦ absurd (cc)
    | inr (ws, w, e, f, k) ↦ (ws, w, e, f)
  ]

  -- The block and the two around it: the sizes that `resize` reads.
  next-size :
      (xs : List Tag) (b c : Tag) (zs : List Tag) (s : Heap ops)
      → IsHeap ops first (xs ++ (b ∷ c ∷ zs)) s
      → blk_size ops (next_blk ops (first + 8 * total xs) s) s ≡ c.size
  unfolding blk_size next_blk
  next-size xs b c zs s h =
      let (small, word) = Placed-fits first (total (xs ++ (b ∷ c ∷ zs))) s.memory h.placed in
      let (head, foot, large_b, (head2, foot2, large_c, rest)) =
        (Seg-split s.tags first xs (b ∷ c ∷ zs) h.blocks).1 in
      let sum = total-append xs (b ∷ c ∷ zs) in
      let a = first + 8 * total xs in
      let en : next_blk ops a s ≡ a + 8 * b.size =
        ap (λ g. u64 (a + 8 * g.size)) head ∙ omega arith in
      ap (λ g. g.size) (ap s.tags en ∙ head2)

  next_branch :
      (xs : List Tag) (b : Tag) (ys : List Tag) (s : Heap ops) (size n o : ℕ) (pa na : Bool)
      → IsHeap ops first (xs ++ (b ∷ ys)) s
      → b.inuse ≡ true
      → 8 ≤ n
      → size + 16 ≤ 8 * n
      → (na ≡ false → blk_free ops (next_blk ops (first + 8 * total xs) s) s ≡ true)
      → o ≡ b.size
      → not na
          && pa
          && has_words n (u64 (blk_size ops (next_blk ops (first + 8 * total xs) s) s + o))
        ≡ true
      → Outcome ops first
          (xs ++ (b ∷ ys))
          (first + 8 * total xs)
          size
          (first + 8 * total xs + 8, take_next ops (first + 8 * total xs) o n s)
  next_branch xs b ys s size n o pa na h used large room na_free eo test =
      let p = first + 8 * total xs in
      let ns = blk_size ops (next_blk ops p s) s in
      let (flags, words) = and_true (not na && pa) (has_words n (u64 (ns + o))) test in
      let next = not-true na (and_true (not na) pa flags).0 in
      let (c, zs, ey, free) = behind xs b ys s h (na_free next) in
      let h' = subst (λ l. IsHeap ops first (xs ++ (b ∷ l)) s) ey h in
      let size_c = next-size xs b c zs s h' in
      let (few, word) = Placed-fits first (total (xs ++ (b ∷ c ∷ zs))) s.memory h'.placed in
      let sum = total-append xs (b ∷ c ∷ zs) in
      let fits = has_words-fits n (u64 (ns + o)) (omega arith) words in
      inr (
        p,
        n,
        refl,
        room,
        subst (λ l. Resized ops first (xs ++ (b ∷ l)) p n p (take_next ops p o n s)) (sym ey)
            (take_next_lem ops first xs b c zs s o n h' used free eo large (omega arith)),
      )

  prev_branch :
      (xs : List Tag) (b : Tag) (ys : List Tag) (s : Heap ops) (size n o : ℕ) (pa : Bool)
      → IsHeap ops first (xs ++ (b ∷ ys)) s
      → b.inuse ≡ true
      → 8 ≤ n
      → size + 16 ≤ 8 * n
      → (pa ≡ false → (s.tags (prev_blk_footer (first + 8 * total xs))).inuse ≡ false)
      → o ≡ b.size
      → not pa && has_words n (u64 (blk_size ops (prev_blk ops (first + 8 * total xs) s) s + o))
        ≡ true
      → Outcome ops first
          (xs ++ (b ∷ ys))
          (first + 8 * total xs)
          size
          (take_prev ops (first + 8 * total xs) o n s)
  prev_branch xs b ys s size n o pa h used large room pa_free eo test =
      let p = first + 8 * total xs in
      let ps = blk_size ops (prev_blk ops p s) s in
      let (flag, words) = and_true (not pa) (has_words n (u64 (ps + o))) test in
      let (ws, w, ex, free) = before xs b ys s h (pa_free (not-true pa flag)) in
      let whole : xs ++ (b ∷ ys) ≡ ws ++ (w ∷ b ∷ ys) =
        ap (λ l. l ++ (b ∷ ys)) ex ∙ append_assoc ws (w ∷ []) (b ∷ ys) in
      let size_x : total xs ≡ total ws + (w.size + 0) = ap total ex ∙ total-append ws (w ∷ []) in
      let h' = subst (λ l. IsHeap ops first l s) whole h in
      let ep : p ≡ first + 8 * total ws + 8 * w.size = omega arith in
      let (at_prev, size_w, back, on) = prev-lies ops first ws w b ys s p h' ep in
      let (few, word) = Placed-fits first (total (ws ++ (w ∷ b ∷ ys))) s.memory h'.placed in
      let sum = total-append ws (w ∷ b ∷ ys) in
      let fits = has_words-fits n (u64 (ps + o)) (omega arith) words in
      let (e, g) =
        take_prev_lem ops first ws w b ys s p o n h' ep free used eo large (omega arith) in
      inr (
        prev_blk ops p s,
        n,
        e,
        room,
        subst (λ l. Resized ops first l p n (prev_blk ops p s) (take_prev ops p o n s).1)
            (sym whole) g,
      )

  both_branch :
      (xs : List Tag) (b : Tag) (ys : List Tag) (s : Heap ops) (size n o : ℕ) (pa na : Bool)
      → IsHeap ops first (xs ++ (b ∷ ys)) s
      → b.inuse ≡ true
      → 8 ≤ n
      → size + 16 ≤ 8 * n
      → (na ≡ false → blk_free ops (next_blk ops (first + 8 * total xs) s) s ≡ true)
      → (pa ≡ false → (s.tags (prev_blk_footer (first + 8 * total xs))).inuse ≡ false)
      → o ≡ b.size
      → not pa
          && has_words n (
              u64 (
                blk_size ops (prev_blk ops (first + 8 * total xs) s) s
                + o
                + blk_size ops (next_blk ops (first + 8 * total xs) s) s))
          && not na
        ≡ true
      → Outcome ops first
          (xs ++ (b ∷ ys))
          (first + 8 * total xs)
          size
          (take_both ops (first + 8 * total xs) o n s)
  both_branch xs b ys s size n o pa na h used large room na_free pa_free eo test =
      let p = first + 8 * total xs in
      let ps = blk_size ops (prev_blk ops p s) s in
      let ns = blk_size ops (next_blk ops p s) s in
      let (front, last) = and_true (not pa && has_words n (u64 (ps + o + ns))) (not na) test in
      let (flag, words) = and_true (not pa) (has_words n (u64 (ps + o + ns))) front in
      let (ws, w, ex, free_w) = before xs b ys s h (pa_free (not-true pa flag)) in
      let (c, zs, ey, free_c) = behind xs b ys s h (na_free (not-true na last)) in
      let size_c = next-size xs b c zs s (subst (λ l. IsHeap ops first (xs ++ (b ∷ l)) s) ey h) in
      let whole : xs ++ (b ∷ ys) ≡ ws ++ (w ∷ b ∷ c ∷ zs) =
        ap (λ l. l ++ (b ∷ ys)) ex
        ∙ append_assoc ws (w ∷ []) (b ∷ ys)
        ∙ ap (λ l. ws ++ (w ∷ b ∷ l)) ey in
      let size_x : total xs ≡ total ws + (w.size + 0) = ap total ex ∙ total-append ws (w ∷ []) in
      let h' = subst (λ l. IsHeap ops first l s) whole h in
      let ep : p ≡ first + 8 * total ws + 8 * w.size = omega arith in
      let (at_prev, size_w, back, on) = prev-lies ops first ws w b (c ∷ zs) s p h' ep in
      let (few, word) = Placed-fits first (total (ws ++ (w ∷ b ∷ c ∷ zs))) s.memory h'.placed in
      let sum = total-append ws (w ∷ b ∷ c ∷ zs) in
      let fits = has_words-fits n (u64 (ps + o + ns)) (omega arith) words in
      let (e, g) =
        take_both_lem ops first ws w b c zs s p o n h' ep free_w used free_c eo large
          (omega arith) in
      inr (
        prev_blk ops p s,
        n,
        e,
        room,
        subst (λ l. Resized ops first l p n (prev_blk ops p s) (take_both ops p o n s).1)
            (sym whole) g,
      )

  pub resize_lem :
      (xs : List Tag) (b : Tag) (ys : List Tag) (s : Heap ops) (size o n : ℕ) (pa na : Bool)
      → IsHeap ops first (xs ++ (b ∷ ys)) s
      → b.inuse ≡ true
      → o ≡ b.size
      → size ≢ 0
      → size < 2 ^ 30
      → 8 ≤ n
      → size + 16 ≤ 8 * n
      → n < 2 ^ 31
      → (na ≡ false → blk_free ops (next_blk ops (first + 8 * total xs) s) s ≡ true)
      → (pa ≡ false → (s.tags (prev_blk_footer (first + 8 * total xs))).inuse ≡ false)
      → Outcome ops first
          (xs ++ (b ∷ ys))
          (first + 8 * total xs)
          size
          (resize ops (first + 8 * total xs + 8) size o n pa na s)
  unfolding resize blk_size
  resize_lem xs b ys s size o n pa na h used eo some_size small large room bound na_free pa_free =
      let bs = xs ++ (b ∷ ys) in
      let p = first + 8 * total xs in
      let (few, word) = Placed-fits first (total bs) s.memory h.placed in
      let sum = total-append xs (b ∷ ys) in
      let (head, foot, large_b, rest) = (Seg-split s.tags first xs (b ∷ ys) h.blocks).1 in
      let mine : UsedIn first bs p b =
        (UsedIn-append first xs (b ∷ ys) p b).1 (inr (inl (refl, refl), used)) in
      let blk = sub64 (p + 8) 8 in
      let eblk : blk ≡ p = omega arith in
      let body : ℕ → ℕ × Heap ops = λ blk.
        let next_size = blk_size ops (next_blk ops blk s) s in
        let prev_size = blk_size ops (prev_blk ops blk s) s in
        if n == o
        then (p + 8, s)
        else (if has_words n o
            then (p + 8, shrink ops blk o n s)
            else (if not na && pa && has_words n (u64 (next_size + o))
                then (p + 8, take_next ops blk o n s)
                else (if not pa && has_words n (u64 (prev_size + o + next_size)) && not na
                    then take_both ops blk o n s
                    else (if not pa && has_words n (u64 (prev_size + o))
                        then take_prev ops blk o n s
                        else move_block ops (p + 8) size s)))) in
      let P = Outcome ops first bs p size in
      let ns = blk_size ops (next_blk ops p s) s in
      let ps = blk_size ops (prev_blk ops p s) s in
      subst P (ap body (sym eblk)) (
        if_cases P (n == o)
          (λ e.
            let e' : n ≡ o = (==_iff n o).0 e in
            inr (p, n, refl, room, same-Resized ops first bs s p b n h mine (omega arith)))
          (λ e1.
            if_cases P (has_words n o)
              (λ e.
                let fits = has_words-fits n o (omega arith) e in
                inr (
                  p,
                  n,
                  refl,
                  room,
                  shrink_lem ops first xs b ys s o n h used eo large (omega arith),
                ))
              (λ e2.
                if_cases P (not na && pa && has_words n (u64 (ns + o)))
                  (λ e. next_branch xs b ys s size n o pa na h used large room na_free eo e)
                  (λ e3.
                    if_cases P (not pa && has_words n (u64 (ps + o + ns)) && not na)
                      (λ e.
                        both_branch xs b ys s size n o pa na h used large room na_free pa_free eo e)
                      (λ e4.
                        if_cases P (not pa && has_words n (u64 (ps + o)))
                          (λ e. prev_branch xs b ys s size n o pa h used large room pa_free eo e)
                          (λ e5. move_block_lem ops first bs s p b size h mine some_size small))))))
