-- ===== src/Heap/Merge/Cases.antt =====
-- `coalesce` of kernel/mm/heap/heap.c, whatever the neighbours of the block.
use angl_os.Base.{
  ℕ, ◌+◌, ◌-◌, ◌*◌, ◌≡◌, ◌⊎◌, refl, inl, inr, ap, ◌∙◌, sym, true, false, List, [], ◌∷◌, ◌++◌, not,
  arith, u64, if◌then◌else◌, Bool-cases,
}
use angl_os.KernelLists.{ListOps}
use angl_os.Heap.{Tag, Heap, coalesce, next_blk, prev_blk_footer, blk_free}
use angl_os.Heap.Segments.{total, total-append, Seg, Seg-split, last_cases}
use angl_os.Heap.Valid.{IsHeap, Placed-fits}
use angl_os.Heap.Merge.{
  Joined, free_before, rest_before, free_behind, rest_behind, free_before-append,
  rest_before-append,
}
use angl_os.Heap.Merge.Branches.{coalesce_cases, merge_next}
use angl_os.Heap.Merge.Before.{merge_prev, merge_both}
use mathlib.Core.List.{append_assoc}
use mathlib.Core.Path.{subst}

behind_words :
    {ys : List Tag} (c : Tag) (zs : List Tag)
    → ys ≡ c ∷ zs
    → c.inuse ≡ false
    → free_behind ys ≡ c.size
behind_words c zs e free = ap free_behind e ∙ rw free refl

behind_rest :
    {ys : List Tag} (c : Tag) (zs : List Tag) → ys ≡ c ∷ zs → c.inuse ≡ false → rest_behind ys ≡ zs
behind_rest c zs e free = ap rest_behind e ∙ rw free refl

before_words :
    {xs : List Tag} (ws : List Tag) (w : Tag)
    → xs ≡ ws ++ (w ∷ [])
    → w.inuse ≡ false
    → free_before xs ≡ w.size
before_words ws w e free =
    ap free_before e ∙ free_before-append ws w ∙ ap (λ z. if z then 0 else w.size) free

before_rest :
    {xs : List Tag} (ws : List Tag) (w : Tag)
    → xs ≡ ws ++ (w ∷ [])
    → w.inuse ≡ false
    → rest_before xs ≡ ws
before_rest ws w e free =
    ap rest_before e ∙ rest_before-append ws w ∙ ap (λ z. if z then ws ++ (w ∷ []) else ws) free

module _ (ops : ListOps) (first : ℕ) where
  -- The block behind, if it is free.
  pub next_view :
      (xs : List Tag) (b : Tag) (ys : List Tag) (s : Heap ops) (a : ℕ)
      → a ≡ first + 8 * total xs
      → IsHeap ops first (xs ++ (b ∷ ys)) s
      → ((free_behind ys ≡ 0) × (rest_behind ys ≡ ys) × (blk_free ops (next_blk ops a s) s ≡ false))
        ⊎ ((c : Tag) × (zs : List Tag) × (ys ≡ c ∷ zs)
            × (c.inuse ≡ false)
            × (blk_free ops (next_blk ops a s) s ≡ true))
  unfolding blk_free next_blk
  next_view xs b ys s a ea h =
      let (head, foot, large, rest) = (Seg-split s.tags first xs (b ∷ ys) h.blocks).1 in
      let (small, word) = Placed-fits first (total (xs ++ (b ∷ ys))) s.memory h.placed in
      let sum = total-append xs (b ∷ ys) in
      let n = next_blk ops a s in
      let en : n ≡ first + 8 * total xs + 8 * b.size =
        ap (λ g. u64 (a + 8 * g.size)) (ap s.tags ea ∙ head) ∙ omega arith in
      behind ys rest h.high sum n en
    where
      behind :
          (ys : List Tag)
          → Seg s.tags (first + 8 * total xs + 8 * b.size) ys
          → s.tags (first + 8 * total (xs ++ (b ∷ ys))) ≡ record { size = 0; inuse = true }
          → total (xs ++ (b ∷ ys)) ≡ total xs + (b.size + total ys)
          → (n : ℕ) → n ≡ first + 8 * total xs + 8 * b.size
          → ((free_behind ys ≡ 0) × (rest_behind ys ≡ ys) × (not (s.tags n).inuse ≡ false))
            ⊎ ((c : Tag) × (zs : List Tag) × (ys ≡ c ∷ zs)
                × (c.inuse ≡ false)
                × (not (s.tags n).inuse ≡ true))
      behind [] rest high sum n en =
          let fence_here : n ≡ first + 8 * total (xs ++ (b ∷ [])) = omega arith in
          inl (refl, refl, ap (λ g. not g.inuse) (ap s.tags fence_here ∙ high))
      behind (c ∷ zs) (head, foot, large, more) high sum n en =
          let at_n : s.tags n ≡ c = ap s.tags en ∙ head in
          elim (Bool-cases c.inuse) [
            | inl used ↦ inl (rw used refl, rw used refl, ap (λ g. not g.inuse) at_n ∙ ap not used)
            | inr free ↦ inr (c, zs, refl, free, ap (λ g. not g.inuse) at_n ∙ ap not free)
          ]

  -- The block before, if it is free.
  pub prev_view :
      (xs : List Tag) (b : Tag) (ys : List Tag) (s : Heap ops) (a : ℕ)
      → a ≡ first + 8 * total xs
      → IsHeap ops first (xs ++ (b ∷ ys)) s
      → ((free_before xs ≡ 0) × (rest_before xs ≡ xs) × ((s.tags (prev_blk_footer a)).inuse ≡ true))
        ⊎ ((ws : List Tag) × (w : Tag) × (xs ≡ ws ++ (w ∷ []))
            × (w.inuse ≡ false)
            × ((s.tags (prev_blk_footer a)).inuse ≡ false))
  prev_view xs b ys s a ea h =
      let (small, word) = Placed-fits first (total (xs ++ (b ∷ ys))) s.memory h.placed in
      let sum = total-append xs (b ∷ ys) in
      let start = h.placed.start in
      elim (last_cases xs) [
        | inl nothing ↦
            let none_before : total xs ≡ 0 = ap total nothing in
            let ef : prev_blk_footer a ≡ first - 8 = omega arith in
            inl (rw nothing refl, rw nothing refl, ap (λ g. g.inuse) (ap s.tags ef ∙ h.low))
        | inr (ws, w, ex) ↦
            let front = (Seg-split s.tags first xs (b ∷ ys) h.blocks).0 in
            let (head, foot, large, rest) =
              (Seg-split s.tags first ws (w ∷ []) (subst (Seg s.tags first) ex front)).1 in
            let size : total xs ≡ total ws + (w.size + 0) =
              ap total ex ∙ total-append ws (w ∷ []) in
            let ef : prev_blk_footer a ≡ first + 8 * total ws + 8 * w.size - 8 = omega arith in
            let at_f : s.tags (prev_blk_footer a) ≡ w = ap s.tags ef ∙ foot in
            elim (Bool-cases w.inuse) [
              | inl used ↦ inl (
                ap free_before ex ∙ free_before-append ws w ∙ rw used refl,
                ap rest_before ex
                    ∙ rest_before-append ws w
                    ∙ ap (λ z. if z then ws ++ (w ∷ []) else ws) used
                    ∙ sym ex,
                ap (λ g. g.inuse) at_f ∙ used,
              )
              | inr free ↦ inr (ws, w, ex, free, ap (λ g. g.inuse) at_f ∙ free)
            ]
      ]

  -- The same, of equal lists, sizes and results.
  recast :
      {bs bs' : List Tag} (before before' after after' : List Tag) {b : Tag} (words words' : ℕ)
      {r r' : ℕ × Heap ops}
      → bs' ≡ bs
      → r' ≡ r
      → before ≡ before'
      → words ≡ words'
      → after ≡ after'
      → Joined ops first bs b before words after r
      → Joined ops first bs' b before' words' after' r'
  recast {bs} {bs'} before before' after after' {b} words words' {r} e er front size back j =
      let renamed : Joined ops first bs b before' words' after' r = record {
        merged = j.merged;
        front = j.front ∙ front;
        size = j.size ∙ size;
        back = j.back ∙ back;
      } in
      subst (λ z. Joined ops first bs' b before' words' after' z) (sym er)
        (subst (λ z. Joined ops first z b before' words' after' r) (sym e) renamed)

  -- `coalesce` at a free block of a heap joins it with the free block right before it and the free
  -- block right behind it, where there are such: the blocks after are those before and behind what
  -- it joined, and one free block with the words of all that it joined, whose address it returns. It
  -- is a heap again, and the blocks in use are those that were.
  pub coalesce_lem :
      (xs : List Tag) (b : Tag) (ys : List Tag) (s : Heap ops) (a : ℕ)
      → a ≡ first + 8 * total xs
      → b.inuse ≡ false
      → IsHeap ops first (xs ++ (b ∷ ys)) s
      → Joined ops first
          (xs ++ (b ∷ ys))
          b
          (rest_before xs)
          (free_before xs + (b.size + free_behind ys))
          (rest_behind ys)
          (coalesce ops a s)
  coalesce_lem xs b ys s a ea fb h = elim (prev_view xs b ys s a ea h) [
    | inl (none_before, all_before, p) ↦ elim (next_view xs b ys s a ea h) [
      | inl (none_behind, all_behind, n) ↦
          recast _ _ _ _ _ _ refl (coalesce_cases ops a s true false p n) (sym all_before)
            (omega arith) (sym all_behind)
            (record {
              merged = record {
                before = xs;
                block = b;
                after = ys;
                heap = h;
                address = ea;
                free = fb;
                large = omega arith;
                kept = λ z d. (λ u. u, λ u. u);
              };
              front = refl;
              size = refl;
              back = refl;
            })
      | inr (c, zs, ey, fc, n) ↦
          let full = ap (λ l. xs ++ (b ∷ l)) ey in
          recast _ _ _ _ _ _ full (coalesce_cases ops a s true true p n) (sym all_before)
            (omega (arith, behind_words c zs ey fc)) (sym (behind_rest c zs ey fc))
            (merge_next ops first xs b c zs s a ea fb fc (subst (λ l. IsHeap ops first l s) full h))
    ]
    | inr (ws, w, ex, fw, p) ↦
        let whole : xs ++ (b ∷ ys) ≡ ws ++ (w ∷ b ∷ ys) =
          ap (λ l. l ++ (b ∷ ys)) ex ∙ append_assoc ws (w ∷ []) (b ∷ ys) in
        let size : total xs ≡ total ws + (w.size + 0) = ap total ex ∙ total-append ws (w ∷ []) in
        elim (next_view xs b ys s a ea h) [
          | inl (none_behind, all_behind, n) ↦
              recast _ _ _ _ _ _ whole (coalesce_cases ops a s false false p n)
                (sym (before_rest ws w ex fw)) (omega (arith, before_words ws w ex fw))
                (sym all_behind)
                (merge_prev ops first ws w b ys s a (omega arith) fw fb
                  (subst (λ l. IsHeap ops first l s) whole h))
          | inr (c, zs, ey, fc, n) ↦
              let full = whole ∙ ap (λ l. ws ++ (w ∷ b ∷ l)) ey in
              recast _ _ _ _ _ _ full (coalesce_cases ops a s false true p n)
                (sym (before_rest ws w ex fw))
                (omega (arith, before_words ws w ex fw, behind_words c zs ey fc))
                (sym (behind_rest c zs ey fc))
                (merge_both ops first ws w b c zs s a (omega arith) fw fb fc
                  (subst (λ l. IsHeap ops first l s) full h))
        ]
  ]
