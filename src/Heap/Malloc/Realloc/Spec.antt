-- ===== src/Heap/Malloc/Realloc/Spec.antt =====
-- `_krealloc` of kernel/mm/heap/heap.c: what it returns, and what is in use after it.
use angl_os.Base.{
  ℕ, ◌+◌, ◌*◌, ◌^◌, ◌≤◌, ◌<◌, ◌≡◌, ◌≢◌, ◌⊎◌, ◌↔◌, refl, inl, inr, ap, ◌∙◌, sym, Bool, true, false,
  not, ◌&&◌, Option, none, some, List, [], ◌∷◌, ◌++◌, arith, sub64, ltb, ◌==◌, ==_iff, ==_ne,
  if◌then◌else◌, if_cases, and_true, ltb→lt,
}
use angl_os.KernelLists.{ListOps}
use angl_os.Heap.{
  Tag, Heap, max, chunksize, request_words, next_blk, prev_blk_footer, blk_size, blk_free,
  extend_heap,
}
use angl_os.Heap.Segments.{total, At-range, At-split}
use angl_os.Heap.Valid.{IsHeap, Placed-fits, UsedIn, UsedIn-append, AllFree-cons, AllFree-nil}
use angl_os.Heap.Merge.{Merged}
use angl_os.Heap.Extend.{extend_heap_lem}
use angl_os.Heap.Requests.{request_words_lem}
use angl_os.Heap.Malloc.{raw_kmalloc, raw_kfree}
use angl_os.Heap.Malloc.Spec.Allocate.{max_cases}
use angl_os.Heap.Malloc.Spec.Release.{Freed, raw_kfree_lem}
use angl_os.Heap.Malloc.Realloc.{is_fence, extend_behind, resize, raw_krealloc}
use angl_os.Heap.Malloc.Realloc.Outcome.{Outcome, Outcome-same}
use angl_os.Heap.Malloc.Realloc.Resize.{resize_lem}
use mathlib.Core.Path.{subst}

module _ (ops : ListOps) (first : ℕ) where
  resize-At :
      (bs : List Tag) (s : Heap ops) (p : ℕ) (b : Tag) (size o n : ℕ) (pa na : Bool)
      → IsHeap ops first bs s
      → UsedIn first bs p b
      → o ≡ b.size
      → size ≢ 0
      → size < 2 ^ 30
      → 8 ≤ n
      → size + 16 ≤ 8 * n
      → n < 2 ^ 31
      → (na ≡ false → blk_free ops (next_blk ops p s) s ≡ true)
      → (pa ≡ false → (s.tags (prev_blk_footer p)).inuse ≡ false)
      → Outcome ops first bs p size (resize ops (p + 8) size o n pa na s)
  resize-At bs s p b size o n pa na h (lies, used) eo some_size small large room bound na_free
        pa_free =
      let (xs, ys, e, ep) = At-split first bs p b lies in
      subst (λ l. Outcome ops first l p size (resize ops (p + 8) size o n pa na s)) (sym e)
        (subst
          (λ a. Outcome ops first (xs ++ (b ∷ ys)) a size (resize ops (a + 8) size o n pa na s))
          (sym ep)
          (resize_lem ops first xs b ys s size o n pa na (subst (λ l. IsHeap ops first l s) e h)
            used eo some_size small large room bound
            (λ k. subst (λ a. blk_free ops (next_blk ops a s) s ≡ true) ep (na_free k))
            (λ k. subst (λ a. (s.tags (prev_blk_footer a)).inuse ≡ false) ep (pa_free k))))

  -- The heap with more words behind its last block: the blocks in use are the same.
  extended-Outcome :
      (bs : List Tag) (s : Heap ops) (p : ℕ) (b : Tag) (size o n k : ℕ) (pa na : Bool)
      (r : ℕ × Heap ops)
      → Merged ops first
          (bs ++ (record { size = k; inuse = false } ∷ []))
          (record { size = k; inuse = false })
          r
      → UsedIn first bs p b
      → o ≡ b.size
      → size ≢ 0
      → size < 2 ^ 30
      → 8 ≤ n
      → size + 16 ≤ 8 * n
      → n < 2 ^ 31
      → pa ≡ true
      → na ≡ true
      → Outcome ops first bs p size (resize ops (p + 8) size o n pa na r.1)
  extended-Outcome bs s p b size o n k pa na r m used eo some_size small large room bound pa_true
        na_true =
      let f : Tag = record { size = k; inuse = false } in
      let nothing = AllFree-cons f [] refl AllFree-nil in
      let cs = m.before ++ (m.block ∷ m.after) in
      let same : (q : ℕ) (d : Tag) → UsedIn first cs q d ↔ UsedIn first bs q d = λ q d.
        let app = UsedIn-append first bs (f ∷ []) q d in
        (
          λ u. elim (app.0 ((m.kept q d).1 u)) [
            | inl old ↦ old
            | inr w ↦ absurd (nothing (first + 8 * total bs) q d w)
          ],
          λ u. (m.kept q d).0 (app.1 (inl u)),
        ) in
      Outcome-same ops first cs bs p size (resize ops (p + 8) size o n pa na r.1) same (
        resize-At cs r.1 p b size o n pa na m.heap ((same p b).1 used) eo some_size small large room
          bound (λ e. absurd (cc)) (λ e. absurd (cc)))

  -- What `_krealloc` does with a block in use.
  abbrev pub Reallocated : List Tag → ℕ → ℕ → ℕ × Heap ops → Type 0
  Reallocated bs p size r =
      ((size ≡ 0) × (r.0 ≡ 0) × Freed ops first bs p r.1)
      ⊎ ((size ≢ 0) × Outcome ops first bs p size r)

  -- `_krealloc` of the pointer to a block in use, of a size below 2 ^ 30. Of size 0 it returns `NULL` and frees
  -- the block. Else it returns a pointer to a block with room for `size` bytes that is in
  -- use in the place of that block and of no other, or it returns `NULL`, keeps the blocks in use,
  -- and the break has fewer than `size + 288` bytes left.
  pub raw_krealloc_lem :
      (bs : List Tag) (s : Heap ops) (p : ℕ) (b : Tag) (size : ℕ)
      → IsHeap ops first bs s
      → UsedIn first bs p b
      → size < 2 ^ 30
      → Reallocated bs p size (raw_krealloc ops (p + 8) size s)
  unfolding raw_krealloc extend_behind is_fence blk_free blk_size
  raw_krealloc_lem bs s p b size h used small =
      let (lo, hi, large_b, tag) = At-range s.tags first bs p b h.blocks used.0 in
      let (few, word) = Placed-fits first (total bs) s.memory h.placed in
      let (n, req, large, room, bound, even) = request_words_lem size (omega arith) in
      let blk = sub64 (p + 8) 8 in
      let eblk : blk ≡ p = omega arith in
      let serve : ℕ → Option ℕ → ℕ × Heap ops = λ blk o.
        let pa = (s.tags (prev_blk_footer blk)).inuse in
        let na = not (blk_free ops (next_blk ops blk s) s) in
        elim o [
          | none ↦ (0, s)
          | some awords ↦
              resize ops (p + 8) size (blk_size ops blk s) awords pa na
                (extend_behind ops blk (blk_size ops blk s) awords s)
        ] in
      let start : raw_krealloc ops (p + 8) size s
          ≡ (if size == 0 then (0, raw_kfree ops (p + 8) s) else serve p (some n)) =
        ap
          (λ z.
            if z
            then raw_kmalloc ops size s
            else (if size == 0
                then (0, raw_kfree ops (p + 8) s)
                else serve blk (request_words size)))
          (==_ne (p + 8) 0 (λ k. omega arith))
        ∙ ap (λ a. if size == 0 then (0, raw_kfree ops (p + 8) s) else serve a (request_words size))
            eblk
        ∙ ap (λ o. if size == 0 then (0, raw_kfree ops (p + 8) s) else serve p o) req in
      let pa = (s.tags (prev_blk_footer p)).inuse in
      let na = not (blk_free ops (next_blk ops p s) s) in
      let o = blk_size ops p s in
      let eo : o ≡ b.size = ap (λ g. g.size) tag in
      let k = max (sub64 n o) chunksize in
      let P : Heap ops → Type 0 =
        λ u. Outcome ops first bs p size (resize ops (p + 8) size o n pa na u) in
      subst (Reallocated bs p size) (sym start) (
        if_cases (Reallocated bs p size) (size == 0)
          (λ e. inl ((==_iff size 0).0 e, refl, raw_kfree_lem ops first bs s p b h used))
          (λ e.
            let some_size : size ≢ 0 = λ z. let t = (==_iff size 0).1 z in cc in
            let here : P s =
              resize-At bs s p b size o n pa na h used eo some_size small large room (omega arith)
                (λ z. negated (blk_free ops (next_blk ops p s) s) z) (λ z. z) in
            inr (
              some_size,
              if_cases P
                  (is_fence (s.tags (next_blk ops p s))
                    && (s.tags (prev_blk_footer p)).inuse
                    && ltb o n)
                  (λ c.
                    let fence_next = is_fence (s.tags (next_blk ops p s)) in
                    let (front, less) = and_true (fence_next && pa) (ltb o n) c in
                    let (ends, pa_true) = and_true fence_next pa front in
                    let tag_next = s.tags (next_blk ops p s) in
                    let na_true : na ≡ true =
                      ap (λ z. not (not z)) (and_true tag_next.inuse (tag_next.size == 0) ends).0 in
                    let lt = ltb→lt o n less in
                    let (large_k, small_k) = extension size n o k refl large bound small lt in
                    elim (extend_heap_lem ops first bs k s h large_k small_k) [
                      | inl (full, same) ↦ subst P (sym (ap (λ z. z.1) same)) here
                      | inr m ↦
                          extended-Outcome bs s p b size o n k pa na (extend_heap ops k s) m used eo
                            some_size small large room (omega arith) pa_true na_true
                    ])
                  (λ c. here),
            )))
    where
      extension :
          (size n o k : ℕ)
          → k ≡ max (sub64 n o) chunksize
          → 8 ≤ n
          → 8 * n ≤ size + 64
          → size < 2 ^ 30
          → o < n
          → (8 ≤ k) × (k * 8 < 2 ^ 31)
      extension size n o k ek large bound small lt = elim (max_cases (sub64 n o) chunksize) [
        | inl (e, le) ↦ (omega arith, omega arith)
        | inr (e, le) ↦ (omega arith, omega arith)
      ]

      negated : (b : Bool) → not b ≡ false → b ≡ true
      negated b h = ground arith
