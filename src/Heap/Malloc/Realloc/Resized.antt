-- ===== src/Heap/Malloc/Realloc/Resized.antt =====
-- What `_krealloc` of kernel/mm/heap/heap.c makes of a heap where a block gets other words.
use angl_os.Base.{
  ℕ, ◌+◌, ◌*◌, ◌≤◌, ◌<◌, ◌≡◌, ◌≢◌, ◌⊎◌, ◌↔◌, refl, inl, inr, ap, ◌∙◌, sym, true, false, List, [],
  ◌∷◌, ◌++◌, arith, u64,
}
use angl_os.KernelLists.{ListOps}
use angl_os.Heap.{Tag, Heap, mark_block_used, mark_block_free, push_free, next_blk, coalesce}
use angl_os.Heap.Segments.{total, total-append}
use angl_os.Heap.FreeLists.{Lists, Outside}
use angl_os.Heap.Marks.{mark_block_used_lem}
use angl_os.Heap.Valid.{
  IsHeap, Placed-fits, UsedIn, UsedOutside, UsedOutside-range, UsedIn-middle, UsedIn-first, AllFree,
  AllFree-cons, AllFree-nil,
}
use angl_os.Heap.Split.{split_blocks}
use angl_os.Heap.Merge.Cases.{coalesce_lem}
use angl_os.Heap.Malloc.Realloc.{split_used}
use mathlib.Core.List.{append_assoc}
use mathlib.Core.Path.{subst}

-- The heap `u` has the blocks in use of `bs`, but at `a` a block of `n` words at least for the one at `p`.
pub record Resized (ops : ListOps) (first : ℕ) (bs : List Tag) (p n a : ℕ) (u : Heap ops)
    : Type 0 where
  pub blocks : List Tag
  pub heap : IsHeap ops first blocks u
  pub block : Tag
  pub room : n ≤ block.size
  pub moved : (d : Tag) → UsedIn first bs a d → a ≡ p
  pub live :
      (q : ℕ) (d : Tag)
      → UsedIn first blocks q d ↔ ((UsedIn first bs q d × (q ≢ p)) ⊎ ((q ≡ a) × (d ≡ block)))

-- The same with the blocks in use of other lists.
pub Resized-same :
    (ops : ListOps) (first : ℕ) (bs cs : List Tag) (p n a : ℕ) (u : Heap ops)
    → ((q : ℕ) (d : Tag) → UsedIn first bs q d ↔ UsedIn first cs q d)
    → Resized ops first bs p n a u
    → Resized ops first cs p n a u
Resized-same ops first bs cs p n a u same g = record {
  blocks = g.blocks;
  heap = g.heap;
  block = g.block;
  room = g.room;
  moved = λ d k. g.moved d ((same a d).1 k);
  live = λ q d. (
    λ k. elim ((g.live q d).0 k) [
      | inl (old, ne) ↦ inl ((same q d).0 old, ne)
      | inr here ↦ inr here
    ],
    λ k.
        (g.live q d).1
          (elim k [ inl (old, ne) ↦ inl ((same q d).1 old, ne) | inr here ↦ inr here ]),
  );
}

-- `p` is the one block in use of `ms`, which lie from `a` on.
abbrev pub OnlyUsed : ℕ → List Tag → ℕ → Tag → Type 0
OnlyUsed a ms p b =
    ((q : ℕ) (d : Tag) → UsedIn a ms q d ↔ ((q ≡ p) × (d ≡ b))) × (a ≤ p) × (p < a + 8 * total ms)

module _ (ops : ListOps) (first : ℕ) where
  replaced-Resized :
      (xs ms ys : List Tag) (c : Tag) (left cs : List Tag) (s u : Heap ops) (p : ℕ) (b : Tag)
      (n : ℕ)
      → IsHeap ops first (xs ++ (ms ++ ys)) s
      → OnlyUsed (first + 8 * total xs) ms p b
      → total ms ≡ total (c ∷ left)
      → c.inuse ≡ true
      → AllFree left
      → n ≤ c.size
      → IsHeap ops first cs u
      → ((q : ℕ) (d : Tag) → UsedIn first (xs ++ ((c ∷ left) ++ ys)) q d ↔ UsedIn first cs q d)
      → Resized ops first (xs ++ (ms ++ ys)) p n (first + 8 * total xs) u
  replaced-Resized xs ms ys c left cs s u p b n h (only, lo, hi) e used free le heap kept = record {
    blocks = cs;
    heap = heap;
    block = c;
    room = le;
    moved = λ d w. elim ((UsedIn-middle first xs ms ys (first + 8 * total xs) d).0 w) [
      | inl o ↦ elim (UsedOutside-range s.tags first xs ms ys (first + 8 * total xs) d h.blocks o) [
        | inl l ↦ omega arith
        | inr r ↦ omega arith
      ]
      | inr m ↦ ((only (first + 8 * total xs) d).0 m).0
    ];
    live = λ q d.
        let was = UsedIn-middle first xs ms ys q d in
        let now = UsedIn-middle first xs (c ∷ left) ys q d in
        let one = UsedIn-first (first + 8 * total xs) c left q d used free in
        (
          λ w. elim (now.0 ((kept q d).1 w)) [
            | inl o ↦
                let o' = subst (λ z. UsedOutside first xs z ys q d) (sym e) o in
                inl (
                  was.1 (inl o'),
                  (λ k. elim (UsedOutside-range s.tags first xs ms ys q d h.blocks o') [
                    | inl l ↦ omega arith
                    | inr r ↦ omega arith
                  ]),
                )
            | inr m ↦ inr (one.0 m)
          ],
          λ w. (kept q d).0 (
              now.1 (elim w [
                | inl (old, ne) ↦ elim (was.0 old) [
                  | inl o ↦ inl (subst (λ z. UsedOutside first xs z ys q d) e o)
                  | inr m ↦ absurd (ne ((only q d).0 m).0)
                ]
                | inr here ↦ inr (one.1 here)
              ])),
        );
  }

  -- The two blocks of a branch, and those after `coalesce` at the free one.
  pub split_used-Resized :
      (xs ms ys : List Tag) (s t : Heap ops) (a n left p : ℕ) (b : Tag)
      → IsHeap ops first (xs ++ (ms ++ ys)) s
      → OnlyUsed (first + 8 * total xs) ms p b
      → a ≡ first + 8 * total xs
      → n + left ≡ total ms
      → 8 ≤ n
      → 8 ≤ left
      → t.tags ≡ s.tags
      → t.memory ≡ s.memory
      → Lists ops (Outside first xs (total ms) ys) t
      → Resized ops first (xs ++ (ms ++ ys)) p n a (split_used ops a n left t).1
        × Resized ops first
            (xs ++ (ms ++ ys))
            p
            n
            a
            (coalesce ops (split_used ops a n left t).0 (split_used ops a n left t).1).1
  unfolding split_used next_blk
  split_used-Resized xs ms ys s t a n left p b h only ea sum large_n large_l tags mem lists =
      let (small, word) = Placed-fits first (total (xs ++ (ms ++ ys))) s.memory h.placed in
      let sum1 = total-append xs (ms ++ ys) in
      let sum2 = total-append ms ys in
      let c : Tag = record { size = n; inuse = true } in
      let f : Tag = record { size = left; inuse = false } in
      let used = mark_block_used_lem ops a n t large_n (omega arith) (omega arith) in
      let r = next_blk ops a (mark_block_used ops a n t) in
      let er : r ≡ a + 8 * n = ap (λ g. u64 (a + 8 * g.size)) used.head ∙ omega arith in
      let u = push_free ops r (mark_block_free ops r left (mark_block_used ops a n t)) in
      let heap =
        split_blocks ops first xs ms ys s t a n r left h ea er sum large_n large_l tags mem lists in
      let free = AllFree-cons f [] refl AllFree-nil in
      let e : total ms ≡ total (c ∷ f ∷ []) = omega arith in
      let assoc : (xs ++ (c ∷ [])) ++ (f ∷ ys) ≡ xs ++ (c ∷ f ∷ ys) =
        append_assoc xs (c ∷ []) (f ∷ ys) in
      let sum3 = total-append xs (c ∷ []) in
      let j =
        coalesce_lem ops first (xs ++ (c ∷ [])) f ys u r (omega arith) refl
          (subst (λ l. IsHeap ops first l u) (sym assoc) heap) in
      let m = j.merged in
      let bs = m.before ++ (m.block ∷ m.after) in
      let kept : (q : ℕ) (d : Tag) → UsedIn first (xs ++ (c ∷ f ∷ ys)) q d ↔ UsedIn first bs q d =
        subst (λ l. (q : ℕ) (d : Tag) → UsedIn first l q d ↔ UsedIn first bs q d) assoc m.kept in
      let at_a : (v : Heap ops)
          → Resized ops first (xs ++ (ms ++ ys)) p n (first + 8 * total xs) v
          → Resized ops first (xs ++ (ms ++ ys)) p n a v =
        λ v g. subst (λ z. Resized ops first (xs ++ (ms ++ ys)) p n z v) (sym ea) g in
      (
        at_a u (
            replaced-Resized xs ms ys c (f ∷ []) (xs ++ (c ∷ f ∷ ys)) s u p b n h only e refl free
              (omega arith) heap (λ q d. (λ w. w, λ w. w))),
        at_a (coalesce ops r u).1 (
            replaced-Resized xs ms ys c (f ∷ []) bs s (coalesce ops r u).1 p b n h only e refl free
              (omega arith) m.heap kept),
      )
