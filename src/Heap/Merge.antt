-- ===== src/Heap/Merge.antt =====
-- `coalesce` of kernel/mm/heap/heap.c at a free block of the heap.
pub mod Cases
pub mod Branches
pub mod Before
use angl_os.Base.{
  ℕ, zero, suc, ◌+◌, ◌-◌, ◌*◌, ◌%◌, ◌^◌, ◌≤◌, ◌<◌, ◌≡◌, ◌≢◌, ◌⊎◌, ◌↔◌, refl, inl, inr, ap, ◌∙◌, sym,
  Bool, true, false, List, [], ◌∷◌, ◌++◌, arith, sub64, u64, if◌then◌else◌, Bool-cases,
}
use angl_os.KernelLists.{ListOps}
use angl_os.Heap.{Tag, Heap, get_seg_index, mark_block_free, push_free, unlink}
use angl_os.Heap.Segments.{total, total-append, Seg, Seg-split, At}
use angl_os.Heap.FreeLists.{FreeIn, FreeIn-one, Lists, Outside, attach-Lists}
use angl_os.Heap.Marks.{Marked, Marked-Seg, mark_block_free_lem, mark_block_free-frame}
use angl_os.Heap.Valid.{
  IsHeap, IsHeap-replace, Placed, Placed-fits, UsedIn, AllFree, UsedIn-replace,
}
use mathlib.Core.Path.{subst}

module _ (ops : ListOps) (first : ℕ) where
  -- One free block in the place of `ms`, none of which stands in a list any more.
  pub merge_blocks :
      (xs ms ys : List Tag) (s t : Heap ops) (a a' k : ℕ)
      → IsHeap ops first (xs ++ (ms ++ ys)) s
      → 8 ≤ total ms
      → a ≡ first + 8 * total xs
      → a' ≡ a
      → k ≡ total ms
      → t.tags ≡ s.tags
      → t.memory ≡ s.memory
      → Lists ops (Outside first xs (total ms) ys) t
      → IsHeap ops first
          (xs ++ (record { size = k; inuse = false } ∷ ys))
          (push_free ops a' (mark_block_free ops a k t))
  unfolding push_free
  merge_blocks xs ms ys s t a a' k h large ea ea' ek tags mem lists =
      let (small, word) = Placed-fits first (total (xs ++ (ms ++ ys))) s.memory h.placed in
      let sum1 = total-append xs (ms ++ ys) in
      let sum2 = total-append ms ys in
      let start = h.placed.start in
      let f : Tag = record { size = k; inuse = false } in
      let v = mark_block_free ops a k t in
      let free = mark_block_free_lem ops a k t (omega arith) (omega arith) (omega arith) in
      let (l, m) = mark_block_free-frame ops (Outside first xs (total ms) ys) a k t lists in
      let only : (i q : ℕ)
          → FreeIn (first + 8 * total xs) (f ∷ []) i q
            ↔ ((q ≡ a + 8) × (i ≡ get_seg_index (v.tags a).size)) =
        λ i q.
          let idx : get_seg_index (v.tags a).size ≡ get_seg_index k =
            ap (λ g. get_seg_index g.size) free.head in
          let one = FreeIn-one (first + 8 * total xs) f i q in
          (
            λ w. let (e0, e1, e2) = one.0 w in (omega (arith, e1, ea), e2 ∙ sym idx),
            λ (e1, e2). one.1 (refl, omega (arith, e1, ea), e2 ∙ idx),
          ) in
      subst (λ z. IsHeap ops first (xs ++ (f ∷ ys)) (push_free ops z v)) (sym ea')
        (IsHeap-replace ops first xs ms (f ∷ []) ys s (push_free ops a v) h (omega arith) (m ∙ mem)
          (λ x out.
            free.same x (elim out [ inl lo ↦ inl (omega arith) | inr hi ↦ inr (omega arith) ])
            ∙ ap (λ g. g x) tags)
          (subst (λ e. Seg v.tags e (f ∷ [])) ea (Marked-Seg t.tags v.tags a f free (omega arith)))
          (attach-Lists ops s.tags first xs ms (f ∷ []) ys a v h.blocks (omega arith) (omega arith)
            (omega arith) (omega arith) only l))

-- A heap whose blocks are `bs` but for free blocks made into one free block, of the size of `b` at
-- least, which lies at `r.0`.
pub record Merged (ops : ListOps) (first : ℕ) (bs : List Tag) (b : Tag) (r : ℕ × Heap ops)
    : Type 0 where
  pub before : List Tag
  pub block : Tag
  pub after : List Tag
  pub heap : IsHeap ops first (before ++ (block ∷ after)) r.1
  pub address : r.0 ≡ first + 8 * total before
  pub free : block.inuse ≡ false
  pub large : b.size ≤ block.size
  pub kept : (p : ℕ) (d : Tag) → UsedIn first bs p d ↔ UsedIn first (before ++ (block ∷ after)) p d

-- The free block that stands last in a list, if one does: its words, and the blocks before it.
abbrev pub free_before : List Tag → ℕ
free_before [] = 0
free_before (x ∷ []) = if x.inuse then 0 else x.size
free_before (x ∷ y ∷ xs) = free_before (y ∷ xs)

abbrev pub rest_before : List Tag → List Tag
rest_before [] = []
rest_before (x ∷ []) = if x.inuse then x ∷ [] else []
rest_before (x ∷ y ∷ xs) = x ∷ rest_before (y ∷ xs)

-- The free block that stands first, and the blocks behind it.
abbrev pub free_behind : List Tag → ℕ
free_behind [] = 0
free_behind (x ∷ xs) = if x.inuse then 0 else x.size

abbrev pub rest_behind : List Tag → List Tag
rest_behind [] = []
rest_behind (x ∷ xs) = if x.inuse then x ∷ xs else xs

-- A merged heap whose blocks are `before`, the free block at `r.0` of `words` words, and `after`.
pub record Joined (ops : ListOps) (first : ℕ) (bs : List Tag) (b : Tag) (before : List Tag)
    (words : ℕ) (after : List Tag) (r : ℕ × Heap ops) : Type 0 where
  pub merged : Merged ops first bs b r
  pub front : merged.before ≡ before
  pub size : merged.block.size ≡ words
  pub back : merged.after ≡ after

pub free_before-append :
    (ws : List Tag) (w : Tag) → free_before (ws ++ (w ∷ [])) ≡ (if w.inuse then 0 else w.size)
free_before-append [] w = refl
free_before-append (x ∷ []) w = refl
free_before-append (x ∷ y ∷ ws) w = free_before-append (y ∷ ws) w

pub rest_before-append :
    (ws : List Tag) (w : Tag)
    → rest_before (ws ++ (w ∷ [])) ≡ (if w.inuse then ws ++ (w ∷ []) else ws)
rest_before-append [] w = elim (Bool-cases w.inuse) [
  | inl used ↦ rw used refl
  | inr free ↦ rw free refl
]
rest_before-append (x ∷ []) w = elim (Bool-cases w.inuse) [
  | inl used ↦ rw used refl
  | inr free ↦ rw free refl
]
rest_before-append (x ∷ y ∷ ws) w =
    ap (λ l. x ∷ l) (rest_before-append (y ∷ ws) w)
    ∙ elim (Bool-cases w.inuse) [ inl used ↦ rw used refl | inr free ↦ rw free refl ]
