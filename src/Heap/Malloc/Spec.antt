-- ===== src/Heap/Malloc/Spec.antt =====
-- `_kmalloc` and `_kfree` of kernel/mm/heap/heap.c against the set of the blocks in use.
pub mod Allocate
pub mod Release
use angl_os.Base.{
  ℕ, zero, suc, ◌+◌, ◌-◌, ◌*◌, ◌%◌, ◌^◌, ◌≤◌, ◌<◌, ◌≡◌, ◌≢◌, ◌⊎◌, ◌↔◌, refl, inl, inr, ap, ◌∙◌, sym,
  Bool, true, false, List, [], ◌∷◌, ◌++◌, arith,
}
use angl_os.KernelLists.{ListOps}
use angl_os.Heap.{Tag, Heap, place}
use angl_os.Heap.Segments.{total, Seg, Seg-split, At, At-range}
use angl_os.Heap.Valid.{
  IsHeap, UsedIn, UsedOutside, UsedIn-append, UsedIn-middle, UsedIn-first, AllFree, AllFree-cons,
  AllFree-nil,
}
use angl_os.Heap.Place.{Taken, place_lem}
use mathlib.Core.Path.{subst}

-- The heap `u` has the blocks in use of `bs` and one more, of `n` words at least, at `p`.
pub record Given (ops : ListOps) (first : ℕ) (bs : List Tag) (n p : ℕ) (u : Heap ops) : Type 0 where
  pub blocks : List Tag
  pub heap : IsHeap ops first blocks u
  pub block : Tag
  pub room : n ≤ block.size
  pub new : (d : Tag) → ¬ (UsedIn first bs p d)
  pub live :
      (q : ℕ) (d : Tag) → UsedIn first blocks q d ↔ (UsedIn first bs q d ⊎ ((q ≡ p) × (d ≡ block)))

-- The same with the blocks in use of other lists.
pub Given-same :
    (ops : ListOps) (first : ℕ) (bs cs : List Tag) (n p : ℕ) (u : Heap ops)
    → ((q : ℕ) (d : Tag) → UsedIn first bs q d ↔ UsedIn first cs q d)
    → Given ops first bs n p u
    → Given ops first cs n p u
Given-same ops first bs cs n p u same g = record {
  blocks = g.blocks;
  heap = g.heap;
  block = g.block;
  room = g.room;
  new = λ d k. g.new d ((same p d).1 k);
  live = λ q d. (
    λ k. elim ((g.live q d).0 k) [ inl old ↦ inl ((same q d).0 old) | inr here ↦ inr here ],
    λ k. (g.live q d).1 (elim k [ inl old ↦ inl ((same q d).1 old) | inr here ↦ inr here ]),
  );
}

-- `place` at a free block.
pub place-Given :
    (ops : ListOps) (first : ℕ) (xs : List Tag) (b : Tag) (ys : List Tag) (s : Heap ops) (n : ℕ)
    → IsHeap ops first (xs ++ (b ∷ ys)) s
    → b.inuse ≡ false
    → 8 ≤ n
    → n ≤ b.size
    → Given ops first
        (xs ++ (b ∷ ys))
        n
        (first + 8 * total xs)
        (place ops (first + 8 * total xs) n s)
place-Given ops first xs b ys s n h fb large le =
    let a = first + 8 * total xs in
    let t = place_lem ops first xs b ys s n h large le in
    let (head, foot, large_b, rest) = (Seg-split s.tags first xs (b ∷ ys) h.blocks).1 in
    let only = AllFree-cons b [] fb AllFree-nil in
    let sizes : total (b ∷ []) ≡ total (t.block ∷ t.left) = omega (arith, t.sizes) in
    record {
      blocks = xs ++ (t.block ∷ (t.left ++ ys));
      heap = t.heap;
      block = t.block;
      room = t.enough;
      new = λ d (lies, used).
          let (lo, hi, big, tag) = At-range s.tags first (xs ++ (b ∷ ys)) a d h.blocks lies in
          let clash : b.inuse ≡ true = ap (λ g. g.inuse) (sym head ∙ tag) ∙ used in cc;
      live = λ q d.
          let old = UsedIn-middle first xs (b ∷ []) ys q d in
          let now = UsedIn-middle first xs (t.block ∷ t.left) ys q d in
          let one = UsedIn-first a t.block t.left q d t.used t.left_free in
          (
            λ k. elim (now.0 k) [
              | inl o ↦ inl (old.1 (inl (subst (λ m. UsedOutside first xs m ys q d) (sym sizes) o)))
              | inr m ↦ inr (one.0 m)
            ],
            λ k. elim k [
              | inl was ↦ elim (old.0 was) [
                | inl o ↦ now.1 (inl (subst (λ m. UsedOutside first xs m ys q d) sizes o))
                | inr m ↦ absurd (only a q d m)
              ]
              | inr here ↦ now.1 (inr (one.1 here))
            ],
          );
    }
