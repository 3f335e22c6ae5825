-- ===== src/Heap/Malloc/Runs/Steps.antt =====
-- The calls of kernel/mm/heap/heap.c one after the other, and what their caller holds.
use angl_os.Base.{
  ℕ, ◌+◌, ◌*◌, ◌^◌, ◌≤◌, ◌<◌, ◌≡◌, ◌≢◌, refl, inl, inr, ap, sym, List, [], ◌∷◌, ◌++◌, arith,
}
use angl_os.KernelLists.{ListOps}
use angl_os.Heap.{Tag, Heap}
use angl_os.Heap.Segments.{At, At-range, At-disjoint}
use angl_os.Heap.Valid.{IsHeap}
use angl_os.CString.{memset}
use angl_os.Heap.Malloc.{raw_kmalloc, raw_kcalloc, raw_kfree}
use angl_os.Heap.Malloc.Realloc.{raw_krealloc}
use angl_os.Heap.Malloc.Realloc.Outcome.{bytes-IsHeap}
use angl_os.Heap.Malloc.Realloc.Spec.{Reallocated, raw_krealloc_lem}
use angl_os.Heap.Malloc.Spec.Allocate.{raw_kmalloc_lem}
use angl_os.Heap.Malloc.Spec.Release.{Freed, raw_kfree_lem}
use mathlib.Core.Path.{subst}
use angl_os.Heap.Malloc.Runs.{
  Held, Calls, start, malloc, refused, free, calloc, cleared, realloc, kept, Clear, Disjoint,
  Within,
}
use angl_os.Heap.Malloc.Runs.Backed.{
  Other, Backed, Backed-split, Backed-same, Backed-new, Backed-moved, Backed-iff,
}

module _ (ops : ListOps) (first : ℕ) where
  Backed-Clear :
      (bs : List Tag) (t : Heap ops) (p : ℕ) (b : Tag) (size : ℕ) (held : List Held)
      → IsHeap ops first bs t
      → At first bs p b
      → size + 16 ≤ 8 * b.size
      → Other (p + 8) held
      → Backed first bs held
      → Clear (p + 8, size) held
  Backed-Clear bs t p b size [] h lies room other all = tt
  Backed-Clear bs t p b size (e ∷ es) h lies room (ne, other)
        ((q, d, used, at_q, room_e), apart, rest) =
      (
        elim (At-disjoint t.tags first bs p q b d h.blocks lies used.0 (λ k. ne (omega arith))) [
          | inl before ↦ inl (omega arith)
          | inr behind ↦ inr (omega arith)
        ],
        Backed-Clear bs t p b size es h lies room other rest,
      )

  Backed-Disjoint :
      (bs : List Tag) (t : Heap ops) (held : List Held)
      → IsHeap ops first bs t
      → Backed first bs held
      → Disjoint held × Within first t.memory.mem_brk held
  Backed-Disjoint bs t [] h all = (tt, tt)
  Backed-Disjoint bs t (e ∷ es) h ((p, b, used, at_p, room), apart, rest) =
      let (lo, hi, large, tag) = At-range t.tags first bs p b h.blocks used.0 in
      let (disjoint, within) = Backed-Disjoint bs t es h rest in
      let pair : (p + 8, e.1) ≡ e = ap (λ (z : ℕ). (z, e.1)) (sym at_p) in
      (
        (
          subst (λ z. Clear z es) pair
              (Backed-Clear bs t p b e.1 es h used.0 room (subst (λ z. Other z es) at_p apart)
                rest),
          disjoint,
        ),
        (omega arith, omega (arith, h.placed.brk), within),
      )

  -- One more block, of `_kmalloc`.
  malloc_step :
      (cs : List Tag) (u : Heap ops) (old : List Held) (size : ℕ)
      → IsHeap ops first cs u
      → Backed first cs old
      → size < 2 ^ 30
      → (raw_kmalloc ops size u).0 ≢ 0
      → (ds : List Tag) × IsHeap ops first ds (raw_kmalloc ops size u).1
        × Backed first ds (((raw_kmalloc ops size u).0, size) ∷ old)
  malloc_step cs u old size heap all small some_ptr =
      elim (raw_kmalloc_lem ops first cs size u heap small) [
        | inl (same, why) ↦ absurd (some_ptr (ap (λ g. g.0) same))
        | inr (p, n, at_p, room, given) ↦
            let other : Other (raw_kmalloc ops size u).0 old =
              subst (λ z. Other z old) (sym at_p) (Backed-new first cs p old given.new all) in
            let mine = (given.live p given.block).1 (inr (refl, refl)) in
            (
              given.blocks,
              given.heap,
              (
                (p, given.block, mine, at_p, omega (arith, given.room)),
                other,
                Backed-same first cs given.blocks p old (λ q d was ne. (given.live q d).1 (inl was))
                    (Backed-new first cs p old given.new all) all,
              ),
            )
      ]

  -- `_kcalloc` sets bytes only.
  calloc_step :
      (cs : List Tag) (u : Heap ops) (old : List Held) (size : ℕ)
      → IsHeap ops first cs u
      → Backed first cs old
      → size < 2 ^ 30
      → (raw_kcalloc ops size u).0 ≢ 0
      → (ds : List Tag) × IsHeap ops first ds (raw_kcalloc ops size u).1
        × Backed first ds (((raw_kcalloc ops size u).0, size) ∷ old)
  unfolding raw_kcalloc
  calloc_step cs u old size heap all small some_ptr =
      let (ds, after, backed) = malloc_step cs u old size heap all small some_ptr in
      let r = raw_kmalloc ops size u in
      (ds, bytes-IsHeap ops first ds r.1 (memset r.0 0 size (r.1).bytes) after, backed)

  refused_step :
      (cs : List Tag) (u : Heap ops) (size : ℕ)
      → IsHeap ops first cs u
      → size < 2 ^ 30
      → (raw_kmalloc ops size u).0 ≡ 0
      → IsHeap ops first cs (raw_kmalloc ops size u).1
  refused_step cs u size heap small no_ptr = elim (raw_kmalloc_lem ops first cs size u heap small) [
    | inl (same, why) ↦ subst (IsHeap ops first cs) (sym (ap (λ g. g.1) same)) heap
    | inr (p, n, at_p, room, given) ↦ absurd (omega (arith, at_p, no_ptr))
  ]

  -- `_kcalloc` sets bytes at `NULL`.
  cleared_step :
      (cs : List Tag) (u : Heap ops) (size : ℕ)
      → IsHeap ops first cs u
      → size < 2 ^ 30
      → (raw_kcalloc ops size u).0 ≡ 0
      → IsHeap ops first cs (raw_kcalloc ops size u).1
  unfolding raw_kcalloc
  cleared_step cs u size heap small no_ptr =
      let r = raw_kmalloc ops size u in
      bytes-IsHeap ops first cs r.1 (memset r.0 0 size (r.1).bytes)
        (refused_step cs u size heap small no_ptr)

  -- What the caller holds after any calls.
  Calls-Backed :
      (bs : List Tag) (s t : Heap ops) (held : List Held)
      → IsHeap ops first bs s
      → Calls ops s held t
      → (cs : List Tag) × IsHeap ops first cs t × Backed first cs held
  Calls-Backed bs s t held h start = (bs, h, tt)
  Calls-Backed bs s t held h (malloc {held = old} {t = u} size calls small some_ptr) =
      let (cs, heap, all) = Calls-Backed bs s u old h calls in
      malloc_step cs u old size heap all small some_ptr
  Calls-Backed bs s t held h (refused {held = old} {t = u} size calls small no_ptr) =
      let (cs, heap, all) = Calls-Backed bs s u old h calls in
      (cs, refused_step cs u size heap small no_ptr, all)
  Calls-Backed bs s t held h (free {held = old} {t = u} xs ys ptr size calls e) =
      let (cs, heap, all) = Calls-Backed bs s u old h calls in
      let ((p, b, used, at_p, room), other, rest) =
        Backed-split first cs xs (ptr, size) ys (subst (Backed first cs) e all) in
      let freed =
        subst (λ z. Freed ops first cs p (raw_kfree ops z u)) (sym at_p)
          (raw_kfree_lem ops first cs u p b heap used) in
      (
        freed.blocks,
        freed.heap,
        Backed-same first cs freed.blocks p (xs ++ ys) (λ q d was ne. (freed.live q d).1 (was, ne))
            (subst (λ z. Other z (xs ++ ys)) at_p other) rest,
      )
  Calls-Backed bs s t held h (calloc {held = old} {t = u} size calls small some_ptr) =
      let (cs, heap, all) = Calls-Backed bs s u old h calls in
      calloc_step cs u old size heap all small some_ptr
  Calls-Backed bs s t held h (cleared {held = old} {t = u} size calls small no_ptr) =
      let (cs, heap, all) = Calls-Backed bs s u old h calls in
      (cs, cleared_step cs u size heap small no_ptr, all)
  Calls-Backed bs s t held h
        (realloc {held = old} {t = u} xs ys ptr was size calls e some_size small some_ptr) =
      let (cs, heap, all) = Calls-Backed bs s u old h calls in
      let ((p, b, used, at_p, room), other, rest) =
        Backed-split first cs xs (ptr, was) ys (subst (Backed first cs) e all) in
      let other' = subst (λ z. Other z (xs ++ ys)) at_p other in
      let done =
        subst (λ z. Reallocated ops first cs p size (raw_krealloc ops z size u)) (sym at_p)
          (raw_krealloc_lem ops first cs u p b size heap used small) in
      elim done [
        | inl (zero_size, null, freed) ↦ absurd (some_size zero_size)
        | inr (ne, outcome) ↦ elim outcome [
          | inl (null, failed) ↦ absurd (some_ptr null)
          | inr (a, n, at_a, large, g) ↦ (
            g.blocks,
            g.heap,
            (
              (a, g.block, (g.live a g.block).1 (inr (refl, refl)), at_a, omega (arith, g.room)),
              subst (λ z. Other z (xs ++ ys)) (sym at_a)
                  (Backed-moved first cs p a (xs ++ ys) g.moved other' rest),
              Backed-same first cs g.blocks p (xs ++ ys)
                  (λ q d was_used apart. (g.live q d).1 (inl (was_used, apart))) other' rest,
            ),
          )
        ]
      ]
  Calls-Backed bs s t held h
        (kept {held = old} {t = u} xs ys ptr was size calls e some_size small no_ptr) =
      let (cs, heap, all) = Calls-Backed bs s u old h calls in
      let ((p, b, used, at_p, room), other, rest) =
        Backed-split first cs xs (ptr, was) ys (subst (Backed first cs) e all) in
      let done =
        subst (λ z. Reallocated ops first cs p size (raw_krealloc ops z size u)) (sym at_p)
          (raw_krealloc_lem ops first cs u p b size heap used small) in
      elim done [
        | inl (zero_size, null, freed) ↦ absurd (some_size zero_size)
        | inr (ne, outcome) ↦ elim outcome [
          | inl (null, failed) ↦ (
            failed.blocks,
            failed.heap,
            Backed-iff first cs failed.blocks old (λ q d. (failed.same q d).0) all,
          )
          | inr (a, n, at_a, large, g) ↦ absurd (omega (arith, at_a, no_ptr))
        ]
      ]

  -- Whatever `_kmalloc`, `_kcalloc`, `_krealloc` and `_kfree` have been called with, from a heap on, with
  -- only the memory freed or resized that the caller held and sizes below 2 ^ 30 (not 0 for
  -- `_krealloc`), and whether or not they returned `NULL`: it is a heap again, what the caller holds
  -- lies between its first block and its break, and no two allocations share a byte. That is a
  -- statement about the blocks and tags: the bytes that `_kcalloc` sets from address 0 on when it
  -- has no memory are taken to hold no tag.
  pub Calls-Disjoint :
      (bs : List Tag) (s t : Heap ops) (held : List Held)
      → IsHeap ops first bs s
      → Calls ops s held t
      → Disjoint held
        × Within first t.memory.mem_brk held
        × ((cs : List Tag) × IsHeap ops first cs t)
  Calls-Disjoint bs s t held h calls =
      let (cs, heap, all) = Calls-Backed bs s t held h calls in
      let (disjoint, within) = Backed-Disjoint cs t held heap all in (disjoint, within, (cs, heap))
