-- ===== src/Heap/Malloc/Fit.antt =====
-- `find_fit` of kernel/mm/heap/heap.c.
use angl_os.Base.{
  ℕ, zero, suc, ◌+◌, ◌-◌, ◌≤◌, ◌≡◌, inl, inr, ap, ◌∙◌, sym, Bool, false, Option, none, some, List,
  [], ◌∷◌, arith, ltb, leb, leb→le, sub64, if◌then◌else◌, Bool-cases, Option-cases,
}
use angl_os.KernelLists.{ListOps}
use angl_os.KernelLists.Members.{Listed, here, there}
use angl_os.Heap.{Tag, Heap, num_lists, get_seg_index, blk_size}
use angl_os.Heap.Segments.{total, At, At-range}
use angl_os.Heap.Malloc.{find_in_list, find_from, find_fit}
use angl_os.Heap.Valid.{IsHeap, Placed-fits}
use mathlib.Core.Path.{subst}
use mathlib.Core.Option.{some-injective}

module _ (ops : ListOps) where
  -- An element of a list whose block has enough words.
  Fits : ℕ → List ℕ → Heap ops → ℕ → Type 0
  Fits asize elems s blk =
      (q : ℕ) × Listed q elems × (blk ≡ sub64 q 8) × (asize ≤ blk_size ops blk s)

  find_in_list-Fits :
      (asize idx i j : ℕ) (elems : List ℕ) (s : Heap ops) (blk : ℕ)
      → find_in_list ops asize idx i j elems s ≡ some blk
      → Fits asize elems s blk
  unfolding find_in_list Fits
  find_in_list-Fits asize idx i j [] s blk e = absurd (cc)
  find_in_list-Fits asize idx i j (elem ∷ elems) s blk e =
      let b = sub64 elem 8 in
      let rest = find_in_list ops asize idx i (j + 1) elems s in
      let full = ltb (sub64 11 (i - idx)) j in
      let pick : Bool → Bool → Option ℕ = λ y z. if y then some b else (if z then none else rest) in
      elim (Bool-cases (leb asize (blk_size ops b s))) [
        | inl enough ↦
            let same : b ≡ blk = some-injective b blk (sym (ap (λ y. pick y full) enough) ∙ e) in
            (
              elem,
              here,
              sym same,
              subst (λ z. asize ≤ blk_size ops z s) same (leb→le asize (blk_size ops b s) enough),
            )
        | inr small ↦ elim (Bool-cases (ltb (sub64 11 (i - idx)) j)) [
          | inl stop ↦
              let nothing : none ≡ some blk =
                sym (ap (λ y. pick y full) small ∙ ap (pick false) stop) ∙ e in
              absurd (cc)
          | inr next ↦
              let (q, listed, at_q, fits) =
                find_in_list-Fits asize idx i (j + 1) elems s blk
                  (sym (ap (λ y. pick y full) small ∙ ap (pick false) next) ∙ e) in
              (q, there listed, at_q, fits)
        ]
      ]

  find_from-Fits :
      (left asize idx i : ℕ) (s : Heap ops) (blk : ℕ)
      → find_from ops left asize idx i s ≡ some blk
      → (k : ℕ) × Fits asize (ops.elements (s.free_lists k)) s blk
  unfolding find_from
  find_from-Fits zero asize idx i s blk e = absurd (cc)
  find_from-Fits (suc left) asize idx i s blk e =
      let elems = ops.elements (s.free_lists i) in
      let rest = find_from ops left asize idx (i + 1) s in
      let pick : Option ℕ → Option ℕ = λ o. elim o [ some b ↦ some b | none ↦ rest ] in
      elim (Option-cases (find_in_list ops asize idx i 0 elems s)) [
        | inr (b, found) ↦
            (i, find_in_list-Fits asize idx i 0 elems s blk (found ∙ sym (ap pick found) ∙ e))
        | inl nothing ↦ find_from-Fits left asize idx (i + 1) s blk (sym (ap pick nothing) ∙ e)
      ]

  -- What `find_fit` returns in a heap is a free block of enough words.
  pub find_fit_lem :
      (first : ℕ) (bs : List Tag) (s : Heap ops) (asize blk : ℕ)
      → IsHeap ops first bs s
      → find_fit ops asize s ≡ some blk
      → (b : Tag) × At first bs blk b × (b.inuse ≡ false) × (asize ≤ b.size)
  unfolding find_fit Fits blk_size
  find_fit_lem first bs s asize blk h e =
      let idx = get_seg_index asize in
      let (k, fits) = find_from-Fits (num_lists - idx) asize idx idx s blk e in
      let (q, listed, at_q, enough) = fits in
      let (p, b, lies, free, eq, l) = ((h.lists k).members q).0 listed in
      let (lo, hi, large, tag) = At-range s.tags first bs p b h.blocks lies in
      let (small, word) = Placed-fits first (total bs) s.memory h.placed in
      let same : p ≡ blk = omega arith in
      (
        b,
        subst (λ z. At first bs z b) same lies,
        free,
        omega (arith, ap (λ g. g.size) (ap s.tags (sym same) ∙ tag)),
      )
