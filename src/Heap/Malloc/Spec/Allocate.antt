-- ===== src/Heap/Malloc/Spec/Allocate.antt =====
-- `_kmalloc` of kernel/mm/heap/heap.c: what it returns, and what is in use after it.
use angl_os.Base.{
  ℕ, ◌+◌, ◌*◌, ◌^◌, ◌≤◌, ◌<◌, ◌≡◌, ◌≢◌, ◌⊎◌, refl, inl, inr, ap, ◌∙◌, sym, false, Option, none,
  some, List, [], ◌∷◌, ◌++◌, arith, ◌==◌, ==_ne, if◌then◌else◌, Bool-cases, Option-cases,
}
use angl_os.KernelLists.{ListOps}
use angl_os.Heap.{Tag, Heap, max, chunksize, payload, request_words, extend_heap, place}
use angl_os.Heap.Segments.{total, At, At-append, At-range, At-split}
use angl_os.Heap.Valid.{IsHeap, Placed-fits, UsedIn-append, AllFree-cons, AllFree-nil}
use angl_os.Heap.Merge.{Merged}
use angl_os.Heap.Extend.{extend_heap_lem}
use angl_os.Heap.Requests.{request_words_lem}
use angl_os.Heap.Malloc.{find_fit, allocate, raw_kmalloc}
use angl_os.Heap.Malloc.Fit.{find_fit_lem}
use angl_os.Heap.Malloc.Spec.{Given, Given-same, place-Given}
use mathlib.Core.Path.{subst}

pub max_cases : (x y : ℕ) → ((max x y ≡ x) × (y ≤ x)) ⊎ ((max x y ≡ y) × (x ≤ y))
max_cases x y = ground arith

module _ (ops : ListOps) (first : ℕ) where
  -- `place` at the block that a call has found.
  placed-Given :
      (bs : List Tag) (s : Heap ops) (n p : ℕ) (b : Tag)
      → IsHeap ops first bs s
      → At first bs p b
      → b.inuse ≡ false
      → 8 ≤ n
      → n ≤ b.size
      → (payload p ≡ p + 8) × Given ops first bs n p (place ops p n s)
  placed-Given bs s n p b h lies fb large le =
      let (lo, hi, big, tag) = At-range s.tags first bs p b h.blocks lies in
      let (small, word) = Placed-fits first (total bs) s.memory h.placed in
      let (xs, ys, e, at_p) = At-split first bs p b lies in
      let given =
        place-Given ops first xs b ys s n (subst (λ l. IsHeap ops first l s) e h) fb large le in
      (
        omega arith,
        subst (λ l. Given ops first l n p (place ops p n s)) (sym e)
            (subst (λ a. Given ops first (xs ++ (b ∷ ys)) n a (place ops a n s)) (sym at_p) given),
      )

  -- Where `mem_sbrk` refuses, nothing changes.
  abbrev pub Refused : ℕ → Heap ops → ℕ × Heap ops → Type 0
  Refused n s r = (s.memory.mem_max_addr < s.memory.mem_brk + 8 * n) × (r ≡ (0, s))

  extended-Given :
      (bs : List Tag) (n k : ℕ) (s : Heap ops) (r : ℕ × Heap ops)
      → 8 ≤ n
      → n ≤ k
      → Merged ops first
          (bs ++ (record { size = k; inuse = false } ∷ []))
          (record { size = k; inuse = false })
          r
      → (r.0 ≢ 0) × (payload r.0 ≡ r.0 + 8) × Given ops first bs n r.0 (place ops r.0 n r.1)
  extended-Given bs n k s r large le m =
      let f : Tag = record { size = k; inuse = false } in
      let start = m.heap.placed.start in
      let nothing = AllFree-cons f [] refl AllFree-nil in
      let here = At-append-here m.before m.block m.after r.0 m.address in
      let (e, given) =
        placed-Given (m.before ++ (m.block ∷ m.after)) r.1 n r.0 m.block m.heap here m.free large
          (omega (arith, m.large)) in
      (
        (λ z. omega (arith, m.address)),
        e,
        Given-same ops first (m.before ++ (m.block ∷ m.after)) bs n r.0 (place ops r.0 n r.1)
            (λ q d.
              let app = UsedIn-append first bs (f ∷ []) q d in
              (
                λ u. elim (app.0 ((m.kept q d).1 u)) [
                  | inl old ↦ old
                  | inr w ↦ absurd (nothing (first + 8 * total bs) q d w)
                ],
                λ u. (m.kept q d).0 (app.1 (inl u)),
              ))
            given,
      )
    where
      At-append-here :
          (xs : List Tag) (b : Tag) (ys : List Tag) (p : ℕ)
          → p ≡ first + 8 * total xs
          → At first (xs ++ (b ∷ ys)) p b
      At-append-here xs b ys p e = (At-append first xs (b ∷ ys) p b).1 (inr (inl (sym e, refl)))

  pub allocate_lem :
      (bs : List Tag) (n : ℕ) (s : Heap ops)
      → IsHeap ops first bs s
      → 8 ≤ n
      → 8 * n < 2 ^ 31
      → Refused (max n chunksize) s (allocate ops n s)
        ⊎ ((p : ℕ) × ((allocate ops n s).0 ≡ p + 8) × Given ops first bs n p (allocate ops n s).1)
  unfolding allocate
  allocate_lem bs n s h large small =
      let k = max n chunksize in
      let ek : (n ≤ k) × (8 ≤ k) × (k * 8 < 2 ^ 31) = elim (max_cases n chunksize) [
        | inl (e, le) ↦ (omega arith, omega arith, omega arith)
        | inr (e, le) ↦ (omega arith, omega arith, omega arith)
      ] in
      let ext = extend_heap ops k s in
      let fresh : ℕ × Heap ops → ℕ × Heap ops =
        λ r. if r.0 == 0 then (0, r.1) else (payload r.0, place ops r.0 n r.1) in
      let pick : Option ℕ → ℕ × Heap ops =
        λ o. elim o [ some blk ↦ (payload blk, place ops blk n s) | none ↦ fresh ext ] in
      let P : ℕ × Heap ops → Type 0 = λ r.
        ((s.memory.mem_max_addr < s.memory.mem_brk + 8 * k) × (r ≡ (0, s)))
        ⊎ ((p : ℕ) × (r.0 ≡ p + 8) × Given ops first bs n p r.1) in
      elim (Option-cases (find_fit ops n s)) [
        | inr (blk, found) ↦
            let (b, lies, free, enough) = find_fit_lem ops first bs s n blk h found in
            let (e, given) = placed-Given bs s n blk b h lies free large enough in
            subst P (sym (ap pick found)) (inr (blk, e, given))
        | inl nothing ↦
            subst P (sym (ap pick nothing)) (elim (extend_heap_lem ops first bs k s h ek.1 ek.2) [
              | inl (full, same) ↦ inl (omega arith, ap fresh same)
              | inr merged ↦
                  let (ne, e, given) = extended-Given bs n k s ext large ek.0 merged in
                  let value : fresh ext ≡ (payload ext.0, place ops ext.0 n ext.1) =
                    ap (λ z. if z then (0, ext.1) else (payload ext.0, place ops ext.0 n ext.1))
                      (==_ne ext.0 0 ne) in
                  subst P (sym value) (inr (ext.0, e, given))
            ])
      ]

  -- `_kmalloc` of a heap, of a size below 2 ^ 30: it returns a pointer to a block that was not in use and
  -- has room for `size` bytes between its tags, and that block is in use beside those from before. Or it
  -- returns `NULL` and changes nothing, where the size is 0 or `mem_sbrk` has fewer than
  -- `size + 288` bytes left.
  pub raw_kmalloc_lem :
      (bs : List Tag) (size : ℕ) (s : Heap ops)
      → IsHeap ops first bs s
      → size < 2 ^ 30
      → ((raw_kmalloc ops size s ≡ (0, s))
          × ((size ≡ 0) ⊎ (s.memory.mem_max_addr < s.memory.mem_brk + size + 288)))
        ⊎ ((p : ℕ) × (n : ℕ) × ((raw_kmalloc ops size s).0 ≡ p + 8)
            × (size + 16 ≤ 8 * n)
            × Given ops first bs n p (raw_kmalloc ops size s).1)
  unfolding raw_kmalloc
  raw_kmalloc_lem bs size s h small =
      let (n, req, large, room, bound, even) = request_words_lem size (omega arith) in
      let serve : Option ℕ → ℕ × Heap ops =
        λ o. elim o [ none ↦ (0, s) | some words ↦ allocate ops words s ] in
      let P : ℕ × Heap ops → Type 0 = λ r.
        ((r ≡ (0, s)) × ((size ≡ 0) ⊎ (s.memory.mem_max_addr < s.memory.mem_brk + size + 288)))
        ⊎ ((p : ℕ) × (m : ℕ) × (r.0 ≡ p + 8) × (size + 16 ≤ 8 * m) × Given ops first bs m p r.1) in
      elim (Bool-cases (size == 0)) [
        | inl nothing ↦
            subst P (sym (ap (λ z. if z then (0, s) else serve (request_words size)) nothing))
              (inl (refl, inl (ground arith)))
        | inr something ↦
            subst P
              (sym (
                ap (λ z. if z then (0, s) else serve (request_words size)) something
                ∙ ap serve req))
              (elim (allocate_lem bs n s h large (omega arith)) [
                | inl (full, same) ↦ inl (
                  same,
                  inr (elim (max_cases n chunksize) [
                    | inl (e, le) ↦ omega arith
                    | inr (e, le) ↦ omega arith
                  ]),
                )
                | inr (p, e, given) ↦ inr (p, n, e, room, given)
              ])
      ]
