-- ===== src/Heap/FreeLists.antt =====
-- The blocks that are free and the lists that they stand in, in kernel/mm/heap/heap.c.
use angl_os.Base.{
  ℕ, ◌+◌, ◌*◌, ◌^◌, ◌≤◌, ◌<◌, ◌≡◌, ◌≢◌, ◌⊎◌, ◌↔◌, refl, inl, inr, ap, ◌∙◌, sym, true, false, List,
  [], ◌∷◌, ◌++◌, arith, update_self, update_ne, update,
}
use angl_os.KernelLists.{ListOps}
use angl_os.KernelLists.Members.{Holds, Holds-iff, push_back-Holds, remove-Holds}
use angl_os.Heap.{Tag, Heap, get_seg_index, payload, push_free, unlink}
use angl_os.Heap.Segments.{total, Seg, Seg-split, At, At-append, At-range}
use native.Mathlib.Decide.{ℕ_discrete}
use mathlib.Core.Path.{subst}

-- `q` is the payload of a free block of list `i`.
abbrev pub FreeIn : ℕ → List Tag → ℕ → ℕ → Type 0
FreeIn a bs i q =
    (p : ℕ) × (b : Tag) × At a bs p b × (b.inuse ≡ false) × (q ≡ p + 8) × (i ≡ get_seg_index b.size)

pub FreeIn-append :
    (a : ℕ) (xs ys : List Tag) (i q : ℕ)
    → FreeIn a (xs ++ ys) i q ↔ (FreeIn a xs i q ⊎ FreeIn (a + 8 * total xs) ys i q)
FreeIn-append a xs ys i q = (
  λ (p, b, lies, f, e, k). elim ((At-append a xs ys p b).0 lies) [
    | inl l ↦ inl (p, b, l, f, e, k)
    | inr r ↦ inr (p, b, r, f, e, k)
  ],
  λ h. elim h [
    | inl (p, b, l, f, e, k) ↦ (p, b, (At-append a xs ys p b).1 (inl l), f, e, k)
    | inr (p, b, r, f, e, k) ↦ (p, b, (At-append a xs ys p b).1 (inr r), f, e, k)
  ],
)

pub FreeIn-one :
    (a : ℕ) (b : Tag) (i q : ℕ)
    → FreeIn a (b ∷ []) i q ↔ ((b.inuse ≡ false) × (q ≡ a + 8) × (i ≡ get_seg_index b.size))
FreeIn-one a b i q = (
  λ (p, c, lies, free, e, l). elim lies [
    | inl (pe, be) ↦ (
      ap (λ x. x.inuse) be ∙ free,
      omega (arith, pe, e),
      l ∙ ap (λ x. get_seg_index x.size) (sym be),
    )
    | inr nothing ↦ elim nothing [ ]
  ],
  λ (free, e, l). (a, b, inl (refl, refl), free, e, l),
)

pub FreeIn-used : (a : ℕ) (b : Tag) (i q : ℕ) → b.inuse ≡ true → ¬ (FreeIn a (b ∷ []) i q)
FreeIn-used a b i q used f = let (free, e, l) = (FreeIn-one a b i q).0 f in cc

pub FreeIn-range :
    (t : ℕ → Tag) (a : ℕ) (bs : List Tag) (i q : ℕ)
    → Seg t a bs
    → FreeIn a bs i q
    → (a + 8 ≤ q) × (q < a + 8 * total bs)
FreeIn-range t a bs i q h (p, b, lies, free, e, l) =
    let (lo, hi, large, tag) = At-range t a bs p b h lies in (omega arith, omega arith)

-- The payload of a block in use is none of a free block.
pub FreeIn-in_use :
    (t : ℕ → Tag) (a : ℕ) (bs : List Tag) (i q z : ℕ)
    → Seg t a bs
    → (t z).inuse ≡ true
    → FreeIn a bs i q
    → q ≢ z + 8
FreeIn-in_use t a bs i q z h used (p, b, lies, free, e, l) same =
    let (lo, hi, large, tag) = At-range t a bs p b h lies in
    let at : p ≡ z = omega arith in
    let clash : b.inuse ≡ true = ap (λ g. g.inuse) (sym tag ∙ ap t at) ∙ used in cc

-- The free blocks before and behind `n` words in the middle.
abbrev pub Outside : ℕ → List Tag → ℕ → List Tag → ℕ → ℕ → Type 0
Outside a xs n ys i q = FreeIn a xs i q ⊎ FreeIn (a + 8 * total xs + 8 * n) ys i q

pub FreeIn-middle :
    (a : ℕ) (xs ms ys : List Tag) (i q : ℕ)
    → FreeIn a (xs ++ (ms ++ ys)) i q
      ↔ (Outside a xs (total ms) ys i q ⊎ FreeIn (a + 8 * total xs) ms i q)
FreeIn-middle a xs ms ys i q =
    let outer = FreeIn-append a xs (ms ++ ys) i q in
    let inner = FreeIn-append (a + 8 * total xs) ms ys i q in
    (
      λ h. elim (outer.0 h) [
        | inl l ↦ inl (inl l)
        | inr r ↦ elim (inner.0 r) [ inl m ↦ inr m | inr y ↦ inl (inr y) ]
      ],
      λ h. elim h [
        | inl o ↦ elim o [ inl l ↦ outer.1 (inl l) | inr y ↦ outer.1 (inr (inner.1 (inr y))) ]
        | inr m ↦ outer.1 (inr (inner.1 (inl m)))
      ],
    )

pub Outside-range :
    (t : ℕ → Tag) (a : ℕ) (xs ms ys : List Tag) (i q : ℕ)
    → Seg t a (xs ++ (ms ++ ys))
    → Outside a xs (total ms) ys i q
    → (q < a + 8 * total xs) ⊎ (a + 8 * total xs + 8 * total ms + 8 ≤ q)
Outside-range t a xs ms ys i q h (inl l) =
    inl (FreeIn-range t a xs i q (Seg-split t a xs (ms ++ ys) h).0 l).1
Outside-range t a xs ms ys i q h (inr r) =
    let back = (Seg-split t a xs (ms ++ ys) h).1 in
    inr
      (FreeIn-range t (a + 8 * total xs + 8 * total ms) ys i q
        (Seg-split t (a + 8 * total xs) ms ys back).1 r).0

-- `q` is not the payload of one of the blocks.
abbrev pub Apart : ℕ → List Tag → ℕ → Type 0
Apart a [] q = Unit {0}
Apart a (b ∷ bs) q = (q ≢ a + 8) × Apart (a + 8 * b.size) bs q

Apart-far :
    (t : ℕ → Tag) (a : ℕ) (bs : List Tag) (q : ℕ)
    → Seg t a bs
    → (q < a) ⊎ (a + 8 * total bs + 8 ≤ q)
    → Apart a bs q
Apart-far t a [] q h far = tt
Apart-far t a (b ∷ bs) q (head, foot, large, rest) far = (
  (λ e. ground arith),
  Apart-far t (a + 8 * b.size) bs q rest
      (elim far [ inl l ↦ inl (omega arith) | inr r ↦ inr (omega arith) ]),
)

Apart-not : (a : ℕ) (bs : List Tag) (i q : ℕ) → Apart a bs q → ¬ (FreeIn a bs i q)
Apart-not a bs i q h (p, b, lies, free, e, l) = missed a bs p b q h lies e
  where
    missed :
        (a : ℕ) (bs : List Tag) (p : ℕ) (b : Tag) (q : ℕ)
        → Apart a bs q
        → At a bs p b
        → q ≡ p + 8
        → ⊥
    missed a [] p b q h lies e = elim lies [ ]
    missed a (c ∷ cs) p b q h (inl (same, tag)) e = h.0 (omega arith)
    missed a (c ∷ cs) p b q h (inr k) e = missed (a + 8 * c.size) cs p b q h.1 k e

-- The free blocks but for those in the middle.
pub Apart-Outside :
    (t : ℕ → Tag) (a : ℕ) (xs ms ys : List Tag) (i q : ℕ)
    → Seg t a (xs ++ (ms ++ ys))
    → (FreeIn a (xs ++ (ms ++ ys)) i q × Apart (a + 8 * total xs) ms q)
      ↔ Outside a xs (total ms) ys i q
Apart-Outside t a xs ms ys i q h =
    let back = (Seg-split t a xs (ms ++ ys) h).1 in
    let mid = (Seg-split t (a + 8 * total xs) ms ys back).0 in
    (
      λ (f, apart). elim ((FreeIn-middle a xs ms ys i q).0 f) [
        | inl o ↦ o
        | inr m ↦ absurd (Apart-not (a + 8 * total xs) ms i q apart m)
      ],
      λ o. (
        (FreeIn-middle a xs ms ys i q).1 (inl o),
        Apart-far t (a + 8 * total xs) ms q mid (Outside-range t a xs ms ys i q h o),
      ),
    )

module _ (ops : ListOps) where
  -- List `i` has the elements that `P i` holds of.
  abbrev pub Lists : (ℕ → ℕ → Type 0) → Heap ops → Type 0
  Lists P s = (i : ℕ) → Holds (P i) (ops.elements (s.free_lists i))

  pub Lists-iff :
      (P Q : ℕ → ℕ → Type 0) (s : Heap ops) → ((i q : ℕ) → P i q ↔ Q i q) → Lists P s → Lists Q s
  Lists-iff P Q s same h i = Holds-iff (P i) (Q i) (ops.elements (s.free_lists i)) (same i) (h i)

  unlinked :
      (P : ℕ → ℕ → Type 0) (blk : ℕ) (s : Heap ops)
      → Lists P s
      → Lists (λ i q. P i q × (q ≢ payload blk)) (unlink ops blk s)
  unfolding unlink
  unlinked P blk s h i = remove-Holds ops (P i) (s.free_lists i) (payload blk) (h i)

  pushed-Lists :
      (P : ℕ → ℕ → Type 0) (blk : ℕ) (s : Heap ops)
      → Lists P s
      → ¬ (P (get_seg_index (s.tags blk).size) (payload blk))
      → Lists
          (λ i q. P i q ⊎ ((q ≡ payload blk) × (i ≡ get_seg_index (s.tags blk).size)))
          (push_free ops blk s)
  unfolding push_free
  pushed-Lists P blk s h new i =
      let k = get_seg_index (s.tags blk).size in
      let pushed = ops.list_push_back (s.free_lists k) (payload blk) in
      elim (ℕ_discrete k i) [
        | yes e ↦
            subst
              (λ j.
                Holds (λ q. P j q ⊎ ((q ≡ payload blk) × (j ≡ k)))
                  (ops.elements (update s.free_lists k pushed j)))
              e
              (subst (λ l. Holds (λ q. P k q ⊎ ((q ≡ payload blk) × (k ≡ k))) (ops.elements l))
                (sym (update_self s.free_lists k pushed))
                (Holds-iff (λ q. P k q ⊎ (q ≡ payload blk))
                  (λ q. P k q ⊎ ((q ≡ payload blk) × (k ≡ k))) (ops.elements pushed)
                  (λ q. (
                    λ c. elim c [ inl old ↦ inl old | inr eq ↦ inr (eq, refl) ],
                    λ c. elim c [ inl old ↦ inl old | inr both ↦ inr both.0 ],
                  ))
                  (push_back-Holds ops (P k) (s.free_lists k) (payload blk) (h k) new)))
        | no ne ↦
            subst (λ l. Holds (λ q. P i q ⊎ ((q ≡ payload blk) × (i ≡ k))) (ops.elements l))
              (sym (update_ne s.free_lists k i pushed ne))
              (Holds-iff (P i) (λ q. P i q ⊎ ((q ≡ payload blk) × (i ≡ k)))
                (ops.elements (s.free_lists i))
                (λ q.
                  (λ c. inl c, λ c. elim c [ inl old ↦ old | inr both ↦ absurd (ne (sym both.1)) ]))
                (h i))
      ]

  pub unlink-Lists :
      (P : ℕ → ℕ → Type 0) (blk : ℕ) (s : Heap ops)
      → blk + 8 < 2 ^ 64
      → Lists P s
      → Lists (λ i q. P i q × (q ≢ blk + 8)) (unlink ops blk s)
  unlink-Lists P blk s fits h =
      let e : payload blk ≡ blk + 8 = omega arith in
      subst (λ a. Lists (λ i q. P i q × (q ≢ a)) (unlink ops blk s)) e (unlinked P blk s h)

  pub push_free-Lists :
      (P : ℕ → ℕ → Type 0) (blk : ℕ) (s : Heap ops)
      → blk + 8 < 2 ^ 64
      → Lists P s
      → ¬ (P (get_seg_index (s.tags blk).size) (blk + 8))
      → Lists
          (λ i q. P i q ⊎ ((q ≡ blk + 8) × (i ≡ get_seg_index (s.tags blk).size)))
          (push_free ops blk s)
  push_free-Lists P blk s fits h new =
      let k = get_seg_index (s.tags blk).size in
      let e : payload blk ≡ blk + 8 = omega arith in
      subst (λ a. Lists (λ i q. P i q ⊎ ((q ≡ a) × (i ≡ k))) (push_free ops blk s)) e
        (pushed-Lists P blk s h (subst (λ a. ¬ (P k a)) (sym e) new))

  -- What is left in the lists when the blocks in the middle have been unlinked.
  pub detach-Lists :
      (t : ℕ → Tag) (a : ℕ) (xs ms ys : List Tag) (P : ℕ → ℕ → Type 0) (s : Heap ops)
      → Seg t a (xs ++ (ms ++ ys))
      → ((i q : ℕ) → P i q ↔ (FreeIn a (xs ++ (ms ++ ys)) i q × Apart (a + 8 * total xs) ms q))
      → Lists P s
      → Lists (Outside a xs (total ms) ys) s
  detach-Lists t a xs ms ys P s seg same h =
      Lists-iff (λ i q. FreeIn a (xs ++ (ms ++ ys)) i q × Apart (a + 8 * total xs) ms q)
        (Outside a xs (total ms) ys) s (λ i q. Apart-Outside t a xs ms ys i q seg)
        (Lists-iff P (λ i q. FreeIn a (xs ++ (ms ++ ys)) i q × Apart (a + 8 * total xs) ms q) s same
          h)

  -- The blocks `ns` in the middle have no free block.
  pub skip-Lists :
      (a : ℕ) (xs ns ys : List Tag) (n : ℕ) (s : Heap ops)
      → n ≡ total ns
      → ((i q : ℕ) → ¬ (FreeIn (a + 8 * total xs) ns i q))
      → Lists (Outside a xs n ys) s
      → Lists (FreeIn a (xs ++ (ns ++ ys))) s
  skip-Lists a xs ns ys n s e nothing h =
      Lists-iff (Outside a xs (total ns) ys) (FreeIn a (xs ++ (ns ++ ys))) s
        (λ i q. (
          λ o. (FreeIn-middle a xs ns ys i q).1 (inl o),
          λ f. elim ((FreeIn-middle a xs ns ys i q).0 f) [
            | inl o ↦ o
            | inr m ↦ absurd (nothing i q m)
          ],
        ))
        (subst (λ k. Lists (Outside a xs k ys) s) e h)

  -- The block `blk` among the blocks `ns` in the middle is the free one, and is put into its list.
  pub attach-Lists :
      (t : ℕ → Tag) (a : ℕ) (xs ms ns ys : List Tag) (blk : ℕ) (s : Heap ops)
      → Seg t a (xs ++ (ms ++ ys))
      → total ms ≡ total ns
      → blk + 8 < 2 ^ 64
      → a + 8 * total xs ≤ blk
      → blk < a + 8 * total xs + 8 * total ms
      → ((i q : ℕ)
          → FreeIn (a + 8 * total xs) ns i q
            ↔ ((q ≡ blk + 8) × (i ≡ get_seg_index (s.tags blk).size)))
      → Lists (Outside a xs (total ms) ys) s
      → Lists (FreeIn a (xs ++ (ns ++ ys))) (push_free ops blk s)
  attach-Lists t a xs ms ns ys blk s seg e fits lo hi only h =
      let k = get_seg_index (s.tags blk).size in
      Lists-iff (λ i q. Outside a xs (total ms) ys i q ⊎ ((q ≡ blk + 8) × (i ≡ k)))
        (FreeIn a (xs ++ (ns ++ ys))) (push_free ops blk s)
        (λ i q.
          let mid = FreeIn-middle a xs ns ys i q in
          (
            λ c. elim c [
              | inl o ↦ mid.1 (inl (subst (λ n. Outside a xs n ys i q) e o))
              | inr both ↦ mid.1 (inr ((only i q).1 both))
            ],
            λ f. elim (mid.0 f) [
              | inl o ↦ inl (subst (λ n. Outside a xs n ys i q) (sym e) o)
              | inr m ↦ inr ((only i q).0 m)
            ],
          ))
        (push_free-Lists (Outside a xs (total ms) ys) blk s fits h (λ o.
          elim (Outside-range t a xs ms ys k (blk + 8) seg o) [
            | inl l ↦ omega arith
            | inr r ↦ omega arith
          ]))
