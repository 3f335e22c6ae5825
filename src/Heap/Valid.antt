-- ===== src/Heap/Valid.antt =====
-- The heap of kernel/mm/heap/heap.c between two calls: its blocks from the first to the fence.
use angl_os.Base.{
  ℕ, ◌+◌, ◌-◌, ◌*◌, ◌^◌, ◌≤◌, ◌<◌, ◌≡◌, ◌⊎◌, ◌↔◌, inl, inr, ap, ◌∙◌, sym, true, false, List, [],
  ◌∷◌, ◌++◌, arith,
}
use angl_os.KernelLists.{ListOps}
use angl_os.AddressSpace.{HeapMemory}
use angl_os.Heap.{Tag, Heap, fence}
use angl_os.Heap.Segments.{
  total, total-append, Seg, Seg-replace, Seg-split, At, At-append, At-range,
}
use angl_os.Heap.FreeLists.{FreeIn, Lists}
use mathlib.Core.Path.{subst}

-- Where a heap lies: `first` is the address of its first block.
pub record Placed (first : ℕ) (words : ℕ) (m : HeapMemory) : Type 0 where
  pub start : 16 ≤ first
  pub brk : m.mem_brk ≡ first + 8 * words + 8
  pub below : m.mem_brk ≤ m.mem_max_addr
  pub small : m.mem_max_addr < first + 2 ^ 34
  pub word : m.mem_max_addr + 2 ^ 35 < 2 ^ 64

pub Placed-fits :
    (first words : ℕ) (m : HeapMemory)
    → Placed first words m
    → (words < 2 ^ 31) × (first + 8 * words + 2 ^ 35 < 2 ^ 64)
Placed-fits first words m p =
    (omega (arith, p.brk, p.below, p.small), omega (arith, p.brk, p.below, p.word))

module _ (ops : ListOps) where
  -- The heap from `first` on has the blocks `bs`, a fence before and behind them, and the free ones
  -- stand in the list of their size.
  pub record IsHeap (first : ℕ) (bs : List Tag) (s : Heap ops) : Type 0 where
    pub blocks : Seg s.tags first bs
    pub low : s.tags (first - 8) ≡ fence
    pub high : s.tags (first + 8 * total bs) ≡ fence
    pub lists : Lists ops (FreeIn first bs) s
    pub placed : Placed first (total bs) s.memory

  -- Other blocks in the place of `ms`, with the lists brought up to date.
  pub IsHeap-replace :
      (first : ℕ) (xs ms ns ys : List Tag) (s u : Heap ops)
      → IsHeap first (xs ++ (ms ++ ys)) s
      → total ms ≡ total ns
      → u.memory ≡ s.memory
      → ((x : ℕ)
          → (x < first + 8 * total xs) ⊎ (first + 8 * total xs + 8 * total ms ≤ x)
          → u.tags x ≡ s.tags x)
      → Seg u.tags (first + 8 * total xs) ns
      → Lists ops (FreeIn first (xs ++ (ns ++ ys))) u
      → IsHeap first (xs ++ (ns ++ ys)) u
  IsHeap-replace first xs ms ns ys s u h e mem same mid lists =
      let sum_old : total (xs ++ (ms ++ ys)) ≡ total xs + (total ms + total ys) =
        total-append xs (ms ++ ys) ∙ ap (λ k. total xs + k) (total-append ms ys) in
      let sum_new : total (xs ++ (ns ++ ys)) ≡ total xs + (total ns + total ys) =
        total-append xs (ns ++ ys) ∙ ap (λ k. total xs + k) (total-append ns ys) in
      let sum : total (xs ++ (ns ++ ys)) ≡ total (xs ++ (ms ++ ys)) =
        omega (arith, sum_old, sum_new, e) in
      record {
        blocks = Seg-replace s.tags u.tags first xs ms ns ys e same mid h.blocks;
        low = same (first - 8) (inl (omega (arith, h.placed.start))) ∙ h.low;
        high =
            same (first + 8 * total (xs ++ (ns ++ ys))) (inr (omega (arith, sum_new, e)))
            ∙ ap (λ k. s.tags (first + 8 * k)) sum
            ∙ h.high;
        lists = lists;
        placed =
            subst (λ k. Placed first k u.memory) (sym sum)
              (subst (Placed first (total (xs ++ (ms ++ ys)))) (sym mem) h.placed);
      }

-- The blocks in use.
abbrev pub UsedIn : ℕ → List Tag → ℕ → Tag → Type 0
UsedIn a bs p b = At a bs p b × (b.inuse ≡ true)

pub UsedIn-append :
    (a : ℕ) (xs ys : List Tag) (p : ℕ) (b : Tag)
    → UsedIn a (xs ++ ys) p b ↔ (UsedIn a xs p b ⊎ UsedIn (a + 8 * total xs) ys p b)
UsedIn-append a xs ys p b =
    let split = At-append a xs ys p b in
    (
      λ (lies, used). elim (split.0 lies) [ inl l ↦ inl (l, used) | inr r ↦ inr (r, used) ],
      λ h. elim h [
        | inl (l, used) ↦ (split.1 (inl l), used)
        | inr (r, used) ↦ (split.1 (inr r), used)
      ],
    )

-- The blocks in use before and behind `n` words in the middle.
abbrev pub UsedOutside : ℕ → List Tag → ℕ → List Tag → ℕ → Tag → Type 0
UsedOutside a xs n ys p b = UsedIn a xs p b ⊎ UsedIn (a + 8 * total xs + 8 * n) ys p b

pub UsedIn-middle :
    (a : ℕ) (xs ms ys : List Tag) (p : ℕ) (b : Tag)
    → UsedIn a (xs ++ (ms ++ ys)) p b
      ↔ (UsedOutside a xs (total ms) ys p b ⊎ UsedIn (a + 8 * total xs) ms p b)
UsedIn-middle a xs ms ys p b =
    let outer = UsedIn-append a xs (ms ++ ys) p b in
    let inner = UsedIn-append (a + 8 * total xs) ms ys p b in
    (
      λ h. elim (outer.0 h) [
        | inl l ↦ inl (inl l)
        | inr r ↦ elim (inner.0 r) [ inl m ↦ inr m | inr y ↦ inl (inr y) ]
      ],
      λ h. elim h [
        | inl o ↦ elim o [ inl l ↦ outer.1 (inl l) | inr y ↦ outer.1 (inr (inner.1 (inr y))) ]
        | inr m ↦ outer.1 (inr (inner.1 (inl m)))
      ],
    )

abbrev pub AllFree : List Tag → Type 0
AllFree bs = (z p : ℕ) (d : Tag) → ¬ (UsedIn z bs p d)

pub AllFree-cons : (b : Tag) (bs : List Tag) → b.inuse ≡ false → AllFree bs → AllFree (b ∷ bs)
AllFree-cons b bs free rest z p d (lies, used) = elim lies [
  | inl (e, tag) ↦ let same = ap (λ x. x.inuse) tag in cc
  | inr k ↦ rest (z + 8 * b.size) p d (k, used)
]

pub AllFree-nil : AllFree []
AllFree-nil z p d (lies, used) = elim lies [ ]

-- Free blocks in the place of free blocks: those in use are the same.
pub UsedIn-replace :
    (a : ℕ) (xs ms ns ys : List Tag) (p : ℕ) (b : Tag)
    → total ms ≡ total ns
    → AllFree ms
    → UsedIn a (xs ++ (ms ++ ys)) p b
    → UsedIn a (xs ++ (ns ++ ys)) p b
UsedIn-replace a xs ms ns ys p b e free_ms h = elim ((UsedIn-middle a xs ms ys p b).0 h) [
  | inl o ↦ (UsedIn-middle a xs ns ys p b).1 (inl (subst (λ n. UsedOutside a xs n ys p b) e o))
  | inr m ↦ absurd (free_ms (a + 8 * total xs) p b m)
]

pub UsedOutside-range :
    (t : ℕ → Tag) (a : ℕ) (xs ms ys : List Tag) (q : ℕ) (d : Tag)
    → Seg t a (xs ++ (ms ++ ys))
    → UsedOutside a xs (total ms) ys q d
    → (q < a + 8 * total xs) ⊎ (a + 8 * total xs + 8 * total ms ≤ q)
UsedOutside-range t a xs ms ys q d h (inl (lies, used)) =
    let (lo, hi, large, tag) = At-range t a xs q d (Seg-split t a xs (ms ++ ys) h).0 lies in
    inl (omega arith)
UsedOutside-range t a xs ms ys q d h (inr (lies, used)) =
    let back = (Seg-split t a xs (ms ++ ys) h).1 in
    let behind = (Seg-split t (a + 8 * total xs) ms ys back).1 in
    let (lo, hi, large, tag) = At-range t (a + 8 * total xs + 8 * total ms) ys q d behind lies in
    inr lo

-- A block in use and free blocks behind it, and free blocks before.
pub UsedIn-first :
    (a : ℕ) (c : Tag) (left : List Tag) (q : ℕ) (d : Tag)
    → c.inuse ≡ true
    → AllFree left
    → UsedIn a (c ∷ left) q d ↔ ((q ≡ a) × (d ≡ c))
UsedIn-first a c left q d used free = (
  λ (lies, inuse). elim lies [
    | inl (e, f) ↦ (sym e, sym f)
    | inr k ↦ absurd (free (a + 8 * c.size) q d (k, inuse))
  ],
  λ (e, f). (inl (sym e, sym f), ap (λ g. g.inuse) f ∙ used),
)

pub UsedIn-skip :
    (a : ℕ) (w : Tag) (bs : List Tag) (q : ℕ) (d : Tag)
    → w.inuse ≡ false
    → UsedIn a (w ∷ bs) q d ↔ UsedIn (a + 8 * w.size) bs q d
UsedIn-skip a w bs q d free = (
  λ (lies, inuse). elim lies [
    | inl (e, f) ↦ let same = ap (λ g. g.inuse) f in absurd (cc)
    | inr k ↦ (k, inuse)
  ],
  λ (k, inuse). (inr k, inuse),
)
