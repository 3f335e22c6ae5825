-- ===== src/Heap/Segments.antt =====
-- Blocks of the kernel heap (kernel/mm/heap/heap.c) one behind the other, as a list of their tags.
use angl_os.Base.{
  ℕ, ◌+◌, ◌-◌, ◌*◌, ◌≤◌, ◌<◌, ◌≡◌, ◌≢◌, ◌⊎◌, ◌↔◌, refl, inl, inr, ap, ◌∙◌, sym, List, [], ◌∷◌, ◌++◌,
  arith,
}
use angl_os.Heap.{Tag}
use mathlib.Core.Path.{subst}

-- the words of the blocks
abbrev pub total : List Tag → ℕ
total [] = 0
total (b ∷ bs) = b.size + total bs

pub total-append : (xs ys : List Tag) → total (xs ++ ys) ≡ total xs + total ys
total-append [] ys = omega arith
total-append (x ∷ xs) ys = omega (arith, total-append xs ys)

-- From address `a` on lie the blocks `bs`, each with its tag at both ends.
abbrev pub Seg : (ℕ → Tag) → ℕ → List Tag → Type 0
Seg t a [] = Unit {0}
Seg t a (b ∷ bs) =
    (t a ≡ b) × (t (a + 8 * b.size - 8) ≡ b) × (8 ≤ b.size) × Seg t (a + 8 * b.size) bs

pub Seg-frame :
    (t u : ℕ → Tag) (a : ℕ) (bs : List Tag)
    → ((x : ℕ) → a ≤ x → x < a + 8 * total bs → u x ≡ t x)
    → Seg t a bs
    → Seg u a bs
Seg-frame t u a [] same h = tt
Seg-frame t u a (b ∷ bs) same (head, foot, large, rest) = (
  same a (omega arith) (omega arith) ∙ head,
  same (a + 8 * b.size - 8) (omega arith) (omega arith) ∙ foot,
  large,
  Seg-frame t u (a + 8 * b.size) bs (λ x lo hi. same x (omega arith) (omega arith)) rest,
)

pub Seg-append :
    (t : ℕ → Tag) (a : ℕ) (xs ys : List Tag)
    → Seg t a xs
    → Seg t (a + 8 * total xs) ys
    → Seg t a (xs ++ ys)
Seg-append t a [] ys h k = subst (λ e. Seg t e ys) (omega arith) k
Seg-append t a (x ∷ xs) ys (head, foot, large, rest) k = (
  head,
  foot,
  large,
  Seg-append t (a + 8 * x.size) xs ys rest (subst (λ e. Seg t e ys) (omega arith) k),
)

pub Seg-split :
    (t : ℕ → Tag) (a : ℕ) (xs ys : List Tag)
    → Seg t a (xs ++ ys)
    → Seg t a xs × Seg t (a + 8 * total xs) ys
Seg-split t a [] ys h = (tt, subst (λ e. Seg t e ys) (omega arith) h)
Seg-split t a (x ∷ xs) ys (head, foot, large, rest) =
    let (front, back) = Seg-split t (a + 8 * x.size) xs ys rest in
    ((head, foot, large, front), subst (λ e. Seg t e ys) (omega arith) back)

-- Other blocks in the place of `ms`: the tags change there only.
pub Seg-replace :
    (t u : ℕ → Tag) (a : ℕ) (xs ms ns ys : List Tag)
    → total ms ≡ total ns
    → ((x : ℕ) → (x < a + 8 * total xs) ⊎ (a + 8 * total xs + 8 * total ms ≤ x) → u x ≡ t x)
    → Seg u (a + 8 * total xs) ns
    → Seg t a (xs ++ (ms ++ ys))
    → Seg u a (xs ++ (ns ++ ys))
Seg-replace t u a xs ms ns ys e same mid h =
    let (front, back) = Seg-split t a xs (ms ++ ys) h in
    let (old, behind) = Seg-split t (a + 8 * total xs) ms ys back in
    Seg-append u a xs (ns ++ ys) (Seg-frame t u a xs (λ x lo hi. same x (inl hi)) front) (
      Seg-append u (a + 8 * total xs) ns ys mid (
        subst (λ k. Seg u (a + 8 * total xs + 8 * k) ys) e
          (Seg-frame t u (a + 8 * total xs + 8 * total ms) ys (λ x lo hi. same x (inr lo)) behind)))

-- Block `b` lies at address `p`.
abbrev pub At : ℕ → List Tag → ℕ → Tag → Type 0
At a [] p b = ⊥
At a (c ∷ cs) p b = ((a ≡ p) × (c ≡ b)) ⊎ At (a + 8 * c.size) cs p b

pub At-append :
    (a : ℕ) (xs ys : List Tag) (p : ℕ) (b : Tag)
    → At a (xs ++ ys) p b ↔ (At a xs p b ⊎ At (a + 8 * total xs) ys p b)
At-append a [] ys p b = (
  λ h. inr (subst (λ e. At e ys p b) (omega arith) h),
  λ h. elim h [ inl nothing ↦ elim nothing [ ] | inr k ↦ subst (λ e. At e ys p b) (omega arith) k ],
)
At-append a (x ∷ xs) ys p b =
    let ih = At-append (a + 8 * x.size) xs ys p b in
    let e : a + 8 * x.size + 8 * total xs ≡ a + 8 * (x.size + total xs) = omega arith in
    (
      λ h. elim h [
        | inl here ↦ inl (inl here)
        | inr k ↦ elim (ih.0 k) [ inl l ↦ inl (inr l) | inr r ↦ inr (subst (λ z. At z ys p b) e r) ]
      ],
      λ h. elim h [
        | inl l ↦ elim l [ inl here ↦ inl here | inr k ↦ inr (ih.1 (inl k)) ]
        | inr r ↦ inr (ih.1 (inr (subst (λ z. At z ys p b) (sym e) r)))
      ],
    )

-- Where a block lies, and its tag.
pub At-range :
    (t : ℕ → Tag) (a : ℕ) (bs : List Tag) (p : ℕ) (b : Tag)
    → Seg t a bs
    → At a bs p b
    → (a ≤ p) × (p + 8 * b.size ≤ a + 8 * total bs) × (8 ≤ b.size) × (t p ≡ b)
At-range t a [] p b h k = elim k [ ]
At-range t a (c ∷ cs) p b (head, foot, large, rest) (inl (e, f)) =
    let size : c.size ≡ b.size = ap (λ x. x.size) f in
    (omega arith, omega arith, omega arith, ap t (sym e) ∙ head ∙ f)
At-range t a (c ∷ cs) p b (head, foot, large, rest) (inr k) =
    let (lo, hi, big, tag) = At-range t (a + 8 * c.size) cs p b rest k in
    (omega arith, omega arith, big, tag)

-- The blocks before and behind one.
pub At-split :
    (a : ℕ) (bs : List Tag) (p : ℕ) (b : Tag)
    → At a bs p b
    → (xs : List Tag) × (ys : List Tag) × (bs ≡ xs ++ (b ∷ ys)) × (p ≡ a + 8 * total xs)
At-split a [] p b h = elim h [ ]
At-split a (c ∷ cs) p b (inl (e, f)) = ([], cs, ap (λ x. x ∷ cs) f, omega arith)
At-split a (c ∷ cs) p b (inr k) =
    let (xs, ys, e, f) = At-split (a + 8 * c.size) cs p b k in
    (c ∷ xs, ys, ap (λ l. c ∷ l) e, omega arith)

-- The last block before an address, if there is one.
pub last_cases : (xs : List Tag) → (xs ≡ []) ⊎ ((ws : List Tag) × (w : Tag) × (xs ≡ ws ++ (w ∷ [])))
last_cases [] = inl refl
last_cases (x ∷ xs) = elim (last_cases xs) [
  | inl none_left ↦ inr ([], x, ap (λ l. x ∷ l) none_left)
  | inr (ws, w, e) ↦ inr (x ∷ ws, w, ap (λ l. x ∷ l) e)
]

-- Two blocks do not overlap.
pub At-disjoint :
    (t : ℕ → Tag) (a : ℕ) (bs : List Tag) (p q : ℕ) (b d : Tag)
    → Seg t a bs
    → At a bs p b
    → At a bs q d
    → p ≢ q
    → (p + 8 * b.size ≤ q) ⊎ (q + 8 * d.size ≤ p)
At-disjoint t a [] p q b d h k l ne = elim k [ ]
At-disjoint t a (c ∷ cs) p q b d (head, foot, large, rest) (inl (e, f)) (inl (e', f')) ne =
    absurd (ne (sym e ∙ e'))
At-disjoint t a (c ∷ cs) p q b d (head, foot, large, rest) (inl (e, f)) (inr l) ne =
    let (lo, hi, big, tag) = At-range t (a + 8 * c.size) cs q d rest l in
    inl (omega (arith, ap (λ g. g.size) f))
At-disjoint t a (c ∷ cs) p q b d (head, foot, large, rest) (inr k) (inl (e', f')) ne =
    let (lo, hi, big, tag) = At-range t (a + 8 * c.size) cs p b rest k in
    inr (omega (arith, ap (λ g. g.size) f'))
At-disjoint t a (c ∷ cs) p q b d (head, foot, large, rest) (inr k) (inr l) ne =
    At-disjoint t (a + 8 * c.size) cs p q b d rest k l ne
