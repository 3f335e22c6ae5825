-- ===== src/Pmm/Alloc/Search.antt =====
-- The search loops of `pmalloc`, kernel/mm/pmm/pmm.c.
use angl_os.Base.{
  ℕ, zero, suc, ◌+◌, ◌-◌, ◌*◌, ◌^◌, ◌≤◌, ◌<◌, ◌≡◌, inl, inr, true, false, none, some, u64, arith,
  ◌==◌, Bool-cases, Option-cases, ==_ne,
}
use angl_os.Pmm.{Pmm, page_size, is_free}
use angl_os.Pmm.Alloc.{find_in_level, find_block, take_block, size_class, pmalloc}
use angl_os.Pmm.Alloc.SizeClass.{FitsBest, size_class-FitsBest, size_class_wraps}
use mathlib.Core.Path.{subst}
use native.Mathlib.Decide.{ℕ_discrete}

-- no block of level `i` from `lo` up to `hi` is free
abbrev NoneFree : ℕ → ℕ → ℕ → Pmm → Type 0
NoneFree i lo hi s = (k : ℕ) → lo ≤ k → k < hi → is_free i k s ≡ false

NoneFree-step :
    (i lo hi : ℕ) (s : Pmm) → is_free i lo s ≡ false → NoneFree i (lo + 1) hi s → NoneFree i lo hi s
NoneFree-step i lo hi s here later k above below = elim (ℕ_discrete lo k) [
  | yes e ↦ rw (← e) here
  | no ne ↦ later k (omega arith) below
]

find_in_level-some :
    (left i j k : ℕ) (s : Pmm)
    → find_in_level left i j s ≡ some k
    → (j ≤ k) × (k < j + left) × (is_free i k s ≡ true) × NoneFree i j k s
unfolding find_in_level
find_in_level-some zero i j k s h = cc
find_in_level-some (suc left) i j k s h = elim (Bool-cases (is_free i j s)) [
  | inl free ↦
      let e : j ≡ k = ground arith in
      (omega arith, omega arith, rw e at free, λ m above below. absurd (omega arith))
  | inr used ↦
      let rest = find_in_level-some left i (j + 1) k s (ground arith) in
      (omega (arith, rest.0), omega (arith, rest.1), rest.2, NoneFree-step i j k s used rest.3)
]

find_in_level-none :
    (left i j stop : ℕ) (s : Pmm)
    → j + left ≡ stop
    → find_in_level left i j s ≡ none
    → NoneFree i j stop s
unfolding find_in_level
find_in_level-none zero i j stop s e h = λ k above below. absurd (omega arith)
find_in_level-none (suc left) i j stop s e h = elim (Bool-cases (is_free i j s)) [
  | inl free ↦ λ k above below. ground arith
  | inr used ↦
      NoneFree-step i j stop s used
        (find_in_level-none left i (j + 1) stop s (omega arith) (ground arith))
]

-- the number of blocks of level `i`
abbrev pub blocks : ℕ → Pmm → ℕ
blocks i s = (s.bitmaps i).size * 8

-- Block `j` of level `i` is the first free one that the loops reach from level `from`.
pub record FoundFirst (from i j : ℕ) (s : Pmm) : Type 0 where
  pub from_le : from ≤ i
  pub level : i < 7
  pub within : j < blocks i s
  pub free : is_free i j s ≡ true
  pub lower_full : (m k : ℕ) → from ≤ m → m < i → k < blocks m s → is_free m k s ≡ false
  pub earlier_full : (k : ℕ) → k < j → is_free i k s ≡ false

FoundFirst-later :
    {from i j : ℕ} {s : Pmm}
    → NoneFree from 0 (blocks from s) s
    → FoundFirst (from + 1) i j s
    → FoundFirst from i j s
FoundFirst-later {from} {i} {j} {s} none_here f = record {
  from_le = omega arith;
  level = f.level;
  within = f.within;
  free = f.free;
  lower_full = λ m k ge lt inside. elim (ℕ_discrete from m) [
    | yes e ↦
        let inside' : k < blocks from s = rw e inside in
        rw (← e) (none_here k (omega arith) inside')
    | no ne ↦ f.lower_full m k (omega arith) lt inside
  ];
  earlier_full = f.earlier_full;
}

find_block-some :
    (left from i j : ℕ) (s : Pmm)
    → from + left ≡ 7
    → find_block left from s ≡ some (i, j)
    → FoundFirst from i j s
unfolding find_block
find_block-some zero from i j s e h = cc
find_block-some (suc left) from i j s e h =
    elim (Option-cases (find_in_level (blocks from s) from 0 s)) [
      | inl nothing ↦
          FoundFirst-later
            (find_in_level-none (blocks from s) from 0 (blocks from s) s (omega arith) nothing)
            (find_block-some left (from + 1) i j s (omega arith) (ground arith))
      | inr (k, found) ↦
          let (above, below, free, earlier) = find_in_level-some (blocks from s) from 0 k s found in
          let same : ◌≡◌ {A = ℕ × ℕ} (from, k) (i, j) = ground arith in
          let first : FoundFirst from from k s = record {
            from_le = omega arith;
            level = omega arith;
            within = omega arith;
            free = free;
            lower_full = λ m k ge lt inside. absurd (omega arith);
            earlier_full = λ m lt. earlier m (omega arith) lt;
          } in
          subst (λ (p : ℕ × ℕ). FoundFirst from p.0 p.1 s) same first
    ]

find_block-none :
    (left from m k : ℕ) (s : Pmm)
    → from + left ≡ 7
    → find_block left from s ≡ none
    → from ≤ m
    → m < 7
    → k < blocks m s
    → is_free m k s ≡ false
unfolding find_block
find_block-none zero from m k s e h ge lt inside = absurd (omega arith)
find_block-none (suc left) from m k s e h ge lt inside =
    elim (Option-cases (find_in_level (blocks from s) from 0 s)) [
      | inr (j, found) ↦ ground arith
      | inl nothing ↦ elim (ℕ_discrete from m) [
        | yes e' ↦
            let inside' : k < blocks from s = rw e' inside in
            rw (← e') (
              find_in_level-none (blocks from s) from 0 (blocks from s) s (omega arith) nothing k
                (omega arith) inside')
        | no ne ↦
            find_block-none left (from + 1) m k s (omega arith) (ground arith) (omega arith) lt
              inside
      ]
    ]

-- What `pmalloc` answers to a request when it searches from level `c` on: the first free block is
-- taken and its address returned; or there is none, and nothing changes.
pub data Answer (c pages : ℕ) (s : Pmm) (r : ℕ × Pmm) : Type 0 where
  served :
      (i j : ℕ)
      → FoundFirst c i j s
      → r ≡ (u64 (j * (page_size * 2 ^ i)), take_block pages i j s)
      → Answer c pages s r
  full :
      ((m k : ℕ) → c ≤ m → m < 7 → k < blocks m s → is_free m k s ≡ false)
      → r ≡ (0, s)
      → Answer c pages s r

pmalloc-Answer_from :
    (c pages : ℕ) (s : Pmm)
    → 0 < pages
    → c ≤ 7
    → size_class pages ≡ some c
    → Answer c pages s (pmalloc pages s)
unfolding pmalloc
pmalloc-Answer_from c pages s pos le e =
    let some_pages : (pages == 0) ≡ false = ==_ne pages 0 (omega arith) in
    elim (Option-cases (find_block (7 - c) c s)) [
      | inl nothing ↦
          full
            (λ m k ge lt inside. find_block-none (7 - c) c m k s (omega arith) nothing ge lt inside)
            (rw (some_pages, e, nothing))
      | inr ((i, j), found) ↦
          served i j (find_block-some (7 - c) c i j s (omega arith) found)
            (rw (some_pages, e, found))
    ]

-- For every request of 1 to 64 pages there is a level that fits best: its blocks hold the request,
-- and those of no level below do. `pmalloc` takes the first free block among the levels from that
-- one on, in the order of the levels and then of the addresses, and returns its address; or it
-- returns `NULL` and changes nothing, and no block there is free.
pub pmalloc-Answer :
    (pages : ℕ) (s : Pmm)
    → 0 < pages
    → pages ≤ 64
    → (c : ℕ) × FitsBest pages c × Answer c pages s (pmalloc pages s)
pmalloc-Answer pages s pos le =
    let (c, e, fits) = size_class-FitsBest pages pos le in
    (c, fits, pmalloc-Answer_from c pages s pos (omega (arith, fits.level)) e)

-- A request of more than `2 ^ 63` pages, and fewer than `2 ^ 64`, is not refused for its size:
-- `pmalloc` searches from level 0 on, the level of single pages, takes the first free block that it
-- finds there or above and returns its address, however few pages it has; it returns `NULL` and
-- changes nothing only if no block of any level is free.
pub pmalloc_wraps :
    (pages : ℕ) (s : Pmm) → 2 ^ 63 < pages → pages < 2 ^ 64 → Answer 0 pages s (pmalloc pages s)
pmalloc_wraps pages s large word =
    pmalloc-Answer_from 0 pages s (omega arith) (omega arith) (size_class_wraps pages large word)
