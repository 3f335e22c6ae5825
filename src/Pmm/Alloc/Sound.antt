-- ===== src/Pmm/Alloc/Sound.antt =====
-- The set of free pages that the bitmaps of kernel/mm/pmm/pmm.c stand for, and the states in which
-- no page is counted twice.
use angl_os.Base.{
  ℕ, zero, suc, ◌+◌, ◌*◌, ◌/◌, ◌^◌, ◌≤◌, ◌<◌, ◌≡◌, ◌≢◌, ◌⊎◌, ◌↔◌, inl, inr, ap, ◌∙◌, sym, true,
  false, arith, Bool-cases,
}
use angl_os.Pmm.{Pmm, is_free}
use angl_os.Pmm.Layout.{Layout}
use angl_os.Pmm.Alloc.Search.{blocks}
use native.Mathlib.Nat.{pow-suc, div-eq_of_lt-le}
use mathlib.Core.Bool.{false≢true}
use native.Mathlib.Numerals.{add-one}
use native.Mathlib.Decide.{dec_lt}
use angl_os.Pmm.Alloc.Framed.{div_pow_suc}

-- Page `p` is covered by a free block.
abbrev pub PageFree : ℕ → Pmm → Type 0
PageFree p s = (m : ℕ) × (m < 7) × (is_free m (p / 2 ^ m) s ≡ true)

-- No page is covered by two free blocks.
pub record IsSound (s : Pmm) : Type 0 where
  pub layout : Layout s
  pub once :
      (p m n : ℕ)
      → p < blocks 0 s
      → m < n
      → n < 7
      → is_free m (p / 2 ^ m) s ≡ true
      → is_free n (p / 2 ^ n) s ≡ false

pub page_within : (p m : ℕ) (s : Pmm) → Layout s → m < 7 → p < blocks 0 s → p / 2 ^ m < blocks m s
page_within p zero s lay h lt = omega arith
page_within p (suc m) s lay h lt =
    let e : (s.bitmaps (m + 1)).size ≡ (s.bitmaps (suc m)).size =
      ap (λ n. (s.bitmaps n).size) (add-one m) in
    omega (
      arith,
      page_within p m s lay (omega arith) lt,
      lay.halves m (omega arith),
      div_pow_suc p m,
      e,
    )

-- A block lies in the memory that the lowest bitmap covers.
pub block_within :
    (i j : ℕ) (s : Pmm) → Layout s → i < 7 → j < blocks i s → j * 2 ^ i + 2 ^ i ≤ blocks 0 s
block_within zero j s lay h lt = omega arith
block_within (suc i) j s lay h lt =
    let e : (s.bitmaps (i + 1)).size ≡ (s.bitmaps (suc i)).size =
      ap (λ n. (s.bitmaps n).size) (add-one i) in
    let two : 2 * j + 1 < blocks i s = omega (arith, lay.halves i (omega arith), e) in
    omega (
      arith,
      block_within i (2 * j + 1) s lay (omega arith) two,
      pow-suc 2 i,
      ap (λ (t : ℕ). j * t) (pow-suc 2 i),
    )

-- A page whose distance from the start of a block is below the block's size lies in it.
pub block_of : (p i j : ℕ) → j * 2 ^ i ≤ p → p < j * 2 ^ i + 2 ^ i → p / 2 ^ i ≡ j
block_of p i j lo hi = div-eq_of_lt-le (2 ^ i) {m = p} lo (omega arith)

-- `t` is `s` with `pages` free pages taken from page `start` on.
pub record Took (start pages : ℕ) (s t : Pmm) : Type 0 where
  pub inside :
      (p : ℕ) → p < blocks 0 s → start ≤ p → p < start + pages → PageFree p s × ¬ (PageFree p t)
  pub outside :
      (p : ℕ) → p < blocks 0 s → (p < start) ⊎ (start + pages ≤ p) → PageFree p t ↔ PageFree p s
  pub sound : IsSound t
  pub sizes : (n : ℕ) → blocks n t ≡ blocks n s

-- In a sound state only one block covers a page.
pub only_block :
    (p i m : ℕ) (s : Pmm)
    → IsSound s
    → p < blocks 0 s
    → i < 7
    → m < 7
    → is_free i (p / 2 ^ i) s ≡ true
    → i ≢ m
    → is_free m (p / 2 ^ m) s ≡ false
only_block p i m s sd hp hi hm free ne = elim (dec_lt i m) [
  | yes lt ↦ sd.once p i m hp lt hm free
  | no ge ↦ elim (Bool-cases (is_free m (p / 2 ^ m) s)) [
    | inr used ↦ used
    | inl also ↦ absurd (false≢true (sym (sd.once p m i hp (omega arith) hi also) ∙ free))
  ]
]
