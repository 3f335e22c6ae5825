-- ===== src/Pmm/Alloc/Malloc.antt =====
-- `pmalloc` of kernel/mm/pmm/pmm.c as an operation on the set of free pages.
use angl_os.Base.{ℕ, ◌+◌, ◌*◌, ◌^◌, ◌≤◌, ◌<◌, ◌≡◌, ap, ◌∙◌, sym, false, u64, arith, pow_mono}
use angl_os.Pmm.{Pmm, is_free}
use angl_os.Pmm.Alloc.Search.{blocks}
use mathlib.Core.Path.{subst}
use native.Mathlib.Nat.{mul_assoc}
use native.Mathlib.Decide.{dec_lt}
use angl_os.Pmm.{page_size}
use angl_os.Pmm.Alloc.{pmalloc}
use angl_os.Pmm.Alloc.Counts.{IsCounted}
use angl_os.Pmm.Alloc.Counts.Kept.{take_block-IsCounted}
use angl_os.Pmm.Alloc.SizeClass.{FitsBest}
use angl_os.Pmm.Alloc.Search.{Answer, served, full, pmalloc-Answer}
use angl_os.Pmm.Alloc.Sound.{IsSound, Took, block_within}
use angl_os.Pmm.Alloc.Taken.{take_block-Took, no_split}

-- What a caller of `pmalloc` sees.
pub data Outcome (pages : ℕ) (s : Pmm) (r : ℕ × Pmm) : Type 0 where
  took :
      (start : ℕ)
      → start + pages ≤ blocks 0 s
      → r.0 ≡ u64 (start * page_size)
      → Took start pages s r.1
      → Outcome pages s r
  refused :
      ((m k : ℕ) → m < 7 → pages ≤ 2 ^ m → k < blocks m s → is_free m k s ≡ false)
      → r ≡ (0, s)
      → Outcome pages s r

Outcome-Answer :
    (pages c : ℕ) (s : Pmm) {r : ℕ × Pmm}
    → IsSound s
    → 0 < pages
    → FitsBest pages c
    → Answer c pages s r
    → Outcome pages s r
Outcome-Answer pages c s sd pos fits (served i j found eq) =
    let wide : 2 ^ c ≤ 2 ^ i = pow_mono c i (omega (arith, found.from_le)) in
    let enough : pages ≤ 2 ^ i = omega (arith, fits.enough) in
    took (j * 2 ^ i) (omega (arith, block_within i j s sd.layout found.level found.within))
      (ap (λ (x : ℕ × Pmm). x.0) eq
        ∙ ap (λ n. u64 n) (omega (arith, mul_assoc j page_size (2 ^ i))))
      (subst (λ (x : ℕ × Pmm). Took (j * 2 ^ i) pages s x.1) (sym eq)
        (take_block-Took pages i j s sd found.level found.within found.free pos enough))
Outcome-Answer pages c s sd pos fits (full none_free eq) =
    refused (λ m k hm le hk. none_free m k (not_less m le) hm hk) eq
  where
    not_less : (m : ℕ) → pages ≤ 2 ^ m → c ≤ m
    not_less m le = elim (dec_lt m c) [
      | yes lt ↦ absurd (omega (arith, fits.least m lt))
      | no ge ↦ omega arith
    ]

-- From a sound state, `pmalloc` of 1 to 64 pages returns the address of that many free pages in a
-- row, inside the memory that the bitmaps cover, and takes exactly those; or no block that would
-- hold them is free, and it returns `NULL` and changes nothing.
pub pmalloc-Outcome :
    (pages : ℕ) (s : Pmm) → IsSound s → 0 < pages → pages ≤ 64 → Outcome pages s (pmalloc pages s)
pmalloc-Outcome pages s sd pos le =
    let (c, fits, answer) = pmalloc-Answer pages s pos le in
    Outcome-Answer pages c s sd pos fits answer

-- From a sound state, `pmalloc` of 1 to 64 pages keeps `free_mem` in step with the counters.
pub pmalloc-IsCounted :
    (pages : ℕ) (s : Pmm)
    → IsSound s
    → 0 < pages
    → pages ≤ 64
    → IsCounted s
    → IsCounted (pmalloc pages s).1
pmalloc-IsCounted pages s sd pos le counts =
    let (c, fits, answer) = pmalloc-Answer pages s pos le in go c fits answer
  where
    go : (c : ℕ) → FitsBest pages c → {r : ℕ × Pmm} → Answer c pages s r → IsCounted r.1
    go c fits (served i j found eq) =
        let wide : 2 ^ c ≤ 2 ^ i = pow_mono c i (omega (arith, found.from_le)) in
        subst (λ (x : ℕ × Pmm). IsCounted x.1) (sym eq)
          (take_block-IsCounted pages i j s found.level pos (omega (arith, fits.enough))
            (no_split pages i j s sd found.level found.within found.free) counts)
    go c fits (full none_free eq) = subst (λ (x : ℕ × Pmm). IsCounted x.1) (sym eq) counts
