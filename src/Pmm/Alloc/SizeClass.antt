-- ===== src/Pmm/Alloc/SizeClass.antt =====
-- Which level `pmalloc` searches first: kernel/mm/pmm/pmm.c rounds the request up to a power of
-- two by clearing low bits, and counts shifts.
use angl_os.Base.{
  ℕ, zero, suc, ◌+◌, ◌-◌, ◌/◌, ◌%◌, ◌^◌, ◌≤◌, ◌<◌, ◌≡◌, refl, ap, ◌∙◌, true, false, some, bit_and,
  sub64, u64, arith, ltb, ◌==◌, ==_ne, pow_mono,
}
use angl_os.Base.Bits.Step.{bit_and_step, bit_and_self}
use angl_os.Base.Bits.Fields.{bit_and_mask}
use angl_os.Pmm.{Pmm}
use angl_os.Pmm.Alloc.{keep_highest, count_shifts, rounded, size_class, pmalloc}
use native.Mathlib.Nat.{pow-suc, one-le-pow}
use native.Mathlib.Decide.{dec_lt, ℕ_discrete}

-- Between two powers of two, clearing the lowest one bit stays above the lower power.
drop_lowest_bounds :
    (k n : ℕ) → 2 ^ k < n → n < 2 ^ suc k → (2 ^ k ≤ bit_and n (n - 1)) × (bit_and n (n - 1) < n)
drop_lowest_bounds zero n lo hi = absurd (omega arith)
drop_lowest_bounds (suc k) n lo hi = elim (ℕ_discrete (n % 2) 0) [
  | yes even ↦
      let ih =
        drop_lowest_bounds k (n / 2) (omega (arith, pow-suc 2 k))
          (omega (arith, pow-suc 2 k, pow-suc 2 (suc k))) in
      let half : (n - 1) / 2 ≡ n / 2 - 1 = omega arith in
      let step = bit_and_step n (n - 1) in
      let step' = rw half at step in omega (arith, ih, step', pow-suc 2 k)
  | no odd ↦
      let half : (n - 1) / 2 ≡ n / 2 = omega arith in
      let step = bit_and_step n (n - 1) in
      let step' = rw half at step in omega (arith, step', bit_and_self (n / 2))
]

drop_lowest-pow : (k : ℕ) → bit_and (2 ^ k) (2 ^ k - 1) ≡ 0
drop_lowest-pow k = bit_and_mask k (2 ^ k) ∙ grind (arith, one-le-pow k 2)

keep_highest-pow :
    (fuel n k : ℕ) → n ≤ fuel → n < 2 ^ 64 → 2 ^ k ≤ n → n < 2 ^ suc k → keep_highest fuel n ≡ 2 ^ k
unfolding keep_highest
keep_highest-pow zero n k enough word lo hi = absurd (omega (arith, one-le-pow k 2))
keep_highest-pow (suc fuel) n k enough word lo hi = elim (ℕ_discrete n (2 ^ k)) [
  | yes e ↦ let cleared : bit_and n (n - 1) ≡ 0 = rw e (drop_lowest-pow k) in rw (back, cleared) e
  | no ne ↦
      let (above, below) = drop_lowest_bounds k n (omega arith) hi in
      let more : (bit_and n (n - 1) == 0) ≡ false = ==_ne _ 0 (omega (arith, one-le-pow k 2)) in
      rw (back, more)
        (keep_highest-pow fuel (bit_and n (n - 1)) k (omega arith) (omega arith) above
          (omega arith))
]
  where
    back : sub64 n 1 ≡ n - 1
    back = omega (arith, one-le-pow k 2)

-- A power of two is shifted to one in as many rounds as its exponent.
count_shifts-pow : (fuel k index : ℕ) → 2 ^ k ≤ fuel → count_shifts fuel (2 ^ k) index ≡ index + k
unfolding count_shifts
count_shifts-pow zero k index enough = absurd (omega (arith, one-le-pow k 2))
count_shifts-pow (suc fuel) zero index enough = omega arith
count_shifts-pow (suc fuel) (suc k) index enough =
    let half : 2 ^ suc k / 2 ≡ 2 ^ k = omega (arith, pow-suc 2 k) in
    let more : (2 ^ k == 0) ≡ false = ==_ne _ 0 (omega (arith, one-le-pow k 2)) in
    rw (half, more)
      (count_shifts-pow fuel k (index + 1) (omega (arith, pow-suc 2 k, one-le-pow k 2))
        ∙ omega arith)

-- The exponent of the highest one bit.
highest_bit : (m n : ℕ) → 0 < n → n < 2 ^ m → (k : ℕ) × (k < m) × (2 ^ k ≤ n) × (n < 2 ^ suc k)
highest_bit zero n pos small = absurd (omega arith)
highest_bit (suc m) n pos small = elim (dec_lt n (2 ^ m)) [
  | yes below ↦ let (k, lt, lo, hi) = highest_bit m n pos below in (k, omega arith, lo, hi)
  | no above ↦ (m, omega arith, omega arith, small)
]

-- The rounded request is the power of two above `pages - 1`, in 64 bits.
rounded-pow :
    (pages k : ℕ)
    → pages < 2 ^ 64
    → 2 ^ k ≤ pages - 1
    → pages - 1 < 2 ^ suc k
    → rounded pages ≡ u64 (2 ^ suc k)
unfolding rounded
rounded-pow pages k word lo hi =
    let e = keep_highest-pow (pages - 1) (pages - 1) k (omega arith) (omega arith) lo hi in
    rw e (ap (λ t. u64 t) (omega (arith, pow-suc 2 k)))

-- A level `c` fits a request of `pages` pages best.
pub record FitsBest (pages c : ℕ) : Type 0 where
  pub level : c < 7
  pub enough : pages ≤ 2 ^ c
  pub least : (m : ℕ) → m < c → 2 ^ m < pages

size_class-pow :
    (pages k : ℕ)
    → k < 6
    → 2 ^ k ≤ pages - 1
    → pages - 1 < 2 ^ suc k
    → pages ≤ 64
    → size_class pages ≡ some (suc k)
unfolding size_class
size_class-pow pages k small lo hi le =
    let bound : 2 ^ suc k ≤ 2 ^ 6 = pow_mono (suc k) 6 (omega arith) in
    let e : rounded pages ≡ 2 ^ suc k = rounded-pow pages k (omega arith) lo hi ∙ omega arith in
    let fits : ltb 64 (2 ^ suc k) ≡ false = ground arith in
    rw (e, fits) (ap some (count_shifts-pow (2 ^ suc k) (suc k) 0 (omega arith) ∙ omega arith))

-- For a request of 1 to 64 pages, `pmalloc` starts at the lowest level whose blocks hold it.
pub size_class-FitsBest :
    (pages : ℕ) → 0 < pages → pages ≤ 64 → (c : ℕ) × (size_class pages ≡ some c) × FitsBest pages c
unfolding size_class rounded keep_highest count_shifts
size_class-FitsBest pages pos le = elim (ℕ_discrete pages 1) [
  | yes one ↦ (
    0,
    rw one refl,
    record { level = omega arith; enough = omega arith; least = λ m h. elim h [ ] },
  )
  | no more ↦
      let (k, small, lo, hi) = highest_bit 6 (pages - 1) (omega arith) (omega arith) in
      (
        suc k,
        size_class-pow pages k small lo hi le,
        record {
          level = omega arith;
          enough = omega arith;
          least = λ m h. let le' : 2 ^ m ≤ 2 ^ k = pow_mono m k (omega arith) in omega arith;
        },
      )
]

-- A request of more than 64 and at most `2 ^ 63` pages is refused: `NULL`, and nothing changes.
pub pmalloc_refuses : (pages : ℕ) (s : Pmm) → 64 < pages → pages ≤ 2 ^ 63 → pmalloc pages s ≡ (0, s)
unfolding pmalloc size_class
pmalloc_refuses pages s large word =
    let (k, small, lo, hi) = highest_bit 63 (pages - 1) (omega arith) (omega arith) in
    let six : 2 ^ 6 < 2 ^ suc k = omega arith in
    let top : 2 ^ suc k ≤ 2 ^ 63 = pow_mono (suc k) 63 (omega arith) in
    let e : rounded pages ≡ 2 ^ suc k = rounded-pow pages k (omega arith) lo hi ∙ omega arith in
    let some_pages : (pages == 0) ≡ false = ground arith in
    let over : ltb 64 (2 ^ suc k) ≡ true = ground arith in rw (some_pages, e, over)

-- The search for more than `2 ^ 63` pages starts at level 0: the shift that rounds the request up
-- leaves 64 bits.
pub size_class_wraps : (pages : ℕ) → 2 ^ 63 < pages → pages < 2 ^ 64 → size_class pages ≡ some 0
unfolding size_class
size_class_wraps pages large word =
    let e : rounded pages ≡ 0 =
      rounded-pow pages 63 word (omega arith) (omega arith) ∙ omega arith in
    rw e (unfold count_shifts in refl)
