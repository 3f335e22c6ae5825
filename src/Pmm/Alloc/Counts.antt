-- ===== src/Pmm/Alloc/Counts.antt =====
-- The counters of kernel/mm/pmm/pmm.c: `free_mem` beside the size of the blocks that the seven
-- counters `bitmaps[i].free` count, modulo `2 ^ 64`.
pub mod Kept
use angl_os.Base.{
  ℕ, zero, suc, ◌+◌, ◌-◌, ◌*◌, ◌/◌, ◌%◌, ◌^◌, ◌≤◌, ◌<◌, ◌≡◌, refl, inl, inr, ap, ◌∙◌, Bool, false,
  not, ◌&&◌, ◌||◌, sub64, u64, arith, leb, ◌==◌, if◌then◌else◌, Bool-cases, ==_iff, leb→le,
  pow_mono, if_keeps, for_up_keeps,
}
use angl_os.Pmm.{
  Pmm, page_size, num_bitmaps, mark_used, mark_free, is_free, count_up, count_down, set_count,
  l_child, r_child, parent,
}
use angl_os.Pmm.Alloc.{
  propagate_down, take_block, merge_pair, merge_level, coalesce, free_pages, pfree,
}
use angl_os.Pmm.Alloc.Frame.{
  propagate_down_free_mem, coalesce_free_mem, free_pages_free_mem, used_free_mem, count_free_mem,
}
use native.Mathlib.Nat.{pow-suc}
use native.Mathlib.Numerals.{add-one}

-- the pages that the counters count, not reduced
unfoldable pub counted : Pmm → ℕ
counted s =
    (s.bitmaps 0).free
    + (s.bitmaps 1).free * 2
    + (s.bitmaps 2).free * 4
    + (s.bitmaps 3).free * 8
    + (s.bitmaps 4).free * 16
    + (s.bitmaps 5).free * 32
    + (s.bitmaps 6).free * 64

-- `free_mem` agrees with the counters.
abbrev pub IsCounted : Pmm → Type 0
IsCounted s = u64 (counted s * page_size) ≡ u64 s.free_mem

pub counted-mark_free : (i j : ℕ) (s : Pmm) → counted (mark_free i j s) ≡ counted s
unfolding counted mark_free
counted-mark_free i j s = refl

pub counted-mark_used : (i j : ℕ) (s : Pmm) → counted (mark_used i j s) ≡ counted s
unfolding counted mark_used
counted-mark_used i j s = refl

-- A change of one counter changes the count by the size of its blocks.
counted-set_count :
    (i v : ℕ) (s : Pmm)
    → i < 7
    → counted (set_count i v s) + (s.bitmaps i).free * 2 ^ i ≡ counted s + v * 2 ^ i
unfolding counted set_count
counted-set_count zero v s h = omega arith
counted-set_count (suc zero) v s h = omega arith
counted-set_count (suc (suc zero)) v s h = omega arith
counted-set_count (suc (suc (suc zero))) v s h = omega arith
counted-set_count (suc (suc (suc (suc zero)))) v s h = omega arith
counted-set_count (suc (suc (suc (suc (suc zero))))) v s h = omega arith
counted-set_count (suc (suc (suc (suc (suc (suc zero)))))) v s h = omega arith
counted-set_count (suc (suc (suc (suc (suc (suc (suc i))))))) v s h = absurd (omega arith)

pub counted-count_up :
    (i : ℕ) (s : Pmm) → i < 7 → u64 (counted (count_up i s)) ≡ u64 (counted s + 2 ^ i)
unfolding counted set_count
counted-count_up zero s h = omega arith
counted-count_up (suc zero) s h = omega arith
counted-count_up (suc (suc zero)) s h = omega arith
counted-count_up (suc (suc (suc zero))) s h = omega arith
counted-count_up (suc (suc (suc (suc zero)))) s h = omega arith
counted-count_up (suc (suc (suc (suc (suc zero))))) s h = omega arith
counted-count_up (suc (suc (suc (suc (suc (suc zero)))))) s h = omega arith
counted-count_up (suc (suc (suc (suc (suc (suc (suc i))))))) s h = absurd (omega arith)

-- Lowering a counter by `k` takes `k` blocks off.
pub counted_less :
    (i k : ℕ) (s : Pmm)
    → i < 7
    → k < 2 ^ 64
    → u64 (counted (set_count i (sub64 (s.bitmaps i).free k) s) + k * 2 ^ i) ≡ u64 (counted s)
unfolding counted set_count
counted_less zero k s h small = omega arith
counted_less (suc zero) k s h small = omega arith
counted_less (suc (suc zero)) k s h small = omega arith
counted_less (suc (suc (suc zero))) k s h small = omega arith
counted_less (suc (suc (suc (suc zero)))) k s h small = omega arith
counted_less (suc (suc (suc (suc (suc zero))))) k s h small = omega arith
counted_less (suc (suc (suc (suc (suc (suc zero)))))) k s h small = omega arith
counted_less (suc (suc (suc (suc (suc (suc (suc i))))))) k s h small = absurd (omega arith)

-- `pmmPropagateDown` counts exactly the pages behind the first `pages` as free again.
pub counted-propagate_down :
    (pages level index : ℕ) (s : Pmm)
    → level < 7
    → 0 < pages
    → pages ≤ 2 ^ level
    → u64 (counted (propagate_down pages level index s) + pages) ≡ u64 (counted s + 2 ^ level)
unfolding propagate_down
counted-propagate_down pages zero index s h pos le = omega arith
counted-propagate_down pages (suc level) index s h pos le =
    elim (Bool-cases (pages == 2 ^ suc level)) [
      | inl whole ↦ rw whole (let e : pages ≡ 2 ^ suc level = (==_iff _ _).0 whole in rw e)
      | inr part ↦ elim (Bool-cases (leb pages (2 ^ level))) [
        | inl left ↦
            rw (part, left)
              (omega (
                arith,
                counted-count_up level
                    (mark_free level (r_child index) (propagate_down pages level (l_child index) s))
                    (omega arith),
                counted-mark_free level (r_child index)
                    (propagate_down pages level (l_child index) s),
                counted-propagate_down pages level (l_child index) s (omega arith) pos
                    (leb→le _ _ left),
                pow-suc 2 level,
              ))
        | inr right ↦
            rw (part, right)
              (let more : 2 ^ level < pages = ground arith in
                omega (
                  arith,
                  counted-propagate_down (pages - 2 ^ level) level (r_child index) s (omega arith)
                      (omega arith) (omega (arith, pow-suc 2 level)),
                  pow-suc 2 level,
                ))
      ]
    ]
