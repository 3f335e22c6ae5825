-- ===== src/Pmm/Alloc/Tests.antt =====
-- The page allocator of kernel/mm/pmm/pmm.c on 512 pages, of which the first 64 are in use.
use angl_os.Base.{
  ℕ, ◌+◌, ◌-◌, ◌*◌, ◌/◌, ◌^◌, ◌≤◌, ◌<◌, ◌≡◌, refl, sym, ◌∙◌, Bool, false, true, not, ◌||◌, [],
  arith, ◌==◌, ltb, leb, if◌then◌else◌, all_below, all_below_sound, lt→ltb, leb→le, ==_iff,
}
use angl_os.Pmm.{
  Pmm, page_size, is_free, check_bit, mark_used, mark_free, set_count, set_bit, clear_bit,
}
use angl_os.Pmm.Layout.{Layout}
use angl_os.Pmm.Alloc.{
  coalesce, pmalloc, pfree, size_class, rounded, keep_highest, count_shifts, find_block,
  find_in_level, take_block, propagate_down,
}
use angl_os.Pmm.Alloc.SizeClass.{FitsBest, pmalloc_refuses}
use angl_os.Pmm.Alloc.Counts.{IsCounted, counted}
use angl_os.Pmm.Alloc.Sound.{IsSound, PageFree}
use angl_os.Pmm.Alloc.Search.{Answer, pmalloc-Answer, pmalloc_wraps}
use angl_os.Pmm.Alloc.Merge.{SamePages}
use angl_os.Pmm.Alloc.Malloc.{Outcome, pmalloc-Outcome, pmalloc-IsCounted}
use angl_os.Pmm.Alloc.Free.{Gave, pfree-Gave}
use angl_os.Pmm.Alloc.Taken.{take_block-Took}
use angl_os.Pmm.Alloc.Sound.{Took}
use angl_os.Pmm.Alloc.Halves.{GivenBack}
use angl_os.Pmm.Alloc.GivenBack.{propagate_down-GivenBack}
use angl_os.Pmm.Alloc.Coalesce.{coalesce-SamePages}
use mathlib.Core.Bool.{false≢true}
use angl_os.Pmm.Alloc.RoundTrip.{pfree-pmalloc}

-- bitmaps of 64, 32, … 1 bytes from address 0 on; blocks 1 to 7 of the top level are free
abbrev fresh : Pmm
fresh = record {
  memory = λ a. if a == 126 then 0x01 else 0xff;
  bitmaps =
      λ l. record { base = 128 - 2 ^ (7 - l); free = if l == 6 then 7 else 0; size = 64 / 2 ^ l };
  entries = [];
  mem_size = 512 * 4096;
  bitmap_size = 127;
  bitmap_base = 0;
  free_mem = 7 * 64 * 4096;
}

abbrev apart_at : ℕ → ℕ → Bool
apart_at l m =
    not (ltb l m) || leb ((fresh.bitmaps l).base + (fresh.bitmaps l).size) (fresh.bitmaps m).base

apart_table : all_below 7 (λ l. all_below 7 (λ m. apart_at l m)) ≡ true
unfolding all_below
apart_table = refl

halves_table : all_below 6 (λ l. 2 * (fresh.bitmaps (l + 1)).size == (fresh.bitmaps l).size) ≡ true
unfolding all_below
halves_table = refl

fresh-Layout : Layout fresh
fresh-Layout = record {
  byte = λ a. ground arith;
  apart = λ l m lt hm.
      let t = all_below_sound 7 _ m (all_below_sound 7 _ l apart_table (omega arith)) hm in
      leb→le _ _ (let lt' = lt→ltb l m lt in ground arith);
  halves = λ l hl. (==_iff _ _).0 (all_below_sound 6 _ l halves_table hl);
}

-- only blocks of the top level are free
low_used : all_below 512 (λ p. all_below 6 (λ m. not (is_free m (p / 2 ^ m) fresh))) ≡ true
unfolding all_below is_free check_bit
low_used = refl

first_used : all_below 64 (λ p. all_below 7 (λ m. not (is_free m (p / 2 ^ m) fresh))) ≡ true
unfolding all_below is_free check_bit
first_used = refl

not-true : (b : Bool) → not b ≡ true → b ≡ false
not-true b h = ground arith

fresh_below_six : (p m : ℕ) → p < 512 → m < 6 → is_free m (p / 2 ^ m) fresh ≡ false
fresh_below_six p m hp hm =
    not-true _ (all_below_sound 6 _ m (all_below_sound 512 _ p low_used hp) hm)

fresh_first : (p m : ℕ) → p < 64 → m < 7 → is_free m (p / 2 ^ m) fresh ≡ false
fresh_first p m hp hm = not-true _ (all_below_sound 7 _ m (all_below_sound 64 _ p first_used hp) hm)

fresh-IsSound : IsSound fresh
fresh-IsSound = record {
  layout = fresh-Layout;
  once = λ p m n hp lt hn free.
      absurd (false≢true (sym (fresh_below_six p m hp (omega arith)) ∙ free));
}

fresh-IsCounted : IsCounted fresh
unfolding counted
fresh-IsCounted = refl

top_free : is_free 6 1 fresh ≡ true
unfolding is_free check_bit
top_free = refl

-- five pages
five_at : (pmalloc 5 fresh).0 ≡ 0x40000
unfolding pmalloc size_class rounded keep_highest count_shifts find_block find_in_level is_free
    check_bit
five_at = refl

five_left : (pmalloc 5 fresh).1.free_mem ≡ (7 * 64 - 5) * 4096
unfolding pmalloc size_class rounded keep_highest count_shifts find_block find_in_level is_free
    check_bit take_block propagate_down mark_used mark_free set_count
five_left = refl

five_split : is_free 3 9 (pmalloc 5 fresh).1 ≡ true
unfolding pmalloc size_class rounded keep_highest count_shifts find_block find_in_level is_free
    check_bit take_block propagate_down mark_used mark_free set_count set_bit clear_bit
five_split = refl

pmalloc-Outcome_example : Outcome 5 fresh (pmalloc 5 fresh)
pmalloc-Outcome_example = pmalloc-Outcome 5 fresh fresh-IsSound (omega arith) (omega arith)

pfree-pmalloc_example : SamePages fresh (pfree (pmalloc 5 fresh).0 5 (pmalloc 5 fresh).1)
pfree-pmalloc_example =
    pfree-pmalloc 5 fresh fresh-IsSound (omega arith) (omega arith) (omega arith)
      (omega (arith, five_at))

in_use : (p : ℕ) → 40 ≤ p → p < 40 + 3 → ¬ (PageFree p fresh)
in_use p lo hi (m, hm, free) = false≢true (sym (fresh_first p m (omega arith) hm) ∙ free)

pfree-Gave_example : Gave 40 3 fresh (pfree (40 * page_size) 3 fresh)
pfree-Gave_example =
    pfree-Gave 40 3 fresh fresh-IsSound (omega arith) (omega arith) (omega arith) (omega arith)
      in_use

coalesce-SamePages_example : SamePages fresh (coalesce 5 6 0 41 fresh)
coalesce-SamePages_example =
    coalesce-SamePages 5 6 0 41 fresh fresh-IsSound refl (omega arith) (omega arith)

take_block-Took_example : Took 64 5 fresh (take_block 5 6 1 fresh)
take_block-Took_example =
    take_block-Took 5 6 1 fresh fresh-IsSound (omega arith) (omega arith) top_free (omega arith)
      (omega arith)

propagate_down-GivenBack_example : GivenBack 64 5 6 100 (propagate_down 5 6 1 fresh)
propagate_down-GivenBack_example =
    propagate_down-GivenBack 5 6 1 fresh 100 fresh-Layout (omega arith) (omega arith) (omega arith)
      (omega arith) refl (λ m below. fresh_below_six 100 m (omega arith) below)

pmalloc-Answer_example : (c : ℕ) × FitsBest 5 c × Answer c 5 fresh (pmalloc 5 fresh)
pmalloc-Answer_example = pmalloc-Answer 5 fresh (omega arith) (omega arith)

pmalloc_refuses_example : pmalloc 65 fresh ≡ (0, fresh)
pmalloc_refuses_example = pmalloc_refuses 65 fresh (omega arith) (omega arith)

pmalloc_wraps_example : Answer 0 (2 ^ 63 + 1) fresh (pmalloc (2 ^ 63 + 1) fresh)
pmalloc_wraps_example = pmalloc_wraps (2 ^ 63 + 1) fresh (omega arith) (omega arith)

pmalloc-IsCounted_example : IsCounted (pmalloc 5 fresh).1
pmalloc-IsCounted_example =
    pmalloc-IsCounted 5 fresh fresh-IsSound (omega arith) (omega arith) fresh-IsCounted
