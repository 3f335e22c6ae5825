-- ===== src/Pmm/Alloc/Halves.antt =====
-- `pmmPropagateDown` of kernel/mm/pmm/pmm.c page by page, where it frees the right half of its
-- block.
use angl_os.Base.{
  ℕ, suc, ◌+◌, ◌*◌, ◌/◌, ◌^◌, ◌≤◌, ◌<◌, ◌≡◌, ◌≢◌, ◌⊎◌, inl, inr, ap, ◌∙◌, sym, true, false, arith,
  if◌then◌else◌, Bool-cases,
}
use angl_os.Pmm.{Pmm, is_free, count_up, l_child, r_child}
use angl_os.Pmm.Layout.{Layout, same_block, is_free-mark_free, is_free-set_count}
use angl_os.Pmm.Alloc.Search.{blocks}
use native.Mathlib.Nat.{pow-suc}
use mathlib.Core.Bool.{false≢true}
use native.Mathlib.Decide.{ℕ_discrete}
use angl_os.Pmm.Alloc.Framed.{
  Framed-refl, propagate_down-Framed, children_within, within_below, block_ends,
}
use angl_os.Pmm.Alloc.Outside.{left_done, left_freed, propagate_down-Outside}

-- Page `p` is covered by a free block below level `level`.
abbrev pub FreeBelow : ℕ → ℕ → Pmm → Type 0
FreeBelow level p t = (m : ℕ) × (m < level) × (is_free m (p / 2 ^ m) t ≡ true)

abbrev pub NotBelow : ℕ → ℕ → Pmm → Type 0
NotBelow level p t = (m : ℕ) → m < level → is_free m (p / 2 ^ m) t ≡ false

-- What becomes of page `p` of a block of level `level` from page `start` on, when all but its
-- first `pages` pages are given back.
pub record GivenBack (start pages level p : ℕ) (t : Pmm) : Type 0 where
  pub behind : start + pages ≤ p → FreeBelow level p t
  pub front : p < start + pages → NotBelow level p t
  pub once :
      (m n : ℕ)
      → m < n
      → n < level
      → is_free m (p / 2 ^ m) t ≡ true
      → is_free n (p / 2 ^ n) t ≡ false

-- The branch that frees the right half and gives the left half back in part.
module _ (pages l i p : ℕ) (s : Pmm) (lay : Layout s) (hl : l < 6) (hi : i < blocks (suc l) s)
    (e : p / 2 ^ suc l ≡ i) where
  abbrev pub left_result : Pmm
  left_result = count_up l (left_freed pages l i s)

  left_result-eq :
      (m : ℕ)
      → m ≤ l
      → is_free m (p / 2 ^ m) left_result ≡ (
          if same_block l (r_child i) m (p / 2 ^ m)
          then true
          else is_free m (p / 2 ^ m) (left_done pages l i s))
  left_result-eq m le =
      let done = propagate_down-Framed s pages l (l_child i) s (Framed-refl s lay) in
      let inside = children_within l i s lay hl hi in
      let up : p / 2 ^ suc l < blocks (suc l) s = rw e hi in
      let here = within_below (suc l) p m s lay (omega arith) up (omega arith) in
      rw is_free-set_count (
        is_free-mark_free l (r_child i) m (p / 2 ^ m) (left_done pages l i s) done.layout
          (omega arith) (omega arith) (rw done.sizes inside) (rw done.sizes here))

  -- A block below the two halves, or the left half, reads as before the right half was freed.
  left_result_below :
      (m : ℕ)
      → m ≤ l
      → (m ≢ l) ⊎ (p / 2 ^ l ≡ l_child i)
      → is_free m (p / 2 ^ m) left_result ≡ is_free m (p / 2 ^ m) (left_done pages l i s)
  left_result_below m le other = elim (Bool-cases (same_block l (r_child i) m (p / 2 ^ m))) [
    | inr apart ↦ left_result-eq m le ∙ rw apart
    | inl same ↦
        let level : l ≡ m = ground arith in
        let block : r_child i ≡ p / 2 ^ m = ground arith in
        let block' : p / 2 ^ l ≡ r_child i = ap (λ n. p / 2 ^ n) level ∙ sym block in
        absurd (omega (arith, level, block'))
  ]

  left_done_top :
      p / 2 ^ l ≡ l_child i → NotBelow (suc l) p s → is_free l (p / 2 ^ l) left_result ≡ false
  left_done_top at_left clear =
      let up : p / 2 ^ suc l < blocks (suc l) s = rw e hi in
      let here = within_below (suc l) p l s lay (omega arith) up (omega arith) in
      left_result_below l (omega arith) (inr at_left)
      ∙ propagate_down-Outside pages l (l_child i) s p l lay (omega arith)
          (omega (arith, children_within l i s lay hl hi)) (omega arith) here (inl (omega arith))
      ∙ clear l (omega arith)

  start_left : i * 2 ^ suc l ≡ l_child i * 2 ^ l
  start_left = omega (arith, ap (λ (t : ℕ). i * t) (pow-suc 2 l))

  pub GivenBack-left_half :
      p / 2 ^ l ≡ l_child i
      → NotBelow (suc l) p s
      → GivenBack (l_child i * 2 ^ l) pages l p (left_done pages l i s)
      → GivenBack (i * 2 ^ suc l) pages (suc l) p left_result
  GivenBack-left_half at_left clear ih = record {
    behind = λ le.
        let (m, lt, free) = ih.behind (omega (arith, start_left)) in
        (m, omega arith, left_result_below m (omega arith) (inr at_left) ∙ free);
    front = λ lt m below. elim (ℕ_discrete m l) [
      | yes top ↦ rw top (left_done_top at_left clear)
      | no ne ↦
          left_result_below m (omega arith) (inr at_left)
          ∙ ih.front (omega (arith, start_left)) m (omega arith)
    ];
    once = λ m n lt below free. elim (ℕ_discrete n l) [
      | yes top ↦ rw top (left_done_top at_left clear)
      | no ne ↦
          left_result_below n (omega arith) (inr at_left)
          ∙ ih.once m n lt (omega arith)
              (sym (left_result_below m (omega arith) (inr at_left)) ∙ free)
    ];
  }

  right_half_below :
      p / 2 ^ l ≡ r_child i
      → NotBelow (suc l) p s
      → (m : ℕ) → m < l
      → is_free m (p / 2 ^ m) left_result ≡ false
  right_half_below at_right clear m lt =
      let up : p / 2 ^ suc l < blocks (suc l) s = rw e hi in
      let here = within_below (suc l) p m s lay (omega arith) up (omega arith) in
      left_result_below m (omega arith) (inl (omega arith))
      ∙ propagate_down-Outside pages l (l_child i) s p m lay (omega arith)
          (omega (arith, children_within l i s lay hl hi)) (omega arith) here (inr (omega arith))
      ∙ clear m (omega arith)

  right_half_free : p / 2 ^ l ≡ r_child i → is_free l (p / 2 ^ l) left_result ≡ true
  right_half_free at_right =
      let same : same_block l (r_child i) l (p / 2 ^ l) ≡ true = ground arith in
      left_result-eq l (omega arith) ∙ rw same

  pub GivenBack-right_half :
      p / 2 ^ l ≡ r_child i
      → pages ≤ 2 ^ l
      → NotBelow (suc l) p s
      → GivenBack (i * 2 ^ suc l) pages (suc l) p left_result
  GivenBack-right_half at_right le clear = record {
    behind = λ _. (l, omega arith, right_half_free at_right);
    front = λ lt. absurd (omega (arith, start_left, block_ends p l (r_child i) at_right));
    once = λ m n lt below free.
        let no_free = right_half_below at_right clear m (omega arith) in
        absurd (false≢true (sym no_free ∙ free));
  }
