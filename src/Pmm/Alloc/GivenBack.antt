-- ===== src/Pmm/Alloc/GivenBack.antt =====
-- Which pages the blocks that `pmmPropagateDown` of kernel/mm/pmm/pmm.c frees cover.
use angl_os.Base.{
  ℕ, zero, suc, ◌-◌, ◌*◌, ◌/◌, ◌^◌, ◌≤◌, ◌<◌, ◌≡◌, inl, inr, ap, ◌∙◌, false, arith, leb, ◌==◌,
  Bool-cases, ==_iff, leb→le,
}
use angl_os.Pmm.{Pmm, is_free, l_child, r_child}
use angl_os.Pmm.Layout.{Layout}
use angl_os.Pmm.Alloc.{propagate_down}
use angl_os.Pmm.Alloc.Search.{blocks}
use native.Mathlib.Nat.{pow-suc}
use native.Mathlib.Decide.{ℕ_discrete}
use angl_os.Pmm.Alloc.Framed.{children_within, within_below, block_ends, halves_cases}
use angl_os.Pmm.Alloc.Outside.{
  propagate_down_left, propagate_down_right, propagate_down_whole, Outside, propagate_down-Outside,
}
use angl_os.Pmm.Alloc.Halves.{NotBelow, GivenBack, GivenBack-left_half, GivenBack-right_half}

-- The other branch keeps the left half and gives the right half back in part.
GivenBack-rest :
    (pages l i p : ℕ) (s : Pmm)
    → Layout s
    → l < 6
    → i < blocks (suc l) s
    → p / 2 ^ suc l ≡ i
    → 2 ^ l < pages
    → NotBelow (suc l) p s
    → (p / 2 ^ l ≡ r_child i
        → GivenBack
            (r_child i * 2 ^ l)
            (pages - 2 ^ l)
            l
            p
            (propagate_down (pages - 2 ^ l) l (r_child i) s))
    → GivenBack (i * 2 ^ suc l) pages (suc l) p (propagate_down (pages - 2 ^ l) l (r_child i) s)
GivenBack-rest pages l i p s lay hl hi e more clear ih = elim (halves_cases p l i e) [
  | inl at_left ↦
      let none_below : NotBelow (suc l) p t =
        λ m below. same m below (inr (omega arith)) ∙ clear m below in
      record {
        behind = λ le. absurd (omega (arith, start, block_ends p l (l_child i) at_left));
        front = λ lt. none_below;
        once = λ m n lt below free. none_below n below;
      }
  | inr at_right ↦
      let sub = ih at_right in
      let top : is_free l (p / 2 ^ l) t ≡ false =
        same l (omega arith) (inl (omega arith)) ∙ clear l (omega arith) in
      record {
        behind =
            λ le. let (m, lt, free) = sub.behind (omega (arith, start)) in (m, omega arith, free);
        front = λ lt m below. elim (ℕ_discrete m l) [
          | yes e' ↦ rw e' top
          | no ne ↦ sub.front (omega (arith, start)) m (omega arith)
        ];
        once = λ m n lt below free. elim (ℕ_discrete n l) [
          | yes e' ↦ rw e' top
          | no ne ↦ sub.once m n lt (omega arith) free
        ];
      }
]
  where
    t : Pmm
    t = propagate_down (pages - 2 ^ l) l (r_child i) s

    start : i * 2 ^ suc l ≡ l_child i * 2 ^ l
    start = omega (arith, ap (λ (t : ℕ). i * t) (pow-suc 2 l))

    same :
        (m : ℕ)
        → m < suc l
        → Outside l (r_child i) p m
        → is_free m (p / 2 ^ m) t ≡ is_free m (p / 2 ^ m) s
    same m below out =
        propagate_down-Outside (pages - 2 ^ l) l (r_child i) s p m lay (omega arith)
          (children_within l i s lay hl hi) (omega arith)
          (within_below (suc l) p m s lay (omega arith) (rw e hi) (omega arith)) out

-- For at least one page and no more than the block has, of a block that is there and holds no free
-- block, `pmmPropagateDown` gives exactly the pages behind the first `pages` pages of its block back:
-- each of those lies in exactly one free block below the level at hand, and the first `pages`
-- pages lie in none.
pub propagate_down-GivenBack :
    (pages level index : ℕ) (s : Pmm) (p : ℕ)
    → Layout s
    → level < 7
    → index < blocks level s
    → 0 < pages
    → pages ≤ 2 ^ level
    → p / 2 ^ level ≡ index
    → NotBelow level p s
    → GivenBack (index * 2 ^ level) pages level p (propagate_down pages level index s)
propagate_down-GivenBack pages zero index s p lay hl hi pos le e clear = record {
  behind = λ far. absurd (omega arith);
  front = λ lt m below. absurd (omega arith);
  once = λ m n lt below free. absurd (omega arith);
}
propagate_down-GivenBack pages (suc l) i s p lay hl hi pos le e clear =
    elim (Bool-cases (pages == 2 ^ suc l)) [
      | inl whole ↦
          let all : pages ≡ 2 ^ suc l = (==_iff _ _).0 whole in
          rw (propagate_down_whole pages l i s whole) (record {
            behind = λ far. absurd (omega (arith, block_ends p (suc l) i e));
            front = λ lt. clear;
            once = λ m n lt below free. clear n below;
          })
      | inr part ↦ elim (Bool-cases (leb pages (2 ^ l))) [
        | inl left ↦ rw (propagate_down_left pages l i s part left) (elim (halves_cases p l i e) [
          | inl at_left ↦ GivenBack-left_half pages l i p s lay (omega arith) hi e at_left clear (
              propagate_down-GivenBack pages l (l_child i) s p lay (omega arith)
                (omega (arith, children_within l i s lay (omega arith) hi)) pos (leb→le _ _ left)
                at_left (λ m below. clear m (omega arith)))
          | inr at_right ↦
              GivenBack-right_half pages l i p s lay (omega arith) hi e at_right (leb→le _ _ left)
                clear
        ])
        | inr right ↦
            let more : 2 ^ l < pages = ground arith in
            rw (propagate_down_right pages l i s part right) (
              GivenBack-rest pages l i p s lay (omega arith) hi e more clear λ at_right.
                propagate_down-GivenBack (pages - 2 ^ l) l (r_child i) s p lay (omega arith)
                  (children_within l i s lay (omega arith) hi) (omega arith)
                  (omega (arith, pow-suc 2 l)) at_right (λ m below. clear m (omega arith)))
      ]
    ]
