-- ===== src/Pmm/Alloc/Outside.antt =====
-- `pmmPropagateDown` of kernel/mm/pmm/pmm.c and the blocks outside the one that it is given.
use angl_os.Base.{
  ℕ, zero, suc, ◌-◌, ◌/◌, ◌^◌, ◌≤◌, ◌<◌, ◌≡◌, ◌≢◌, refl, ◌⊎◌, inl, inr, ap, ◌∙◌, sym, true, false,
  arith, leb, ◌==◌, Bool-cases,
}
use angl_os.Pmm.{Pmm, mark_free, is_free, count_up, l_child, r_child}
use angl_os.Pmm.Layout.{Layout, same_block, is_free-mark_free, is_free-set_count}
use angl_os.Pmm.Alloc.{propagate_down}
use angl_os.Pmm.Alloc.Search.{blocks}
use angl_os.Pmm.Alloc.Framed.{Framed-refl, propagate_down-Framed, div_pow_suc, children_within}

-- what `propagate_down` does on its two branches
module _ (pages l i : ℕ) (s : Pmm) where
  abbrev pub left_done : Pmm
  left_done = propagate_down pages l (l_child i) s

  abbrev pub left_freed : Pmm
  left_freed = mark_free l (r_child i) left_done

  pub propagate_down_left :
      (pages == 2 ^ suc l) ≡ false
      → leb pages (2 ^ l) ≡ true
      → propagate_down pages (suc l) i s ≡ count_up l left_freed
  unfolding propagate_down
  propagate_down_left part left = rw (part, left)

  pub propagate_down_right :
      (pages == 2 ^ suc l) ≡ false
      → leb pages (2 ^ l) ≡ false
      → propagate_down pages (suc l) i s ≡ propagate_down (pages - 2 ^ l) l (r_child i) s
  unfolding propagate_down
  propagate_down_right part right = rw (part, right)

  pub propagate_down_whole : (pages == 2 ^ suc l) ≡ true → propagate_down pages (suc l) i s ≡ s
  unfolding propagate_down
  propagate_down_whole whole = rw whole

-- Block `p / 2 ^ m` of level `m` lies outside block `i` of level `l`.
abbrev pub Outside : ℕ → ℕ → ℕ → ℕ → Type 0
Outside l i p m = (l ≤ m) ⊎ (p / 2 ^ l ≢ i)

Outside-child : (l i c p m : ℕ) → c / 2 ≡ i → Outside (suc l) i p m → Outside l c p m
Outside-child l i c p m e (inl above) = inl (omega arith)
Outside-child l i c p m e (inr elsewhere) =
    inr (λ h. elsewhere (div_pow_suc p l ∙ ap (λ n. n / 2) h ∙ e))

Outside-apart :
    (l i c p m : ℕ) → c / 2 ≡ i → Outside (suc l) i p m → same_block l c m (p / 2 ^ m) ≡ false
Outside-apart l i c p m e out = elim (Bool-cases (same_block l c m (p / 2 ^ m))) [
  | inr apart ↦ apart
  | inl same ↦
      let level : l ≡ m = ground arith in
      let block : c ≡ p / 2 ^ m = ground arith in
      let block' : p / 2 ^ l ≡ c = ap (λ n. p / 2 ^ n) level ∙ sym block in
      let up = div_pow_suc p l ∙ ap (λ n. n / 2) block' ∙ e in ground (arith, up, level)
]

-- Blocks that are not below the block at hand stay as they are.
pub propagate_down-Outside :
    (pages level index : ℕ) (s : Pmm) (p m : ℕ)
    → Layout s
    → level < 7
    → index < blocks level s
    → m < 7
    → p / 2 ^ m < blocks m s
    → Outside level index p m
    → is_free m (p / 2 ^ m) (propagate_down pages level index s) ≡ is_free m (p / 2 ^ m) s
propagate_down-Outside pages zero index s p m lay hl hi hm hp out = unfold propagate_down in refl
propagate_down-Outside pages (suc l) i s p m lay hl hi hm hp out =
    elim (Bool-cases (pages == 2 ^ suc l)) [
      | inl whole ↦ rw (propagate_down_whole pages l i s whole)
      | inr part ↦ elim (Bool-cases (leb pages (2 ^ l))) [
        | inl left ↦
            let done = propagate_down-Framed s pages l (l_child i) s (Framed-refl s lay) in
            let apart : same_block l (r_child i) m (p / 2 ^ m) ≡ false =
              Outside-apart l i (r_child i) p m (omega arith) out in
            rw
              (
                propagate_down_left pages l i s part left,
                is_free-set_count,
                is_free-mark_free l (r_child i) m (p / 2 ^ m) (left_done pages l i s) done.layout
                    (omega arith) hm (rw done.sizes inside) (rw done.sizes hp),
                apart,
              )
              (propagate_down-Outside pages l (l_child i) s p m lay (omega arith)
                (omega (arith, inside)) hm hp (Outside-child l i (l_child i) p m (omega arith) out))
        | inr right ↦ rw (propagate_down_right pages l i s part right) (
            propagate_down-Outside (pages - 2 ^ l) l (r_child i) s p m lay (omega arith) inside hm
              hp (Outside-child l i (r_child i) p m (omega arith) out))
      ]
    ]
  where
    inside : r_child i < blocks l s
    inside = children_within l i s lay (omega arith) hi
