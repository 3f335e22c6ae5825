-- ===== src/Pmm/Alloc/Frame.antt =====
-- The helpers of kernel/mm/pmm/pmm.c change a state only by setting and clearing bits and by
-- writing counters, so what those three keep, `pmmPropagateDown` and `coalesce` keep too.
use angl_os.Base.{
  ℕ, zero, suc, ◌+◌, ◌-◌, ◌*◌, ◌/◌, ◌%◌, ◌^◌, ◌≡◌, ◌&&◌, u64, leb, ◌==◌, if_keeps, for_up_keeps,
}
use angl_os.Pmm.{Pmm, mark_used, mark_free, is_free, set_count, l_child, r_child, parent}
use angl_os.Pmm.Alloc.{propagate_down, merge_pair, merge_level, coalesce, free_pages}

module _ {ℓ} (P : Pmm → Type ℓ) (keep_used : (i j : ℕ) (s : Pmm) → P s → P (mark_used i j s))
    (keep_free : (i j : ℕ) (s : Pmm) → P s → P (mark_free i j s))
    (keep_count : (i v : ℕ) (s : Pmm) → P s → P (set_count i v s)) where
  pub propagate_down_keeps :
      (pages level index : ℕ) (s : Pmm) → P s → P (propagate_down pages level index s)
  unfolding propagate_down
  propagate_down_keeps pages zero index s h = h
  propagate_down_keeps pages (suc level) index s h = if_keeps P (pages == 2 ^ suc level) h (
      if_keeps P (leb pages (2 ^ level))
        (keep_count _ _ _ (keep_free _ _ _ (propagate_down_keeps pages level (l_child index) s h)))
        (propagate_down_keeps (pages - 2 ^ level) level (r_child index) s h))

  merge_pair_keeps : (level lo hi i : ℕ) (s : Pmm) → P s → P (merge_pair level lo hi i s)
  unfolding merge_pair
  merge_pair_keeps level lo hi i s h =
      if_keeps P (is_free level lo s && is_free level hi s)
        (keep_count _ _ _
          (keep_used _ _ _ (keep_used _ _ _ (keep_count _ _ _ (keep_free _ _ _ h)))))
        h

  merge_level_keeps : (pages level index : ℕ) (s : Pmm) → P s → P (merge_level pages level index s)
  unfolding merge_level
  merge_level_keeps pages level index s h =
      let rounds = (u64 (index + pages) - index + 1) / 2 in
      if_keeps P (index % 2 == 0)
        (for_up_keeps P _
          (λ k t. merge_pair_keeps level (index + 2 * k) (index + 2 * k + 1) (index + 2 * k) t)
          rounds 0 s h)
        (for_up_keeps P _
          (λ k t. merge_pair_keeps level (index + 2 * k - 1) (index + 2 * k) (index + 2 * k) t)
          rounds 0 s h)

  pub coalesce_keeps :
      (left pages level index : ℕ) (s : Pmm) → P s → P (coalesce left pages level index s)
  unfolding coalesce
  coalesce_keeps zero pages level index s h = merge_level_keeps pages level index s h
  coalesce_keeps (suc left) pages level index s h =
      coalesce_keeps left (pages / 2) (level + 1) (parent index) (merge_level pages level index s)
        (merge_level_keeps pages level index s h)

  pub free_pages_keeps : (rounds index : ℕ) (s : Pmm) → P s → P (free_pages rounds index s)
  unfolding free_pages
  free_pages_keeps rounds index s h =
      for_up_keeps P _ (λ i t k. keep_count _ _ _ (keep_free 0 i t k)) rounds index s h

-- None of them writes `free_mem`.
module _ (v : ℕ) where
  abbrev pub FreeMemIs : Pmm → Type 0
  FreeMemIs s = s.free_mem ≡ v

  pub used_free_mem : (i j : ℕ) (s : Pmm) → FreeMemIs s → FreeMemIs (mark_used i j s)
  unfolding mark_used
  used_free_mem i j s h = h

  free_free_mem : (i j : ℕ) (s : Pmm) → FreeMemIs s → FreeMemIs (mark_free i j s)
  unfolding mark_free
  free_free_mem i j s h = h

  pub count_free_mem : (i n : ℕ) (s : Pmm) → FreeMemIs s → FreeMemIs (set_count i n s)
  unfolding set_count
  count_free_mem i n s h = h

  pub propagate_down_free_mem :
      (pages level index : ℕ) (s : Pmm)
      → FreeMemIs s
      → FreeMemIs (propagate_down pages level index s)
  propagate_down_free_mem =
      propagate_down_keeps FreeMemIs used_free_mem free_free_mem count_free_mem

  pub coalesce_free_mem :
      (left pages level index : ℕ) (s : Pmm)
      → FreeMemIs s
      → FreeMemIs (coalesce left pages level index s)
  coalesce_free_mem = coalesce_keeps FreeMemIs used_free_mem free_free_mem count_free_mem

  pub free_pages_free_mem :
      (rounds index : ℕ) (s : Pmm) → FreeMemIs s → FreeMemIs (free_pages rounds index s)
  free_pages_free_mem = free_pages_keeps FreeMemIs used_free_mem free_free_mem count_free_mem
