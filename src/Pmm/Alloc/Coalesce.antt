-- ===== src/Pmm/Alloc/Coalesce.antt =====
-- The levels of `coalesce` of kernel/mm/pmm/pmm.c.
use angl_os.Base.{
  ℕ, zero, suc, ◌+◌, ◌-◌, ◌*◌, ◌/◌, ◌%◌, ◌^◌, ◌≤◌, ◌<◌, ◌≡◌, ◌≢◌, inl, inr, u64, arith, ◌==◌,
  Bool-cases, ==_iff,
}
use angl_os.Pmm.{Pmm, parent}
use angl_os.Pmm.Alloc.Search.{blocks}
use angl_os.Pmm.Alloc.{merge_pair, merge_level, coalesce}
use angl_os.Pmm.Alloc.Sound.{IsSound}
use angl_os.Pmm.Alloc.Merge.{SamePages, SamePages-refl, SamePages-trans, merge_pair-SamePages}
use angl_os.Base.{for_up_inv}

-- `coalesce` at one level, for a range of blocks that is there.
merge_level-SamePages :
    (pages l index : ℕ) (s : Pmm)
    → IsSound s
    → l < 6
    → index + pages ≤ blocks l s
    → index + pages < 2 ^ 64
    → SamePages s (merge_level pages l index s)
unfolding merge_level
merge_level-SamePages pages l index s sd hl range word = elim (Bool-cases (index % 2 == 0)) [
  | inl even ↦ rw even (
      let e : index % 2 ≡ 0 = (==_iff _ _).0 even in
      for_up_inv (λ k t. SamePages s t)
        (λ k t. merge_pair l (index + 2 * k) (index + 2 * k + 1) (index + 2 * k) t) rounds
        (λ k t lt sp.
          SamePages-trans s t (merge_pair l (index + 2 * k) (index + 2 * k + 1) (index + 2 * k) t)
            sp
            (merge_pair-SamePages l (index + 2 * k) (index + 2 * k + 1) (index + 2 * k) t sp.sound
              hl (omega arith) (omega arith) (rw sp.sizes (omega (arith, lt)))))
        rounds 0 s (omega arith) (SamePages-refl s sd))
  | inr odd ↦ rw odd (
      let e : index % 2 ≢ 0 = ground arith in
      for_up_inv (λ k t. SamePages s t)
        (λ k t. merge_pair l (index + 2 * k - 1) (index + 2 * k) (index + 2 * k) t) rounds
        (λ k t lt sp.
          SamePages-trans s t (merge_pair l (index + 2 * k - 1) (index + 2 * k) (index + 2 * k) t)
            sp
            (merge_pair-SamePages l (index + 2 * k - 1) (index + 2 * k) (index + 2 * k) t sp.sound
              hl (omega arith) (omega arith) (rw sp.sizes (omega (arith, lt)))))
        rounds 0 s (omega arith) (SamePages-refl s sd))
]
  where
    rounds : ℕ
    rounds = (u64 (index + pages) - index + 1) / 2

-- From a sound state, `coalesce` from level `l` up, for a range of blocks that is there and does not
-- leave 64 bits, leaves the free pages as they are and the state sound.
pub coalesce-SamePages :
    (left pages l index : ℕ) (s : Pmm)
    → IsSound s
    → l + left ≡ 5
    → index + pages ≤ blocks l s
    → index + pages < 2 ^ 64
    → SamePages s (coalesce left pages l index s)
unfolding coalesce
coalesce-SamePages zero pages l index s sd e range word =
    merge_level-SamePages pages l index s sd (omega arith) range word
coalesce-SamePages (suc left) pages l index s sd e range word =
    let t = merge_level pages l index s in
    let sp = merge_level-SamePages pages l index s sd (omega arith) range word in
    SamePages-trans s t (coalesce left (pages / 2) (l + 1) (parent index) t) sp (
      coalesce-SamePages left (pages / 2) (l + 1) (parent index) t sp.sound (omega arith)
        (rw sp.sizes (omega (arith, sd.layout.halves l (omega arith)))) (omega arith))
