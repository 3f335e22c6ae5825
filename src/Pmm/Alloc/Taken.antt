-- ===== src/Pmm/Alloc/Taken.antt =====
-- The body of the loops of `pmalloc`, kernel/mm/pmm/pmm.c, as an operation on the set of free pages.
use angl_os.Base.{
  ℕ, suc, ◌+◌, ◌*◌, ◌/◌, ◌^◌, ◌≤◌, ◌<◌, ◌≡◌, ◌≢◌, refl, ◌⊎◌, ◌↔◌, inl, inr, ap, ◌∙◌, sym, Bool,
  true, false, arith, if◌then◌else◌, Bool-cases, ==_ne,
}
use angl_os.Pmm.{Pmm, mark_used, is_free, count_down, parent}
use angl_os.Pmm.Layout.{Layout, same_block, is_free-mark_used, is_free-set_count}
use angl_os.Pmm.Alloc.{propagate_down}
use angl_os.Pmm.Alloc.Search.{blocks}
use native.Mathlib.Nat.{one-le-pow}
use mathlib.Core.Bool.{false≢true}
use native.Mathlib.Numerals.{add-one}
use native.Mathlib.Decide.{dec_lt, ℕ_discrete}
use angl_os.Pmm.Alloc.Framed.{
  Framed, Framed-refl, mark_used-Framed, set_count-Framed, propagate_down-Framed, div_pow_suc,
  block_ends,
}
use angl_os.Pmm.Alloc.Outside.{propagate_down-Outside}
use angl_os.Pmm.Alloc.Halves.{NotBelow, GivenBack}
use angl_os.Pmm.Alloc.{take_block}
use angl_os.Pmm.Alloc.Counts.Kept.{splits}
use angl_os.Pmm.Alloc.GivenBack.{propagate_down-GivenBack}
use angl_os.Pmm.Alloc.Sound.{
  PageFree, IsSound, Took, page_within, block_within, block_of, only_block,
}

if_same : (b : Bool) → (if b then false else false) ≡ false
if_same b = ground arith

-- Block `j` of level `i` is free, in a sound state.
module _ (pages i j : ℕ) (s : Pmm) (sd : IsSound s) (hi : i < 7) (hj : j < blocks i s)
    (free : is_free i j s ≡ true) where
  abbrev u : Pmm
  u = count_down i (mark_used i j s)

  u-Framed : Framed s u
  u-Framed =
      set_count-Framed s i _ (mark_used i j s) (mark_used-Framed s i j s (Framed-refl s sd.layout))

  is_free-u :
      (m k : ℕ)
      → m < 7
      → k < blocks m s
      → is_free m k u ≡ (if same_block i j m k then false else is_free m k s)
  is_free-u m k hm hk = rw is_free-set_count (is_free-mark_used i j m k s sd.layout hi hm hj hk)

  -- The parent of a free block is not free.
  pub no_split : splits i j s ≡ false
  no_split = elim (ℕ_discrete i 6) [
    | yes e ↦ rw e refl
    | no ne ↦
        let up : parent j < blocks (i + 1) s = omega (arith, sd.layout.halves i (omega arith)) in
        let here : j * 2 ^ i / 2 ^ i ≡ j =
          block_of (j * 2 ^ i) i j (omega arith) (omega (arith, one-le-pow i 2)) in
        let above : j * 2 ^ i / 2 ^ suc i ≡ parent j =
          div_pow_suc (j * 2 ^ i) i ∙ ap (λ n. n / 2) here in
        let page : j * 2 ^ i < blocks 0 s =
          omega (arith, block_within i j s sd.layout hi hj, one-le-pow i 2) in
        let used = sd.once (j * 2 ^ i) i (suc i) page (omega arith) (omega arith) (rw here free) in
        let used' : is_free (i + 1) (parent j) s ≡ false = rw (add-one, ← above) used in
        let read : is_free (i + 1) (parent j) u ≡ false =
          is_free-u (i + 1) (parent j) (omega arith) up ∙ rw used' (ground arith) in
        rw (==_ne i 6 ne, read)
  ]

  abbrev result : Pmm
  result = take_block pages i j s

  result-eq : (m k : ℕ) → is_free m k result ≡ is_free m k (propagate_down pages i j u)
  unfolding take_block is_free
  result-eq m k = rw no_split

  result-blocks : (n : ℕ) → blocks n result ≡ blocks n (propagate_down pages i j u)
  unfolding take_block
  result-blocks n = rw no_split

  result-Layout : Layout result
  unfolding take_block
  result-Layout =
      let down = (propagate_down-Framed s pages i j u u-Framed).layout in
      rw no_split (record { byte = down.byte; apart = down.apart; halves = down.halves })

  module _ (pos : 0 < pages) (le : pages ≤ 2 ^ i) (p : ℕ) (hp : p < blocks 0 s) where
    within : (m : ℕ) → m < 7 → p / 2 ^ m < blocks m s
    within m hm = page_within p m s sd.layout hm hp

    -- Elsewhere every block reads as it did.
    elsewhere :
        p / 2 ^ i ≢ j → (m : ℕ) → m < 7 → is_free m (p / 2 ^ m) result ≡ is_free m (p / 2 ^ m) s
    elsewhere ne m hm =
        result-eq m (p / 2 ^ m)
        ∙ propagate_down-Outside pages i j u p m u-Framed.layout hi (rw u-Framed.sizes hj) hm
            (rw u-Framed.sizes (within m hm)) (inr ne)
        ∙ is_free-u m (p / 2 ^ m) hm (within m hm)
        ∙ rw (other_block m)
      where
        other_block : (m : ℕ) → same_block i j m (p / 2 ^ m) ≡ false
        other_block m = elim (Bool-cases (same_block i j m (p / 2 ^ m))) [
          | inr other ↦ other
          | inl same ↦
              let level : i ≡ m = ground arith in
              let block : j ≡ p / 2 ^ m = ground arith in
              absurd (ne (ap (λ n. p / 2 ^ n) level ∙ sym block))
        ]

    module _ (e : p / 2 ^ i ≡ j) where
      -- In the sound state before, no other block covers the page.
      others : (m : ℕ) → m < 7 → i ≢ m → is_free m (p / 2 ^ m) s ≡ false
      others m hm ne = only_block p i m s sd hp hi hm (rw e free) ne

      -- In the block that is taken no other free block covered the page.
      cleared : NotBelow 7 p u
      cleared m hm = is_free-u m (p / 2 ^ m) hm (within m hm) ∙ elim (ℕ_discrete i m) [
        | yes same ↦
            let block : j ≡ p / 2 ^ m = sym e ∙ ap (λ n. p / 2 ^ n) same in
            let here : same_block i j m (p / 2 ^ m) ≡ true = ground arith in rw here
        | no ne ↦ rw (others m hm ne) (if_same (same_block i j m (p / 2 ^ m)))
      ]

      given : GivenBack (j * 2 ^ i) pages i p (propagate_down pages i j u)
      given =
          propagate_down-GivenBack pages i j u p u-Framed.layout hi (rw u-Framed.sizes hj) pos le e
            (λ m below. cleared m (omega arith))

      -- From the block's own level up nothing is free.
      above_used : (m : ℕ) → i ≤ m → m < 7 → is_free m (p / 2 ^ m) result ≡ false
      above_used m above hm =
          result-eq m (p / 2 ^ m)
          ∙ propagate_down-Outside pages i j u p m u-Framed.layout hi (rw u-Framed.sizes hj) hm
              (rw u-Framed.sizes (within m hm)) (inl above)
          ∙ cleared m hm

      front_used : p < j * 2 ^ i + pages → ¬ (PageFree p result)
      front_used lt (m, hm, is_so) = elim (dec_lt m i) [
        | yes below ↦
            absurd
              (false≢true (sym (given.front lt m below) ∙ sym (result-eq m (p / 2 ^ m)) ∙ is_so))
        | no above ↦ absurd (false≢true (sym (above_used m (omega arith) hm) ∙ is_so))
      ]

      behind_free : j * 2 ^ i + pages ≤ p → PageFree p result
      behind_free le' =
          let (m, lt, is_so) = given.behind le' in (m, omega arith, result-eq m (p / 2 ^ m) ∙ is_so)

      once_here :
          (m n : ℕ)
          → m < n
          → n < 7
          → is_free m (p / 2 ^ m) result ≡ true
          → is_free n (p / 2 ^ n) result ≡ false
      once_here m n lt hn is_so = elim (dec_lt n i) [
        | yes below ↦
            result-eq n (p / 2 ^ n)
            ∙ given.once m n lt below (sym (result-eq m (p / 2 ^ m)) ∙ is_so)
        | no above ↦ above_used n (omega arith) hn
      ]

    once_all :
        (m n : ℕ)
        → m < n
        → n < 7
        → is_free m (p / 2 ^ m) result ≡ true
        → is_free n (p / 2 ^ n) result ≡ false
    once_all m n lt hn is_so = elim (ℕ_discrete (p / 2 ^ i) j) [
      | yes e ↦ once_here e m n lt hn is_so
      | no ne ↦
          elsewhere ne n hn ∙ sd.once p m n hp lt hn (sym (elsewhere ne m (omega arith)) ∙ is_so)
    ]

    outside_same : (p < j * 2 ^ i) ⊎ (j * 2 ^ i + pages ≤ p) → PageFree p result ↔ PageFree p s
    outside_same out = elim (ℕ_discrete (p / 2 ^ i) j) [
      | yes e ↦ (λ _. (i, hi, rw e free), λ _. behind_free e (omega (arith, block_ends p i j e)))
      | no ne ↦ (
        λ (m, hm, is_so). (m, hm, sym (elsewhere ne m hm) ∙ is_so),
        λ (m, hm, is_so). (m, hm, elsewhere ne m hm ∙ is_so),
      )
    ]

  -- In a sound state, taking `pages` pages of a free block, at least one and no more than it has,
  -- takes exactly its first `pages` pages and leaves the state sound.
  pub take_block-Took : 0 < pages → pages ≤ 2 ^ i → Took (j * 2 ^ i) pages s result
  take_block-Took pos le = record {
    inside = λ p hp lo hi'.
        let e = block_of p i j lo (omega arith) in
        ((i, hi, rw e free), front_used pos le p hp e hi');
    outside = λ p hp out. outside_same pos le p hp out;
    sound = record {
      layout = result-Layout;
      once = λ p m n hp lt hn is_so.
          once_all pos le p (rw (result-blocks, down.sizes) at hp) m n lt hn is_so;
    };
    sizes = λ n. result-blocks n ∙ down.sizes n;
  }
    where
      down : Framed s (propagate_down pages i j u)
      down = propagate_down-Framed s pages i j u u-Framed
