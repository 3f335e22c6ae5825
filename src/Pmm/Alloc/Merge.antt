-- ===== src/Pmm/Alloc/Merge.antt =====
-- One round of `coalesce` of kernel/mm/pmm/pmm.c and the set of free pages.
use angl_os.Base.{
  ℕ, suc, ◌+◌, ◌/◌, ◌^◌, ◌<◌, ◌≡◌, ◌≢◌, refl, ◌↔◌, inl, inr, ap, ◌∙◌, sym, true, false, ◌&&◌, sub64,
  arith, ◌==◌, if◌then◌else◌, Bool-cases, ==_ne, ==_iff,
}
use angl_os.Pmm.{Pmm, mark_used, mark_free, is_free, count_up, set_count, l_child, r_child, parent}
use angl_os.Pmm.Layout.{same_block, is_free-mark_free, is_free-mark_used, is_free-set_count}
use angl_os.Pmm.Alloc.Search.{blocks}
use native.Mathlib.Numerals.{add-one}
use native.Mathlib.Decide.{ℕ_discrete}
use angl_os.Pmm.Alloc.Framed.{
  Framed, Framed-refl, mark_used-Framed, mark_free-Framed, set_count-Framed, div_pow_suc,
  halves_cases,
}
use angl_os.Pmm.Alloc.{merge_pair}
use angl_os.Pmm.Alloc.Sound.{PageFree, IsSound, page_within, only_block}

-- `t` is sound and has the free pages of `s`.
pub record SamePages (s t : Pmm) : Type 0 where
  pub pages : (p : ℕ) → p < blocks 0 s → PageFree p t ↔ PageFree p s
  pub sound : IsSound t
  pub sizes : (n : ℕ) → blocks n t ≡ blocks n s

pub SamePages-refl : (s : Pmm) → IsSound s → SamePages s s
SamePages-refl s sd = record { pages = λ p hp. (λ x. x, λ x. x); sound = sd; sizes = λ n. refl }

pub SamePages-trans : (s t u : Pmm) → SamePages s t → SamePages t u → SamePages s u
SamePages-trans s t u a b = record {
  pages = λ p hp.
      let f = b.pages p (rw a.sizes hp) in
      let g = a.pages p hp in (λ x. g.0 (f.0 x), λ x. f.1 (g.1 x));
  sound = b.sound;
  sizes = λ n. b.sizes n ∙ a.sizes n;
}

-- The two halves `q * 2` and `q * 2 + 1` of block `q` of the level above `l` are free.
module _ (l q : ℕ) (s : Pmm) (sd : IsSound s) (hl : l < 6) (hq : r_child q < blocks l s)
    (left : is_free l (l_child q) s ≡ true) (right : is_free l (r_child q) s ≡ true) where
  abbrev up : Pmm
  up = count_up (suc l) (mark_free (suc l) q s)

  abbrev low : Pmm
  low = mark_used l (l_child q) up

  abbrev high : Pmm
  high = mark_used l (r_child q) low

  abbrev merged : Pmm
  merged = set_count l (sub64 (high.bitmaps l).free 2) high

  hq' : q < blocks (suc l) s
  hq' =
      let e : (s.bitmaps (l + 1)).size ≡ (s.bitmaps (suc l)).size =
        ap (λ n. (s.bitmaps n).size) (add-one l) in
      omega (arith, sd.layout.halves l hl, e)

  up-Framed : Framed s up
  up-Framed = set_count-Framed s _ _ _ (mark_free-Framed s _ _ s (Framed-refl s sd.layout))

  low-Framed : Framed s low
  low-Framed = mark_used-Framed s _ _ _ up-Framed

  merged-Framed : Framed s merged
  merged-Framed = set_count-Framed s _ _ _ (mark_used-Framed s _ _ _ low-Framed)

  merged-eq :
      (m k : ℕ)
      → m < 7
      → k < blocks m s
      → is_free m k merged ≡ (
          if same_block l (r_child q) m k
          then false
          else if same_block l (l_child q) m k
          then false
          else if same_block (suc l) q m k
          then true
          else is_free m k s)
  merged-eq m k hm hk = rw (
    is_free-set_count,
    is_free-mark_used l (r_child q) m k low low-Framed.layout (omega arith) hm
        (rw low-Framed.sizes hq) (rw low-Framed.sizes hk),
    is_free-mark_used l (l_child q) m k up up-Framed.layout (omega arith) hm
        (rw up-Framed.sizes (omega arith)) (rw up-Framed.sizes hk),
    is_free-set_count,
    is_free-mark_free (suc l) q m k s sd.layout (omega arith) hm hq' hk,
  )

  module _ (p : ℕ) (hp : p < blocks 0 s) where
    inside : (m : ℕ) → m < 7 → p / 2 ^ m < blocks m s
    inside m hm = page_within p m s sd.layout hm hp

    child_free : p / 2 ^ suc l ≡ q → is_free l (p / 2 ^ l) s ≡ true
    child_free e = elim (halves_cases p l q e) [
      | inl at_left ↦ rw at_left left
      | inr at_right ↦ rw at_right right
    ]

    -- The pages of the merged block are covered by it and by nothing else.
    merged_here : p / 2 ^ suc l ≡ q → (m : ℕ) → m < 7 → is_free m (p / 2 ^ m) merged ≡ (m == suc l)
    merged_here e m hm = merged-eq m (p / 2 ^ m) hm (inside m hm) ∙ elim (ℕ_discrete m (suc l)) [
      | yes top ↦ let block : p / 2 ^ m ≡ q = ap (λ n. p / 2 ^ n) top ∙ e in ground arith
      | no ne ↦ elim (ℕ_discrete m l) [
        | yes low_level ↦
            let block : p / 2 ^ m ≡ p / 2 ^ l = ap (λ n. p / 2 ^ n) low_level in
            ground (arith, halves_cases p l q e)
        | no ne' ↦
            let used =
              only_block p l m s sd hp (omega arith) hm (child_free e) (λ x. ne' (sym x)) in
            ground arith
      ]
    ]

    merged_elsewhere :
        p / 2 ^ suc l ≢ q → (m : ℕ) → m < 7 → is_free m (p / 2 ^ m) merged ≡ is_free m (p / 2 ^ m) s
    merged_elsewhere ne m hm =
        merged-eq m (p / 2 ^ m) hm (inside m hm) ∙ elim (ℕ_discrete m (suc l)) [
          | yes top ↦
              let block : p / 2 ^ m ≡ p / 2 ^ suc l = ap (λ n. p / 2 ^ n) top in ground arith
          | no ne' ↦ elim (ℕ_discrete m l) [
            | yes low_level ↦
                let block : p / 2 ^ m ≡ p / 2 ^ l = ap (λ n. p / 2 ^ n) low_level in
                ground (arith, div_pow_suc p l)
            | no ne'' ↦ ground arith
          ]
        ]

    merged_pages : PageFree p merged ↔ PageFree p s
    merged_pages = elim (ℕ_discrete (p / 2 ^ suc l) q) [
      | yes e ↦ (
        λ _. (l, omega arith, child_free e),
        λ _. (
          suc l,
          omega arith,
          merged_here e (suc l) (omega arith) ∙ (==_iff (suc l) (suc l)).1 refl,
        ),
      )
      | no ne ↦ (
        λ (m, hm, free). (m, hm, sym (merged_elsewhere ne m hm) ∙ free),
        λ (m, hm, free). (m, hm, merged_elsewhere ne m hm ∙ free),
      )
    ]

    merged_once :
        (m n : ℕ)
        → m < n
        → n < 7
        → is_free m (p / 2 ^ m) merged ≡ true
        → is_free n (p / 2 ^ n) merged ≡ false
    merged_once m n lt hn free = elim (ℕ_discrete (p / 2 ^ suc l) q) [
      | yes e ↦
          let at_top : (m == suc l) ≡ true = sym (merged_here e m (omega arith)) ∙ free in
          merged_here e n hn ∙ ==_ne n (suc l) (omega (arith, (==_iff m (suc l)).0 at_top))
      | no ne ↦
          merged_elsewhere ne n hn
          ∙ sd.once p m n hp lt hn (sym (merged_elsewhere ne m (omega arith)) ∙ free)
    ]

  merged-SamePages : SamePages s merged
  merged-SamePages = record {
    pages = merged_pages;
    sound = record {
      layout = merged-Framed.layout;
      once = λ p m n hp. merged_once p (rw merged-Framed.sizes at hp) m n;
    };
    sizes = merged-Framed.sizes;
  }

-- One round of `coalesce` leaves the free pages as they are.
pub merge_pair-SamePages :
    (l lo hi i : ℕ) (s : Pmm)
    → IsSound s
    → l < 6
    → lo ≡ l_child (parent i)
    → hi ≡ r_child (parent i)
    → hi < blocks l s
    → SamePages s (merge_pair l lo hi i s)
unfolding merge_pair
merge_pair-SamePages l lo hi i s sd hl e f hh =
    rw (add-one l, e, f)
      (elim (Bool-cases (is_free l (l_child (parent i)) s && is_free l (r_child (parent i)) s)) [
        | inl both ↦
            rw both
              (merged-SamePages l (parent i) s sd hl (rw f at hh) (ground arith) (ground arith))
        | inr keep ↦ rw keep (SamePages-refl s sd)
      ])
