-- ===== src/Pmm/Alloc/Framed.antt =====
-- What the helpers of kernel/mm/pmm/pmm.c leave alone, and the blocks that a page lies in.
use angl_os.Base.{ℕ, zero, suc, ◌+◌, ◌*◌, ◌/◌, ◌%◌, ◌^◌, ◌≤◌, ◌<◌, ◌≡◌, refl, ◌⊎◌, ap, ◌∙◌, arith}
use angl_os.Pmm.{Pmm, mark_used, mark_free, set_count, l_child, r_child}
use angl_os.Pmm.Layout.{Layout, mark_free-Layout, mark_used-Layout, set_count-Layout}
use angl_os.Pmm.Alloc.{propagate_down}
use angl_os.Pmm.Alloc.Frame.{propagate_down_keeps}
use angl_os.Pmm.Alloc.Search.{blocks}
use native.Mathlib.Nat.{pow-suc, one-le-pow, div-div-eq-div-mul, div-add-mod'}
use native.Mathlib.Numerals.{add-one}
use native.Mathlib.Decide.{ℕ_discrete}

-- `t` has the bitmaps of `s`, laid out as they should be, with other bits and counters.
pub record Framed (s t : Pmm) : Type 0 where
  pub layout : Layout t
  pub sizes : (n : ℕ) → blocks n t ≡ blocks n s

pub Framed-refl : (s : Pmm) → Layout s → Framed s s
Framed-refl s lay = record { layout = lay; sizes = λ n. refl }

pub mark_used-Framed : (s : Pmm) (i j : ℕ) (t : Pmm) → Framed s t → Framed s (mark_used i j t)
mark_used-Framed s i j t f = record {
  layout = mark_used-Layout i j t f.layout;
  sizes = λ n. unfold mark_used in f.sizes n;
}

pub mark_free-Framed : (s : Pmm) (i j : ℕ) (t : Pmm) → Framed s t → Framed s (mark_free i j t)
mark_free-Framed s i j t f = record {
  layout = mark_free-Layout i j t f.layout;
  sizes = λ n. unfold mark_free in f.sizes n;
}

pub set_count-Framed : (s : Pmm) (i v : ℕ) (t : Pmm) → Framed s t → Framed s (set_count i v t)
set_count-Framed s i v t f = record {
  layout = set_count-Layout i v t f.layout;
  sizes = λ n. blocks-set_count i v n t ∙ f.sizes n;
}
  where
    blocks-set_count : (i v n : ℕ) (t : Pmm) → blocks n (set_count i v t) ≡ blocks n t
    blocks-set_count i v n t = unfold set_count in ground arith

pub propagate_down-Framed :
    (s : Pmm) (pages level index : ℕ) (t : Pmm)
    → Framed s t
    → Framed s (propagate_down pages level index t)
propagate_down-Framed s =
    propagate_down_keeps (Framed s) (mark_used-Framed s) (mark_free-Framed s) (set_count-Framed s)

-- A page's block at the next level is the parent of its block.
pub div_pow_suc : (p l : ℕ) → p / 2 ^ suc l ≡ p / 2 ^ l / 2
div_pow_suc p l = rw (div-div-eq-div-mul, pow-suc)

-- The children of a block are there if it is.
pub children_within :
    (l i : ℕ) (s : Pmm) → Layout s → l < 6 → i < blocks (suc l) s → r_child i < blocks l s
children_within l i s lay h lt =
    let e : (s.bitmaps (l + 1)).size ≡ (s.bitmaps (suc l)).size =
      ap (λ n. (s.bitmaps n).size) (add-one l) in
    omega (arith, lay.halves l h, e)

pub within_below :
    (level p m : ℕ) (s : Pmm)
    → Layout s
    → level < 7
    → p / 2 ^ level < blocks level s
    → m ≤ level
    → p / 2 ^ m < blocks m s
within_below zero p m s lay hl hp le = let e : m ≡ 0 = omega arith in rw e hp
within_below (suc l) p m s lay hl hp le = elim (ℕ_discrete m (suc l)) [
  | yes e ↦ rw e hp
  | no ne ↦
      let inside = children_within l (p / 2 ^ suc l) s lay (omega arith) hp in
      within_below l p m s lay (omega arith) (omega (arith, inside, div_pow_suc p l)) (omega arith)
]

-- A page lies between the ends of its block.
pub block_ends : (p l i : ℕ) → p / 2 ^ l ≡ i → (i * 2 ^ l ≤ p) × (p < i * 2 ^ l + 2 ^ l)
block_ends p l i e =
    let whole : i * 2 ^ l + p % 2 ^ l ≡ p = rw (← e) (div-add-mod' p (2 ^ l)) in
    (omega (arith, whole), omega (arith, whole, one-le-pow l 2, mod-lt' p l))
  where
    mod-lt' : (p l : ℕ) → p % 2 ^ l < 2 ^ l
    mod-lt' p l = omega (arith, one-le-pow l 2)

-- A page of a block is in one of its two halves.
pub halves_cases :
    (p l i : ℕ) → p / 2 ^ suc l ≡ i → (p / 2 ^ l ≡ l_child i) ⊎ (p / 2 ^ l ≡ r_child i)
halves_cases p l i e = omega (arith, div_pow_suc p l)
