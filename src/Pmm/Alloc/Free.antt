-- ===== src/Pmm/Alloc/Free.antt =====
-- `pfree` of kernel/mm/pmm/pmm.c as an operation on the set of free pages.
use angl_os.Base.{
  ℕ, zero, suc, ◌+◌, ◌-◌, ◌*◌, ◌/◌, ◌^◌, ◌≤◌, ◌<◌, ◌≡◌, ◌≢◌, refl, ◌⊎◌, ◌↔◌, inl, inr, ◌∙◌, sym,
  true, false, ◌||◌, u64, arith, ◌==◌, if◌then◌else◌, Bool-cases, ==_ne,
}
use angl_os.Pmm.{Pmm, mark_free, is_free, count_up}
use angl_os.Pmm.Layout.{same_block, is_free-mark_free, is_free-set_count}
use angl_os.Pmm.Alloc.Search.{blocks}
use native.Mathlib.Decide.{ℕ_discrete}
use angl_os.Pmm.Alloc.Framed.{Framed, Framed-refl, mark_free-Framed, set_count-Framed}
use angl_os.Pmm.{page_size}
use angl_os.Pmm.Alloc.{coalesce, free_pages, pfree}
use angl_os.Pmm.Alloc.Sound.{PageFree, IsSound, page_within}
use angl_os.Pmm.Alloc.Merge.{SamePages}
use angl_os.Pmm.Alloc.Coalesce.{coalesce-SamePages}

-- `t` is `s` with the `pages` pages from `start` on given back.
pub record Gave (start pages : ℕ) (s t : Pmm) : Type 0 where
  pub inside : (p : ℕ) → start ≤ p → p < start + pages → PageFree p t
  pub outside :
      (p : ℕ) → p < blocks 0 s → (p < start) ⊎ (start + pages ≤ p) → PageFree p t ↔ PageFree p s
  pub sound : IsSound t
  pub sizes : (n : ℕ) → blocks n t ≡ blocks n s

-- One page is given back.
module _ (k : ℕ) (s : Pmm) (sd : IsSound s) (hk : k < blocks 0 s) (used : ¬ (PageFree k s)) where
  abbrev one : Pmm
  one = count_up 0 (mark_free 0 k s)

  one-Framed : Framed s one
  one-Framed = set_count-Framed s _ _ _ (mark_free-Framed s _ _ s (Framed-refl s sd.layout))

  one-eq :
      (m j : ℕ)
      → m < 7
      → j < blocks m s
      → is_free m j one ≡ (if same_block 0 k m j then true else is_free m j s)
  one-eq m j hm hj =
      rw is_free-set_count (is_free-mark_free 0 k m j s sd.layout (omega arith) hm hk hj)

  module _ (p : ℕ) (hp : p < blocks 0 s) where
    one_other : p ≢ k → (m : ℕ) → m < 7 → is_free m (p / 2 ^ m) one ≡ is_free m (p / 2 ^ m) s
    one_other ne m hm =
        one-eq m (p / 2 ^ m) hm (page_within p m s sd.layout hm hp)
        ∙ elim (ℕ_discrete m 0) [ yes e ↦ rw e (ground arith) | no ne' ↦ ground arith ]

    one_here : p ≡ k → (m : ℕ) → m < 7 → is_free m (p / 2 ^ m) one ≡ (m == 0)
    one_here e m hm =
        one-eq m (p / 2 ^ m) hm (page_within p m s sd.layout hm hp) ∙ elim (ℕ_discrete m 0) [
          | yes e' ↦ rw e' (ground arith)
          | no ne' ↦ elim (Bool-cases (is_free m (p / 2 ^ m) s)) [
            | inr none ↦ rw none (ground arith)
            | inl covered ↦ absurd (used (m, hm, rw e at covered))
          ]
        ]

  one-Gave : Gave k 1 s one
  one-Gave = record {
    inside = λ p lo hi. (0, omega arith, one_here p (omega arith) (omega arith) 0 (omega arith));
    outside = λ p hp out. (
      λ (m, hm, free). (m, hm, sym (one_other p hp (omega arith) m hm) ∙ free),
      λ (m, hm, free). (m, hm, one_other p hp (omega arith) m hm ∙ free),
    );
    sound = record {
      layout = one-Framed.layout;
      once = λ p m n hp lt hn free.
          let hp' : p < blocks 0 s = rw one-Framed.sizes at hp in
          elim (ℕ_discrete p k) [
            | yes e ↦ one_here p hp' e n hn ∙ ==_ne n 0 (omega arith)
            | no ne ↦
                one_other p hp' ne n hn
                ∙ sd.once p m n hp' lt hn (sym (one_other p hp' ne m (omega arith)) ∙ free)
          ];
    };
    sizes = one-Framed.sizes;
  }

Gave-trans :
    (k n : ℕ) (s t u : Pmm)
    → k + suc n ≤ blocks 0 s
    → Gave k 1 s t
    → Gave (k + 1) n t u
    → Gave k (suc n) s u
Gave-trans k n s t u range a b = record {
  inside = λ p lo hi. elim (ℕ_discrete p k) [
    | yes e ↦
        (b.outside p (rw a.sizes (omega arith)) (inl (omega arith))).1 (a.inside p lo (omega arith))
    | no ne ↦ b.inside p (omega arith) (omega arith)
  ];
  outside = λ p hp out.
      let f = b.outside p (rw a.sizes hp) (omega arith) in
      let g = a.outside p hp (omega arith) in (λ x. g.0 (f.0 x), λ x. f.1 (g.1 x));
  sound = b.sound;
  sizes = λ m. b.sizes m ∙ a.sizes m;
}

Gave-none : (k : ℕ) (s : Pmm) → IsSound s → Gave k 0 s s
Gave-none k s sd = record {
  inside = λ p lo hi. absurd (omega arith);
  outside = λ p hp out. (λ x. x, λ x. x);
  sound = sd;
  sizes = λ n. refl;
}

-- The loop of `pfree` gives the pages back one by one.
pub free_pages-Gave :
    (n k : ℕ) (s : Pmm)
    → IsSound s
    → k + n ≤ blocks 0 s
    → ((p : ℕ) → k ≤ p → p < k + n → ¬ (PageFree p s))
    → Gave k n s (free_pages n k s)
unfolding free_pages
free_pages-Gave zero k s sd range used = Gave-none k s sd
free_pages-Gave (suc n) k s sd range used =
    let first = one-Gave k s sd (omega arith) (used k (omega arith) (omega arith)) in
    let t = count_up 0 (mark_free 0 k s) in
    Gave-trans k n s t (free_pages n (k + 1) t) range first (
      free_pages-Gave n (k + 1) t first.sound (rw first.sizes (omega arith)) (λ p lo hi free.
        used p (omega arith) (omega arith)
          ((first.outside p (omega arith) (inr (omega arith))).0 free)))

Gave-SamePages :
    (k n : ℕ) (s t u : Pmm) → k + n ≤ blocks 0 s → Gave k n s t → SamePages t u → Gave k n s u
Gave-SamePages k n s t u range a b = record {
  inside = λ p lo hi. (b.pages p (rw a.sizes (omega arith))).1 (a.inside p lo hi);
  outside = λ p hp out.
      let f = b.pages p (rw a.sizes hp) in
      let g = a.outside p hp out in (λ x. g.0 (f.0 x), λ x. f.1 (g.1 x));
  sound = b.sound;
  sizes = λ m. b.sizes m ∙ a.sizes m;
}

-- The free pages do not depend on `free_mem`.
with_free_mem :
    (v : ℕ) (k n : ℕ) (s t : Pmm) → Gave k n s t → Gave k n s (record t { free_mem = v })
with_free_mem v k n s t a = record {
  inside = λ p lo hi. unfold is_free in a.inside p lo hi;
  outside = λ p hp out. unfold is_free in a.outside p hp out;
  sound =
      unfold is_free in
      record {
        layout = record {
          byte = a.sound.layout.byte;
          apart = a.sound.layout.apart;
          halves = a.sound.layout.halves;
        };
        once = a.sound.once;
      };
  sizes = a.sizes;
}

-- `pfree` of pages that are in use, from the address of page `start` on, makes exactly those pages
-- free and keeps the state sound. The address is not `NULL`, and the pages lie in the memory that
-- the bitmaps cover.
pub pfree-Gave :
    (start pages : ℕ) (s : Pmm)
    → IsSound s
    → 0 < start
    → 0 < pages
    → start + pages ≤ blocks 0 s
    → start + pages < 2 ^ 64
    → ((p : ℕ) → start ≤ p → p < start + pages → ¬ (PageFree p s))
    → Gave start pages s (pfree (start * page_size) pages s)
unfolding pfree
pfree-Gave start pages s sd pos some_pages range word used =
    let index : start * page_size / page_size ≡ start = omega arith in
    let rounds : u64 (start + pages) - start ≡ pages = omega arith in
    let go : (start * page_size == 0 || pages == 0) ≡ false = ground arith in
    let freed = free_pages-Gave pages start s sd range used in
    let cleared = free_pages pages start s in
    let merged =
      coalesce-SamePages 5 pages 0 start cleared freed.sound refl (rw freed.sizes range) word in
    rw (go, index, rounds)
      (with_free_mem _ start pages s (coalesce 5 pages 0 start cleared) (
        Gave-SamePages start pages s cleared (coalesce 5 pages 0 start cleared) range freed merged))
