-- ===== src/Pmm/Alloc/RoundTrip.antt =====
-- `pmalloc` and then `pfree` of the same pages, kernel/mm/pmm/pmm.c.
use angl_os.Base.{ℕ, ◌+◌, ◌*◌, ◌^◌, ◌≤◌, ◌<◌, ◌≡◌, ◌≢◌, inl, inr, ap, ◌∙◌, u64, arith}
use angl_os.Pmm.{Pmm}
use angl_os.Pmm.Alloc.Search.{blocks}
use native.Mathlib.Decide.{dec_lt}
use angl_os.Pmm.{page_size}
use angl_os.Pmm.Alloc.{pfree}
use angl_os.Pmm.Alloc.Sound.{IsSound, Took}
use angl_os.Pmm.Alloc.Merge.{SamePages}
use angl_os.Pmm.Alloc.{pmalloc}
use angl_os.Pmm.Alloc.Malloc.{Outcome, took, refused, pmalloc-Outcome}
use angl_os.Pmm.Alloc.Free.{pfree-Gave}

-- Pages that `pmalloc` took and `pfree` gives back: the free pages are those from before.
pub pfree-Took :
    (start pages : ℕ) (s t : Pmm)
    → IsSound s
    → 0 < start
    → 0 < pages
    → start + pages ≤ blocks 0 s
    → start + pages < 2 ^ 64
    → Took start pages s t
    → SamePages s (pfree (start * page_size) pages t)
pfree-Took start pages s t sd pos some_pages range word tk =
    let gave =
      pfree-Gave start pages t tk.sound pos some_pages (rw tk.sizes range) word
        (λ p lo hi. (tk.inside p (omega arith) lo hi).1) in
    record {
      pages = λ p hp. elim (dec_lt p start) [
        | yes below ↦
            let f = gave.outside p (rw tk.sizes hp) (inl below) in
            let g = tk.outside p hp (inl below) in (λ x. g.0 (f.0 x), λ x. f.1 (g.1 x))
        | no above ↦ elim (dec_lt p (start + pages)) [
          | yes within ↦ (
            λ x. (tk.inside p hp (omega arith) within).0,
            λ x. gave.inside p (omega arith) within,
          )
          | no behind ↦
              let f = gave.outside p (rw tk.sizes hp) (inr (omega arith)) in
              let g = tk.outside p hp (inr (omega arith)) in (λ x. g.0 (f.0 x), λ x. f.1 (g.1 x))
        ]
      ];
      sound = gave.sound;
      sizes = λ n. gave.sizes n ∙ tk.sizes n;
    }

-- For 1 to 64 pages from a sound state of fewer than `2 ^ 52` pages: if `pmalloc` returns an address
-- that is not `NULL`, `pfree` of it gives the free pages from before, in a sound state.
pub pfree-pmalloc :
    (pages : ℕ) (s : Pmm)
    → IsSound s
    → 0 < pages
    → pages ≤ 64
    → blocks 0 s < 2 ^ 52
    → (pmalloc pages s).0 ≢ 0
    → SamePages s (pfree (pmalloc pages s).0 pages (pmalloc pages s).1)
pfree-pmalloc pages s sd pos le small some_ptr = go (pmalloc-Outcome pages s sd pos le) some_ptr
  where
    go : {r : ℕ × Pmm} → Outcome pages s r → r.0 ≢ 0 → SamePages s (pfree r.0 pages r.1)
    go (took start range ptr tk) ne =
        let exact : u64 (start * page_size) ≡ start * page_size = omega arith in
        rw (ptr, exact)
          (pfree-Took start pages s _ sd (omega (arith, ptr, ne)) pos range (omega arith) tk)
    go (refused none_free eq) ne = absurd (ne (ap (λ (x : ℕ × Pmm). x.0) eq))
