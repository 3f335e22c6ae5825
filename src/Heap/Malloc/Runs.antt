-- ===== src/Heap/Malloc/Runs.antt =====
-- Sequences of calls of `_kmalloc`, `_kcalloc`, `_krealloc` and `_kfree` of kernel/mm/heap/heap.c, with the memory that their
-- caller holds: each pointer that is not freed yet, with the size that it was asked for with.
pub mod Backed
pub mod Steps
use angl_os.Base.{
  ℕ, ◌+◌, ◌*◌, ◌^◌, ◌≤◌, ◌<◌, ◌≡◌, ◌≢◌, ◌⊎◌, refl, inl, inr, ap, sym, List, [], ◌∷◌, ◌++◌, arith,
}
use angl_os.KernelLists.{ListOps}
use angl_os.Heap.{Tag, Heap}
use angl_os.Heap.Segments.{At, At-range, At-disjoint}
use angl_os.Heap.Valid.{IsHeap, UsedIn}
use angl_os.CString.{memset}
use angl_os.Heap.Malloc.{raw_kmalloc, raw_kcalloc, raw_kfree}
use angl_os.Heap.Malloc.Realloc.{raw_krealloc}
use angl_os.Heap.Malloc.Realloc.Outcome.{bytes-IsHeap}
use angl_os.Heap.Malloc.Realloc.Spec.{Reallocated, raw_krealloc_lem}
use angl_os.Heap.Malloc.Spec.Allocate.{raw_kmalloc_lem}
use angl_os.Heap.Malloc.Spec.Release.{Freed, raw_kfree_lem}
use mathlib.Core.Path.{subst}

-- a pointer and the bytes behind it
abbrev pub Held : Type 0
Held = ℕ × ℕ

-- The caller frees and resizes what it holds only. `NULL` it does not hold. In `cleared` the source
-- sets `size` bytes from the address 0 on, which are among the bytes of the model, not the tags.
pub data Calls (ops : ListOps) (s : Heap ops) : List Held → Heap ops → Type 0 where
  start : Calls ops s [] s
  malloc :
      {held : List Held} {t : Heap ops} (size : ℕ)
      → Calls ops s held t
      → size < 2 ^ 30
      → (raw_kmalloc ops size t).0 ≢ 0
      → Calls ops s (((raw_kmalloc ops size t).0, size) ∷ held) (raw_kmalloc ops size t).1
  refused :
      {held : List Held} {t : Heap ops} (size : ℕ)
      → Calls ops s held t
      → size < 2 ^ 30
      → (raw_kmalloc ops size t).0 ≡ 0
      → Calls ops s held (raw_kmalloc ops size t).1
  free :
      {held : List Held} {t : Heap ops} (xs ys : List Held) (ptr size : ℕ)
      → Calls ops s held t
      → held ≡ xs ++ ((ptr, size) ∷ ys)
      → Calls ops s (xs ++ ys) (raw_kfree ops ptr t)
  calloc :
      {held : List Held} {t : Heap ops} (size : ℕ)
      → Calls ops s held t
      → size < 2 ^ 30
      → (raw_kcalloc ops size t).0 ≢ 0
      → Calls ops s (((raw_kcalloc ops size t).0, size) ∷ held) (raw_kcalloc ops size t).1
  cleared :
      {held : List Held} {t : Heap ops} (size : ℕ)
      → Calls ops s held t
      → size < 2 ^ 30
      → (raw_kcalloc ops size t).0 ≡ 0
      → Calls ops s held (raw_kcalloc ops size t).1
  realloc :
      {held : List Held} {t : Heap ops} (xs ys : List Held) (ptr old size : ℕ)
      → Calls ops s held t
      → held ≡ xs ++ ((ptr, old) ∷ ys)
      → size ≢ 0
      → size < 2 ^ 30
      → (raw_krealloc ops ptr size t).0 ≢ 0
      → Calls ops s
          (((raw_krealloc ops ptr size t).0, size) ∷ (xs ++ ys))
          (raw_krealloc ops ptr size t).1
  kept :
      {held : List Held} {t : Heap ops} (xs ys : List Held) (ptr old size : ℕ)
      → Calls ops s held t
      → held ≡ xs ++ ((ptr, old) ∷ ys)
      → size ≢ 0
      → size < 2 ^ 30
      → (raw_krealloc ops ptr size t).0 ≡ 0
      → Calls ops s held (raw_krealloc ops ptr size t).1

-- No two of them share a byte.
abbrev pub Clear : Held → List Held → Type 0
Clear e [] = Unit {0}
Clear e (f ∷ fs) = ((e.0 + e.1 ≤ f.0) ⊎ (f.0 + f.1 ≤ e.0)) × Clear e fs

abbrev pub Disjoint : List Held → Type 0
Disjoint [] = Unit {0}
Disjoint (e ∷ es) = Clear e es × Disjoint es

-- All lie between two addresses.
abbrev pub Within : ℕ → ℕ → List Held → Type 0
Within lo hi [] = Unit {0}
Within lo hi (e ∷ es) = (lo ≤ e.0) × (e.0 + e.1 ≤ hi) × Within lo hi es
