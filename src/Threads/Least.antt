-- ===== src/Threads/Least.antt =====
-- The thread that kernel/threads/thread.c runs next.
use angl_os.Base.{
  ℕ, ◌-◌, ◌^◌, ◌≤◌, ◌<◌, ◌≡◌, refl, inl, inr, false, some, List, [], ◌∷◌, ltb, arith, Bool-cases,
}
use angl_os.Threads.{Threads, min_thread_from, get_thread_with_min_runtime}
use angl_os.KernelLists.{ListOps}
use angl_os.KernelLists.Members.{Listed, here, there}
use native.Mathlib.Nat.{le_refl}

module _ (ops : ListOps) (s : Threads ops) where
  -- No thread of the list is locked.
  abbrev pub Unlocked : List ℕ → Type 0
  Unlocked ps = (p : ℕ) → Listed p ps → (s.threads p).lock ≡ false

  -- `r` is the first listed thread with the least runtime, if one has a runtime below `min`.
  pub data Least (ps : List ℕ) (min start : ℕ) (r : ℕ) : Type 0 where
    nobody :
        ((p : ℕ) → Listed p ps → min ≤ (s.threads p).runtime) → r ≡ start → Least ps min start r
    least :
        Listed r ps
        → (s.threads r).runtime < min
        → ((p : ℕ) → Listed p ps → (s.threads r).runtime ≤ (s.threads p).runtime)
        → Least ps min start r

  Least-less :
      (q : ℕ) (ps : List ℕ) (min start r : ℕ)
      → (s.threads q).runtime < min
      → Least ps (s.threads q).runtime q r
      → Least (q ∷ ps) min start r
  Least-less q ps min start r lt (nobody all e) = rw e (least here lt (λ p m. first p m))
    where
      first : (p : ℕ) → Listed p (q ∷ ps) → (s.threads q).runtime ≤ (s.threads p).runtime
      first p here = le_refl _
      first p (there m) = all p m
  Least-less q ps min start r lt (least m below all) =
      least (there m) (omega arith) (λ p n. rest p n)
    where
      rest : (p : ℕ) → Listed p (q ∷ ps) → (s.threads r).runtime ≤ (s.threads p).runtime
      rest p here = omega arith
      rest p (there n) = all p n

  Least-more :
      (q : ℕ) (ps : List ℕ) (min start r : ℕ)
      → min ≤ (s.threads q).runtime
      → Least ps min start r
      → Least (q ∷ ps) min start r
  Least-more q ps min start r le (nobody all e) = nobody (λ p n. rest p n) e
    where
      rest : (p : ℕ) → Listed p (q ∷ ps) → min ≤ (s.threads p).runtime
      rest p here = le
      rest p (there n) = all p n
  Least-more q ps min start r le (least m below all) = least (there m) below (λ p n. rest p n)
    where
      rest : (p : ℕ) → Listed p (q ∷ ps) → (s.threads r).runtime ≤ (s.threads p).runtime
      rest p here = omega arith
      rest p (there n) = all p n

  min_thread_from-Least :
      (ps : List ℕ) (min start : ℕ)
      → Unlocked ps
      → (r : ℕ) × (min_thread_from ops ps min start s ≡ some r) × Least ps min start r
  unfolding min_thread_from
  min_thread_from-Least [] min start free = (start, refl, nobody (λ p m. elim m [ ]) refl)
  min_thread_from-Least (q ∷ ps) min start free =
      elim (Bool-cases (ltb (s.threads q).runtime min)) [
        | inl less ↦
            let (r, e, l) =
              min_thread_from-Least ps (s.threads q).runtime q (λ p m. free p (there m)) in
            (r, rw (free q here, less) e, Least-less q ps min start r (ground arith) l)
        | inr more ↦
            let (r, e, l) = min_thread_from-Least ps min start (λ p m. free p (there m)) in
            (r, rw (free q here, more) e, Least-more q ps min start r (ground arith) l)
      ]

  -- `getThreadWithMinRuntime`, where no lock is held, returns a ready thread whose runtime is the
  -- least of all ready threads, or `NULL` if none of them has a runtime below `2 ^ 64 - 1`.
  pub get_thread_with_min_runtime-Least :
      s.lock ≡ false
      → Unlocked (ops.elements (s.ready_lists 0))
      → (r : ℕ) × (get_thread_with_min_runtime ops s ≡ some r)
        × Least (ops.elements (s.ready_lists 0)) (2 ^ 64 - 1) 0 r
  unfolding get_thread_with_min_runtime
  get_thread_with_min_runtime-Least free none_locked =
      let (r, e, l) =
        min_thread_from-Least (ops.elements (s.ready_lists 0)) (2 ^ 64 - 1) 0 none_locked in
      (r, simp free e, l)
