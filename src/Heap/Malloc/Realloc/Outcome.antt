-- ===== src/Heap/Malloc/Realloc/Outcome.antt =====
-- What `_krealloc` of kernel/mm/heap/heap.c comes to, and its last branch.
use angl_os.Base.{
  ℕ, ◌+◌, ◌*◌, ◌^◌, ◌≤◌, ◌<◌, ◌≡◌, ◌≢◌, ◌⊎◌, ◌↔◌, refl, inl, inr, ap, ◌∙◌, sym, true, List, arith,
  u64, sub64, ltb, leb, ==_iff, ==_ne, if◌then◌else◌, and_true, leb→le, ltb→lt,
}
use angl_os.KernelLists.{ListOps}
use angl_os.CString.{Memory, memmove}
use angl_os.Heap.{Tag, Heap, blk_size}
use angl_os.Heap.Segments.{At-range}
use angl_os.Heap.Valid.{IsHeap, UsedIn}
use angl_os.Heap.Malloc.{raw_kmalloc, raw_kfree}
use angl_os.Heap.Malloc.Spec.Allocate.{raw_kmalloc_lem}
use angl_os.Heap.Malloc.Spec.Release.{raw_kfree_lem}
use angl_os.Heap.Malloc.Realloc.{has_words, move_block}
use angl_os.Heap.Malloc.Realloc.Resized.{Resized, Resized-same}
use native.Mathlib.Decide.{ℕ_discrete}
use mathlib.Core.Path.{subst}

-- The heap `u` has the blocks in use of `bs`, and its break has fewer than `size + 288` bytes left.
pub record Failed (ops : ListOps) (first : ℕ) (bs : List Tag) (size : ℕ) (u : Heap ops)
    : Type 0 where
  pub blocks : List Tag
  pub heap : IsHeap ops first blocks u
  pub same : (q : ℕ) (d : Tag) → UsedIn first bs q d ↔ UsedIn first blocks q d
  pub full : u.memory.mem_max_addr < u.memory.mem_brk + size + 288

-- `NULL` and the blocks in use as they were, or a pointer to a block with room for `size` bytes that is in
-- use for the one at `p`.
abbrev pub Outcome : (ops : ListOps) → ℕ → List Tag → ℕ → ℕ → ℕ × Heap ops → Type 0
Outcome ops first bs p size r =
    ((r.0 ≡ 0) × Failed ops first bs size r.1)
    ⊎ ((a : ℕ) × (n : ℕ) × (r.0 ≡ a + 8) × (size + 16 ≤ 8 * n) × Resized ops first bs p n a r.1)

pub Outcome-same :
    (ops : ListOps) (first : ℕ) (bs cs : List Tag) (p size : ℕ) (r : ℕ × Heap ops)
    → ((q : ℕ) (d : Tag) → UsedIn first bs q d ↔ UsedIn first cs q d)
    → Outcome ops first bs p size r
    → Outcome ops first cs p size r
Outcome-same ops first bs cs p size r same (inl (e, f)) = inl (
  e,
  record {
    blocks = f.blocks;
    heap = f.heap;
    same = λ q d. (λ k. (f.same q d).0 ((same q d).1 k), λ k. (same q d).0 ((f.same q d).1 k));
    full = f.full;
  },
)
Outcome-same ops first bs cs p size r same (inr (a, n, e, room, g)) =
    inr (a, n, e, room, Resized-same ops first bs cs p n a r.1 same g)

pub has_words-fits : (n words : ℕ) → words < 2 ^ 40 → has_words n words ≡ true → n + 8 ≤ words
unfolding has_words
has_words-fits n words small h =
    let (lt, le) = and_true (ltb n words) (leb 8 (sub64 words n)) h in
    let l = ltb→lt n words lt in let m = leb→le 8 (sub64 words n) le in omega arith

module _ (ops : ListOps) (first : ℕ) where
  -- The bytes of the payloads do not matter to the blocks.
  pub bytes-IsHeap :
      (bs : List Tag) (s : Heap ops) (m : Memory)
      → IsHeap ops first bs s
      → IsHeap ops first bs (record s { bytes = m })
  bytes-IsHeap bs s m h = record {
    blocks = h.blocks;
    low = h.low;
    high = h.high;
    lists = h.lists;
    placed = h.placed;
  }

  pub move_block_lem :
      (bs : List Tag) (s : Heap ops) (p : ℕ) (b : Tag) (size : ℕ)
      → IsHeap ops first bs s
      → UsedIn first bs p b
      → size ≢ 0
      → size < 2 ^ 30
      → Outcome ops first bs p size (move_block ops (p + 8) size s)
  unfolding move_block
  move_block_lem bs s p b size h used some_size small =
      let r = raw_kmalloc ops size s in
      let old = sub64 (u64 (blk_size ops (sub64 (p + 8) 8) r.1 * 8)) 16 in
      let n = if ltb size old then size else old in
      let t = record (r.1) { bytes = memmove r.0 (p + 8) n (r.1).bytes } in
      elim (raw_kmalloc_lem ops first bs size s h small) [
        | inl (null, why) ↦
            let none_got : r.0 ≡ 0 = ap (λ z. z.0) null in
            let eq : move_block ops (p + 8) size s ≡ (0, s) =
              ap (λ z. if z then (0, r.1) else (r.0, raw_kfree ops (p + 8) t))
                ((==_iff r.0 0).1 none_got)
              ∙ ap (λ (z : ℕ × Heap ops). (0, z.1)) null in
            subst (Outcome ops first bs p size) (sym eq) (
              inl (
                refl,
                record {
                  blocks = bs;
                  heap = h;
                  same = λ q d. (λ k. k, λ k. k);
                  full = elim why [
                    | inl zero_size ↦ absurd (some_size zero_size)
                    | inr full ↦ full
                  ];
                },
              ))
        | inr (a, words, e, room, given) ↦
            let eq : move_block ops (p + 8) size s ≡ (r.0, raw_kfree ops (p + 8) t) =
              ap (λ z. if z then (0, r.1) else (r.0, raw_kfree ops (p + 8) t))
                (==_ne r.0 0 (λ z. omega (arith, e))) in
            let mine = (given.live p b).1 (inl used) in
            let freed =
              raw_kfree_lem ops first given.blocks t p b
                (bytes-IsHeap given.blocks r.1 (memmove r.0 (p + 8) n (r.1).bytes) given.heap)
                mine in
            subst (Outcome ops first bs p size) (sym eq) (
              inr (
                a,
                words,
                e,
                room,
                record {
                  blocks = freed.blocks;
                  heap = freed.heap;
                  block = given.block;
                  room = given.room;
                  moved = λ d w. absurd (given.new d w);
                  live = λ q d. (
                    λ w.
                        let (was, ne) = (freed.live q d).0 w in
                        elim ((given.live q d).0 was) [
                          | inl old_one ↦ inl (old_one, ne)
                          | inr here ↦ inr here
                        ],
                    λ w. (freed.live q d).1 (elim w [
                      | inl (old_one, ne) ↦ ((given.live q d).1 (inl old_one), ne)
                      | inr here ↦ (
                        (given.live q d).1 (inr here),
                        (λ k. given.new b (subst (λ z. UsedIn first bs z b) (sym k ∙ here.0) used)),
                      )
                    ]),
                  );
                },
              ))
      ]

  pub same-Resized :
      (bs : List Tag) (s : Heap ops) (p : ℕ) (b : Tag) (n : ℕ)
      → IsHeap ops first bs s
      → UsedIn first bs p b
      → n ≤ b.size
      → Resized ops first bs p n p s
  same-Resized bs s p b n h used le = record {
    blocks = bs;
    heap = h;
    block = b;
    room = le;
    moved = λ d w. refl;
    live = λ q d. (
      λ w. elim (ℕ_discrete q p) [
        | no ne ↦ inl (w, ne)
        | yes e ↦
            let (lo, hi, large, tag) = At-range s.tags first bs q d h.blocks w.0 in
            let (lo', hi', large', tag') = At-range s.tags first bs p b h.blocks used.0 in
            inr (e, sym tag ∙ ap s.tags e ∙ tag')
      ],
      λ w. elim w [
        | inl old ↦ old.0
        | inr (e, f) ↦
            subst (λ z. UsedIn first bs z d) (sym e) (subst (UsedIn first bs p) (sym f) used)
      ],
    );
  }
