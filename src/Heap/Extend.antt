-- ===== src/Heap/Extend.antt =====
-- `extend_heap` of kernel/mm/heap/heap.c: a block at the end of the heap, and the fence behind it.
use angl_os.Base.{
  ℕ, ◌+◌, ◌-◌, ◌*◌, ◌^◌, ◌≤◌, ◌<◌, ◌≡◌, ◌⊎◌, refl, inl, inr, ap, ◌∙◌, sym, false, List, [], ◌∷◌,
  ◌++◌, arith, sub64, u64, u32, ◌==◌, ==_ne, update, update_self, update_ne, if◌then◌else◌,
}
use angl_os.KernelLists.{ListOps}
use angl_os.KernelLists.Members.{Holds}
use angl_os.AddressSpace.{HeapMemory, mem_sbrk}
use angl_os.AddressSpace.Flags.{mem_sbrk-cases}
use angl_os.Heap.{
  Tag, Heap, fence, get_seg_index, coalesce, mark_block_free, push_free, set_tag, next_blk,
  extend_heap,
}
use angl_os.Heap.Segments.{total, total-append, Seg, Seg-append, Seg-frame}
use angl_os.Heap.FreeLists.{
  FreeIn, FreeIn-append, FreeIn-one, FreeIn-range, Lists, Lists-iff, push_free-Lists,
}
use angl_os.Heap.Marks.{Marked-Seg, mark_block_free_lem, mark_block_free-frame}
use angl_os.Heap.Valid.{IsHeap, Placed, Placed-fits}
use angl_os.Heap.Merge.{Merged}
use angl_os.Heap.Merge.Cases.{coalesce_lem}
use mathlib.Core.Path.{subst}

module _ (ops : ListOps) (first : ℕ) where
  -- the heap with a free block of `words` words behind its last one
  pub appended : ℕ → ℕ → Heap ops → Heap ops
  appended blk words s =
      let marked = push_free ops blk (mark_block_free ops blk words s) in
      set_tag ops (next_blk ops blk marked) fence marked

  appended-IsHeap :
      (bs : List Tag) (words : ℕ) (s t : Heap ops) (a : ℕ)
      → IsHeap ops first bs s
      → a ≡ first + 8 * total bs
      → 8 ≤ words
      → t.tags ≡ s.tags
      → t.free_lists ≡ s.free_lists
      → Placed first (total bs + words) t.memory
      → IsHeap ops first (bs ++ (record { size = words; inuse = false } ∷ [])) (appended a words t)
  unfolding appended push_free set_tag next_blk
  appended-IsHeap bs words s t a h ea large tags_eq lists_eq placed =
      let (small, word) = Placed-fits first (total bs + words) t.memory placed in
      let start = placed.start in
      let f : Tag = record { size = words; inuse = false } in
      let v = mark_block_free ops a words t in
      let free = mark_block_free_lem ops a words t large (omega arith) (omega arith) in
      let old : Lists ops (FreeIn first bs) t =
        subst (λ (g : ℕ → ops.Lst). (i : ℕ) → Holds (FreeIn first bs i) (ops.elements (g i)))
          (sym lists_eq) h.lists in
      let (l, m) = mark_block_free-frame ops (FreeIn first bs) a words t old in
      let n = next_blk ops a (push_free ops a v) in
      let en : n ≡ first + 8 * (total bs + words) =
        ap (λ g. u64 (a + 8 * g.size)) free.head ∙ omega arith in
      let u = update v.tags n fence in
      let below : (x : ℕ) → x < n → u x ≡ v.tags x =
        λ x lt. update_ne v.tags n x fence (λ e. omega arith) in
      let sum : total (bs ++ (f ∷ [])) ≡ total bs + words =
        total-append bs (f ∷ []) ∙ omega arith in
      let idx : get_seg_index (v.tags a).size ≡ get_seg_index words =
        ap (λ g. get_seg_index g.size) free.head in
      record {
        blocks =
            Seg-append u first bs (f ∷ [])
              (Seg-frame s.tags u first bs
                (λ x lo hi.
                  below x (omega arith) ∙ free.same x (inl (omega arith)) ∙ ap (λ g. g x) tags_eq)
                h.blocks)
              (Seg-frame v.tags u (first + 8 * total bs) (f ∷ []) (λ x lo hi. below x (omega arith))
                (subst (λ e. Seg v.tags e (f ∷ [])) ea (Marked-Seg t.tags v.tags a f free large)));
        low =
            below (first - 8) (omega arith)
            ∙ free.same (first - 8) (inl (omega arith))
            ∙ ap (λ g. g (first - 8)) tags_eq
            ∙ h.low;
        high = ap u (omega (arith, en, sum)) ∙ update_self v.tags n fence;
        lists =
            Lists-iff ops
              (λ i q. FreeIn first bs i q ⊎ ((q ≡ a + 8) × (i ≡ get_seg_index (v.tags a).size)))
              (FreeIn first (bs ++ (f ∷ []))) (push_free ops a v)
              (λ i q.
                let both = FreeIn-append first bs (f ∷ []) i q in
                let one = FreeIn-one (first + 8 * total bs) f i q in
                (
                  λ c. elim c [
                    | inl o ↦ both.1 (inl o)
                    | inr (e1, e2) ↦ both.1 (inr (one.1 (refl, omega (arith, e1, ea), e2 ∙ idx)))
                  ],
                  λ w. elim (both.0 w) [
                    | inl o ↦ inl o
                    | inr z ↦
                        let (e0, e1, e2) = one.0 z in inr (omega (arith, e1, ea), e2 ∙ sym idx)
                  ],
                ))
              (push_free-Lists ops (FreeIn first bs) a v (omega arith) l (λ w.
                let (lo, hi) =
                  FreeIn-range s.tags first bs (get_seg_index (v.tags a).size) (a + 8) h.blocks w in
                omega arith));
        placed =
            subst (λ k. Placed first k (appended a words t).memory) (sym sum)
              (subst (Placed first (total bs + words)) (sym m) placed);
      }

  -- `extend_heap` changes nothing where `mem_sbrk` does; else the heap has its blocks and `words` words
  -- more, which are free, and those in use are the same.
  pub extend_heap_lem :
      (bs : List Tag) (words : ℕ) (s : Heap ops)
      → IsHeap ops first bs s
      → 8 ≤ words
      → words * 8 < 2 ^ 31
      → ((s.memory.mem_max_addr < s.memory.mem_brk + words * 8)
          × (extend_heap ops words s ≡ (0, s)))
        ⊎ Merged ops first
            (bs ++ (record { size = words; inuse = false } ∷ []))
            (record { size = words; inuse = false })
            (extend_heap ops words s)
  unfolding extend_heap appended
  extend_heap_lem bs words s h large small =
      let p = h.placed in
      let (n1, n2) = Placed-fits first (total bs) s.memory p in
      let exact : u32 (words * 8) ≡ words * 8 = omega arith in
      let f : Tag = record { size = words; inuse = false } in
      let body : ℕ × HeapMemory → ℕ × Heap ops = λ r.
        let t = record s { memory = r.1 } in
        if r.0 == 0 then (0, t) else coalesce ops (sub64 r.0 8) (appended (sub64 r.0 8) words t) in
      elim (mem_sbrk-cases (words * 8) s.memory small (omega (arith, p.brk))) [
        | inl (full, refused) ↦
            inl (full, ap (λ k. body (mem_sbrk k s.memory)) exact ∙ ap body refused)
        | inr (fits, granted) ↦
            let b = s.memory.mem_brk in
            let m = record s.memory { mem_brk = b + words * 8 } in
            let t = record s { memory = m } in
            let a = sub64 b 8 in
            let ea : a ≡ first + 8 * total bs = omega (arith, p.brk) in
            let heap = appended-IsHeap bs words s t a h ea large refl refl (record {
              start = p.start;
              brk = omega (arith, p.brk);
              below = fits;
              small = p.small;
              word = p.word;
            }) in
            let some_brk : (b == 0) ≡ false = ==_ne b 0 (λ e. omega (arith, p.brk)) in
            let eq : extend_heap ops words s ≡ coalesce ops a (appended a words t) =
              ap (λ k. body (mem_sbrk k s.memory)) exact
              ∙ ap body granted
              ∙ ap (λ z. if z then (0, t) else coalesce ops a (appended a words t)) some_brk in
            inr (
              subst (Merged ops first (bs ++ (f ∷ [])) f) (sym eq)
                ((coalesce_lem ops first bs f [] (appended a words t) a ea refl heap).merged))
      ]
