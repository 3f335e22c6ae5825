-- ===== src/Heap/Malloc/Init.antt =====
-- `initKernelHeap` of kernel/mm/heap/heap.c.
use angl_os.Base.{
  ℕ, ◌+◌, ◌-◌, ◌^◌, ◌≤◌, ◌<◌, ◌≡◌, refl, inl, inr, ap, ◌∙◌, sym, false, List, [], ◌∷◌, ◌++◌, arith,
  ◌==◌, ==_ne, u64, update, update_self, update_ne, if◌then◌else◌,
}
use angl_os.KernelLists.{ListOps}
use angl_os.KernelLists.Members.{Holds}
use angl_os.AddressSpace.{HeapMemory}
use angl_os.AddressSpace.Flags.{mem_sbrk-cases}
use angl_os.Heap.{Tag, Heap, fence, chunksize, set_tag, extend_heap}
use angl_os.Heap.FreeLists.{FreeIn}
use angl_os.Heap.Valid.{IsHeap, Placed, UsedIn, AllFree-cons, AllFree-nil}
use angl_os.Heap.Extend.{extend_heap_lem}
use angl_os.Heap.Malloc.{init_kernel_heap}
use mathlib.Core.Path.{subst}

-- The break of a heap that is still empty, with room for the fences and the first block.
pub record HasRoom (m : HeapMemory) : Type 0 where
  pub start : 16 ≤ m.mem_brk
  pub room : m.mem_brk + 320 ≤ m.mem_max_addr
  pub small : m.mem_max_addr < m.mem_brk + 2 ^ 34
  pub word : m.mem_max_addr + 2 ^ 35 < 2 ^ 64

module _ (ops : ListOps) where
  -- the heap before its first block
  abbrev bare : ℕ → HeapMemory → Heap ops → Heap ops
  bare initial memory s =
      let cleared = record s { memory = memory; free_lists = λ i. ops.list_init; lock = false } in
      let low = set_tag ops (u64 (initial + 16)) fence cleared in
      set_tag ops (u64 (initial + 24)) fence (record low { heap_listp = u64 (initial + 24) })

  bare-IsHeap :
      (initial : ℕ) (m : HeapMemory) (s : Heap ops)
      → Placed (initial + 24) 0 m
      → IsHeap ops (initial + 24) [] (bare initial m s)
  unfolding set_tag
  bare-IsHeap initial m s p =
      let e16 : u64 (initial + 16) ≡ initial + 16 = omega (arith, p.brk, p.below, p.word) in
      let e24 : u64 (initial + 24) ≡ initial + 24 = omega (arith, p.brk, p.below, p.word) in
      let t = update s.tags (u64 (initial + 16)) fence in
      record {
        blocks = tt;
        low =
            update_ne t (u64 (initial + 24)) (initial + 24 - 8) fence (λ e. omega arith)
            ∙ ap t (omega arith)
            ∙ update_self s.tags (u64 (initial + 16)) fence;
        high =
            ap (update t (u64 (initial + 24)) fence) (omega arith)
            ∙ update_self t (u64 (initial + 24)) fence;
        lists = λ i. subst (Holds (FreeIn (initial + 24) [] i)) (sym ops.init-elements) (record {
          members = λ q. (λ k. elim k [ ], λ f. let (a, b, lies, rest, e, l) = f in elim lies [ ]);
          unique = tt;
        });
        placed = p;
      }

  -- `initKernelHeap` with room for 320 bytes at the break returns 0, and makes a heap whose
  -- first block lies 24 bytes above the break and in which no block is in use.
  pub init_kernel_heap_lem :
      (s : Heap ops)
      → HasRoom s.memory
      → ((init_kernel_heap ops s).0 ≡ 0)
        × ((bs : List Tag) × IsHeap ops (s.memory.mem_brk + 24) bs (init_kernel_heap ops s).1
            × ((p : ℕ) (d : Tag) → ¬ (UsedIn (s.memory.mem_brk + 24) bs p d)))
  unfolding init_kernel_heap set_tag
  init_kernel_heap_lem s r =
      let b = s.memory.mem_brk in
      let body : ℕ × HeapMemory → ℕ × Heap ops = λ g.
        let x = extend_heap ops chunksize (bare g.0 g.1 s) in
        if g.0 == 0
        then (2 ^ 32 - 1, record s { memory = g.1 })
        else (if x.0 == 0 then (2 ^ 32 - 1, x.1) else (0, x.1)) in
      elim (mem_sbrk-cases 32 s.memory (omega arith) (omega (arith, r.room, r.word))) [
        | inl (full, refused) ↦ absurd (omega (arith, r.room))
        | inr (fits, granted) ↦
            let m = record s.memory { mem_brk = b + 32 } in
            let h = bare-IsHeap b m s (record {
              start = omega (arith, r.start);
              brk = omega arith;
              below = fits;
              small = omega (arith, r.small);
              word = r.word;
            }) in
            let x = extend_heap ops chunksize (bare b m s) in
            elim (extend_heap_lem ops (b + 24) [] chunksize (bare b m s) h (omega arith)
              (omega arith)) [
                | inl (full, refused) ↦ absurd (omega (arith, r.room))
                | inr merged ↦
                    let f : Tag = record { size = chunksize; inuse = false } in
                    let nothing = AllFree-cons f [] refl AllFree-nil in
                    let start : (b == 0) ≡ false = ==_ne b 0 (λ e. omega (arith, r.start)) in
                    let got : (x.0 == 0) ≡ false =
                      ==_ne x.0 0 (λ e. omega (arith, merged.address)) in
                    let eq : init_kernel_heap ops s ≡ (0, x.1) =
                      ap body granted
                      ∙ ap
                          (λ z.
                            if z
                            then (2 ^ 32 - 1, record s { memory = m })
                            else (if x.0 == 0 then (2 ^ 32 - 1, x.1) else (0, x.1)))
                          start
                      ∙ ap (λ z. if z then (2 ^ 32 - 1, x.1) else (0, x.1)) got in
                    (
                      ap (λ g. g.0) eq,
                      (
                        merged.before ++ (merged.block ∷ merged.after),
                        subst
                            (λ (g : ℕ × Heap ops).
                              IsHeap ops (b + 24) (merged.before ++ (merged.block ∷ merged.after))
                                g.1)
                            (sym eq) merged.heap,
                        (λ p d u. nothing (b + 24) p d ((merged.kept p d).1 u)),
                      ),
                    )
              ]
      ]
