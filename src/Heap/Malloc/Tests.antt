-- ===== src/Heap/Malloc/Tests.antt =====
-- The heap of kernel/mm/heap/heap.c with lists as they are: a block of 8 words in use and a free
-- block of 36 words.
use angl_os.Base.{
  ℕ, ◌+◌, ◌*◌, ◌≤◌, ◌<◌, ◌≡◌, ◌≢◌, ◌⊎◌, ◌↔◌, refl, sym, ap, ◌∙◌, inl, inr, Bool, true, false, ◌||◌,
  List, [], ◌∷◌, ◌==◌, if◌then◌else◌, arith, ==_iff, ==_ne,
}
use angl_os.KernelLists.Plain.{plain_lists}
use angl_os.KernelLists.Members.{Holds, Listed, Listed-cases, here}
use angl_os.Paging.{Paging}
use angl_os.Heap.{
  Tag, Heap, fence, align, request_words, get_seg_index, blk_size, place, push_free,
  mark_block_free, set_header_and_footer, set_tag, get_footer, next_blk, mark_block_used, blk_free,
  coalesce, extend_heap, prev_blk, size_field, unlink,
}
use angl_os.Heap.FreeLists.{FreeIn, FreeIn-append, FreeIn-one, FreeIn-used, Lists}
use angl_os.Heap.Valid.{IsHeap, UsedIn}
use angl_os.Heap.Malloc.{
  allocate, find_fit, find_from, find_in_list, raw_kmalloc, raw_kfree, init_kernel_heap,
}
use angl_os.Heap.Malloc.Spec.{Given}
use angl_os.Heap.Malloc.Spec.Allocate.{raw_kmalloc_lem}
use angl_os.Heap.Malloc.Spec.Release.{Freed, used-Outside, raw_kfree_lem}
use angl_os.Heap.Malloc.Init.{init_kernel_heap_lem}
use angl_os.Heap.Malloc.Runs.{Held, Calls, Disjoint, Within}
use angl_os.Heap.Malloc.Runs.Steps.{Calls-Disjoint}
use angl_os.Heap.Malloc.Realloc.{raw_krealloc}
use angl_os.Heap.Malloc.Realloc.Spec.{Reallocated, raw_krealloc_lem}
use angl_os.Heap.Merge.{Joined, merge_blocks}
use angl_os.Heap.Merge.Cases.{coalesce_lem}
use native.Mathlib.Decide.{ℕ_discrete}
use mathlib.Core.Path.{subst}

abbrev used_8 : Tag
used_8 = record { size = 8; inuse = true }

abbrev free_36 : Tag
free_36 = record { size = 36; inuse = false }

abbrev two_blocks : List Tag
two_blocks = used_8 ∷ free_36 ∷ []

abbrev pages : Paging
pages = record {
  words = λ a. 0;
  cr3 = 0x1000;
  bsp_cr3 = 0;
  lock = false;
  bulk = λ i. 0;
  curr = 63;
  pmm = record {
    memory = λ a. 0;
    bitmaps = λ l. record { base = 0; free = 0; size = 0 };
    entries = [];
    mem_size = 0;
    bitmap_size = 0;
    bitmap_base = 0;
    free_mem = 0;
  };
}

abbrev two_tags : ℕ → Tag
two_tags a =
    if (a == 4096) || (a == 4152)
    then used_8
    else (if (a == 4160) || (a == 4440) then free_36 else fence)

abbrev heap : Heap plain_lists
heap = record {
  tags = two_tags;
  bytes = λ a. 0;
  free_lists = λ i. if i == 3 then 4168 ∷ [] else [];
  heap_listp = 4096;
  lock = false;
  memory = record { mem_start_brk = 4072; mem_brk = 4456; mem_max_addr = 65536; paging = pages };
}

free_36-index : get_seg_index 36 ≡ 3
unfolding get_seg_index
free_36-index = refl

heap-FreeIn : (i q : ℕ) → FreeIn 4096 two_blocks i q ↔ ((q ≡ 4168) × (i ≡ 3))
heap-FreeIn i q =
    let both = FreeIn-append 4096 (used_8 ∷ []) (free_36 ∷ []) i q in
    let one = FreeIn-one 4160 free_36 i q in
    (
      λ f. elim (both.0 f) [
        | inl u ↦ absurd (FreeIn-used 4096 used_8 i q refl u)
        | inr w ↦ let (free, e, k) = one.0 w in (e, k ∙ free_36-index)
      ],
      λ (e, k). both.1 (inr (one.1 (refl, e, k ∙ sym free_36-index))),
    )

heap-Lists : Lists plain_lists (FreeIn 4096 two_blocks) heap
heap-Lists i = elim (ℕ_discrete i 3) [
  | yes three ↦
      subst (λ l. Holds (FreeIn 4096 two_blocks i) l)
        (sym (ap (λ (z : Bool). if z then 4168 ∷ [] else []) ((==_iff i 3).1 three)))
        (record {
          members = λ q. (
            λ k. elim (Listed-cases q 4168 [] k) [
              | inl e ↦ (heap-FreeIn i q).1 (e, three)
              | inr nothing ↦ elim nothing [ ]
            ],
            λ f. subst (λ z. Listed z (4168 ∷ [])) (sym ((heap-FreeIn i q).0 f).0) here,
          );
          unique = (tt, tt);
        })
  | no other ↦
      subst (λ l. Holds (FreeIn 4096 two_blocks i) l)
        (sym (ap (λ (z : Bool). if z then 4168 ∷ [] else []) (==_ne i 3 other)))
        (record {
          members = λ q. (λ k. elim k [ ], λ f. absurd (other ((heap-FreeIn i q).0 f).1));
          unique = tt;
        })
]

heap-IsHeap : IsHeap plain_lists 4096 two_blocks heap
heap-IsHeap = record {
  blocks = (refl, refl, omega arith, (refl, refl, omega arith, tt));
  low = refl;
  high = refl;
  lists = heap-Lists;
  placed = record {
    start = omega arith;
    brk = refl;
    below = omega arith;
    small = omega arith;
    word = omega arith;
  };
}

raw_kmalloc_lem_example :
    ((raw_kmalloc plain_lists 100 heap ≡ (0, heap))
      × (((◌≡◌ {A = ℕ}) 100 0) ⊎ (heap.memory.mem_max_addr < heap.memory.mem_brk + 100 + 288)))
    ⊎ ((p : ℕ) × (n : ℕ) × ((raw_kmalloc plain_lists 100 heap).0 ≡ p + 8)
        × (100 + 16 ≤ 8 * n)
        × Given plain_lists 4096 two_blocks n p (raw_kmalloc plain_lists 100 heap).1)
raw_kmalloc_lem_example =
    raw_kmalloc_lem plain_lists 4096 two_blocks 100 heap heap-IsHeap (omega arith)

raw_kfree_lem_example : Freed plain_lists 4096 two_blocks 4096 (raw_kfree plain_lists 4104 heap)
raw_kfree_lem_example =
    raw_kfree_lem plain_lists 4096 two_blocks heap 4096 used_8 heap-IsHeap (inl (refl, refl), refl)

-- before the first block
abbrev no_blocks : Heap plain_lists
no_blocks = record {
  tags = λ a. fence;
  bytes = λ a. 0;
  free_lists = λ i. [];
  heap_listp = 0;
  lock = false;
  memory = record { mem_start_brk = 4072; mem_brk = 4072; mem_max_addr = 65536; paging = pages };
}

init_kernel_heap_lem_example :
    ((init_kernel_heap plain_lists no_blocks).0 ≡ 0)
    × ((bs : List Tag) × IsHeap plain_lists 4096 bs (init_kernel_heap plain_lists no_blocks).1
        × ((p : ℕ) (d : Tag) → ¬ (UsedIn 4096 bs p d)))
init_kernel_heap_lem_example =
    init_kernel_heap_lem plain_lists no_blocks
      (record { start = omega arith; room = omega arith; small = omega arith; word = omega arith })

-- two calls of `_kmalloc`, and the first block freed
abbrev heap_1 : Heap plain_lists
heap_1 = (raw_kmalloc plain_lists 100 heap).1

abbrev heap_2 : Heap plain_lists
heap_2 = (raw_kmalloc plain_lists 50 heap_1).1

first_ptr : (raw_kmalloc plain_lists 100 heap).0 ≡ 4168
unfolding raw_kmalloc request_words align allocate find_fit find_from get_seg_index find_in_list
    blk_size
first_ptr = refl

second_ptr : (raw_kmalloc plain_lists 50 heap_1).0 ≢ 0
unfolding raw_kmalloc request_words align allocate find_fit find_from get_seg_index find_in_list
    blk_size place push_free mark_block_free set_header_and_footer set_tag get_footer next_blk
    mark_block_used blk_free coalesce extend_heap prev_blk size_field unlink
second_ptr e = let at : (raw_kmalloc plain_lists 50 heap_1).0 ≡ 4296 = refl in omega arith

abbrev calls_held : List Held
calls_held = ((raw_kmalloc plain_lists 50 heap_1).0, 50) ∷ []

three_calls :
    Calls plain_lists heap calls_held
      (raw_kfree plain_lists (raw_kmalloc plain_lists 100 heap).0 heap_2)
three_calls =
    Calls.free calls_held [] (raw_kmalloc plain_lists 100 heap).0 100
      (Calls.malloc 50 (Calls.malloc 100 Calls.start (omega arith) (λ e. omega (arith, first_ptr)))
        (omega arith) second_ptr)
      refl

Calls-Disjoint_example :
    Disjoint calls_held
    × Within 4096
        (raw_kfree plain_lists (raw_kmalloc plain_lists 100 heap).0 heap_2).memory.mem_brk
        calls_held
    × ((cs : List Tag) × IsHeap plain_lists 4096 cs
          (raw_kfree plain_lists (raw_kmalloc plain_lists 100 heap).0 heap_2))
Calls-Disjoint_example =
    Calls-Disjoint plain_lists 4096 two_blocks heap
      (raw_kfree plain_lists (raw_kmalloc plain_lists 100 heap).0 heap_2) calls_held heap-IsHeap
      three_calls

-- the first block marked free, and the free block behind it not joined yet
abbrev free_8 : Tag
free_8 = record { size = 8; inuse = false }

abbrev unjoined : Heap plain_lists
unjoined = push_free plain_lists 4096 (mark_block_free plain_lists 4096 8 heap)

unjoined-IsHeap : IsHeap plain_lists 4096 (free_8 ∷ free_36 ∷ []) unjoined
unjoined-IsHeap =
    merge_blocks plain_lists 4096 [] (used_8 ∷ []) (free_36 ∷ []) heap heap 4096 4096 8 heap-IsHeap
      (omega arith) refl refl refl refl refl
      (used-Outside plain_lists 4096 [] used_8 (free_36 ∷ []) heap heap-IsHeap refl)

coalesce_lem_example :
    Joined plain_lists 4096
      (free_8 ∷ free_36 ∷ [])
      free_8
      []
      44
      []
      (coalesce plain_lists 4096 unjoined)
coalesce_lem_example =
    coalesce_lem plain_lists 4096 [] free_8 (free_36 ∷ []) unjoined 4096 refl refl unjoined-IsHeap

raw_krealloc_lem_example :
    Reallocated plain_lists 4096 two_blocks 4096 200 (raw_krealloc plain_lists 4104 200 heap)
raw_krealloc_lem_example =
    raw_krealloc_lem plain_lists 4096 two_blocks heap 4096 used_8 200 heap-IsHeap
      (inl (refl, refl), refl) (omega arith)
