-- ===== src/AddressSpace/Flags.antt =====
-- The flags of kernel/mm/addressspace/addressspace.c, and the break of kernel/mm/heap/memlib.c.
use angl_os.Base.{
  ℕ, ◌+◌, ◌-◌, ◌*◌, ◌/◌, ◌%◌, ◌^◌, ◌≤◌, ◌<◌, ◌≡◌, ◌⊎◌, refl, inl, inr, ap, true, ◌||◌, arith, leb,
  ltb, ◌==◌, u64, all_below, all_below_sound, ==_iff, Bool-cases,
}
use angl_os.AddressSpace.{conv_addr_space_flags_to_paging, HeapMemory, mem_sbrk, mem_heapsize}

abbrev flags_sum : ℕ → ℕ
flags_sum flags =
    1 + 2 * (flags / 2 % 2) + 4 * (flags / 16 % 2) + 16 * (flags / 8 % 2) + 2 ^ 63 * (1 - flags % 2)

flags_table : all_below 32 (λ f. conv_addr_space_flags_to_paging f == flags_sum f) ≡ true
unfolding all_below conv_addr_space_flags_to_paging
flags_table = refl

-- The flags of an entry for a page table: present always, and not executable, writeable, for the
-- user and uncached as the five flags of the address space say.
pub conv_flags_lem :
    (flags : ℕ) → flags < 32 → conv_addr_space_flags_to_paging flags ≡ flags_sum flags
conv_flags_lem flags h = (==_iff _ _).0 (all_below_sound 32 _ flags flags_table h)

-- The break lies inside the heap, which lies below the end of the memory.
pub record InHeap (h : HeapMemory) : Type 0 where
  pub above : h.mem_start_brk ≤ h.mem_brk
  pub below : h.mem_brk ≤ h.mem_max_addr
  pub word : h.mem_max_addr + 2 ^ 32 < 2 ^ 64

-- `mem_sbrk` of an `int` keeps a break inside the heap there: it returns the break from before and the heap has
-- grown by `incr` bytes, or it returns `NULL` and changes nothing.
pub mem_sbrk_lem :
    (incr : ℕ) (h : HeapMemory)
    → InHeap h
    → incr < 2 ^ 32
    → InHeap (mem_sbrk incr h).1
      × ((((mem_sbrk incr h).0 ≡ h.mem_brk)
            × (mem_heapsize (mem_sbrk incr h).1 ≡ mem_heapsize h + incr))
          ⊎ (mem_sbrk incr h ≡ (0, h)))
unfolding mem_sbrk mem_heapsize
mem_sbrk_lem incr h ok small =
    elim (Bool-cases (leb (2 ^ 31) incr || ltb h.mem_max_addr (u64 (h.mem_brk + incr)))) [
      | inl refused ↦ rw refused (ok, inr refl)
      | inr granted ↦
          let fits : h.mem_brk + incr ≤ h.mem_max_addr = ground (arith, ok.below, ok.word) in
          rw granted (
            record {
              above = omega (arith, ok.above, ok.word, fits);
              below = omega (arith, ok.word, fits);
              word = ok.word;
            },
            inl (refl, omega (arith, ok.above, ok.word, fits)),
          )
    ]

-- `mem_sbrk` of a positive `int`.
pub mem_sbrk-cases :
    (incr : ℕ) (h : HeapMemory)
    → incr < 2 ^ 31
    → h.mem_brk + incr < 2 ^ 64
    → ((h.mem_max_addr < h.mem_brk + incr) × (mem_sbrk incr h ≡ (0, h)))
      ⊎ ((h.mem_brk + incr ≤ h.mem_max_addr)
          × (mem_sbrk incr h ≡ (h.mem_brk, record h { mem_brk = h.mem_brk + incr })))
unfolding mem_sbrk
mem_sbrk-cases incr h small fits =
    let sum : u64 (h.mem_brk + incr) ≡ h.mem_brk + incr = omega arith in
    elim (Bool-cases (leb (2 ^ 31) incr || ltb h.mem_max_addr (u64 (h.mem_brk + incr)))) [
      | inl refused ↦ inl (ground arith, rw refused refl)
      | inr granted ↦
          inr (ground arith, rw granted (ap (λ (e : ℕ). (h.mem_brk, record h { mem_brk = e })) sum))
    ]
