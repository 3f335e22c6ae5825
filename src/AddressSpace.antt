-- ===== src/AddressSpace.antt =====
-- Address spaces, kernel/mm/addressspace/addressspace.c, and the memory below the kernel heap,
-- kernel/mm/heap/memlib.c, both over the page tables.
pub mod Flags
mod Tests
use angl_os.Base.{
  ℕ, zero, suc, ◌+◌, ◌-◌, ◌*◌, ◌/◌, ◌%◌, ◌^◌, Bool, true, false, not, ◌||◌, Option, none, some,
  List, [], ◌∷◌, ◌++◌, bit_and, bit_or, ltb, leb, ◌==◌, if◌then◌else◌, u64, sub64, ◌>>=◌, get_elem?,
  set,
}
use angl_os.Pmm.{page_size}
use angl_os.Paging.{Paging, get_num_pages}
use angl_os.Paging.Map.{vmalloc, vmalloc_cr3, vflags_cr3}
use angl_os.Paging.Unmap.{vfree}

-- `convAddrSpaceFlagsToPaging`
pub conv_addr_space_flags_to_paging : ℕ → ℕ
conv_addr_space_flags_to_paging flags =
    let present : ℕ = 1 in
    let no_exec = if bit_and flags 1 == 0 then bit_or present 0x8000000000000000 else present in
    let write = if bit_and flags 2 == 0 then no_exec else bit_or no_exec 2 in
    let uncached = if bit_and flags 8 == 0 then write else bit_or write 0x10 in
    if bit_and flags 16 == 0 then uncached else bit_or uncached 4

-- `address_space_entry_t`
pub record AddressSpaceEntry : Type 0 where
  pub type : ℕ
  pub flags : ℕ
  pub size : ℕ
  pub addr_start : ℕ

-- `address_space_t`, with its entries in a row; the blocks of the heap that hold them are not
-- modelled
pub record AddressSpace : Type 0 where
  pub cr3 : ℕ
  pub entries : List AddressSpaceEntry

-- `ALIGN_TO_PAGE`
abbrev pub align_to_page : ℕ → ℕ
align_to_page vptr = vptr / page_size * page_size

-- `addressSpaceNew`
pub address_space_new : ℕ → AddressSpace
address_space_new cr3 = record { cr3 = cr3; entries = [] }

-- `addressSpaceAddEntry`; `none` waits for the lock of the page tables
pub address_space_add_entry : AddressSpace → ℕ → ℕ → ℕ → ℕ → Paging → Option (AddressSpace × Paging)
address_space_add_entry space type flags size start s = do
  (ptr, t) ←
      vmalloc_cr3 (align_to_page start) (get_num_pages size) (conv_addr_space_flags_to_paging flags)
        space.cr3 s
  some (
    record space {
      entries =
          space.entries
          ++ (record { type = type; flags = flags; size = size; addr_start = start } ∷ []);
    },
    t,
  )

-- `addressSpaceChangeFlags`: the flags from before; `none` also reads behind the last entry
pub address_space_change_flags : AddressSpace → ℕ → ℕ → Paging → Option (ℕ × AddressSpace × Paging)
address_space_change_flags space entry flags s = do
  e ← get_elem? space.entries entry
  t ←
      vflags_cr3 (align_to_page e.addr_start) (get_num_pages e.size)
        (conv_addr_space_flags_to_paging flags) space.cr3 s
  some (e.flags, record space { entries = set space.entries entry (record e { flags = flags }) }, t)

-- The static variables of memlib.c, over the page tables.
pub record HeapMemory : Type 0 where
  pub mem_start_brk : ℕ
  pub mem_brk : ℕ
  pub mem_max_addr : ℕ
  pub paging : Paging

-- `kheap_base`
abbrev pub kheap_base : ℕ
kheap_base = 0xFFFF900000000000

-- `initKernelHeapMem`, for a heap of `max_heap` bytes
pub init_kernel_heap_mem : ℕ → HeapMemory → Option (ℕ × HeapMemory)
init_kernel_heap_mem max_heap h = do
  (start, t) ←
      vmalloc kheap_base (max_heap / page_size) (bit_or (bit_or 1 2) 0x8000000000000000) h.paging
  let failed = record h { mem_start_brk = start; paging = t }
  let done = record failed { mem_max_addr = u64 (start + max_heap); mem_brk = start }
  some (if start == 0 then (2 ^ 32 - 1, failed) else (0, done))

-- `mem_deinit`
pub mem_deinit : ℕ → HeapMemory → Option HeapMemory
mem_deinit max_heap h = do
  t ← vfree h.mem_start_brk (max_heap / page_size) true h.paging
  some (record h { paging = t })

-- `mem_sbrk`, of an `int` in 32 bits
pub mem_sbrk : ℕ → HeapMemory → ℕ × HeapMemory
mem_sbrk incr h =
    if leb (2 ^ 31) incr || ltb h.mem_max_addr (u64 (h.mem_brk + incr))
    then (0, h)
    else (h.mem_brk, record h { mem_brk = u64 (h.mem_brk + incr) })

-- `mem_reset_brk`, `mem_heap_lo`, `mem_heap_hi` and `mem_heapsize`
pub mem_reset_brk : HeapMemory → HeapMemory
mem_reset_brk h = record h { mem_brk = h.mem_start_brk }

pub mem_heap_lo : HeapMemory → ℕ
mem_heap_lo h = h.mem_start_brk

pub mem_heap_hi : HeapMemory → ℕ
mem_heap_hi h = sub64 h.mem_brk 1

pub mem_heapsize : HeapMemory → ℕ
mem_heapsize h = sub64 h.mem_brk h.mem_start_brk
