-- ===== src/AddressSpace/Tests.antt =====
-- The flags of a stack, and a heap of 1 MiB of which 4096 bytes are in use.
use angl_os.Base.{false, [], arith}
use angl_os.AddressSpace.{HeapMemory}
use angl_os.AddressSpace.Flags.{InHeap}

abbrev heap : HeapMemory
heap = record {
  mem_start_brk = 0xFFFF900000000000;
  mem_brk = 0xFFFF900000001000;
  mem_max_addr = 0xFFFF900000100000;
  paging = record {
    words = λ a. 0;
    cr3 = 0x1000;
    bsp_cr3 = 0;
    lock = false;
    bulk = λ i. 0;
    curr = 63;
    pmm = record {
      memory = λ a. 0;
      bitmaps = λ l. record { base = 0; free = 0; size = 0 };
      entries = [];
      mem_size = 0;
      bitmap_size = 0;
      bitmap_base = 0;
      free_mem = 0;
    };
  };
}

heap-InHeap : InHeap heap
heap-InHeap = record { above = omega arith; below = omega arith; word = omega arith }
