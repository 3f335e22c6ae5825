-- ===== src/Lib.antt =====
-- AnglOS: a kernel for x86-64. This library models its memory management (the page
-- allocator, the page tables and the kernel heap), its scheduler, its input queue, its text console, its C
-- string functions, and the tables and queues through which it talks to the processor and to devices.
--
-- How the code is modelled. Numbers are the native naturals; a sum, product or difference of
-- `uint64_t` is reduced where the source's type reduces it (`u64`, `sub64`), and a byte by `u8`. A
-- function that changes a structure or static variables takes the state and returns it. A C array
-- or a piece of memory is a function from indices or addresses, changed by `update`. A loop that
-- counts is `for_up` or a recursion on the rounds left, and one that runs until a test fails takes
-- fuel. A spin lock that is held, and a fault, end a function with `none`.
--
-- Base has comparisons, words, bit operations and their laws, lists, stores and loops.
--
-- Pmm is kernel/mm/pmm/pmm.c. `Pmm` holds the static variables and the memory of the bitmaps;
-- `set_bit` to `update_bitmap_base` are pmmSetBit to pmmUpdateBitmapBase, Pmm.Init is initPMM, with
-- the boot loader's memory map as an argument, and Pmm.Alloc has pmmPropagateDown, pmalloc, coalesce
-- and pfree. The modules below Pmm.Alloc are about the set of free pages: Layout says how the
-- bitmaps lie in memory, Sound that no page is covered by two free blocks. A sound state has such a
-- layout, in which each bitmap has half the bytes of the one below: that of a memory that is a multiple
-- of 2 MiB. `keep_highest` and
-- `count_shifts` have as much fuel as their argument, which each round lowers.
--
-- Paging is kernel/mm/paging/paging.c, over the model of pmalloc and pfree. `Paging` holds its static
-- variables, the register cr3 and the words of the tables at their virtual addresses; the bytes of
-- the allocator's bitmaps are kept apart from these words. Paging.Map has vmalloc, videntity and
-- vflags, and Paging.Unmap pagingRemoveEntry, at level `depth + 1`, and vfree.
--
-- KernelLists is the interface of kernel/libc/kernel/list.c, `ListOps`, with its documented laws:
-- list_init makes an empty list, list_push_back adds at the end, list_remove takes out the first place
-- of an element and changes no list that the element is not in. KernelLists.Plain meets it with lists
-- as they are, and KernelLists.Members is about the elements as sets.
--
-- Heap is kernel/mm/heap/heap.c over that interface and the break of memlib.c. `Heap` holds the static
-- variables, the words that hold the sizes of blocks (`tags`) and the bytes of the payloads; the
-- links of the free lists, which the source keeps in the payloads, are those of the interface. Tags
-- and bytes are kept apart: what _kcalloc sets from address 0 on when it has no memory changes bytes
-- only, and is no fault. The
-- functions with an underscore in the source are `raw_kmalloc`, `raw_kcalloc`, `raw_kfree` and `raw_krealloc`.
-- Heap.Malloc has the calls, Heap.Malloc.Realloc those of krealloc. A heap (Heap.Valid) is a list of
-- blocks one behind the other between two fences, whose free blocks stand in the lists of their
-- sizes; the modules Place, Merge and Extend below Heap are about one function each, and
-- Heap.Malloc.Spec, Heap.Malloc.Realloc and Heap.Malloc.Runs about the blocks in use.
--
-- Threads is kernel/threads/thread.c: the thread with the least runtime, the timer, and the changes of
-- state, over lists as a parameter.
-- threadContextSwitch is assembly code that does not return; it ends a step of `thread_next`.
--
-- Input is kernel/device/input/iqueue.c and input.c, a ring of 32 bytes. iqueueGetc and iqueuePutc
-- take the list of what happens while they halt, and return nothing where they still wait at its
-- end. Input.Race has their shared accesses as steps of a writer and a reader.
--
-- Text is kernel/device/vga/text.c, graphicsPutpixel of graphics.c, and kernel/libc/kernel/console.c, which
-- prints through textPutc. CString is kernel/libc/string.c on a memory of bytes; the screen uses its
-- memcpy and memset.
--
-- AddressSpace is kernel/mm/addressspace/addressspace.c and kernel/mm/heap/memlib.c, over the page tables;
-- the entries of an address space are a list, and the heap blocks that hold them are left out. Elf is
-- kernel/user/elf.c over these and the memory, on fuel of one more than the number of segments.
--
-- Keyboard is kernel/device/keyboard/keyboard.c, which fills the input queue, and kernel/fs/kmodule.c. A read
-- behind a table ends with `none`.
--
-- Pci is kernel/device/pci/pci.c. What answers at the two ports is a parameter, `Bridge`: a read of the data port
-- gives the word at the address in the address port and changes nothing. The loop over the capabilities
-- takes fuel, since the links come from the device.
--
-- Descriptors is kernel/boot/gdt/gdt.c, tssAddStack of kernel/boot/tss/tss.c and idtSetDescriptor of
-- kernel/boot/interrupts/idt.c. An entry of the GDT is a word of 64 bits, and the tables of the processors lie
-- one behind the other. The instructions that load the tables are left out.
--
-- Nvme is the commands and the queues of kernel/device/nvme/nvme.c; initNVMe, which sets the controller's registers
-- and halts for its interrupts, and the controller itself are left out.
--
-- Not modelled: the drivers of other devices, the rest of the boot code, the system calls' registers, and kernel/libc/kernel/list.c and
-- kernel/libc/stdio.c, which are copies of another system's. The back-off of a spin lock is left out, since
-- it does not change the lock, and so are the accesses to devices.
pub mod AddressSpace
pub mod Base
pub mod CString
pub mod Descriptors
pub mod Elf
pub mod Heap
pub mod Input
pub mod KernelLists
pub mod Keyboard
pub mod Nvme
pub mod Paging
pub mod Pci
pub mod Pmm
pub mod Text
pub mod Threads
