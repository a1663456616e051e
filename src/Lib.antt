-- ===== src/Lib.antt =====
-- DucreuOS, a small operating system for RISC-V: a firmware in machine mode (sbi/src), a kernel in
-- supervisor mode (src) and user programs (user). The kernel reaches the firmware by supervisor
-- calls; its page allocator hands out the pages of the page tables, of the kernel heap and of the
-- process images; the scheduler keeps its processes in lists that are sorted by `vruntime`; input
-- devices push events into a ring that the system calls read.
--
-- Which file models which part:
--   Base     tests, lists, bits, circular arrays, bytes of memory, linked nodes on a heap.
--   Page     src/page.c. The heap is two arrays of bits, one byte for four pages, and memory. The
--            search of `page_znalloc` is `find_run` and `run_from`, `page_free` is `free_at` and its
--            loop `free_loop`. A page number is 32-bit wide in the source and a number here, and so
--            is its product with the page size, which is an `int` that a heap below 2 GiB does not leave.
--   Mmu      src/mmu.c. `Tables` gives the entry of each table under each index; `descend` is the
--            code that `mmu_set` has for levels two and one; `walk` is the loop of `mmu_translate`,
--            `map_pages` that of `mmu_map_multiple`. What `page_zalloc` will return is a list of
--            addresses, NULL at its end.
--   Uaccess  src/uaccess.c, over the translation of Mmu and the memcpy of Utils.
--   Block    src/block.c: `enqueue` puts the three descriptors of a request into the queue that the
--            driver shares with the device, `chain` is what the device finds there, and the reads and
--            writes of any bytes go through whole sectors. What the device does is a parameter.
--   Minix3   src/minix3.c on the bytes of the medium, which the device that a function is given and the
--            mounted one share: the superblock, the bitmaps, the searches for a
--            free zone and inode; Minix3.Walker is `minix3_zone_walker`, one function for each level,
--            with the outcome of its `goto freeall` as a value.
--            Minix3.Transfer moves inodes, Minix3.Mount is `minix3_init`, and Minix3.Directory looks a
--            name up.
--   Kmalloc  src/kmalloc.c: `common_alloc` is `first_fit` or `grow`, then `carve`; `kfree` is
--            `insert_free`, `coalesce_free_list` and, for `heap_shrink`, `shrink_list`, all on the list of
--            the free nodes; Kmalloc.Links has the insertion and the deletion on their pointers.
--   Process  the process lists of src/process.c, on a heap of nodes with `next` and `prev`. A command
--            is a fault where the source follows NULL or a node that is gone.
--   Sched    `sched_walk_sleeping_list` of src/sched.c over two lists of Process; `wake` is the body
--            for a process that is due, and the nodes that `kmalloc` returns are a parameter.
--   Lock     src/lock.c, also compiled into the firmware: each atomic instruction is one step of a
--            relation on the word and the phases of the harts that share it.
--   Ring     src/ring.c, the ring of input events with its three policies for a full ring.
--   Regions  src/regions.c, the list of screen regions, on a store of regions.
--   Utils    src/utils.c: Memory has memset, memcpy and memcmp on bytes; Text the string functions
--            that read, on lists of characters; Strings mstrcpy and mstrtac on memory; Digits matox
--            and matoi; Numbers the integer square root.
--   Sbi      the firmware: Uart is sbi/src/uart.c, Clint sbi/src/clint.c, Hart sbi/src/hart.c and
--            Svrcall sbi/src/svrcall.c, which calls the others.
--
-- Numbers are natural numbers. A sum, a difference or a shift that can leave its C type has its
-- `% 2 ^ 32` or `% 2 ^ 64` written out; masks of low bits are remainders, shifts are products and
-- quotients by powers of two, and `|` is `bit_or`. A `char` is a byte without sign, as on RISC-V.
--
-- Loops run on fuel where they do not follow a list, and out of fuel is a fault of its own. Enough
-- is the length of the list and one for the loops of the process lists and of the regions, the length
-- of the string and one for those of Strings, the pages up to the end of the block for `page_free`,
-- the pages of the range and one for `map_pages` and the copies of Uaccess, 65536 rounds for `isqrt`, the
-- zones up to the free one for the search of a zone, twice the inodes for that of an inode, and the
-- pages from the heap's start to its end and one for `kfree`. A wait for a locked mutex is a fault too, since the model has no other hart that would
-- post it; the interleavings are those of Lock.
--
-- Not modelled: the console output of any function; the drivers of the devices (PCI, the set-up and
-- the interrupts of the block device, GPU, input, random numbers), the PLIC and the trap code, whose
-- state is device memory and control registers; `sched_invoke`, the making of
-- processes, system calls, the ELF loader, the virtual file system, and the operations of the Minix 3
-- file system that append to, clear, make and remove files and directories. src/printf.c and its two copies are a library.
pub mod Base
pub mod Ring
pub mod Regions
pub mod Sbi
pub mod Sched
pub mod Utils
pub mod Page
pub mod Block
pub mod Minix3
pub mod Kmalloc
pub mod Lock
pub mod Mmu
pub mod Process
pub mod Uaccess
