-- ===== src/Lib.antt =====
-- A model of the UCAS-OS-Lab kernel, a small RISC-V operating system with memory management, locking
-- objects, a file system and a scheduler.
--
-- The parts and the code they are about:
--   Base      shared names: tests on numbers, lists, functions changed at one place, sums, the integers
--             (ℤ), the exclusive or of numbers, and Run, the result of code that can halt the kernel
--             (err_halt, a failed assertion).
--   Libs      libs. Strings: the comparisons, the lengths and the copies of string.c. A string that is
--             only read is the byte at each offset from its pointer; memory that is written is the byte
--             at each address. Links: the circular lists of list.c, on a table for each field of the
--             nodes; a ring of nodes stands for the list of them.
--   Mm        kernel/mm. Kmalloc: the buddy allocator of kmalloc.c; a free list is the list of its block
--             addresses, and a pool is well formed when every address of it is free at most once. Swap:
--             the slots of the swap area of swap.c (alloc_swap, free_swap, regular_swap_location,
--             regular_swap_free). Pgtable: the fields of an entry and the addresses of
--             arch/riscv/include/pgtable.h; an attribute is the place of its bit. Evict: the pages that
--             fifo::evict and second_chance::evict of pf_evict.cpp give up. Frames:
--             the counts of the groups of page frames as pages come and go (fifo::attach and fifo::detach
--             of pf_evict.cpp, shrink_pagegroup of pagegroup.cpp up to swapout, free_pageframe). Pipe: the
--             pipes of pipe.c; what stands in the page tables is a function of the task and the address.
--   Sched     kernel/sched and libs/list.c, on queues that are lists of the numbers of their tasks, as
--             Libs.Links has them for the nodes. Sched itself blocks a task on a queue and makes it ready
--             (do_block, do_unblock, unblock_list, list_append, list_shift). Pick: the choice of the next
--             task and the history of time slices (pick_process). Switch: check_sleeping of time.c, and
--             do_scheduler up to switch_to on one processor, do_sleep and set_process_workload. Table:
--             the table of processes (alloc_pcb, find_pcb, get_pcb_index, free_pcb, set_process_nice,
--             set_proc_affinity of task.c) and do_waitpid.
--   Locking   kernel/locking. Slots: the search for an object by its key and for a free place. Mutex:
--             mutex.cpp, and init_locks. Semaphore: semaphore.cpp. Barrier: barrier.cpp. Condition:
--             condition.cpp. Mailbox: mailbox.cpp; the bytes that wait in a mailbox are a list, of which
--             the ring buffer is an implementation.
--   TinyLibc  tiny_libc, the library of user programs. Atoi: atol and atoi of atoi.c.
--   Fs        kernel/fs. Cache: the switch of cache.c between the card and the page cache; a device of
--             sectors is an interface, and the firmware's bios_sd_read and bios_sd_write are one. Block:
--             the buffers and the bitmap of block.c; what a block holds is the bytes of its buffer or
--             those on the device. Inode: the table, the layout, the blocks and the bytes of an inode of
--             inode.c. Fdesc: the descriptors of fs.cpp (do_open behind its path, do_read, do_write,
--             do_close, do_lseek, cleanup_fd).
--             Dcache: the cache of directory entries of dcache.c, each operation of it. Path: path_shift
--             of dir.c. Sample: a card and an empty file system, for the examples.
--
-- How the parts interact: Fs.Dcache compares names by Libs.Strings and hashes them; the nodes of
-- its lists come from kmalloc, whose answer (a block or none) is an argument of the operations that
-- ask for one. Fs.Inode reads and writes inodes and arrays of block numbers in the buffers of
-- Fs.Block, which reads and writes a device of Fs.Cache; Fs.Fdesc calls Fs.Inode. Mm.Evict reads
-- and marks the entries of Mm.Pgtable. Mm.Pipe blocks and wakes its readers by the operations of
-- Sched, attaches and frees pages by those of Mm.Frames and frees slots by those of Mm.Swap.
-- Locking moves tasks by the operations of Sched; the wait on a condition releases a lock of
-- Locking.Mutex, and a mailbox wakes its waiters by the signal of Locking.Condition. do_sleep and
-- do_waitpid block the running task by the operations of Sched and end in do_scheduler, which wakes
-- the sleepers, puts the running task back and takes the next one from the ready queue; get_timer
-- and the number of the processor are arguments. The number of the running task, which
-- get_pcb_index gives, is an argument. A trap holds the kernel lock (lock_kernel of
-- kernel/smp/smp.c), so an operation is one step, up to its call of do_scheduler if it makes one;
-- Locking.Mutex has the steps of all tasks as a relation and the states that they reach.
--
-- Loops: a loop over a list or over a fixed number of rounds is structural recursion. The others run
-- on fuel: the walk of alloc_swap over the slots has as many rounds as there are slots, which is
-- enough when a slot is free; the loops of kmalloc.c over the orders have a round for each order that
-- is left; the loops over a string and atol need a round for each byte up to its end, and one more;
-- inode_read one for each byte asked for and one more; path_shift needs the same as atol for a path;
-- block_alloc has a round for each block of the map; list_size needs one for each node and one more;
-- and the loop of the second chance ends within n * n + n rounds on n pages. Machine words: the sizes
-- of kmalloc and the count of used swap slots wrap at 2^64, as does the value of atol, the hash of a
-- name, a sector and the counts of used blocks and inodes at 2^32, and the references of an inode at
-- 2^16; the counts of a semaphore and of a barrier, each a C int, are integers.
--
-- Not modelled: building and ending a process (construct_pcb, cleanup_proc), which call every other
-- part, the registers and the address space of a task; the search for free page frames, swapping a
-- page out and the walk of the page tables, which work on raw memory through pointers that a model
-- of functions would have to rebuild; the entries of directories and the walk along a path; and
-- device drivers, the network, console output, trap entry, boot code, system call wrappers, test
-- programs and host tools, which are input and output, assembly or glue.
pub mod Base
pub mod Fs
pub mod Libs
pub mod Locking
pub mod Mm
pub mod Sched
pub mod TinyLibc
