-- ===== src/Lib.antt =====
-- The C programs of a repository of systems assignments, modelled part by part. The parts do not call
-- one another, but for the simulator and the trace generator of Lab 6, which share binary.h, and for
-- kalloc.c of xv6, which calls memset of string.c.
--
-- Base: numbers, lists, C strings, and how a C call ends (`Outcome`): it returns, it calls exit, it
--   has undefined behaviour (`fault`: a NULL or dangling pointer, an index out of range, a remainder
--   by 0), or a loop of the model runs out of fuel.
-- Memory: a heap of linked-list nodes; Memory/Chain: linked lists in it; Memory/Extend: a new node
--   at the end of one.
-- Queue (Assignment2_C_Data_Structures/part1/myqueue.h): a queue is a record, each function of the
--   header is a function of the same name that returns its result beside the new queue. Queue/Inv is
--   the invariant, Queue/Slots the items in the circular array, Queue/Fifo the specification.
-- Stack (Assignment2_C_Data_Structures/part2/mystack.h): nodes live in a heap, and functions keep
--   their names. free_stack is given `count + 1` rounds, one more than the stack has nodes. Stack/Ops
--   has the operations one by one, Stack/Trace sequences of them.
-- Hashmap (Assignment4_Library/part2/my_hashmap.c): a bucket is the list of its pairs. Hashmap/Chains
--   treats one chain, Hashmap/Buckets the table, Hashmap/View the operations as those of a finite
--   map. hashmap_hasKey is has_key, and so on. How many bytes malloc really gives is a parameter.
-- Binary (Lab6_Allocators/part1/binary.h): the three conversions; the loop of intToBinaryString is
--   given `i + 1` rounds, and halves `i` in each.
-- Cache (Lab6_Allocators/part1/simulator.c, trace.c): the globals are one record, main and its loop
--   run on the lines of a trace file and the user's answers; 1024 rounds are enough since PC grows.
-- Malloc (Assignment6_MemoryAllocator1/part1/mymalloc.c): the list of block headers lives in a heap;
--   findOptimalFreeBlock is find_optimal_free_block, and so on. A loop over the list is given `rounds`
--   rounds, more than there are blocks. Malloc/Fit is the search, Malloc/Blocks the list of blocks
--   that mymalloc keeps, Malloc/Client and Malloc/Calloc what a caller sees. sbrk is a parameter.
-- Painters (Assignment7_ConcurrentArtists/part2/painters.c): threads that run paint, as a step
--   relation. A step is one access to the canvas, so that every interleaving of accesses is a run; the
--   mutexes of pthread are an interface with its laws. Painters/Locks says who holds what,
--   Painters/Turn treats one step of one thread, Painters/Safety all states of a run. main and
--   outputCanvas are left out. The interface with its laws is Threads, which PerCpu uses as well.
-- PerCpu (Assignment8_AdvancedMemory/part1/starter/mymalloc.c): the allocator with one list of
--   blocks and one lock for each cpu. A call that waits for a lock that nobody gives back is
--   `blocked`. What sched_getcpu answers at each of its calls, sbrk and mmap are parameters.
--   PerCpu/Split is splitBlock, PerCpu/Free what a second free of a block leads to.
-- Relay (Assignment7_ConcurrentArtists/part1/relay.c): the four runners as a step relation over the
--   three semaphores, which are a parameter. Relay/Order is the order of the lines.
-- Shell (Assignment5_Shell/part1/shell.c, parse.c): the globals are one record, and what the shell
--   prints, runs and pipes is a list of events. A round of the loop of main is `round`, and `session`
--   runs it on a list of lines. The handler of SIGINT is left out. Shell/Words is the tokenizer,
--   Shell/Round one round. strtok, of which the library of C is the source, is in Base/Tokens.
-- Cycles (Assignment3_Assembly/part3/tool.c): the counters are one record, main runs on the lines of
--   a file. Cycles/Tally is what its tests count and what a token does to its arrays.
-- LinkedList (Lab2_LinkedList/linkedlist.c): the list of Lab 2 on the heap of Memory;
--   LinkedList/Build treats a run of the whole program.
-- Pipe (Assignment9_xv6/part1/xv6-public/pipe.c): the pipes of xv6. What runs under the pipe's lock up
--   to the next sleep or release is one step; Pipe/Processes has the processes that share a pipe, with
--   sleep and wakeup of proc.c, as a step relation. Pipe/Bytes is what a pipe holds, Pipe/Fifo and
--   Pipe/Wakeup treat the runs. A run has no step that frees the pipe.
-- KernelStrings (Assignment9_xv6/part1/xv6-public/string.c): the string routines, on a memory of bytes,
--   for counts that are not negative. The instructions of x86.h that store are loops. strlen is given
--   the number of bytes that it may look at.
-- PageAllocator (Assignment9_xv6/part1/xv6-public/kalloc.c): the free list of pages, with the lock that
--   is used from kinit2 on. A loop of freerange is given `vend / 4096 + 1` rounds, one more than the
--   range has pages. PageAllocator/Pages is the list, PageAllocator/Boot the two phases of the start,
--   PageAllocator/Grants a page that is freed and granted.
-- SleepLocks (Assignment9_xv6/part1/xv6-public/sleeplock.c): the sleep locks, with the processes that
--   take and release one, as a step relation like that of Pipe. SleepLocks/Holders is who holds it.
-- DiskLog (Assignment9_xv6/part1/xv6-public/log.c): the log of the file system. A machine is a disk, the
--   number of writes that still reach it (`power`, so that a crash may come at any write), what the
--   buffer cache holds, and struct log; the header block is kept apart. bread and bwrite of bio.c are
--   what they do to the contents of blocks. DiskLog/Recovery treats crashes in recovery, DiskLog/Commit
--   what a commit leaves at each of its writes, DiskLog/Space the room that begin_op reserves;
--   DiskLog/Store has the steps of the machine and those of the store that it implements, and
--   DiskLog/Atomic relates them.
-- ProcTable (Assignment9_xv6/part1/xv6-public/proc.c): the table of processes, which are known by their
--   index. A call is a step, under ptable.lock; so is fork, since nobody but kill touches the child that
--   it makes. ProcTable/Find is what the scans find, ProcTable/Steps the steps, ProcTable/Families who
--   has which parent, ProcTable/Exits and ProcTable/Zombies treat exit, ProcTable/Births fork and the
--   first process, ProcTable/Waits wait, ProcTable/Lives all steps, ProcTable/Kill the kill of an
--   entry that is not in use, ProcTable/Listing cps. The memory, files and registers of a process are left
--   out, and process identifiers do not overflow.
-- UserLib (Assignment9_xv6/part1/xv6-public/printf.c, ulib.c): printf and the library of user programs. A
--   string is the list of its bytes, `*ap` an argument that is a number or a string. The loop of
--   printint is given the 16 places of its buffer, which are enough for any word. UserLib/Numbers is
--   printint and atoi, UserLib/Formats printf, UserLib/Lines gets and strcmp.
--
-- What malloc and fgets return, and the user's answers, are arguments. Left out: what is only printed,
-- traces made with random numbers, and the parts that PROJECT.json lists as not modelled.
pub mod Base
pub mod Memory
pub mod Queue
pub mod Stack
pub mod Hashmap
pub mod Binary
pub mod Cache
pub mod Malloc
pub mod Threads
pub mod Painters
pub mod PerCpu
pub mod Relay
pub mod Shell
pub mod Cycles
pub mod LinkedList
pub mod Pipe
pub mod KernelStrings
pub mod PageAllocator
pub mod SleepLocks
pub mod DiskLog
pub mod ProcTable
pub mod UserLib
