-- ===== src/Lib.antt =====
-- A verification library for the System-Programming repository: separate C programs and
-- libraries, one to a directory.
--
-- The parts that are modelled, and where:
-- * vector/vector.c in Vector: Vector/State.antt has `struct vector` (a record with the array of
--   slots, size, capacity and callbacks) and the functions that read or overwrite single elements,
--   Vector/Edit.antt those that change the number of elements; the functions keep their C names.
--   Vector/Slots.antt is the array behind it. The proofs are in the other files of Vector, by
--   function; Script, Agree and Run are about any sequence of calls and the same calls on a list.
-- * mini_memcheck/mini_memcheck.c in Memcheck: Memcheck.antt has the list of blocks, the counters
--   and the four functions, Memcheck/Totals.antt the invariant, Memcheck/Misuse.antt the rest.
-- * extreme_edge_cases/camelCaser.c in CamelCaser: the loop of `camel_caser` as `scan_char` and
--   `scan` over the bytes of the string; CamelCaser/Sentences.antt has the description.
-- * critical_concurrency/semamore.c in Concurrency/Semamore.antt and critical_concurrency/queue.c in
--   Concurrency/Queue.antt (the list in the heap in Queue/Chain.antt, single calls in
--   Queue/Fifo.antt, the order of values in Queue/Ordered.antt, all interleavings in
--   Queue/Shared.antt), both over Concurrency/Monitor.antt: a monitor is a guard and a body for
--   each operation; threads lock, wait, wake up (also for no reason), run a body, broadcast and
--   unlock as steps of one relation.
-- * critical_concurrency/barrier.c in Concurrency/Barrier.antt, with its own steps, since a thread
--   changes the barrier before it waits; Barrier/Rounds.antt has the proofs.
-- * savvy_scheduler/libscheduler.c in Scheduler: the comparison functions over a type of doubles
--   that is a parameter; Scheduler/Orders.antt has the proofs.
-- * vector/sstring.c in Sstring: sstring_split over lists of characters; Sstring/Split.antt has the
--   proofs.
-- * nonstop_networking/common.c in Networking: write_all_to_socket over the answers of `write`,
--   and read_all_from_socket over those of `read` (Networking/Receive.antt); Networking/Whole.antt and
--   Networking/Received.antt have the proofs.
-- * charming_chatroom/utils.c, whose two loops are those of common.c, in Networking/Sized.antt: the size
--   in front of a message.
-- * charming_chatroom/server.c in Chatroom: the table of clients and its count;
--   Chatroom/Counted.antt has the states that connections and departures reach.
-- * malloc/alloc.c in Malloc: Malloc.antt has the headers, the free lists and the two searches,
--   Malloc/Blocks.antt splitting, combining, coalescing and the break, Malloc/Calls.antt the four
--   calls. Links, Patches and Lists are about the linked lists, Remove and Add about the two
--   operations on them, Fits and Best about the searches, Reuse, Live and Limits about malloc and
--   realloc, Free, Combine and Again about free.
-- * finding_filesystems/minixfs.c in Minixfs: Minixfs.antt has the inodes, chmod, chown and the
--   permissions, Read, Write and Create the three large functions, Paths the functions on paths;
--   their first tests are split off, so that `read_inode` and `write_inode` start from an inode.
--   Joined and Rounds are about the loop of a read, Contents about what it returns, Bound about its
--   end, Grows and Made about new files, WriteEmpty and Wrote about a write and a read after it.
-- * teaching_threads/par_reduce.c in Reduce: the parts of the list and the results of the threads;
--   Reduce/Sizes.antt and Reduce/Whole.antt have the proofs.
-- * deadlock_demolition/libdrm.c in Deadlock: Deadlock.antt has the cycle test, Deadlock/Drm.antt
--   drm_init, drm_wait and drm_post and the steps of the threads that call them. Search and Cycles
--   are about the test, Avoided and Reached about the steps.
-- * parallel_make/parmake.c in Parmake: the cycle check, the order of the targets and their status;
--   Checks, Cycle and Acyclic are about the check, Order about the order.
-- Both use the sets and graphs of Graph.antt, which stand for the course's library: parameters with
-- laws; Deadlock/Drawing.antt has ones that meet the laws.
-- * ideal_indirection/mmu.c in Mmu: Mmu.antt has get_table_entry, Mmu/Access.antt the two accesses,
--   Mmu/Process.antt adding and removing a process; Mmu/Kernel.antt what the code calls of the kernel
--   and the TLB, with the laws that it relies on. Entries stand in frames by number and index, and
--   the bytes of pages in frames of their own. Tables and Faults are about the page directories,
--   Coherent, Lookup and Enter about the TLB and the walk, Stored, Bytes and Written about accesses.
-- * deepfried_dd/dd.c in Dd: the loop that copies blocks, and the counts that it leaves for the report;
--   Dd/Copied.antt is about whole files, Dd/Limited.antt about a limit on the blocks.
-- The parts share no code but for sstring.c, which collects its pieces in a vector: there a list.
-- Prelude has what the parts' proofs share: tests, lists by index, functions changed at a number,
-- and the ways in which a call of C code ends (Prelude/Outcome.antt: it returns, an assertion or
-- `exit` stops it, it uses memory that it does not own, or the fuel of the model runs out).
--
-- Numbers are native; `size_t` wraps at 2 ^ 64 where the code can reach it. Loops over an index
-- that counts up recur on the rounds left. The loops of vector.c that count down an unsigned index
-- run on fuel: the size plus two rounds, which is enough, since an index below 0 wraps and is
-- outside the array. The doubling loop of get_new_capacity gets 65 rounds, which is enough for
-- every target of at most 2 ^ 63; above that the loop has no end. The loops of
-- queue_destroy and sstring_split run on fuel, the size and the length, with a theorem that they end.
-- The loops of minixfs_read and minixfs_write copy a byte or more in each round, and their fuel is
-- the count plus one.
-- The two searches of a graph recur on fuel that bounds the depth: one for each vertex that is not on
-- the way is enough.
-- The copy loop of dd gets one round more than the input has bytes, since each block has one at
-- least.
-- The walks along a free list run on the break plus one as fuel, since each block lies below it.
--
-- What `malloc` and `realloc` of the C library answer is an argument of the functions that call
-- them. Not modelled: printing, the bytes behind pointers that the code only moves, the typed
-- vector constructors, mmu_delete of ideal_indirection/mmu.c, and the other programs of the
-- repository, among them shell/shell.c. minixfs.h and the functions of its library are not in the
-- repository, and are parameters of Minixfs.
pub mod Prelude
pub mod Vector
pub mod Memcheck
pub mod CamelCaser
pub mod Concurrency
pub mod Scheduler
pub mod Sstring
pub mod Networking
pub mod Malloc
pub mod Minixfs
pub mod Reduce
pub mod Graph
pub mod Deadlock
pub mod Parmake
pub mod Mmu
pub mod Dd
pub mod Chatroom
