-- ===== src/Lib.antt =====
-- Verification of HXNU's memory management (kernel/src/mm): the physical frame allocator, the kernel
-- heap, page compression, the compressed page store and the pager; of the thread scheduler
-- (kernel/src/sched.rs); of the ring of the heterogeneous scheduler (kernel/src/hsched.rs);
-- and of the files of /tmp and /run (kernel/src/tmpfs.rs) and of the initial ramdisk
-- (kernel/src/initrd.rs).
--
-- The parts and how they interact. At boot the frame allocator reads the memory map and hands out
-- frames of 4096 bytes, one at a time or in runs; the heap takes one run of 2048 frames and bumps a
-- pointer over it. The pager reclaims pages into the compressed store and restores them; the store
-- has 64 slots of encoded pages and calls the compression runtime, which counts what the codec does.
-- The codec puts a header of 16 bytes in front of a payload of one of four classes: zero, same,
-- SXRC tokens, or the raw page.
--
-- The thread scheduler keeps eight slots of threads and a run queue for each of 64 priorities. A
-- thread that can run waits in its queue; the timer, a yield or an exit takes the next one.
--
-- The files:
--   Base: helpers for Boolean tests, results, lists, machine words and masks.
--   Frame (kernel/src/mm/frame.rs, and the memory map entries of kernel/src/limine.rs): the
--     `FrameAllocator` and its operations. `Frame/Regions` says which addresses of a list of regions
--     are free and taken, `Frame/Init` what the map describes, `Frame/Boot` is initialisation,
--     `Frame/Valid` the invariant, `Frame/Alloc` the operations against it, and `Frame/History`
--     sequences of calls.
--   Heap (kernel/src/mm/heap.rs): `Heap/Blocks` is a step relation on the allocator and the blocks
--     that callers hold, `Heap/History` its invariant, `Heap/Saturation` the rounding at the top
--     of the address space, `Heap/Boot` the heap over the frame allocator.
--   Compress (kernel/src/mm/compress): types and profile (mod.rs, profile_generated.rs), `Checksum`
--     (checksum.rs), `Header` (header.rs), `Sxrc` and `Codec` (codec.rs), `Runtime` (mod.rs) and
--     `Store` (store.rs). `Sxrc/Tokens` says what a payload means, independently of both loops;
--     `Codec/Encode` says what an encoded page is. `Store/Slots` reads the slots as a map from page
--     identifiers, `Store/Valid` is the invariant, `Store/History` the map that the store implements.
--   Pager (kernel/src/mm/pager.rs): the pager over the store, and its bootstrap test.
--   Sched (kernel/src/sched.rs): the threads and the run queues. `Sched/Dispatch` is the choice of
--     the next thread, `Sched/Life` creation, fork, reaping and blocking, `Sched/Groups` the exit of
--     a group, and `Sched/Entry` the global cells and what the kernel calls. `Sched/Queue` and
--     `Sched/Shape` read the arrays as lists of slots; `Sched/Linked` says which threads the queues
--     hold and `Sched/Moves` how an entry comes and goes; `Sched/Valid` is the invariant, which
--     `Sched/Switching`, `Tick`, `Yield`, `Resume`, `Threads`, `Create`, `Leaving`, `Exit` and
--     `Fork` keep. `Sched/Boot` has the first states, `Sched/History` sequences of calls, and
--     `Sched/Rounds` the turns that ticks give.
--   Hsched (kernel/src/hsched.rs, with kernel/src/sxrc_core.rs): the ring of 16 numbered nodes.
--     `Hsched/Ring` says when it holds a queue of words, `Hsched/Queue` is submission,
--     `Hsched/Dispatch` the other end, and `Hsched/Task` the words.
--   Tmpfs (kernel/src/tmpfs.rs): paths and files. `Tmpfs/Nodes` is what a path names and the text of
--     a directory, `Tmpfs/Paths` the normal form of a path, `Tmpfs/Files` the list of files, and
--     `Tmpfs/Valid` the invariant.
--   Initrd (kernel/src/initrd.rs): the parser of the archive. `Initrd/Names` is the names in it,
--     `Initrd/Files` initialisation and the look-up of paths, `Initrd/Loop` the parser's loop.
--   Examples, in each part: runs, and the theorems at concrete inputs.
--
-- How the code is modelled. The kernel keeps each component in one global cell; here the state is a
-- record that an operation takes and returns, with its result beside it. Numbers are natural numbers
-- with the saturation, the checks and the truncation of the code's integers written out; `usize` has
-- 64 bits. Byte arrays are lists; a buffer that a call fills is returned, also when the call fails.
-- `&&` and `if` are those of the code, in its order; a loop with an index is recursion on fuel, and
-- the theorems on encoding and decoding show that the fuel of one page (4096 rounds, each of which
-- moves on by a byte or more) is enough: `encode_page` and `decode_page` return, with the result
-- that is stated. The two loops that fill test pages have the same fuel. The loops on the ring
-- return `none` without fuel; one round is enough to submit, and one more than there are words to
-- dispatch. The parser of archives returns `none` without fuel; a round for each
-- byte, and one to end, are enough. The bitmap of the run queues is the list of its bits; a pointer to a thread's context is
-- the slot of the thread, and an address space that is cloned or contexts that the architecture sets
-- up are arguments. Where the code would stop the kernel (an index out of bounds, `unwrap`), the
-- result says so.
--
-- Not modelled: the texts of errors and the names of the backend and the profile; access to the
-- global cells from several processors, which the code does not guard; the bytes behind an
-- allocated pointer; the interleaving of calls on the ring; the names of threads and the hooks of
-- the scheduler; virtual memory (kernel/src/mm/vmm.rs),
-- and the rest of the kernel.
pub mod Base
pub mod Frame
pub mod Heap
pub mod Compress
pub mod Pager
pub mod Hsched
pub mod Initrd
pub mod Sched
pub mod Tmpfs
