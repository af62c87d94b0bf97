-- ===== src/Lib.antt =====
-- Compact-fit (cf.c): an allocator that hands out abstract addresses and moves blocks, so that at
-- most k pages of a size-class are partly filled.
--
-- The program. The heap is divided into pages of 16 KB. Each page in use belongs to one of 51
-- size-classes and is divided into page-blocks of the size of its class, which a two-level bitmap
-- marks as used. A size-class keeps its pages in four rings: full, not full, source and emptying.
-- cf_malloc takes a block of a not-full page and an abstract address, a word that holds the block's
-- address. cf_free gives the block back; when it would leave more than k pages not full, it moves a
-- block of another page into the hole and redirects that block's abstract address. Free pages and
-- free abstract addresses are cached by each thread and otherwise kept on shared stacks, each behind
-- one 64-bit word with a version, which a compare-and-swap changes.
--
-- The files, each about the code in cf.c unless another file is named:
--   Base               names and tests that all share
--   Bits               bits of a word, and the operations of C on them
--   Arch               arch_dep.h: _ffs and _fls, the portable branch
--   Page               struct page, its bitmap, get_free_page_block and the rest
--   SizeMap            init_size_classes_mapping and the look-ups in it
--   ListHead           list.h
--   NbStack            nb_stack.c, with the formats of page_stack.c and aa_stack.c; NbStack/Mutex
--                      its branch with a mutex
--   State              the globals, struct thread_data, struct size_class; State/Stacks the three
--                      shared stacks over them
--   FreePages          init_free_pages_list, get_free_page, add_free_page
--   AbstractAddress    init_free_aa_list, get_free_aa, put_free_aa, get_abstract_address,
--                      clear_abstract_address
--   Classes            init_size_class_instance, the lists of a size-class, get_source_page
--   Pool               the free lists as pools: a list, the thread's buckets and shared buckets;
--                      FreePages/Pool and AbstractAddress/Pool are about those of cf.c
--   Heap               the fields in a page-block, do_free, cf_dereference
--   Heap/Compaction    do_compaction
--   Heap/Malloc        cf_malloc
--   Heap/Free          cf_free
--   Heap/Init          cf_init, init_thread
--   Tests              the theorems at concrete inputs
-- Modules below these hold proofs and are named for what they prove. Heap/Invariant states what holds
-- of the size-classes and pages between two calls without increments, Heap/Reach follows it through
-- any sequence of calls. Heap/Whole adds the pools of free pages and of free abstract addresses and
-- the abstract address of every used block: Heap/Whole/Client, Grants and Calls say what a program that
-- holds abstract addresses sees of cf_free, of cf_malloc and of any sequence of both.
--
-- The machine. The model is the build for 32-bit addresses: unsigned and int are patterns below
-- 2 ^ 32, with the wrap-around written out, and int_lt compares two int. Sizes and addresses are
-- numbers, and a pointer advanced inside a block does not wrap. Memory is a function from addresses
-- to words; the links of the rings, the pages' headers and the size-classes have functions of their
-- own. A copy in increments is modelled for increments of whole words, and memcpy_multiplicator is
-- taken as positive. Assertions are off.
--
-- Concurrency. The state is that of one thread in the configuration with one global lock, in which
-- malloc and free are single steps and all other locks do nothing. The stack is modelled with other
-- threads at work: between the steps of a round they complete puts and gets, which are runs of the
-- same code, and write to elements that they hold, finitely often.
-- do_compaction takes what other threads do between two increments as a function.
--
-- Failure. `none` is a read out of bounds, a division by zero, or, in put_free_aa and what calls it, a
-- null pointer followed because no bucket is left; null is returned as 0. Where take_page,
-- refill_local, stash and install_bucket would follow a null head of one of the thread's lists, and
-- cf_malloc a null page of a ring, the model reads and writes the words at 0; where the lists are
-- pools and the rings are filed this does not happen.
--
-- Loops. init_size_classes_mapping has as many rounds at its disposal as the largest size, and each
-- enlarges the size; the copying loop as many as there are bytes to copy. Both end by themselves.
--
-- Not modelled: statistics, printing, the locks of cf.c, thread-local storage and mmap, whose addresses
-- are arguments of cf_init; the tests, main.c and benchmarks; the libraries tlsf and tree.h.
pub mod Base
pub mod Bits
pub mod Arch
pub mod Page
pub mod Pool
pub mod SizeMap
pub mod ListHead
pub mod NbStack
pub mod State
pub mod FreePages
pub mod AbstractAddress
pub mod Classes
pub mod Heap
pub mod Tests
