-- ===== src/Lib.antt =====
-- A development on the memory simulator of A2-zengzix2/src: a program that runs a trace of memory
-- accesses through three-level page tables, a coremap of frames, a replacement policy and a swap
-- file.
--
-- The parts, and how they interact. main (Memsim.antt, memsim.c) reads the options, creates a
-- simulation, runs it, destroys it and checks the tracked allocator for leaks.
-- CSC369_SimulationRun (Simulation.antt and Simulation/Loop.antt, csc369_simulation.c) executes
-- the accesses that the reader delivers from the trace file (Trace.antt, csc369_trace.c). Each
-- asks the memory manager for a frame (Mm.antt, csc369_mm.c), which allocates the entry of the
-- address (PageTable.antt, csc369_page_table.c) with the tracked allocator (Kmalloc.antt,
-- csc369_kmalloc.c); on a miss it takes a frame from the coremap (Coremap.antt, csc369_coremap.c),
-- which evicts a page that the policy chooses (Policy.antt and Policy/, csc369_policy_rr.c,
-- csc369_policy_rand.c, csc369_policy_clock.c, csc369_policy_s2q.c, with the lists of Links.antt,
-- list.h), and the page goes to or comes from the swap file (Swap.antt, csc369_swap.c), whose
-- slots a bitmap gives out (Bitutil.antt, csc369_bitutil.c). Machine.antt is the state that they
-- share (csc369_def.h, csc369_coremap.h, csc369_policy.h). Names are those of the source in lower
-- case, without the prefix: CSC369_PageTableAllocate is page_table_allocate.
--
-- How code is modelled. A C function is a function from the state to a value and a new state, or
-- to a fault: a failed assert, a NULL that is dereferenced, an access out of range
-- (Base/Fault.antt). A pointer is a number, and NULL is 0. The heap of page tables maps addresses
-- to entries and tables; what is freed is gone from it, and a table goes with its array; physical
-- memory and the swap file are functions from an index to a byte. The machine integers that can
-- wrap keep their wrap written out. Entries of lists have addresses of their own, 1 and 2 for the
-- heads of the S2Q queues and i + 3 for frame i. A text is a list of character codes.
-- Base/Returns.antt says that a run returns, without a fault, a result with a property.
--
-- What stands for code outside the sources. What getopt returns, call by call, and what fopen
-- finds at a path are arguments of main. fgets, feof, the conversions of sscanf and strtoul are
-- modelled after the C standard (Trace/Stdio.antt, Trace/Scan.antt); a number that is too large is
-- read as the largest, as glibc does. The addresses of libc's malloc are handed out in order;
-- libc's calloc and mkstemp succeed. The file system lets the swap file grow up to a limit, which
-- every theorem on page-out takes to hold all slots. What random returns is any sequence. The hash
-- table of khash.h is an association list.
--
-- How the parts are proved together. PageTable/Tree.antt is the invariant of the heap, with walk
-- (PageTable/View.antt) as the entry that an address leads to. Coremap/Consistent.antt is the
-- invariant of the machine, in which one frame may be set aside, and gives each page its bytes, be
-- they in a frame or in the swap file. Policy/Laws.antt is the interface of a replacement policy
-- that the memory manager relies on; Policy/Simple.antt fills it for round robin and for random,
-- the Clock files for the clock and the S2q files for simplified 2Q, both over Links/Ring.antt,
-- where a ring of entries is a sequence with the place of each entry. Simulation/Flat.antt is the
-- abstract memory. Base/Bits.antt and Base/Shift.antt know a number by its bits, for the words of
-- the bitmap and for the bitfields (Bitutil/Fields.antt), which nothing else in the program calls.
-- PageTable/Owned.antt ties the live blocks of the allocator to the memory manager and the objects
-- of its page table, through every operation; PageTable/Within.antt and PageTable/Cleared.antt
-- follow their destruction. Trace/Print.antt prints the trace files that the reader is shown to
-- read back.
--
-- Fuel. page_table_destroy has one unit for each address in use, since addresses grow from a table
-- to the tables below it; the loop of the clock has one unit more than there are frames, since one
-- round clears every reference bit; the count of the A1 queue has as many. The loops of
-- CSC369_TraceRead and CSC369_SimulationRun have one unit more than there are characters left in
-- the file, since each round reads one.
--
-- Not modelled. The logger, the timing of main and its handlers of fatal signals; the functions
-- that only close files or give memory back to libc, with what the asserts of CSC369_BitmapDestroy
-- and the like protect. Where CSC369_SimulationCreate returns NULL or fails an assert behind the
-- one on the policy, the model of main ends without a simulation in either case.
pub mod Base
pub mod Kmalloc
pub mod PageTable
pub mod Bitutil
pub mod Swap
pub mod Links
pub mod Machine
pub mod Trace
pub mod Policy
pub mod Coremap
pub mod Mm
pub mod Simulation
pub mod Memsim
