-- ===== src/Lib.antt =====
-- Waguri: the memory management and the scheduler of a simulated operating system, in
-- submission/OS BTL. Processes run on simulated processors. A process's memory is a list of
-- areas that grow at their end, a page table over frames of a memory device, and swap devices
-- that take the pages that memory has no frame for. A process asks for memory through the
-- library of src/libmem.c, which calls the system through system call 17, which works on areas
-- (src/mm-vm.c), page tables (src/mm.c) and devices (src/mm-memphy.c). The scheduler
-- (src/sched.c) keeps the processes that wait in one queue (src/queue.c) for each of 140
-- priorities. Processors (src/cpu.c, src/os.c) take processes from it, run their instructions
-- and put them back when their time slice is over; a timer (src/timer.c) keeps processors and
-- loader in step.
--
-- Paths below, and those in the other files, are relative to submission/OS BTL. Base has the
-- shared types and lemmas: results of C code (Run, where `fault` is an undefined step), lists
-- as arrays, and Chain for linked lists, which end in NULL or in a pointer that was never set.
-- Cint has the C types: an `int` is its pattern of 32 bits, an `unsigned long` one of 64. Bits
-- has the laws of masks.
--
-- Pte models the entries of page tables: include/mm.h, include/bitops.h and `init_pte`,
-- `pte_set_swap`, `pte_set_fpn` of src/mm.c. Memphy models the devices: `struct memphy_struct`
-- with all functions of src/mm-memphy.c but its dump, which is in Print, and the page copy of
-- src/mm.c. Mm models `mm_struct` and the part of `pcb_t` that memory management reads
-- (Caller), `vmap_page_range`, `enlist_pgn_node`, `init_mm` of src/mm.c and `find_victim_page`
-- of src/libmem.c. PageAlloc models `alloc_pages_range` and `vm_map_ram` of src/mm.c. Vm models
-- src/mm-vm.c and `get_free_vmrg_area` of src/libmem.c. Sysmem models `__sys_memmap` of
-- src/sys_mem.c, which the model of src/libmem.c calls directly where the code goes through
-- `syscall` with number 17. Libmem models `__alloc` and `__free`, PageAccess the fetching,
-- reading and writing of pages and `free_pcb_memph`, all of src/libmem.c. Queue models
-- src/queue.c, Sched src/sched.c. Machine models the control blocks of include/common.h at
-- their addresses, with the devices and the scheduler (System); a pointer to a block is an
-- address with the priority of its process (Pcb). Kill models src/sys_killall.c, Syscall the
-- dispatch of src/syscall.c with the table that the build makes of src/syscall.tbl,
-- src/libstd.c and the calls that only print, Cpu `run` of src/cpu.c, Os the turns of the
-- threads of src/os.c up to their next `next_slot`, and the devices that `main` makes. World
-- puts these threads and the timer together: its steps are the turns, each with the call of
-- `next_slot` or `detach_event` that ends it, and the steps of the timer's thread. Config
-- models `read_config` and `main` of src/os.c up to the creation of the threads, and Print the
-- functions that show lists, page tables and memories, as lists of what they print. Loader
-- models src/loader.c over the C library's functions on files (Stdio), a parameter, which
-- Config takes as well. Mem models the older src/mem.c and the functions of src/cpu.c that use
-- it when MM_PAGING is not defined. Timer models src/timer.c and its devices as a step relation
-- whose steps are the critical sections of the threads. A function keeps its name, without the
-- prefix of its device or its underscores; the pointers it changes are arguments and results.
-- Tests has examples.
--
-- Bounds and fuel. `MEMPHY_mv_csr` steps at most as often as the device has cells, which is the
-- fuel of `mv_csr_loop`. The loop of killall that reads a name has the 100 places of its array
-- as fuel, after which the code writes past it. The other loops run over a list or count down
-- the rounds that are left, and need no fuel. An `int` may overflow: the addition,
-- multiplication or division that does is a `fault`. A page number has 14 bits, a page 256
-- bytes; the page table is a list, so an access beyond it is a `fault` as well.
--
-- Not modelled: the mutexes. Those of the devices of the timer make its critical sections the
-- steps of Timer, and `queue_lock` makes each of `enqueue` and `dequeue` of the scheduler one
-- step; `__sys_killall` changes the same queues and takes no lock, so its loops can meet a
-- `dequeue`, which Kill.Race models (`remove_interrupted`). Nor: the messages on what the
-- system does, as opposed to the functions of Print; the calls of `print_pgtbl` and
-- `MEMPHY_dump` at the end of the functions of src/libmem.c, which write nothing but would
-- follow NULL for a process without an area, which `init_mm` never leaves; a failing `malloc`;
-- device pointers that are NULL; the back pointers `owner` and `vm_mm` and the field `rg_next`
-- of the table of regions, which nothing reads. `BITS_PER_LONG` is 32, the shifts of the masks
-- keep 32 bits. Only the build with MLQ_SCHED and MM_PAGING, which include/os-cfg.h selects, is
-- modelled, but for Mem and Sched.Single. The turns of Os and World run whole, one after the
-- other, in any order that the timer allows; turns of two threads that run at the same time are
-- not interleaved within a turn. This is a simplification, and no consequence of the locks: for
-- turns that call killall it leaves out what Kill.Race shows. A turn that reaches a `fault` is
-- no step of World. Left out are the calls that create and join threads, and src/paging.c, a
-- program that loads and runs one process.
pub mod Base
pub mod Cint
pub mod Bits
pub mod Pte
pub mod Memphy
pub mod Mm
pub mod PageAlloc
pub mod Vm
pub mod Sysmem
pub mod Libmem
pub mod PageAccess
pub mod Queue
pub mod Sched
pub mod Machine
pub mod Loader
pub mod Kill
pub mod Syscall
pub mod Cpu
pub mod Os
pub mod World
pub mod Config
pub mod Print
pub mod Mem
pub mod Timer
pub mod Tests
