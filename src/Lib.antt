-- ===== src/Lib.antt =====
-- A model of the core of the RELIS kernel, and the theorems that make it correct.
--
-- The program and its files here, with paths from the repository's root:
--   ListHead   include/relis/list.h, the doubly linked lists of the kernel. The two fields of every
--              node are functions of its address, and each operation is a function on them, so
--              aliasing of nodes is part of the model. ListHead.Ring says which sequence a list is.
--   Mm         mm/page_alloc.c (PageAlloc: the bitmap of pages, with physical memory as words of 64
--              bits), mm/slab.c (Slab: the heap, which only grows), arch/mm/init.c, mm/memory.c,
--              mm/mprotect.c and include/asm/pgtable.h (Paging: the 4-level tables, which lie in that
--              physical memory, with Clone for the copy of an address space), mm/vmalloc.c
--              (Vmalloc).
--   Kernel     include/relis/sched.h and the globals (State), kernel/sched/ and the timer's handler
--              (Sched), the creation of tasks in kernel/sched/core.c with task_setup_stdio of
--              kernel/entry/syscall.c (Thread), kernel/fork.c (Fork), the ring of the pipes of
--              kernel/ipc.c (Pipe), the making of a pipe and the shared pages there (Ipc),
--              kernel/signal.c (Signal), the table of descriptors in kernel/entry/syscall.c and in
--              sys_pipe (Syscall), kernel/irq/manage.c (Irq), include/relis/spinlock.h as a system
--              of processors (Spinlock).
--   Drivers    kernel/drivers/keyboard.c, kernel/drivers/vga.c, drivers/pci/pci.c and
--              drivers/block/ata.c (Ata).
--   Arch       arch/idt.c (Idt: the gates of the interrupt table), arch/gdt.c (Gdt: the descriptor of
--              the task state segment).
--   Fs         fs/vfs.c (Vfs: the tree of names and how a path is followed), fs/relisfs/relisfs.c
--              (Relisfs, on the blocks that Ata transfers), fs/proc/proc.c (Proc), the mounts of
--              init/main.c (Mount), and the loaders of fs/exec.c and fs/binfmt_elf.c (Elf).
--   Net        net/ipv4/ip.c and net/ipv4/udp.c.
--   Str        lib/string.c, over memory as a function from addresses to bytes.
--   Printk     kernel/printk/printk.c, as the bytes printed.
--   Prelude    what these share: tests, lists, bits and updates on the native numbers.
--
-- The parts meet where the code calls across: a task lies in a block of the heap, its list nodes are
-- in the links, schedule loads the tables and the interrupt stack of the task it chose, and the page
-- tables take their pages from the page allocator. Definitions have the names of the C functions;
-- loops and branches that needed a name say in a comment which lines they are. C integers are native
-- numbers with their wrap-around written out; `none` is a null pointer, or a halt where the comment
-- says so. A lock that every path takes and releases makes a call one step, and interleavings are
-- sequences of such steps.
--
-- Fuel: list_for_each has it for one round more than the elements; the checksum takes three rounds,
-- which its theorem shows enough; the bus scan needs one unit more than the free entries of its table;
-- the string loops need one more than the string's length; the waits
-- for the disk count the timeout of the source, 1000000. The other loops are bounded by a count.
--
-- Not modelled: device ports other than the disk's and their timing, the assembly code and the switch
-- of stacks, the start of the other processors, sys_execve, the network devices,
-- the dispatch of system calls.
-- The configuration space of the PCI bus is a parameter, any function from address words to words; so
-- is what the disk's status port says behind each command. The rest of the drive follows the ATA
-- standard: the registers, the count of sectors, the transfer of a sector word by word. What others do
-- while a task is away in schedule is an argument of the loop that delivers signals. Strings in paths and names are lists of their bytes in front of the final 0.
pub mod Prelude
pub mod ListHead
pub mod Mm
pub mod Kernel
pub mod Drivers
pub mod Net
pub mod Str
pub mod Printk
pub mod Arch
pub mod Fs
