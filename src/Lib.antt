-- ===== src/Lib.antt =====
-- The b0s kernel: physical and virtual memory, the heap, processes, console, strings and tables.
--
-- The kernel keeps its data in memory that it manages itself. The physical page allocator
-- (kernel/mm/pmm.c) keeps a table of memory regions, each available one with a bitmap of its pages
-- (kernel/lib/bitmap/bitmap.c) that lies in plain memory; the virtual memory manager
-- (kernel/mm/vmm.c) keeps a list of regions for each address space.
--
-- Base: shared names, u64 arithmetic with its wrap-around written out (the macros of
--   kernel/lib/math/math.h and kernel/mm/layout.h), bits, and calls that may end in `panic`.
-- Memory: bytes by address, loads and stores of a u64, and kernel/lib/string/mem*.c.
-- Bitmap: kernel/lib/bitmap/bitmap.c over that memory.
-- Pmm: kernel/mm/pmm.c: State (kernel/mm/pmm.h), Pmap (`pmap_insert`, `pmap_init`,
--   `pmm_next_phys_page`), Sort (`pmap_sort`), Alloc (`pmm_alloc`, `pmm_xalloc`, `pmm_free`) and
--   Boot (`pmm_init`).
-- Vmm: kernel/mm/vmm.c. Regions has the region list: the doubly linked list is a list with a
--   position in it, and the allocator of its nodes is the interface `NodePool`. Objects is that
--   allocator, Space has the operations on a whole address space, Init the set-up of
--   the kernel's, and Compare the comparison of two (kernel/arch/x86_64/mm/mmu.c).
-- Kheap: kernel/mm/kheap.c. The blocks and containers are stores by address, and the address space
--   that gives the pages is the interface `PagePool`.
-- Paging: the page tables of kernel/arch/x86_64/mm/mmu.c. In Tree an owner for each table says that
--   the tables are a tree.
-- Tasks: kernel/lib/list/list.h (Ring), kernel/multitasking/signal.c (Signal) and
--   kernel/multitasking/sched.c (Sched); Create is
--   kernel/multitasking/process.c, over what the other parts of the kernel do for it.
-- Firmware: kernel/drivers/acpi/acpi.c.
-- Boot: the boot loader's tags in kernel/kmain.c.
-- Text: kernel/lib/string/str*.c over memory.
-- Console: kernel/drivers/vga/vga.c (Vga) and kernel/lib/printk/printk.c (Printk, Format).
-- Cpu: the processor and its devices, under kernel/arch/x86_64. Machine is asm.h over the interface
--   `Machine` of instructions and devices; Descriptors is the interrupt table (interrupts/idt.c),
--   Gdt the segments (mm/gdt.c), Pic and Apic the interrupt controllers (interrupts/pic.c, apic.c)
--   and Hpet the clock (timers/hpet.c). Switch is `process_switch` with the assembly under it
--   (multitasking/process.c, switch.asm), and Interrupts is `interrupt_handler` and the set-up
--   (interrupts/idt.c, interrupts.c).
--
-- Static variables are fields of a state that the functions take and return; a `panic` ends the
-- call with a reason. What C leaves open in the bitmap (an uninitialised local, a wide shift of an
-- int) comes from a `Compiler` that the definitions take. The build is the release one, where
-- ASSERT and TRACE are empty. Loops over tables and words are structural. `strmatch` and `strcpy`
-- have a count of rounds, for which the length of the string is enough; `reserve_loop` of
-- `pmm_init` has 2 ^ 52, the number of pages below 2 ^ 64; `vga_pad` has a row and one more.
--
-- Other loops over memory have a count of rounds that their callers give; a theorem about one says
-- how many are enough.
--
-- Not modelled: start-up behind the checks, whose calls are of the parts above; the entry code in
-- assembly; printing of dumps; the file system, which is unfinished and does not compile; and the
-- third-party boot header.
pub mod Base
pub mod Memory
pub mod Bitmap
pub mod Pmm
pub mod Vmm
pub mod Text
pub mod Console
pub mod Cpu
pub mod Paging
pub mod Tasks
pub mod Firmware
pub mod Kheap
pub mod Boot
