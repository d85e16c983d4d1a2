-- ===== src/Lib.antt =====
-- SlayerOS, an x86-64 kernel: a model of the kernel's code with the theorems that make its parts
-- correct, and with those that show where the code departs from what it means to do.
--
-- Parts. A file stands for the source that its first line names; the paths are from the
-- repository's root. An operation has the name that the source gives it, with a word of its module
-- where the source's name is too short to stand alone (map is map_page, IDT::init is idt_init).
--   Boot           src/kernel/bootloader/limine.cc: gather and sort_memmap
--   Mem/Frames     src/kernel/mem/frames/frames.cc: alloc, allocs, free, init
--   Mem/Paging     src/kernel/mem/paging/paging.cc: map, map_range, unmap, map_mmio
--   Mem/Mapper     src/kernel/mem/map/mapper.cc: full_map and its five loops
--   Mem/Heap       src/kernel/mem/heap/heap.cc: kmalloc and kfree
--   Cpu/Gdt        src/kernel/cpu/gdt/gdt.cc: the table of segments
--   Cpu/Idt        src/kernel/cpu/interrupts/idt.cc: the gates and init
--   Cpu/Irq        src/kernel/cpu/interrupts/irq.cc: registration, dispatch and init;
--                  src/kernel/cpu/interrupts/isr.s: what its stubs of IRQs push
--   Cpu/Exceptions src/kernel/cpu/interrupts/handler.cc: the reports of exceptions
--   Cpu/Pit        src/kernel/cpu/interrupts/pit.cc: ticks and waits
--   Cpu/Tss        src/kernel/cpu/tss/tss.cc: the descriptor and the stacks of interrupts
--   Cpu/Lapic      src/kernel/cpu/lapic/lapic.cc: the local APIC and its timer
--   Sys/Timer      src/kernel/sys/timer.cc: the clock over the interval timer
--   Sys/IoApic     src/kernel/sys/ioapic.cc: the table of chips, the routes of interrupts, the dump
--   Sys/Acpi       src/kernel/sys/acpi_kapi.cc: uACPI's interrupt handlers, the memory that it maps;
--                  Sys/Acpi/Handles: its port ranges, PCI devices, locks and the rest;
--                  Sys/Acpi/Start: src/kernel/sys/acpi.cc
--   Task           src/kernel/task/scheduler.cc: the ring of tasks; Task/Trail to Task/Cleanup are
--                  about its pointers, Task/Turns to Task/Fair about yield, Task/Reach about all
--   Err/Demangle   src/kernel/err/mangle.cc: mangled names as declarations
--   Err/Dump       src/kernel/err/dump.cc: addresses as text, the backtrace; Err/Dump/Listing:
--                  dump_at_addr and the instructions that it shows
--   Err/Symbols    src/kernel/err/meta_resolver.cc: the symbol table and the search in it
--   Arch           src/kernel/arch and src/kernel/cpu/interrupts/pic.cc: the serial port, cpuid, SSE
--   Dbg/Log        src/kernel/dbg/logger/log.cc: print, printf and the levels
--   Kernel         src/kernel/kern.cc: the start, as far as its steps share a state
--   Base           lists, words, bits and tests that all parts share
--
-- How the parts interact. The boot loader's memory map is sorted (Boot) and its first entry
-- becomes the pool of the frame allocator (Mem/Frames). The page tables (Mem/Paging) take their
-- tables from that allocator and lie in the direct map, in which the kernel sees physical memory;
-- full_map (Mem/Mapper) is a sequence of calls of map. The heap (Mem/Heap) takes runs of frames
-- for its pages. uACPI's handlers (Sys/Acpi) go through the dispatch of interrupts (Cpu/Irq) and
-- the gates (Cpu/Idt). init of Cpu/Irq sends the timer's pin of the I/O APICs (Sys/IoApic) to the
-- vector whose gate and handler it registers. The clock (Sys/Timer) counts the interrupts of the
-- interval timer (Cpu/Pit). An exception's report (Cpu/Exceptions) ends with the dump (Err/Dump) of
-- the place that the symbol table (Err/Symbols) finds. The log (Dbg/Log) waits for the serial port
-- (Arch/Serial). uACPI's handles are blocks of the heap. The start (Kernel) runs the steps from the
-- memory map to the page tables on one frame allocator.
--
-- State. The statics of a file are the fields of a record, and an operation takes and returns it.
-- A null pointer is 0. The words of the machine's memory are part of the frame allocator's state,
-- and the page tables are words of it; the tasks are records under their addresses; the chains of
-- the heap are lists, which is faithful while its pages share no frame. Integers are natural
-- numbers with each wrap written out.
--
-- Fuel. map_range and map_section have one round more than the loop makes where its index does not
-- wrap; kmalloc needs no call of itself on a heap that has room or no page; the walks of the ring
-- of tasks have a round for each task; the loops of the demangler have as many rounds as the
-- caller allows, and the theorem asks for one for each character; the parse of the I/O APICs'
-- table has a round for each byte of the table, and ends early only on an entry of length 0, on
-- which the code does not end either; the loops of dump_at_addr have a round for each byte of the
-- function and one more, since an instruction has a byte; a wait for the serial port has as many
-- reads as the caller allows. The theorems about these functions state that a result comes, so the
-- fuel is enough.
--
-- Not modelled. The code of the submodules (limine.h, klib, drivers, uACPI, Zydis) is not here:
-- what they hand over is an argument, and what a theorem relies on is a record of laws (IsUart,
-- IsOutput, IsDecoder). A heap that makes a page behind others is left out of the theorems, since
-- the run of frames that it gets may begin with one that is in use; and so is what
-- create_heap_page does behind its hlt. What the demangler does once it has written past the end
-- of one of its arrays is left out: such a run ends without a result. The interrupts of the timer
-- are taken where the code halts, and not between. Machine instructions (the control registers,
-- lidt, hlt) are left out; hlt returns at the next of a list of interrupts. A report of an
-- exception is the list of its messages without the frames that are drawn around them, and most
-- operations leave out what they log. The context switch of a task is a call of its entry point in
-- the code too, and is noted in a list.
pub mod Arch
pub mod Base
pub mod Boot
pub mod Cpu
pub mod Dbg
pub mod Err
pub mod Kernel
pub mod Mem
pub mod Sys
pub mod Task
