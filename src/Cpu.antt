-- ===== src/Cpu.antt =====
-- src/kernel/cpu and src/include/cpu: the parts of the processor and its timers.
pub mod Exceptions
pub mod Gdt
pub mod Idt
pub mod Irq
pub mod Lapic
pub mod Pit
pub mod Tss
