-- ===== src/Arch.antt =====
-- src/kernel/arch and src/include/arch: what the kernel asks of the processor and of the serial port.
pub mod Ports
pub mod Serial
pub mod Cpuid
mod Tests
