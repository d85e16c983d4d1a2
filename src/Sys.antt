-- ===== src/Sys.antt =====
-- src/kernel/sys and src/include/sys: what the kernel offers on top of the devices.
pub mod Acpi
pub mod IoApic
pub mod Timer
