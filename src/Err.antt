-- ===== src/Err.antt =====
-- src/kernel/err and src/include/err: what the kernel does to report a fault.
pub mod Demangle
pub mod Dump
pub mod Symbols
