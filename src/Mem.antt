-- ===== src/Mem.antt =====
-- src/kernel/mem and src/include/mem: frames, pages, the boot-time mapping and the heap.
pub mod Frames
pub mod Paging
pub mod Mapper
pub mod Heap
