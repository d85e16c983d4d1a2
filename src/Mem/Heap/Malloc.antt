-- ===== src/Mem/Heap/Malloc.antt =====
-- `kmalloc` of src/kernel/mem/heap/heap.cc, on a heap that is empty or has room.
use slayer_os.Base.{ℕ, ◌≡◌, ◌⊎◌, List, []}
use slayer_os.Mem.Frames.{FrameAllocator}
use slayer_os.Mem.Heap.{HeapPage, Heap}
use slayer_os.Mem.Heap.Whole.{AllNoFit}

abbrev heap : List HeapPage → FrameAllocator → Heap
heap pages s = record { pages = pages; allocator = s }

-- A heap on which `kmalloc` makes no page behind others: some free segment is large enough, or there
-- is no page.
abbrev pub HasRoom : ℕ → Heap → Type 0
HasRoom size h = (¬ AllNoFit size h.pages) ⊎ (h.pages ≡ [])
