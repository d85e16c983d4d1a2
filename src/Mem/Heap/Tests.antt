-- ===== src/Mem/Heap/Tests.antt =====
-- The heap of src/kernel/mem/heap/heap.cc with one page of 200 bytes, and the theorems about it at
-- that heap.
use slayer_os.Base.{◌≡◌, ◌+◌, refl, true, false, some, inr, [], ◌∷◌, ◌++◌, arith, u32}
use slayer_os.Mem.Frames.{FrameAllocator}
use slayer_os.Mem.Heap.{
  Segment, HeapPage, Heap, kmalloc, kfree, create_heap_page, returned, segment_header,
}
use slayer_os.Mem.Heap.Chain.{Inserted, here, live}
use slayer_os.Mem.Heap.Whole.{IsTiled, live_pages}
use slayer_os.Mem.Heap.Total.{IsHeap, IsPool, Created, create_heap_page-Created}
use slayer_os.Mem.Heap.Free.{first_fit, kfree-first, kfree-later, kfree-kmalloc}

abbrev pool : FrameAllocator
pool = record {
  frames = λ _. false;
  nframes = 16;
  latest_frame = 0;
  available_frames = 16;
  base_addr = 0x10_0000;
  memory = λ _. 7;
}

pool-IsPool : IsPool pool
pool-IsPool = record { valid = omega arith; small = omega arith; ends = omega arith }

abbrev used : Segment
used = record { at = 0x2020; addr = 0x2040; size = 40; free = false }

abbrev rest : Segment
rest = record { at = 0x2068; addr = 0x2088; size = 96; free = true }

abbrev page : HeapPage
page = record { at = 0x2000; addr = 0x2020; segments = used ∷ rest ∷ []; free_size = 96 }

page-IsTiled : IsTiled page 0x20e8
page-IsTiled = record { small = omega arith; chain = (refl, refl, (refl, refl, refl)) }

abbrev heap : Heap
heap = record { pages = page ∷ []; allocator = pool }

heap-IsHeap : IsHeap heap
heap-IsHeap = record { tiled = ((0x20e8, page-IsTiled), tt); pool = pool-IsPool }

used_first : Inserted (0x2040, 40) [] (live page.segments)
unfolding live
used_first = here

rest_fits : first_fit 24 page.segments ≡ some rest
unfolding first_fit
rest_fits = refl

create_heap_page-Created_example : Created pool 5000 (create_heap_page pool 5000)
create_heap_page-Created_example = create_heap_page-Created pool 5000 (omega arith) pool-IsPool

kfree-first_example :
    (h' : Heap) × (kfree heap 0x2040 ≡ some (true, h'))
    × (live_pages h'.pages ≡ [] ++ live_pages [])
    × IsHeap h'
kfree-first_example = kfree-first page [] pool 0x2040 40 [] heap-IsHeap used_first

kfree-later_example : kfree heap 0x9000 ≡ some (false, heap)
kfree-later_example = kfree-later page [] pool 0x20e8 0x9000 page-IsTiled (inr (omega arith))

kfree-kmalloc_example :
    (h' : Heap) × (kmalloc 1 heap 24 ≡ returned rest.addr h')
    × (kfree h' rest.addr
        ≡ some (
          true,
          record {
            pages = record page { free_size = u32 (page.free_size + segment_header) } ∷ [];
            allocator = pool;
          },
        ))
kfree-kmalloc_example =
    kfree-kmalloc 0 24 page [] pool 0x20e8 rest page-IsTiled rest_fits (omega arith)
