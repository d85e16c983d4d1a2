-- ===== src/Mem/Heap.antt =====
-- src/kernel/mem/heap/heap.cc and src/include/mem/heap.h: the kernel heap.
-- A page of the heap is a run of frames with a header and a chain of segments, each behind a header
-- of its own. The chains have no sharing, so they are lists, in the order of the `next` pointers;
-- `at` is the address of a header. `heap == nullptr` is the empty list of pages. The lists are faithful
-- while the pages share no frame: `Frame::allocs` may begin a run with a frame that is in use
-- (Mem/Frames/Overlap), so no theorem is about a call that makes a page behind others.
pub mod Chain
pub mod Release
pub mod Whole
pub mod Total
pub mod Malloc
pub mod Free
mod Tests
use slayer_os.Base.{
  ℕ, zero, suc, ◌+◌, ◌-◌, ◌*◌, Bool, true, false, ◌&&◌, Option, none, some, List, [], ◌∷◌, ◌++◌,
  ◌==◌, ltb, leb, if◌then◌else◌, u32, u64, sub32, sub64,
}
use slayer_os.Mem.Frames.{FrameAllocator, frame_size, allocs}
use slayer_os.Mem.Paging.{round_up}

-- `heap_segment_t`
pub record Segment : Type 0 where
  pub at : ℕ
  pub addr : ℕ
  pub size : ℕ
  pub free : Bool

-- `heap_page_t`
pub record HeapPage : Type 0 where
  pub at : ℕ
  pub addr : ℕ
  pub segments : List Segment
  pub free_size : ℕ

pub record Heap : Type 0 where
  pub pages : List HeapPage
  pub allocator : FrameAllocator

-- `sizeof(heap_segment_t)` and `sizeof(heap_page_t)`
abbrev pub segment_header : ℕ
segment_header = 32

abbrev pub page_header : ℕ
page_header = 32

unfoldable pub page_segments_init : HeapPage → HeapPage
page_segments_init page =
    let free_size = sub32 page.free_size segment_header in
    record page {
      free_size = free_size;
      segments =
          record {
            at = page.addr;
            addr = u64 (page.addr + segment_header);
            size = free_size;
            free = true;
          }
          ∷ [];
    }

-- The bytes that `create_heap_page` asks for, and the frames.
unfoldable pub page_bytes : ℕ → ℕ
page_bytes size =
    if leb (u64 (size + page_header + segment_header)) frame_size
    then frame_size
    else u64 (page_header + segment_header + size)

unfoldable pub page_frames : ℕ → ℕ
page_frames size =
    if leb (u64 (size + page_header + segment_header)) frame_size
    then 1
    else u32 (round_up (u64 (page_header + segment_header + size)) frame_size)

-- `none`: `allocs` returned null, and the code comes to its `hlt`. What it does with the null page
-- behind the next interrupt is not modelled.
unfoldable pub create_heap_page : FrameAllocator → ℕ → Option (HeapPage × FrameAllocator)
unfolding page_segments_init page_bytes page_frames
create_heap_page s size =
    let (at, s') = allocs s (page_frames size) in
    if at == 0
    then none
    else some (
      page_segments_init (record {
        at = at;
        addr = u64 (at + page_header);
        segments = [];
        free_size = u32 (sub64 (page_bytes size) page_header);
      }),
      s',
    )

-- `alloc_segment`: what stands in the chain for the segment afterwards.
unfoldable pub split_segment : Segment → ℕ → Segment × List Segment
split_segment g size =
    if ltb (u64 (size + segment_header)) g.size
    then (
      record g { size = size; free = false },
      record {
        at = u64 (g.addr + size);
        addr = u64 (u64 (g.addr + size) + segment_header);
        size = sub64 (sub64 g.size size) segment_header;
        free = true;
      }
          ∷ [],
    )
    else (record g { free = false }, [])

-- The inner loop of `kmalloc`: the address that it returns, the bytes that the page loses, and the
-- chain.
unfoldable pub place : ℕ → List Segment → Option (ℕ × ℕ × List Segment)
unfolding split_segment
place size [] = none
place size (g ∷ gs) =
    let rest = place size gs in
    if g.free && leb size g.size
    then (let (used, tail) = split_segment g size in
        some (used.addr, used.size, used ∷ (tail ++ gs)))
    else elim rest [ none ↦ none | some (addr, taken, gs') ↦ some (addr, taken, g ∷ gs') ]

-- The outer loop of `kmalloc`.
unfoldable pub place_in_pages : ℕ → List HeapPage → Option (ℕ × List HeapPage)
unfolding place
place_in_pages size [] = none
place_in_pages size (page ∷ pages) =
    let rest = place_in_pages size pages in
    elim (place size page.segments) [
      | some (addr, taken, segments) ↦ some (
        addr,
        record page { segments = segments; free_size = sub32 page.free_size taken } ∷ pages,
      )
      | none ↦ elim rest [ none ↦ none | some (addr, pages') ↦ some (addr, page ∷ pages') ]
    ]

-- How a call of `kmalloc` ends: with an address, at the `hlt` of `create_heap_page`, or not within
-- the calls of itself that the fuel allows.
pub data Outcome : Type 0 where
  returned : ℕ → Heap → Outcome
  halted : Outcome
  out_of_fuel : Outcome

-- The first line of `kmalloc`.
unfoldable pub ensure_page : Heap → ℕ → Option Heap
unfolding create_heap_page
ensure_page h size = elim h.pages [
  | [] ↦ elim (create_heap_page h.allocator size) [
    | none ↦ none
    | some (page, s) ↦ some (record { pages = page ∷ []; allocator = s })
  ]
  | _ ∷ _ ↦ some h
]

unfoldable pub kmalloc : ℕ → Heap → ℕ → Outcome
unfolding ensure_page create_heap_page place_in_pages
kmalloc zero h size = out_of_fuel
kmalloc (suc n) h size = elim (ensure_page h size) [
  | none ↦ halted
  | some h1 ↦ elim (place_in_pages size h1.pages) [
    | some (addr, pages) ↦ returned addr (record h1 { pages = pages })
    | none ↦ elim (create_heap_page h1.allocator size) [
      | none ↦ halted
      | some (page, s) ↦ kmalloc n (record { pages = h1.pages ++ (page ∷ []); allocator = s }) size
    ]
  ]
]

-- `try_segment_merge`: the segment and those behind it, and what the page gains.
unfoldable pub try_segment_merge : Segment → List Segment → List Segment × ℕ
try_segment_merge g [] = (g ∷ [], 0)
try_segment_merge g (next ∷ gs) =
    if next.free
    then (record g { size = u64 (g.size + (next.size + segment_header)) } ∷ gs, segment_header)
    else (g ∷ next ∷ gs, 0)

-- The inner loop of `kfree`: the chain, and the bytes that the page gains.
unfoldable pub release : ℕ → List Segment → Option (List Segment × ℕ)
unfolding try_segment_merge
release addr [] = none
release addr (g ∷ gs) =
    let rest = release addr gs in
    if g.addr == addr
    then (let (gs', more) = try_segment_merge (record g { free = true }) gs in
        some (gs', g.size + more))
    else elim rest [ none ↦ none | some (gs', gained) ↦ some (g ∷ gs', gained) ]

-- The loops of `kfree`, from a page on: `gs` is the chain that `segment` points into, which is null
-- when the loop over the pages goes on, since nothing sets it again. `some`: what that chain has
-- become, and the pages with the bytes that are counted.
unfoldable pub kfree_from : ℕ → List Segment → List HeapPage → Option (List Segment × List HeapPage)
unfolding release
kfree_from addr gs [] = none
kfree_from addr gs (page ∷ pages) =
    let rest = kfree_from addr [] pages in
    elim (release addr gs) [
      | some (gs', gained) ↦
          some (gs', record page { free_size = u32 (page.free_size + gained) } ∷ pages)
      | none ↦ elim rest [ none ↦ none | some (gs', pages') ↦ some (gs', page ∷ pages') ]
    ]

-- The chain that `kfree` starts from is that of the first page.
abbrev pub with_chain : List Segment → List HeapPage → List HeapPage
with_chain gs [] = []
with_chain gs (page ∷ pages) = record page { segments = gs } ∷ pages

-- `kfree`. `none`: the heap is null, and the code reads through it.
unfoldable pub kfree : Heap → ℕ → Option (Bool × Heap)
unfolding kfree_from
kfree h addr = elim h.pages [
  | [] ↦ none
  | page ∷ pages ↦ elim (kfree_from addr page.segments (page ∷ pages)) [
    | none ↦ some (false, h)
    | some (gs, pages') ↦ some (true, record h { pages = with_chain gs pages' })
  ]
]
