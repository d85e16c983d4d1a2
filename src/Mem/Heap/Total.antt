-- ===== src/Mem/Heap/Total.antt =====
-- `create_heap_page` of src/kernel/mem/heap/heap.cc, and how a call of `kmalloc` that makes no page
-- behind others may end.
use slayer_os.Base.{
  ◌≢◌, ◌⊎◌, ◌∙◌, ap, ==→ne, ℕ, ◌+◌, ◌-◌, ◌*◌, ◌<◌, ◌≤◌, ◌^◌, ◌≡◌, refl, true, Option, none, some,
  [], ◌∷◌, arith, inl, inr, Bool-cases, ◌==◌, u64, u32, sub64, sub32,
}
use slayer_os.Mem.Frames.{FrameAllocator, frame_size, frame_address, allocs}
use slayer_os.Mem.Frames.Alloc.{IsValid}
use slayer_os.Mem.Frames.Runs.{reserved, refused, reserving, allocs_lem}
use slayer_os.Mem.Heap.{
  Segment, HeapPage, Heap, segment_header, page_header, Outcome, returned, halted,
  page_segments_init, page_bytes, page_frames, create_heap_page,
}
use slayer_os.Mem.Heap.Whole.{IsTiled, AllTiled, Grown}

-- The frames lie below the end of the address space, in a pool of at most 4 GiB.
pub record IsPool (s : FrameAllocator) : Type 0 where
  pub valid : IsValid s
  pub small : s.available_frames ≤ 2 ^ 20
  pub ends : s.base_addr + s.available_frames * frame_size < 2 ^ 64

-- What `create_heap_page` may do: make a page of one free segment, large enough, that tiles a part
-- of the run of frames behind the page's header, where `allocs` returns such a run; or fail, where
-- it returns null.
pub data Created (s : FrameAllocator) (size : ℕ) : Option (HeapPage × FrameAllocator) → Type 0 where
  created :
      {page : HeapPage} {s' : FrameAllocator} (hi : ℕ) (g : Segment)
      → IsPool s'
      → (allocs s (page_frames size)).0 ≡ page.at
      → page.at ≢ 0
      → IsTiled page hi
      → page.segments ≡ g ∷ []
      → g.free ≡ true
      → size ≤ g.size
      → page.addr ≡ page.at + page_header
      → hi ≤ page.at + page_frames size * frame_size
      → Created s size (some (page, s'))
  failed : (allocs s (page_frames size)).0 ≡ 0 → Created s size none

-- The page that is built on a run of frames.
abbrev fresh_page : ℕ → ℕ → HeapPage
fresh_page at size = page_segments_init (record {
  at = at;
  addr = u64 (at + page_header);
  segments = [];
  free_size = u32 (sub64 (page_bytes size) page_header);
})

page_bytes_lem :
    (size : ℕ)
    → size + 0x2000 ≤ 2 ^ 32
    → (size + page_header + segment_header ≤ page_bytes size)
      × (page_bytes size ≤ page_frames size * frame_size)
      × (page_bytes size < 2 ^ 32)
      × (0 < page_frames size)
unfolding page_bytes page_frames
page_bytes_lem size small = ground arith

fresh-Created :
    (s : FrameAllocator) (start size : ℕ)
    → size + 0x2000 ≤ 2 ^ 32
    → IsPool s
    → s.latest_frame < s.available_frames
    → start + page_frames size ≤ s.available_frames
    → (allocs s (page_frames size)).0 ≡ frame_address s start
    → frame_address s start ≢ 0
    → Created s size
        (some (fresh_page (frame_address s start) size, reserving s start (page_frames size)))
unfolding page_segments_init
fresh-Created s start size small pool room run from set =
    let facts = page_bytes_lem size small in
    let at : frame_address s start ≡ s.base_addr + start * frame_size =
      omega (arith, pool.small, pool.ends) in
    let n : sub32 (u32 (sub64 (page_bytes size) page_header)) segment_header
        ≡ page_bytes size - page_header - segment_header =
      omega (arith, facts) in
    let small' : frame_address s start + page_bytes size < 2 ^ 64 =
      omega (arith, facts, at, pool.ends) in
    let head : u64 (frame_address s start + page_header) ≡ frame_address s start + page_header =
      omega (arith, facts) in
    created (frame_address s start + page_bytes size) _
      (record { valid = omega (arith, pool.valid); small = pool.small; ends = pool.ends }) from set
      (record {
        small = small';
        chain = (refl, omega (arith, facts), omega (arith, facts, head, n));
      })
      refl refl (omega (arith, n, facts)) head (omega (arith, facts))

zero_of : {n : ℕ} → (n == 0) ≡ true → n ≡ 0
zero_of e = ground arith

-- On a pool of at most 4 GiB that does not wrap, `create_heap_page` for less than 4 GiB fails where
-- `allocs` returns null, and only there; where it returns a run, the page begins with it, and its one
-- segment is free, lies within the run behind the headers, and has room for the size that the page is
-- made for.
pub create_heap_page-Created :
    (s : FrameAllocator) (size : ℕ)
    → size + 0x2000 ≤ 2 ^ 32
    → IsPool s
    → Created s size (create_heap_page s size)
unfolding create_heap_page
create_heap_page-Created s size small pool =
    elim (allocs_lem pool.valid (page_frames size) (page_bytes_lem size small).3) [
      | reserved start lo run free e ↦
          let from : (allocs s (page_frames size)).0 ≡ frame_address s start = ap (λ r. r.0) e in
          elim (Bool-cases (frame_address s start == 0)) [
            | inl null ↦ rw (e, null) (failed (from ∙ zero_of null))
            | inr ok ↦
                rw (e, ok)
                  (fresh-Created s start size small pool
                    (omega (arith, lo, run, (page_bytes_lem size small).3)) run from (==→ne _ 0 ok))
          ]
      | refused e ↦ rw e (failed (ap (λ r. r.0) e))
    ]

-- How a call of `kmalloc` that makes no page behind others may end: on a heap with pages, with a block
-- of one of them; on the empty one, with a block of the first page, or at the `hlt`, where `allocs`
-- returns null.
pub data Mallocs (size : ℕ) (h : Heap) : Outcome → Type 0 where
  gives :
      {addr : ℕ} {h' : Heap}
      → Grown size h.pages addr h'.pages
      → IsPool h'.allocator
      → (h.pages ≡ []) ⊎ (h'.allocator ≡ h.allocator)
      → Mallocs size h (returned addr h')
  halts : h.pages ≡ [] → (allocs h.allocator (page_frames size)).0 ≡ 0 → Mallocs size h halted

pub record IsHeap (h : Heap) : Type 0 where
  pub tiled : AllTiled h.pages
  pub pool : IsPool h.allocator
