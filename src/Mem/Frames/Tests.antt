-- ===== src/Mem/Frames/Tests.antt =====
-- The allocator of src/kernel/mem/frames/frames.cc at a pool of sixteen frames, and the theorems
-- about it at that pool.
use slayer_os.Base.{◌≡◌, ◌+◌, ◌-◌, ◌^◌, refl, true, false, arith, ltb, ◌==◌, ◌||◌}
use slayer_os.Mem.Frames.{FrameAllocator, frame_address, alloc, allocs, free}
use slayer_os.Mem.Frames.Alloc.{IsValid, Allocates, taking, alloc_lem}
use slayer_os.Mem.Frames.Free.{alloc-free, alloc_wraps}
use slayer_os.Mem.Frames.Runs.{reserving}
use slayer_os.Mem.Frames.Overlap.{allocs_one, allocs-allocs}

abbrev pool : FrameAllocator
pool = record {
  frames = λ _. false;
  nframes = 16;
  latest_frame = 0;
  available_frames = 16;
  base_addr = 0x10_0000;
  memory = λ _. 7;
}

-- Frames 0 and 2 are taken.
abbrev holed : FrameAllocator
holed = record pool { frames = λ i. (i == 0) || (i == 2) }

pool-IsValid : IsValid pool
pool-IsValid = omega arith

alloc_lem_example : Allocates holed (alloc holed)
alloc_lem_example = alloc_lem {s = holed} (omega arith)

alloc-free_example :
    let freed = free holed (frame_address holed 2) in
    alloc freed ≡ (frame_address holed 2, taking freed 2)
alloc-free_example =
    alloc-free {s = holed} 2 (omega arith) (omega arith) (omega arith) (omega arith)

allocs_one_example : allocs holed 1 ≡ (frame_address holed 0, reserving holed 0 1)
allocs_one_example = allocs_one {s = holed} (omega arith) (omega arith)

allocs-allocs_example :
    let (first, s') = allocs pool 3 in
    (first ≡ frame_address pool 0) × ((allocs s' 2).0 ≡ frame_address pool (0 + (3 - 1)))
allocs-allocs_example =
    allocs-allocs {s = pool} 3 2 pool-IsValid (omega arith) (omega arith) (omega arith)
      (λ j a b. refl)

-- A pool of more than 4 GiB of which the first 4 GiB are taken.
abbrev large : FrameAllocator
large = record pool { frames = λ i. ltb i (3 + 2 ^ 20); available_frames = 2 ^ 21 }

alloc_wraps_example : (large.frames 3 ≡ true) × ((alloc large).0 ≡ frame_address large 3)
alloc_wraps_example =
    alloc_wraps {s = large} 3 (omega arith) (omega arith) (omega arith) (λ i a b. ground arith) refl

runs :
    ((allocs pool 3).0 ≡ 0x10_0000)
    × ((alloc (allocs pool 3).1).0 ≡ 0x10_3000)
    × ((allocs holed 2).0 ≡ 0x10_0000)
unfolding alloc allocs
runs = (refl, refl, refl)
