-- ===== src/Mem/Frames/Free.antt =====
-- `free` of src/kernel/mem/frames/frames.cc against `alloc`, and the addresses of frames.
use slayer_os.Base.{ℕ, ◌+◌, ◌%◌, ◌<◌, ◌≤◌, ◌^◌, ◌≡◌, refl, true, false, arith, eq→==, ap, ◌∙◌}
use slayer_os.Mem.Frames.{FrameAllocator, frame_address, frame_number, alloc, free}
use slayer_os.Mem.Frames.Alloc.{IsValid, AllUsed, taking, alloc-taking}

-- The number that `free` computes from the address of a frame is right below 2 ^ 20 only.
pub frame_number-frame_address :
    (s : FrameAllocator) (k : ℕ)
    → s.base_addr < 2 ^ 64
    → frame_number s (frame_address s k) ≡ k % 2 ^ 20
frame_number-frame_address s k h = omega arith

-- `free` keeps the state valid when it is given the address of a frame of the pool.
pub free-IsValid :
    {s : FrameAllocator} (k : ℕ)
    → IsValid s
    → s.base_addr < 2 ^ 64
    → k < s.available_frames
    → IsValid (free s (frame_address s k))
unfolding free
free-IsValid {s} k v h lt = omega (arith, frame_number-frame_address s k h, v.fits)

-- In a valid state, a frame of the pool below number 2 ^ 20 that is freed is the next one that
-- `alloc` returns, cleared and marked as taken.
pub alloc-free :
    {s : FrameAllocator} (k : ℕ)
    → IsValid s
    → s.base_addr < 2 ^ 64
    → k < s.available_frames
    → k < 2 ^ 20
    → let freed = free s (frame_address s k) in alloc freed ≡ (frame_address s k, taking freed k)
unfolding free
alloc-free {s} k v h lt small =
    let freed = free s (frame_address s k) in
    let n : frame_number s (frame_address s k) ≡ k =
      omega (arith, frame_number-frame_address s k h) in
    alloc-taking {s = freed} (free-IsValid k v h lt) k (omega (arith, n)) lt
      (λ i a b. absurd (omega (arith, n))) (rw n (rw (eq→== k k refl)))

-- The product `latest_frame * FRAME_SIZE` is cut to 32 bits, so a pool of more than 4 GiB has two
-- frames at one address: in a valid state with every frame below number 2 ^ 20 + k taken, this
-- frame free and the search index not behind it, `alloc` returns the address of frame k.
pub alloc_wraps :
    {s : FrameAllocator} (k : ℕ)
    → IsValid s
    → s.latest_frame ≤ k + 2 ^ 20
    → k + 2 ^ 20 < s.available_frames
    → AllUsed s.frames 0 (k + 2 ^ 20)
    → s.frames (k + 2 ^ 20) ≡ false
    → (s.frames k ≡ true) × ((alloc s).0 ≡ frame_address s k)
alloc_wraps {s} k v lo hi used free = (
  used k (omega arith) (omega arith),
  ap (λ r. r.0) (alloc-taking v (k + 2 ^ 20) lo hi (λ i a b. used i (omega arith) b) free)
      ∙ omega arith,
)
