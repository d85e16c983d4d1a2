-- ===== src/Mem/Frames.antt =====
-- src/kernel/mem/frames/frames.cc: the allocator of 4 KiB frames over a table of flags.
-- The statics of the file are the fields of `FrameAllocator`; an address is a number, and the null
-- pointer is 0. `memory` holds the 64-bit words of the machine, each under its address.
pub mod Alloc
pub mod Free
pub mod Runs
pub mod Overlap
pub mod Room
mod Tests
use slayer_os.Base.{
  ℕ, zero, suc, ◌+◌, ◌-◌, ◌*◌, ◌/◌, Bool, true, false, ◌&&◌, Option, none, some, ◌==◌, ltb, leb,
  if◌then◌else◌, update, get_elem?, u32, u64, sub64,
}
use slayer_os.Boot.{BootCtx}

abbrev pub frame_size : ℕ
frame_size = 0x1000

-- `PHYS2VIRT` and `VIRT2PHYS`
abbrev pub phys_to_virt : BootCtx → ℕ → ℕ
phys_to_virt boot addr = u64 (boot.hhdm_addr + addr)

abbrev pub virt_to_phys : BootCtx → ℕ → ℕ
virt_to_phys boot addr = sub64 addr boot.hhdm_addr

pub record FrameAllocator : Type 0 where
  pub frames : ℕ → Bool
  pub nframes : ℕ
  pub latest_frame : ℕ
  pub available_frames : ℕ
  pub base_addr : ℕ
  pub memory : ℕ → ℕ

-- `memset(addr, 0, n)`, on the words that lie in the range.
abbrev pub clear_words : (ℕ → ℕ) → ℕ → ℕ → ℕ → ℕ
clear_words memory addr n a = if leb addr a && ltb a (addr + n) then 0 else memory a

-- `base_addr + i * FRAME_SIZE`, where the product has the type u32 of `i`.
abbrev pub frame_address : FrameAllocator → ℕ → ℕ
frame_address s i = u64 (s.base_addr + u32 (i * frame_size))

-- The `while` loop of `alloc`, with the rounds that are left before `available_frames`.
pub skip_used : (ℕ → Bool) → ℕ → ℕ → ℕ
skip_used frames zero i = i
skip_used frames (suc n) i = elim (frames i) [ true ↦ skip_used frames n (i + 1) | false ↦ i ]

-- `Mem::Frame::alloc`
unfoldable pub alloc : FrameAllocator → ℕ × FrameAllocator
unfolding skip_used
alloc s =
    let i = skip_used s.frames (s.available_frames - s.latest_frame) s.latest_frame in
    if i == s.available_frames then (0, record s { latest_frame = i }) else (
      frame_address s i,
      record s {
        frames = update s.frames i true;
        latest_frame = u32 (i + 1);
        memory = clear_words s.memory (frame_address s i) frame_size;
      },
    )

-- One round of the search of `allocs`: the new start of the run, and its length so far.
abbrev pub extend_run : Bool → ℕ → ℕ → ℕ → ℕ × ℕ
extend_run true i start run = (i, 1)
extend_run false i start run = (start, u32 (run + 1))

-- The search of `allocs`: rounds left, index, start of the run, length of the run.
pub find_run : (ℕ → Bool) → ℕ → ℕ → ℕ → ℕ → ℕ → ℕ × ℕ
find_run frames count zero i start run = (start, run)
find_run frames count (suc n) i start run =
    let (start', run') = extend_run (frames i) i start run in
    elim (run' == count) [
      | true ↦ (start', run')
      | false ↦ find_run frames count n (i + 1) start' run'
    ]

-- The loop of `allocs` that takes `n` frames from `i` on.
pub mark_used : (ℕ → Bool) → ℕ → ℕ → ℕ → Bool
mark_used frames i zero = frames
mark_used frames i (suc n) = mark_used (update frames i true) (i + 1) n

-- `Mem::Frame::allocs`
unfoldable pub allocs : FrameAllocator → ℕ → ℕ × FrameAllocator
unfolding find_run mark_used
allocs s count =
    let (start, run) =
      find_run s.frames count (s.available_frames - s.latest_frame) s.latest_frame s.latest_frame
        0 in
    if ltb run count then (0, s) else (
      frame_address s start,
      record s {
        frames = mark_used s.frames start count;
        latest_frame = u32 (s.latest_frame + 1);
        memory = clear_words s.memory (frame_address s start) (count * frame_size);
      },
    )

abbrev pub frame_number : FrameAllocator → ℕ → ℕ
frame_number s frame = u32 (sub64 frame s.base_addr) / frame_size

-- `Mem::Frame::free`
unfoldable pub free : FrameAllocator → ℕ → FrameAllocator
free s frame =
    let n = frame_number s frame in record s { frames = update s.frames n false; latest_frame = n }

-- `Mem::Frame::init`, on what the flags and the memory held before. `none`: the memory map has
-- fewer than two entries, and the code reads behind its end.
unfoldable pub init : BootCtx → FrameAllocator → Option FrameAllocator
init boot s = elim (get_elem? boot.memmap_entries 1) [
  | none ↦ none
  | some bitmap ↦ elim (get_elem? boot.memmap_entries 0) [
    | none ↦ none
    | some pool ↦ some (record s {
      nframes = bitmap.len / frame_size;
      frames = λ i. if ltb i (bitmap.len / frame_size) then false else s.frames i;
      base_addr = phys_to_virt boot pool.base;
      available_frames = u32 (pool.len / frame_size);
    })
  ]
]
