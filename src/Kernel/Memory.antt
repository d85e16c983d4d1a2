-- ===== src/Kernel/Memory.antt =====
-- The memory of the kernel behind `_kernel_pre_setup` of src/kernel/kern.cc.
use slayer_os.Base.{
  ℕ, zero, suc, ◌+◌, ◌-◌, ◌*◌, ◌/◌, ◌%◌, ◌^◌, ◌≤◌, ◌<◌, ◌≡◌, ◌∙◌, refl, ap, arith, Bool, false,
  none, some, get_elem?, ltb, if◌then◌else◌, u32,
}
use slayer_os.Boot.{Responses, MemmapEntry, sort_memmap, gather}
use slayer_os.Mem.Frames.{FrameAllocator, frame_size, phys_to_virt, init}
use slayer_os.Mem.Frames.Alloc.{IsValid, AllUsed, AllFree}
use slayer_os.Mem.Frames.Room.{free_count, room}
use slayer_os.Mem.Paging.{init_root}
use slayer_os.Mem.Paging.Walk.{IsPaged, InDirectMap, Owner, lookup}
use slayer_os.Mem.Paging.Root.{init_root-IsPaged}
use slayer_os.Mem.Mapper.{Sections, full_map}
use slayer_os.Cpu.Tss.{Tss, init_stacks}
use slayer_os.Cpu.Tss.Layout.{Stacked, Laid, init_stacks-Laid}
use slayer_os.Kernel.{Statics, cleared_tss, setup_end, paging_init, memory_setup}

-- Taken frames and then free ones.
free_count-split :
    (frames : ℕ → Bool) (m k i : ℕ)
    → AllUsed frames i (i + m)
    → AllFree frames (i + m) (i + m + k)
    → free_count frames (m + k) i ≡ k
unfolding free_count
free_count-split frames zero zero i used free = refl
free_count-split frames zero (suc k) i used free =
    let rounds : 0 + suc k ≡ suc (0 + k) = omega arith in
    let rest =
      free_count-split frames zero k (i + 1) (λ j a b. absurd (omega arith))
        (λ j a b. free j (omega arith) (omega arith)) in
    rw (rounds, free_count, free i (omega arith) (omega arith), rest) (omega arith)
free_count-split frames (suc m) k i used free =
    let rounds : suc m + k ≡ suc (m + k) = omega arith in
    let rest =
      free_count-split frames m k (i + 1) (λ j a b. used j (omega arith) (omega arith))
        (λ j a b. free j (omega arith) (omega arith)) in
    rw (rounds, free_count, used i (omega arith) (omega arith), rest) (omega arith)

room-Stacked :
    (base frames : ℕ) (s : FrameAllocator)
    → Stacked base frames 7 s
    → 22 ≤ frames
    → room s + 22 ≡ frames
room-Stacked base frames s d enough =
    let span : s.available_frames - s.latest_frame ≡ 15 + (frames - 22) =
      omega (arith, d.pool, d.index) in
    let count =
      free_count-split s.frames 15 (frames - 22) 7 (λ j a b. d.used j (omega arith) (omega arith))
        (λ j a b. d.free j (omega arith) (omega arith)) in
    let left : room s ≡ frames - 22 =
      ap (λ n. free_count s.frames n s.latest_frame) span
      ∙ ap (free_count s.frames (15 + (frames - 22))) d.index
      ∙ count in
    omega (arith, left)

-- The first two entries of the sorted memory map, in the direct map: the first becomes the pool, of
-- at most 4 GiB, and the flags of its frames are clear, those that `init` clears and the others.
pub record IsMemory (r : Responses) (s : FrameAllocator) (pool bitmap : MemmapEntry) : Type 0 where
  pub first : get_elem? (sort_memmap r.entries) 0 ≡ some pool
  pub second : get_elem? (sort_memmap r.entries) 1 ≡ some bitmap
  pub index : s.latest_frame ≡ 0
  pub clear : (i : ℕ) → bitmap.len / frame_size ≤ i → i < pool.len / frame_size → s.frames i ≡ false
  pub hhdm_page : r.hhdm_offset % 2 ^ 12 ≡ 0
  pub pool_page : pool.base % 2 ^ 12 ≡ 0
  pub pool_behind : 0 < pool.base
  pub small : pool.len / frame_size ≤ 2 ^ 20
  pub near : pool.base + pool.len / frame_size * frame_size ≤ 2 ^ 48
  pub ends : r.hhdm_offset + pool.base + pool.len / frame_size * frame_size < 2 ^ 64

module _ (r : Responses) (s : FrameAllocator) (pool bitmap : MemmapEntry)
    (m : IsMemory r s pool bitmap) where
  -- The allocator behind `Frame::init`.
  abbrev pub fresh : FrameAllocator
  fresh = record s {
    nframes = bitmap.len / frame_size;
    frames = λ i. if ltb i (bitmap.len / frame_size) then false else s.frames i;
    base_addr = phys_to_virt (gather r) pool.base;
    available_frames = u32 (pool.len / frame_size);
  }

  init-fresh : init (gather r) s ≡ some fresh
  unfolding init gather
  init-fresh = rw (m.second, init, m.first) refl

  fresh-Stacked : Stacked (r.hhdm_offset + pool.base) (pool.len / frame_size) 0 fresh
  unfolding gather
  fresh-Stacked = record {
    at = omega (arith, m.ends);
    pool = omega (arith, m.small);
    index = m.index;
    used = λ j a b. absurd (omega arith);
    free = λ j a b. ground (arith, m.clear j);
  }

  -- With the stacks taken, the pool is valid and in the direct map.
  Stacked-IsValid :
      (s' : FrameAllocator)
      → Stacked (r.hhdm_offset + pool.base) (pool.len / frame_size) 7 s'
      → 23 ≤ pool.len / frame_size
      → IsValid s' × InDirectMap (gather r) s'
  unfolding gather
  Stacked-IsValid s' d enough = (
    omega (arith, d.index, d.pool, m.small),
    record {
      hhdm_page = m.hhdm_page;
      base_page = omega (arith, d.at, m.hhdm_page, m.pool_page);
      above = omega (arith, d.at);
      small = omega (arith, d.pool, m.small);
      near = rw (d.pool, d.at) (omega (arith, m.near));
      ends = rw (d.pool, d.at) (omega (arith, m.ends));
    },
  )

-- Where the sorted memory map begins with the pool and the entry of the flags, the pool begins at a
-- page that is not the one at 0, has at least 23 frames and is of at most 4 GiB and within the first
-- 2 ^ 48 bytes, the direct map begins at a page and holds the pool without a wrap, the flags that
-- `Frame::init` does not clear are clear, and no frame was taken before, the start of the kernel
-- comes to `full_map`: the seven stacks of
-- interrupts are laid out from the first frame on, the root table begins a well-formed tree in
-- which no page has a translation, and 23 frames are taken. What follows is `full_map` from there.
pub memory_setup_lem :
    (r : Responses) (sections : Sections) (statics : Statics) (pool bitmap : MemmapEntry)
    (m : IsMemory r statics.allocator pool bitmap)
    → 23 ≤ pool.len / frame_size
    → (tss : Tss) × (owner : Owner) × (memory_setup r sections statics
        ≡ setup_end r statics tss (full_map (gather r) sections (init_root tss.allocator)))
      × Laid
          (r.hhdm_offset + pool.base)
          (pool.len / frame_size)
          m.small
          m.ends
          0
          7
          (cleared_tss statics (fresh r statics.allocator pool bitmap m))
          tss
      × IsPaged (gather r) (init_root tss.allocator).allocator (init_root tss.allocator).pml4 owner
      × (room (init_root tss.allocator).allocator + 23 ≡ pool.len / frame_size)
      × ((w : ℕ) → lookup (gather r) (init_root tss.allocator) w ≡ none)
unfolding memory_setup paging_init
memory_setup_lem r sections statics pool bitmap m enough =
    let base = r.hhdm_offset + pool.base in
    let frames = pool.len / frame_size in
    let s = statics.allocator in
    let t = cleared_tss statics (fresh r s pool bitmap m) in
    let laid =
      init_stacks-Laid base frames m.small m.ends t (fresh-Stacked r s pool bitmap m)
        (omega (arith, m.pool_behind)) (omega arith) in
    let left = room-Stacked base frames (init_stacks t).allocator laid.stacked (omega arith) in
    let (v, d) = Stacked-IsValid r s pool bitmap m (init_stacks t).allocator laid.stacked enough in
    let spare : 0 < room (init_stacks t).allocator = omega (arith, left) in
    let (owner, paged, one_less, empty) = init_root-IsPaged v d spare in
    (
      init_stacks t,
      owner,
      rw (init-fresh r s pool bitmap m, memory_setup) refl,
      laid,
      paged,
      omega (arith, left, one_less),
      empty,
    )
