-- ===== src/Cpu/Tss/Stacks.antt =====
-- The stacks that `init_stacks` of src/kernel/cpu/tss/tss.cc takes, and the descriptor.
use slayer_os.Base.{
  ℕ, ◌+◌, ◌*◌, ◌^◌, ◌≤◌, ◌<◌, ◌≡◌, ◌≢◌, ◌∙◌, refl, true, arith, ne→==, eq→==, update, u64,
}
use slayer_os.Mem.Frames.{FrameAllocator, frame_size, allocs}
use slayer_os.Mem.Frames.Alloc.{IsValid, AllFree}
use slayer_os.Mem.Frames.Overlap.{allocs-allocs}
use slayer_os.Cpu.Tss.{Tss, ist_stack_size, init_stack}

pub init_stack-some :
    (t : Tss) (i : ℕ)
    → (allocs t.allocator 4).0 ≢ 0
    → init_stack i t ≡ (
      true,
      record t {
        ist_stacks = update t.ist_stacks i (allocs t.allocator 4).0;
        allocator = (allocs t.allocator 4).1;
        ist = update t.ist i (u64 ((allocs t.allocator 4).0 + ist_stack_size));
      },
    )
unfolding init_stack
init_stack-some t i some_stack = rw (ne→== (allocs t.allocator 4).0 0 some_stack) refl

-- In a valid state with eight free frames from the search index on, in a pool of at most 4 GiB that
-- does not wrap, the stacks of two rounds in a row share a page: the second stack begins one page
-- below the top that the first round enters.
pub init_stack-init_stack :
    (t : Tss) (i : ℕ)
    → IsValid t.allocator
    → t.allocator.latest_frame + 8 ≤ t.allocator.available_frames
    → t.allocator.available_frames ≤ 2 ^ 20
    → 0 < t.allocator.base_addr
    → t.allocator.base_addr + t.allocator.available_frames * frame_size < 2 ^ 64
    → AllFree t.allocator.frames t.allocator.latest_frame (t.allocator.latest_frame + 8)
    → let (more, t1) = init_stack i t in
      let (more', t2) = init_stack (i + 1) t1 in
      (more ≡ true) × (more' ≡ true) × (t2.ist_stacks (i + 1) + frame_size ≡ t1.ist i)
init_stack-init_stack t i v room small low ends free =
    let s : FrameAllocator = t.allocator in
    let s1 : FrameAllocator = (allocs s 4).1 in
    let (first, second) =
      allocs-allocs {s = s} 4 4 v (omega arith) (omega arith) (omega arith)
        (λ k a b. free k a (omega arith)) in
    let at1 : (allocs s 4).0 ≡ s.base_addr + s.latest_frame * frame_size =
      first ∙ omega (arith, small, ends, room) in
    let at2 : (allocs s1 4).0 ≡ s.base_addr + (s.latest_frame + 3) * frame_size =
      second ∙ omega (arith, small, ends, room) in
    let one = init_stack-some t i (λ e. omega (arith, at1)) in
    let t1 : Tss = (record t {
      ist_stacks = update t.ist_stacks i (allocs s 4).0;
      allocator = s1;
      ist = update t.ist i (u64 ((allocs s 4).0 + ist_stack_size));
    }) in
    let two = init_stack-some t1 (i + 1) (λ e. omega (arith, at2)) in
    let top : u64 ((allocs s 4).0 + ist_stack_size) ≡ (allocs s 4).0 + ist_stack_size =
      omega (arith, at1, ends, room) in
    rw (one, two)
      (refl, refl, rw (eq→== (i + 1) (i + 1) refl, eq→== i i refl, top) (omega (arith, at1, at2)))
