-- ===== src/Mem/Paging/Root.antt =====
-- The root table that `Mem::Paging::init` of src/kernel/mem/paging/paging.cc begins with.
use slayer_os.Base.{
  ℕ, suc, ◌+◌, ◌%◌, ◌^◌, ◌<◌, ◌≤◌, ◌≡◌, ◌≢◌, refl, none, some, arith, ◌==◌, eq→==, if◌then◌else◌,
}
use slayer_os.Boot.{BootCtx}
use slayer_os.Mem.Frames.{FrameAllocator, frame_size, clear_words, frame_address}
use slayer_os.Mem.Frames.Alloc.{IsValid, taking}
use slayer_os.Mem.Frames.Room.{room, alloc-room}
use slayer_os.Mem.Paging.{slot, descend, init_root}
use slayer_os.Mem.Paging.Words.{is_present-zero}
use slayer_os.Mem.Paging.Walk.{IsPaged, InDirectMap, Owner, page_number, lookup}
use slayer_os.Mem.Paging.Steps.{digit-lt, walk-none, descend-absent}

module _ {boot : BootCtx} {s : FrameAllocator} (k : ℕ) (v : IsValid s) (d : InDirectMap boot s)
    (in_pool : k < s.available_frames) where
  abbrev root : ℕ
  root = frame_address s k

  abbrev first : FrameAllocator
  first = record (taking s k) { memory = clear_words (taking s k).memory root frame_size }

  abbrev only : Owner
  only t = if t == root then some (3, 0) else none

  root_page : (root % 2 ^ 12 ≡ 0) × (root + frame_size ≤ 2 ^ 64)
  root_page = omega (arith, d.hhdm_page, d.base_page, d.above, d.small, d.near, d.ends)

  is_root : (t l p : ℕ) → only t ≡ some (l, p) → (t ≡ root) × (l ≡ 3) × (p ≡ 0)
  is_root t l p e = ground arith

  empty : (i : ℕ) → i < 512 → descend boot first.memory (slot root i) ≡ none
  empty i b = descend-absent boot first.memory (slot root i) (rw (zeroed i b) is_present-zero)
    where
      zeroed : (i : ℕ) → i < 512 → first.memory (slot root i) ≡ 0
      zeroed i b = ground (arith, root_page)

  first-IsPaged : IsPaged boot first root only
  first-IsPaged = record {
    valid = omega (arith, v.fits);
    pool = record {
      hhdm_page = d.hhdm_page;
      base_page = d.base_page;
      above = d.above;
      small = d.small;
      near = d.near;
      ends = d.ends;
    };
    owned = record {
      child = λ t l p i c e b down. let (at, _, _) = is_root t (suc l) p e in cc (at, empty i b);
      page = λ t l p e. let (at, _, _) = is_root t l p e in rw at root_page;
      taken = λ t l p n e b free same.
          let (at, _, _) = is_root t l p e in
          let other : n ≢ k = λ nk. cc (nk, eq→== k k refl) in
          omega (arith, at, other, d.small, d.near, d.ends);
    };
    root_owner = rw (eq→== root root refl);
  }

  first-lookup :
      (w n : ℕ) → lookup boot (record { allocator = first; pml4 = root; flushes = n }) w ≡ none
  first-lookup w n =
      walk-none boot first.memory 2 root (page_number w) (empty _ (digit-lt 3 (page_number w)))

-- In a valid state with a frame left and the pool in the direct map, the root table begins a
-- well-formed tree in which no page has a translation.
pub init_root-IsPaged :
    {boot : BootCtx} {s : FrameAllocator}
    → IsValid s
    → InDirectMap boot s
    → 0 < room s
    → (owner : Owner) × IsPaged boot (init_root s).allocator (init_root s).pml4 owner
      × (room s ≡ suc (room (init_root s).allocator))
      × ((w : ℕ) → lookup boot (init_root s) w ≡ none)
unfolding init_root
init_root-IsPaged v d spare =
    let (k, in_pool, free, e, one_less) = alloc-room v spare in
    (
      only k v d in_pool,
      rw e (first-IsPaged k v d in_pool),
      rw e one_less,
      λ w. rw e (first-lookup k v d in_pool w 0),
    )
