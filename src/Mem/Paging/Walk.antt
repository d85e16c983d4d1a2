-- ===== src/Mem/Paging/Walk.antt =====
-- The walk of the processor through the tables of src/kernel/mem/paging/paging.cc, which `map` and
-- `unmap` are to serve, and what holds of the tables that the kernel builds: each table belongs to
-- one prefix of the virtual addresses, which `owner` names with the table's level.
use slayer_os.Base.{
  ℕ, zero, suc, ◌+◌, ◌*◌, ◌/◌, ◌%◌, ◌^◌, ◌<◌, ◌≤◌, ◌≡◌, ◌≢◌, false, Option, none, some,
  if◌then◌else◌,
}
use slayer_os.Boot.{BootCtx}
use slayer_os.Mem.Frames.{FrameAllocator, frame_size, frame_address}
use slayer_os.Mem.Frames.Alloc.{IsValid}
use slayer_os.Mem.Paging.{PageTables, is_present, slot, descend}

-- The number of the page of an address: its bits 12 to 47.
abbrev pub page_number : ℕ → ℕ
page_number virt = virt / 2 ^ 12 % 2 ^ 36

-- What is left of a page number above level `l`, and the index into the table of level `l`.
-- The root has level 3, and the tables that name pages have level 0.
abbrev pub prefix : ℕ → ℕ → ℕ
prefix zero v = v / 512
prefix (suc l) v = prefix l v / 512

abbrev pub digit : ℕ → ℕ → ℕ
digit zero v = v % 512
digit (suc l) v = prefix l v % 512

unfoldable pub leaf : ℕ → Option ℕ
leaf entry = if is_present entry then some entry else none

unfoldable pub walk : BootCtx → (ℕ → ℕ) → ℕ → ℕ → ℕ → Option ℕ
walk boot memory zero table v = leaf (memory (slot table (digit zero v)))
walk boot memory (suc l) table v = elim (descend boot memory (slot table (digit (suc l) v))) [
  | none ↦ none
  | some child ↦ walk boot memory l child v
]

-- The present entry that an address is translated by, if there is one.
abbrev pub lookup : BootCtx → PageTables → ℕ → Option ℕ
lookup boot p virt = walk boot p.allocator.memory 3 p.pml4 (page_number virt)

-- The pool of frames lies in the direct map of the first 2 ^ 48 bytes of memory, is not above
-- 4 GiB in size, and does not wrap.
pub record InDirectMap (boot : BootCtx) (s : FrameAllocator) : Type 0 where
  pub hhdm_page : boot.hhdm_addr % 2 ^ 12 ≡ 0
  pub base_page : s.base_addr % 2 ^ 12 ≡ 0
  pub above : boot.hhdm_addr ≤ s.base_addr
  pub small : s.available_frames ≤ 2 ^ 20
  pub near : s.base_addr + s.available_frames * frame_size ≤ boot.hhdm_addr + 2 ^ 48
  pub ends : s.base_addr + s.available_frames * frame_size ≤ 2 ^ 64

abbrev pub Owner : Type 0
Owner = ℕ → Option (ℕ × ℕ)

pub record Owned (boot : BootCtx) (s : FrameAllocator) (owner : Owner) : Type 0 where
  -- a present entry leads to the table of the longer prefix
  pub child :
      (t l p i c : ℕ)
      → owner t ≡ some (suc l, p)
      → i < 512
      → descend boot s.memory (slot t i) ≡ some c
      → owner c ≡ some (l, p * 512 + i)
  pub page : (t l p : ℕ) → owner t ≡ some (l, p) → (t % 2 ^ 12 ≡ 0) × (t + frame_size ≤ 2 ^ 64)
  -- no free frame is a table
  pub taken :
      (t l p k : ℕ)
      → owner t ≡ some (l, p)
      → k < s.available_frames
      → s.frames k ≡ false
      → frame_address s k ≢ t

-- The allocator and the tables below `root` are well formed.
pub record IsPaged (boot : BootCtx) (s : FrameAllocator) (root : ℕ) (owner : Owner) : Type 0 where
  pub valid : IsValid s
  pub pool : InDirectMap boot s
  pub owned : Owned boot s owner
  pub root_owner : owner root ≡ some (3, 0)
