-- ===== src/Mem/Paging/Steps.antt =====
-- The steps of a walk through the tables of src/kernel/mem/paging/paging.cc, and what a step of
-- `map` leaves behind.
use slayer_os.Base.{ℕ, zero, suc, ◌+◌, ◌*◌, ◌%◌, ◌^◌, ◌<◌, ◌≤◌, ◌≡◌, true, false, none, some, arith}
use slayer_os.Boot.{BootCtx}
use slayer_os.Mem.Frames.{FrameAllocator, frame_size}
use slayer_os.Mem.Frames.Alloc.{IsValid}
use slayer_os.Mem.Frames.Room.{room}
use slayer_os.Mem.Paging.{is_present, slot, descend, child_table}
use slayer_os.Mem.Paging.Walk.{InDirectMap, Owned, Owner, walk, digit, prefix}

-- Entries of tables lie at one address only if they are the same entry.
pub slot_eq :
    {t u i j : ℕ}
    → (t % 2 ^ 12 ≡ 0) × (t + frame_size ≤ 2 ^ 64)
    → (u % 2 ^ 12 ≡ 0) × (u + frame_size ≤ 2 ^ 64)
    → i < 512
    → j < 512
    → slot t i ≡ slot u j
    → (t ≡ u) × (i ≡ j)
slot_eq h k a b e = omega arith

pub digit-lt : (l v : ℕ) → digit l v < 512
digit-lt zero v = omega arith
digit-lt (suc l) v = omega arith

pub prefix-digit : (l v : ℕ) → prefix (suc l) v * 512 + digit (suc l) v ≡ prefix l v
prefix-digit l v = omega arith

-- A present entry is found by `descend` with the table that it names.
pub descend-present :
    (boot : BootCtx) (memory : ℕ → ℕ) (at : ℕ)
    → is_present (memory at) ≡ true
    → descend boot memory at ≡ some (child_table boot (memory at))
unfolding descend
descend-present boot memory at h = rw h

pub descend-absent :
    (boot : BootCtx) (memory : ℕ → ℕ) (at : ℕ)
    → is_present (memory at) ≡ false
    → descend boot memory at ≡ none
unfolding descend
descend-absent boot memory at h = rw h

-- `descend` reads one word.
pub descend-eq :
    (boot : BootCtx) (f g : ℕ → ℕ) (at : ℕ) → f at ≡ g at → descend boot f at ≡ descend boot g at
unfolding descend
descend-eq boot f g at e = rw e

-- A step has left the state: tables that were there stay, the walks from them too, and the new
-- entry leads to the table of its prefix.
pub record Entered (boot : BootCtx) (s : FrameAllocator) (owner : Owner) (t i l p : ℕ) (c : ℕ)
    (s' : FrameAllocator) (owner' : Owner) : Type 0 where
  pub valid : IsValid s'
  pub pool : InDirectMap boot s'
  pub owned : Owned boot s' owner'
  pub left : room s ≤ suc (room s')
  pub reached : descend boot s'.memory (slot t i) ≡ some c
  pub owner_c : owner' c ≡ some (l, p * 512 + i)
  pub stays : (u m q : ℕ) → owner u ≡ some (m, q) → owner' u ≡ some (m, q)
  pub keeps :
      (u m q j d : ℕ)
      → owner u ≡ some (m, q)
      → j < 512
      → descend boot s.memory (slot u j) ≡ some d
      → descend boot s'.memory (slot u j) ≡ some d
  pub same_walk :
      (m u q v : ℕ) → owner u ≡ some (m, q) → walk boot s'.memory m u v ≡ walk boot s.memory m u v

pub walk-none :
    (boot : BootCtx) (memory : ℕ → ℕ) (l t v : ℕ)
    → descend boot memory (slot t (digit (suc l) v)) ≡ none
    → walk boot memory (suc l) t v ≡ none
unfolding walk
walk-none boot memory l t v e = rw (e, walk)

pub walk-some :
    (boot : BootCtx) (memory : ℕ → ℕ) (l t v : ℕ) {c : ℕ}
    → descend boot memory (slot t (digit (suc l) v)) ≡ some c
    → walk boot memory (suc l) t v ≡ walk boot memory l c v
unfolding walk
walk-some boot memory l t v e = rw (e, walk)
