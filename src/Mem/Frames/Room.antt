-- ===== src/Mem/Frames/Room.antt =====
-- How many more frames `alloc` of src/kernel/mem/frames/frames.cc has to give.
use slayer_os.Base.{
  ℕ, zero, suc, ◌+◌, ◌-◌, ◌<◌, ◌≤◌, ◌≡◌, ◌∙◌, refl, Bool, false, ◌==◌, if◌then◌else◌, arith, inl,
  inr, Bool-cases, ap,
}
use slayer_os.Mem.Frames.{FrameAllocator, frame_address, alloc}
use slayer_os.Mem.Frames.Alloc.{IsValid, AllUsed, taking, found, exhausted, alloc_lem}

-- The free frames among `n` from `i` on.
unfoldable pub free_count : (ℕ → Bool) → ℕ → ℕ → ℕ
free_count frames zero i = 0
free_count frames (suc n) i = (if frames i then 0 else 1) + free_count frames n (i + 1)

-- The free frames from the search index on.
abbrev pub room : FrameAllocator → ℕ
room s = free_count s.frames (s.available_frames - s.latest_frame) s.latest_frame

free_count-ext :
    (f g : ℕ → Bool) (n i : ℕ) → ((j : ℕ) → i ≤ j → f j ≡ g j) → free_count f n i ≡ free_count g n i
unfolding free_count
free_count-ext f g zero i same = refl
free_count-ext f g (suc n) i same =
    rw (same i (omega arith), free_count-ext f g n (i + 1) (λ j a. same j (omega arith)))

free_count-used :
    (frames : ℕ → Bool) (n i : ℕ) → AllUsed frames i (i + n) → free_count frames n i ≡ 0
unfolding free_count
free_count-used frames zero i used = refl
free_count-used frames (suc n) i used =
    let rest = free_count-used frames n (i + 1) (λ j a b. used j (omega arith) (omega arith)) in
    rw (used i (omega arith) (omega arith), rest) (omega arith)

free_count-first :
    (frames : ℕ → Bool) (n i k m : ℕ)
    → i ≤ k
    → k + suc m ≡ i + n
    → AllUsed frames i k
    → frames k ≡ false
    → free_count frames n i ≡ suc (free_count frames m (k + 1))
unfolding free_count
free_count-first frames zero i k m lo len used free = absurd (omega arith)
free_count-first frames (suc n) i k m lo len used free = elim (Bool-cases (i == k)) [
  | inl here ↦
      let at : i ≡ k = ground arith in
      let left : n ≡ m = omega arith in rw (at, left, free) (omega arith)
  | inr past ↦
      let rest =
        free_count-first frames n (i + 1) k m (ground arith) (omega arith)
          (λ j a b. used j (omega arith) b) free in
      rw (used i (omega arith) (ground arith), rest) (omega arith)
]

-- With a free frame left, `alloc` takes one, and one less is left.
pub alloc-room :
    {s : FrameAllocator}
    → IsValid s
    → 0 < room s
    → (k : ℕ) × (k < s.available_frames)
      × (s.frames k ≡ false)
      × (alloc s ≡ (frame_address s k, taking s k))
      × (room s ≡ suc (room (taking s k)))
alloc-room {s} v some_left = elim (alloc_lem v) [
  | found k lo hi used free e ↦ (
    k,
    hi,
    free,
    e,
    free_count-first s.frames _ s.latest_frame k (s.available_frames - (k + 1)) lo (omega arith)
          used free
        ∙ ap suc (free_count-ext s.frames _ _ (k + 1) (λ j a. ground arith)),
  )
  | exhausted used e ↦ absurd (
      omega (
        arith,
        v.latest_in,
        free_count-used s.frames (s.available_frames - s.latest_frame) s.latest_frame
            (λ i a b. used i a (omega (arith, v.latest_in))),
      ))
]
