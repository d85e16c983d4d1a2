-- ===== src/Mem/Frames/Alloc.antt =====
-- `alloc` of src/kernel/mem/frames/frames.cc: which frame it takes, on every branch.
use slayer_os.Base.{
  ℕ, zero, suc, ◌+◌, ◌-◌, ◌<◌, ◌≤◌, ◌^◌, ◌≡◌, refl, Bool, true, false, ◌⊎◌, inl, inr, arith, ◌==◌,
  update, Bool-cases, eq→==, ne→==, u32,
}
use slayer_os.Mem.Frames.{FrameAllocator, frame_size, clear_words, frame_address, skip_used, alloc}

-- The search index lies in the table, and the number of frames fits its type.
pub record IsValid (s : FrameAllocator) : Type 0 where
  pub latest_in : s.latest_frame ≤ s.available_frames
  pub fits : s.available_frames < 2 ^ 32

-- Every frame from `lo` up to `hi` is taken.
abbrev pub AllUsed : (ℕ → Bool) → ℕ → ℕ → Type 0
AllUsed frames lo hi = (i : ℕ) → lo ≤ i → i < hi → frames i ≡ true

-- Every frame from `lo` up to `hi` is free.
abbrev pub AllFree : (ℕ → Bool) → ℕ → ℕ → Type 0
AllFree frames lo hi = (i : ℕ) → lo ≤ i → i < hi → frames i ≡ false

skip_used-first :
    (frames : ℕ → Bool) (n i k : ℕ)
    → i ≤ k
    → k < i + n
    → AllUsed frames i k
    → frames k ≡ false
    → skip_used frames n i ≡ k
unfolding skip_used
skip_used-first frames zero i k lo hi used free = absurd (omega arith)
skip_used-first frames (suc n) i k lo hi used free = elim (Bool-cases (i == k)) [
  | inl here ↦ ground arith
  | inr past ↦
      rw (used i (omega arith) (ground arith), skip_used)
        (skip_used-first frames n (i + 1) k (ground arith) (omega arith)
          (λ j a b. used j (omega arith) b) free)
]

skip_used-none :
    (frames : ℕ → Bool) (n i : ℕ) → AllUsed frames i (i + n) → skip_used frames n i ≡ i + n
unfolding skip_used
skip_used-none frames zero i used = omega arith
skip_used-none frames (suc n) i used =
    rw (used i (omega arith) (omega arith), skip_used)
      (omega (arith, skip_used-none frames n (i + 1) (λ j a b. used j (omega arith) (omega arith))))

-- The first free frame among `n` from `i` on, if there is one.
first_free :
    (frames : ℕ → Bool) (n i : ℕ)
    → ((k : ℕ) × (i ≤ k) × (k < i + n) × AllUsed frames i k × (frames k ≡ false))
      ⊎ AllUsed frames i (i + n)
first_free frames zero i = inr (λ j a b. absurd (omega arith))
first_free frames (suc n) i = elim (Bool-cases (frames i)) [
  | inr free ↦ inl (i, omega arith, omega arith, (λ j a b. absurd (omega arith)), free)
  | inl used ↦ elim (first_free frames n (i + 1)) [
    | inl (k, lo, hi, before, free) ↦ inl (
      k,
      omega arith,
      omega arith,
      (λ j a b. elim (Bool-cases (i == j)) [
        | inl e ↦ ground arith
        | inr ne ↦ before j (ground arith) b
      ]),
      free,
    )
    | inr all ↦ inr (λ j a b. elim (Bool-cases (i == j)) [
      | inl e ↦ ground arith
      | inr ne ↦ all j (ground arith) (omega arith)
    ])
  ]
]

-- The state in which `alloc` leaves the allocator when it takes frame `k`.
abbrev pub taking : FrameAllocator → ℕ → FrameAllocator
taking s k = record s {
  frames = update s.frames k true;
  latest_frame = k + 1;
  memory = clear_words s.memory (frame_address s k) frame_size;
}

-- What `alloc` may do: take the first free frame from the search index on, or fail at the end.
pub data Allocates (s : FrameAllocator) (r : ℕ × FrameAllocator) : Type 0 where
  found :
      (k : ℕ)
      → s.latest_frame ≤ k
      → k < s.available_frames
      → AllUsed s.frames s.latest_frame k
      → s.frames k ≡ false
      → r ≡ (frame_address s k, taking s k)
      → Allocates s r
  exhausted :
      AllUsed s.frames s.latest_frame s.available_frames
      → r ≡ (0, record s { latest_frame = s.available_frames })
      → Allocates s r

module _ {s : FrameAllocator} (v : IsValid s) where
  pub alloc-taking :
      (k : ℕ)
      → s.latest_frame ≤ k
      → k < s.available_frames
      → AllUsed s.frames s.latest_frame k
      → s.frames k ≡ false
      → alloc s ≡ (frame_address s k, taking s k)
  unfolding alloc
  alloc-taking k lo hi used free =
      let at : skip_used s.frames (s.available_frames - s.latest_frame) s.latest_frame ≡ k =
        skip_used-first s.frames _ s.latest_frame k lo (omega (arith, v.latest_in)) used free in
      let small : u32 (k + 1) ≡ k + 1 = omega (arith, v.fits) in
      rw (at, ne→== k s.available_frames (omega arith), small)

  pub alloc-exhausted :
      AllUsed s.frames s.latest_frame s.available_frames
      → alloc s ≡ (0, record s { latest_frame = s.available_frames })
  unfolding alloc
  alloc-exhausted used =
      let at : skip_used s.frames (s.available_frames - s.latest_frame) s.latest_frame
          ≡ s.available_frames =
        omega (
          arith,
          v.latest_in,
          skip_used-none s.frames (s.available_frames - s.latest_frame) s.latest_frame
              (λ i a b. used i a (omega (arith, v.latest_in))),
        ) in
      rw (at, eq→== s.available_frames s.available_frames refl)

  -- In a valid state `alloc` takes the first free frame from the search index on, clears it and
  -- moves the index behind it; it returns null, and only moves the index to the end, exactly when
  -- there is no such frame.
  pub alloc_lem : Allocates s (alloc s)
  alloc_lem = elim (first_free s.frames (s.available_frames - s.latest_frame) s.latest_frame) [
    | inl (k, lo, hi, used, free) ↦
        let hi' : k < s.available_frames = omega (arith, v.latest_in) in
        found k lo hi' used free (alloc-taking k lo hi' used free)
    | inr all ↦
        let used : AllUsed s.frames s.latest_frame s.available_frames =
          λ i a b. all i a (omega (arith, v.latest_in)) in
        exhausted used (alloc-exhausted used)
  ]

  -- `alloc` keeps the state valid.
  pub alloc-IsValid : IsValid (alloc s).1
  alloc-IsValid = elim alloc_lem [
    | found k lo hi used free e ↦ rw e (omega (arith, v.fits))
    | exhausted used e ↦ rw e (omega (arith, v.fits))
  ]
