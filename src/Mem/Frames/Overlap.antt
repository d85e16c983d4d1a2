-- ===== src/Mem/Frames/Overlap.antt =====
-- `allocs` of src/kernel/mem/frames/frames.cc where the flags are known: the run that it finds
-- among free frames, and the one that it finds behind taken frames, which begins with a taken
-- frame.
use slayer_os.Base.{
  ℕ, zero, suc, ◌+◌, ◌-◌, ◌<◌, ◌≤◌, ◌^◌, ◌≡◌, refl, ◌∙◌, Bool, true, false, inl, inr, arith,
  Bool-cases, le→ltb, u32, ap,
}
use slayer_os.Mem.Frames.{FrameAllocator, frame_address, find_run, allocs}
use slayer_os.Mem.Frames.Alloc.{IsValid, AllUsed, AllFree}
use slayer_os.Mem.Frames.Runs.{mark_used_lem, reserving, run_stops, run_goes_on}

-- Among free frames the run only grows, until it has the length that is asked for.
find_run-free :
    (frames : ℕ → Bool) (count n i start run m : ℕ)
    → count < 2 ^ 32
    → run + suc m ≡ count
    → m < n
    → AllFree frames i (i + suc m)
    → find_run frames count n i start run ≡ (start, count)
find_run-free frames count zero i start run m fits sum room free = absurd (omega arith)
find_run-free frames count (suc n) i start run zero fits sum room free =
    let here : frames i ≡ false = free i (omega arith) (omega arith) in
    let next : u32 (run + 1) ≡ count = omega arith in
    run_stops frames count n i start run start count (rw here) (rw here next) refl
find_run-free frames count (suc n) i start run (suc m) fits sum room free =
    let here : frames i ≡ false = free i (omega arith) (omega arith) in
    let next : u32 (run + 1) ≡ run + 1 = omega arith in
    run_goes_on frames count n i start run start (run + 1) (rw here) (rw here next) (omega arith)
    ∙ find_run-free frames count n (i + 1) start (run + 1) m fits (omega arith) (omega arith)
        (λ j a b. free j (omega arith) (omega arith))

-- Over taken frames the run is the last of them, again and again.
find_run-used :
    (frames : ℕ → Bool) (count n i start run d : ℕ)
    → 1 < count
    → AllUsed frames i (i + suc d)
    → find_run frames count (suc d + n) i start run ≡ find_run frames count n (i + suc d) (i + d) 1
find_run-used frames count n i start run zero two used =
    let here : frames i ≡ true = used i (omega arith) (omega arith) in
    let rounds : 1 + n ≡ suc n = omega arith in
    let at : i + 0 ≡ i = omega arith in
    rw (rounds, at) (run_goes_on frames count n i start run i 1 (rw here) (rw here) (omega arith))
find_run-used frames count n i start run (suc d) two used =
    let here : frames i ≡ true = used i (omega arith) (omega arith) in
    let rounds : suc (suc d) + n ≡ suc (suc d + n) = omega arith in
    let at : i + suc (suc d) ≡ i + 1 + suc d = omega arith in
    let last : i + suc d ≡ i + 1 + d = omega arith in
    rw (rounds, at, last)
      (run_goes_on frames count (suc d + n) i start run i 1 (rw here) (rw here) (omega arith)
        ∙ find_run-used frames count n (i + 1) i 1 d two
            (λ j a b. used j (omega arith) (omega arith)))

module _ {s : FrameAllocator} (v : IsValid s) where
  allocs-at :
      (count start : ℕ)
      → s.latest_frame < s.available_frames
      → find_run s.frames count
          (s.available_frames - s.latest_frame)
          s.latest_frame
          s.latest_frame
          0
        ≡ (start, count)
      → allocs s count ≡ (frame_address s start, reserving s start count)
  unfolding allocs
  allocs-at count start lt e =
      let small : u32 (s.latest_frame + 1) ≡ s.latest_frame + 1 = omega (arith, v.fits) in
      rw (e, le→ltb count count (omega arith), small)

  -- Where the frames behind the search index are free, `allocs` returns the run that begins there.
  pub allocs-free :
      (count : ℕ)
      → 0 < count
      → s.latest_frame + count ≤ s.available_frames
      → AllFree s.frames s.latest_frame (s.latest_frame + count)
      → allocs s count ≡ (frame_address s s.latest_frame, reserving s s.latest_frame count)
  allocs-free count pos room free = allocs-at count s.latest_frame (omega arith) (
      find_run-free s.frames count _ s.latest_frame s.latest_frame 0 (count - 1)
        (omega (arith, v.fits)) (omega arith) (omega arith) (λ j a b. free j a (omega arith)))

  -- Behind `d` taken frames, `allocs` of two or more frames returns the run that begins with the
  -- last of the taken ones.
  pub allocs-used :
      (count d : ℕ)
      → 1 < count
      → s.latest_frame + d + count ≤ s.available_frames
      → AllUsed s.frames s.latest_frame (s.latest_frame + suc d)
      → AllFree s.frames (s.latest_frame + suc d) (s.latest_frame + d + count)
      → allocs s count
        ≡ (frame_address s (s.latest_frame + d), reserving s (s.latest_frame + d) count)
  allocs-used count d two room used free =
      let rounds : s.available_frames - s.latest_frame
          ≡ suc d + (s.available_frames - s.latest_frame - suc d) =
        omega arith in
      allocs-at count (s.latest_frame + d) (omega arith) (
        rw rounds (
          find_run-used s.frames count _ s.latest_frame s.latest_frame 0 d two used
          ∙ find_run-free s.frames count _ (s.latest_frame + suc d) (s.latest_frame + d) 1
              (count - 2) (omega (arith, v.fits)) (omega arith) (omega arith)
              (λ j a b. free j a (omega arith))))

  -- `allocs` of one frame returns the frame at the search index, taken or not.
  pub allocs_one :
      s.latest_frame < s.available_frames
      → allocs s 1 ≡ (frame_address s s.latest_frame, reserving s s.latest_frame 1)
  allocs_one lt =
      let rounds : s.available_frames - s.latest_frame
          ≡ suc (s.available_frames - s.latest_frame - 1) =
        omega arith in
      allocs-at 1 s.latest_frame lt (elim (Bool-cases (s.frames s.latest_frame)) [
        | inl used ↦ rw rounds (
            run_stops s.frames 1 _ s.latest_frame s.latest_frame 0 s.latest_frame 1 (rw used)
              (rw used) refl)
        | inr free ↦ rw rounds (
            run_stops s.frames 1 _ s.latest_frame s.latest_frame 0 s.latest_frame 1 (rw free)
              (rw free) refl)
      ])

-- Two calls in a row, each for at least two frames, overlap: in a valid state in which the pool has
-- `count + more` free frames from the search index on, the first call returns the `count` frames
-- from there on, and the second, for `more` frames, a run that begins with the last frame of the
-- first.
pub allocs-allocs :
    {s : FrameAllocator} (count more : ℕ)
    → IsValid s
    → 1 < count
    → 1 < more
    → s.latest_frame + count + more ≤ s.available_frames
    → AllFree s.frames s.latest_frame (s.latest_frame + count + more)
    → let (first, s') = allocs s count in
      (first ≡ frame_address s s.latest_frame)
      × ((allocs s' more).0 ≡ frame_address s (s.latest_frame + (count - 1)))
allocs-allocs {s} count more v two two' room free =
    let first : allocs s count
        ≡ (frame_address s s.latest_frame, reserving s s.latest_frame count) =
      allocs-free v count (omega arith) (omega arith) (λ j a b. free j a (omega arith)) in
    let s' = reserving s s.latest_frame count in
    let v' : IsValid s' = omega (arith, v.fits) in
    let marks = λ (j : ℕ). mark_used_lem s.frames s.latest_frame count j in
    let at : s.latest_frame + 1 + (count - 2) ≡ s.latest_frame + (count - 1) = omega arith in
    rw first (
      refl,
      ap (λ r. r.0)
            (allocs-used v' more (count - 2) two' (omega arith) (λ j a b. marks j ∙ ground arith)
              (λ j a b. marks j ∙ ground (arith, free j)))
          ∙ rw at,
    )
