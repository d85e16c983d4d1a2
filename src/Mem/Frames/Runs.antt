-- ===== src/Mem/Frames/Runs.antt =====
-- `allocs` of src/kernel/mem/frames/frames.cc: the run that it returns, on every branch, and the
-- runs that overlap.
use native.Mathlib.Decide.{ℕ_discrete}
use slayer_os.Base.{
  ℕ, zero, suc, ◌+◌, ◌-◌, ◌*◌, ◌<◌, ◌≤◌, ◌^◌, ◌≡◌, refl, Bool, true, false, ◌&&◌, ◌⊎◌, inl, inr,
  arith, ◌==◌, ltb, leb, if◌then◌else◌, update, Bool-cases, ◌≢◌, le→ltb, lt→ltb, u32,
}
use slayer_os.Mem.Frames.{
  FrameAllocator, frame_size, clear_words, frame_address, extend_run, find_run, mark_used, allocs,
}
use slayer_os.Mem.Frames.Alloc.{IsValid, AllFree}

-- The flags after the loop that takes `n` frames from `i` on.
pub mark_used_lem :
    (frames : ℕ → Bool) (i n j : ℕ)
    → mark_used frames i n j ≡ (if leb i j && ltb j (i + n) then true else frames j)
unfolding mark_used
mark_used_lem frames i zero j = ground arith
mark_used_lem frames i (suc n) j = ground (arith, mark_used_lem (update frames i true) (i + 1) n j)

-- The state in which `allocs` leaves the allocator when it returns the run from `start` on.
abbrev pub reserving : FrameAllocator → ℕ → ℕ → FrameAllocator
reserving s start count = record s {
  frames = mark_used s.frames start count;
  latest_frame = s.latest_frame + 1;
  memory = clear_words s.memory (frame_address s start) (count * frame_size);
}

-- What the search ends with: a run of the length that is asked for, or a shorter one.
abbrev Found : (ℕ → Bool) → ℕ → ℕ → ℕ → ℕ × ℕ → Type 0
Found frames count lo hi (start, run) =
    ((run ≡ count)
      × (lo ≤ start)
      × (start + count ≤ hi)
      × AllFree frames (suc start) (start + count))
    ⊎ (run < count)

AllFree-suc :
    {frames : ℕ → Bool} {lo i : ℕ}
    → AllFree frames lo i
    → frames i ≡ false
    → AllFree frames lo (i + 1)
AllFree-suc {i} free here j a b = elim (Bool-cases (i == j)) [
  | inl e ↦ ground arith
  | inr ne ↦ free j a (ground arith)
]

module _ (frames : ℕ → Bool) (count n i start run start' run' : ℕ)
    (e : (extend_run (frames i) i start run).0 ≡ start')
    (e' : (extend_run (frames i) i start run).1 ≡ run') where
  pub run_stops : run' ≡ count → find_run frames count (suc n) i start run ≡ (start', run')
  unfolding find_run
  run_stops h = ground arith

  pub run_goes_on :
      run' ≢ count
      → find_run frames count (suc n) i start run ≡ find_run frames count n (i + 1) start' run'
  unfolding find_run
  run_goes_on h = ground arith

find_run-Found :
    (frames : ℕ → Bool) (count n i start run lo : ℕ)
    → i + n < 2 ^ 32
    → start + run ≡ i
    → lo ≤ start
    → run < count
    → AllFree frames (suc start) i
    → Found frames count lo (i + n) (find_run frames count n i start run)
unfolding find_run
find_run-Found frames count zero i start run lo fits at low short free = inr short
find_run-Found frames count (suc n) i start run lo fits at low short free =
    elim (Bool-cases (frames i)) [
      | inl used ↦
          go i 1 (rw used) (rw used) refl (omega arith) (omega arith)
            (λ j a b. absurd (omega arith)) (find_run-Found frames count n (i + 1) i 1 lo)
      | inr unused ↦
          let next : u32 (run + 1) ≡ run + 1 = omega arith in
          go start (run + 1) (rw unused) (rw (unused, next)) (omega arith) low (omega arith)
            (AllFree-suc free unused) (find_run-Found frames count n (i + 1) start (run + 1) lo)
    ]
  where
    go :
        (start' run' : ℕ)
        → (extend_run (frames i) i start run).0 ≡ start'
        → (extend_run (frames i) i start run).1 ≡ run'
        → start' + run' ≡ i + 1
        → lo ≤ start'
        → run' ≤ count
        → AllFree frames (suc start') (i + 1)
        → (i + 1 + n < 2 ^ 32
            → start' + run' ≡ i + 1
            → lo ≤ start'
            → run' < count
            → AllFree frames (suc start') (i + 1)
            → Found frames count lo (i + 1 + n) (find_run frames count n (i + 1) start' run'))
        → Found frames count lo (i + suc n) (find_run frames count (suc n) i start run)
    go start' run' e e' at' low' le free' rest =
        let hi : i + 1 + n ≡ i + suc n = omega arith in
        elim (ℕ_discrete run' count) [
          | yes h ↦
              rw (run_stops frames count n i start run start' run' e e' h)
                (inl (h, low', omega arith, λ j a b. free' j a (omega arith)))
          | no ne ↦
              rw (run_goes_on frames count n i start run start' run' e e' ne, ← hi)
                (rest (omega arith) at' low' (omega arith) free')
        ]

-- What `allocs` may do: return a run, or refuse and change nothing.
pub data Reserves (s : FrameAllocator) (count : ℕ) (r : ℕ × FrameAllocator) : Type 0 where
  reserved :
      (start : ℕ)
      → s.latest_frame ≤ start
      → start + count ≤ s.available_frames
      → AllFree s.frames (suc start) (start + count)
      → r ≡ (frame_address s start, reserving s start count)
      → Reserves s count r
  refused : r ≡ (0, s) → Reserves s count r

module _ {s : FrameAllocator} (v : IsValid s) where
  pub allocs_lem : (count : ℕ) → 0 < count → Reserves s count (allocs s count)
  unfolding allocs
  allocs_lem count pos = go (find_run s.frames count _ s.latest_frame s.latest_frame 0) refl (
      find_run-Found s.frames count (s.available_frames - s.latest_frame) s.latest_frame
        s.latest_frame 0 s.latest_frame (omega (arith, v.fits, v.latest_in)) (omega arith)
        (omega arith) pos (λ j a b. absurd (omega arith)))
    where
      go :
          (r : ℕ × ℕ)
          → find_run s.frames count
              (s.available_frames - s.latest_frame)
              s.latest_frame
              s.latest_frame
              0
            ≡ r
          → Found s.frames count s.latest_frame
              (s.latest_frame + (s.available_frames - s.latest_frame))
              (find_run s.frames count
                (s.available_frames - s.latest_frame)
                s.latest_frame
                s.latest_frame
                0)
          → Reserves s count (allocs s count)
      go (start, run) e (inl f) =
          let (full, lo, hi, free) = rw e at f in
          let small : u32 (s.latest_frame + 1) ≡ s.latest_frame + 1 = omega (arith, v.fits) in
          reserved start lo (omega (arith, v.latest_in)) free
            (rw (e, le→ltb run count (omega (arith, full)), small))
      go (start, run) e (inr short) = refused (rw (e, lt→ltb run count (rw e at short)))
