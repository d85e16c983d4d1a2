-- ===== src/Err/Dump/Chain.antt =====
-- `backtrace` of src/kernel/err/dump.cc over the chain of the saved frame pointers.
use slayer_os.Base.{
  ℕ, zero, suc, ◌+◌, ◌==◌, ◌≡◌, ◌≢◌, inl, inr, refl, ap, Option, List, [], ◌∷◌, ◌++◌, ltb,
  if◌then◌else◌, u64, eq→==, ne→==, Bool-cases,
}
use slayer_os.Err.Symbols.{Symbol, SearchResult}
use slayer_os.Err.Dump.{Addr2LineResult, BacktraceLine, backtrace_line, backtrace_from, backtrace}

-- The frames of a stack: from a frame pointer on, the addresses that they return to, up to a null
-- frame pointer or a null address. A chain that is a circle has no end and no such list.
pub data FrameChain (memory : ℕ → ℕ) : ℕ → List ℕ → Type 0 where
  no_frame : FrameChain memory 0 []
  no_return : {rbp : ℕ} → memory (u64 (rbp + 8)) ≡ 0 → FrameChain memory rbp []
  frame :
      {rbp rip : ℕ} {rips : List ℕ}
      → rbp ≢ 0
      → memory (u64 (rbp + 8)) ≡ rip
      → rip ≢ 0
      → FrameChain memory (memory rbp) rips
      → FrameChain memory rbp (rip ∷ rips)

module _ (addr2line_lookup : ℕ → Option Addr2LineResult) (search_repr : ℕ → SearchResult → ℕ → ℕ)
    (table : List Symbol) where
  -- The lines of at most `n` of the frames, from frame `i` on, that return into the kernel's half.
  abbrev pub kernel_lines : ℕ → ℕ → List ℕ → List BacktraceLine
  kernel_lines zero i rips = []
  kernel_lines (suc n) i [] = []
  kernel_lines (suc n) i (rip ∷ rips) =
      (if ltb 0xffff_ffff_8000_0000 rip
        then backtrace_line addr2line_lookup search_repr table i rip ∷ []
        else [])
      ++ kernel_lines n (i + 1) rips

  backtrace_from-FrameChain :
      (memory : ℕ → ℕ) (n i rbp : ℕ) (rips : List ℕ)
      → FrameChain memory rbp rips
      → backtrace_from addr2line_lookup search_repr table memory n i rbp ≡ kernel_lines n i rips
  unfolding backtrace_from
  backtrace_from-FrameChain memory zero i rbp rips chain = refl
  backtrace_from-FrameChain memory (suc n) i rbp rips no_frame = refl
  backtrace_from-FrameChain memory (suc n) i rbp rips (no_return e) =
      rw (eq→== _ 0 e) (elim (Bool-cases (rbp == 0)) [ inl t ↦ rw t refl | inr f ↦ rw f refl ])
  backtrace_from-FrameChain memory (suc n) i rbp _ (frame {rip} {rips} there e returns chain) =
      let rest = backtrace_from-FrameChain memory n (i + 1) (memory rbp) rips chain in
      rw (ne→== rbp 0 there, e, ne→== rip 0 returns)
        (ap
          (λ l.
            (if ltb 0xffff_ffff_8000_0000 rip
              then backtrace_line addr2line_lookup search_repr table i rip ∷ []
              else [])
            ++ l)
          rest)

  -- On a stack whose frames end, the backtrace has a line for each of the first 16 frames that
  -- returns to an address above 0xffffffff80000000, in their order and with the number of the frame,
  -- and no other line.
  pub backtrace-FrameChain :
      (memory : ℕ → ℕ) (rbp : ℕ) (rips : List ℕ)
      → FrameChain memory rbp rips
      → backtrace addr2line_lookup search_repr table memory rbp ≡ kernel_lines 16 0 rips
  unfolding backtrace
  backtrace-FrameChain memory rbp rips = backtrace_from-FrameChain memory 16 0 rbp rips
