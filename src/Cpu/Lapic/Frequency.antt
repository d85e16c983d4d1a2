-- ===== src/Cpu/Lapic/Frequency.antt =====
-- The divider and the count that `set_frequency` of src/kernel/cpu/lapic/lapic.cc chooses.
use mathlib.Core.Path.{subst}
use slayer_os.Base.{
  ap, sym, refl, ℕ, suc, ◌+◌, ◌*◌, ◌/◌, ◌%◌, ◌^◌, ◌≤◌, ◌<◌, ◌≡◌, false, inl, inr, Bool-cases, ltb,
  leb, ◌==◌, if◌then◌else◌, arith, u32, le→ltb, lt→ltb, ne→==, Option, none, some,
}
use slayer_os.Cpu.Lapic.{max_count, search_divider, clamp, choose, divider_bits}

-- The divider that the processor reads from the bits 0, 1 and 3 of its register: 7 stands for 1, and
-- each number below for the power of two above it.
abbrev pub divider_of : ℕ → ℕ
divider_of bits = let n = bits % 4 + bits / 8 % 2 * 4 in if n == 7 then 1 else 2 ^ (n + 1)

-- What a choice may be: a divider that the register can hold, and the count that gives the frequency
-- at it; or the largest of both, where the count at the largest divider does not fit.
pub data Chosen (frequency target_hz : ℕ) : Option (ℕ × ℕ) → Type 0 where
  fits :
      {divider count : ℕ}
      → 0 < divider
      → divider_of (divider_bits divider) ≡ divider
      → count ≡ frequency / (target_hz * divider)
      → count ≤ max_count
      → Chosen frequency target_hz (some (divider, count))
  largest :
      max_count < frequency / (target_hz * 128) → Chosen frequency target_hz (some (128, max_count))

-- What the lines behind the loop make of its end.
abbrev clamped : Option (ℕ × ℕ) → Option (ℕ × ℕ)
clamped o = elim o [ none ↦ none | some c ↦ some (clamp c) ]

module _ (frequency target_hz : ℕ) (some_target : 0 < target_hz)
    (small : target_hz * 128 < 2 ^ 32) where
  abbrev counted : ℕ → ℕ
  counted i = frequency / u32 (target_hz * i)

  abbrev Ends : ℕ → ℕ → ℕ → Type 0
  Ends n i count =
      Chosen frequency target_hz (clamped (search_divider frequency target_hz n i count))

  -- One round: the count fits, or the search goes on.
  round :
      (n i count : ℕ)
      → 0 < i
      → divider_of (divider_bits i) ≡ i
      → u32 (target_hz * i) ≡ target_hz * i
      → 0 < target_hz * i
      → (max_count < counted i → Ends n (i * 2) (counted i))
      → Ends (suc n) i count
  unfolding search_divider
  round n i count set bits whole divides next =
      let divides' : (u32 (target_hz * i) == 0) ≡ false = ne→== _ 0 (λ e. omega arith) in
      elim (Bool-cases (leb (counted i) max_count)) [
        | inl fit ↦
            let in_range : counted i ≤ max_count = ground arith in
            rw (divides', fit, le→ltb max_count (counted i) in_range)
              (fits set bits (ap (λ x. frequency / x) whole) in_range)
        | inr big ↦
            let over : max_count < counted i = ground arith in
            let skip : leb (frequency / u32 (target_hz * i)) max_count ≡ false = big in
            rw (divides', skip) (next over)
      ]

  search_divider_lem : (count : ℕ) → Ends 8 1 count
  unfolding search_divider divider_bits
  search_divider_lem count = round 7 1 count (omega arith) refl (omega arith) (omega arith) (λ _.
      round 6 2 (counted 1) (omega arith) refl (omega arith) (omega arith) (λ _.
        round 5 4 (counted 2) (omega arith) refl (omega arith) (omega arith) (λ _.
          round 4 8 (counted 4) (omega arith) refl (omega arith) (omega arith) (λ _.
            round 3 16 (counted 8) (omega arith) refl (omega arith) (omega arith) (λ _.
              round 2 32 (counted 16) (omega arith) refl (omega arith) (omega arith) (λ _.
                round 1 64 (counted 32) (omega arith) refl (omega arith) (omega arith) (λ _.
                  round 0 128 (counted 64) (omega arith) refl (omega arith) (omega arith) (λ over.
                    let whole : u32 (target_hz * 128) ≡ target_hz * 128 = omega arith in
                    rw (lt→ltb max_count (counted 128) over)
                      (largest (subst (λ x. max_count < frequency / x) whole over))))))))))

-- For a target above zero and below 2 ^ 25 Hz `set_frequency` divides by no zero, and the choice is
-- a divider that the bits it writes to the register stand for, with the count that gives the target
-- at it, which fits in 32 bits; or, where even the largest divider is too small, the largest divider
-- and the largest count.
pub choose-Chosen :
    (frequency target_hz : ℕ)
    → 0 < target_hz
    → target_hz * 128 < 2 ^ 32
    → Chosen frequency target_hz (choose frequency target_hz)
unfolding choose divider_bits
choose-Chosen frequency target_hz some_target small =
    let one : target_hz * 1 ≡ target_hz = omega arith in
    let divides : (target_hz == 0) ≡ false = ne→== target_hz 0 (λ e. omega arith) in
    elim (Bool-cases (ltb max_count (frequency / target_hz))) [
      | inl big ↦
          rw (divides, big)
            (search_divider_lem frequency target_hz some_target small (frequency / target_hz))
      | inr ok ↦
          rw (divides, ok, ok)
            (fits {divider = 1} (omega arith) refl (ap (λ x. frequency / x) (sym one))
              (ground arith))
    ]
