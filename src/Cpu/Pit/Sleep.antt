-- ===== src/Cpu/Pit/Sleep.antt =====
-- The waits of src/kernel/cpu/interrupts/pit.cc: after how many ticks they end.
use slayer_os.Base.{
  ℕ, suc, ◌∙◌, ◌+◌, ◌*◌, ◌/◌, ◌^◌, ◌≤◌, ◌<◌, ◌≡◌, ◌≢◌, Bool, true, false, some, List, [], ◌∷◌, inl,
  inr, Bool-cases, le→ltb, ne→==, arith, ltb, u64, u32,
}
use slayer_os.Cpu.Pit.{Pit, tick, wait, sleep_for}

-- The interrupts of the timer in a list.
abbrev pub ticks : List Bool → ℕ
ticks [] = 0
ticks (true ∷ bs) = suc (ticks bs)
ticks (false ∷ bs) = ticks bs

wait-stops :
    (target : ℕ) (bs : List Bool) (p : Pit)
    → target ≤ p.ticks_since_boot
    → wait target bs p ≡ some p
unfolding wait
wait-stops target [] p le = rw (le→ltb p.ticks_since_boot target le)
wait-stops target (b ∷ bs) p le = rw (le→ltb p.ticks_since_boot target le)

wait-here :
    (target : ℕ) (bs : List Bool) (p : Pit)
    → p.ticks_since_boot ≤ target
    → target ≤ p.ticks_since_boot
    → wait target bs p ≡ some (record p { ticks_since_boot = target })
wait-here target bs p le ge =
    let here : p.ticks_since_boot ≡ target = omega arith in
    wait-stops target bs p ge ∙ (λ i. some (record p { ticks_since_boot = here i }))

-- A wait ends at its target, when the timer has ticked often enough.
wait_lem :
    (target : ℕ) (bs : List Bool) (p : Pit)
    → p.ticks_since_boot ≤ target
    → target < 2 ^ 64
    → target ≤ p.ticks_since_boot + ticks bs
    → wait target bs p ≡ some (record p { ticks_since_boot = target })
unfolding wait tick
wait_lem target [] p le fits enough = wait-here target [] p le (omega arith)
wait_lem target (true ∷ bs) p le fits enough = elim (Bool-cases (ltb p.ticks_since_boot target)) [
  | inr done ↦ wait-here target (true ∷ bs) p le (ground arith)
  | inl on ↦
      let lt : p.ticks_since_boot < target = ground arith in
      let next : u64 (p.ticks_since_boot + 1) ≡ p.ticks_since_boot + 1 = omega arith in
      rw (on, next)
        (wait_lem target bs (record p { ticks_since_boot = p.ticks_since_boot + 1 }) (omega arith)
          fits (omega arith))
]
wait_lem target (false ∷ bs) p le fits enough = elim (Bool-cases (ltb p.ticks_since_boot target)) [
  | inr done ↦ wait-here target (false ∷ bs) p le (ground arith)
  | inl on ↦ rw on (wait_lem target bs p le fits enough)
]

-- With a frequency set, a sleep whose product fits in 32 bits ends after its number of ticks,
-- rounded down, when the timer has ticked as often.
pub sleep_for_lem :
    (per_second time : ℕ) (bs : List Bool) (p : Pit)
    → 0 < per_second
    → p.timer_frequency ≢ 0
    → time * p.timer_frequency < 2 ^ 32
    → p.ticks_since_boot + time * p.timer_frequency / per_second < 2 ^ 64
    → time * p.timer_frequency / per_second ≤ ticks bs
    → sleep_for per_second time bs p
      ≡ some (record p {
        ticks_since_boot = p.ticks_since_boot + time * p.timer_frequency / per_second;
      })
unfolding sleep_for
sleep_for_lem per_second time bs p pos set small fits enough =
    let product : u32 (time * p.timer_frequency) ≡ time * p.timer_frequency = omega arith in
    let n : ℕ = time * p.timer_frequency / per_second in
    let target : u64 (p.ticks_since_boot + n) ≡ p.ticks_since_boot + n = omega arith in
    rw (ne→== p.timer_frequency 0 set, product, target)
      (wait_lem (p.ticks_since_boot + n) bs p (omega arith) fits (omega arith))
