-- ===== src/Cpu/Lapic/Calibration.antt =====
-- `LAPIC::Timer::init` of src/kernel/cpu/lapic/lapic.cc measures the frequency of the timer.
use native.Mathlib.Nat.{mul-div_cancel}
use slayer_os.Base.{
  false, zero, suc, ℕ, ◌+◌, ◌*◌, ◌/◌, ◌^◌, ◌≡◌, ◌≤◌, ◌<◌, ◌∙◌, ap, ◌==◌, ne→==, bit_or, u32, u64,
  sub32, sub64, arith,
}
use slayer_os.Cpu.Lapic.{
  Lapic, Measured, Mode, mode_bits, timer_lvt, timer_divide_config, write, enable, disable,
  calibrate_frequency, lapic_timer_init,
}

-- The local APIC has counted down at a rate while the interval timer has ticked.
pub record AtRate (m : Measured) (rate elapsed : ℕ) : Type 0 where
  pub ticked : m.end_pit_ticks ≡ m.start_pit_ticks + elapsed
  pub some_ticks : 0 < elapsed
  pub ticks_fit : m.end_pit_ticks < 2 ^ 64
  pub counted : m.start_count ≡ m.end_count + rate * elapsed
  pub counts_fit : m.start_count < 2 ^ 32

at_most_product : (rate elapsed : ℕ) → 0 < elapsed → rate ≤ rate * elapsed
at_most_product rate zero h = absurd (omega arith)
at_most_product rate (suc e) h = grind arith

-- The quotient that the code computes.
measured_frequency :
    (m : Measured) (rate elapsed : ℕ)
    → AtRate m rate elapsed
    → u64 (sub32 m.start_count m.end_count * 1000) / sub64 m.end_pit_ticks m.start_pit_ticks
      ≡ rate * 1000
measured_frequency m rate elapsed at =
    let p : ℕ = rate * elapsed in
    let ticks : u64 (sub32 m.start_count m.end_count * 1000) ≡ p * 1000 =
      omega (arith, at.counted, at.counts_fit) in
    let time : sub64 m.end_pit_ticks m.start_pit_ticks ≡ elapsed =
      omega (arith, at.ticked, at.ticks_fit) in
    let product : p * 1000 ≡ (rate * 1000) * elapsed = grind arith in
    rw (ticks, time, product) (mul-div_cancel (rate * 1000) at.some_ticks)

calibrate_frequency_lem :
    (m : Measured) (rate elapsed : ℕ) (l : Lapic)
    → AtRate m rate elapsed
    → (calibrate_frequency m l).0 ≡ rate * 1000
unfolding calibrate_frequency
calibrate_frequency_lem m rate elapsed l at =
    let advanced : (sub64 m.end_pit_ticks m.start_pit_ticks == 0) ≡ false =
      ne→== _ 0 (λ e. omega (arith, at.ticked, at.ticks_fit, at.some_ticks, e)) in
    rw advanced (measured_frequency m rate elapsed at)

calibrate_frequency-divider :
    (m : Measured) (l : Lapic)
    → ((calibrate_frequency m l).1).registers timer_divide_config ≡ 0b1011
unfolding calibrate_frequency
calibrate_frequency-divider m l = ground arith

-- Where the local APIC counts down by a rate at each tick of the interval timer, and its counter
-- does not run out, `init` ends with the frequency that is a thousand times that rate. The divider
-- that is then in the register is 1, whatever divider `init` was given.
pub lapic_timer_init_lem :
    (m : Measured) (rate elapsed vector : ℕ) (mode : Mode) (divider : ℕ) (l : Lapic)
    → AtRate m rate elapsed
    → let l' = lapic_timer_init m vector mode divider l in
      (l'.apic_timer_frequency ≡ rate * 1000)
      × (l'.apic_timer_ticks_per_ms ≡ rate)
      × (l'.registers timer_divide_config ≡ 0b1011)
unfolding lapic_timer_init enable
lapic_timer_init_lem m rate elapsed vector mode divider l at =
    let l2 =
      write (write (disable l) timer_divide_config divider) timer_lvt
        (bit_or vector (mode_bits mode)) in
    let f = calibrate_frequency_lem m rate elapsed l2 at in
    let below : rate < 2 ^ 32 =
      omega (arith, at_most_product rate elapsed at.some_ticks, at.counted, at.counts_fit) in
    (f, ap (λ x. u32 (x / 1000)) f ∙ omega arith, calibrate_frequency-divider m l2)
