-- ===== src/Cpu/Pit.antt =====
-- src/kernel/cpu/interrupts/pit.cc: the interval timer. A `hlt` returns at the next interrupt; the
-- interrupts that come while the kernel waits are a list, true for those of the timer.
pub mod Sleep
use slayer_os.Base.{
  ℕ, ◌+◌, ◌*◌, ◌/◌, Bool, Option, none, some, List, [], ◌∷◌, ◌++◌, ltb, ◌==◌, if◌then◌else◌,
  bit_and, ◌>>>◌, u8, u32, u64,
}

-- The statics of the file, and the bytes that went out to the ports.
pub record Pit : Type 0 where
  pub ticks_since_boot : ℕ
  pub timer_frequency : ℕ
  pub written : List (ℕ × ℕ)

abbrev pub pit_frequency : ℕ
pit_frequency = 1193182

-- `PIT::set_frequency`. `none`: the division by zero.
unfoldable pub set_frequency : Pit → ℕ → Option Pit
set_frequency p frequency =
    let divisor = u32 (pit_frequency / frequency) in
    if frequency == 0
    then none
    else some (record p {
      written =
          p.written
          ++ ((0x43, 0x36)
              ∷ (0x40, u8 (bit_and divisor 0xff))
              ∷ (0x40, u8 (bit_and (divisor >>> 8) 0xff))
              ∷ []);
    })

-- `PIT::init`
unfoldable pub pit_init : Pit → ℕ → Option Pit
unfolding set_frequency
pit_init p frequency = set_frequency (record p { timer_frequency = frequency }) frequency

-- `PIT::tick`
unfoldable pub tick : Pit → Pit
tick p = record p { ticks_since_boot = u64 (p.ticks_since_boot + 1) }

unfoldable pub pit_uptime_ms : Pit → ℕ
pit_uptime_ms p =
    if p.timer_frequency == 0 then 0 else u64 (p.ticks_since_boot * 1000) / p.timer_frequency

unfoldable pub pit_uptime_us : Pit → ℕ
pit_uptime_us p =
    if p.timer_frequency == 0 then 0 else u64 (p.ticks_since_boot * 1000000) / p.timer_frequency

-- The loop around `hlt`. `none`: it waits for more interrupts.
unfoldable pub wait : ℕ → List Bool → Pit → Option Pit
unfolding tick
wait target [] p = if ltb p.ticks_since_boot target then none else some p
wait target (b ∷ bs) p =
    let rest = wait target bs (if b then tick p else p) in
    if ltb p.ticks_since_boot target then rest else some p

-- The loop of `sleep_ms` and `sleep_us` for a time in parts of a second: the product has the type
-- u32 of its factors.
unfoldable pub sleep_for : ℕ → ℕ → List Bool → Pit → Option Pit
unfolding wait
sleep_for per_second time interrupts p =
    if p.timer_frequency == 0
    then some p
    else wait (u64 (p.ticks_since_boot + u32 (time * p.timer_frequency) / per_second)) interrupts p

-- `PIT::sleep_ms` and `PIT::sleep_us`
abbrev pub pit_sleep_ms : ℕ → List Bool → Pit → Option Pit
pit_sleep_ms milliseconds interrupts p = sleep_for 1000 milliseconds interrupts p

abbrev pub pit_sleep_us : ℕ → List Bool → Pit → Option Pit
pit_sleep_us microseconds interrupts p = sleep_for 1000000 microseconds interrupts p
