-- ===== src/Sys/Timer/Clock.antt =====
-- The sleeps of src/kernel/sys/timer.cc against its clock, while the interval timer runs at 1000
-- Hz.
use slayer_os.Base.{ℕ, ◌+◌, ◌*◌, ◌/◌, ◌^◌, ◌≤◌, ◌<◌, ◌≡◌, refl, Bool, some, List, arith, u32}
use slayer_os.Cpu.Pit.{Pit, pit_uptime_ms, sleep_for}
use slayer_os.Cpu.Pit.Sleep.{ticks, sleep_for_lem}
use slayer_os.Sys.Timer.{Timer, pit_timer, pit_target_frequency, get_uptime_ms, sleep_ms, sleep_us}

-- The state that `init` leaves, after `n` ticks.
abbrev pub clock : ℕ → List (ℕ × ℕ) → Timer
clock n written = record {
  active_timer = pit_timer;
  frequency = pit_target_frequency;
  pit = record { ticks_since_boot = n; timer_frequency = pit_target_frequency; written = written };
}

-- After `init`, a sleep of less than 4294968 milliseconds, during which the timer ticks at least
-- once for each of them, ends after as many ticks, and the uptime in milliseconds is then the one
-- from before and the time slept, where a thousand times the ticks fit in 64 bits.
pub get_uptime_ms-sleep_ms :
    (n milliseconds : ℕ) (written : List (ℕ × ℕ)) (interrupts : List Bool)
    → milliseconds < 4294968
    → (n + milliseconds) * 1000 < 2 ^ 64
    → milliseconds ≤ ticks interrupts
    → (sleep_ms milliseconds interrupts (clock n written) ≡ some (clock (n + milliseconds) written))
      × (get_uptime_ms (clock (n + milliseconds) written)
          ≡ get_uptime_ms (clock n written) + milliseconds)
unfolding sleep_ms get_uptime_ms pit_uptime_ms
get_uptime_ms-sleep_ms n milliseconds written interrupts small fits enough =
    let p : Pit = (clock n written).pit in
    let cut : u32 milliseconds ≡ milliseconds = omega arith in
    let whole : milliseconds * 1000 / 1000 ≡ milliseconds = omega arith in
    let slept : sleep_for 1000 milliseconds interrupts p
        ≡ some (record p { ticks_since_boot = n + milliseconds * 1000 / 1000 }) =
      sleep_for_lem 1000 milliseconds interrupts p (omega arith) (λ e. omega arith) (omega arith)
        (omega arith) (omega arith) in
    (rw (cut, slept, whole) refl, omega arith)

-- After `init`, at a count of ticks of 64 bits, a sleep of less than a millisecond ends at once,
-- whatever interrupts come: no tick is waited for.
pub sleep_us-short :
    (n microseconds : ℕ) (written : List (ℕ × ℕ)) (interrupts : List Bool)
    → microseconds < 1000
    → n < 2 ^ 64
    → sleep_us microseconds interrupts (clock n written) ≡ some (clock n written)
unfolding sleep_us
sleep_us-short n microseconds written interrupts small fits =
    let p : Pit = (clock n written).pit in
    let cut : u32 microseconds ≡ microseconds = omega arith in
    let none_left : microseconds * 1000 / 1000000 ≡ 0 = omega arith in
    let same : n + 0 ≡ n = omega arith in
    let slept : sleep_for 1000000 microseconds interrupts p
        ≡ some (record p { ticks_since_boot = n + microseconds * 1000 / 1000000 }) =
      sleep_for_lem 1000000 microseconds interrupts p (omega arith) (λ e. omega arith) (omega arith)
        (omega arith) (omega arith) in
    rw (cut, slept, none_left, same) refl
