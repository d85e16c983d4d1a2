-- ===== src/Kernel/Sleeps.antt =====
-- The timer behind `_kernel_pre_setup` of src/kernel/kern.cc.
use slayer_os.Base.{ℕ, ◌+◌, ◌*◌, ◌^◌, ◌≤◌, ◌<◌, ◌≡◌, refl, arith, Bool, some, List, sub64}
use slayer_os.Cpu.Pit.{pit_uptime_ms}
use slayer_os.Cpu.Pit.Sleep.{ticks}
use slayer_os.Sys.Timer.{Timer, timer_init, get_uptime_ms}
use slayer_os.Sys.Timer.Clock.{clock, get_uptime_ms-sleep_ms}
use slayer_os.Kernel.{timer_setup}

uptime_lem :
    (n : ℕ) (written : List (ℕ × ℕ)) → n * 1000 < 2 ^ 64 → get_uptime_ms (clock n written) ≡ n
unfolding get_uptime_ms pit_uptime_ms
uptime_lem n written fits = omega arith

init-clock :
    (t : Timer)
    → (written : List (ℕ × ℕ)) × (timer_init t ≡ some (clock t.pit.ticks_since_boot written))
unfolding timer_init
init-clock t = (_, refl)

-- Where the interval timer ticks while the sleeps halt, and only then, at least as often as each of
-- the three asks for, and a thousand times the ticks fit in 64 bits, the end of `_kernel_pre_setup` is
-- reached: the timer has then counted 600 ticks more, and the test of the sleep of 100 ms shows 100.
pub timer_setup_lem :
    (t : Timer) (during_test during_first during_second : List Bool)
    → (t.pit.ticks_since_boot + 600) * 1000 < 2 ^ 64
    → 100 ≤ ticks during_test
    → 200 ≤ ticks during_first
    → 300 ≤ ticks during_second
    → (written : List (ℕ × ℕ)) × (timer_setup t during_test during_first during_second
        ≡ some (clock (t.pit.ticks_since_boot + 600) written, 100))
unfolding timer_setup
timer_setup_lem t during_test during_first during_second fits enough1 enough2 enough3 =
    let n = t.pit.ticks_since_boot in
    let (written, start) = init-clock t in
    let (s1, up1) =
      get_uptime_ms-sleep_ms n 100 written during_test (omega arith) (omega arith) enough1 in
    let (s2, _) =
      get_uptime_ms-sleep_ms (n + 100) 200 written during_first (omega arith) (omega arith)
        enough2 in
    let (s3, _) =
      get_uptime_ms-sleep_ms (n + 100 + 200) 300 written during_second (omega arith) (omega arith)
        enough3 in
    let at = uptime_lem n written (omega arith) in
    let elapsed : sub64 (get_uptime_ms (clock (n + 100) written)) (get_uptime_ms (clock n written))
        ≡ 100 =
      omega (arith, up1, at) in
    let all : n + 100 + 200 + 300 ≡ n + 600 = omega arith in
    (written, rw (start, timer_setup, s1, s2, s3) (λ i. some (clock (all i) written, elapsed i)))
