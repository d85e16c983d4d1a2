-- ===== src/Sys/Timer.antt =====
-- src/kernel/sys/timer.cc and src/include/sys/timer.h: the clock of the kernel, over the active
-- timer.
pub mod Clock
mod Tests
use slayer_os.Base.{
  ℕ, ◌+◌, ◌*◌, ◌/◌, Bool, true, false, Option, none, some, List, ◌==◌, if◌then◌else◌, u32, u64,
}
use slayer_os.Base.Cells.{codes}
use slayer_os.Cpu.Pit.{Pit, pit_init, pit_uptime_ms, pit_uptime_us, pit_sleep_ms, pit_sleep_us}

-- `Sys::Timer::Type`
pub data TimerType : Type 0 where
  no_timer pit_timer apic_timer hpet : TimerType

pub record Timer : Type 0 where
  pub active_timer : TimerType
  pub frequency : ℕ
  pub pit : Pit

abbrev pub pit_target_frequency : ℕ
pit_target_frequency = 1000

-- `Sys::Timer::init`. `none`: the division by zero in `PIT::init`.
unfoldable pub timer_init : Timer → Option Timer
unfolding pit_init
timer_init t = elim (pit_init t.pit pit_target_frequency) [
  | none ↦ none
  | some p ↦ some (record { active_timer = pit_timer; frequency = pit_target_frequency; pit = p })
]

abbrev pub get_active_timer : Timer → TimerType
get_active_timer t = t.active_timer

abbrev pub get_frequency : Timer → ℕ
get_frequency t = t.frequency

unfoldable pub get_timer_name : Timer → List ℕ
get_timer_name t = elim t.active_timer [
  | pit_timer ↦ codes "PIT"
  | apic_timer ↦ codes "APIC"
  | hpet ↦ codes "HPET"
  | no_timer ↦ codes "None"
]

-- A value that the switch over the active timer reads, 0 for the timers without a case.
abbrev pub for_pit : TimerType → ℕ → ℕ
for_pit pit_timer value = value
for_pit _ value = 0

unfoldable pub get_counter : Timer → ℕ
get_counter t = for_pit t.active_timer t.pit.ticks_since_boot

unfoldable pub get_uptime_ns : Timer → ℕ
get_uptime_ns t = for_pit t.active_timer (u64 (pit_uptime_us t.pit * 1000))

unfoldable pub get_uptime_us : Timer → ℕ
get_uptime_us t = for_pit t.active_timer (pit_uptime_us t.pit)

unfoldable pub get_uptime_ms : Timer → ℕ
get_uptime_ms t = for_pit t.active_timer (pit_uptime_ms t.pit)

-- A sleep that the switch over the active timer runs, none for the timers without a case.
abbrev pub run_for_pit : Timer → Option Pit → Option Timer
run_for_pit t slept = elim t.active_timer [
  | pit_timer ↦ elim slept [ none ↦ none | some p ↦ some (record t { pit = p }) ]
  | _ ↦ some t
]

-- The parameters of `PIT::sleep_us` and `PIT::sleep_ms` are 32 bits wide. `none`: the sleep goes on
-- after the interrupts of the list.
unfoldable pub sleep_us : ℕ → List Bool → Timer → Option Timer
sleep_us microseconds interrupts t =
    run_for_pit t (pit_sleep_us (u32 microseconds) interrupts t.pit)

unfoldable pub sleep_ms : ℕ → List Bool → Timer → Option Timer
sleep_ms milliseconds interrupts t =
    run_for_pit t (pit_sleep_ms (u32 milliseconds) interrupts t.pit)

unfoldable pub sleep_ns : ℕ → List Bool → Timer → Option Timer
unfolding sleep_us
sleep_ns nanoseconds interrupts t =
    let microseconds = u64 (nanoseconds + 999) / 1000 in
    sleep_us (if microseconds == 0 then 1 else microseconds) interrupts t

-- `uacpi_kernel_stall` of src/kernel/sys/acpi_kapi.cc, with its 8-bit argument.
abbrev pub uacpi_kernel_stall : ℕ → List Bool → Timer → Option Timer
uacpi_kernel_stall usec interrupts t = sleep_us usec interrupts t

-- `uacpi_kernel_sleep` of src/kernel/sys/acpi_kapi.cc
abbrev pub uacpi_kernel_sleep : ℕ → List Bool → Timer → Option Timer
uacpi_kernel_sleep msec interrupts t = sleep_ms msec interrupts t
