-- ===== src/Cpu/Lapic.antt =====
-- src/kernel/cpu/lapic/lapic.cc and src/include/cpu/lapic.h: the timer of the local APIC.
-- The registers are a function of their offset, which a write changes and a read does not.
pub mod Frequency
pub mod Calibration
mod Tests
use slayer_os.Base.{
  ℕ, zero, suc, ◌^◌, ◌*◌, ◌/◌, ◌+◌, Option, none, some, Bool, true, false, ◌==◌, leb, ltb,
  if◌then◌else◌, update, bit_and, bit_or, u32, u64, sub32, sub64, ◌>>>◌,
}
use slayer_os.Boot.{BootCtx}
use slayer_os.Mem.Frames.{phys_to_virt}
use slayer_os.Mem.Paging.{PageTables, page_present, page_write, map_page}

abbrev pub timer_lvt : ℕ
timer_lvt = 0x320

abbrev pub timer_initial_count : ℕ
timer_initial_count = 0x380

abbrev pub timer_divide_config : ℕ
timer_divide_config = 0x3e0

abbrev pub max_count : ℕ
max_count = 0xffff_ffff

pub record Lapic : Type 0 where
  pub registers : ℕ → ℕ
  pub apic_timer_frequency : ℕ
  pub apic_timer_ticks_per_ms : ℕ

abbrev pub write : Lapic → ℕ → ℕ → Lapic
write l reg value = record l { registers = update l.registers reg (u32 value) }

-- `LAPIC::Timer::enable` and `disable`: bit 16 of the entry of the timer.
unfoldable pub enable : Lapic → Lapic
enable l = write l timer_lvt (bit_and (l.registers timer_lvt) 0xfffe_ffff)

unfoldable pub disable : Lapic → Lapic
disable l = write l timer_lvt (bit_or (l.registers timer_lvt) 0x1_0000)

-- The bits of `Divider` that the switch of `set_frequency` chooses.
unfoldable pub divider_bits : ℕ → ℕ
divider_bits value =
    if value == 1
    then 0b1011
    else (if value == 2
        then 0b0000
        else (if value == 4
            then 0b0001
            else (if value == 8
                then 0b0010
                else (if value == 16
                    then 0b0011
                    else (if value == 32
                        then 0b1000
                        else (if value == 64
                            then 0b1001
                            else (if value == 128 then 0b1010 else 0b1011)))))))

-- The loop over the dividers, with the rounds left: the divider and the count that it ends with.
-- `count` is the one of the round before. `none`: a division by zero.
unfoldable pub search_divider : (frequency target_hz : ℕ) → ℕ → ℕ → ℕ → Option (ℕ × ℕ)
search_divider frequency target_hz zero i count = some (1, count)
search_divider frequency target_hz (suc n) i count =
    let count' = frequency / u32 (target_hz * i) in
    let rest = search_divider frequency target_hz n (i * 2) count' in
    if u32 (target_hz * i) == 0
    then none
    else (if leb count' max_count then some (i, count') else rest)

-- The lines behind the loop.
abbrev pub clamp : ℕ × ℕ → ℕ × ℕ
clamp (divider, found) = if ltb max_count found then (128, max_count) else (divider, found)

-- The divider and the count that `set_frequency` chooses. `none`: a division by zero.
unfoldable pub choose : ℕ → ℕ → Option (ℕ × ℕ)
unfolding search_divider
choose frequency target_hz =
    let count = frequency / target_hz in
    let search =
      if ltb max_count count
      then search_divider frequency target_hz 8 1 count
      else some (1, count) in
    if target_hz == 0 then none else (elim search [ none ↦ none | some c ↦ some (clamp c) ])

-- `LAPIC::Timer::set_frequency`. `none`: the division by zero.
unfoldable pub set_timer_frequency : Lapic → ℕ → Option Lapic
unfolding choose divider_bits enable disable
set_timer_frequency l target_hz =
    if l.apic_timer_frequency == 0
    then some l
    else (elim (choose l.apic_timer_frequency target_hz) [
      | none ↦ none
      | some (divider, count) ↦
          let l1 = write (disable l) timer_divide_config (divider_bits divider) in
          let l2 = write l1 timer_initial_count (u32 count) in
          some (enable (write l2 timer_lvt (bit_or 0x21 0x2_0000)))
    ])

-- `_wrmsr`: the halves of the value, and `_rdmsr`: the value of its halves.
unfoldable pub msr_halves : ℕ → ℕ × ℕ
msr_halves value = (u32 (bit_and value 0xffff_ffff), u32 (value >>> 32))

unfoldable pub msr_value : ℕ × ℕ → ℕ
msr_value (lo, hi) = bit_or (u64 (hi * 2 ^ 32)) lo

-- `LAPIC::base`, from the value of its register of the processor
abbrev pub lapic_base : BootCtx → ℕ → ℕ
lapic_base boot msr_val = phys_to_virt boot (bit_and msr_val 0xffff_f000)

-- `LAPIC::eoi`
abbrev pub lapic_eoi : Lapic → Lapic
lapic_eoi l = write l 0xb0 0

-- `LAPIC::Timer::set_initial_count`, `get_current_count` and `set_divider`
abbrev pub set_initial_count : Lapic → ℕ → Lapic
set_initial_count l count = write l timer_initial_count count

abbrev pub get_current_count : Lapic → ℕ
get_current_count l = l.registers 0x390

abbrev pub set_divider : Lapic → ℕ → Lapic
set_divider l divider = write l timer_divide_config divider

-- `LAPIC::Timer::mask` and `unmask`
abbrev pub timer_mask : Lapic → Lapic
timer_mask l = disable l

abbrev pub timer_unmask : Lapic → Lapic
timer_unmask l = enable l

-- `LAPIC::id`
abbrev pub lapic_id : Lapic → ℕ
lapic_id l = l.registers 0x20 >>> 24

-- `LAPIC::init`, with the value that it writes to the register of the processor; `msr_val` is what
-- it reads there.
unfoldable pub lapic_init : BootCtx → (msr_val : ℕ) → Lapic → PageTables → ℕ × Lapic × PageTables
lapic_init boot msr_val l p =
    let phys_addr = bit_and msr_val 0xffff_f000 in
    (
      bit_or msr_val 0x800,
      write l 0xf0 (bit_or 0xff 0x100),
      map_page boot p phys_addr (phys_to_virt boot phys_addr) (bit_or page_present page_write),
    )

-- What the two timers show at the start and at the end of the loop of `calibrate_frequency`, which
-- ends when the interval timer has ticked ten times.
pub record Measured : Type 0 where
  pub start_count : ℕ
  pub end_count : ℕ
  pub start_pit_ticks : ℕ
  pub end_pit_ticks : ℕ

-- `LAPIC::Timer::calibrate_frequency`
unfoldable pub calibrate_frequency : Measured → Lapic → ℕ × Lapic
calibrate_frequency m l =
    let l1 = write l timer_divide_config 0b1011 in
    let lvt_backup = l1.registers timer_lvt in
    let l2 = write l1 timer_lvt 0x1_0000 in
    let l3 = write l2 timer_initial_count max_count in
    let actual_pit_ticks = sub64 m.end_pit_ticks m.start_pit_ticks in
    let apic_ticks = sub32 m.start_count m.end_count in
    if actual_pit_ticks == 0
    then (0, write l3 timer_lvt lvt_backup)
    else (u64 (apic_ticks * 1000) / actual_pit_ticks, write l3 timer_lvt lvt_backup)

-- `LAPIC::Timer::Mode`
pub data Mode : Type 0 where
  one_shot periodic tsc_deadline : Mode

abbrev pub mode_bits : Mode → ℕ
mode_bits one_shot = 0
mode_bits periodic = 0x2_0000
mode_bits tsc_deadline = 0x4_0000

-- `LAPIC::Timer::init`
unfoldable pub lapic_timer_init : Measured → (vector : ℕ) → Mode → (divider : ℕ) → Lapic → Lapic
unfolding disable enable calibrate_frequency
lapic_timer_init m vector mode divider l =
    let l1 = write (disable l) timer_divide_config divider in
    let l2 = write l1 timer_lvt (bit_or vector (mode_bits mode)) in
    let (frequency, l3) = calibrate_frequency m l2 in
    enable (record l3 {
      apic_timer_frequency = frequency;
      apic_timer_ticks_per_ms = u32 (frequency / 1000);
    })
