-- ===== src/Cpu/Lapic/Tests.antt =====
-- The choice of src/kernel/cpu/lapic/lapic.cc at a fast and at a slow clock.
use slayer_os.Base.{some, ◌≡◌, ◌*◌, ◌-◌, refl, arith}
use slayer_os.Cpu.Lapic.{Lapic, Measured, periodic, timer_divide_config, choose, lapic_timer_init}
use slayer_os.Cpu.Lapic.Calibration.{AtRate, lapic_timer_init_lem}
use slayer_os.Cpu.Lapic.Frequency.{Chosen, choose-Chosen}

choose-Chosen_example : Chosen 10_000_000_000 1 (choose 10_000_000_000 1)
choose-Chosen_example = choose-Chosen 10_000_000_000 1 (omega arith) (omega arith)

choices :
    (choose 1_000_000 100 ≡ some (1, 10_000)) × (choose 10_000_000_000 1 ≡ some (4, 2_500_000_000))
unfolding choose
choices = (refl, refl)

-- Ten ticks of the interval timer, in which the local APIC counts down by 100000 each.
abbrev measured : Measured
measured = record {
  start_count = 0xffff_ffff;
  end_count = 0xffff_ffff - 1_000_000;
  start_pit_ticks = 500;
  end_pit_ticks = 510;
}

measured-AtRate : AtRate measured 100_000 10
measured-AtRate = record {
  ticked = refl;
  some_ticks = omega arith;
  ticks_fit = omega arith;
  counted = refl;
  counts_fit = omega arith;
}

abbrev blank : Lapic
blank = record { registers = λ _. 0; apic_timer_frequency = 0; apic_timer_ticks_per_ms = 0 }

lapic_timer_init_lem_example :
    let l' = lapic_timer_init measured 0x21 periodic 0b0011 blank in
    (l'.apic_timer_frequency ≡ 100_000 * 1000)
    × (l'.apic_timer_ticks_per_ms ≡ 100_000)
    × (l'.registers timer_divide_config ≡ 0b1011)
lapic_timer_init_lem_example =
    lapic_timer_init_lem measured 100_000 10 0x21 periodic 0b0011 blank measured-AtRate
