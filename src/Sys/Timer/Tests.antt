-- ===== src/Sys/Timer/Tests.antt =====
-- The clock of src/kernel/sys/timer.cc at small numbers.
use slayer_os.Base.{◌≡◌, refl, some, [], ◌∷◌}
use slayer_os.Sys.Timer.{Timer, no_timer, timer_init}
use slayer_os.Sys.Timer.Clock.{clock}

abbrev cold : Timer
cold = record {
  active_timer = no_timer;
  frequency = 0;
  pit = record { ticks_since_boot = 0; timer_frequency = 0; written = [] };
}

starts : timer_init cold ≡ some (clock 0 ((0x43, 0x36) ∷ (0x40, 0xa9) ∷ (0x40, 4) ∷ []))
unfolding timer_init
starts = refl
