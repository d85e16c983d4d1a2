-- ===== src/Sys/Acpi/Start.antt =====
-- src/kernel/sys/acpi.cc: the start of uACPI and the shutdown.
-- uACPI's three calls are arguments, on the machine's state `W`: each returns whether its status is
-- an error. `load` does nothing.
use slayer_os.Base.{Bool, true, false, if◌then◌else◌}

pub record Uacpi (W : Type 0) : Type 0 where
  pub initialize : W → Bool × W
  pub prepare_for_sleep_state : W → Bool × W
  pub enter_sleep_state : W → Bool × W
  pub disable_interrupts : W → W

module _ {W : Type 0} (uacpi : Uacpi W) where
  -- `Sys::ACPI::init`, with `acpi_initialized`
  unfoldable pub acpi_init : Bool × W → Bool × W
  acpi_init (initialized, w) =
      let (error, w') = uacpi.initialize w in if error then (initialized, w') else (true, w')

  -- `Sys::ACPI::is_initialized`
  abbrev pub is_initialized : Bool × W → Bool
  is_initialized (initialized, w) = initialized

  -- `Sys::ACPI::shutdown`: false is its result -1.
  unfoldable pub shutdown : W → Bool × W
  shutdown w =
      let (error, w1) = uacpi.prepare_for_sleep_state w in
      let (error', w2) = uacpi.enter_sleep_state (uacpi.disable_interrupts w1) in
      if error then (false, w1) else (if error' then (false, w2) else (true, w2))
