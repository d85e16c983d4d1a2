-- ===== src/Arch/Ports.antt =====
-- The port instructions of Drivers::IO (drivers/io.h, a submodule) as operations on the devices of
-- the machine, whose states are `W`. A read may change a device too.
use slayer_os.Base.{ℕ}

pub record PortIo (W : Type 0) : Type 0 where
  pub inb : ℕ → W → ℕ × W
  pub inw : ℕ → W → ℕ × W
  pub ind : ℕ → W → ℕ × W
  pub outb : ℕ → ℕ → W → W
  pub outw : ℕ → ℕ → W → W
  pub outd : ℕ → ℕ → W → W
