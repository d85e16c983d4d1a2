-- ===== src/Arch/Serial.antt =====
-- src/kernel/arch/serial.cc and `PIC::disable` of src/kernel/cpu/interrupts/pic.cc, over the port
-- instructions. A wait reads a status as often as `fuel` says; `none` is that it goes on.
use slayer_os.Base.{ℕ, zero, suc, ◌+◌, Bool, not, Option, none, some, ◌==◌, if◌then◌else◌, bit_and}
use slayer_os.Arch.Ports.{PortIo}

abbrev pub com1 : ℕ
com1 = 0x3f8

module _ {W : Type 0} (io : PortIo W) where
  -- `UART::active`
  abbrev pub active : W → Bool × W
  active w = let (status, w') = io.inb (com1 + 5) w in (not (bit_and status 1 == 0), w')

  -- `UART::transmit_empty`
  abbrev pub transmit_empty : W → Bool × W
  transmit_empty w = let (status, w') = io.inb (com1 + 5) w in (not (bit_and status 0x20 == 0), w')

  -- `while(!test());`
  unfoldable pub wait_for : (W → Bool × W) → ℕ → W → Option W
  wait_for test zero w = none
  wait_for test (suc fuel) w =
      let (ready, w') = test w in
      let rest = wait_for test fuel w' in if ready then some w' else rest

  -- `UART::read`
  unfoldable pub uart_read : ℕ → W → Option (ℕ × W)
  unfolding wait_for
  uart_read fuel w = elim (wait_for active fuel w) [ none ↦ none | some w' ↦ some (io.inb com1 w') ]

  -- `UART::write`
  unfoldable pub uart_write : ℕ → ℕ → W → Option W
  unfolding wait_for
  uart_write fuel char w = elim (wait_for transmit_empty fuel w) [
    | none ↦ none
    | some w' ↦ some (io.outb com1 char w')
  ]

  -- The writes of `UART::init` in front of its test.
  unfoldable pub configure : W → W
  configure w =
      let w1 = io.outb (com1 + 1) 0x00 w in
      let w2 = io.outb (com1 + 3) 0x80 w1 in
      let w3 = io.outb (com1 + 0) 0x03 w2 in
      let w4 = io.outb (com1 + 1) 0x00 w3 in
      let w5 = io.outb (com1 + 3) 0x03 w4 in
      let w6 = io.outb (com1 + 2) 0xc7 w5 in
      let w7 = io.outb (com1 + 4) 0x0b w6 in
      let w8 = io.outb (com1 + 4) 0x1e w7 in io.outb (com1 + 0) 0xae w8

  -- `UART::init`. `none`: the byte did not come back, and the code stays in an empty loop.
  unfoldable pub uart_init : W → Option W
  unfolding configure
  uart_init w =
      let (back, w') = io.inb (com1 + 0) (configure w) in
      if back == 0xae then some (io.outb (com1 + 4) 0x0f w') else none

  -- `PIC::disable`
  abbrev pub pic_disable : W → W
  pic_disable w = io.outb 0xa1 0xff (io.outb 0x21 0xff w)
