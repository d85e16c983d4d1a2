-- ===== src/Dbg/Log.antt =====
-- src/kernel/dbg/logger/log.cc over the serial port of src/kernel/arch/serial.cc.
-- A text is the list of its characters, up to a null character. klib's `vsprintf` and the screen
-- (Drivers::TTY) are submodules and so arguments; `Args` are the arguments of a format. The write of
-- each character waits for the port on fuel.
pub mod Sent
pub mod Levels
mod Tests
use slayer_os.Base.{
  ℕ, zero, suc, ◌+◌, Bool, true, false, Option, none, some, List, [], ◌∷◌, ◌++◌, ◌==◌, ltb, leb,
  if◌then◌else◌, length, u32,
}
use slayer_os.Base.Cells.{codes}
use slayer_os.Arch.Ports.{PortIo}
use slayer_os.Arch.Serial.{uart_write}

-- The code of the escape character, and a text behind it.
abbrev pub esc : List ℕ → List ℕ
esc cs = 27 ∷ cs

-- `Drivers::TTY`, and klib's `vsprintf`.
pub record Output (W Args : Type 0) : Type 0 where
  pub initialized : W → Bool
  pub write : List ℕ → W → W
  pub vsprintf : List ℕ → Args → List ℕ
  pub no_args : Args

-- How a call ends: with the characters that it counts, not at all for a port that stays busy, or
-- with a write behind the end of one of its arrays.
pub data Printed (W : Type 0) : Type 0 where
  printed : ℕ → W → Printed W
  waits : Printed W
  overflows : Printed W

pub data Level : Type 0 where
  info critical success running debug warning : Level

-- The first characters of a line.
abbrev pub heading : Level → List ℕ
heading info = esc (codes "[37;1m[    INFO]" ++ esc (codes "[36m "))
heading critical = esc (codes "[31;1m[CRITICAL]" ++ esc (codes "[36m "))
heading success = esc (codes "[32;1m[ SUCCESS]" ++ esc (codes "[36m "))
heading running = esc (codes "[90;1m[ RUNNING]" ++ esc (codes "[36m "))
heading debug = esc (codes "[34;1m[   DEBUG]" ++ esc (codes "[36m "))
heading warning = esc (codes "[33;1m[ WARNING]" ++ esc (codes "[36m "))

abbrev pub line_end : List ℕ
line_end = esc (codes "[0m\n")

-- `ASSERT_MESSAGE`
abbrev pub assert_message : List ℕ
assert_message =
    codes "Failed assertion "
    ++ esc (
        codes "[0m"
        ++ esc (
            codes "[41m%s"
            ++ esc (
                codes "[0m\n\t   [ "
                ++ esc (
                    codes "[33m%s"
                    ++ esc (
                        codes "[0m ]  ->  "
                        ++ esc (
                            codes "[36;4m%s:%d"
                            ++ esc (codes "[0m in " ++ esc (codes "[36;4m%s"))))))))

module _ {W Args : Type 0} (io : PortIo W) (out : Output W Args) (fuel : ℕ) where
  unfoldable pub print_serial : List ℕ → W → Option W
  unfolding uart_write
  print_serial [] w = some w
  print_serial (c ∷ cs) w =
      if c == 0
      then some w
      else (elim (uart_write io fuel c w) [ none ↦ none | some w' ↦ print_serial cs w' ])

  -- `strlen`
  unfoldable pub strlen : List ℕ → ℕ
  strlen [] = 0
  strlen (c ∷ cs) = let rest = strlen cs in if c == 0 then 0 else rest + 1

  -- `Log::print`
  unfoldable pub print : List ℕ → W → Printed W
  unfolding print_serial strlen
  print message w = elim (print_serial message w) [
    | none ↦ waits
    | some w' ↦ printed (strlen message) (if out.initialized w' then out.write message w' else w')
  ]

  -- `Log::vsprintf`, and `Log::printf` likewise: the text, with its null character, is written to an
  -- array of 1024.
  unfoldable pub printf : List ℕ → Args → W → Printed W
  unfolding print
  printf format args w =
      let text = out.vsprintf format args in
      if ltb (length text) 1024 then print text w else overflows

  -- A call behind another one, whose counts are added.
  abbrev pub and_then : Printed W → (W → Printed W) → Printed W
  and_then waits next = waits
  and_then overflows next = overflows
  and_then (printed n w) next = elim (next w) [
    | printed m w' ↦ printed (n + m) w'
    | waits ↦ waits
    | overflows ↦ overflows
  ]

  -- The end of a line, which `debug` alone prints as a format.
  unfoldable pub print_line_end : Level → W → Printed W
  unfolding print printf
  print_line_end debug w = printf line_end out.no_args w
  print_line_end _ w = print line_end w

  -- `info`, `critical`, `success`, `running`, `debug` and `warning`: `strcat` to an array of 128, the
  -- text, and the end of the line.
  unfoldable pub log : Level → List ℕ → Args → W → Printed W
  unfolding printf print_line_end
  log level format args w =
      let base = heading level ++ format in
      if ltb (length base) 128
      then and_then (printf base args w) (print_line_end level)
      else overflows

  -- `Log::__failed_assert`
  unfoldable pub failed_assert : Args → W → Printed W
  unfolding log
  failed_assert args w = log critical assert_message args w
