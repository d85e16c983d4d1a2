-- ===== src/Dbg/Log/Sent.antt =====
-- What `print_serial` of src/kernel/dbg/logger/log.cc sends to a port that gets ready.
use mathlib.Core.List.{append_assoc, append-nil}
use slayer_os.Base.{
  ◌⊎◌, inl, inr, ℕ, zero, suc, ◌+◌, ◌≤◌, ◌<◌, ◌≡◌, ◌≢◌, ◌∙◌, refl, sym, ap, arith, some, List, [],
  ◌∷◌, ◌++◌, bit_and, eq→==, ne→==,
}
use slayer_os.Arch.Ports.{PortIo}
use slayer_os.Arch.Serial.{com1, wait_for, transmit_empty, uart_write}
use slayer_os.Dbg.Log.{Output, print_serial}

-- A serial port: what it has sent, and for how many reads of its status it is still busy. It takes
-- a character while it is not busy, and is then busy for less than `limit` reads.
pub record IsUart {W : Type 0} (io : PortIo W) (limit : ℕ) : Type 0 where
  pub sent : W → List ℕ
  pub busy : W → ℕ
  pub is_busy : (w : W) (n : ℕ) → busy w ≡ suc n → bit_and (io.inb (com1 + 5) w).0 0x20 ≡ 0
  pub is_ready : (w : W) → busy w ≡ 0 → bit_and (io.inb (com1 + 5) w).0 0x20 ≢ 0
  pub keeps : (w : W) → sent (io.inb (com1 + 5) w).1 ≡ sent w
  pub gets_ready : (w : W) (n : ℕ) → busy w ≡ suc n → busy (io.inb (com1 + 5) w).1 ≡ n
  pub stays_ready : (w : W) → busy w ≡ 0 → busy (io.inb (com1 + 5) w).1 ≡ 0
  pub sends : (w : W) (c : ℕ) → busy w ≡ 0 → sent (io.outb com1 c w) ≡ sent w ++ (c ∷ [])
  pub sends_slowly : (w : W) (c : ℕ) → busy w ≡ 0 → busy (io.outb com1 c w) < limit

abbrev pub NoNull : List ℕ → Type 0
NoNull [] = Unit
NoNull (c ∷ cs) = (c ≢ 0) × NoNull cs

zero_or_suc : (n : ℕ) → (n ≡ 0) ⊎ ((m : ℕ) × (n ≡ suc m))
zero_or_suc zero = inl refl
zero_or_suc (suc m) = inr (m, refl)

module _ {W : Type 0} (io : PortIo W) (limit : ℕ) (uart : IsUart io limit) where
  wait_for-transmit_empty :
      (fuel : ℕ) (w : W)
      → uart.busy w < fuel
      → (w' : W) × (wait_for io (transmit_empty io) fuel w ≡ some w')
        × (uart.sent w' ≡ uart.sent w)
        × (uart.busy w' ≡ 0)
  unfolding wait_for
  wait_for-transmit_empty zero w h = absurd (omega arith)
  wait_for-transmit_empty (suc fuel) w h = elim (zero_or_suc (uart.busy w)) [
    | inl ready ↦ (
      (io.inb (com1 + 5) w).1,
      rw (ne→== _ 0 (uart.is_ready w ready)) refl,
      uart.keeps w,
      uart.stays_ready w ready,
    )
    | inr (n, busy) ↦
        let less : uart.busy (io.inb (com1 + 5) w).1 < fuel =
          omega (arith, uart.gets_ready w n busy) in
        let (w', run, same, ready) = wait_for-transmit_empty fuel (io.inb (com1 + 5) w).1 less in
        (w', rw (eq→== _ 0 (uart.is_busy w n busy)) run, same ∙ uart.keeps w, ready)
  ]

  uart_write_lem :
      (fuel : ℕ) (c : ℕ) (w : W)
      → uart.busy w < fuel
      → (w' : W) × (uart_write io fuel c w ≡ some w')
        × (uart.sent w' ≡ uart.sent w ++ (c ∷ []))
        × (uart.busy w' < limit)
  unfolding uart_write
  uart_write_lem fuel c w h =
      let (w', run, same, ready) = wait_for-transmit_empty fuel w h in
      (
        io.outb com1 c w',
        rw (run, uart_write) refl,
        uart.sends w' c ready ∙ ap (λ l. l ++ (c ∷ [])) same,
        uart.sends_slowly w' c ready,
      )

  module _ {Args : Type 0} (out : Output W Args) where
    -- A text without a null character is sent in full.
    pub print_serial_lem :
        (fuel : ℕ) (text : List ℕ) (w : W)
        → limit ≤ fuel
        → uart.busy w < limit
        → NoNull text
        → (w' : W) × (print_serial io out fuel text w ≡ some w')
          × (uart.sent w' ≡ uart.sent w ++ text)
          × (uart.busy w' < limit)
    unfolding print_serial
    print_serial_lem fuel [] w enough h full = (w, refl, sym (append-nil (uart.sent w)), h)
    print_serial_lem fuel (c ∷ cs) w enough h (there, full) =
        let (w1, run, one, busy) = uart_write_lem fuel c w (omega arith) in
        let (w2, rest, all, busy') = print_serial_lem fuel cs w1 enough busy full in
        (
          w2,
          rw (ne→== c 0 there, run) rest,
          all ∙ ap (λ l. l ++ cs) one ∙ append_assoc (uart.sent w) (c ∷ []) cs,
          busy',
        )
