-- ===== src/Dbg/Log/Tests.antt =====
-- The log of src/kernel/dbg/logger/log.cc on a port that is busy for one read behind each character.
use slayer_os.Base.{
  ℕ, zero, suc, ◌-◌, ◌≡◌, ◌≢◌, refl, arith, true, false, List, [], ◌∷◌, ◌++◌, ◌==◌, if◌then◌else◌,
  bit_and, eq→==, ne→==, length, ltb,
}
use slayer_os.Base.Cells.{codes}
use slayer_os.Arch.Ports.{PortIo}
use slayer_os.Dbg.Log.{Output, overflows, info, heading, line_end, assert_message, log}
use slayer_os.Dbg.Log.Sent.{IsUart, NoNull}
use slayer_os.Dbg.Log.Levels.{Sends, IsOutput, log-Sends}

record Device : Type 0 where
  sent : List ℕ
  busy : ℕ

-- The status is the only port that is read, and the data the only one that is written.
abbrev ports : PortIo Device
ports = record {
  inb = λ port w. (if w.busy == 0 then 0x20 else 0, record w { busy = w.busy - 1 });
  inw = λ port w. (0, w);
  ind = λ port w. (0, w);
  outb = λ port c w. record { sent = w.sent ++ (c ∷ []); busy = 1 };
  outw = λ port c w. w;
  outd = λ port c w. w;
}

ready_status : (b : ℕ) → b ≡ 0 → bit_and (if b == 0 then 0x20 else 0) 0x20 ≢ 0
ready_status b e z = let t = eq→== b 0 e in let bad : ◌≡◌ {A = ℕ} 32 0 = rw t at z in omega arith

busy_status : (b n : ℕ) → b ≡ suc n → bit_and (if b == 0 then 0x20 else 0) 0x20 ≡ 0
busy_status b n e = rw (ne→== b 0 (λ z. omega arith)) refl

ports-IsUart : IsUart ports 2
ports-IsUart = record {
  sent = λ w. w.sent;
  busy = λ w. w.busy;
  is_busy = λ w n e. busy_status w.busy n e;
  is_ready = λ w e. ready_status w.busy e;
  keeps = λ w. refl;
  gets_ready = λ w n e. omega arith;
  stays_ready = λ w e. omega arith;
  sends = λ w c e. refl;
  sends_slowly = λ w c e. omega arith;
}

-- No screen, and a printer that copies the format.
abbrev copies : Output Device Unit
copies = record {
  initialized = λ w. false;
  write = λ text w. w;
  vsprintf = λ format args. format;
  no_args = tt;
}

copies-IsOutput : IsOutput ports-IsUart copies
copies-IsOutput = record { sent = λ text w. refl; busy = λ text w. refl; plain = refl }

abbrev quiet : Device
quiet = record { sent = []; busy = 0 }

abbrev copies_of : ℕ → List ℕ
copies_of zero = []
copies_of (suc n) = b'x' ∷ copies_of n

abbrev greeting : List ℕ
greeting = heading info ++ codes "hi"

greeting-NoNull : NoNull greeting
greeting-NoNull = (
  (λ e. omega arith),
  (
    (λ e. omega arith),
    (
      (λ e. omega arith),
      (
        (λ e. omega arith),
        (
          (λ e. omega arith),
          (
            (λ e. omega arith),
            (
              (λ e. omega arith),
              (
                (λ e. omega arith),
                (
                  (λ e. omega arith),
                  (
                    (λ e. omega arith),
                    (
                      (λ e. omega arith),
                      (
                        (λ e. omega arith),
                        (
                          (λ e. omega arith),
                          (
                            (λ e. omega arith),
                            (
                              (λ e. omega arith),
                              (
                                (λ e. omega arith),
                                (
                                  (λ e. omega arith),
                                  (
                                    (λ e. omega arith),
                                    (
                                      (λ e. omega arith),
                                      (
                                        (λ e. omega arith),
                                        (
                                          (λ e. omega arith),
                                          (
                                            (λ e. omega arith),
                                            (
                                              (λ e. omega arith),
                                              ((λ e. omega arith), ((λ e. omega arith), tt)),
                                            ),
                                          ),
                                        ),
                                      ),
                                    ),
                                  ),
                                ),
                              ),
                            ),
                          ),
                        ),
                      ),
                    ),
                  ),
                ),
              ),
            ),
          ),
        ),
      ),
    ),
  ),
)

-- A format of 105 characters does not fit behind the heading.
fits_not : log ports copies 2 info (copies_of 105) tt quiet ≡ overflows
unfolding log
fits_not = refl

assertion_fits : ltb (length (heading info ++ assert_message)) 128 ≡ true
assertion_fits = refl

log-Sends_example :
    Sends ports 2 ports-IsUart quiet
      (greeting ++ line_end)
      (log ports copies 2 info (codes "hi") tt quiet)
unfolding ports-IsUart
log-Sends_example =
    log-Sends ports 2 ports-IsUart copies copies-IsOutput 2 (omega arith) info (codes "hi") greeting
      tt quiet (omega arith) refl (omega arith) greeting-NoNull (omega arith)
