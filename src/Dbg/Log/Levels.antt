-- ===== src/Dbg/Log/Levels.antt =====
-- The levels of src/kernel/dbg/logger/log.cc on a serial port that gets ready.
use mathlib.Core.List.{append_assoc}
use slayer_os.Base.{
  ℕ, ◌≤◌, ◌<◌, ◌≡◌, ◌∙◌, refl, sym, ap, arith, inl, inr, List, [], ◌∷◌, ◌++◌, length, length-append,
  Bool-cases, lt→ltb, ne→==,
}
use slayer_os.Arch.Ports.{PortIo}
use slayer_os.Dbg.Log.{
  Output, Printed, printed, Level, info, critical, success, running, debug, warning, heading,
  line_end, strlen, print, printf, log, and_then, print_line_end,
}
use slayer_os.Dbg.Log.Sent.{IsUart, NoNull, print_serial_lem}

-- What a call that prints a text does: it counts the characters and sends them.
pub record Sends {W : Type 0} (io : PortIo W) (limit : ℕ) (uart : IsUart io limit) (w : W)
    (text : List ℕ) (p : Printed W) : Type 0 where
  pub after : W
  pub ends : p ≡ printed (length text) after
  pub all : uart.sent after ≡ uart.sent w ++ text
  pub soon : uart.busy after < limit

-- The screen leaves the port alone, and a format without a `%` is its own text.
pub record IsOutput {W Args : Type 0} {io : PortIo W} {limit : ℕ} (uart : IsUart io limit)
    (out : Output W Args) : Type 0 where
  pub sent : (text : List ℕ) (w : W) → uart.sent (out.write text w) ≡ uart.sent w
  pub busy : (text : List ℕ) (w : W) → uart.busy (out.write text w) ≡ uart.busy w
  pub plain : out.vsprintf line_end out.no_args ≡ line_end

line_end-NoNull : NoNull line_end
line_end-NoNull = (
  (λ e. omega arith),
  ((λ e. omega arith), ((λ e. omega arith), ((λ e. omega arith), ((λ e. omega arith), tt)))),
)

length-heading : (level : Level) → length (heading level) ≡ 23
length-heading info = refl
length-heading critical = refl
length-heading success = refl
length-heading running = refl
length-heading debug = refl
length-heading warning = refl

module _ {W Args : Type 0} (io : PortIo W) (limit : ℕ) (uart : IsUart io limit)
    (out : Output W Args) (laws : IsOutput uart out) (fuel : ℕ) (enough : limit ≤ fuel) where
  strlen-NoNull : (text : List ℕ) → NoNull text → strlen io out fuel text ≡ length text
  unfolding strlen
  strlen-NoNull [] full = refl
  strlen-NoNull (c ∷ cs) (there, full) =
      let rest = strlen-NoNull cs full in rw (ne→== c 0 there, rest) (omega arith)

  print_lem :
      (text : List ℕ) (w : W)
      → uart.busy w < limit
      → NoNull text
      → Sends io limit uart w text (print io out fuel text w)
  unfolding print
  print_lem text w h full =
      let (w', run, all, soon) = print_serial_lem io limit uart out fuel text w enough h full in
      elim (Bool-cases (out.initialized w')) [
        | inl t ↦ record {
          after = out.write text w';
          ends = rw (run, print, t, strlen-NoNull text full) refl;
          all = laws.sent text w' ∙ all;
          soon = omega (arith, laws.busy text w');
        }
        | inr f ↦ record {
          after = w';
          ends = rw (run, print, f, strlen-NoNull text full) refl;
          all = all;
          soon = soon;
        }
      ]

  printf_lem :
      (format text : List ℕ) (args : Args) (w : W)
      → out.vsprintf format args ≡ text
      → uart.busy w < limit
      → NoNull text
      → length text < 1024
      → Sends io limit uart w text (printf io out fuel format args w)
  unfolding printf
  printf_lem format text args w e h full short =
      rw (e, printf, lt→ltb (length text) 1024 short) (print_lem text w h full)

  -- The counts of two texts.
  Sends-and_then :
      (w : W) (one two : List ℕ) (p : Printed W) (next : W → Printed W)
      → Sends io limit uart w one p
      → ((w' : W) → uart.busy w' < limit → Sends io limit uart w' two (next w'))
      → Sends io limit uart w (one ++ two) (and_then io out fuel p next)
  Sends-and_then w one two p next first more =
      let second = more first.after first.soon in
      record {
        after = second.after;
        ends =
            rw (first.ends, and_then, second.ends)
              (ap (λ n. printed n second.after) (sym (length-append one two)));
        all = second.all ∙ ap (λ l. l ++ two) first.all ∙ append_assoc (uart.sent w) one two;
        soon = second.soon;
      }

  print_line_end_lem :
      (level : Level) (w : W)
      → uart.busy w < limit
      → Sends io limit uart w line_end (print_line_end io out fuel level w)
  unfolding print_line_end
  print_line_end_lem info w h = print_lem line_end w h line_end-NoNull
  print_line_end_lem critical w h = print_lem line_end w h line_end-NoNull
  print_line_end_lem success w h = print_lem line_end w h line_end-NoNull
  print_line_end_lem running w h = print_lem line_end w h line_end-NoNull
  print_line_end_lem debug w h =
      printf_lem line_end line_end out.no_args w laws.plain h line_end-NoNull (omega arith)
  print_line_end_lem warning w h = print_lem line_end w h line_end-NoNull

  -- On a serial port that is never busy for `limit` reads of its status, every level prints a format
  -- of at most 104 characters, whose text has less than 1024 and no null: the call ends, counts the
  -- text's characters and the five of the end of the line, and the port has sent exactly these, whether
  -- or not there is a screen, which leaves the port alone.
  pub log-Sends :
      (level : Level) (format text : List ℕ) (args : Args) (w : W)
      → length format ≤ 104
      → out.vsprintf (heading level ++ format) args ≡ text
      → length text < 1024
      → NoNull text
      → uart.busy w < limit
      → Sends io limit uart w (text ++ line_end) (log io out fuel level format args w)
  unfolding log
  log-Sends level format text args w short e small full h =
      let base = heading level ++ format in
      let fits : length base < 128 =
        omega (arith, length-append (heading level) format, length-heading level) in
      rw (lt→ltb (length base) 128 fits) (
        Sends-and_then w text line_end (printf io out fuel base args w)
          (print_line_end io out fuel level) (printf_lem base text args w e h full small)
          (print_line_end_lem level))
