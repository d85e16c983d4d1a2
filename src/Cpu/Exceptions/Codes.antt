-- ===== src/Cpu/Exceptions/Codes.antt =====
-- The error code that a report of src/kernel/cpu/interrupts/handler.cc was made from.
use slayer_os.Base.{
  ℕ, zero, suc, ◌+◌, ◌*◌, ◌/◌, ◌%◌, ◌^◌, ◌≡◌, ◌∙◌, ◌<◌, ap, refl, ◌==◌, Bool, true, false, not,
  Option, some, List, [], ◌∷◌, ◌++◌, if◌then◌else◌, bit_and, u8, sub64, ltb, arith,
}
use slayer_os.Base.Bits.{bit_and_low_bits}
use slayer_os.Cpu.Exceptions.{
  IsrFrame, Message, protection_violation, write_operation, user_mode, reserved_bit,
  instruction_fetch, protection_key, shadow_stack, page_not_present, read_operation,
  supervisor_mode, has_bit, handle_page_fault, handle_err_code, isr_handler, dump_registers,
  find_rip, interrupt, message_of, error_code_of, register_lines, message_text,
}

-- The bit of the error code of a page fault that a message tells of.
abbrev pub bit_of : Message → ℕ
bit_of protection_violation = 1
bit_of write_operation = 2
bit_of user_mode = 4
bit_of reserved_bit = 8
bit_of instruction_fetch = 16
bit_of protection_key = 32
bit_of shadow_stack = 64
bit_of _ = 0

-- The error code that the messages of a page fault tell of.
abbrev pub code_of : List Message → ℕ
code_of [] = 0
code_of (m ∷ ms) = bit_of m + code_of ms

-- The value of bit `k` of the attributes.
bit_at : (attrs k : ℕ) → has_bit attrs k ≡ not (attrs / 2 ^ k % 2 == 0)
bit_at attrs k = ap (λ b. not (b == 0)) (bit_and_low_bits 1 (attrs / 2 ^ k))

bit_value : (attrs k v : ℕ) → (if has_bit attrs k then v else 0) ≡ (attrs / 2 ^ k % 2) * v
bit_value attrs k v = rw (bit_at attrs k) (of_bit (attrs / 2 ^ k % 2) (omega arith))
  where
    of_bit : (b : ℕ) → b < 2 → (if not (b == 0) then v else 0) ≡ b * v
    of_bit zero h = omega arith
    of_bit (suc zero) h = omega arith
    of_bit (suc (suc b)) h = absurd (omega arith)

-- A message that is printed where a bit is set.
code_of-optional :
    (b : Bool) (m : Message) (ms : List Message)
    → code_of ((if b then m ∷ [] else []) ++ ms) ≡ (if b then bit_of m else 0) + code_of ms
code_of-optional true m ms = refl
code_of-optional false m ms = omega arith

code_of-last :
    (b : Bool) (m : Message) → code_of (if b then m ∷ [] else []) ≡ (if b then bit_of m else 0)
code_of-last true m = omega arith
code_of-last false m = refl

-- One of two messages, of which the second tells of no bit.
bit_of-choice :
    (b : Bool) (m m' : Message)
    → bit_of m' ≡ 0
    → bit_of (if b then m else m') ≡ (if b then bit_of m else 0)
bit_of-choice true m m' e = refl
bit_of-choice false m m' e = e

-- The seven bits of a number below 128.
seven_bits :
    (a : ℕ)
    → a < 2 ^ 7
    → (a / 2 ^ 0 % 2) * 1
        + ((a / 2 ^ 1 % 2) * 2
            + ((a / 2 ^ 2 % 2) * 4
                + ((a / 2 ^ 3 % 2) * 8
                    + ((a / 2 ^ 4 % 2) * 16 + ((a / 2 ^ 5 % 2) * 32 + (a / 2 ^ 6 % 2) * 64)))))
      ≡ a
seven_bits a h = omega arith

-- The optional messages of a page fault.
optional_code :
    (a : ℕ)
    → code_of (
        (if has_bit a 3 then reserved_bit ∷ [] else [])
        ++ ((if has_bit a 4 then instruction_fetch ∷ [] else [])
            ++ ((if has_bit a 5 then protection_key ∷ [] else [])
                ++ (if has_bit a 6 then shadow_stack ∷ [] else []))))
      ≡ (a / 2 ^ 3 % 2) * 8 + ((a / 2 ^ 4 % 2) * 16 + ((a / 2 ^ 5 % 2) * 32 + (a / 2 ^ 6 % 2) * 64))
optional_code a = omega (
  arith,
  code_of-optional (has_bit a 3) reserved_bit (
      (if has_bit a 4 then instruction_fetch ∷ [] else [])
      ++ ((if has_bit a 5 then protection_key ∷ [] else [])
          ++ (if has_bit a 6 then shadow_stack ∷ [] else []))),
  code_of-optional (has_bit a 4) instruction_fetch (
      (if has_bit a 5 then protection_key ∷ [] else [])
      ++ (if has_bit a 6 then shadow_stack ∷ [] else [])),
  code_of-optional (has_bit a 5) protection_key (if has_bit a 6 then shadow_stack ∷ [] else []),
  code_of-last (has_bit a 6) shadow_stack,
  bit_value a 3 8,
  bit_value a 4 16,
  bit_value a 5 32,
  bit_value a 6 64,
)

handle_page_fault_lem :
    (info : IsrFrame) → code_of (handle_page_fault info) ≡ info.error_code % 2 ^ 7
unfolding handle_page_fault
handle_page_fault_lem info =
    let a : ℕ = u8 (bit_and info.error_code 0x7f) in
    let low : a ≡ info.error_code % 2 ^ 7 = omega (arith, bit_and_low_bits 7 info.error_code) in
    let small : a < 2 ^ 7 = omega (arith, low) in
    omega (
      arith,
      low,
      bit_of-choice (has_bit a 0) protection_violation page_not_present refl ∙ bit_value a 0 1,
      bit_of-choice (has_bit a 1) write_operation read_operation refl ∙ bit_value a 1 2,
      bit_of-choice (has_bit a 2) user_mode supervisor_mode refl ∙ bit_value a 2 4,
      optional_code a,
      seven_bits a small,
    )

code_of-append : (ms ns : List Message) → code_of (ms ++ ns) ≡ code_of ms + code_of ns
code_of-append [] ns = omega arith
code_of-append (m ∷ ms) ns = omega (arith, code_of-append ms ns)

register_lines_lem : (info : IsrFrame) → code_of (register_lines info) ≡ 0
unfolding register_lines
register_lines_lem info = refl

no_code : (b : Bool) (code : ℕ) → code_of (if b then [] else error_code_of code ∷ []) ≡ 0
no_code true code = refl
no_code false code = refl

no_message : (b : Bool) (text : List ℕ) → code_of (if b then message_of text ∷ [] else []) ≡ 0
no_message true text = refl
no_message false text = refl

dump_registers_lem : (info : IsrFrame) → code_of (dump_registers info) ≡ 0
unfolding dump_registers
dump_registers_lem info =
    let text = message_text info.int_num in
    let name = if ltb info.int_num 22 then message_of text ∷ [] else [] in
    let code = if info.error_code == 0 then [] else error_code_of info.error_code ∷ [] in
    omega (
      arith,
      code_of-append (interrupt info.int_num ∷ []) (name ++ (code ++ register_lines info)),
      code_of-append name (code ++ register_lines info),
      code_of-append code (register_lines info),
      no_message (ltb info.int_num 22) text,
      no_code (info.error_code == 0) info.error_code,
      register_lines_lem info,
    )

-- The frame of a report.
abbrev pub located : (ℕ → Option ℕ) → IsrFrame → IsrFrame
located lookup info = record info { rip = find_rip lookup info.return_address }

-- The report of a page fault.
pub isr_handler-page_fault :
    (lookup : ℕ → Option ℕ) (info : IsrFrame)
    → info.int_num ≡ 0x0e
    → (isr_handler lookup info
        ≡ some (
          located lookup info,
          dump_registers (located lookup info) ++ handle_page_fault (located lookup info),
          if ltb (sub64 info.return_address (find_rip lookup info.return_address)) 0x2
              then info.return_address
              else find_rip lookup info.return_address,
        ))
      × (code_of (dump_registers (located lookup info) ++ handle_page_fault (located lookup info))
          ≡ info.error_code % 2 ^ 7)
unfolding isr_handler handle_err_code
isr_handler-page_fault lookup info e =
    let info' = located lookup info in
    (
      simp e refl,
      code_of-append (dump_registers info') (handle_page_fault info')
          ∙ omega (arith, dump_registers_lem info', handle_page_fault_lem info'),
    )

-- A page fault is reported, and the messages of the report tell of every one of the seven bits of
-- its error code that are set, and of no other.
pub isr_handler_lem :
    (lookup : ℕ → Option ℕ) (info : IsrFrame)
    → info.int_num ≡ 0x0e
    → (info' : IsrFrame) × (messages : List Message) × (at : ℕ) × (isr_handler lookup info
        ≡ some (info', messages, at))
      × (code_of messages ≡ info.error_code % 2 ^ 7)
isr_handler_lem lookup info e =
    let (run, code) = isr_handler-page_fault lookup info e in (_, _, _, run, code)
